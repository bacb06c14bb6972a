-- ===== src/Reports/Markdown.antt =====
-- The two exports of a report as a text.
use replyline.Prelude.{List, String, Text, [], codes, join, length, ℕ, ◌++◌, ◌+◌, ◌∷◌}
use replyline.Prelude.Decimal.{display}
use replyline.Capture.{InterviewQuestionReportDto}
use replyline.Reports.{InterviewReportDto, InterviewReportScoresDto}

abbrev line : String → Text → Text
line name value = codes name ++ value

unfoldable pub score_lines : InterviewReportScoresDto → List Text
unfolding display
score_lines scores =
    codes "## Scores"
    ∷ line "- Clarity: " (display scores.clarity)
    ∷ line "- Relevance: " (display scores.relevance)
    ∷ line "- Accuracy: " (display scores.accuracy)
    ∷ codes ""
    ∷ []

abbrev heading : ℕ → InterviewQuestionReportDto → Text
heading idx q = codes "### " ++ display (idx + 1) ++ codes ". " ++ q.clean_question

-- The lines of each question with its place.
unfoldable pub question_lines :
    (ℕ → InterviewQuestionReportDto → List Text) → ℕ → List InterviewQuestionReportDto → List Text
question_lines lines idx [] = []
question_lines lines idx (q ∷ questions) = lines idx q ++ question_lines lines (idx + 1) questions

abbrev pub full_lines : ℕ → InterviewQuestionReportDto → List Text
full_lines idx q =
    heading idx q
    ∷ line "- Timestamp: " q.timestamp
    ∷ line "- Raw transcript: " q.raw_transcript
    ∷ line "- Question type: " q.question_type
    ∷ line "- Answer: " q.answer_main
    ∷ []

abbrev pub redacted_lines : ℕ → InterviewQuestionReportDto → List Text
redacted_lines idx q =
    heading idx q
    ∷ line "- Timestamp: " q.timestamp
    ∷ line "- Question type: " q.question_type
    ∷ line "- Answer: " q.answer_main
    ∷ []

unfoldable pub to_markdown : InterviewReportDto → Text
unfolding join score_lines question_lines
to_markdown report = join (codes "\n") (
    (line "# Post-Interview Report " report.session_id
      ∷ line "Started: " report.started_at
      ∷ line "Ended: " report.ended_at
      ∷ line "Language: " report.language
      ∷ codes ""
      ∷ [])
    ++ score_lines report.scores
    ++ (codes "## Questions" ∷ question_lines full_lines 0 report.questions))

unfoldable pub to_redacted_markdown : InterviewReportDto → Text
unfolding join score_lines question_lines display
to_redacted_markdown report = join (codes "\n") (
    (line "# Post-Interview Report (Redacted) " report.session_id
      ∷ line "Session: " report.session_id
      ∷ line "Started: " report.started_at
      ∷ line "Ended: " report.ended_at
      ∷ line "Language: " report.language
      ∷ line "Question count: " (display (length report.questions))
      ∷ codes ""
      ∷ [])
    ++ score_lines report.scores
    ++ (codes "## Feedback"
        ∷ line "- Strengths: " (display (length report.feedback.strengths))
        ∷ line "- Improvements: " (display (length report.feedback.improvements))
        ∷ line "- Missing examples: " (display (length report.feedback.missing_examples))
        ∷ codes ""
        ∷ codes "## Questions"
        ∷ question_lines redacted_lines 0 report.questions))
