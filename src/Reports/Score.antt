-- ===== src/Reports/Score.antt =====
-- The scores and the feedback of a report, and the report itself. Sums and products wrap at 32 bits;
-- a vector of questions is shorter than 2 ^ 32.
use replyline.Prelude.{
  Bool, List, Text, [], any, byte_len, codes, contains_char, if◌then◌else◌, is_empty, join, leb,
  length, ltb, map, min, not, retain, text_eq, word_count, ℕ, ◌%◌, ◌&&◌, ◌*◌, ◌++◌, ◌+◌, ◌-◌, ◌/◌,
  ◌^◌, ◌∷◌,
}
use replyline.Prelude.Slices.{split_on}
use replyline.Prelude.Unicode.{Unicode}
use replyline.Capture.{InterviewQuestionReportDto, InterviewSessionState}
use replyline.Reports.{InterviewReportDto, InterviewReportFeedbackDto, InterviewReportScoresDto}

abbrev pub is_ascii_digit : ℕ → Bool
is_ascii_digit c = leb 48 c && leb c 57

-- A set is the list of its elements, each once.
unfoldable pub collect_set : List Text → List Text
collect_set [] = []
collect_set (v ∷ vs) = let rest = collect_set vs in if any (text_eq v) rest then rest else v ∷ rest

unfoldable pub token_set : Unicode → Text → List Text
unfolding split_on collect_set
token_set u value = collect_set (
    retain (λ v. leb 4 (byte_len v))
      (split_on (λ c. not (u.is_alphanumeric c)) (u.to_lowercase value)))

unfoldable pub clarity_of : InterviewQuestionReportDto → ℕ
unfolding word_count
clarity_of q =
    let sentence_bonus = if contains_char q.answer_main b'.' then 15 else 0 in
    min ((40 + min (word_count q.answer_main) 45 + sentence_bonus) % 2 ^ 32) 100

unfoldable pub relevance_of : Unicode → InterviewQuestionReportDto → ℕ
unfolding token_set
relevance_of u q =
    let a_tokens = token_set u q.answer_main in
    let overlap = length (retain (λ t. any (text_eq t) a_tokens) (token_set u q.clean_question)) in
    min ((35 + overlap * 10) % 2 ^ 32) 100

-- A digit in the answer that the transcript does not have costs 15 points.
unfoldable pub accuracy_of : Bool → InterviewQuestionReportDto → ℕ
accuracy_of has_active_context_pack q =
    let accuracy = if has_active_context_pack then 75 else 60 in
    if any is_ascii_digit q.answer_main && not (any is_ascii_digit q.raw_transcript)
    then accuracy - 15
    else accuracy

unfoldable pub sum_of : (InterviewQuestionReportDto → ℕ) → ℕ → List InterviewQuestionReportDto → ℕ
sum_of f sum [] = sum
sum_of f sum (q ∷ questions) = sum_of f ((sum + f q) % 2 ^ 32) questions

abbrev average : ℕ → ℕ → ℕ
average sum len = min (sum / len) 100

unfoldable pub score : Unicode → List InterviewQuestionReportDto → Bool → InterviewReportScoresDto
unfolding sum_of clarity_of relevance_of accuracy_of
score u questions has_active_context_pack =
    if is_empty questions
    then record {
      clarity = 0;
      relevance = 0;
      accuracy = if has_active_context_pack then 20 else 10;
    }
    else record {
      clarity = average (sum_of clarity_of 0 questions) (length questions);
      relevance = average (sum_of (relevance_of u) 0 questions) (length questions);
      accuracy =
          average (sum_of (accuracy_of has_active_context_pack) 0 questions) (length questions);
    }

abbrev text_if : Bool → Text → List Text
text_if test text = if test then text ∷ [] else []

unfoldable pub feedback :
    List InterviewQuestionReportDto → InterviewReportScoresDto → InterviewReportFeedbackDto
feedback questions scores = record {
  strengths =
      text_if (leb 70 scores.clarity) (codes "Answers are structured and speakable.")
      ++ text_if (leb 70 scores.relevance) (codes "Answers stay close to interviewer intent.");
  improvements =
      text_if (not (leb 70 scores.clarity))
        (codes "Use 2-4 sentence answers with explicit action and outcome.")
      ++ text_if (not (leb 70 scores.relevance))
          (codes "Mirror key words from the question before giving the answer.")
      ++ text_if (ltb scores.accuracy 70)
          (codes "Avoid unsupported claims and add evidence anchors.");
  missing_examples =
      map
        (λ (q : InterviewQuestionReportDto).
          codes "Question at " ++ q.timestamp ++ codes " lacks explicit signal anchors.")
        (retain (λ (q : InterviewQuestionReportDto). is_empty q.signals && is_empty q.hints)
          questions);
}

unfoldable pub build_report : Unicode → Bool → Text → InterviewSessionState → InterviewReportDto
unfolding score feedback join
build_report u has_active_context_pack ended_at state =
    let scores = score u state.questions has_active_context_pack in
    record {
      session_id = state.session_id;
      started_at = state.started_at;
      ended_at = ended_at;
      language = state.language;
      questions = state.questions;
      full_transcript = join (codes "\n") (
          map
            (λ (q : InterviewQuestionReportDto).
              codes "[" ++ q.timestamp ++ codes "] " ++ q.raw_transcript)
            state.questions);
      scores = scores;
      feedback = feedback state.questions scores;
    }
