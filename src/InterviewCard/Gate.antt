-- ===== src/InterviewCard/Gate.antt =====
-- The quality gate of src-tauri/src/interview_card_v1.rs.
use replyline.Prelude.{
  Bool, List, Text, [], all, any, codes, contains, false, if◌then◌else◌, is_empty, is_ok, length,
  ltb, not, starts_with, true, word_count, ◌&&◌, ◌*◌, ◌++◌, ◌-◌, ◌||◌, ◌∷◌,
}
use replyline.Prelude.Unicode.{Unicode}
use replyline.InterviewCard.{
  InterviewCardDto, InterviewQualityFailureReason, InterviewQualityGate, InterviewQuestionType,
  InterviewSignals, InterviewWordLimits, answer_main_too_generic, answer_main_too_short, behavioral,
  behavioral_missing_star, empty_signals, hallucinated_metric_detected, invalid_json_after_repair,
  mandatory_clarifier_not_needed, missing_direct_answer,
}
use replyline.InterviewCard.Checks.{ensure_no_fabricated_metrics, ensure_no_generic_filler}

unfoldable pub has_direct_answer : Unicode → Text → Bool
unfolding contains
has_direct_answer u main =
    let lower = u.to_lowercase main in
    contains lower (codes " i ")
    || starts_with lower (codes "i ")
    || contains lower (codes " my ")
    || contains lower (codes " we ")
    || contains lower (codes " would ")
    || contains lower (codes " я ")
    || starts_with lower (codes "я ")
    || contains lower (codes " мы ")

abbrev star_words_en : List Text
star_words_en = codes "situation" ∷ codes "task" ∷ codes "action" ∷ codes "result" ∷ []

abbrev star_words_ru : List Text
star_words_ru = codes "ситуац" ∷ codes "задач" ∷ codes "действ" ∷ codes "результ" ∷ []

unfoldable pub has_star_structure : Unicode → InterviewCardDto → Bool
unfolding contains
has_star_structure u card =
    let combined = u.to_lowercase (card.answer.main ++ codes " " ++ card.answer.strong) in
    all (contains combined) star_words_en || all (contains combined) star_words_ru

abbrev unclear_words : List Text
unclear_words =
    codes "unclear"
    ∷ codes "ambiguous"
    ∷ codes "not sure"
    ∷ codes "уточни"
    ∷ codes "непонятно"
    ∷ codes "ambigu"
    ∷ []

unfoldable pub clarifier_is_needed : Unicode → Text → Bool
unfolding contains
clarifier_is_needed u transcript = any (contains (u.to_lowercase transcript)) unclear_words

abbrev pub is_behavioral : InterviewQuestionType → Bool
is_behavioral behavioral = true
is_behavioral _ = false

-- `if test { failed_reasons.push(reason) }`.
abbrev pub reason_if : Bool → InterviewQualityFailureReason → List InterviewQualityFailureReason
reason_if test reason = if test then reason ∷ [] else []

-- The signals of which none is there.
unfoldable pub has_no_signals : InterviewSignals → Bool
has_no_signals signals =
    is_empty signals.must_mention
    && is_empty signals.keywords
    && is_empty signals.metrics
    && is_empty signals.resume_anchors

unfoldable pub card_reasons :
    Unicode → InterviewCardDto → Text → InterviewWordLimits → List InterviewQualityFailureReason
unfolding word_count ensure_no_generic_filler has_direct_answer has_star_structure
    ensure_no_fabricated_metrics clarifier_is_needed has_no_signals
card_reasons u card transcript limits =
    reason_if (ltb (word_count card.answer.main) limits.main_min) answer_main_too_short
    ++ (reason_if (not (is_ok (ensure_no_generic_filler u card.answer))) answer_main_too_generic
        ++ (reason_if (not (has_direct_answer u card.answer.main)) missing_direct_answer
            ++ (reason_if
                  (is_behavioral card.question.question_type && not (has_star_structure u card))
                  behavioral_missing_star
                ++ (reason_if (not (is_ok (ensure_no_fabricated_metrics u card transcript)))
                      hallucinated_metric_detected
                    ++ (reason_if (card.clarifier.needed && not (clarifier_is_needed u transcript))
                          mandatory_clarifier_not_needed
                        ++ reason_if (has_no_signals card.signals) empty_signals)))))

unfoldable pub error_reason : Unicode → Text → InterviewQualityFailureReason
unfolding contains
error_reason u error_text =
    let lower = u.to_lowercase error_text in
    if contains lower (codes "answer.main word count")
    then answer_main_too_short
    else if contains lower (codes "generic filler")
    then answer_main_too_generic
    else if contains lower (codes "metric")
    then hallucinated_metric_detected
    else if contains lower (codes "clarifier")
    then mandatory_clarifier_not_needed
    else if contains lower (codes "required fields are empty")
    then empty_signals
    else invalid_json_after_repair

-- `(100 - 15 * n).clamp(0, 100)`: the subtraction of natural numbers stops at the lower clamp, and
-- the upper one is never exceeded.
unfoldable pub gate_of : List InterviewQualityFailureReason → InterviewQualityGate
gate_of failed_reasons = record {
  passed = is_empty failed_reasons;
  score = 100 - length failed_reasons * 15;
  failed_reasons = failed_reasons;
  repairable = true;
}
