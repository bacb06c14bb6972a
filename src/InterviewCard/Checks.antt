-- ===== src/InterviewCard/Checks.antt =====
-- What an interview card must be: `normalize_and_validate` of src-tauri/src/interview_card_v1.rs.
use replyline.Prelude.{
  List, Option, Result, Text, [], any, codes, contains, err, if◌then◌else◌, is_empty, join, ltb,
  map, none, not, ok, retain, some, word_count, ℕ, ◌&&◌, ◌++◌, ◌>>=◌, ◌||◌, ◌∷◌,
}
use replyline.Prelude.Slices.{split_whitespace}
use replyline.Prelude.Unicode.{Unicode}
use replyline.Prelude.Decimal.{display}
use replyline.Privacy.{safe_preview}
use replyline.Card.Parse.{CardFailure, refused}
use replyline.InterviewCard.{
  InterviewAnswer, InterviewCardDto, InterviewClarifier, InterviewFollowUp, InterviewWordLimits,
}
use replyline.InterviewCard.Parse.{with_preview}

abbrev pub Check : Type 0
Check = Result (Unit {0}) CardFailure

unfoldable pub normalize_whitespace : Text → Text
unfolding split_whitespace join
normalize_whitespace value = join (codes " ") (split_whitespace value)

unfoldable pub normalize_vec : List Text → List Text
unfolding normalize_whitespace
normalize_vec values = retain (λ v. not (is_empty v)) (map normalize_whitespace values)

abbrev normalize_follow_up : InterviewFollowUp → InterviewFollowUp
normalize_follow_up item = record {
  question = normalize_whitespace item.question;
  bridge_answer = normalize_whitespace item.bridge_answer;
}

unfoldable pub normalize_text : Option Text → Option Text
unfolding normalize_whitespace
normalize_text none = none
normalize_text (some v) =
    let text = normalize_whitespace v in if is_empty text then none else some text

unfoldable pub normalize_whitespace_card : InterviewCardDto → InterviewCardDto
unfolding normalize_whitespace normalize_vec normalize_text
normalize_whitespace_card card = record card {
  question = record card.question {
    raw_transcript = normalize_whitespace card.question.raw_transcript;
    clean_question = normalize_whitespace card.question.clean_question;
    interviewer_intent = normalize_whitespace card.question.interviewer_intent;
  };
  answer = record card.answer {
    main = normalize_whitespace card.answer.main;
    short = normalize_whitespace card.answer.short;
    strong = normalize_whitespace card.answer.strong;
  };
  signals = record {
    must_mention = normalize_vec card.signals.must_mention;
    keywords = normalize_vec card.signals.keywords;
    metrics = normalize_vec card.signals.metrics;
    resume_anchors = normalize_vec card.signals.resume_anchors;
  };
  risks = record {
    weak_points = normalize_vec card.risks.weak_points;
    avoid = normalize_vec card.risks.avoid;
    safe_reframe = normalize_whitespace card.risks.safe_reframe;
  };
  follow_ups = map normalize_follow_up card.follow_ups;
  clarifier = record card.clarifier { text = normalize_text card.clarifier.text };
}

abbrev pub validation_failed : Text → CardFailure
validation_failed reason = refused (codes "Interview card validation failed: " ++ reason)

-- The mode has one value, so the test of it always passes.
unfoldable pub ensure_non_empty : InterviewCardDto → Check
ensure_non_empty card =
    if is_empty card.question.raw_transcript
      || is_empty card.question.clean_question
      || is_empty card.question.interviewer_intent
      || is_empty card.answer.main
      || is_empty card.answer.short
      || is_empty card.answer.strong
      || is_empty card.risks.safe_reframe
    then err (validation_failed (codes "required fields are empty"))
    else ok tt

unfoldable pub out_of_range : Text → ℕ → ℕ → ℕ → CardFailure
unfolding display
out_of_range name words low high = validation_failed (
    name
    ++ codes " word count "
    ++ display words
    ++ codes " out of range "
    ++ display low
    ++ codes "-"
    ++ display high)

unfoldable pub ensure_word_limits : InterviewAnswer → InterviewWordLimits → Check
unfolding word_count out_of_range display
ensure_word_limits answer limits =
    let main_words = word_count answer.main in
    let short_words = word_count answer.short in
    let strong_words = word_count answer.strong in
    if ltb main_words limits.main_min || ltb limits.main_max main_words
    then err (out_of_range (codes "answer.main") main_words limits.main_min limits.main_max)
    else if ltb limits.short_max short_words
    then err (
        validation_failed (
          codes "answer.short word count "
          ++ display short_words
          ++ codes " exceeds "
          ++ display limits.short_max))
    else if ltb strong_words limits.strong_min || ltb limits.strong_max strong_words
    then err (out_of_range (codes "answer.strong") strong_words limits.strong_min limits.strong_max)
    else ok tt

abbrev pub forbidden : List Text
forbidden =
    codes "it depends"
    ∷ codes "as needed"
    ∷ codes "somehow"
    ∷ codes "in general"
    ∷ codes "как-нибудь"
    ∷ codes "посмотрим"
    ∷ codes "в целом"
    ∷ codes "наверное"
    ∷ codes "может быть"
    ∷ []

unfoldable pub combined_answer : Unicode → InterviewAnswer → Text
combined_answer u answer =
    u.to_lowercase (answer.main ++ codes " " ++ answer.short ++ codes " " ++ answer.strong)

unfoldable pub ensure_no_generic_filler : Unicode → InterviewAnswer → Check
unfolding combined_answer contains
ensure_no_generic_filler u answer =
    if any (contains (combined_answer u answer)) forbidden
    then err (validation_failed (codes "generic filler detected"))
    else ok tt

-- The loop over the metrics or the anchors, on a source in lower case.
unfoldable pub ensure_grounded : Unicode → Text → Text → List Text → Check
unfolding contains with_preview safe_preview
ensure_grounded u name source [] = ok tt
ensure_grounded u name source (value ∷ values) =
    let normalized = u.to_lowercase value in
    let rest = ensure_grounded u name source values in
    if not (is_empty normalized) && not (contains source normalized)
    then err (
        with_preview (safe_preview u value 60)
          (codes "Interview card validation failed: " ++ name ++ codes " '")
          (codes "' is not grounded in input/context"))
    else rest

unfoldable pub ensure_no_fabricated_metrics : Unicode → InterviewCardDto → Text → Check
unfolding ensure_grounded
ensure_no_fabricated_metrics u card input_context =
    ensure_grounded u (codes "metric") (u.to_lowercase input_context) card.signals.metrics

unfoldable pub ensure_no_fabricated_resume_anchors : Unicode → InterviewCardDto → Text → Check
unfolding ensure_grounded
ensure_no_fabricated_resume_anchors u card input_context =
    ensure_grounded u (codes "resume anchor") (u.to_lowercase input_context)
      card.signals.resume_anchors

unfoldable pub clarified : InterviewClarifier → Result InterviewClarifier CardFailure
clarified clarifier =
    if not clarifier.needed then ok (record clarifier { text = none }) else elim clarifier.text [
      | none ↦ err (validation_failed (codes "clarifier.needed=true requires clarifier.text"))
      | some text ↦
          if is_empty text
          then err (validation_failed (codes "clarifier.text must be non-empty"))
          else ok clarifier
    ]

unfoldable pub normalize_clarifier : InterviewCardDto → Result InterviewCardDto CardFailure
unfolding clarified
normalize_clarifier card =
    clarified card.clarifier >>= λ clarifier. ok (record card { clarifier = clarifier })

unfoldable pub normalize_and_validate :
    Unicode → InterviewCardDto → Text → InterviewWordLimits → Result InterviewCardDto CardFailure
unfolding normalize_whitespace_card ensure_non_empty ensure_word_limits ensure_no_generic_filler
    ensure_no_fabricated_metrics ensure_no_fabricated_resume_anchors normalize_clarifier
normalize_and_validate u parsed input_context limits =
    let card = normalize_whitespace_card parsed in
    ensure_non_empty card >>= λ _. ensure_word_limits card.answer limits >>= λ _.
    ensure_no_generic_filler u card.answer >>= λ _.
    ensure_no_fabricated_metrics u card input_context >>= λ _.
    ensure_no_fabricated_resume_anchors u card input_context >>= λ _. normalize_clarifier card
