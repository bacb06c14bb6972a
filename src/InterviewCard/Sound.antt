-- ===== src/InterviewCard/Sound.antt =====
-- What a card that passes the validation and the quality gate satisfies.
use replyline.Prelude.{
  All, Bool, Bool-cases, List, Option-cases, Result, Text, [], any, arith, codes, contains, false,
  first_step, if-err-ok, inl, inr, is_empty, is_ok, ltb, none, not, ok, refl, some, subst, sym,
  true, word_count, ℕ, ◌&&◌, ◌++◌, ◌||◌, ◌∷◌, ◌≡◌, ◌≤◌, ◌⊎◌,
}
use replyline.Prelude.Unicode.{Unicode}
use replyline.InterviewCard.{
  InterviewAnswer, InterviewCardDto, InterviewClarifier, InterviewQualityFailureReason,
  InterviewWordLimits,
}
use replyline.InterviewCard.Checks.{
  clarified, combined_answer, ensure_grounded, ensure_no_fabricated_metrics,
  ensure_no_fabricated_resume_anchors, ensure_no_generic_filler, ensure_non_empty,
  ensure_word_limits, forbidden, normalize_and_validate, normalize_clarifier,
  normalize_whitespace_card,
}
use replyline.InterviewCard.Gate.{
  card_reasons, clarifier_is_needed, has_direct_answer, has_no_signals, has_star_structure,
  is_behavioral, reason_if,
}

-- A text that stands in the source, in lower case.
abbrev pub Stands : Unicode → Text → Text → Type 0
Stands u source value =
    (not (is_empty (u.to_lowercase value)) && not (contains source (u.to_lowercase value))) ≡ false

ensure_grounded-All :
    (u : Unicode) (name source : Text) (values : List Text)
    → ensure_grounded u name source values ≡ ok tt
    → All (Stands u source) values
unfolding ensure_grounded
ensure_grounded-All u name source [] e = tt
ensure_grounded-All u name source (value ∷ values) e =
    let (stands, later) =
      if-err-ok
        (not (is_empty (u.to_lowercase value)) && not (contains source (u.to_lowercase value))) _ _
        e in
    (stands, ensure_grounded-All u name source values later)

-- What a clarifier says fits whether it is needed.
abbrev pub IsClear : InterviewClarifier → Type 0
IsClear clarifier =
    ((clarifier.needed ≡ false) × (clarifier.text ≡ none))
    ⊎ ((clarifier.needed ≡ true)
        × ((text : Text) × (clarifier.text ≡ some text) × (is_empty text ≡ false)))

ok-eq {ℓ κ} : {A : Type ℓ} {E : Type κ} {a b : A} → ◌≡◌ {A = Result A E} (ok a) (ok b) → a ≡ b
ok-eq e = cc

clarified-IsClear :
    (before : InterviewClarifier) {after : InterviewClarifier}
    → clarified before ≡ ok after
    → IsClear after
unfolding clarified
clarified-IsClear before e = elim (Bool-cases before.needed) [
  | inl needed ↦ elim (Option-cases before.text) [
    | inl nothing ↦ cc (rw (needed, nothing, clarified) at e)
    | inr (text, given) ↦
        let (filled, same) = if-err-ok (is_empty text) _ _ (rw (needed, given, clarified) at e) in
        subst IsClear (ok-eq same) (inr (needed, (text, given, filled)))
  ]
  | inr idle ↦ subst IsClear (ok-eq (rw (idle, clarified) at e)) (inl (refl, refl))
]

-- Required texts are there, the words are within the limits, no filler is used, each metric and each
-- anchor stands in the transcript, and the clarifier is clear.
pub record IsValidated (u : Unicode) (t : Text) (limits : InterviewWordLimits)
    (card : InterviewCardDto) : Type 0 where
  pub question : is_empty card.question.clean_question ≡ false
  pub main_filled : is_empty card.answer.main ≡ false
  pub main_min : limits.main_min ≤ word_count card.answer.main
  pub main_max : word_count card.answer.main ≤ limits.main_max
  pub short_max : word_count card.answer.short ≤ limits.short_max
  pub strong_min : limits.strong_min ≤ word_count card.answer.strong
  pub strong_max : word_count card.answer.strong ≤ limits.strong_max
  pub specific : any (contains (combined_answer u card.answer)) forbidden ≡ false
  pub metrics : All (Stands u (u.to_lowercase t)) card.signals.metrics
  pub anchors : All (Stands u (u.to_lowercase t)) card.signals.resume_anchors
  pub clear : IsClear card.clarifier

or-none : (a b : Bool) → (a || b) ≡ false → (a ≡ false) × (b ≡ false)
or-none false b h = (refl, h)
or-none true b h = cc

reaches : (a b : ℕ) → ltb a b ≡ false → b ≤ a
reaches a b h = ground arith

non_empty-fields :
    (c : InterviewCardDto)
    → ensure_non_empty c ≡ ok tt
    → (is_empty c.question.clean_question ≡ false) × (is_empty c.answer.main ≡ false)
unfolding ensure_non_empty
non_empty-fields c e = ground arith

record IsWorded (limits : InterviewWordLimits) (answer : InterviewAnswer) : Type 0 where
  main_min : limits.main_min ≤ word_count answer.main
  main_max : word_count answer.main ≤ limits.main_max
  short_max : word_count answer.short ≤ limits.short_max
  strong_min : limits.strong_min ≤ word_count answer.strong
  strong_max : word_count answer.strong ≤ limits.strong_max

ensure_word_limits-IsWorded :
    (answer : InterviewAnswer) (limits : InterviewWordLimits)
    → ensure_word_limits answer limits ≡ ok tt
    → IsWorded limits answer
unfolding ensure_word_limits
ensure_word_limits-IsWorded answer limits e =
    let (main, e1) =
      if-err-ok
        (ltb (word_count answer.main) limits.main_min
          || ltb limits.main_max (word_count answer.main))
        _ _ e in
    let (short, e2) = if-err-ok (ltb limits.short_max (word_count answer.short)) _ _ e1 in
    let (strong, _) =
      if-err-ok
        (ltb (word_count answer.strong) limits.strong_min
          || ltb limits.strong_max (word_count answer.strong))
        _ _ e2 in
    let (m1, m2) = or-none _ _ main in
    let (s1, s2) = or-none _ _ strong in
    record {
      main_min = reaches _ _ m1;
      main_max = reaches _ _ m2;
      short_max = reaches _ _ short;
      strong_min = reaches _ _ s1;
      strong_max = reaches _ _ s2;
    }

-- The checks leave the card but for its clarifier.
pub normalize_and_validate-IsValidated :
    (u : Unicode) (parsed : InterviewCardDto) (t : Text) (limits : InterviewWordLimits)
    {card : InterviewCardDto}
    → normalize_and_validate u parsed t limits ≡ ok card
    → IsValidated u t limits card
unfolding normalize_and_validate ensure_no_generic_filler ensure_no_fabricated_metrics
    ensure_no_fabricated_resume_anchors normalize_clarifier
normalize_and_validate-IsValidated u parsed t limits e =
    let c = normalize_whitespace_card parsed in
    let (_, e1, filled) = first_step (ensure_non_empty c) _ (sym e) in
    let (_, e2, worded) = first_step (ensure_word_limits c.answer limits) _ e1 in
    let (_, e3, plain) = first_step (ensure_no_generic_filler u c.answer) _ e2 in
    let (_, e4, metrics) = first_step (ensure_no_fabricated_metrics u c t) _ e3 in
    let (_, e5, anchors) = first_step (ensure_no_fabricated_resume_anchors u c t) _ e4 in
    let (clarifier, e6, clear) = first_step (clarified c.clarifier) _ e5 in
    let words = ensure_word_limits-IsWorded c.answer limits worded in
    let (question, main) = non_empty-fields c filled in
    subst (IsValidated u t limits) (sym (ok-eq e6)) (record {
      question = question;
      main_filled = main;
      main_min = words.main_min;
      main_max = words.main_max;
      short_max = words.short_max;
      strong_min = words.strong_min;
      strong_max = words.strong_max;
      specific = (if-err-ok (any (contains (combined_answer u c.answer)) forbidden) _ _ plain).0;
      metrics = ensure_grounded-All u (codes "metric") _ c.signals.metrics metrics;
      anchors = ensure_grounded-All u (codes "resume anchor") _ c.signals.resume_anchors anchors;
      clear = clarified-IsClear c.clarifier clear;
    })

-- A gate that passes a card found no reason against it.
pub record IsFree (u : Unicode) (t : Text) (card : InterviewCardDto) : Type 0 where
  pub direct : has_direct_answer u card.answer.main ≡ true
  pub star : (is_behavioral card.question.question_type && not (has_star_structure u card)) ≡ false
  pub asked : (card.clarifier.needed && not (clarifier_is_needed u t)) ≡ false
  pub signalled : has_no_signals card.signals ≡ false

not-not : (b : Bool) → not b ≡ false → b ≡ true
not-not b h = ground arith

last_reason :
    (test : Bool) (reason : InterviewQualityFailureReason)
    → is_empty (reason_if test reason) ≡ true
    → test ≡ false
last_reason true reason e = cc
last_reason false reason e = refl

reason_if-none :
    (test : Bool) (reason : InterviewQualityFailureReason)
    (others : List InterviewQualityFailureReason)
    → is_empty (reason_if test reason ++ others) ≡ true
    → (test ≡ false) × (is_empty others ≡ true)
reason_if-none true reason others e = cc
reason_if-none false reason others e = (refl, e)

pub card_reasons-IsFree :
    (u : Unicode) (card : InterviewCardDto) (t : Text) (limits : InterviewWordLimits)
    → is_empty (card_reasons u card t limits) ≡ true
    → IsFree u t card
unfolding card_reasons
card_reasons-IsFree u card t limits e =
    let (_, e1) = reason_if-none (ltb (word_count card.answer.main) limits.main_min) _ _ e in
    let (_, e2) = reason_if-none (not (is_ok (ensure_no_generic_filler u card.answer))) _ _ e1 in
    let (direct, e3) = reason_if-none (not (has_direct_answer u card.answer.main)) _ _ e2 in
    let (star, e4) =
      reason_if-none (is_behavioral card.question.question_type && not (has_star_structure u card))
        _ _ e3 in
    let (_, e5) = reason_if-none (not (is_ok (ensure_no_fabricated_metrics u card t))) _ _ e4 in
    let (asked, e6) =
      reason_if-none (card.clarifier.needed && not (clarifier_is_needed u t)) _ _ e5 in
    record {
      direct = not-not _ direct;
      star = star;
      asked = asked;
      signalled = last_reason (has_no_signals card.signals) _ e6;
    }
