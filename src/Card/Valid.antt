-- ===== src/Card/Valid.antt =====
-- What every card that is shown satisfies.
use replyline.Prelude.{
  Bool, Bool-cases, Result, Result-cases, Text, [], arith, codes, contains, contains_char, false,
  first_step, if-err-ok, if◌then◌else◌, inl, inr, is_empty, leb, leb→le, length, length-take, ltb,
  not, ok, refl, subst, suc, sym, take, trim, trim_end, trim_start, true, word_count, zero, ℕ, ◌&&◌,
  ◌||◌, ◌∷◌, ◌≡◌, ◌≤◌,
}
use replyline.Prelude.Slices.{replace_char}
use replyline.Prelude.Unicode.{Unicode}
use replyline.Profiles.{AnswerProfileConfig}
use replyline.Card.{
  CardLimits, CardQualityFlags, ParsedCard, chars_band, limits_for_transcript, no_repairs,
  trim_line,
}
use replyline.Card.Words.{
  contains_any, contains_standalone_word, has_paragraph_shape, is_question_like,
}
use replyline.Card.Validate.{
  Section, action_words, answer_now_section, answer_verdict, apology_only, coordination_words,
  factual_words, generic_words, next_step_section, question_brief_section, step_verdict,
  vague_words, validate_answer_now, validate_next_step, validate_question_brief, validate_section,
}
use replyline.Card.Normalize.{
  is_answer, map_fields, normalize_card, recheck, repair_section, repaired, section_max,
}
use replyline.Card.Marks.{is_refused, repair_section-marked, three_marks}
use replyline.Capture.{AnalysisCardDto}

-- One line of at most `max_chars` characters.
pub record IsLine (max_chars : ℕ) (s : Text) : Type 0 where
  pub fits : length s ≤ max_chars
  pub single : contains_char s 10 ≡ false

replace_char-single : (s : Text) → contains_char (replace_char 10 32 s) 10 ≡ false
unfolding replace_char
replace_char-single [] = refl
replace_char-single (c ∷ s) = ground (arith, replace_char-single s)

trim_start-single :
    (s : Text) → contains_char s 10 ≡ false → contains_char (trim_start s) 10 ≡ false
unfolding trim_start
trim_start-single [] h = refl
trim_start-single (c ∷ s) h = ground (arith, trim_start-single s)

trim_end-single : (s : Text) → contains_char s 10 ≡ false → contains_char (trim_end s) 10 ≡ false
unfolding trim_end
trim_end-single [] h = refl
trim_end-single (c ∷ s) h = ground (arith, trim_end-single s)

take-single : (n : ℕ) (s : Text) → contains_char s 10 ≡ false → contains_char (take n s) 10 ≡ false
take-single zero s h = refl
take-single (suc n) [] h = refl
take-single (suc n) (c ∷ s) h = ground (arith, take-single n s)

trim-single : (s : Text) → contains_char s 10 ≡ false → contains_char (trim s) 10 ≡ false
unfolding trim
trim-single s h = trim_end-single (trim_start s) (trim_start-single s h)

cut-IsLine :
    (clean : Text) (max_chars : ℕ)
    → contains_char clean 10 ≡ false
    → IsLine max_chars (if leb (length clean) max_chars then clean else take max_chars clean)
cut-IsLine clean max_chars single = elim (Bool-cases (leb (length clean) max_chars)) [
  | inl fits ↦ rw fits (record { fits = leb→le _ _ fits; single = single })
  | inr cut ↦ rw cut (record {
    fits = omega (arith, length-take max_chars clean);
    single = take-single max_chars clean single;
  })
]

pub trim_line-IsLine : (value : Text) (max_chars : ℕ) → IsLine max_chars (trim_line value max_chars)
unfolding trim_line
trim_line-IsLine value max_chars =
    cut-IsLine (trim (replace_char 10 32 value)) max_chars
      (trim-single (replace_char 10 32 value) (replace_char-single value))

ok-text :
    {q q' : CardQualityFlags} {s t : Text}
    → ◌≡◌ {A = Result (CardQualityFlags × Text) Text} (ok (q, s)) (ok (q', t))
    → s ≡ t
ok-text e = cc

-- A section that is returned is a line that the validator accepts.
pub recheck-ok :
    (u : Unicode) (t : Text) (section : Section) (limits : CardLimits) (reason : Text)
    (made : CardQualityFlags × Text) {q' : CardQualityFlags} {s : Text}
    → recheck u t section limits reason made ≡ ok (q', s)
    → (validate_section u s t section limits ≡ ok tt) × IsLine (section_max section limits) s
unfolding recheck
recheck-ok u t section limits reason (quality, text) e =
    elim (Result-cases
      (validate_section u (trim_line text (section_max section limits)) t section limits)) [
        | inl (retry, f) ↦ cc (rw (f, recheck) at e)
        | inr (tt, f) ↦
            rw (← (ok-text (rw (f, recheck) at e)))
              (f, trim_line-IsLine text (section_max section limits))
      ]

pub repair_section-ok :
    (u : Unicode) (value t : Text) (section : Section) (limits : CardLimits) (q : CardQualityFlags)
    {q' : CardQualityFlags} {s : Text}
    → repair_section u value t section limits q ≡ ok (q', s)
    → (validate_section u s t section limits ≡ ok tt) × IsLine (section_max section limits) s
unfolding repair_section
repair_section-ok u value t section limits q e =
    elim (Result-cases
      (validate_section u (trim_line value (section_max section limits)) t section limits)) [
        | inl (reason, f) ↦
            elim (Bool-cases (is_answer section && contains reason (codes "apology-only"))) [
              | inl apology ↦ cc (rw (f, repair_section, apology) at e)
              | inr sincere ↦
                  recheck-ok u t section limits reason
                    (repaired u (trim_line value (section_max section limits)) t section limits q)
                    (rw (f, repair_section, sincere) at e)
            ]
        | inr (tt, f) ↦
            rw (← (ok-text (rw (f, repair_section) at e)))
              (f, trim_line-IsLine value (section_max section limits))
      ]

-- A brief question has four words at least.
brief-ok : (s : Text) → validate_question_brief s ≡ ok tt → 4 ≤ word_count s
unfolding validate_question_brief
brief-ok s e =
    let (filled, e1) = if-err-ok (is_empty s) _ _ e in
    let (enough, _) = if-err-ok (ltb (word_count s) 4) _ _ e1 in ground arith

-- What may be said aloud: of the right length in words, no bare apology, nothing vague, whole
-- sentences, and an action unless the transcript asks.
pub record IsAnswer (u : Unicode) (t : Text) (limits : CardLimits) (s : Text) : Type 0 where
  pub enough : limits.answer_min_words ≤ word_count s
  pub brief : word_count s ≤ limits.answer_max_words
  pub sincere : apology_only u (u.to_lowercase s) ≡ false
  pub specific : contains_any u (u.to_lowercase s) generic_words ≡ false
  pub shaped : has_paragraph_shape s ≡ true
  pub active : (is_question_like u t || contains_any u (u.to_lowercase s) action_words) ≡ true

not-false : (b : Bool) → not b ≡ false → b ≡ true
not-false b h = ground arith

either-true : (a b : Bool) → (not a && not b) ≡ false → (a || b) ≡ true
either-true a b h = ground arith

at_least : (a b : ℕ) → ltb a b ≡ false → b ≤ a
at_least a b h = ground arith

validate_answer_now-IsAnswer :
    (u : Unicode) (s t : Text) (limits : CardLimits)
    → validate_answer_now u s t limits.answer_min_words limits.answer_max_words ≡ ok tt
    → IsAnswer u t limits s
unfolding validate_answer_now answer_verdict
validate_answer_now-IsAnswer u s t limits e =
    let lower = u.to_lowercase s in
    let (_, e1) = if-err-ok (is_empty s) _ _ e in
    let (sincere, e2) = if-err-ok (apology_only u lower) _ _ e1 in
    let (enough, e3) = if-err-ok (ltb (word_count s) limits.answer_min_words) _ _ e2 in
    let (brief, e4) = if-err-ok (ltb limits.answer_max_words (word_count s)) _ _ e3 in
    let (specific, e5) = if-err-ok (contains_any u lower generic_words) _ _ e4 in
    let (shaped, e6) = if-err-ok (not (has_paragraph_shape s)) _ _ e5 in
    let (active, _) =
      if-err-ok (not (is_question_like u t) && not (contains_any u lower action_words)) _ _ e6 in
    record {
      enough = at_least _ _ enough;
      brief = at_least _ _ brief;
      sincere = sincere;
      specific = specific;
      shaped = not-false _ shaped;
      active = either-true _ _ active;
    }

-- What may be done next: three words at least, nothing vague and no `ок` on its own, and an artifact of the work or, where
-- the transcript asks, of the facts.
pub record IsStep (u : Unicode) (t : Text) (s : Text) : Type 0 where
  pub enough : 3 ≤ word_count s
  pub definite : contains_any u (u.to_lowercase s) vague_words ≡ false
  pub no_ok : contains_standalone_word u (u.to_lowercase s) (codes "ок") ≡ false
  pub concrete :
      (contains_any u (u.to_lowercase s) coordination_words
        || is_question_like u t && contains_any u (u.to_lowercase s) factual_words)
      ≡ true

or-left : (a b : Bool) → (a || b) ≡ false → a ≡ false
or-left a b h = ground arith

or-right : (a b : Bool) → (a || b) ≡ false → b ≡ false
or-right a b h = ground arith

validate_next_step-IsStep :
    (u : Unicode) (s t : Text) → validate_next_step u s t ≡ ok tt → IsStep u t s
unfolding validate_next_step step_verdict
validate_next_step-IsStep u s t e =
    let lower = u.to_lowercase s in
    let (_, e1) = if-err-ok (is_empty s) _ _ e in
    let (enough, e2) = if-err-ok (ltb (word_count s) 3) _ _ e1 in
    let (definite, e3) =
      if-err-ok (contains_any u lower vague_words || contains_standalone_word u lower (codes "ок"))
        _ _ e2 in
    let (concrete, _) =
      if-err-ok
        (not (contains_any u lower coordination_words)
          && not (is_question_like u t && contains_any u lower factual_words))
        _ _ e3 in
    record {
      enough = at_least _ _ enough;
      definite = or-left _ _ definite;
      no_ok = or-right _ _ definite;
      concrete = either-true _ _ concrete;
    }

pub record IsSpeakable (u : Unicode) (t : Text) (limits : CardLimits) (card : AnalysisCardDto)
    : Type 0 where
  pub brief : 4 ≤ word_count card.gist
  pub brief_line : IsLine limits.question_brief card.gist
  pub answer : IsAnswer u t limits card.say_now
  pub answer_line : IsLine limits.answer_now card.say_now
  pub step : IsStep u t card.next_move
  pub step_line : IsLine limits.next_step card.next_move
  pub banded : card.chars_band ≡ chars_band t

ok-injective {ℓ κ} :
    {A : Type ℓ} {E : Type κ} {a b : A} → ◌≡◌ {A = Result A E} (ok a) (ok b) → a ≡ b
ok-injective e = cc

-- Whatever the model answered, a card that is returned for it can be said: its brief question has
-- four words or more, its answer keeps the word limits of the profile and is no bare apology, not
-- vague, in whole sentences and with an action unless the transcript asks, its next step has three
-- words or more, is neither vague nor has an `ок` on its own, and names an artifact; each of the three is one line within its limit
-- of characters, and the band is that of the transcript. The card is marked as repaired exactly if
-- the check refused the brief question or the answer of the model, and as fallen back exactly if it
-- refused the next step, and these are the marks returned.
pub normalize_card-IsSpeakable :
    (u : Unicode) (parsed : ParsedCard) (t : Text) (p : AnswerProfileConfig)
    {card : AnalysisCardDto} {q : CardQualityFlags}
    → normalize_card u parsed t p ≡ ok (card, q)
    → let limits = limits_for_transcript t p in
      let fields = map_fields parsed limits in
      IsSpeakable u t limits card
      × (card.repair_used ≡ q.repair_used)
      × (card.fallback_used ≡ q.fallback_used)
      × (q.repair_used ≡ (
          is_refused u fields.gist t question_brief_section limits
          || is_refused u fields.say_now t answer_now_section limits))
      × (q.fallback_used ≡ is_refused u fields.next_move t next_step_section limits)
unfolding normalize_card validate_section
normalize_card-IsSpeakable u parsed t p {card} {q} e =
    let limits = limits_for_transcript t p in
    let fields = map_fields parsed limits in
    let ((q1, gist), e1, made1) =
      first_step (repair_section u fields.gist t question_brief_section limits no_repairs) _
        (sym e) in
    let ((q2, say_now), e2, made2) =
      first_step (repair_section u fields.say_now t answer_now_section limits q1) _ e1 in
    let ((q3, next_move), e3, made3) =
      first_step (repair_section u fields.next_move t next_step_section limits q2) _ e2 in
    let (brief, brief_line) =
      repair_section-ok u fields.gist t question_brief_section limits no_repairs made1 in
    let (answer, answer_line) =
      repair_section-ok u fields.say_now t answer_now_section limits q1 made2 in
    let (step, step_line) =
      repair_section-ok u fields.next_move t next_step_section limits q2 made3 in
    let mark1 =
      repair_section-marked u fields.gist t question_brief_section limits no_repairs made1 in
    let mark2 = repair_section-marked u fields.say_now t answer_now_section limits q1 made2 in
    let mark3 = repair_section-marked u fields.next_move t next_step_section limits q2 made3 in
    let (repairs, falls) = three_marks _ _ _ q1 q2 q3 mark1 mark2 mark3 in
    subst
      (λ (c, r).
        IsSpeakable u t limits c
        × (c.repair_used ≡ r.repair_used)
        × (c.fallback_used ≡ r.fallback_used)
        × (r.repair_used ≡ (
            is_refused u fields.gist t question_brief_section limits
            || is_refused u fields.say_now t answer_now_section limits))
        × (r.fallback_used ≡ is_refused u fields.next_move t next_step_section limits))
      (sym (ok-injective e3))
      (
        record {
          brief = brief-ok gist brief;
          brief_line = brief_line;
          answer = validate_answer_now-IsAnswer u say_now t limits answer;
          answer_line = answer_line;
          step = validate_next_step-IsStep u next_move t step;
          step_line = step_line;
          banded = refl;
        },
        refl,
        refl,
        repairs,
        falls,
      )
