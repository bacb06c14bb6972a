-- ===== src/Card/Answers.antt =====
-- The prepared answers pass the check of every answer profile, whatever the transcript.
use replyline.Prelude.{
  All, Bool, Bool-cases, List, Option, Option-cases, Text, [], all, ap, arith, codes, contains,
  ends_with, err, false, find, inl, inr, is_empty, leb, leb→le, length, le→leb, ltb, map, none, ok,
  some, subst, text_eq, trim, true, word_count, ℕ, ◌&&◌, ◌∙◌, ◌∷◌, ◌≡◌, ◌≤◌,
}
use replyline.Prelude.Slices.{replace_char}
use replyline.Prelude.Unicode.{Unicode, basic, basic_lower, is_basic}
use replyline.Profiles.{
  AnswerProfileConfig, default_answer_profile, profiles, resolve_alias, resolve_answer_profile,
}
use replyline.Card.{
  Band, CardLimits, CardQualityFlags, band_of, limits_for_band, limits_for_transcript, long, medium,
  short, trim_line,
}
use replyline.Card.Words.{contains_any, has_paragraph_shape, is_question_like}
use replyline.Card.Validate.{
  Section, action_words, answer_now_section, answer_verdict, apology_only, generic_words,
  validate_answer_now, validate_section,
}
use replyline.Card.Fallback.{variant_of}
use replyline.Card.Repair.{
  AnswerTopic, answer_text, answer_topic, any_step, clean_answer, deadline, owners,
  repair_answer_now, repair_answer_now_inner,
}
use replyline.Card.Normalize.{is_answer, recheck, repair_section, repaired, section_max}
use replyline.Card.Texts.{answer_verdict-basic, choose_all, trim_line_id}

-- What the check reads of an answer, on the basic tables.
record IsUsable (text : Text) : Type 0 where
  known : all is_basic text ≡ true
  clean : trim (replace_char 10 32 text) ≡ text
  fits : leb (length text) 800 ≡ true
  filled : is_empty text ≡ false
  sincere : apology_only basic (map basic_lower text) ≡ false
  enough : leb 30 (word_count text) ≡ true
  brief : leb (word_count text) 40 ≡ true
  specific : contains_any basic (map basic_lower text) generic_words ≡ false
  shaped : has_paragraph_shape text ≡ true
  active : contains_any basic (map basic_lower text) action_words ≡ true

answer_text-IsUsable : (topic : AnswerTopic) (variant : ℕ) → IsUsable (answer_text topic variant)
unfolding answer_text trim replace_char apology_only word_count contains_any has_paragraph_shape
answer_text-IsUsable deadline variant =
    choose_all IsUsable variant _ _ _ (ground arith) (ground arith) (ground arith)
answer_text-IsUsable owners variant =
    choose_all IsUsable variant _ _ _ (ground arith) (ground arith) (ground arith)
answer_text-IsUsable any_step variant =
    choose_all IsUsable variant _ _ _ (ground arith) (ground arith) (ground arith)

-- A number that reaches `k` is not below one that is at most `k`.
few_words : (a b : ℕ) {k : ℕ} → leb k a ≡ true → b ≤ k → ltb a b ≡ false
few_words a b h le = ground arith

answer_verdict-IsUsable :
    {text : Text} (question : Bool) (min_words max_words : ℕ)
    → IsUsable text
    → min_words ≤ 30
    → 40 ≤ max_words
    → answer_verdict basic text question min_words max_words ≡ ok tt
unfolding answer_verdict
answer_verdict-IsUsable {text} question min_words max_words a low upper =
    let few : ltb (word_count text) min_words ≡ false =
      few_words (word_count text) min_words a.enough low in
    let many : ltb max_words (word_count text) ≡ false =
      few_words max_words (word_count text) (le→leb 40 max_words upper)
        (leb→le (word_count text) 40 a.brief) in
    rw (a.filled, a.sincere, few, many, a.specific, a.shaped, a.active)
      (elim (Bool-cases question) [ inl asks ↦ rw asks | inr tells ↦ rw tells ])

-- The word limits of a profile leave room for every prepared answer.
record LeavesRoom (p : AnswerProfileConfig) : Type 0 where
  low : p.answer_word_min ≤ 30
  most : 40 ≤ p.answer_word_max
  most_short : 40 ≤ p.short_word_max
  most_strong : 40 ≤ p.strong_word_max

profiles-LeaveRoom : All LeavesRoom profiles
profiles-LeaveRoom = omega arith

unwrap_or {ℓ} : {A : Type ℓ} → A → Option A → A
unwrap_or a none = a
unwrap_or a (some b) = b

find-All {ℓ κ} :
    {A : Type ℓ} (P : A → Type κ) (test : A → Bool) (xs : List A) {a : A}
    → All P xs
    → find test xs ≡ some a
    → P a
unfolding unwrap_or
find-All P test [] h e = cc
find-All P test (x ∷ xs) h e = elim (Bool-cases (test x)) [
  | inl this ↦ subst P (ap (unwrap_or x) (rw this at e)) h.0
  | inr later ↦ find-All P test xs h.1 (rw later at e)
]

default_answer_profile-LeavesRoom : LeavesRoom default_answer_profile
unfolding default_answer_profile
default_answer_profile-LeavesRoom = omega arith

resolve_answer_profile-LeavesRoom : (id : Text) → LeavesRoom (resolve_answer_profile id)
unfolding resolve_answer_profile
resolve_answer_profile-LeavesRoom id =
    elim (Option-cases (find (λ p. text_eq p.id (resolve_alias id)) profiles)) [
      | inl missing ↦ rw (missing, resolve_answer_profile) default_answer_profile-LeavesRoom
      | inr (p, found) ↦
          rw (found, resolve_answer_profile)
            (find-All LeavesRoom (λ p. text_eq p.id (resolve_alias id)) profiles profiles-LeaveRoom
              found)
    ]

record Allows (limits : CardLimits) : Type 0 where
  chars : 800 ≤ limits.answer_now
  min_words : limits.answer_min_words ≤ 30
  max_words : 40 ≤ limits.answer_max_words

limits_for_band-Allows :
    (b : Band) (p : AnswerProfileConfig) → LeavesRoom p → Allows (limits_for_band b p)
unfolding limits_for_band
limits_for_band-Allows short p room = omega arith
limits_for_band-Allows medium p room = omega arith
limits_for_band-Allows long p room = omega arith

prepared-passes :
    (u : Unicode) (t : Text) (topic : AnswerTopic) (variant : ℕ) (limits : CardLimits)
    → Allows limits
    → validate_answer_now u
        (answer_text topic variant)
        t
        limits.answer_min_words
        limits.answer_max_words
      ≡ ok tt
unfolding validate_answer_now
prepared-passes u t topic variant limits allows =
    let a = answer_text-IsUsable topic variant in
    answer_verdict-basic u (answer_text topic variant) a.known (is_question_like u t)
      limits.answer_min_words limits.answer_max_words
    ∙ answer_verdict-IsUsable (is_question_like u t) limits.answer_min_words limits.answer_max_words
        a allows.min_words allows.max_words

repair_section-repaired :
    (u : Unicode) (value t : Text) (section : Section) (limits : CardLimits) (q : CardQualityFlags)
    (reason : Text)
    → validate_section u (trim_line value (section_max section limits)) t section limits
      ≡ err reason
    → (is_answer section && contains reason (codes "apology-only")) ≡ false
    → (q' : CardQualityFlags) (text : Text)
    → repaired u (trim_line value (section_max section limits)) t section limits q ≡ (q', text)
    → trim_line text (section_max section limits) ≡ text
    → validate_section u text t section limits ≡ ok tt
    → repair_section u value t section limits q ≡ ok (q', text)
unfolding repair_section recheck
repair_section-repaired u value t section limits q reason refused sincere q' text made stays
      passes =
    let taken : repair_section u value t section limits q
        ≡ recheck u t section limits reason
            (repaired u (trim_line value (section_max section limits)) t section limits q) =
      rw (refused, repair_section) (rw sincere) in
    let checked : recheck u t section limits reason (q', text) ≡ ok (q', text) =
      rw (ap (λ x. validate_section u x t section limits) stays ∙ passes, recheck)
        (ap (λ x. ok (q', x)) stays) in
    taken ∙ ap (recheck u t section limits reason) made ∙ checked

prepared :
    (u : Unicode) (current t : Text) (limits : CardLimits) (q : CardQualityFlags)
    → ends_with (clean_answer current) (codes "?") ≡ false
    → (let text = answer_text (answer_topic u (clean_answer current) t) (variant_of t) in
        trim_line text limits.answer_now ≡ text)
    → repaired u current t answer_now_section limits q ≡ (
      record q { repair_used = true },
      answer_text (answer_topic u (clean_answer current) t) (variant_of t),
    )
unfolding repaired
prepared u current t limits q told stays =
    ap (λ x. (record q { repair_used = true }, x))
      (rw (told, repair_answer_now, repair_answer_now_inner) stays)

repaired_answer :
    (u : Unicode) (value t : Text) (q : CardQualityFlags) (reason : Text) (limits : CardLimits)
    → Allows limits
    → validate_answer_now u
        (trim_line value limits.answer_now)
        t
        limits.answer_min_words
        limits.answer_max_words
      ≡ err reason
    → contains reason (codes "apology-only") ≡ false
    → ends_with (clean_answer (trim_line value limits.answer_now)) (codes "?") ≡ false
    → repair_section u value t answer_now_section limits q
      ≡ ok (
        record q { repair_used = true },
        answer_text
            (answer_topic u (clean_answer (trim_line value limits.answer_now)) t)
            (variant_of t),
      )
unfolding validate_section
repaired_answer u value t q reason limits allows refused sincere told =
    let clean = clean_answer (trim_line value limits.answer_now) in
    let topic = answer_topic u clean t in
    let a = answer_text-IsUsable topic (variant_of t) in
    let stays =
      trim_line_id (answer_text topic (variant_of t)) 800 limits.answer_now a.clean a.fits
        allows.chars in
    repair_section-repaired u value t answer_now_section limits q reason refused sincere
      (record q { repair_used = true }) (answer_text topic (variant_of t))
      (prepared u (trim_line value limits.answer_now) t limits q told stays) stays
      (prepared-passes u t topic (variant_of t) limits allows)

-- Under every answer profile, an answer that the check refuses, that is no bare apology and that
-- does not end in a question is replaced by the prepared answer for its topic and the transcript,
-- with only the repair mark set: such a repair never fails.
pub refused_answer :
    (u : Unicode) (value t id : Text) (q : CardQualityFlags) (reason : Text)
    → (let limits = limits_for_transcript t (resolve_answer_profile id) in
        validate_answer_now u
          (trim_line value limits.answer_now)
          t
          limits.answer_min_words
          limits.answer_max_words
        ≡ err reason)
    → contains reason (codes "apology-only") ≡ false
    → (let limits = limits_for_transcript t (resolve_answer_profile id) in
        ends_with (clean_answer (trim_line value limits.answer_now)) (codes "?") ≡ false)
    → let limits = limits_for_transcript t (resolve_answer_profile id) in
      repair_section u value t answer_now_section limits q
      ≡ ok (
        record q { repair_used = true },
        answer_text
            (answer_topic u (clean_answer (trim_line value limits.answer_now)) t)
            (variant_of t),
      )
unfolding limits_for_transcript
refused_answer u value t id q reason =
    repaired_answer u value t q reason (limits_for_transcript t (resolve_answer_profile id)) (
      limits_for_band-Allows (band_of t) (resolve_answer_profile id)
        (resolve_answer_profile-LeavesRoom id))
