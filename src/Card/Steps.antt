-- ===== src/Card/Steps.antt =====
-- Which fallback steps pass the check that they were made for.
use replyline.Prelude.{
  Bool, Bool-cases, List, Option-cases, Text, [], all, any, ap, arith, codes, err, false,
  if◌then◌else◌, inl, inr, leb, length, not, ok, refl, some, trim, true, ℕ, ◌&&◌, ◌++◌, ◌==◌, ◌||◌,
  ◌∙◌, ◌∷◌, ◌≡◌, ◌≢◌, ◌≤◌,
}
use replyline.Prelude.Slices.{replace_char}
use replyline.Prelude.Unicode.{Unicode, basic, is_basic}
use replyline.Profiles.{AnswerProfileConfig}
use replyline.Card.{
  Band, CardQualityFlags, band_of, limits_for_band, limits_for_transcript, long, medium, short,
  trim_line,
}
use replyline.Card.Words.{contains_any, is_question_like}
use replyline.Card.Validate.{next_step_section, step_verdict, validate_next_step, validate_section}
use replyline.Card.Fallback.{
  FallbackIntent, IntentWords, approval, blocker, build_fallback_next_step, chat, default,
  detect_fallback_intent, document, email, factual, fallback_text, first_intent, intent_of,
  intent_table, is_cyrillic, meeting, owner, plan, ticket, variant_of,
}
use replyline.Card.Normalize.{recheck, repair_section, repaired}
use replyline.Card.Texts.{and-both, choose_all, some-injective, step_verdict-basic, trim_line_id}

-- The texts that name no artifact: the last of a blocker and the second of a document.
abbrev pub is_refused_choice : FallbackIntent → ℕ → Bool
is_refused_choice blocker variant = not (variant == 0) && not (variant == 1)
is_refused_choice document variant = not (variant == 0) && variant == 1
is_refused_choice _ variant = false

abbrev pub no_artifact : Text
no_artifact = codes "next_step has no concrete coordination artifact."

abbrev IsAccepted : Bool → Text → Type 0
IsAccepted question text = step_verdict basic text question ≡ ok tt

no_artifact_blocker :
    (question : Bool) → step_verdict basic (fallback_text blocker 2 true) question ≡ err no_artifact
unfolding step_verdict fallback_text
no_artifact_blocker true = refl
no_artifact_blocker false = refl

no_artifact_document :
    (question : Bool)
    → step_verdict basic (fallback_text document 1 true) question ≡ err no_artifact
unfolding step_verdict fallback_text
no_artifact_document true = refl
no_artifact_document false = refl

fallback_text_verdict :
    (intent : FallbackIntent) (variant : ℕ) (cyrillic question : Bool)
    → (intent ≡ factual → question ≡ true)
    → step_verdict basic (fallback_text intent variant cyrillic) question
      ≡ (if is_refused_choice intent variant then err no_artifact else ok tt)
unfolding step_verdict fallback_text
fallback_text_verdict factual variant true question asks = refl
fallback_text_verdict factual variant false question asks = rw (asks refl)
fallback_text_verdict email variant cyrillic question asks =
    choose_all (IsAccepted question) variant _ _ _ refl refl refl
fallback_text_verdict chat variant cyrillic question asks =
    choose_all (IsAccepted question) variant _ _ _ refl refl refl
fallback_text_verdict ticket variant cyrillic question asks =
    choose_all (IsAccepted question) variant _ _ _ refl refl refl
fallback_text_verdict meeting variant cyrillic question asks =
    choose_all (IsAccepted question) variant _ _ _ refl refl refl
fallback_text_verdict approval variant cyrillic question asks =
    choose_all (IsAccepted question) variant _ _ _ refl refl refl
fallback_text_verdict owner variant cyrillic question asks =
    choose_all (IsAccepted question) variant _ _ _ refl refl refl
fallback_text_verdict plan variant cyrillic question asks =
    choose_all (IsAccepted question) variant _ _ _ refl refl refl
fallback_text_verdict default variant cyrillic question asks =
    choose_all (IsAccepted question) variant _ _ _ refl refl refl
fallback_text_verdict blocker variant cyrillic question asks = elim (Bool-cases (variant == 0)) [
  | inl first ↦ rw (first, fallback_text)
  | inr other ↦ elim (Bool-cases (variant == 1)) [
    | inl second ↦ rw (other, second, fallback_text)
    | inr third ↦ rw (other, third, fallback_text) (no_artifact_blocker question)
  ]
]
fallback_text_verdict document variant cyrillic question asks = elim (Bool-cases (variant == 0)) [
  | inl first ↦ rw (first, fallback_text)
  | inr other ↦ elim (Bool-cases (variant == 1)) [
    | inl second ↦ rw (other, second, fallback_text) (no_artifact_document question)
    | inr third ↦ rw (other, third, fallback_text)
  ]
]

-- A short line of known letters.
record IsPlain (text : Text) : Type 0 where
  known : all is_basic text ≡ true
  clean : trim (replace_char 10 32 text) ≡ text
  fits : leb (length text) 140 ≡ true

fallback_text-IsPlain :
    (intent : FallbackIntent) (variant : ℕ) (cyrillic : Bool)
    → IsPlain (fallback_text intent variant cyrillic)
unfolding fallback_text trim replace_char
fallback_text-IsPlain factual variant true = (record { known = refl; clean = refl; fits = refl })
fallback_text-IsPlain factual variant false = (record { known = refl; clean = refl; fits = refl })
fallback_text-IsPlain email variant cyrillic =
    choose_all IsPlain variant _ _ _ (record { known = refl; clean = refl; fits = refl })
      (record { known = refl; clean = refl; fits = refl })
      (record { known = refl; clean = refl; fits = refl })
fallback_text-IsPlain chat variant cyrillic =
    choose_all IsPlain variant _ _ _ (record { known = refl; clean = refl; fits = refl })
      (record { known = refl; clean = refl; fits = refl })
      (record { known = refl; clean = refl; fits = refl })
fallback_text-IsPlain ticket variant cyrillic =
    choose_all IsPlain variant _ _ _ (record { known = refl; clean = refl; fits = refl })
      (record { known = refl; clean = refl; fits = refl })
      (record { known = refl; clean = refl; fits = refl })
fallback_text-IsPlain meeting variant cyrillic =
    choose_all IsPlain variant _ _ _ (record { known = refl; clean = refl; fits = refl })
      (record { known = refl; clean = refl; fits = refl })
      (record { known = refl; clean = refl; fits = refl })
fallback_text-IsPlain blocker variant cyrillic =
    choose_all IsPlain variant _ _ _ (record { known = refl; clean = refl; fits = refl })
      (record { known = refl; clean = refl; fits = refl })
      (record { known = refl; clean = refl; fits = refl })
fallback_text-IsPlain approval variant cyrillic =
    choose_all IsPlain variant _ _ _ (record { known = refl; clean = refl; fits = refl })
      (record { known = refl; clean = refl; fits = refl })
      (record { known = refl; clean = refl; fits = refl })
fallback_text-IsPlain owner variant cyrillic =
    choose_all IsPlain variant _ _ _ (record { known = refl; clean = refl; fits = refl })
      (record { known = refl; clean = refl; fits = refl })
      (record { known = refl; clean = refl; fits = refl })
fallback_text-IsPlain document variant cyrillic =
    choose_all IsPlain variant _ _ _ (record { known = refl; clean = refl; fits = refl })
      (record { known = refl; clean = refl; fits = refl })
      (record { known = refl; clean = refl; fits = refl })
fallback_text-IsPlain plan variant cyrillic =
    choose_all IsPlain variant _ _ _ (record { known = refl; clean = refl; fits = refl })
      (record { known = refl; clean = refl; fits = refl })
      (record { known = refl; clean = refl; fits = refl })
fallback_text-IsPlain default variant cyrillic =
    choose_all IsPlain variant _ _ _ (record { known = refl; clean = refl; fits = refl })
      (record { known = refl; clean = refl; fits = refl })
      (record { known = refl; clean = refl; fits = refl })

is_factual : FallbackIntent → Bool
is_factual factual = true
is_factual _ = false

not_factual : (i : FallbackIntent) → not (is_factual i) ≡ true → i ≢ factual
unfolding is_factual
not_factual i h e = cc (rw e at h)

first_intent-not_factual :
    (u : Unicode) (a b : Text) (rows : List IntentWords)
    → all (λ row. not (is_factual row.intent)) rows ≡ true
    → first_intent u a b rows ≢ some factual
unfolding first_intent is_factual
first_intent-not_factual u a b [] h e = cc
first_intent-not_factual u a b (row ∷ rows) h e =
    let (first, others) = and-both (not (is_factual row.intent)) _ h in
    elim (Bool-cases
      (contains_any u a row.transcript_tokens || contains_any u b row.combined_tokens)) [
        | inl found ↦ absurd (not_factual row.intent first (some-injective (rw found at e)))
        | inr next ↦ first_intent-not_factual u a b rows others (rw next at e)
      ]

is_question_like-lower :
    (u : Unicode) (t : Text) → is_question_like u (u.to_lowercase t) ≡ is_question_like u t
unfolding is_question_like
is_question_like-lower u t = rw (u.lower_trim (u.to_lowercase t), u.lower_idem t, u.lower_trim t)

-- The factual text is chosen for a question only.
intent_of-factual :
    (u : Unicode) (say_now t : Text) → intent_of u say_now t ≡ factual → is_question_like u t ≡ true
unfolding intent_of detect_fallback_intent is_factual
intent_of-factual u say_now t e =
    elim (Option-cases
      (first_intent u (u.to_lowercase t) (u.to_lowercase (say_now ++ 10 ∷ t)) intent_table)) [
        | inl nothing ↦ elim (Bool-cases (is_question_like u t)) [
          | inl question ↦ question
          | inr plain ↦
              cc (rw (nothing, is_question_like-lower u t, plain, detect_fallback_intent) at e)
        ]
        | inr (intent, found) ↦ absurd (
            first_intent-not_factual u _ _ intent_table refl
              (found ∙ ap (λ i. some i) (rw (found, detect_fallback_intent) at e)))
      ]

pub fallback_step_verdict :
    (u : Unicode) (say_now t : Text)
    → validate_next_step u (build_fallback_next_step u say_now t) t ≡ (
        if is_refused_choice (intent_of u say_now t) (variant_of t) then err no_artifact else ok tt)
unfolding validate_next_step build_fallback_next_step
fallback_step_verdict u say_now t =
    let plain = fallback_text-IsPlain (intent_of u say_now t) (variant_of t) (any is_cyrillic t) in
    step_verdict-basic u (fallback_text (intent_of u say_now t) (variant_of t) (any is_cyrillic t))
      plain.known (is_question_like u t)
    ∙ fallback_text_verdict (intent_of u say_now t) (variant_of t) (any is_cyrillic t)
        (is_question_like u t) (intent_of-factual u say_now t)

next_step_in_band : (b : Band) (p : AnswerProfileConfig) → 140 ≤ (limits_for_band b p).next_step
unfolding limits_for_band
next_step_in_band short p = omega arith
next_step_in_band medium p = omega arith
next_step_in_band long p = omega arith

next_step_at_least :
    (t : Text) (p : AnswerProfileConfig) → 140 ≤ (limits_for_transcript t p).next_step
unfolding limits_for_transcript
next_step_at_least t p = next_step_in_band (band_of t) p

pub trim_line-fallback :
    (u : Unicode) (say_now t : Text) (p : AnswerProfileConfig)
    → trim_line (build_fallback_next_step u say_now t) (limits_for_transcript t p).next_step
      ≡ build_fallback_next_step u say_now t
unfolding build_fallback_next_step
trim_line-fallback u say_now t p =
    let plain = fallback_text-IsPlain (intent_of u say_now t) (variant_of t) (any is_cyrillic t) in
    trim_line_id _ 140 _ plain.clean plain.fits (next_step_at_least t p)

abbrev pub step_now : Text → Text → AnswerProfileConfig → Text
step_now value t p = trim_line value (limits_for_transcript t p).next_step

-- A next step that the check refuses is replaced by the fallback text for the transcript, with only
-- the fallback mark set; the section fails instead, and with it the card, exactly when the words
-- found are those of a blocker at the third variant or those of a document at the second.
pub refused_next_step :
    (u : Unicode) (value t : Text) (p : AnswerProfileConfig) (q : CardQualityFlags) (reason : Text)
    → validate_next_step u (step_now value t p) t ≡ err reason
    → repair_section u value t next_step_section (limits_for_transcript t p) q ≡ (
        if is_refused_choice (intent_of u (step_now value t p) t) (variant_of t)
        then err
            (codes "Card output invalid: " ++ reason ++ codes " | repair_failed: " ++ no_artifact)
        else ok
            (record q { fallback_used = true }, build_fallback_next_step u (step_now value t p) t))
unfolding repair_section repaired recheck validate_section
refused_next_step u value t p q reason refused =
    elim (Bool-cases (is_refused_choice (intent_of u (step_now value t p) t) (variant_of t))) [
      | inl bad ↦ rw (
        refused,
        trim_line-fallback u (step_now value t p) t p,
        fallback_step_verdict u (step_now value t p) t,
        bad,
        repair_section,
        recheck,
      )
      | inr good ↦
          rw
            (
              refused,
              trim_line-fallback u (step_now value t p) t p,
              fallback_step_verdict u (step_now value t p) t,
              good,
              repair_section,
              recheck,
            )
            (ap (λ x. ok (record q { fallback_used = true }, x))
              (trim_line-fallback u (step_now value t p) t p))
    ]
