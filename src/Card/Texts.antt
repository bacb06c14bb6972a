-- ===== src/Card/Texts.antt =====
-- On ASCII and Russian text the word tests give what the basic tables give.
use replyline.Prelude.{
  Bool, Bool-cases, List, Text, [], all, arith, codes, false, if◌then◌else◌, inl, inr, leb, leb→le,
  length, le→leb, map, not, refl, some, trim, true, ℕ, ◌&&◌, ◌==◌, ◌∷◌, ◌≡◌, ◌≤◌,
}
use replyline.Prelude.Slices.{replace_char, split_on}
use replyline.Prelude.Unicode.{Unicode, basic, basic_alphanumeric, basic_lower, is_basic}
use replyline.Card.{trim_line}
use replyline.Card.Words.{contains_any, contains_standalone_word, contains_token}
use replyline.Card.Validate.{
  action_words, answer_verdict, apology_only, commitments, coordination_words, factual_words,
  generic_words, step_verdict, vague_words,
}

pub and-both : (a b : Bool) → (a && b) ≡ true → (a ≡ true) × (b ≡ true)
and-both true b h = (refl, h)
and-both false b h = cc

is_basic-lower : (c : ℕ) → is_basic c ≡ true → is_basic (basic_lower c) ≡ true
is_basic-lower c h = ground arith

is_basic-map : (s : Text) → all is_basic s ≡ true → all is_basic (map basic_lower s) ≡ true
is_basic-map [] h = refl
is_basic-map (c ∷ s) h =
    let (first, others) = and-both (is_basic c) (all is_basic s) h in
    rw (is_basic-lower c first) (is_basic-map s others)

split_on-basic :
    (u : Unicode) (s : Text)
    → all is_basic s ≡ true
    → split_on (λ c. not (u.is_alphanumeric c)) s ≡ split_on (λ c. not (basic_alphanumeric c)) s
unfolding split_on
split_on-basic u [] h = refl
split_on-basic u (c ∷ s) h =
    let (first, others) = and-both (is_basic c) (all is_basic s) h in
    rw (u.alphanumeric_basic c first, split_on-basic u s others)

contains_standalone_word-basic :
    (u : Unicode) (s token : Text)
    → all is_basic s ≡ true
    → contains_standalone_word u s token ≡ contains_standalone_word basic s token
unfolding contains_standalone_word
contains_standalone_word-basic u s token h = rw (split_on-basic u s h)

contains_token-basic :
    (u : Unicode) (s token : Text)
    → all is_basic s ≡ true
    → contains_token u s token ≡ contains_token basic s token
unfolding contains_token
contains_token-basic u s token h = rw (contains_standalone_word-basic u s token h)

contains_any-basic :
    (u : Unicode) (s : Text) (tokens : List Text)
    → all is_basic s ≡ true
    → contains_any u s tokens ≡ contains_any basic s tokens
unfolding contains_any
contains_any-basic u s [] h = refl
contains_any-basic u s (token ∷ tokens) h =
    rw (contains_token-basic u s token h, contains_any-basic u s tokens h)

module _ (u : Unicode) (value : Text) (known : all is_basic value ≡ true) where
  any_lower :
      (tokens : List Text)
      → contains_any u (u.to_lowercase value) tokens
        ≡ contains_any basic (map basic_lower value) tokens
  any_lower tokens =
      rw (u.lower_basic value known)
        (contains_any-basic u (map basic_lower value) tokens (is_basic-map value known))

  word_lower :
      (token : Text)
      → contains_standalone_word u (u.to_lowercase value) token
        ≡ contains_standalone_word basic (map basic_lower value) token
  word_lower token =
      rw (u.lower_basic value known)
        (contains_standalone_word-basic u (map basic_lower value) token (is_basic-map value known))

  pub step_verdict-basic :
      (question : Bool) → step_verdict u value question ≡ step_verdict basic value question
  unfolding step_verdict
  step_verdict-basic question = rw (
    any_lower vague_words,
    any_lower coordination_words,
    any_lower factual_words,
    word_lower (codes "ок"),
  )

  apology_only-basic :
      apology_only u (u.to_lowercase value) ≡ apology_only basic (map basic_lower value)
  unfolding apology_only
  apology_only-basic = rw (any_lower commitments, u.lower_basic value known)

  pub answer_verdict-basic :
      (question : Bool) (min_words max_words : ℕ)
      → answer_verdict u value question min_words max_words
        ≡ answer_verdict basic value question min_words max_words
  unfolding answer_verdict
  answer_verdict-basic question min_words max_words =
      rw (any_lower generic_words, any_lower action_words, apology_only-basic)

pub trim_line_id :
    (text : Text) (shown max_chars : ℕ)
    → trim (replace_char 10 32 text) ≡ text
    → leb (length text) shown ≡ true
    → shown ≤ max_chars
    → trim_line text max_chars ≡ text
unfolding trim_line
trim_line_id text shown max_chars clean fits le =
    rw (clean, le→leb (length text) max_chars (omega (arith, leb→le (length text) shown fits)))

-- A predicate on the three texts of a choice is one on the chosen text.
pub choose_all {ℓ} :
    (P : Text → Type ℓ) (variant : ℕ) (a b c : Text)
    → P a
    → P b
    → P c
    → P (if variant == 0 then a else if variant == 1 then b else c)
choose_all P variant a b c pa pb pc = elim (Bool-cases (variant == 0)) [
  | inl first ↦ rw first pa
  | inr other ↦ elim (Bool-cases (variant == 1)) [
    | inl second ↦ rw (other, second) pb
    | inr third ↦ rw (other, third) pc
  ]
]

pub some-injective {ℓ} : {A : Type ℓ} {a b : A} → some a ≡ some b → a ≡ b
some-injective e = cc
