-- ===== src/Card/Panics.antt =====
-- When the parser of an answer panics.
use replyline.Prelude.{
  Bool-cases, Option-cases, Result, Result-cases, Text, ap, drop, err, inl, inr, ltb, ltb→lt,
  lt→ltb, map_err, none, ok, some, take, trim, ℕ, ◌+◌, ◌-◌, ◌<◌, ◌↔◌, ◌∙◌, ◌≡◌, ◌≢◌,
}
use replyline.Prelude.Slices.{find_char, rfind_char}
use replyline.Prelude.Unicode.{Unicode}
use replyline.Profiles.{AnswerProfileConfig}
use replyline.Card.Parse.{
  FromStr, from_json, panicked, parse_braces, parse_card_json, parse_partial, parse_slice,
  partial_extract, refused,
}
use replyline.Card.Normalize.{normalize_card, normalize_parsed_card}

-- The last `}` stands before the first `{`, with something between them.
pub record IsReversed (s : Text) : Type 0 where
  pub start : ℕ
  pub end : ℕ
  pub first : find_char b'{' s ≡ some start
  pub last : rfind_char b'}' s ≡ some end
  pub apart : end + 1 < start

parse_partial-no_panic : (s : Text) → parse_partial s ≢ err panicked
unfolding parse_partial
parse_partial-no_panic s e = elim (Option-cases (partial_extract s)) [
  | inl f ↦ cc (rw (f, parse_partial) at e)
  | inr (card, f) ↦ cc (rw (f, parse_partial) at e)
]

parse_slice-panics :
    (json : FromStr) (s : Text) (start end : ℕ)
    → parse_slice json s start end ≡ err panicked
    → end + 1 < start
unfolding parse_slice
parse_slice-panics json s start end e = elim (Bool-cases (ltb (end + 1) start)) [
  | inl apart ↦ ltb→lt (end + 1) start apart
  | inr near ↦
      let slice = take (end + 1 - start) (drop start s) in
      elim (Option-cases (from_json json slice)) [
        | inl f ↦ absurd (parse_partial-no_panic s (rw (near, f, parse_slice) at e))
        | inr (card, f) ↦ cc (rw (near, f, parse_slice) at e)
      ]
]

parse_braces-panics :
    (json : FromStr) (s : Text) → parse_braces json s ≡ err panicked → IsReversed s
unfolding parse_braces
parse_braces-panics json s e = elim (Option-cases (find_char b'{' s)) [
  | inl f ↦ absurd (parse_partial-no_panic s (rw (f, parse_braces) at e))
  | inr (start, f) ↦ elim (Option-cases (rfind_char b'}' s)) [
    | inl g ↦ absurd (parse_partial-no_panic s (rw (f, g, parse_braces) at e))
    | inr (end, g) ↦ record {
      start = start;
      end = end;
      first = f;
      last = g;
      apart = parse_slice-panics json s start end (rw (f, g, parse_braces) at e);
    }
  ]
]

parse_braces-reversed :
    (json : FromStr) (s : Text) → IsReversed s → parse_braces json s ≡ err panicked
unfolding parse_braces parse_slice
parse_braces-reversed json s r =
    rw (r.first, r.last, parse_braces, lt→ltb (r.end + 1) r.start r.apart, parse_slice)

parse_card_json-panics :
    (json : FromStr) (raw : Text)
    → parse_card_json json raw ≡ err panicked
    → (from_json json (trim raw) ≡ none) × IsReversed (trim raw)
unfolding parse_card_json
parse_card_json-panics json raw e = elim (Option-cases (from_json json (trim raw))) [
  | inl f ↦ (f, parse_braces-panics json (trim raw) (rw (f, parse_card_json) at e))
  | inr (card, f) ↦ cc (rw (f, parse_card_json) at e)
]

parse_card_json-reversed :
    (json : FromStr) (raw : Text)
    → from_json json (trim raw) ≡ none
    → IsReversed (trim raw)
    → parse_card_json json raw ≡ err panicked
unfolding parse_card_json
parse_card_json-reversed json raw f r =
    rw (f, parse_card_json) (parse_braces-reversed json (trim raw) r)

err-injective {ℓ κ} :
    {A : Type ℓ} {E : Type κ} {a b : E} → ◌≡◌ {A = Result A E} (err a) (err b) → a ≡ b
err-injective e = cc

no_panic_after {ℓ} : {A : Type ℓ} (r : Result A Text) → map_err refused r ≢ err panicked
no_panic_after (ok a) e = cc
no_panic_after (err s) e = cc

-- Handling an answer of the model panics exactly when the trimmed answer is no JSON of a card and
-- its last closing brace stands before its first opening brace with a character or more between.
pub normalize_panics_iff :
    (json : FromStr) (u : Unicode) (raw t : Text) (p : AnswerProfileConfig)
    → (normalize_parsed_card json u raw t p ≡ err panicked)
      ↔ ((from_json json (trim raw) ≡ none) × IsReversed (trim raw))
unfolding normalize_parsed_card
normalize_panics_iff json u raw t p = (
  λ e. elim (Result-cases (parse_card_json json raw)) [
    | inl (failure, f) ↦
        parse_card_json-panics json raw (f ∙ ap (λ x. err x) (err-injective (rw f at e)))
    | inr (parsed, f) ↦ absurd (no_panic_after (normalize_card u parsed t p) (rw f at e))
  ],
  λ (f, r). rw (parse_card_json-reversed json raw f r),
)
