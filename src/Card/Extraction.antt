-- ===== src/Card/Extraction.antt =====
-- The fields of a printed object are read back, however the rest of the answer ends.
use replyline.Prelude.{
  ==_iff, All, Bool, Bool-cases, List, Option, Text, [], all, ap, arith, codes, contains_char, drop,
  false, if◌then◌else◌, inl, inr, is_empty, is_whitespace, leb, length, none, not, refl, some,
  starts_with, subst, sym, text_eq, text_eq_iff, text_eq_refl, trim_start, true, ℕ, ◌&&◌, ◌++◌,
  ◌==◌, ◌||◌, ◌∙◌, ◌∷◌, ◌≡◌,
}
use replyline.Prelude.Slices.{after_first, before_char}
use replyline.Card.Texts.{and-both, some-injective}
use replyline.Card.Parse.{extract_field, quote}

-- How a model lays an object out: blanks behind each colon, and what stands between two fields.
pub record Layout : Type 0 where
  pub gap : Text
  pub separator : Text

abbrev pub is_separator : ℕ → Bool
is_separator c = is_whitespace c || c == 44

abbrev pub is_key_char : ℕ → Bool
is_key_char c = leb 97 c && leb c 122 || c == 95

pub record IsLayout (layout : Layout) : Type 0 where
  pub blank : all is_whitespace layout.gap ≡ true
  pub separates : all is_separator layout.separator ≡ true

-- `"key": "value",` for each field, and then anything.
unfoldable pub print_fields : Layout → List (Text × Text) → Text → Text
print_fields layout [] rest = rest
print_fields layout ((key, value) ∷ fields) rest =
    quote
    ∷ (key
        ++ quote
          ∷ ((58 ∷ layout.gap)
              ++ quote ∷ (value ++ quote ∷ (layout.separator ++ print_fields layout fields rest))))

abbrev pub no_quote : Text → Bool
no_quote s = not (contains_char s quote)

-- A field that cannot be taken for the field `key`.
pub record IsField (key : Text) (field : Text × Text) : Type 0 where
  pub key_plain : no_quote field.0 ≡ true
  pub value_plain : no_quote field.1 ≡ true
  pub no_key : text_eq field.1 key ≡ false

abbrev pattern_of : Text → Text
pattern_of key = quote ∷ (key ++ quote ∷ [])

module _ (key : Text) where
  skip_plain :
      (part rest : Text)
      → no_quote part ≡ true
      → after_first (part ++ quote ∷ rest) (pattern_of key)
        ≡ after_first (quote ∷ rest) (pattern_of key)
  unfolding after_first
  skip_plain [] rest h = refl
  skip_plain (c ∷ part) rest h = elim (Bool-cases (c == quote)) [
    | inl same ↦ cc (rw same at h)
    | inr other ↦ rw other (skip_plain part rest (rw other at h))
  ]

starts_with_segment :
    (part key rest : Text)
    → no_quote part ≡ true
    → no_quote key ≡ true
    → starts_with (part ++ quote ∷ rest) (key ++ quote ∷ []) ≡ text_eq part key
starts_with_segment [] [] rest h k = refl
starts_with_segment [] (d ∷ key) rest h k = ground arith
starts_with_segment (c ∷ part) [] rest h k = ground arith
starts_with_segment (c ∷ part) (d ∷ key) rest h k =
    ground (arith, starts_with_segment part key rest)

drop-pattern : (key rest : Text) → drop (length (key ++ quote ∷ [])) (key ++ quote ∷ rest) ≡ rest
drop-pattern [] rest = refl
drop-pattern (c ∷ key) rest = drop-pattern key rest

after_first-segment :
    (key part rest : Text)
    → no_quote part ≡ true
    → no_quote key ≡ true
    → after_first (quote ∷ (part ++ quote ∷ rest)) (pattern_of key)
      ≡ (if text_eq part key then some rest else after_first (quote ∷ rest) (pattern_of key))
unfolding after_first
after_first-segment key part rest h k =
    rw (starts_with_segment part key rest h k, skip_plain key part rest h)
      (elim (Bool-cases (text_eq part key)) [
        | inl same ↦
            rw ((text_eq_iff part key).0 same, text_eq_refl key)
              (ap (λ x. some x) (drop-pattern key rest))
        | inr other ↦ rw other
      ])

-- A key of the code: lower-case letters and underscores.
pub record IsKey (key : Text) : Type 0 where
  pub named : all is_key_char key ≡ true
  pub filled : is_empty key ≡ false

key-plain : (key : Text) → all is_key_char key ≡ true → no_quote key ≡ true
key-plain [] h = refl
key-plain (c ∷ key) h = ground (arith, key-plain key)

separator-char : (c d : ℕ) → is_separator c ≡ true → is_separator d ≡ false → (c == d) ≡ false
separator-char c d h k = elim (Bool-cases (c == d)) [
  | inl same ↦ cc (sym h ∙ ap is_separator ((==_iff c d).0 same) ∙ k)
  | inr other ↦ other
]

separator-plain : (s : Text) → all is_separator s ≡ true → no_quote s ≡ true
unfolding is_whitespace
separator-plain [] h = refl
separator-plain (c ∷ s) h =
    let (first, others) = and-both (is_separator c) (all is_separator s) h in
    rw (separator-char c quote first refl) (separator-plain s others)

blank-separates : (s : Text) → all is_whitespace s ≡ true → all is_separator s ≡ true
blank-separates [] h = refl
blank-separates (c ∷ s) h = ground (arith, blank-separates s)

key_char-separates : (c : ℕ) → is_key_char c ≡ true → is_separator c ≡ false
unfolding is_whitespace
key_char-separates c h = ground arith

separator-no_key : (s key : Text) → all is_separator s ≡ true → IsKey key → text_eq s key ≡ false
unfolding is_whitespace
separator-no_key [] [] h k = cc (k.filled)
separator-no_key [] (d ∷ key) h k = refl
separator-no_key (c ∷ s) [] h k = refl
separator-no_key (c ∷ s) (d ∷ key) h k =
    let (first, _) = and-both (is_separator c) (all is_separator s) h in
    let (letter, _) = and-both (is_key_char d) (all is_key_char key) k.named in
    rw (separator-char c d first (key_char-separates d letter))

colon-no_key : (gap key : Text) → IsKey key → text_eq (58 ∷ gap) key ≡ false
colon-no_key gap [] k = refl
colon-no_key gap (d ∷ key) k = ground (arith, k.named)

trim_start-gap :
    (gap rest : Text)
    → all is_whitespace gap ≡ true
    → trim_start (gap ++ quote ∷ rest) ≡ quote ∷ rest
unfolding trim_start
trim_start-gap [] rest h = refl
trim_start-gap (c ∷ gap) rest h = ground (arith, trim_start-gap gap rest)

before_char-value :
    (value rest : Text)
    → no_quote value ≡ true
    → before_char quote (value ++ quote ∷ rest) ≡ some value
unfolding before_char
before_char-value [] rest h = refl
before_char-value (c ∷ value) rest h = elim (Bool-cases (c == quote)) [
  | inl same ↦ cc (rw same at h)
  | inr other ↦ rw (other, before_char-value value rest (rw other at h))
]

abbrev pub lookup_field : Text → List (Text × Text) → Option Text
lookup_field key [] = none
lookup_field key ((k, value) ∷ fields) =
    if text_eq k key then some value else lookup_field key fields

extract_field-steps :
    (text key after_key after_colon inner : Text) {value : Text}
    → after_first text (pattern_of key) ≡ some after_key
    → after_first after_key (codes ":") ≡ some after_colon
    → trim_start after_colon ≡ quote ∷ inner
    → before_char quote inner ≡ some value
    → extract_field text key ≡ some value
unfolding extract_field
extract_field-steps text key after_key after_colon inner a b c d = rw (a, extract_field, b, c) d

module _ (layout : Layout) (plain : IsLayout layout) (key : Text) (named : IsKey key) where
  after_field :
      (k value rest : Text)
      → IsField key (k, value)
      → after_first
          (quote
            ∷ (k
                ++ quote
                  ∷ ((58 ∷ layout.gap)
                      ++ quote ∷ (value ++ quote ∷ (layout.separator ++ quote ∷ rest)))))
          (pattern_of key)
        ≡ (if text_eq k key
            then some
                ((58 ∷ layout.gap) ++ quote ∷ (value ++ quote ∷ (layout.separator ++ quote ∷ rest)))
            else after_first (quote ∷ rest) (pattern_of key))
  after_field k value rest f =
      let key_plain = key-plain key named.named in
      rw (
        after_first-segment key k
            ((58 ∷ layout.gap) ++ quote ∷ (value ++ quote ∷ (layout.separator ++ quote ∷ rest)))
            f.key_plain key_plain,
        after_first-segment key (58 ∷ layout.gap)
            (value ++ quote ∷ (layout.separator ++ quote ∷ rest))
            (separator-plain layout.gap (blank-separates layout.gap plain.blank)) key_plain,
        colon-no_key layout.gap key named,
        after_first-segment key value (layout.separator ++ quote ∷ rest) f.value_plain key_plain,
        f.no_key,
        after_first-segment key layout.separator rest
            (separator-plain layout.separator plain.separates) key_plain,
        separator-no_key layout.separator key plain.separates named,
      )

  print_fields-quote :
      (f : Text × Text) (fields : List (Text × Text)) (rest : Text)
      → (more : Text) × (print_fields layout (f ∷ fields) rest ≡ quote ∷ more)
  unfolding print_fields
  print_fields-quote (k, value) fields rest = (_, refl)

  -- The slice behind the key's first occurrence begins with the colon and the value.
  after_key :
      (fields : List (Text × Text)) (rest : Text) {value : Text}
      → All (IsField key) fields
      → lookup_field key fields ≡ some value
      → (more : Text) × (after_first (print_fields layout fields rest) (pattern_of key)
          ≡ some ((58 ∷ layout.gap) ++ quote ∷ (value ++ quote ∷ more)))
        × (no_quote value ≡ true)
  unfolding print_fields
  after_key [] rest plains e = cc
  after_key ((k, v) ∷ []) rest plains e = elim (Bool-cases (text_eq k key)) [
    | inl same ↦ (
      layout.separator ++ rest,
      rw
          (
            after_first-segment key k
                ((58 ∷ layout.gap) ++ quote ∷ (v ++ quote ∷ (layout.separator ++ rest)))
                plains.0.key_plain (key-plain key named.named),
            same,
          )
          (ap (λ x. some ((58 ∷ layout.gap) ++ quote ∷ (x ++ quote ∷ (layout.separator ++ rest))))
            (some-injective (rw same at e))),
      subst (λ x. no_quote x ≡ true) (some-injective (rw same at e)) plains.0.value_plain,
    )
    | inr other ↦ cc (rw other at e)
  ]
  after_key ((k, v) ∷ f ∷ fields) rest plains e =
      let (more, begins) = print_fields-quote f fields rest in
      elim (Bool-cases (text_eq k key)) [
        | inl same ↦ (
          layout.separator ++ quote ∷ more,
          rw (begins, after_field k v more plains.0, same)
              (ap
                (λ x.
                  some (
                    (58 ∷ layout.gap) ++ quote ∷ (x ++ quote ∷ (layout.separator ++ quote ∷ more))))
                (some-injective (rw same at e))),
          subst (λ x. no_quote x ≡ true) (some-injective (rw same at e)) plains.0.value_plain,
        )
        | inr other ↦
            let (after, found, plain_value) =
              after_key (f ∷ fields) rest plains.1 (rw other at e) in
            (
              after,
              rw (begins, after_field k v more plains.0, other) (rw (← begins) found),
              plain_value,
            )
      ]

  colon_first : (s : Text) → after_first (58 ∷ s) (codes ":") ≡ some s
  unfolding after_first
  colon_first s = refl

  -- The value of a printed field is extracted, whatever precedes the fields without a quote and
  -- whatever follows them.
  pub extract_field-print :
      (before : Text) (fields : List (Text × Text)) (rest : Text) {value : Text}
      → no_quote before ≡ true
      → All (IsField key) fields
      → lookup_field key fields ≡ some value
      → extract_field (before ++ print_fields layout fields rest) key ≡ some value
  extract_field-print before [] rest lead plains e = cc
  extract_field-print before (f ∷ fields) rest {value} lead plains e =
      let (first, begins) = print_fields-quote f fields rest in
      let (more, found, plain_value) = after_key (f ∷ fields) rest plains e in
      let skipped =
        ap (λ x. after_first (before ++ x) (pattern_of key)) begins
        ∙ skip_plain key before first lead
        ∙ ap (λ x. after_first x (pattern_of key)) (sym begins)
        ∙ found in
      extract_field-steps (before ++ print_fields layout (f ∷ fields) rest) key _ _ _ skipped
        (colon_first (layout.gap ++ quote ∷ (value ++ quote ∷ more)))
        (trim_start-gap layout.gap (value ++ quote ∷ more) plain.blank)
        (before_char-value value more plain_value)
