-- ===== src/Prelude/Unicode.antt =====
-- The two Unicode tables of the standard library that the code reads, `str::to_lowercase` and
-- `char::is_alphanumeric`. They are a parameter: what is relied on is their value on ASCII and on the
-- Russian letters, and that lower case is idempotent and leaves blanks alone.
use replyline.Prelude.{
  Bool, Bool-cases, Text, [], all, ap, arith, if◌then◌else◌, inl, inr, is_empty, is_whitespace, leb,
  ltb, map, refl, trim, trim_end, trim_start, true, ℕ, ◌&&◌, ◌+◌, ◌==◌, ◌||◌, ◌∙◌, ◌∷◌, ◌≡◌,
}

-- ASCII and the letters `А`-`я`, `Ё` and `ё`.
abbrev pub is_basic : ℕ → Bool
is_basic c = ltb c 128 || leb 0x410 c && leb c 0x44f || c == 0x401 || c == 0x451

abbrev pub basic_lower : ℕ → ℕ
basic_lower c =
    if leb 65 c && leb c 90 || leb 0x410 c && leb c 0x42f
    then c + 32
    else if c == 0x401
    then 0x451
    else c

abbrev pub basic_alphanumeric : ℕ → Bool
basic_alphanumeric c =
    leb 48 c && leb c 57
    || leb 65 c && leb c 90
    || leb 97 c && leb c 122
    || leb 0x410 c && leb c 0x44f
    || c == 0x401
    || c == 0x451

pub record Unicode : Type 0 where
  pub to_lowercase : Text → Text
  pub is_alphanumeric : ℕ → Bool
  pub lower_basic : (s : Text) → all is_basic s ≡ true → to_lowercase s ≡ map basic_lower s
  pub alphanumeric_basic : (c : ℕ) → is_basic c ≡ true → is_alphanumeric c ≡ basic_alphanumeric c
  pub lower_idem : (s : Text) → to_lowercase (to_lowercase s) ≡ to_lowercase s
  pub lower_trim : (s : Text) → to_lowercase (trim s) ≡ trim (to_lowercase s)

basic_lower_idem : (c : ℕ) → basic_lower (basic_lower c) ≡ basic_lower c
basic_lower_idem c = ground arith

pub map-basic_lower_idem : (s : Text) → map basic_lower (map basic_lower s) ≡ map basic_lower s
map-basic_lower_idem [] = refl
map-basic_lower_idem (c ∷ s) = cc (basic_lower_idem c, map-basic_lower_idem s)

is_whitespace-lower : (c : ℕ) → is_whitespace (basic_lower c) ≡ is_whitespace c
unfolding is_whitespace
is_whitespace-lower c = ground arith

trim_start-lower : (s : Text) → map basic_lower (trim_start s) ≡ trim_start (map basic_lower s)
unfolding trim_start
trim_start-lower [] = refl
trim_start-lower (c ∷ s) = elim (Bool-cases (is_whitespace c)) [
  | inl blank ↦ rw (is_whitespace-lower c, blank) (trim_start-lower s)
  | inr letter ↦ rw (is_whitespace-lower c, letter)
]

is_empty-map : (s : Text) → is_empty (map basic_lower s) ≡ is_empty s
is_empty-map [] = refl
is_empty-map (c ∷ s) = refl

trim_end-lower : (s : Text) → map basic_lower (trim_end s) ≡ trim_end (map basic_lower s)
unfolding trim_end
trim_end-lower [] = refl
trim_end-lower (c ∷ s) =
    rw (← (trim_end-lower s), is_whitespace-lower c, is_empty-map (trim_end s))
      (elim (Bool-cases (is_empty (trim_end s) && is_whitespace c)) [
        | inl gone ↦ rw gone
        | inr kept ↦ rw kept
      ])

pub lower-trim : (s : Text) → map basic_lower (trim s) ≡ trim (map basic_lower s)
unfolding trim
lower-trim s = trim_end-lower (trim_start s) ∙ ap trim_end (trim_start-lower s)

-- Tables that know no other letter.
abbrev pub basic : Unicode
basic = record {
  to_lowercase = map basic_lower;
  is_alphanumeric = basic_alphanumeric;
  lower_basic = λ s h. refl;
  alphanumeric_basic = λ c h. refl;
  lower_idem = map-basic_lower_idem;
  lower_trim = lower-trim;
}
