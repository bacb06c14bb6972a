-- ===== src/Prelude/Slices.antt =====
-- Methods of `str` that split a text, trim it by a test, or look for a part of it.
use replyline.Prelude.{
  Bool, List, Option, Text, [], drop, if◌then◌else◌, is_empty, is_whitespace, length, ltb, none,
  not, retain, some, starts_with, suc, utf8_width, ℕ, ◌&&◌, ◌-◌, ◌==◌, ◌∷◌,
}

attach : ℕ → List Text → List Text
attach c [] = (c ∷ []) ∷ []
attach c (part ∷ parts) = (c ∷ part) ∷ parts

-- `str::split(p)`.
unfoldable pub split_on : (ℕ → Bool) → Text → List Text
unfolding attach
split_on p [] = [] ∷ []
split_on p (c ∷ s) = let parts = split_on p s in if p c then [] ∷ parts else attach c parts

-- `str::split_whitespace()`.
unfoldable pub split_whitespace : Text → List Text
unfolding split_on is_whitespace
split_whitespace s = retain (λ part. not (is_empty part)) (split_on is_whitespace s)

unfoldable pub trim_start_matches : (ℕ → Bool) → Text → Text
trim_start_matches p [] = []
trim_start_matches p (c ∷ s) = if p c then trim_start_matches p s else c ∷ s

unfoldable pub trim_end_matches : (ℕ → Bool) → Text → Text
trim_end_matches p [] = []
trim_end_matches p (c ∷ s) =
    let rest = trim_end_matches p s in if is_empty rest && p c then [] else c ∷ rest

unfoldable pub trim_matches : (ℕ → Bool) → Text → Text
unfolding trim_start_matches trim_end_matches
trim_matches p s = trim_end_matches p (trim_start_matches p s)

-- `str::replace` of one character by another.
unfoldable pub replace_char : ℕ → ℕ → Text → Text
replace_char from to [] = []
replace_char from to (c ∷ s) = (if c == from then to else c) ∷ replace_char from to s

-- `&s[i + needle.len()..]` for `s.find(needle) = Some(i)`.
unfoldable pub after_first : Text → Text → Option Text
after_first [] needle = if is_empty needle then some [] else none
after_first (c ∷ s) needle =
    let later = after_first s needle in
    if starts_with (c ∷ s) needle then some (drop (length needle) (c ∷ s)) else later

-- `&s[..i]` for `s.find(c) = Some(i)`.
unfoldable pub before_char : ℕ → Text → Option Text
before_char d [] = none
before_char d (c ∷ s) =
    let later = before_char d s in
    if c == d then some [] else elim later [ none ↦ none | some part ↦ some (c ∷ part) ]

-- `s.find(c)` and `s.rfind(c)`, counted in characters.
unfoldable pub find_char : ℕ → Text → Option ℕ
find_char d [] = none
find_char d (c ∷ s) =
    let later = find_char d s in
    if c == d then some 0 else elim later [ none ↦ none | some i ↦ some (suc i) ]

unfoldable pub rfind_char : ℕ → Text → Option ℕ
rfind_char d [] = none
rfind_char d (c ∷ s) = elim (rfind_char d s) [
  | some i ↦ some (suc i)
  | none ↦ if c == d then some 0 else none
]

-- `&s[..i]` for `s.find(needle) = Some(i)`.
unfoldable pub before_first : Text → Text → Option Text
before_first [] needle = if is_empty needle then some [] else none
before_first (c ∷ s) needle =
    let later = before_first s needle in
    if starts_with (c ∷ s) needle
    then some []
    else elim later [ none ↦ none | some front ↦ some (c ∷ front) ]

-- `(&s[..n], &s[n..])` for a number of bytes; `none` is the panic within a character or past the end.
unfoldable pub split_at_byte : Text → ℕ → Option (Text × Text)
split_at_byte [] n = if n == 0 then some ([], []) else none
split_at_byte (c ∷ s) n =
    let later = split_at_byte s (n - utf8_width c) in
    if n == 0
    then some ([], c ∷ s)
    else if ltb n (utf8_width c)
    then none
    else elim later [ none ↦ none | some (front, back) ↦ some (c ∷ front, back) ]

-- `str::split_once` at a character.
unfoldable pub split_char : ℕ → Text → Option (Text × Text)
split_char d [] = none
split_char d (c ∷ s) =
    let later = split_char d s in
    if c == d
    then some ([], s)
    else elim later [ none ↦ none | some (front, back) ↦ some (c ∷ front, back) ]
