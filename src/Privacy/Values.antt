-- ===== src/Privacy/Values.antt =====
-- What the loop over a marker of src-tauri/src/privacy.rs takes out of a text.
use replyline.Prelude.{
  Bool, Bool-cases, Text, [], all, any, ap, arith, codes, drop, false, if◌then◌else◌, inl, inr,
  is_whitespace, length, map, none, not, refl, some, starts_with, subst, sym, true, ℕ, ◌++◌, ◌==◌,
  ◌||◌, ◌∙◌, ◌∷◌, ◌≡◌, ◌⊎◌,
}
use replyline.Prelude.Slices.{before_first}
use replyline.Prelude.Unicode.{basic_lower}
use replyline.Privacy.{drop_value, ends_value, redacted_mark}
use replyline.Privacy.Markers.{starts_with-drop}

-- A blank, or one of the six characters that end a value.
abbrev pub closes : ℕ → Bool
closes c = is_whitespace c || any (λ d. c == d) (codes ";,\"'&?")

-- A text that begins with an end of a value, or is over.
abbrev pub at_end : Text → Bool
at_end [] = true
at_end (c ∷ s) = closes c

-- What is taken out before `rest`: a mark that is there already, or else all up to the first end.
abbrev pub IsValue : Text → Text → Type 0
IsValue value rest =
    (value ≡ redacted_mark)
    ⊎ ((starts_with (value ++ rest) redacted_mark ≡ false)
        × (all (λ c. not (closes c)) value ≡ true)
        × (at_end rest ≡ true))

-- The text behind each place of the marker, from the first on, is replaced by the mark, and all
-- else is kept.
pub data Redacts (m : Text) : Text → Text → Type 0 where
  clean : (tail : Text) → before_first (map basic_lower tail) m ≡ none → Redacts m tail tail
  cut :
      (tail front head value rest out : Text)
      → before_first (map basic_lower tail) m ≡ some front
      → map basic_lower head ≡ front ++ m
      → tail ≡ head ++ (value ++ rest)
      → IsValue value rest
      → Redacts m rest out
      → Redacts m tail ((head ++ redacted_mark) ++ out)

closes_lem : (c : ℕ) → ends_value c ≡ closes c
unfolding ends_value
closes_lem c = ground arith

-- The value that `drop_value` drops.
drop_value-parts :
    (s : Text)
    → (value : Text) × (s ≡ value ++ drop_value s)
      × (all (λ c. not (closes c)) value ≡ true)
      × (at_end (drop_value s) ≡ true)
unfolding drop_value
drop_value-parts [] = ([], refl, refl, refl)
drop_value-parts (c ∷ s) = elim (Bool-cases (ends_value c)) [
  | inl over ↦ rw over ([], refl, refl, sym (closes_lem c) ∙ over)
  | inr inside ↦
      let (value, parts, inner, end) = drop_value-parts s in
      let goes_on : closes c ≡ false = sym (closes_lem c) ∙ inside in
      rw inside (c ∷ value, ap (◌∷◌ c) parts, rw goes_on inner, end)
]

abbrev pub rest_of : Text → Text
rest_of value =
    if starts_with value redacted_mark then drop (length redacted_mark) value else drop_value value

pub rest_of-IsValue :
    (s : Text) → (value : Text) × (s ≡ value ++ rest_of s) × IsValue value (rest_of s)
rest_of-IsValue s = elim (Bool-cases (starts_with s redacted_mark)) [
  | inl done ↦ rw done (redacted_mark, sym (starts_with-drop s redacted_mark done), inl refl)
  | inr unmasked ↦
      let (value, parts, inner, end) = drop_value-parts s in
      rw unmasked (
        value,
        parts,
        inr (subst (λ t. starts_with t redacted_mark ≡ false) parts unmasked, inner, end),
      )
]
