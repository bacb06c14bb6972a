-- ===== src/Prelude/Strings.antt =====
-- Rust's `String` as a list of Unicode scalar values, with the methods of `str` that the code uses.
use Prim.Native.Nat.{ℕ, ◌+◌, ◌≤◌}
use Prim.Native.Char.{code}
use Prim.Native.String.{String}
use mathlib.Core.Path.{◌≡◌, refl}
use mathlib.Core.Logic.{◌↔◌}
use mathlib.Core.Bool.{Bool, true, false, not, ◌&&◌, ◌||◌}
use mathlib.Core.List.{List, [], ◌∷◌, ◌++◌}
use native.Mathlib.Omega.{arith}
use replyline.Prelude.Tests.{if◌then◌else◌, leb, ltb, ◌==◌}
use replyline.Prelude.Lists.{is_empty, length}

abbrev pub Text : Type 0
Text = List ℕ

-- A literal of the source.
abbrev pub codes : String → Text
codes String.[] = []
codes (String.◌∷◌ c s) = code c ∷ codes s

-- `char::is_whitespace`, the Unicode property White_Space.
unfoldable pub is_whitespace : ℕ → Bool
is_whitespace c =
    leb 9 c && leb c 13
    || c == 32
    || c == 0x85
    || c == 0xa0
    || c == 0x1680
    || leb 0x2000 c && leb c 0x200a
    || c == 0x2028
    || c == 0x2029
    || c == 0x202f
    || c == 0x205f
    || c == 0x3000

unfoldable pub trim_start : Text → Text
unfolding is_whitespace
trim_start [] = []
trim_start (c ∷ s) = if is_whitespace c then trim_start s else c ∷ s

unfoldable pub trim_end : Text → Text
unfolding is_whitespace
trim_end [] = []
trim_end (c ∷ s) =
    let rest = trim_end s in if is_empty rest && is_whitespace c then [] else c ∷ rest

unfoldable pub trim : Text → Text
unfolding trim_start trim_end
trim s = trim_end (trim_start s)

-- `split_whitespace().count()`: the number of places where a word begins.
unfoldable pub word_count_from : Bool → Text → ℕ
unfolding is_whitespace
word_count_from inside [] = 0
word_count_from inside (c ∷ s) =
    (if not inside && not (is_whitespace c) then 1 else 0)
    + word_count_from (not (is_whitespace c)) s

unfoldable pub word_count : Text → ℕ
unfolding word_count_from
word_count s = word_count_from false s

-- `str::len`, the bytes of the text in UTF-8.
abbrev pub utf8_width : ℕ → ℕ
utf8_width c = if ltb c 0x80 then 1 else if ltb c 0x800 then 2 else if ltb c 0x10000 then 3 else 4

abbrev pub byte_len : Text → ℕ
byte_len [] = 0
byte_len (c ∷ s) = utf8_width c + byte_len s

abbrev pub text_eq : Text → Text → Bool
text_eq [] [] = true
text_eq [] (d ∷ t) = false
text_eq (c ∷ s) [] = false
text_eq (c ∷ s) (d ∷ t) = c == d && text_eq s t

pub text_eq_iff : (s t : Text) → (text_eq s t ≡ true) ↔ (s ≡ t)
text_eq_iff [] [] = (λ _. refl, λ _. refl)
text_eq_iff [] (d ∷ t) = (λ h. cc, λ h. cc)
text_eq_iff (c ∷ s) [] = (λ h. cc, λ h. cc)
text_eq_iff (c ∷ s) (d ∷ t) =
    (λ h. ground (arith, text_eq_iff s t), λ h. ground (arith, text_eq_iff s t))

pub text_eq_refl : (s : Text) → text_eq s s ≡ true
text_eq_refl s = (text_eq_iff s s).1 refl

-- `lines.join(sep)`.
unfoldable pub join : Text → List Text → Text
join sep [] = []
join sep (s ∷ []) = s
join sep (s ∷ t ∷ rest) = s ++ sep ++ join sep (t ∷ rest)

-- `trim` is `[]` only on blank text, and trimming again changes nothing.
pub trim_end_le : (s : Text) → length (trim_end s) ≤ length s
unfolding trim_end
trim_end_le [] = omega arith
trim_end_le (c ∷ s) = ground (arith, trim_end_le s)

pub trim_start_le : (s : Text) → length (trim_start s) ≤ length s
unfolding trim_start
trim_start_le [] = omega arith
trim_start_le (c ∷ s) = ground (arith, trim_start_le s)

pub trim_le : (s : Text) → length (trim s) ≤ length s
unfolding trim
trim_le s = omega (arith, trim_end_le (trim_start s), trim_start_le s)

trim_end_idem : (s : Text) → trim_end (trim_end s) ≡ trim_end s
unfolding trim_end
trim_end_idem [] = refl
trim_end_idem (c ∷ s) = ground (arith, trim_end_idem s)

trim_start_end : (s : Text) → trim_start (trim_end (trim_start s)) ≡ trim_end (trim_start s)
unfolding trim_start trim_end
trim_start_end [] = refl
trim_start_end (c ∷ s) = ground (arith, trim_start_end s)

pub trim_idem : (s : Text) → trim (trim s) ≡ trim s
unfolding trim
trim_idem s = rw (trim_start_end s) (trim_end_idem (trim_start s))

-- A text differs from every longer one that it begins.
pub text_eq-append : (s : Text) (c : ℕ) (t : Text) → text_eq s (s ++ c ∷ t) ≡ false
text_eq-append [] c t = refl
text_eq-append (d ∷ s) c t = ground (arith, text_eq-append s c t)

-- `str::starts_with` and `str::contains`.
abbrev pub starts_with : Text → Text → Bool
starts_with s [] = true
starts_with [] (d ∷ t) = false
starts_with (c ∷ s) (d ∷ t) = c == d && starts_with s t

unfoldable pub contains : Text → Text → Bool
contains [] needle = is_empty needle
contains (c ∷ s) needle = starts_with (c ∷ s) needle || contains s needle

abbrev pub contains_char : Text → ℕ → Bool
contains_char [] d = false
contains_char (c ∷ s) d = c == d || contains_char s d

-- `str::ends_with`.
abbrev pub ends_with : Text → Text → Bool
ends_with [] t = is_empty t
ends_with (c ∷ s) t = text_eq (c ∷ s) t || ends_with s t
