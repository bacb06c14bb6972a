-- ===== src/Prelude/Decimal.antt =====
-- `Display` of an unsigned integer, in decimal.
use Prim.Native.Nat.{ℕ, zero, suc, ◌+◌, ◌-◌, ◌*◌, ◌/◌, ◌%◌, ◌<◌}
use mathlib.Core.Path.{◌≡◌, refl}
use mathlib.Core.Logic.{inl, inr}
use mathlib.Core.List.{[], ◌∷◌, ◌++◌}
use native.Mathlib.Omega.{arith}
use replyline.Prelude.Tests.{ltb, if◌then◌else◌, Bool-cases}
use replyline.Prelude.Strings.{Text}

-- The fuel bounds the digits; `suc n` is enough, since each digit divides the rest by ten.
display_fuel : ℕ → ℕ → Text
display_fuel zero n = []
display_fuel (suc fuel) n =
    let front = display_fuel fuel (n / 10) in
    if ltb n 10 then (48 + n) ∷ [] else front ++ (48 + n % 10) ∷ []

unfoldable pub display : ℕ → Text
unfolding display_fuel
display n = display_fuel (suc n) n

-- What a reader of the digits makes of them.
pub read_from : ℕ → Text → ℕ
read_from acc [] = acc
read_from acc (c ∷ s) = read_from (acc * 10 + (c - 48)) s

read_from-append :
    (acc c : ℕ) (s : Text) → read_from acc (s ++ c ∷ []) ≡ read_from acc s * 10 + (c - 48)
unfolding read_from
read_from-append acc c [] = refl
read_from-append acc c (d ∷ s) = read_from-append (acc * 10 + (d - 48)) c s

read-display_fuel : (fuel n : ℕ) → n < fuel → read_from 0 (display_fuel fuel n) ≡ n
unfolding display_fuel
read-display_fuel zero n h = elim h [ ]
read-display_fuel (suc fuel) n h = elim (Bool-cases (ltb n 10)) [
  | inl small ↦ rw small (unfold read_from in omega arith)
  | inr large ↦
      rw
        (
          large,
          read_from-append 0 (48 + n % 10) (display_fuel fuel (n / 10)),
          read-display_fuel fuel (n / 10) (ground arith),
        )
        (omega arith)
]

-- The digits denote the number.
pub read-display : (n : ℕ) → read_from 0 (display n) ≡ n
unfolding display
read-display n = read-display_fuel (suc n) n (omega arith)
