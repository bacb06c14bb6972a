-- ===== src/Prelude/Results.antt =====
-- Rust's `Result`, with its bind.
use mathlib.Core.Path.{◌≡◌, refl}
use mathlib.Core.Logic.{◌⊎◌, inl, inr}
use mathlib.Core.Bool.{Bool, true, false}
use replyline.Prelude.Tests.{if◌then◌else◌}

pub data Result {ℓ κ} (A : Type ℓ) (E : Type κ) : Type (ℓ ⊔ κ) where
  ok : A → Result A E
  err : E → Result A E

infixl 5 ◌>>=◌
abbrev pub ◌>>=◌ {ℓ κ μ} :
    {A : Type ℓ} {B : Type κ} {E : Type μ} → Result A E → (A → Result B E) → Result B E
ok a >>= f = f a
err e >>= f = err e

-- `is_ok()`, `map_err(f)`, `.ok()`.
abbrev pub is_ok {ℓ κ} : {A : Type ℓ} {E : Type κ} → Result A E → Bool
is_ok (ok a) = true
is_ok (err e) = false

abbrev pub map_err {ℓ κ μ} :
    {A : Type ℓ} {E : Type κ} {F : Type μ} → (E → F) → Result A E → Result A F
map_err f (ok a) = ok a
map_err f (err e) = err (f e)

pub Result-cases {ℓ κ} :
    {A : Type ℓ} {E : Type κ} (r : Result A E) → ((e : E) × (r ≡ err e)) ⊎ ((a : A) × (r ≡ ok a))
Result-cases (ok a) = inr (a, refl)
Result-cases (err e) = inl (e, refl)

-- Inversion of a ladder of refusals.
pub if-err-ok {ℓ κ} :
    {A : Type ℓ} {E : Type κ} (b : Bool) (e : E) (r : Result A E) {a : A}
    → (if b then err e else r) ≡ ok a
    → (b ≡ false) × (r ≡ ok a)
if-err-ok true e r h = cc
if-err-ok false e r h = (refl, h)

-- A chain that succeeds has a first step that succeeds.
pub first_step {ℓ κ μ} :
    {E : Type μ} {B : Type κ} {A : Type ℓ} (step : Result A E) (later : A → Result B E) {b : B}
    → ok b ≡ (step >>= later)
    → (a : A) × (ok b ≡ later a) × (step ≡ ok a)
first_step (err e) later chain = cc
first_step (ok a) later chain = (a, chain, refl)
