-- ===== src/Prelude/Tests.antt =====
-- Boolean tests on the native numbers, the conditional, and the truth values of C.
use Prim.Native.Nat.{ℕ, compare, Ordering}
use mathlib.Core.Path.{◌≡◌, refl}
use mathlib.Core.Logic.{◌↔◌, ◌⊎◌, inl, inr}
use mathlib.Core.Bool.{Bool, true, false}
use mathlib.Core.Option.{Option, none, some}
use native.Mathlib.Omega.{arith}

abbrev pub ltb : ℕ → ℕ → Bool
ltb a b = elim (compare a b) [ Ordering.lt ↦ true | _ ↦ false ]

abbrev pub leb : ℕ → ℕ → Bool
leb a b = elim (compare a b) [ Ordering.gt ↦ false | _ ↦ true ]

infix 50 ◌==◌
abbrev pub ◌==◌ : ℕ → ℕ → Bool
a == b = elim (compare a b) [ Ordering.eq ↦ true | _ ↦ false ]

infix 1 if◌then◌else◌
abbrev pub if◌then◌else◌ {ℓ} : {A : Type ℓ} → Bool → A → A → A
if true then x else y = x
if false then x else y = y

-- A number as a condition: `if (n)` of C.
abbrev pub nonzero : ℕ → Bool
nonzero n = ltb 0 n

-- A number stored into a `bool`.
abbrev pub to_bool : ℕ → ℕ
to_bool n = if nonzero n then 1 else 0

pub ==_iff : (a b : ℕ) → ((a == b) ≡ true) ↔ (a ≡ b)
==_iff a b = ground arith

-- To split on a computed value and keep the equation.
pub Bool-cases : (b : Bool) → (b ≡ true) ⊎ (b ≡ false)
Bool-cases true = inl refl
Bool-cases false = inr refl

pub Option-cases {ℓ} : {A : Type ℓ} (o : Option A) → (o ≡ none) ⊎ ((a : A) × (o ≡ some a))
Option-cases none = inl refl
Option-cases (some a) = inr (a, refl)

-- A conditional whose test is known.
pub if_true {ℓ} : {A : Type ℓ} (b : Bool) (x y : A) → b ≡ true → (if b then x else y) ≡ x
if_true b x y e = rw e refl

pub if_false {ℓ} : {A : Type ℓ} (b : Bool) (x y : A) → b ≡ false → (if b then x else y) ≡ y
if_false b x y e = rw e refl

-- What holds of both branches of a conditional.
pub if_both {ℓ κ} :
    {A : Type ℓ} {R : Type κ} (f : A → R) (v : R) (b : Bool) (x y : A)
    → f x ≡ v
    → f y ≡ v
    → f (if b then x else y) ≡ v
if_both f v true x y ex ey = ex
if_both f v false x y ex ey = ey

pub if_map {ℓ κ} :
    {A : Type ℓ} {R : Type κ} (f : A → R) (b : Bool) (x y : A) (u v : R)
    → (b ≡ true → f x ≡ u)
    → (b ≡ false → f y ≡ v)
    → f (if b then x else y) ≡ (if b then u else v)
if_map f true x y u v ex ey = ex refl
if_map f false x y u v ex ey = ey refl

pub if_keeps {ℓ κ} :
    {A : Type ℓ} (P : A → Type κ) (b : Bool) (x y : A)
    → (b ≡ true → P x)
    → (b ≡ false → P y)
    → P (if b then x else y)
if_keeps P true x y px py = px refl
if_keeps P false x y px py = py refl
