-- ===== src/Prelude/Outcomes.antt =====
-- How a Rust function ends: with a value, with a validation error, or by a panic. The kinds of
-- error are those of vls-core/src/policy/error.rs; their texts are left out.
use mathlib.Core.Path.{◌≡◌, refl, ap}
use mathlib.Core.Logic.{◌≢◌, ◌⊎◌, inl, inr}
use mathlib.Core.Bool.{Bool, true, false}
use mathlib.Core.Option.{Option, none, some}
use mathlib.Core.List.{List}
use Prim.Native.Nat.{ℕ}
use vls.Prelude.Tests.{if◌then◌else◌}

pub data ValidationErrorKind : Type 0 where
  transaction_format script_format mismatch policy temporary_policy : ValidationErrorKind
  unknown_destinations : List ℕ → ValidationErrorKind
  status : ValidationErrorKind

pub data Outcome {ℓ} (A : Type ℓ) : Type ℓ where
  ok : A → Outcome A
  err : ValidationErrorKind → Outcome A
  panic : Outcome A

-- `assert!`
abbrev pub assert : Bool → Outcome (Unit {0})
assert true = ok tt
assert false = panic

-- `?`: the first error or panic is the result of the chain.
infixl 5 ◌>>=◌
abbrev pub ◌>>=◌ {ℓ κ} :
    {A : Type ℓ} {B : Type κ} (first : Outcome A) (next : A → Outcome B) → Outcome B
panic >>= next = panic
err kind >>= next = err kind
ok value >>= next = next value

infixl 5 ◌>>◌
abbrev pub ◌>>◌ {ℓ} : {B : Type ℓ} (check : Outcome (Unit {0})) (next : Outcome B) → Outcome B
check >> next = check >>= λ done. next

-- `unwrap`, `expect`
abbrev pub unwrap {ℓ} : {A : Type ℓ} → Option A → Outcome A
unwrap none = panic
unwrap (some a) = ok a

-- `ok_or_else`
abbrev pub ok_or {ℓ} : {A : Type ℓ} → ValidationErrorKind → Option A → Outcome A
ok_or e none = err e
ok_or e (some a) = ok a

pub ok_inj {ℓ} : {A : Type ℓ} {a b : A} → ok a ≡ ok b → a ≡ b
ok_inj {a = a} h = ap (λ o. elim o [ ok c ↦ c | err kind ↦ a | panic ↦ a ]) h

pub if-eq-ok {ℓ} :
    {A : Type ℓ} {a : A} (b : Bool) (x y : Outcome A)
    → (if b then x else y) ≡ ok a
    → ((b ≡ true) × (x ≡ ok a)) ⊎ ((b ≡ false) × (y ≡ ok a))
if-eq-ok true x y h = inl (refl, h)
if-eq-ok false x y h = inr (refl, h)

-- A chain that returns: its first step returned, and so did the rest.
pub >>=-eq-ok {ℓ κ} :
    {A : Type ℓ} {B : Type κ} {b : B} (first : Outcome A) (next : A → Outcome B)
    → (first >>= next) ≡ ok b
    → (a : A) × (first ≡ ok a) × (next a ≡ ok b)
>>=-eq-ok panic next h = cc
>>=-eq-ok (err kind) next h = cc
>>=-eq-ok (ok a) next h = (a, refl, h)

-- The same for a check, whose value says nothing.
pub >>-eq-ok {ℓ} :
    {B : Type ℓ} (m : Outcome (Unit {0})) (k : Outcome B) {b : B}
    → (m >> k) ≡ ok b
    → (m ≡ ok tt) × (k ≡ ok b)
>>-eq-ok (ok a) k h = (refl, h)
>>-eq-ok (err e) k h = (cc, cc)
>>-eq-ok panic k h = (cc, cc)

-- Neither step of a chain panics, so the chain does not.
pub >>-ne-panic {ℓ} :
    {B : Type ℓ} (m : Outcome (Unit {0})) (k : Outcome B)
    → m ≢ panic
    → (m ≡ ok tt → k ≢ panic)
    → (m >> k) ≢ panic
>>-ne-panic (ok a) k h j e = j refl e
>>-ne-panic (err x) k h j e = cc
>>-ne-panic panic k h j e = h refl
