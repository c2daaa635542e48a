-- ===== src/Base/Results/Stateful.antt =====
-- `do` blocks for code that fails and changes a state, which a failure keeps as it is then.
use Prim.Native.String.{String}
use mathlib.Core.Path.{◌≡◌, ap}
use native.Mathlib.Omega.{arith}
use starrocks_kubernetes_ope.Base.Results.Errors.{Result, ok, err, panic, Error}

abbrev pub M : Type 0 → Type 0 → Type 0
M S A = S → Result A × S

abbrev pub and_then : {S A B : Type 0} → Result A × S → (A → M S B) → Result B × S
and_then (ok a, s) f = f a s
and_then (err e, s) f = (err e, s)
and_then (panic p, s) f = (panic p, s)

infixl 5 ◌>>=◌ ◌>>◌
abbrev pub ◌>>=◌ : {S A B : Type 0} → M S A → (A → M S B) → M S B
◌>>=◌ m f s = and_then (m s) f

abbrev pub ◌>>◌ : {S B : Type 0} → M S (Unit {0}) → M S B → M S B
m >> k = m >>= λ _. k

abbrev pub pure : {S A : Type 0} → A → M S A
pure a s = (ok a, s)

abbrev pub fail : {S A : Type 0} → Error → M S A
fail e s = (err e, s)

-- A call that only reads.
abbrev pub read : {S A : Type 0} → (S → Result A) → M S A
read f s = (f s, s)

-- `err = f(); if err != nil …`: the result as a value, and a panic goes on.
abbrev pub caught : {S A : Type 0} → Result A × S → Result (Result A) × S
caught (ok a, s) = (ok (ok a), s)
caught (err e, s) = (ok (err e), s)
caught (panic p, s) = (panic p, s)

abbrev pub try : {S A : Type 0} → M S A → M S (Result A)
try m s = caught (m s)

module _ {S A : Type 0} {a : A} {s s' : S} where
  pub err-ne-ok : {e : Error} → ◌≡◌ {A = Result A × S} (err e, s) (ok a, s') → ⊥
  err-ne-ok h = ground (arith, ap (λ p. p.0) h)

  pub panic-ne-ok : {p : String} → ◌≡◌ {A = Result A × S} (panic p, s) (ok a, s') → ⊥
  panic-ne-ok h = ground (arith, ap (λ p. p.0) h)

-- A call whose value is dropped, and which succeeded, has yielded some value.
pub created-eq-ok :
    {S A : Type 0} (r : Result A × S) {s' : S}
    → and_then r (λ _. pure tt) ≡ (ok tt, s')
    → (a : A) × (r ≡ (ok a, s'))
created-eq-ok (ok a, s) h = (a, λ i. (ok a, (h i).1))
created-eq-ok (err e, s) h = absurd (err-ne-ok h)
created-eq-ok (panic p, s) h = absurd (panic-ne-ok h)
