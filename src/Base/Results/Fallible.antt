-- ===== src/Base/Results/Fallible.antt =====
-- `do` blocks for code that fails and changes no state.
use mathlib.Core.Path.{◌≡◌, refl}
use native.Mathlib.Omega.{arith}
use starrocks_kubernetes_ope.Base.Results.Errors.{Result, ok, err, panic}

infixl 5 ◌>>=◌ ◌>>◌
abbrev pub ◌>>=◌ : {A B : Type 0} → Result A → (A → Result B) → Result B
ok a >>= f = f a
err e >>= f = err e
panic p >>= f = panic p

abbrev pub ◌>>◌ : {B : Type 0} → Result (Unit {0}) → Result B → Result B
m >> k = m >>= λ _. k

-- Where a chain has succeeded, each of its calls has.
pub bind-eq-ok :
    {S T : Type 0} (call : Result S) (next : S → Result T) {last : T}
    → (call >>= next) ≡ ok last
    → (value : S) × (call ≡ ok value) × (next value ≡ ok last)
bind-eq-ok (panic p) next succeeded = cc
bind-eq-ok (err e) next succeeded = cc
bind-eq-ok (ok value) next succeeded = (value, refl, succeeded)

pub ok-injective : {A : Type 0} {a b : A} → ok a ≡ ok b → a ≡ b
ok-injective h = ground (arith, h)

pub then-eq-ok :
    {T : Type 0} (check : Result (Unit {0})) (value : T) {last : T}
    → (check >> ok value) ≡ ok last
    → (check ≡ ok tt) × (value ≡ last)
then-eq-ok (panic p) value succeeded = cc
then-eq-ok (err e) value succeeded = cc
then-eq-ok (ok tt) value succeeded = (refl, ground (arith, succeeded))
