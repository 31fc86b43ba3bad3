-- ===== src/Common/Throwing.antt =====
-- What a function that may throw returns.
use mathlib.Core.Path.{◌≡◌, refl}
use mathlib.Core.Logic.{◌⊎◌, inl, inr}
use mathlib.Core.Bool.{Bool, true, false}

pub data Result (E A : Type 0) : Type 0 where
  ok : A → Result E A
  throw : E → Result E A

-- `if (bad) throw e;`
abbrev pub throw_if : {E : Type 0} → Bool → E → Result E (Unit {0})
throw_if true e = throw e
throw_if false e = ok tt

-- What follows a step that may throw.
infixl 5 ◌>>=◌ ◌>>◌
abbrev pub ◌>>=◌ : {E A B : Type 0} → Result E A → (A → Result E B) → Result E B
throw e >>= next = throw e
ok a >>= next = next a

abbrev pub ◌>>◌ : {E A : Type 0} → Result E (Unit {0}) → Result E A → Result E A
step >> after = step >>= λ _. after

pub Result-cases :
    {E A : Type 0} (r : Result E A) → ((a : A) × (r ≡ ok a)) ⊎ ((e : E) × (r ≡ throw e))
Result-cases (ok a) = inl (a, refl)
Result-cases (throw e) = inr (e, refl)

-- A chain that succeeds began with a step that succeeded.
pub >>=-eq-ok :
    {E A B : Type 0} (step : Result E A) (next : A → Result E B) {result : B}
    → ◌≡◌ {A = Result E B} (step >>= next) (ok result)
    → (value : A) × (step ≡ ok value) × (next value ≡ ok result)
>>=-eq-ok (throw e) next h = cc
>>=-eq-ok (ok value) next h = (value, refl, h)

pub ok_inj : {E A : Type 0} {a b : A} → ◌≡◌ {A = Result E A} (ok a) (ok b) → a ≡ b
ok_inj h = cc

-- A check that the chain passes.
pub throw_if-eq-ok :
    {E A : Type 0} (bad : Bool) (e : E) (next : Result E A) {a : A}
    → ◌≡◌ {A = Result E A} (throw_if bad e >> next) (ok a)
    → (bad ≡ false) × (next ≡ ok a)
throw_if-eq-ok true e next h = cc
throw_if-eq-ok false e next h = (refl, h)

pub throw_not_ok : {E A : Type 0} {e : E} {a : A} → ◌≡◌ {A = Result E A} (throw e) (ok a) → ⊥
throw_not_ok h = cc
