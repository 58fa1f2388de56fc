-- ===== src/Prelude/Result.antt =====
-- Fallible code: the errors that the modelled functions raise, and the chain of steps.
use mathlib.Core.Path.{◌≡◌, refl, subst}
use mathlib.Core.Bool.{Bool, true, false}

-- ValueError, KeyError, RuntimeError, TransitionError and WorkspaceSafetyError of errors.py, and the
-- database's refusals.
pub data Error : Type 0 where
  value_error key_error runtime_error transition_error workspace_safety_error integrity_error :
      Error

pub data Result {ℓ} (A : Type ℓ) : Type ℓ where
  err : Error → Result A
  ok : A → Result A

-- What follows a call: it is left out when the call has raised.
infixl 5 ◌>>=◌ ◌>>◌
abbrev pub ◌>>=◌ {ℓ μ} : {X : Type ℓ} {Y : Type μ} → Result X → (X → Result Y) → Result Y
err e >>= next = err e
ok x >>= next = next x

abbrev pub ◌>>◌ {ℓ} : {Y : Type ℓ} → Result (Unit {0}) → Result Y → Result Y
first >> second = first >>= λ done. second

-- `if broken: raise e`
abbrev pub raise_if : Bool → Error → Result (Unit {0})
raise_if true e = err e
raise_if false e = ok tt

pub >>=-eq-ok {ℓ μ} :
    {X : Type ℓ} {Y : Type μ} (call : Result X) (next : X → Result Y) {y : Y}
    → (call >>= next) ≡ ok y
    → (x : X) × (call ≡ ok x) × (next x ≡ ok y)
>>=-eq-ok (err e) next h = cc
>>=-eq-ok (ok x) next h = (x, refl, h)

-- The call returns, and what it returns satisfies `P`.
abbrev pub Returns {ℓ} : {A : Type ℓ} → (A → Type 0) → Result A → Type 0
Returns P (ok a) = P a
Returns P (err e) = ⊥

pub Returns-eq-ok {ℓ} :
    {A : Type ℓ} (P : A → Type 0) (r : Result A) {a : A} → Returns P r → r ≡ ok a → P a
Returns-eq-ok P r h e = subst (Returns P) e h

pub Returns-get {ℓ} :
    {A : Type ℓ} (P : A → Type 0) (r : Result A) → Returns P r → (a : A) × (r ≡ ok a) × P a
Returns-get P (ok a) h = (a, refl, h)
Returns-get P (err e) h = absurd h

-- The rule for a step that is followed by the rest of its block.
pub Returns-bind {ℓ κ} :
    {A : Type ℓ} {B : Type κ} (P : A → Type 0) (Q : B → Type 0) (r : Result A) (f : A → Result B)
    → Returns P r
    → ((a : A) → P a → Returns Q (f a))
    → Returns Q (r >>= f)
Returns-bind P Q (ok a) f h k = k a h
Returns-bind P Q (err e) f h k = absurd h

-- A guard that was passed.
pub raise_if-eq-ok {ℓ} :
    {A : Type ℓ} (b : Bool) (e : Error) (m : Result A) {a : A}
    → (raise_if b e >> m) ≡ ok a
    → (b ≡ false) × (m ≡ ok a)
raise_if-eq-ok true e m h = cc
raise_if-eq-ok false e m h = (refl, h)
