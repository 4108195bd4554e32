-- ===== src/Errors/Laws.antt =====
-- Inversion of the chains of fallible steps.
use catp.Base.{◌≡◌, refl, ◌⊎◌, inl, inr, Bool, true, false, Option, none, some}
use catp.Errors.{Error, Result, ok, err, ◌>>=◌, ◌>>◌, reject_if, ok_or}

-- A chain that succeeds has succeeded at its first step.
pub >>=-eq-ok {ℓ κ} :
    {Value : Type ℓ} {Next : Type κ} (r : Result Value) (next : Value → Result Next) {out : Next}
    → (r >>= next) ≡ ok out
    → (v : Value) × (r ≡ ok v) × (next v ≡ ok out)
>>=-eq-ok (err failure) next eq = cc
>>=-eq-ok (ok v) next eq = (v, refl, eq)

pub reject_if-eq-ok : (b : Bool) (e : Error) → reject_if b e ≡ ok tt → b ≡ false
reject_if-eq-ok true e h = cc
reject_if-eq-ok false e h = refl

pub ok_or-eq-ok {ℓ} :
    {A : Type ℓ} (o : Option A) (e : Error) {a : A} → ok_or o e ≡ ok a → o ≡ some a
ok_or-eq-ok none e h = cc
ok_or-eq-ok (some a) e h = cc

pub Result-cases {ℓ} :
    {A : Type ℓ} (r : Result A) → ((a : A) × (r ≡ ok a)) ⊎ ((e : Error) × (r ≡ err e))
Result-cases (ok a) = inl (a, refl)
Result-cases (err e) = inr (e, refl)

-- What a check and a lookup tell when the chain behind them succeeds.
pub guard-eq-ok {ℓ} :
    {B : Type ℓ} (b : Bool) (e : Error) (k : Result B) {r : B}
    → (reject_if b e >> k) ≡ ok r
    → (b ≡ false) × (k ≡ ok r)
guard-eq-ok true e k h = cc
guard-eq-ok false e k h = (refl, h)

pub ok_or->>=-eq-ok {ℓ κ} :
    {A : Type ℓ} {B : Type κ} (o : Option A) (e : Error) (f : A → Result B) {r : B}
    → (ok_or o e >>= f) ≡ ok r
    → (a : A) × (o ≡ some a) × (f a ≡ ok r)
ok_or->>=-eq-ok none e f h = cc
ok_or->>=-eq-ok (some a) e f h = (a, refl, h)

pub ok_inj {ℓ} : {A : Type ℓ} {a b : A} → ok a ≡ ok b → a ≡ b
ok_inj h = cc
