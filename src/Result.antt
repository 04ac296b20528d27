-- ===== src/Result.antt =====
-- A Go call that returns either a value or an error, and the panic of one that returns neither.
use eventsourcing.Shared.{◌≡◌, refl}

pub data Result {ℓ κ} (E : Type ℓ) (A : Type κ) : Type (ℓ ⊔ κ) where
  ok : A → Result E A
  err : E → Result E A

infixl 5 ◌>>=◌
abbrev pub ◌>>=◌ {ℓ κ ι} :
    {E : Type ℓ} {A : Type κ} {B : Type ι} → Result E A → (A → Result E B) → Result E B
ok a >>= f = f a
err e >>= f = err e

-- A chain of two calls that returns a value: both have returned one.
pub >>=-eq-ok {ℓ κ ι} :
    {E : Type ℓ} {T : Type κ} {U : Type ι} (call : Result E T) (rest : T → Result E U) {u : U}
    → (call >>= rest) ≡ ok u
    → (t : T) × (call ≡ ok t) × (rest t ≡ ok u)
>>=-eq-ok (ok t) rest e = (t, refl, e)
>>=-eq-ok (err why) rest e = cc

pub ok_injective {ℓ κ} :
    {E : Type ℓ} {A : Type κ} {a b : A} → ◌≡◌ {A = Result E A} (ok a) (ok b) → a ≡ b
ok_injective h = cc
