-- ===== src/Base/Result.antt =====
-- Python's exceptions as values.
use mathlib.Core.Path.{◌≡◌, refl, ap}

pub data Error : Type 0 where
  value_error type_error key_error index_error attribute_error name_error : Error
  runtime_error nats_error db_error http_error docker_error : Error

pub data Result {ℓ} (A : Type ℓ) : Type ℓ where
  ok : A → Result A
  raise : Error → Result A

pub ok-injective {ℓ} : {A : Type ℓ} {a b : A} → ok a ≡ ok b → a ≡ b
ok-injective {a = a} p = ap (λ r. elim r [ ok x ↦ x | raise _ ↦ a ]) p

infixl 5 ◌>>=◌
abbrev pub ◌>>=◌ {ℓ₁ ℓ₂} :
    {Value : Type ℓ₁} {Next : Type ℓ₂} → Result Value → (Value → Result Next) → Result Next
raise exception >>= continue = raise exception
ok value >>= continue = continue value

-- A sequence that returned: its first part returned, and so did what follows.
pub >>=-eq-ok {ℓ₁ ℓ₂} :
    {Value : Type ℓ₁} {Next : Type ℓ₂} {final : Next} (first : Result Value)
    (continue : Value → Result Next)
    → (first >>= continue) ≡ ok final
    → (value : Value) × (first ≡ ok value) × (continue value ≡ ok final)
>>=-eq-ok (raise exception) continue stopped = cc
>>=-eq-ok (ok value) continue returned = (value, refl, returned)

-- What follows a part that returned is given its value.
pub >>=_ok {ℓ₁ ℓ₂} :
    {Value : Type ℓ₁} {Next : Type ℓ₂} {value : Value} (first : Result Value)
    (continue : Value → Result Next)
    → first ≡ ok value
    → (first >>= continue) ≡ continue value
>>=_ok first continue returned = ap (λ r. r >>= continue) returned
