-- ===== src/Base/Outcome.antt =====
-- What a C++ function that may throw gives back: a value or the exception. exception.hpp
use mathlib.Core.Path.{◌≡◌, refl, ap}
use mathlib.Core.Logic.{◌⊎◌, inl, inr}

-- The exception classes that the modelled code throws or lets through.
pub data Error : Type 0 where
  logic_error : Error
  -- what the libraries the program calls throw
  binary_error conversion_error parse_error : Error
  invalid_map_key reserved_name message_name_not_defined : Error
  duplicate_field_name duplicate_protocol_name protocol_field_self_reference : Error
  protocol_not_registered protocol_identifier_already_registered : Error
  protocol_consumer_already_registered internal_socket_error : Error

pub data Outcome {ℓ} (A : Type ℓ) : Type ℓ where
  ok : A → Outcome A
  err : Error → Outcome A

infixl 5 ◌>>=◌ ◌>>◌
abbrev pub ◌>>=◌ {ℓ κ} : {A : Type ℓ} {B : Type κ} → Outcome A → (A → Outcome B) → Outcome B
ok a >>= f = f a
err e >>= f = err e

abbrev pub ◌>>◌ {ℓ κ} : {A : Type ℓ} {B : Type κ} → Outcome A → Outcome B → Outcome B
m >> k = m >>= λ _. k

pub Outcome-cases {ℓ} :
    {A : Type ℓ} (o : Outcome A) → ((a : A) × (o ≡ ok a)) ⊎ ((e : Error) × (o ≡ err e))
Outcome-cases (ok a) = inl (a, refl)
Outcome-cases (err e) = inr (e, refl)

pub bind_assoc {ℓ κ μ} :
    {A : Type ℓ} {B : Type κ} {C : Type μ} (o : Outcome A) (f : A → Outcome B) (g : B → Outcome C)
    → ((o >>= f) >>= g) ≡ (o >>= λ a. f a >>= g)
bind_assoc (ok a) f g = refl
bind_assoc (err e) f g = refl

pub bind_cong {ℓ κ} :
    {A : Type ℓ} {B : Type κ} (o : Outcome A) (f g : A → Outcome B)
    → ((a : A) → f a ≡ g a)
    → (o >>= f) ≡ (o >>= g)
bind_cong (ok a) f g h = h a
bind_cong (err e) f g h = refl

pub ok_inj {ℓ} : {A : Type ℓ} {a c : A} → ok a ≡ ok c → a ≡ c
ok_inj {a} e = ap (λ o. elim o [ ok x ↦ x | err _ ↦ a ]) e

-- A chain that succeeds has succeeded at every step.
pub bind_ok {ℓ κ} :
    {A : Type ℓ} {B : Type κ} (o : Outcome A) (f : A → Outcome B) (r : B)
    → (o >>= f) ≡ ok r
    → (a : A) × (o ≡ ok a) × (f a ≡ ok r)
bind_ok (ok a) f r h = (a, refl, h)
bind_ok (err e) f r h = cc
