-- ===== src/Core/Errors.antt =====
-- app/core/exceptions.py: the errors that a service raises, and the result of a call.
use reservation_tool.Base.{◌≡◌, refl, ap, ◌⊎◌, inl, inr, Bool, true, false, ℕ, Option, none, some}

-- One constructor for each class; `internal` is an exception of Python itself.
pub data AppError : Type 0 where
  not_found conflict validation authentication authorization : AppError
  account_not_approved account_disabled : AppError
  reservation_conflict setup_unavailable invalid_state_transition : AppError
  import_validation internal : AppError

-- `status_code` of the class, inherited from its base where it has none of its own.
pub status_code : AppError → ℕ
status_code AppError.not_found = 404
status_code AppError.conflict = 409
status_code AppError.validation = 422
status_code AppError.authentication = 401
status_code AppError.authorization = 403
status_code AppError.account_not_approved = 401
status_code AppError.account_disabled = 401
status_code AppError.reservation_conflict = 409
status_code AppError.setup_unavailable = 409
status_code AppError.invalid_state_transition = 409
status_code AppError.import_validation = 422
status_code AppError.internal = 500

-- How a call ends: it raises, or it returns.
pub data Result {ℓ} (A : Type ℓ) : Type ℓ where
  err : AppError → Result A
  ok : A → Result A

-- `if test: raise e`
abbrev pub raise_if : Bool → AppError → Result (Unit {0})
raise_if true e = err e
raise_if false e = ok tt

-- `if value is None: raise e`
abbrev pub or_raise {ℓ} : {A : Type ℓ} → Option A → AppError → Result A
or_raise none e = err e
or_raise (some a) e = ok a

-- An exception skips the rest of the body.
infixl 5 ◌>>=◌
abbrev pub ◌>>=◌ {κ ℓ} : {B : Type κ} {A : Type ℓ} → Result A → (A → Result B) → Result B
err raised >>= rest = err raised
ok value >>= rest = rest value

infixl 5 ◌>>◌
abbrev pub ◌>>◌ {κ} : {B : Type κ} → Result (Unit {0}) → Result B → Result B
statement >> rest = statement >>= λ _. rest

abbrev pub is_ok {ℓ} : {A : Type ℓ} → Result A → Bool
is_ok (err _) = false
is_ok (ok _) = true

-- Inversion of the steps of a chain of guards.
pub >>=-eq-ok {κ ℓ} :
    {B : Type κ} {A : Type ℓ} (first : Result A) (rest : A → Result B) {y : B}
    → (first >>= rest) ≡ ok y
    → (x : A) × (first ≡ ok x) × (rest x ≡ ok y)
>>=-eq-ok (err raised) rest h = absurd (cc)
>>=-eq-ok (ok x) rest h = (x, refl, h)

pub raise_if-eq-ok {ℓ} :
    {B : Type ℓ} (t : Bool) (e : AppError) (k : Result B) {b : B}
    → (raise_if t e >> k) ≡ ok b
    → (t ≡ false) × (k ≡ ok b)
raise_if-eq-ok true e k h = absurd (cc)
raise_if-eq-ok false e k h = (refl, h)

pub or_raise-eq-ok {ℓ κ} :
    {A : Type ℓ} {B : Type κ} (o : Option A) (e : AppError) (f : A → Result B) {b : B}
    → (or_raise o e >>= f) ≡ ok b
    → (a : A) × (o ≡ some a) × (f a ≡ ok b)
or_raise-eq-ok none e f h = absurd (cc)
or_raise-eq-ok (some a) e f h = (a, refl, h)

abbrev ok_or {ℓ} : {A : Type ℓ} → A → Result A → A
ok_or d (ok a) = a
ok_or d (err _) = d

pub ok-injective {ℓ} : {A : Type ℓ} {a b : A} → ok a ≡ ok b → a ≡ b
ok-injective {a} e = ap (ok_or a) e

pub Result-cases {ℓ} :
    {A : Type ℓ} (r : Result A) → ((a : A) × (r ≡ ok a)) ⊎ ((e : AppError) × (r ≡ err e))
Result-cases (ok a) = inl (a, refl)
Result-cases (err e) = inr (e, refl)

pub err_not_ok {ℓ} : {A : Type ℓ} {x : A} {e : AppError} → err e ≡ ok x → ⊥
err_not_ok h = cc
