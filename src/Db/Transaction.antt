-- ===== src/Db/Transaction.antt =====
-- `get_db` of app/db/session.py: a request runs in one transaction. It is that of the REST endpoints, whose
-- exceptions reach `get_db`; a page of app/web that catches the exception of a service and answers with a
-- message returns, so that `get_db` commits what the service wrote before it raised.

use reservation_tool.Base.{◌≡◌, refl, arith, inl, inr}
use reservation_tool.Core.Errors.{AppError, Result, ok, err, Result-cases}
use reservation_tool.Db.Rows.{Db}

-- A service call. What it wrote before it raised is still in the session.
abbrev pub Action {ℓ} : Type ℓ → Type ℓ
Action A = Db → Result A × Db

-- Checks that only read, then the writes: the guards of a handler stand before its first write.
abbrev pub checked {ℓ κ} : {A : Type ℓ} {B : Type κ} → Result A → (A → Action B) → Action B
checked (ok a) k db = k a db
checked (err e) k db = (err e, db)

-- `db.rollback()`: the tables are as before; a mail that has gone out is not called back.
abbrev pub rollback : Db → Db → Db
rollback before after = record before {
  journal = record before.journal { outbox = after.journal.outbox };
}

-- Commits when the endpoint returns, rolls back when it raises, as the REST endpoints do.
unfoldable pub request {ℓ} : {A : Type ℓ} → Action A → Action A
request m db =
    let (r, db') = m db in elim r [ ok a ↦ (ok a, db') | err e ↦ (err e, rollback db db') ]

-- A statement after another: an exception of the first ends the call.
abbrev pub and_then {ℓ} : {A : Type ℓ} → Result (Unit {0}) × Db → Action A → Result A × Db
and_then (ok _, db) k = k db
and_then (err e, db) k = (err e, db)

module _ {ℓ} {A : Type ℓ} where
  -- What both statements keep.
  pub and_then_keeps {κ} :
      (P : Db → Type κ) (m : Result (Unit {0}) × Db) (k : Action A)
      → P m.1
      → ((db : Db) → P db → P (k db).1)
      → P (and_then m k).1
  and_then_keeps P (ok _, db) k h f = f db h
  and_then_keeps P (err _, db) k h f = h

  -- A call that returns has gone through its first statement.
  pub and_then_ok :
      (m : Result (Unit {0}) × Db) (k : Action A) {a : A}
      → (and_then m k).0 ≡ ok a
      → (m.0 ≡ ok tt) × (and_then m k ≡ k m.1)
  and_then_ok (ok _, db) k h = (refl, refl)
  and_then_ok (err e, db) k h = absurd (cc)

  -- An exception of the first statement is that of the call.
  pub and_then_err :
      (m : Result (Unit {0}) × Db) (k : Action A) {e : AppError}
      → m.0 ≡ err e
      → (and_then m k).0 ≡ err e
  and_then_err (ok _, db) k h = absurd (cc)
  and_then_err (err x, db) k h = ground arith

  -- The outcome of the call, by the outcome of its first statement.
  pub and_then_cases :
      (m : Result (Unit {0}) × Db) (k : Action A) {r : Result A}
      → (m.0 ≡ ok tt → (k m.1).0 ≡ r)
      → ((e : AppError) → m.0 ≡ err e → err e ≡ r)
      → (and_then m k).0 ≡ r
  and_then_cases (ok _, db) k f g = f refl
  and_then_cases (err e, db) k f g = g e refl

-- What holds of the tables before a request and after its writes holds after its transaction.
pub request_keeps {ℓ κ} :
    {A : Type ℓ} (P : Db → Type κ) (m : Action A) (db : Db)
    → P (m db).1
    → P (rollback db (m db).1)
    → P (request m db).1
unfolding request
request_keeps P m db after back = elim (Result-cases (m db).0) [
  | inl (a, e) ↦ rw (e, request) after
  | inr (e, h) ↦ rw (h, request) back
]

-- A request that raises leaves the tables as they were.
pub request_err {ℓ} :
    {A : Type ℓ} (m : Action A) (db : Db) {e : AppError}
    → (m db).0 ≡ err e
    → request m db ≡ (err e, rollback db (m db).1)
unfolding request
request_err m db h = rw (h, request) refl

-- What holds before and after every accepted call holds after every call: the guards only read.
pub checked_keeps {ℓ κ μ} :
    {A : Type ℓ} {B : Type κ} (P : Db → Type μ) (m : Result A) (k : A → Action B) (db : Db)
    → P db
    → ((a : A) → m ≡ ok a → P (k a db).1)
    → P (checked m k db).1
checked_keeps P (ok a) k db v f = f a refl
checked_keeps P (err e) k db v f = v

-- An accepted call has passed its guards, and ends as its writes do.
pub checked_ok {ℓ κ} :
    {A : Type ℓ} {B : Type κ} (m : Result A) (k : A → Action B) (db : Db) {r : B}
    → (checked m k db).0 ≡ ok r
    → (a : A) × (m ≡ ok a) × ((k a db).0 ≡ ok r) × (checked m k db ≡ k a db)
checked_ok (ok a) k db h = (a, refl, h, refl)
checked_ok (err e) k db h = absurd (cc)
