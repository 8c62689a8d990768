-- ===== src/Borrows/Validity.antt =====
-- What the tables of borrows and grants promise, and the rows that a key names.
pub mod Writes
pub mod Grants
pub mod Closing
use reservation_tool.Base.{◌≡◌, ◌≢◌, true, List, All, Pairwise}
use reservation_tool.Core.Status.{BorrowStatus, borrow_completed}
use reservation_tool.Db.Rows.{BorrowRequest, SetupAccessGrant}
use reservation_tool.Borrows.Access.{is_open}
use reservation_tool.Keys.{Any}

-- Two requests that hold or ask for one setup.
abbrev pub BothOpen : BorrowRequest → BorrowRequest → Type 0
BothOpen a b = (a.setup_id ≡ b.setup_id) × (is_open a ≡ true) × (is_open b ≡ true)

-- Two grants of one setup that are both active.
abbrev pub BothActive : SetupAccessGrant → SetupAccessGrant → Type 0
BothActive g h = (g.setup_id ≡ h.setup_id) × (g.is_active ≡ true) × (h.is_active ≡ true)

-- The grant carries out this completed request.
abbrev pub Carries : SetupAccessGrant → BorrowRequest → Type 0
Carries g b =
    (b.id ≡ g.borrow_request_id)
    × (borrow_completed b.status ≡ true)
    × (b.setup_id ≡ g.setup_id)
    × (b.target_group_id ≡ g.granted_to_group_id)

-- The request has an active grant.
abbrev pub Opens : BorrowRequest → SetupAccessGrant → Type 0
Opens b g = (g.borrow_request_id ≡ b.id) × (g.is_active ≡ true)

pub record IsValid (bs : List BorrowRequest) (gs : List SetupAccessGrant) : Type 0 where
  pub borrow_keys : Pairwise (λ a b. a.id ≢ b.id) bs
  pub grant_keys : Pairwise (λ g h. g.id ≢ h.id) gs
  pub grant_requests : Pairwise (λ g h. g.borrow_request_id ≢ h.borrow_request_id) gs
  pub one_open : Pairwise (λ a b. ¬ BothOpen a b) bs
  pub one_active : Pairwise (λ g h. ¬ BothActive g h) gs
  pub backed : All (λ g. g.is_active ≡ true → Any (Carries g) bs) gs
  pub held : All (λ b. borrow_completed b.status ≡ true → Any (Opens b) gs) bs
