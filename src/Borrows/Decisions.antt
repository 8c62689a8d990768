-- ===== src/Borrows/Decisions.antt =====
-- Who may decide a borrow, and what an approval does to the access of the setup.
use reservation_tool.Base.{ℕ, ◌≡◌, ◌≢◌, refl, ◌↔◌, ◌⊎◌, inl, inr, true, List, [], ◌∷◌, arith}
use reservation_tool.Core.Errors.{ok}
use reservation_tool.Core.Settings.{Env}
use reservation_tool.Db.Rows.{User, BorrowRequest, Db}
use reservation_tool.Borrows.Access.{
  universal_roles, has_role, routed_approvers, id_among, other_than, assert_routed,
  assert_can_decide,
}

-- The approvers of a request besides its requester.
abbrev pub approvers_of : Env → Db → BorrowRequest → List User
approvers_of env db b = other_than b.requester_id (routed_approvers env db b.source_group_id)

abbrev pub MayDecide : Env → Db → BorrowRequest → User → Type 0
MayDecide env db b actor =
    (actor.id ≢ b.requester_id)
    × ((has_role universal_roles actor ≡ true)
        ⊎ ((approvers_of env db b ≡ []) ⊎ (id_among actor.id (approvers_of env db b) ≡ true)))

routed_iff :
    (us : List User) (key : ℕ)
    → (assert_routed us key ≡ ok tt) ↔ ((us ≡ []) ⊎ (id_among key us ≡ true))
routed_iff [] key = (λ h. inl refl, λ h. refl)
routed_iff (u ∷ us) key = (λ h. inr (ground arith), λ h. ground arith)

-- The guard of a decision passes exactly for someone other than the requester who is an owner, or
-- is among the routed approvers besides the requester, or when there is no such approver.
pub assert_can_decide_iff :
    (env : Env) (db : Db) (b : BorrowRequest) (actor : User)
    → (assert_can_decide env db b actor ≡ ok tt) ↔ MayDecide env db b actor
unfolding assert_can_decide
assert_can_decide_iff env db b actor = ground (arith, routed_iff (approvers_of env db b) actor.id)
