-- ===== src/Workspaces/Storage/Owner.antt =====
-- What `adjustOwnerStorage` writes, and what it leaves of the space assigned in a workspace.
use drive_server_wip.Prelude.{◌≤◌, ◌≡◌, refl, inl, inr, some, List, arith, Option-cases, Bool-cases}
use drive_server_wip.Prelude.Int.{ℤ, ◌+ℤ◌, int_laws, eq_sub}
use drive_server_wip.Prelude.Table.{
  create, count-create, count, count-update, update, find_one-passes,
}
use drive_server_wip.Prelude.Sum.{sum-update}
use drive_server_wip.Prelude.Outcome.{ok, ◌>>=◌}
use drive_server_wip.Workspaces.Store.{Uuid, Workspace, WorkspaceUser, Store, Services}
use drive_server_wip.Workspaces.Repository.{
  has_member, has_id, is_in_workspace, find_workspace, find_workspace_user,
  get_total_space_limit_in_workspace_users,
}
use drive_server_wip.Workspaces.Storage.{Behavior, adjusted, adjust_owner_storage}

-- No user has two memberships in a workspace, and no two rows share an identifier.
pub record IsKeyed {World : Type 0} (s : Store World) : Type 0 where
  pub one_membership :
      (workspace_id member_id : Uuid) → count (has_member workspace_id member_id) s.members ≤ 1
  pub one_row : (id : Uuid) → count (has_id id) s.members ≤ 1

abbrev pub OneMembership : {World : Type 0} → Store World → Type 0
OneMembership s =
    (workspace_id member_id : Uuid) → count (has_member workspace_id member_id) s.members ≤ 1

abbrev pub assigned : {World : Type 0} → Uuid → Store World → ℤ
assigned workspace_id s = get_total_space_limit_in_workspace_users workspace_id s

-- The store with the owner's limit moved.
abbrev pub with_limit : {World : Type 0} → Uuid → Uuid → ℤ → Store World → Store World
with_limit workspace_id member_id limit s = record s {
  members =
      update (has_member workspace_id member_id) (λ m. record m { space_limit = limit }) s.members;
}

pub with_limit-IsKeyed :
    {World : Type 0} (w m : Uuid) (limit : ℤ) (s : Store World)
    → IsKeyed s
    → IsKeyed (with_limit w m limit s)
with_limit-IsKeyed w m limit s k = record {
  one_membership = λ v n.
      rw
        (count-update (has_member v n) (has_member w m) (λ r. record r { space_limit = limit })
          s.members (λ r. refl))
        (k.one_membership v n);
  one_row = λ id.
      rw
        (count-update (has_id id) (has_member w m) (λ r. record r { space_limit = limit }) s.members
          (λ r. refl))
        (k.one_row id);
}

-- A row for a user with no membership keeps the memberships apart.
pub OneMembership-create :
    (row : WorkspaceUser) (xs : List WorkspaceUser)
    → ((w m : Uuid) → count (has_member w m) xs ≤ 1)
    → count (has_member row.workspace_id row.member_id) xs ≡ 0
    → (w m : Uuid) → count (has_member w m) (create row xs) ≤ 1
OneMembership-create row xs one absent w m = elim (Bool-cases (has_member w m row)) [
  | inl same ↦
      let at_w : w ≡ row.workspace_id = ground (arith, same) in
      let at_m : m ≡ row.member_id = ground (arith, same) in
      rw (at_w, at_m, count-create (has_member row.workspace_id row.member_id) row xs, absent)
        (ground arith)
  | inr other ↦ rw (count-create (has_member w m) row xs, other) (omega (arith, one w m))
]

module _ (services : Services) where
  open services use {World}

  pub adjust_owner_storage-writes :
      (w : Uuid) (size : ℤ) (b : Behavior) (s : Store World) {s' : Store World}
      → adjust_owner_storage services w size b s ≡ (ok tt, s')
      → (workspace : Workspace) × (owner : WorkspaceUser) × (find_workspace w s ≡ some workspace)
        × (find_workspace_user w workspace.owner_id s ≡ some owner)
        × (s' ≡ with_limit w workspace.owner_id (adjusted b owner.space_limit size) s)
  unfolding adjust_owner_storage ◌>>=◌
  adjust_owner_storage-writes w size b s e = elim (Option-cases (find_workspace w s)) [
    | inl missing ↦ absurd (ground arith)
    | inr (workspace, found) ↦ elim (Option-cases (find_workspace_user w workspace.owner_id s)) [
      | inl missing ↦ absurd (ground arith)
      | inr (owner, found_owner) ↦ (workspace, owner, found, found_owner, ground arith)
    ]
  ]

  pub with_limit-assigned :
      (w m : Uuid) (limit : ℤ) (s : Store World) {owner : WorkspaceUser}
      → OneMembership s
      → find_workspace_user w m s ≡ some owner
      → assigned w (with_limit w m limit s) +ℤ owner.space_limit ≡ assigned w s +ℤ limit
  with_limit-assigned w m limit s {owner} k e =
      let passes = find_one-passes (has_member w m) s.members e in
      sum-update (λ r. r.space_limit) (is_in_workspace w) (has_member w m) _ owner s.members (k w m)
        e (ground arith) (ground arith)

  -- Moving the owner's limit by some size moves the space assigned in the workspace by it.
  pub adjust_owner_storage-assigned :
      (w : Uuid) (size : ℤ) (b : Behavior) (s : Store World) {s' : Store World}
      → OneMembership s
      → adjust_owner_storage services w size b s ≡ (ok tt, s')
      → assigned w s' ≡ adjusted b (assigned w s) size
  adjust_owner_storage-assigned w size b s {s'} k e =
      let (workspace, owner, found, found_owner, written) =
        adjust_owner_storage-writes w size b s e in
      rw written (
        balance b owner.space_limit (assigned w s) (
          with_limit-assigned w workspace.owner_id (adjusted b owner.space_limit size) s k
            found_owner))
    where
      balance :
          (b : Behavior) (x z : ℤ) {y : ℤ} → y +ℤ x ≡ z +ℤ adjusted b x size → y ≡ adjusted b z size
      balance Behavior.deduct x z h = rw (eq_sub _ x _ h) (omega int_laws)
      balance Behavior.add x z h = rw (eq_sub _ x _ h) (omega int_laws)

  -- It writes nothing else.
  pub adjust_owner_storage-keeps :
      (w : Uuid) (size : ℤ) (b : Behavior) (s : Store World) {s' : Store World}
      → adjust_owner_storage services w size b s ≡ (ok tt, s')
      → ((v m : Uuid) → count (has_member v m) s'.members ≡ count (has_member v m) s.members)
        × ((v : Uuid) → count (is_in_workspace v) s'.members ≡ count (is_in_workspace v) s.members)
        × (s'.invites ≡ s.invites)
        × (s' ≡ record s { members = s'.members })
  adjust_owner_storage-keeps w size b s {s'} e =
      let (workspace, owner, found, found_owner, written) =
        adjust_owner_storage-writes w size b s e in
      (
        (λ v m. rw (
          written,
          count-update (has_member v m) (has_member w workspace.owner_id)
              (λ r. record r { space_limit = adjusted b owner.space_limit size }) s.members
              (λ x. refl),
        )),
        (λ v. rw (
          written,
          count-update (is_in_workspace v) (has_member w workspace.owner_id)
              (λ r. record r { space_limit = adjusted b owner.space_limit size }) s.members
              (λ x. refl),
        )),
        rw written,
        rw written,
      )
