-- ===== src/Workspaces/Storage/Assign.antt =====
-- `changeUserAssignedSpace`: space moves between a member and the owner of a workspace.
use drive_server_wip.Prelude.{◌≤◌, ◌≡◌, ◌∙◌, ap, ◌≢◌, refl, false, some, arith, ==_self}
use drive_server_wip.Prelude.Int.{ℤ, pos, negsuc, ◌+ℤ◌, ◌-ℤ◌, abs, int_laws, eq_sub}
use drive_server_wip.Prelude.Table.{update, count, find_one-passes, find_one-update, find_one-other}
use drive_server_wip.Prelude.Sum.{sum-update}
use drive_server_wip.Prelude.Outcome.{ok}
use drive_server_wip.Prelude.Outcome.Steps.{
  bind-then, gets-then, or_throw-then, throw_if-then, modify-then,
}
use drive_server_wip.Prelude.Outcome.Reads.{Reads-then}
use drive_server_wip.Workspaces.Store.{Uuid, Workspace, WorkspaceUser, Store, Services}
use drive_server_wip.Workspaces.Repository.{
  has_member, has_id, is_in_workspace, find_workspace, find_workspace_user,
}
use drive_server_wip.Workspaces.Storage.{
  direction, adjusted, adjust_owner_storage, change_user_assigned_space, check_assigned_space,
}
use drive_server_wip.Workspaces.Storage.Reads.{
  get_workspace_network_limit-Reads, get_assignable_space_in_workspace-Reads,
}
use drive_server_wip.Workspaces.Storage.Owner.{
  with_limit-IsKeyed, IsKeyed, assigned, with_limit, adjust_owner_storage-writes,
  adjust_owner_storage-assigned,
}

-- The store with one member's row written anew, as `updateWorkspaceUser` does.
abbrev with_row : {World : Type 0} → WorkspaceUser → ℤ → Store World → Store World
with_row m limit s = record s {
  members = update (has_id m.id) (λ _. record m { space_limit = limit }) s.members;
}

adjusted-direction : (a d : ℤ) → adjusted (direction d) a (abs d) ≡ a -ℤ d
unfolding abs direction ◌-ℤ◌ ◌+ℤ◌
adjusted-direction (pos a) (pos n) = ground arith
adjusted-direction (pos a) (negsuc n) = ground arith
adjusted-direction (negsuc a) (pos n) = ground arith
adjusted-direction (negsuc a) (negsuc n) = ground arith

pass_on : (a l m : ℤ) {x : ℤ} → x +ℤ m ≡ a -ℤ (l -ℤ m) +ℤ l → x ≡ a
pass_on a l m {x} h = rw (eq_sub x m _ h) (omega int_laws)

-- A member's row is still there after the owner's limit has moved.
pub find_user-with_limit :
    {World : Type 0} (w m o : Uuid) (x : ℤ) (s : Store World) {member : WorkspaceUser}
    → find_workspace_user w m s ≡ some member
    → m ≢ o
    → find_workspace_user w m (with_limit w o x s) ≡ some member
find_user-with_limit w m o x s {member} e other =
    let passes = find_one-passes (has_member w m) s.members e in
    let kept =
      find_one-update (has_member w m) (has_member w o) (λ r. record r { space_limit = x })
        s.members (λ r. refl) e in
    let missed : has_member w o member ≡ false = ground (arith, passes) in rw missed at kept

with_row-assigned :
    {World : Type 0} (w m : Uuid) (limit : ℤ) (s : Store World) {member : WorkspaceUser}
    → ((id : Uuid) → count (has_id id) s.members ≤ 1)
    → find_workspace_user w m s ≡ some member
    → assigned w (with_row member limit s) +ℤ member.space_limit ≡ assigned w s +ℤ limit
with_row-assigned w m limit s {member} one e =
    let passes = find_one-passes (has_member w m) s.members e in
    sum-update (λ r. r.space_limit) (is_in_workspace w) (has_id member.id)
      (λ _. record member { space_limit = limit }) member s.members (one member.id)
      (find_one-other (has_member w m) (has_id member.id) s.members (one member.id) e
        (==_self member.id))
      (ground (arith, passes)) (ground (arith, passes))

module _ (services : Services) where
  open services use {World}

  -- The checks change nothing.
  pub check_assigned_space-reads :
      (w m : Uuid) (limit : ℤ) (s : Store World) {member : WorkspaceUser} {s' : Store World}
      → check_assigned_space services w m limit s ≡ (ok member, s')
      → (s' ≡ s) × (find_workspace_user w m s ≡ some member)
  unfolding check_assigned_space
  check_assigned_space-reads w m limit s {member} {s'} e = gets-then _ _ e λ e.
      or_throw-then _ _ _ e λ workspace found e. gets-then _ _ e λ e.
        or_throw-then _ _ _ e λ row found_row e.
          Reads-then _ _ (get_assignable_space_in_workspace-Reads services workspace) e
            λ left read e. throw_if-then _ _ _ e λ below_left e.
              throw_if-then _ _ _ e λ above_used e.
                Reads-then _ _ (get_workspace_network_limit-Reads services workspace) e
                  λ network read e.
                    throw_if-then _ _ _ e λ below_share e. (ground arith, ground arith)

  change_user_assigned_space-steps :
      (w m : Uuid) (limit : ℤ) (s : Store World) {row : WorkspaceUser} {s' : Store World}
      → change_user_assigned_space services w m limit s ≡ (ok row, s')
      → (member : WorkspaceUser) × (s1 : Store World) × (find_workspace_user w m s ≡ some member)
        × (adjust_owner_storage services w
              (abs (limit -ℤ member.space_limit))
              (direction (limit -ℤ member.space_limit))
              s
            ≡ (ok tt, s1))
        × (s' ≡ with_row member limit s1)
        × (row ≡ record member { space_limit = limit })
  unfolding change_user_assigned_space
  change_user_assigned_space-steps w m limit s {row} {s'} e = bind-then _ _ e λ member s1 checked e.
      let (same, found) = check_assigned_space-reads w m limit s checked in
      bind-then _ _ e λ done s2 adjust e.
        modify-then _ _ e λ e. (member, s2, found, rw same at adjust, ground arith, ground arith)

  -- With the rows keyed as before, a change of the space of a member other than the owner that
  -- returns leaves the sum of the members' limits as it was, and returns a row with the space asked
  -- for.
  pub change_user_assigned_space-assigned :
      (w m : Uuid) (limit : ℤ) (s : Store World) {workspace : Workspace} {row : WorkspaceUser}
      {s' : Store World}
      → IsKeyed s
      → find_workspace w s ≡ some workspace
      → m ≢ workspace.owner_id
      → change_user_assigned_space services w m limit s ≡ (ok row, s')
      → (assigned w s' ≡ assigned w s) × (row.space_limit ≡ limit)
  change_user_assigned_space-assigned w m limit s {workspace} {row} {s'} k found other e =
      let (member, s1, found_member, adjust, written, changed) =
        change_user_assigned_space-steps w m limit s e in
      let (workspace', owner, found', found_owner, moved) =
        adjust_owner_storage-writes services w _ _ s adjust in
      let after = adjust_owner_storage-assigned services w _ _ s k.one_membership adjust in
      let same : workspace' ≡ workspace = cc in
      let here : find_workspace_user w m s1 ≡ some member =
        rw moved (find_user-with_limit w m workspace'.owner_id _ s found_member (rw same other)) in
      let keyed : IsKeyed s1 = rw moved (with_limit-IsKeyed w workspace'.owner_id _ s k) in
      let sums = with_row-assigned w m limit s1 keyed.one_row here in
      (
        rw written (
            pass_on (assigned w s) limit member.space_limit (
              sums
              ∙ ap (λ a. a +ℤ limit)
                  (after ∙ adjusted-direction (assigned w s) (limit -ℤ member.space_limit)))),
        ap (λ (r : WorkspaceUser). r.space_limit) changed,
      )
