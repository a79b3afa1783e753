-- ===== src/Workspaces/Leaving/Leave.antt =====
-- `leaveWorkspace` and `transferPersonalItemsToWorkspaceOwner`: what a member leaves goes to the owner.
use drive_server_wip.Prelude.{
  ◌≡◌, ◌≢◌, ◌∙◌, sym, ap, refl, Bool, true, false, ◌&&◌, some, List, [], ◌∷◌, arith, ==_iff, ◌==◌,
}
use drive_server_wip.Prelude.Int.{ℤ, pos, ◌+ℤ◌, int_laws, eq_sub}
use drive_server_wip.Prelude.Table.{find_one, update, count, count-destroy_self, find_one-passes}
use drive_server_wip.Prelude.Sum.{sum_by, sum-destroy}
use drive_server_wip.Prelude.Outcome.{ok}
use drive_server_wip.Prelude.Outcome.Steps.{
  state-of_eq, value-of_eq, bind-then, returns-then, known-then, gets-then, or_throw-then,
  throw_if-then, lift-then,
}
use drive_server_wip.Prelude.Outcome.Reads.{Reads, reads_rules, Reads-then}
use drive_server_wip.Workspaces.Store.{
  Uuid, Workspace, WorkspaceUser, WorkspaceTeam, WorkspaceItem, User, Store, Services,
  is_user_owner,
}
use drive_server_wip.Workspaces.Repository.{
  has_member, is_in_workspace, find_workspace, find_workspace_user, sum_size_of_files, item_size,
}
use drive_server_wip.Workspaces.Storage.{add}
use drive_server_wip.Workspaces.Storage.Owner.{
  OneMembership, assigned, adjust_owner_storage-keeps, adjust_owner_storage-writes,
  adjust_owner_storage-assigned,
}
use drive_server_wip.Workspaces.Storage.Assign.{find_user-with_limit}
use drive_server_wip.Workspaces.Leaving.{
  hand_over_items, check_transfer, transfer_personal_items_to_workspace_owner, hand_over_teams,
  leave_teams, leave_workspace,
}

-- The items that change hands add to what their new owner has.
module _ (f : WorkspaceItem → ℤ) (w m o : Uuid) (different : m ≢ o)
    (keeps : (i : WorkspaceItem) → f (record i { created_by = o }) ≡ f i) where
  pub sum-handed_over :
      (items : List WorkspaceItem)
      → sum_by f
          (λ i. i.created_by == o && i.workspace_id == w)
          (update
            (λ i. i.created_by == m && i.workspace_id == w)
            (λ i. record i { created_by = o })
            items)
        ≡ sum_by f (λ i. i.created_by == m && i.workspace_id == w) items
          +ℤ sum_by f (λ i. i.created_by == o && i.workspace_id == w) items
  sum-handed_over [] = grind int_laws
  sum-handed_over (i ∷ items) = grind (int_laws, keeps i, sum-handed_over items)

  pub sum-handed_over_zero :
      (items : List WorkspaceItem)
      → sum_by f
          (λ i. i.created_by == m && i.workspace_id == w)
          (update
            (λ i. i.created_by == m && i.workspace_id == w)
            (λ i. record i { created_by = o })
            items)
        ≡ pos 0
  sum-handed_over_zero [] = refl
  sum-handed_over_zero (i ∷ items) = grind (int_laws, sum-handed_over_zero items)

-- A step that leaves the memberships and the workspaces alone.
abbrev SameMembers : {World : Type 0} → Store World → Store World → Type 0
SameMembers s s' = (s'.members ≡ s.members) × (s'.workspaces ≡ s.workspaces)

some_eq : {A : Type 0} {a b : A} → some a ≡ some b → a ≡ b
some_eq h = cc

ok_eq : {A : Type 0} {a b : A} → ok a ≡ ok b → a ≡ b
ok_eq h = cc

cancel : (x a l : ℤ) → x +ℤ l ≡ a +ℤ l → x ≡ a
cancel x a l h = rw (eq_sub x l _ h) (omega int_laws)

module _ (services : Services) where
  open services use {World, is_personal_root_empty}

  hand_over_teams-members :
      (user owner : Uuid) (ts : List WorkspaceTeam) (s : Store World) {s' : Store World}
      → hand_over_teams services user owner ts s ≡ (ok tt, s')
      → SameMembers s s'
  unfolding hand_over_teams
  hand_over_teams-members user owner [] s e = rw (← (state-of_eq e)) (refl, refl)
  hand_over_teams-members user owner (t ∷ ts) s e =
      returns-then _ _ refl e
        λ e. returns-then _ _ refl e λ e. hand_over_teams-members user owner ts _ e

  leave_teams-members :
      (user : Uuid) (ts : List WorkspaceTeam) (s : Store World) {s' : Store World}
      → leave_teams services user ts s ≡ (ok tt, s')
      → SameMembers s s'
  unfolding leave_teams
  leave_teams-members user [] s e = rw (← (state-of_eq e)) (refl, refl)
  leave_teams-members user (t ∷ ts) s e =
      returns-then _ _ refl e λ e. leave_teams-members user ts _ e

  check_transfer-Reads : (w : Uuid) (user : User) → Reads (check_transfer services w user)
  unfolding check_transfer
  check_transfer-Reads w user = search reads_rules depth 26

  hand_over_items-members :
      (user : User) (workspace : Workspace) (o m : WorkspaceUser) (b : Bool) (s : Store World)
      {s' : Store World}
      → hand_over_items services user workspace o m b s ≡ (ok tt, s')
      → SameMembers s s'
  unfolding hand_over_items
  hand_over_items-members user workspace o m true s e = rw (← (state-of_eq e)) (refl, refl)
  hand_over_items-members user workspace o m false s e = gets-then _ _ e λ e.
      or_throw-then _ _ _ e λ network found e. bind-then _ _ e λ folder s1 moved e.
        returns-then _ _ refl e λ e. rw (← (state-of_eq e), ← (state-of_eq moved)) (refl, refl)

  transfer-members :
      (w : Uuid) (user : User) (s : Store World) {s' : Store World}
      → transfer_personal_items_to_workspace_owner services w user s ≡ (ok tt, s')
      → SameMembers s s'
  unfolding transfer_personal_items_to_workspace_owner
  transfer-members w user s e =
      Reads-then _ _ (check_transfer-Reads w user) e λ (workspace, o, m, is_empty) checked e.
        hand_over_items-members user workspace o m is_empty s e

  -- A member's files count towards the owner once they have been transferred, and no longer towards
  -- the member.
  pub transfer-usage :
      (w : Uuid) (user : User) (s : Store World) {workspace : Workspace} {row : WorkspaceUser}
      {s' : Store World}
      → find_workspace w s ≡ some workspace
      → find_workspace_user w user.uuid s ≡ some row
      → is_personal_root_empty s.world user.uuid workspace.id row.root_folder_id ≡ ok false
      → transfer_personal_items_to_workspace_owner services w user s ≡ (ok tt, s')
      → (user.uuid ≢ workspace.owner_id)
        × (sum_size_of_files workspace.owner_id w s'
            ≡ sum_size_of_files user.uuid w s +ℤ sum_size_of_files workspace.owner_id w s)
        × (sum_size_of_files user.uuid w s' ≡ pos 0)
  unfolding transfer_personal_items_to_workspace_owner check_transfer hand_over_items is_user_owner
  transfer-usage w user s {workspace} {row} {s'} found found_row full e =
      bind-then _ _ e λ (workspace', o, m, is_empty) s1 checked e. gets-then _ _ checked λ c.
        known-then _ _ _ found c λ c. throw_if-then _ _ _ c λ not_owner c. gets-then _ _ c λ c.
          gets-then _ _ c λ c. gets-then _ _ c λ c. or_throw-then _ _ _ c λ owner_row found_owner c.
            throw_if-then _ _ _ c λ room c. gets-then _ _ c λ c. known-then _ _ _ found_row c λ c.
              gets-then _ _ c λ c. lift-then _ _ c λ b empty c.
                let e' = rw (← (value-of_eq c), ← (state-of_eq c)) at e in
                let nothing : b ≡ false = ok_eq (sym empty ∙ full) in
                let e'' = rw nothing at e' in
                gets-then _ _ e'' λ e. or_throw-then _ _ _ e λ network found_network e.
                  bind-then _ _ e λ moved_folder s2 moved e. returns-then _ _ refl e λ e.
                    let in_row = find_one-passes (has_member w user.uuid) s.members found_row in
                    let of_user : row.member_id ≡ user.uuid = ground (arith, in_row) in
                    let at_w : workspace.id ≡ w =
                      (==_iff _ _).0 (find_one-passes _ s.workspaces found) in
                    let different : user.uuid ≢ workspace.owner_id = ground (arith, not_owner) in
                    (
                      different,
                      rw (← (state-of_eq e), ← (state-of_eq moved), of_user, at_w)
                          (sum-handed_over (item_size s.files) w user.uuid workspace.owner_id
                            different (λ i. refl) s.items),
                      rw (← (state-of_eq e), ← (state-of_eq moved), of_user, at_w)
                          (sum-handed_over_zero (item_size s.files) w user.uuid workspace.owner_id
                            different (λ i. refl) s.items),
                    )

  -- Leaving keeps the space that is assigned in the workspace, with the leaver's share gone to the
  -- owner, and ends the membership; the owner cannot leave.
  pub leave_workspace-assigned :
      (w : Uuid) (user : User) (s : Store World) {workspace : Workspace} {s' : Store World}
      → OneMembership s
      → find_workspace w s ≡ some workspace
      → leave_workspace services w user s ≡ (ok tt, s')
      → (user.uuid ≢ workspace.owner_id)
        × (assigned w s' ≡ assigned w s)
        × (count (has_member w user.uuid) s'.members ≡ 0)
  unfolding leave_workspace is_user_owner
  leave_workspace-assigned w user s {workspace} {s'} one found e = gets-then _ _ e λ e.
      known-then _ _ _ found e λ e. throw_if-then _ _ _ e λ not_owner e.
        bind-then _ _ e λ done s1 transferred e. gets-then _ _ e λ e.
          bind-then _ _ e λ done' s2 handed e. gets-then _ _ e λ e.
            or_throw-then _ _ _ e λ row found_row e. bind-then _ _ e λ done'' s3 adjusted e.
              gets-then _ _ e λ e. bind-then _ _ e λ done4 s4 left e.
                let (members1, workspaces1) = transfer-members w user s transferred in
                let (members2, workspaces2) = hand_over_teams-members _ _ _ s1 handed in
                let (members4, workspaces4) = leave_teams-members _ _ s3 left in
                let members : s2.members ≡ s.members = members2 ∙ members1 in
                let one2 : OneMembership s2 = rw members one in
                let (workspace', owner, found', found_owner, written) =
                  adjust_owner_storage-writes services w _ add s2 adjusted in
                let same : workspace' ≡ workspace = some_eq (
                  sym found'
                  ∙ ap (λ l. find_one (λ v. v.id == w) l) (workspaces2 ∙ workspaces1)
                  ∙ found) in
                let different : user.uuid ≢ workspace.owner_id = ground (arith, not_owner) in
                let found3 : find_workspace_user w user.uuid s3 ≡ some row = rw written (
                  find_user-with_limit w user.uuid workspace'.owner_id
                    (owner.space_limit +ℤ row.space_limit) s2 found_row (rw same different)) in
                let one3 : OneMembership s3 = λ v m.
                  rw ((adjust_owner_storage-keeps services w _ add s2 adjusted).0 v m) (one2 v m) in
                let added =
                  adjust_owner_storage-assigned services w row.space_limit add s2 one2 adjusted in
                let inside = find_one-passes (has_member w user.uuid) s2.members found_row in
                let removed =
                  sum-destroy (λ r. r.space_limit) (is_in_workspace w) (has_member w user.uuid) row
                    s3.members (one3 w user.uuid) found3 (ground (arith, inside)) in
                (
                  different,
                  rw (← (state-of_eq e), members4)
                      (cancel _ _ row.space_limit (
                        removed
                        ∙ added
                        ∙ ap
                            (λ l.
                              sum_by (λ r. r.space_limit) (is_in_workspace w) l +ℤ row.space_limit)
                            members)),
                  rw (← (state-of_eq e)) (count-destroy_self _ s4.members),
                )
