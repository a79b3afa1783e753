-- ===== src/Workspaces/Storage/Change.antt =====
-- A plan change (`updateWorkspaceLimit`) keeps the books of a workspace.
use drive_server_wip.Prelude.{
  ℕ, ◌≡◌, refl, inl, inr, Option, some, arith, Option-cases, ==_iff, ◌==◌,
}
use drive_server_wip.Prelude.Int.{ℤ, pos, ◌+ℤ◌, ◌-ℤ◌, ◌*ℤ◌, int_laws}
use drive_server_wip.Prelude.Table.{update, count-update, find_one-passes}
use drive_server_wip.Prelude.Sum.{sum-update_all}
use drive_server_wip.Prelude.Outcome.{ok, ◌>>=◌, Outcome-cases}
use drive_server_wip.Workspaces.Store.{Uuid, Workspace, Store, Services, User}
use drive_server_wip.Workspaces.Repository.{
  has_member, has_id, is_in_workspace, find_workspace, find_user, find_workspace_users,
  get_workspace_users_count,
}
use drive_server_wip.Workspaces.Storage.{
  Behavior, adjust_owner_storage, calculate_workspace_limits, update_workspace_limit,
  get_workspace_network_limit,
}
use drive_server_wip.Workspaces.Storage.Owner.{IsKeyed, assigned, adjust_owner_storage-assigned}
use drive_server_wip.Workspaces.Storage.Limits.{
  raised, add_to_each-eq, find_users-raised, calculate_workspace_limits-eq,
}

settle : (a l c p : ℤ) → a +ℤ p +ℤ (l -ℤ c -ℤ p) ≡ a +ℤ (l -ℤ c)
settle a l c p = omega int_laws

module _ (services : Services) where
  open services use {World, set_storage}

  -- The store when `adjustOwnerStorage` is called.
  abbrev pub before_adjustment : Uuid → ℤ → World → Store World → Store World
  before_adjustment w d n s = record s {
    members = update (is_in_workspace w) (raised d) s.members;
    world = n;
  }

  pub update_workspace_limit-steps :
      (w : Uuid) (limit : ℤ) (seats : Option ℕ) (s : Store World) {s' : Store World}
      → IsKeyed s
      → update_workspace_limit services w limit seats s ≡ (ok tt, s')
      → (workspace : Workspace) × (user : User) × (u : ℤ) × (d : ℤ) × (n : World) × (find_workspace
            w s
          ≡ some workspace)
        × (find_user workspace.workspace_user_id s ≡ some user)
        × (calculate_workspace_limits services workspace limit seats s ≡ (ok (u, d), s))
        × (set_storage user.email limit s.world ≡ (ok tt, n))
        × (adjust_owner_storage services w u Behavior.add (before_adjustment w d n s) ≡ (ok tt, s'))
  unfolding update_workspace_limit ◌>>=◌
  update_workspace_limit-steps w limit seats s {s'} k e = elim (Option-cases (find_workspace w s)) [
    | inl missing ↦ absurd (ground arith)
    | inr (workspace, found) ↦
        elim (Outcome-cases (calculate_workspace_limits services workspace limit seats s)) [
          | inl (x, s1, failed) ↦ absurd (ground arith)
          | inr ((u, d), s1, calculated) ↦
              let (current, network, same, unused) =
                calculate_workspace_limits-eq services workspace limit seats s calculated in
              elim (Option-cases (find_user workspace.workspace_user_id s)) [
                | inl missing ↦
                    absurd (ground (arith, add_to_each-eq services d (find_workspace_users w s) s))
                | inr (user, found_user) ↦
                    elim (Outcome-cases (set_storage user.email limit s.world)) [
                      | inl (x, n, failed) ↦
                          absurd
                            (ground (arith, add_to_each-eq services d (find_workspace_users w s) s))
                      | inr (done, n, stored) ↦ (
                        workspace,
                        user,
                        u,
                        d,
                        n,
                        found,
                        found_user,
                        rw same at calculated,
                        stored,
                        ground (
                          arith,
                          add_to_each-eq services d (find_workspace_users w s) s,
                          find_users-raised w d s k,
                        ),
                      )
                    ]
              ]
        ]
  ]

  -- The rows keep their keys in that store.
  before_adjustment-IsKeyed :
      (w : Uuid) (d : ℤ) (n : World) (s : Store World)
      → IsKeyed s
      → IsKeyed (before_adjustment w d n s)
  before_adjustment-IsKeyed w d n s k = record {
    one_membership = λ v m.
        rw (count-update (has_member v m) (is_in_workspace w) (raised d) s.members (λ x. refl))
          (k.one_membership v m);
    one_row = λ id.
        rw (count-update (has_id id) (is_in_workspace w) (raised d) s.members (λ x. refl))
          (k.one_row id);
  }

  -- If no user has two memberships in a workspace and no two rows share an identifier, a change of
  -- plan that returns changes the sum of the members' limits by exactly the new limit less the one
  -- that the network gave before, whatever the quotients are rounded to.
  pub update_workspace_limit-assigned :
      (w : Uuid) (limit current : ℤ) (seats : Option ℕ) (s : Store World) {s' : Store World}
      {workspace : Workspace}
      → IsKeyed s
      → find_workspace w s ≡ some workspace
      → get_workspace_network_limit services workspace s ≡ (ok current, s)
      → update_workspace_limit services w limit seats s ≡ (ok tt, s')
      → assigned w s' ≡ assigned w s +ℤ (limit -ℤ current)
  update_workspace_limit-assigned w limit current seats s {s'} {workspace} k found network e =
      let (workspace', user, u, d, n, found', found_user, calculated, stored, adjust) =
        update_workspace_limit-steps w limit seats s k e in
      let (current', network', same, unused) =
        calculate_workspace_limits-eq services workspace' limit seats s calculated in
      let moved =
        adjust_owner_storage-assigned services w u Behavior.add (before_adjustment w d n s)
          (before_adjustment-IsKeyed w d n s k).one_membership adjust in
      let raised_sum =
        sum-update_all (λ m. m.space_limit) (is_in_workspace w) (raised d) d s.members (λ x. refl)
          (λ x. refl) in
      let same_id : workspace'.id ≡ w =
        (==_iff _ _).0 (find_one-passes (λ v. v.id == w) s.workspaces found') in
      let same_limit : current' ≡ current = cc in
      rw (moved, raised_sum, unused, same_limit, same_id)
        (settle (assigned w s) limit current (d *ℤ pos (get_workspace_users_count w s)))
