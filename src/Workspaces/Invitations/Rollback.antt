-- ===== src/Workspaces/Invitations/Rollback.antt =====
-- `acceptWorkspaceInvite` when it fails: the rollback of what it has written.
use drive_server_wip.Prelude.{
  ◌⊎◌, inl, inr, ◌≡◌, refl, sym, true, ◌||◌, some, none, is_some, Option-cases, arith, ==_self,
}
use drive_server_wip.Prelude.Int.{ℤ}
use drive_server_wip.Prelude.Table.{
  destroy, count, count-destroy_self, count_of_find_none, find_one-passes,
}
use drive_server_wip.Prelude.Outcome.{Exception, internal_error, Result, ok, err, catch, ◌>>=◌}
use drive_server_wip.Prelude.Outcome.Steps.{state-of_eq, exception-of_eq}
use drive_server_wip.Workspaces.Store.{Uuid, WorkspaceInvite, Workspace, User, Store, Services}
use drive_server_wip.Workspaces.Repository.{
  has_member, find_ready_workspace, find_workspace_user, find_invite_for,
}
use drive_server_wip.Workspaces.Storage.{Behavior, deduct, adjust_owner_storage}
use drive_server_wip.Workspaces.Storage.Reads.{
  is_workspace_full-eq, get_owner_available_space-Reads,
}
use drive_server_wip.Workspaces.Invitations.{
  initiate_workspace_personal_root_folder, admit, join_workspace, accept_workspace_invite,
  rollback_user_added_to_workspace,
}
use drive_server_wip.Prelude.Table.{destroy-create, destroy-id_of_count}
use drive_server_wip.Prelude.Outcome.Reads.{Reads-throw_if}
use drive_server_wip.Prelude.Outcome.Atomic.{
  Atomic, atomic_rules, bind-err, Reads-err, returns-err, catch-err,
}
use drive_server_wip.Workspaces.Repository.{is_team_member}
use drive_server_wip.Workspaces.Storage.Reads.{get_workspace_network_limit-Reads}
use drive_server_wip.Workspaces.Invitations.Accept.{accept_workspace_invite-joins}

module _ (services : Services) where
  open services use {World, member_deletion_error, team_user_deletion_error}

  abbrev pub DeletionFails : Type 0
  DeletionFails = (is_some member_deletion_error || is_some team_user_deletion_error) ≡ true

  -- `adjustOwnerStorage` writes only after all its checks.
  pub adjust_owner_storage-Atomic :
      (w : Uuid) (size : ℤ) (b : Behavior) → Atomic (adjust_owner_storage services w size b)
  unfolding adjust_owner_storage
  adjust_owner_storage-Atomic w size b =
      search (atomic_rules, get_workspace_network_limit-Reads services) depth 14

  initiate-members :
      (u r : Uuid) (s : Store World) {x : Result Uuid} {s' : Store World}
      → initiate_workspace_personal_root_folder services u r s ≡ (x, s')
      → s'.members ≡ s.members
  unfolding initiate_workspace_personal_root_folder ◌>>=◌
  initiate-members u r s e = ground arith

  -- The member's rows without those that a rollback deletes.
  abbrev rolled_back : Uuid → Workspace → Store World → Store World
  rolled_back user workspace s = record s {
    members = destroy (has_member workspace.id user) s.members;
    team_users = destroy (is_team_member user workspace.default_team_id) s.team_users;
  }

  -- A rollback deletes both rows, or one of its deletions fails and it says so.
  rollback-cases :
      (user : Uuid) (workspace : Workspace) (s : Store World)
      → (rollback_user_added_to_workspace services user workspace s
          ≡ (ok none, rolled_back user workspace s))
        ⊎ ((s1 : Store World) × DeletionFails
            × (rollback_user_added_to_workspace services user workspace s
                ≡ (ok (some "User added to workspace rollback failed"), s1)))
  unfolding rollback_user_added_to_workspace catch ◌>>=◌
  rollback-cases user workspace s = elim (Option-cases member_deletion_error) [
    | inr (x, fails) ↦ inr (s, rw fails refl, rw fails refl)
    | inl works ↦ elim (Option-cases team_user_deletion_error) [
      | inr (x, fails) ↦ inr (
        record s { members = destroy (has_member workspace.id user) s.members },
        rw (works, fails) refl,
        rw (works, fails) refl,
      )
      | inl works_too ↦ inl (rw (works, works_too) refl)
    ]
  ]

  -- When the admission fails, removing the member's rows gives the rows of before.
  admit-undone :
      (user : User) (invite : WorkspaceInvite) (workspace : Workspace) (s : Store World)
      {x : Exception} {s' : Store World}
      → invite.workspace_id ≡ workspace.id
      → invite.invited_user ≡ user.uuid
      → count (has_member workspace.id user.uuid) s.members ≡ 0
      → admit services user invite workspace s ≡ (err x, s')
      → destroy (has_member workspace.id user.uuid) s'.members ≡ s.members
  unfolding admit
  admit-undone user invite workspace s at_w at_u absent e =
      bind-err _ _ e
        (λ failed. rw (initiate-members _ _ s failed) (destroy-id_of_count _ s.members absent))
        λ folder s1 initiated e. returns-err _ _ refl e λ e. returns-err _ _ refl e λ e.
          returns-err _ _ refl e λ e. returns-err _ _ refl e λ e. returns-err _ _ refl e λ e.
            bind-err _ _ e
              (λ failed.
                let same =
                  (adjust_owner_storage-Atomic workspace.id invite.space_limit deduct).undone _ _ _
                    failed in
                rw (same, initiate-members _ _ s initiated)
                  (destroy-create (has_member workspace.id user.uuid) _ s.members absent
                    (rw (at_w, at_u, ==_self workspace.id, ==_self user.uuid))))
              λ done s2 adjusted e. absurd (cc)

  -- If a user who is not a member fails to accept an invitation that is theirs, of a workspace that is
  -- set up, then nothing has changed; or the answer says that a rollback was applied, the members are
  -- as they were and the user is not in the default team; or it says that the rollback failed, and a
  -- deletion of the rollback did fail.
  pub accept_workspace_invite-rollback :
      (user : User) (id : Uuid) (s : Store World) {invite : WorkspaceInvite} {workspace : Workspace}
      {x : Exception} {s' : Store World}
      → find_invite_for id user.uuid s ≡ some invite
      → find_ready_workspace invite.workspace_id s ≡ some workspace
      → find_workspace_user workspace.id user.uuid s ≡ none
      → accept_workspace_invite services user id s ≡ (err x, s')
      → (s' ≡ s)
        ⊎ ((x
              ≡ internal_error
                  "There was a problem accepting this invite! rollback applied successfully")
            × (s'.members ≡ s.members)
            × (count (is_team_member user.uuid workspace.default_team_id) s'.team_users ≡ 0))
        ⊎ ((x
              ≡ internal_error
                  "There was a problem accepting this invite! User added to workspace rollback failed")
            × DeletionFails)
  unfolding join_workspace
  accept_workspace_invite-rollback user id s {invite} {workspace} {x} {s'} found_invite found absent
        e =
      let joined =
        rw (accept_workspace_invite-joins services user id s found_invite found absent) at e in
      let of_invite = find_one-passes _ s.invites found_invite in
      let of_workspace = find_one-passes _ s.workspaces found in
      returns-err _ _ (is_workspace_full-eq services workspace) joined λ e.
        Reads-err _ _ (Reads-throw_if _ _) e (λ same. inl same)
          λ seat checked e.
            Reads-err _ _ (get_owner_available_space-Reads services workspace) e (λ same. inl same)
              λ left read e.
                Reads-err _ _ (Reads-throw_if _ _) e (λ same. inl same)
                  λ space checked e. catch-err _ _ e λ y s1 failed handled.
                    elim (rollback-cases user.uuid workspace s1) [
                      | inl applied ↦ returns-err _ _ applied handled λ e. inr (
                          inl (
                            sym (exception-of_eq e),
                            rw (← (state-of_eq e)) (
                                admit-undone user invite workspace s (ground (arith, of_workspace))
                                  (ground (arith, of_invite))
                                  (count_of_find_none _ s.members absent) failed),
                            rw (← (state-of_eq e)) (count-destroy_self _ s1.team_users),
                          ))
                      | inr (s2, fails, refused) ↦
                          returns-err _ _ refused handled
                            λ e. inr (inr (sym (exception-of_eq e), fails))
                    ]
