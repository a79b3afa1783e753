-- ===== src/Workspaces/Tests/Joining.antt =====
-- Joining at the workspace of Examples.
use drive_server_wip.Prelude.{◌+◌, ◌≤◌, ◌<◌, ◌≡◌, refl, ◌⊎◌, some, ◌==◌}
use drive_server_wip.Prelude.Int.{ℤ, pos, ◌+ℤ◌, ◌-ℤ◌, ◌≤ℤ◌}
use drive_server_wip.Prelude.Table.{count, create}
use drive_server_wip.Prelude.Outcome.{ok, internal_error, ◌>>=◌, catch}
use drive_server_wip.Workspaces.Store.{Workspace, WorkspaceInvite, Store, has_no_seat_left}
use drive_server_wip.Workspaces.Repository.{
  has_member, is_invite_to, is_team_member, find_workspace, get_workspace_users_count,
}
use drive_server_wip.Workspaces.Storage.{
  get_workspace_network_limit, get_owner_available_space, is_workspace_full, adjust_owner_storage,
  check_adjustment,
}
use drive_server_wip.Workspaces.Storage.Owner.{assigned}
use drive_server_wip.Workspaces.Invitations.{
  rollback_user_added_to_workspace, initiate_workspace_personal_root_folder, space_to_assign,
  notify, check_invitation, invite_user_to_workspace, admit, join_workspace, accept_invite_of,
  accept_workspace_invite,
}
use drive_server_wip.Workspaces.Invitations.Accept.{accept_workspace_invite-assigned}
use drive_server_wip.Workspaces.Invitations.Rollback.{
  DeletionFails, accept_workspace_invite-rollback,
}
use drive_server_wip.Workspaces.Invitations.Invite.{
  invite_user_to_workspace-invites, invite_user_to_workspace-withdrawn,
}
use drive_server_wip.Workspaces.Examples.{working, failing, user, store, invitation_of}
use drive_server_wip.Workspaces.Tests.Storage.{store-IsKeyed}

abbrev guest_joined : Store (Unit {0})
guest_joined = (accept_workspace_invite working (user 12 "guest@acme.com") 500 store).1

accept_workspace_invite-assigned_example :
    (assigned 1 guest_joined ≡ assigned 1 store)
    × (◌≡◌ {A = ℤ} (pos 20) (pos 20))
    × (get_workspace_users_count 1 guest_joined ≡ get_workspace_users_count 1 store + 1)
    × (get_workspace_users_count 1 guest_joined ≤ 3)
    × (count (has_member 1 12) guest_joined.members ≡ 1)
    × (count (λ i. i.id == 500) guest_joined.invites ≡ 0)
unfolding accept_workspace_invite accept_invite_of join_workspace is_workspace_full has_no_seat_left
    admit initiate_workspace_personal_root_folder get_owner_available_space adjust_owner_storage
    check_adjustment get_workspace_network_limit catch ◌>>=◌ ◌+ℤ◌ ◌-ℤ◌
accept_workspace_invite-assigned_example =
    accept_workspace_invite-assigned working (user 12 "guest@acme.com") 500 store
      store-IsKeyed.one_membership refl refl refl refl

abbrev guest_refused : Store (Unit {0})
guest_refused = (accept_workspace_invite failing (user 12 "guest@acme.com") 500 store).1

accept_workspace_invite-rollback_example :
    (guest_refused ≡ store)
    ⊎ ((internal_error "There was a problem accepting this invite! rollback applied successfully"
          ≡ internal_error
              "There was a problem accepting this invite! rollback applied successfully")
        × (guest_refused.members ≡ store.members)
        × (count (is_team_member 12 50) guest_refused.team_users ≡ 0))
    ⊎ ((internal_error "There was a problem accepting this invite! rollback applied successfully"
          ≡ internal_error
              "There was a problem accepting this invite! User added to workspace rollback failed")
        × DeletionFails failing)
unfolding accept_workspace_invite accept_invite_of join_workspace is_workspace_full has_no_seat_left
    admit initiate_workspace_personal_root_folder get_owner_available_space adjust_owner_storage
    check_adjustment get_workspace_network_limit rollback_user_added_to_workspace catch ◌>>=◌ ◌+ℤ◌
    ◌-ℤ◌
accept_workspace_invite-rollback_example =
    accept_workspace_invite-rollback failing (user 12 "guest@acme.com") 500 store refl refl refl
      refl

abbrev new_invited : Store (Unit {0})
new_invited = (invite_user_to_workspace working 1 (invitation_of "new@acme.com") store).1

abbrev new_invite : WorkspaceInvite
new_invite = record {
  id = 9000;
  workspace_id = 1;
  invited_user = 13;
  encryption_algorithm = "hybrid";
  encryption_key = "key";
  space_limit = pos 10;
}

invite_user_to_workspace-invites_example :
    (workspace : Workspace) × (left : ℤ) × (find_workspace 1 store ≡ some workspace)
    × (get_workspace_users_count workspace.id store < workspace.number_of_seats)
    × (get_owner_available_space working workspace store ≡ (ok left, store))
    × (pos 10 ≤ℤ left)
    × (count (is_invite_to 13 1) new_invited.invites ≡ 1)
    × (new_invited.invites ≡ create new_invite store.invites)
    × (new_invited.members ≡ store.members)
unfolding invite_user_to_workspace check_invitation is_workspace_full has_no_seat_left
    get_owner_available_space space_to_assign notify catch ◌>>=◌ ◌+ℤ◌ ◌-ℤ◌
invite_user_to_workspace-invites_example =
    invite_user_to_workspace-invites working 1 (invitation_of "new@acme.com") store
      {invite = new_invite} refl

abbrev new_not_mailed : Store (Unit {0})
new_not_mailed = (invite_user_to_workspace failing 1 (invitation_of "new@acme.com") store).1

invite_user_to_workspace-withdrawn_example :
    (new_not_mailed.invites ≡ store.invites) × (new_not_mailed.members ≡ store.members)
unfolding invite_user_to_workspace check_invitation is_workspace_full has_no_seat_left
    get_owner_available_space space_to_assign notify catch ◌>>=◌ ◌+ℤ◌ ◌-ℤ◌
invite_user_to_workspace-withdrawn_example =
    invite_user_to_workspace-withdrawn failing 1 (invitation_of "new@acme.com") store refl refl
