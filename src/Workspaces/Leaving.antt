-- ===== src/Workspaces/Leaving.antt =====
-- src/modules/workspaces/workspaces.usecase.ts: how members leave a workspace, and what they leave to
-- its owner.
pub mod Leave
use drive_server_wip.Prelude.{
  ℕ, String, Bool, true, false, not, ◌&&◌, ◌||◌, Option, none, some, List, [], ◌∷◌, if◌then◌else◌,
  ◌==◌,
}
use drive_server_wip.Prelude.Int.{ℤ, pos, ◌+ℤ◌, ltb_ℤ}
use drive_server_wip.Prelude.Outcome.{
  Action, bad_request, not_found, forbidden, type_error, pure, gets, or_throw, lift, throw_if,
  ◌>>=◌, ◌>>◌,
}
use drive_server_wip.Workspaces.Store.{
  Uuid, Workspace, WorkspaceUser, WorkspaceTeam, User, Store, Services, is_user_owner,
}
use drive_server_wip.Workspaces.Repository.{
  has_member, has_id, find_workspace, find_user, find_workspace_user, sum_size_of_files,
  update_items_creator, get_managed_teams, get_teams_user_belongs_to, update_team_manager,
  delete_user_from_team, delete_user_from_workspace, set_deactivated, call,
}
use drive_server_wip.Workspaces.Storage.{add, adjust_owner_storage}

module _ (services : Services) where
  open services use {World, is_personal_root_empty, move_folder, rename_folder}

  abbrev Handler : Type 0 → Type 0
  Handler A = Action (Store World) A

  unfoldable pub deactivate_workspace_user : Uuid → Uuid → Handler (Unit {0})
  deactivate_workspace_user member_id workspace_id = do
    found ← gets (find_workspace workspace_id)
    workspace ← or_throw found (bad_request "This user is not part of workspace")
    found_user ← gets (find_workspace_user workspace_id member_id)
    workspace_user ← or_throw found_user (bad_request "This user is not part of workspace")
    throw_if (workspace.owner_id == workspace_user.member_id)
        (bad_request "You can not deactivate the owner of the workspace")
    set_deactivated (has_member workspace.id workspace_user.member_id) true

  unfoldable pub activate_workspace_user : Uuid → Uuid → Handler (Unit {0})
  activate_workspace_user member_id workspace_id = do
    found_user ← gets (find_workspace_user workspace_id member_id)
    workspace_user ← or_throw found_user (bad_request "This user is not part of workspace")
    set_deactivated (has_id workspace_user.id) false

  -- The move of a member's items, which is skipped if there are none.
  unfoldable pub hand_over_items :
      User → Workspace → WorkspaceUser → WorkspaceUser → Bool → Handler (Unit {0})
  hand_over_items user workspace owner_row member_row true = pure tt
  hand_over_items user workspace owner_row member_row false = do
    found ← gets (find_user workspace.workspace_user_id)
    network_user ← or_throw found type_error
    moved_folder ←
        call (move_folder network_user member_row.root_folder_id owner_row.root_folder_id)
    update_items_creator member_row.member_id workspace.id workspace.owner_id
    call (rename_folder moved_folder user member_row.id)

  -- The reads and the checks of `transferPersonalItemsToWorkspaceOwner`, which give the workspace, the
  -- rows of its owner and of the member, and whether there is nothing to move.
  unfoldable pub check_transfer :
      Uuid → User → Handler (Workspace × WorkspaceUser × WorkspaceUser × Bool)
  unfolding is_user_owner
  check_transfer workspace_id user = do
    found ← gets (find_workspace workspace_id)
    workspace ← or_throw found (not_found "Workspace not found")
    throw_if (is_user_owner workspace user.uuid) (forbidden "You are the owner of this workspace")
    member_usage ← gets (sum_size_of_files user.uuid workspace.id)
    owner_usage ← gets (sum_size_of_files workspace.owner_id workspace.id)
    found_owner ← gets (find_workspace_user workspace_id workspace.owner_id)
    owner_row ← or_throw found_owner type_error
    throw_if (ltb_ℤ owner_row.space_limit (member_usage +ℤ owner_usage))
        (bad_request "Owner does not have enough space to receive the files")
    found_member ← gets (find_workspace_user workspace_id user.uuid)
    member_row ← or_throw found_member type_error
    s ← gets (λ s. s)
    is_empty ←
        lift (is_personal_root_empty s.world user.uuid workspace.id member_row.root_folder_id)
    pure (workspace, owner_row, member_row, is_empty)

  unfoldable pub transfer_personal_items_to_workspace_owner : Uuid → User → Handler (Unit {0})
  transfer_personal_items_to_workspace_owner workspace_id user = do
    (workspace, owner_row, member_row, is_empty) ← check_transfer workspace_id user
    hand_over_items user workspace owner_row member_row is_empty

  -- The loops of `leaveWorkspace` over the teams that the user manages, and over those that the user
  -- belongs to.
  unfoldable pub hand_over_teams : Uuid → Uuid → List WorkspaceTeam → Handler (Unit {0})
  hand_over_teams user owner_id [] = pure tt
  hand_over_teams user owner_id (t ∷ ts) = do
    update_team_manager t.id owner_id
    delete_user_from_team user t.id
    hand_over_teams user owner_id ts

  unfoldable pub leave_teams : Uuid → List WorkspaceTeam → Handler (Unit {0})
  leave_teams user [] = pure tt
  leave_teams user (t ∷ ts) = do delete_user_from_team user t.id; leave_teams user ts

  unfoldable pub leave_workspace : Uuid → User → Handler (Unit {0})
  unfolding is_user_owner
  leave_workspace workspace_id user = do
    found ← gets (find_workspace workspace_id)
    workspace ← or_throw found (not_found "Workspace not found")
    throw_if (is_user_owner workspace user.uuid) (bad_request "Owner can not leave workspace")
    transfer_personal_items_to_workspace_owner workspace_id user
    teams_user_manages ← gets (get_managed_teams workspace_id user.uuid)
    hand_over_teams user.uuid workspace.owner_id teams_user_manages
    found_member ← gets (find_workspace_user workspace_id user.uuid)
    workspace_user_to_remove ← or_throw found_member type_error
    adjust_owner_storage services workspace_id workspace_user_to_remove.space_limit add
    teams_user_belongs_to ← gets (get_teams_user_belongs_to user.uuid workspace_id)
    leave_teams user.uuid teams_user_belongs_to
    delete_user_from_workspace user.uuid workspace_id

  -- `removeWorkspaceMember`: the member's user comes with the row
  unfoldable pub remove_workspace_member : Uuid → Uuid → Handler (Unit {0})
  remove_workspace_member workspace_id member_id = do
    found_member ← gets (find_workspace_user workspace_id member_id)
    workspace_user_to_remove ← or_throw found_member (not_found "User not found in workspace")
    found_user ← gets (find_user workspace_user_to_remove.member_id)
    member ← or_throw found_user type_error
    leave_workspace workspace_id member
