-- ===== src/Workspaces/Teams.antt =====
-- src/modules/workspaces/workspaces.usecase.ts: the teams of a workspace and their managers.
pub mod Rules
pub mod Managers
use drive_server_wip.Prelude.{
  ℕ, String, Bool, true, false, not, ◌&&◌, Option, none, some, is_some, if◌then◌else◌, ◌==◌, leb,
}
use drive_server_wip.Prelude.Outcome.{
  Action, bad_request, not_found, forbidden, type_error, pure, gets, or_throw, throw_if, ◌>>=◌,
  ◌>>◌,
}
use drive_server_wip.Workspaces.Store.{
  Uuid, Workspace, WorkspaceTeam, WorkspaceTeamUser, User, Store, is_default_team, is_user_manager,
}
use drive_server_wip.Workspaces.Repository.{
  find_workspace, find_owned_workspace, find_user, find_workspace_user, find_active_member,
  get_team_by_id, get_team_user, get_team_members_count, get_teams_in_workspace_count,
  create_team_row, update_team_name, update_team_manager, delete_team_by_id, add_user_to_team,
  delete_user_from_team, v4,
}

-- `WorkspaceRole`
pub data WorkspaceRole : Type 0 where
  owner member manager : WorkspaceRole

-- The manager that `changeUserRole` sets, if any: a manager who becomes a member gives way to the
-- owner of the workspace in the request, which is looked up only then.
pub data NewManager : Type 0 where
  unchanged : NewManager
  owner_of_workspace : NewManager
  the_user : NewManager

unfoldable pub new_manager : WorkspaceRole → Bool → NewManager
new_manager member true = owner_of_workspace
new_manager manager false = the_user
new_manager _ _ = unchanged

module _ (World : Type 0) where
  abbrev Handler : Type 0 → Type 0
  Handler A = Action (Store World) A

  unfoldable pub create_team : Uuid → Uuid → String → Option Uuid → Handler WorkspaceTeam
  create_team user workspace_id name chosen_manager = do
    found ← gets (find_owned_workspace user workspace_id)
    workspace ← or_throw found (bad_request "Not valid workspace")
    team_in_workspace_count ← gets (get_teams_in_workspace_count workspace.id)
    throw_if (leb 10 team_in_workspace_count) (bad_request "Maximum teams reached")
    let manager_id : Uuid = elim chosen_manager [ none ↦ user | some m ↦ m ]
    already_in_workspace ← gets (find_workspace_user workspace.id manager_id)
    or_throw already_in_workspace (bad_request "User Manager is not part of the workspace")
    id ← v4
    let new_team : WorkspaceTeam = record {
      id = id;
      workspace_id = workspace_id;
      manager_id = manager_id;
      name = name;
    }
    create_team_row new_team
    add_user_to_team id manager_id
    pure new_team

  unfoldable pub get_and_validate_non_default_team_workspace :
      Uuid → Handler (WorkspaceTeam × Workspace)
  unfolding is_default_team
  get_and_validate_non_default_team_workspace team_id = do
    found_team ← gets (get_team_by_id team_id)
    team ← or_throw found_team (bad_request "Team not found")
    found ← gets (find_workspace team.workspace_id)
    workspace ← or_throw found (forbidden "Not valid workspace found")
    throw_if (is_default_team workspace team) (bad_request "Invalid operation on default team")
    pure (team, workspace)

  unfoldable pub edit_team_data : Uuid → String → Handler (Unit {0})
  edit_team_data team_id name = do
    get_and_validate_non_default_team_workspace team_id
    update_team_name team_id name

  -- The manager who leaves a team gives way to the owner of the workspace.
  unfoldable pub replace_manager : WorkspaceTeam → Bool → Handler (Unit {0})
  replace_manager team false = pure tt
  replace_manager team true = do
    found ← gets (find_workspace team.workspace_id)
    team_workspace ← or_throw found type_error
    update_team_manager team.id team_workspace.owner_id

  unfoldable pub remove_member_from_team : Uuid → Uuid → Handler (Unit {0})
  remove_member_from_team team_id member_id = do
    (team, workspace) ← get_and_validate_non_default_team_workspace team_id
    team_user ← gets (get_team_user member_id team.id)
    or_throw team_user (bad_request "User is not part of team!")
    replace_manager team (team.manager_id == member_id)
    delete_user_from_team member_id team_id

  unfoldable pub add_member_to_team : Uuid → Uuid → Handler (Unit {0})
  add_member_to_team team_id member_id = do
    (team, workspace) ← get_and_validate_non_default_team_workspace team_id
    workspace_user ← gets (find_active_member member_id)
    or_throw workspace_user (bad_request "This user is not valid member in the workspace")
    user_already_in_team ← gets (get_team_user member_id team.id)
    throw_if (is_some user_already_in_team) (bad_request "This user is already part of team!")
    members_count ← gets (get_team_members_count team_id)
    throw_if (leb 20 members_count) (bad_request "Maximum members reached")
    add_user_to_team team_id member_id

  unfoldable pub change_team_manager : Uuid → Uuid → Handler (Unit {0})
  change_team_manager team_id manager_id = do
    (team, workspace) ← get_and_validate_non_default_team_workspace team_id
    workspace_user ← gets (find_active_member manager_id)
    or_throw workspace_user (
        bad_request
          "The user you are trying to assign as manager is not a valid member in the workspace")
    team_user ← gets (get_team_user manager_id team.id)
    or_throw team_user (bad_request "User is not in the team")
    update_team_manager team.id manager_id

  unfoldable pub delete_team : Uuid → Handler (Unit {0})
  delete_team team_id = do
    get_and_validate_non_default_team_workspace team_id
    delete_team_by_id team_id

  unfoldable pub set_new_manager : WorkspaceTeam → User → Uuid → NewManager → Handler (Unit {0})
  set_new_manager team user workspace_id unchanged = pure tt
  set_new_manager team user workspace_id owner_of_workspace = do
    found ← gets (find_workspace workspace_id)
    workspace ← or_throw found type_error
    update_team_manager team.id workspace.owner_id
  set_new_manager team user workspace_id the_user = update_team_manager team.id user.uuid

  unfoldable pub change_user_role : Uuid → Uuid → Uuid → WorkspaceRole → Handler (Unit {0})
  unfolding is_user_manager
  change_user_role workspace_id team_id user_uuid role = do
    found_team ← gets (get_team_by_id team_id)
    found_team_user ← gets (get_team_user user_uuid team_id)
    team ← or_throw found_team (not_found "Team not found.")
    team_user ← or_throw found_team_user (not_found "User not part of the team.")
    found_user ← gets (find_user team_user.member_id)
    user ← or_throw found_user (bad_request "Bad Request")
    set_new_manager team user workspace_id (new_manager role (is_user_manager team user.uuid))
