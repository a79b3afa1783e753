-- ===== src/Workspaces/Invitations.antt =====
-- src/modules/workspaces/workspaces.usecase.ts: how users come into a workspace, by its setup or by
-- an invitation.
pub mod Accept
pub mod Rollback
pub mod Invite
use Prim.Native.String.{◌++◌ as str_append}
use drive_server_wip.Prelude.{
  ℕ, String, Bool, true, false, not, ◌&&◌, ◌||◌, Option, none, some, is_some, if◌then◌else◌, ◌==◌,
}
use drive_server_wip.Prelude.Int.{ℤ, pos, ltb_ℤ}
use drive_server_wip.Prelude.Table.{update}
use drive_server_wip.Prelude.Outcome.{
  Action, Exception, bad_request, not_found, forbidden, internal_error, type_error, pure, throw,
  gets, or_throw, throw_if, catch, modify, ◌>>=◌, ◌>>◌,
}
use drive_server_wip.Workspaces.Store.{
  Uuid, Workspace, WorkspaceUser, WorkspaceInvite, User, Store, Services, folder, is_user_owner,
}
use drive_server_wip.Workspaces.Repository.{
  find_workspace, find_ready_workspace, find_pending_workspace, find_user, find_workspace_user,
  find_by_email, find_pre_created_by_email, find_invite, find_invite_for, find_invite_to,
  create_invite, delete_invite_by_id, add_user_to_workspace, delete_user_from_workspace,
  add_user_to_team, delete_user_from_team, get_team_user, create_item, v4, call,
}
use drive_server_wip.Workspaces.Storage.{
  deduct, get_workspace_network_limit, get_owner_available_space,
  get_workspace_fixed_storage_per_user, is_workspace_full, adjust_owner_storage,
}

-- `existentUser ?? preCreatedUser`
abbrev first_of_two : Option User → Option User → Option User
first_of_two none b = b
first_of_two (some a) b = some a

-- `finalMessage += rollbackError ? rollbackError.message : 'rollback applied successfully'`
abbrev pub final_message : String → Option String → String
final_message problem none = str_append problem "rollback applied successfully"
final_message problem (some rollback_error) = str_append problem rollback_error

-- `CreateWorkspaceInviteDto`
pub record CreateInvite : Type 0 where
  pub invited_user : String
  pub space_limit : Option ℤ
  pub encryption_algorithm : String
  pub encryption_key : String

module _ (services : Services) where
  open services use {
    World, create_folder, send_invitation, send_external_invitation, member_deletion_error,
    team_user_deletion_error,
  }

  abbrev Handler : Type 0 → Type 0
  Handler A = Action (Store World) A

  -- A write that throws instead if there is an error.
  abbrev unless : Option Exception → Handler (Unit {0}) → Handler (Unit {0})
  unless none write = write
  unless (some e) write = throw e

  -- The answer is the message of the error that the rollback gives, if it fails.
  unfoldable pub rollback_user_added_to_workspace : Uuid → Workspace → Handler (Option String)
  rollback_user_added_to_workspace user workspace =
      catch
        (do
          unless member_deletion_error (delete_user_from_workspace user workspace.id)
          unless team_user_deletion_error (delete_user_from_team user workspace.default_team_id)
          pure none)
        (λ e. pure (some "User added to workspace rollback failed"))

  unfoldable pub initiate_workspace_personal_root_folder : Uuid → Uuid → Handler Uuid
  initiate_workspace_personal_root_folder workspace_user_id root_folder_id = do
    found ← gets (find_user workspace_user_id)
    network_user ← or_throw found type_error
    call (create_folder network_user root_folder_id)

  -- The body of the `try` of `setupWorkspace`.
  unfoldable pub add_owner : User → Workspace → String → Option WorkspaceUser → Handler (Unit {0})
  add_owner user workspace mnemonic (some already) = pure tt
  add_owner user workspace mnemonic none = do
    root_folder ←
        initiate_workspace_personal_root_folder workspace.workspace_user_id workspace.root_folder_id
    assignable_space ← get_workspace_network_limit services workspace
    id ← v4
    add_user_to_workspace (record {
      id = id;
      workspace_id = workspace.id;
      member_id = user.uuid;
      space_limit = assignable_space;
      drive_usage = pos 0;
      backups_usage = pos 0;
      key = mnemonic;
      root_folder_id = root_folder;
      deactivated = false;
      last_usage_sync_at = none;
    })
    create_item (record {
      item_id = root_folder;
      workspace_id = workspace.id;
      item_type = folder;
      created_by = user.uuid;
    })

  unfoldable pub add_owner_to_team : User → Workspace → Bool → Handler (Unit {0})
  add_owner_to_team user workspace true = pure tt
  add_owner_to_team user workspace false = add_user_to_team workspace.default_team_id user.uuid

  unfoldable pub setup_workspace : User → Uuid → String → Handler (Unit {0})
  setup_workspace user workspace_id mnemonic = do
    found ← gets (find_pending_workspace workspace_id user.uuid)
    workspace ← or_throw found (not_found "Workspace not found")
    already_in_workspace ← gets (find_workspace_user workspace.id user.uuid)
    already_in_default_team ← gets (get_team_user user.uuid workspace.default_team_id)
    catch
        (do
          add_owner user workspace mnemonic already_in_workspace
          add_owner_to_team user workspace (is_some already_in_default_team))
        (λ e. do
          rollback_error ← rollback_user_added_to_workspace user.uuid workspace
          throw (
              internal_error (
                final_message "There was a problem setting this user in the workspace! "
                  rollback_error)))
    modify λ s. record s {
      workspaces =
          update (λ w. w.owner_id == user.uuid && w.id == workspace.id)
            (λ w. record w { setup_completed = true }) s.workspaces;
    }

  -- What an invitation assigns: the space asked for, or the workspace's space per seat.
  unfoldable pub space_to_assign : Workspace → Option ℤ → Handler ℤ
  space_to_assign workspace (some limit) = pure limit
  space_to_assign workspace none = get_workspace_fixed_storage_per_user services workspace

  -- The mail to the invited user. Only a failure towards a user who has not signed up yet withdraws
  -- the invitation.
  unfoldable pub notify : Bool → User → Uuid → Handler (Unit {0})
  notify true user invite_id =
      catch (call (send_external_invitation user.email invite_id))
        λ e. do delete_invite_by_id invite_id; throw e
  notify false user invite_id = catch (call (send_invitation user.email invite_id)) λ e. pure tt

  -- The checks of `inviteUserToWorkspace`, which give the user, whether they have not signed up yet
  -- and the space to assign.
  unfoldable pub check_invitation : Uuid → CreateInvite → Handler (User × Bool × ℤ)
  check_invitation workspace_id dto = do
    found ← gets (find_workspace workspace_id)
    workspace ← or_throw found (not_found "Workspace does not exist")
    existent_user ← gets (find_by_email dto.invited_user)
    pre_created_user ← gets (find_pre_created_by_email dto.invited_user)
    user_joining ←
        or_throw (first_of_two existent_user pre_created_user) (not_found "Invited user not found")
    already_in_workspace ← gets (find_workspace_user workspace_id user_joining.uuid)
    throw_if (is_some existent_user && is_some already_in_workspace)
        (bad_request "User is already part of the workspace")
    invitation ← gets (find_invite_to user_joining.uuid workspace_id)
    throw_if (is_some invitation) (bad_request "User is already invited to workspace")
    full ← is_workspace_full services workspace
    throw_if full (bad_request "You can not invite more users to this workspace")
    space_left ← get_owner_available_space services workspace
    space ← space_to_assign workspace dto.space_limit
    throw_if (ltb_ℤ space_left space) (
        bad_request
          "Space limit set for the invitation is superior to the space assignable in workspace")
    pure (user_joining, not (is_some existent_user), space)

  unfoldable pub invite_user_to_workspace : Uuid → CreateInvite → Handler WorkspaceInvite
  invite_user_to_workspace workspace_id dto = do
    (user_joining, is_user_pre_created, space) ← check_invitation workspace_id dto
    id ← v4
    let new_invite : WorkspaceInvite = record {
      id = id;
      workspace_id = workspace_id;
      invited_user = user_joining.uuid;
      encryption_algorithm = dto.encryption_algorithm;
      encryption_key = dto.encryption_key;
      space_limit = space;
    }
    create_invite new_invite
    notify is_user_pre_created user_joining id
    pure new_invite

  -- The body of the `try` of `acceptWorkspaceInvite`.
  unfoldable pub admit : User → WorkspaceInvite → Workspace → Handler WorkspaceUser
  admit user invite workspace = do
    root_folder ←
        initiate_workspace_personal_root_folder workspace.workspace_user_id workspace.root_folder_id
    id ← v4
    let workspace_user : WorkspaceUser = record {
      id = id;
      workspace_id = invite.workspace_id;
      member_id = invite.invited_user;
      space_limit = invite.space_limit;
      drive_usage = pos 0;
      root_folder_id = root_folder;
      backups_usage = pos 0;
      key = invite.encryption_key;
      deactivated = false;
      last_usage_sync_at = none;
    }
    add_user_to_workspace workspace_user
    add_user_to_team workspace.default_team_id user.uuid
    create_item (record {
      item_id = root_folder;
      workspace_id = workspace.id;
      item_type = folder;
      created_by = user.uuid;
    })
    delete_invite_by_id invite.id
    adjust_owner_storage services workspace.id invite.space_limit deduct
    pure workspace_user

  unfoldable pub join_workspace : User → WorkspaceInvite → Workspace → Handler WorkspaceUser
  join_workspace user invite workspace = do
    full ← is_workspace_full services workspace
    throw_if full (bad_request "This workspace is full and it does not accept more users")
    space_left ← get_owner_available_space services workspace
    throw_if (ltb_ℤ space_left invite.space_limit) (
        bad_request
          "The space assigned to this user is greater than the space available, invalid invitation")
    catch (admit user invite workspace) λ e. do
      rollback_error ← rollback_user_added_to_workspace user.uuid workspace
      throw (
          internal_error
            (final_message "There was a problem accepting this invite! " rollback_error))

  unfoldable pub accept_invite_of :
      User → WorkspaceInvite → Workspace → Option WorkspaceUser → Handler WorkspaceUser
  accept_invite_of user invite workspace none = join_workspace user invite workspace
  accept_invite_of user invite workspace (some member) = do
    delete_invite_by_id invite.id
    pure member

  unfoldable pub accept_workspace_invite : User → Uuid → Handler WorkspaceUser
  accept_workspace_invite user invite_id = do
    found_invite ← gets (find_invite_for invite_id user.uuid)
    invite ← or_throw found_invite (bad_request "This invitation is not valid")
    found ← gets (find_ready_workspace invite.workspace_id)
    workspace ← or_throw found (bad_request "This invitation does not have a valid workspace")
    already_in_workspace ← gets (find_workspace_user workspace.id user.uuid)
    accept_invite_of user invite workspace already_in_workspace

  unfoldable pub remove_workspace_invite : Uuid → Uuid → Handler (Unit {0})
  unfolding is_user_owner
  remove_workspace_invite user invite_id = do
    found_invite ← gets (find_invite invite_id)
    invite ← or_throw found_invite (bad_request "Invalid invite")
    found ← gets (find_workspace invite.workspace_id)
    workspace ← or_throw found (bad_request "Invalid invite")
    throw_if (not (is_user_owner workspace user) && not (user == invite.invited_user))
        (forbidden "Forbidden")
    delete_invite_by_id invite.id

  unfoldable pub validate_workspace_invite : Uuid → Handler Uuid
  validate_workspace_invite invite_id = do
    found_invite ← gets (find_invite invite_id)
    invite ← or_throw found_invite (bad_request "Invalid invite")
    pure invite.id
