-- ===== src/Workspaces/Store.antt =====
-- The rows of src/modules/workspaces (domains/*.domain.ts, attributes/*.ts), the tables that its
-- repositories read and write, and the services that it calls.
use drive_server_wip.Prelude.{ℕ, String, Bool, Option, List, ◌==◌, leb, not}
use drive_server_wip.Prelude.Int.{ℤ, ◌+ℤ◌, ◌-ℤ◌, ltb_ℤ}
use drive_server_wip.Prelude.Outcome.{Action, Result, Exception}

-- Identifiers are only compared.
abbrev pub Uuid : Type 0
Uuid = ℕ

pub record Workspace : Type 0 where
  pub id : Uuid
  pub owner_id : Uuid
  pub root_folder_id : Uuid
  pub default_team_id : Uuid
  pub workspace_user_id : Uuid
  pub setup_completed : Bool
  pub number_of_seats : ℕ

pub record WorkspaceUser : Type 0 where
  pub id : Uuid
  pub member_id : Uuid
  pub key : String
  pub workspace_id : Uuid
  pub space_limit : ℤ
  pub drive_usage : ℤ
  pub backups_usage : ℤ
  pub root_folder_id : Uuid
  pub deactivated : Bool
  pub last_usage_sync_at : Option ℕ

pub record WorkspaceInvite : Type 0 where
  pub id : Uuid
  pub workspace_id : Uuid
  pub invited_user : Uuid
  pub encryption_algorithm : String
  pub encryption_key : String
  pub space_limit : ℤ

pub record WorkspaceTeam : Type 0 where
  pub id : Uuid
  pub workspace_id : Uuid
  pub manager_id : Uuid
  pub name : String

pub record WorkspaceTeamUser : Type 0 where
  pub id : Uuid
  pub team_id : Uuid
  pub member_id : Uuid

pub data ItemType : Type 0 where
  file folder : ItemType

pub record WorkspaceItem : Type 0 where
  pub item_id : Uuid
  pub workspace_id : Uuid
  pub item_type : ItemType
  pub created_by : Uuid

pub data FileStatus : Type 0 where
  exists trashed deleted : FileStatus

-- The columns of `files` that the workspace queries read.
pub record WorkspaceFile : Type 0 where
  pub uuid : Uuid
  pub size : ℕ
  pub status : FileStatus

pub record User : Type 0 where
  pub uuid : Uuid
  pub email : String
  pub username : String
  pub bridge_user : String
  pub user_id : String

-- `World` is the state behind the services: network accounts, folders and sent mail.
pub record Store (World : Type 0) : Type 0 where
  pub workspaces : List Workspace
  pub members : List WorkspaceUser
  pub invites : List WorkspaceInvite
  pub teams : List WorkspaceTeam
  pub team_users : List WorkspaceTeamUser
  pub items : List WorkspaceItem
  pub files : List WorkspaceFile
  pub users : List User
  pub pre_created_users : List User
  pub next_uuid : ℕ
  pub now : ℕ
  pub world : World

-- What the workspace code calls outside its tables. Sizes are whole numbers of bytes, and `divide`
-- is the quotient of two of them as a number of bytes.
pub record Services : Type 1 where
  pub World : Type 0
  pub divide : ℤ → ℕ → ℤ
  -- `Math.floor` of such a quotient
  pub floor_divide : ℤ → ℕ → ℤ
  -- `BridgeService.getLimit` and `setStorage`
  pub get_limit : World → String → String → Result ℤ
  pub set_storage : String → ℤ → Action World (Unit {0})
  -- `FolderUseCases.createFolder`, which gives the new folder's identifier
  pub create_folder : User → Uuid → Action World Uuid
  -- `MailerService.sendWorkspaceUserInvitation` and `sendWorkspaceUserExternalInvitation`
  pub send_invitation : String → Uuid → Action World (Unit {0})
  pub send_external_invitation : String → Uuid → Action World (Unit {0})
  -- whether a member's personal root folder has no folder and no file left in it
  -- (`FolderUseCases.getFoldersInWorkspace`, `FileUseCases.getFilesInWorkspace`)
  pub is_personal_root_empty : World → Uuid → Uuid → Uuid → Result Bool
  -- `FolderUseCases.moveFolder` and `renameFolder`
  pub move_folder : User → Uuid → Uuid → Action World Uuid
  pub rename_folder : Uuid → User → Uuid → Action World (Unit {0})
  -- what the driver throws, if it does, when a rollback deletes a member's row and their row in the
  -- default team
  pub member_deletion_error : Option Exception
  pub team_user_deletion_error : Option Exception

-- `Workspace` (domains/workspaces.domain.ts)
unfoldable pub is_user_owner : Workspace → Uuid → Bool
is_user_owner w user = user == w.owner_id

unfoldable pub has_no_seat_left : Workspace → ℕ → Bool
has_no_seat_left w current_users_count = leb w.number_of_seats current_users_count

unfoldable pub is_default_team : Workspace → WorkspaceTeam → Bool
is_default_team w team = w.default_team_id == team.id

-- `WorkspaceUser` (domains/workspace-user.domain.ts)
unfoldable pub get_used_space : WorkspaceUser → ℤ
get_used_space m = m.drive_usage +ℤ m.backups_usage

unfoldable pub get_free_space : WorkspaceUser → ℤ
unfolding get_used_space
get_free_space m = m.space_limit -ℤ get_used_space m

unfoldable pub has_enough_space_for_file : WorkspaceUser → ℤ → Bool
unfolding get_free_space
has_enough_space_for_file m size = not (ltb_ℤ (get_free_space m) size)

unfoldable pub add_drive_usage : WorkspaceUser → ℤ → WorkspaceUser
add_drive_usage m size = record m { drive_usage = m.drive_usage +ℤ size }

-- `WorkspaceTeam` (domains/workspace-team.domain.ts)
unfoldable pub is_user_manager : WorkspaceTeam → Uuid → Bool
is_user_manager t user = user == t.manager_id

-- `WorkspaceItemUser` (domains/workspace-item-user.domain.ts)
unfoldable pub is_owned_by : WorkspaceItem → Uuid → Bool
is_owned_by item user = item.created_by == user
