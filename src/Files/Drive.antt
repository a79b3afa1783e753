-- ===== src/Files/Drive.antt =====
-- src/modules/file/file.usecase.ts: files are created, renamed and moved, and the limits on empty files.
use text.Mathlib.Text.{◌==◌ as str_eq}
use drive_server_wip.Prelude.{
  ℕ, suc, String, Bool, true, false, ◌&&◌, ◌||◌, not, Option, none, some, List, [], ◌∷◌, ◌==◌,
  if◌then◌else◌, is_some,
}
use drive_server_wip.Prelude.Table.{find_one, update, create, count}
use drive_server_wip.Prelude.Outcome.{
  Action, bad_request, payment_required, type_error, pure, gets, or_throw, throw_if, modify, ◌>>=◌,
  ◌>>◌,
}
use drive_server_wip.Limits.{get_user_limit_by_label}
use drive_server_wip.Limits.Store.{
  Value, numeral, true_text, other_text, Limit, User, max_zero_size_files, should_limit_be_enforced,
  find_by_uuid, is_in,
}
use drive_server_wip.Folders.Names.{codes, is_blank, same_text}
use drive_server_wip.Folders.Store.{Uuid, Folder, encrypt_name, unique_violation}
use drive_server_wip.Folders.Store as FolderTables
use drive_server_wip.Files.Status.{is_status_exists, is_status_deleted}
use drive_server_wip.Files.Store.{File, Store, is_file_of}

-- A file of a member in a workspace (`workspace_items_users`)
pub record WorkspaceFile : Type 0 where
  pub item_id : Uuid
  pub created_by : Uuid
  pub workspace_id : Uuid

-- What a request says of a file's place in a workspace
pub record WorkspaceOptions : Type 0 where
  pub owner_id : Uuid
  pub workspace_id : Uuid
  pub member_id : Uuid

pub record CreateFile : Type 0 where
  pub folder_uuid : Uuid
  pub plain_name : String
  pub type : Option String
  pub size : ℕ
  pub file_id : Option Uuid
  pub modification_time : Option ℕ

-- `first_uploads` are the users who were sent a mail for their first file.
pub record DriveState (Cache : Type 0) : Type 0 where
  pub tables : Store
  pub folders : FolderTables.Store
  pub workspace_files : List WorkspaceFile
  pub cache : Cache
  pub first_uploads : List Uuid

abbrev pub files_of : {C : Type 0} → DriveState C → List File
files_of s = s.tables.files

abbrev pub with_files : {C : Type 0} → List File → DriveState C → DriveState C
with_files fs s = record s { tables = record (s.tables) { files = fs } }

-- `isStringEmpty`
abbrev pub is_string_empty : Option String → Bool
is_string_empty none = true
is_string_empty (some text) = is_blank (codes text)

-- `setPlainName` and `setType` of a file
unfoldable pub set_plain_name : Option String → String
set_plain_name none = ""
set_plain_name (some name) = if is_string_empty (some name) then "" else name

unfoldable pub set_type : Option String → Option String
set_type type = if is_string_empty type then none else type

-- `toDomain`, for the names
unfoldable pub to_domain : File → File
unfolding set_plain_name set_type
to_domain f = record f { plain_name = some (set_plain_name f.plain_name); type = set_type f.type }

-- A column with a type, by the condition of `findByPlainNameAndFolderId`.
abbrev pub same_type : Option String → Option String → Bool
same_type none type = is_string_empty type
same_type (some t) type = if is_string_empty type then str_eq t "" else same_text (some t) type

-- `findByPlainNameAndFolderId`, for files that exist
abbrev pub is_file_named : ℕ → Option String → Option String → ℕ → File → Bool
is_file_named user_id plain_name type folder_id f =
    f.user_id == user_id
    && same_text f.plain_name plain_name
    && same_type f.type type
    && f.folder_id == folder_id
    && is_status_exists f.status

abbrev pub find_by_plain_name_and_folder_id :
    {C : Type 0} → ℕ → Option String → Option String → ℕ → DriveState C → Option File
find_by_plain_name_and_folder_id user_id plain_name type folder_id s =
    find_one (is_file_named user_id plain_name type folder_id) (files_of s)

-- What `files_plainname_type_folderid_exists_unique` forbids beside a row.
abbrev pub is_file_clash : File → File → Bool
is_file_clash new f =
    not (f.uuid == new.uuid)
    && same_text f.plain_name new.plain_name
    && same_text f.type new.type
    && f.folder_id == new.folder_id
    && is_status_exists f.status
    && is_status_exists new.status

abbrev pub has_file_clash : File → List File → Bool
has_file_clash new fs = is_some (find_one (is_file_clash new) fs)

abbrev pub insert_file : {C : Type 0} → File → DriveState C → DriveState C
insert_file f s = record s {
  tables = record (s.tables) { files = create f s.tables.files; next_id = suc s.tables.next_id };
}

unfoldable pub create_row : {C : Type 0} → (Uuid → ℕ → File) → Action (DriveState C) File
create_row make = do
  file ← gets (λ s. make s.tables.next_id s.tables.now)
  is_taken ← gets (λ s. has_file_clash file (files_of s))
  throw_if is_taken unique_violation
  modify (insert_file file)
  pure (to_domain file)

-- A row of the user that breaks the index after a write.
abbrev pub any_file_clash : (File → Bool) → (File → File) → List File → List File → Bool
any_file_clash p set [] fs = false
any_file_clash p set (r ∷ rs) fs = (p r && has_file_clash (set r) fs) || any_file_clash p set rs fs

abbrev pub updated : (File → File) → ℕ → File → File
updated set now f = record (set f) { updated_at = now }

-- `updateByUuidAndUserId` with another name or place
unfoldable pub update_by_uuid_and_user_id :
    {C : Type 0} → Uuid → ℕ → (File → File) → Action (DriveState C) (Unit {0})
update_by_uuid_and_user_id uuid user_id set = do
  is_taken ← gets (λ s. any_file_clash (is_file_of uuid user_id) set (files_of s) (files_of s))
  throw_if is_taken unique_violation
  modify
      (λ s. with_files (update (is_file_of uuid user_id) (updated set s.tables.now) (files_of s)) s)

abbrev pub is_empty_file : File → Bool
is_empty_file f = f.size == 0 && not (is_status_deleted f.status)

abbrev pub get_zero_size_files_count_by_user : {C : Type 0} → ℕ → DriveState C → ℕ
get_zero_size_files_count_by_user user_id s =
    count (λ f. f.user_id == user_id && is_empty_file f) (files_of s)

abbrev pub get_zero_size_files_count_in_workspace_by_member :
    {C : Type 0} → Uuid → Uuid → DriveState C → ℕ
get_zero_size_files_count_in_workspace_by_member member_id workspace_id s =
    count
      (λ f.
        is_empty_file f
        && is_in
            (λ i.
              i.item_id == f.uuid && i.created_by == member_id && i.workspace_id == workspace_id)
            s.workspace_files)
      (files_of s)

-- `limit.value === '0'`
abbrev pub is_zero : Value → Bool
is_zero (numeral n) = n == 0
is_zero true_text = false
is_zero other_text = false

abbrev pub has_no_empty_files : Option Limit → Bool
has_no_empty_files none = true
has_no_empty_files (some limit) = is_zero limit.value

unfoldable pub check_empty_files_limit : {C : Type 0} → User → Action (DriveState C) (Unit {0})
check_empty_files_limit user = do
  found ← gets (λ s. get_user_limit_by_label max_zero_size_files user s.tables.limits)
  empty_files_count ← gets (get_zero_size_files_count_by_user user.id)
  throw_if (has_no_empty_files found)
      (payment_required "You can not have empty files, upgrade your plan to get more features")
  limit ← or_throw found type_error
  throw_if (should_limit_be_enforced limit false empty_files_count)
      (bad_request "You can not have more empty files")

unfoldable pub check_workspace_empty_files_limit :
    {C : Type 0} → WorkspaceOptions → Action (DriveState C) (Unit {0})
check_workspace_empty_files_limit options = do
  found ← gets (λ s. find_by_uuid options.owner_id s.tables.limits)
  workspace_owner ← or_throw found type_error
  found_limit ←
      gets (λ s. get_user_limit_by_label max_zero_size_files workspace_owner s.tables.limits)
  zero_size_files_count ←
      gets (get_zero_size_files_count_in_workspace_by_member options.member_id options.workspace_id)
  limit ← or_throw found_limit type_error
  throw_if (should_limit_be_enforced limit false zero_size_files_count)
      (bad_request "You can not have more empty files in this workspace")
