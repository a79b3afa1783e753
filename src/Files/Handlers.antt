-- ===== src/Files/Handlers.antt =====
-- src/modules/file/file.usecase.ts: `createFile`, `updateFileMetaData` and `moveFile`.
use text.Mathlib.Text.{◌==◌ as str_eq}
use drive_server_wip.Prelude.{
  ℕ, String, Bool, false, ◌&&◌, ◌||◌, not, Option, none, some, ◌∷◌, ◌==◌, if◌then◌else◌, is_some,
}
use drive_server_wip.Prelude.Table.{find_one}
use drive_server_wip.Prelude.Outcome.{
  Result, ok, err, Action, bad_request, not_found, conflict, forbidden, unprocessable, pure, gets,
  or_throw, lift, throw_if, modify, catch, zoom, ◌>>=◌, ◌>>◌,
}
use drive_server_wip.Limits.{or_else}
use drive_server_wip.Limits.Store.{User}
use drive_server_wip.Limits.Upload.{CacheManager, enforce_max_upload_file_size}
use drive_server_wip.Folders.Names.{EncryptedName, Ciphers, decrypt_name}
use drive_server_wip.Folders.Store.{Uuid, Folder, find_existing, encrypt_name}
use drive_server_wip.Folders.{get_folder_by_uuid}
use drive_server_wip.Files.Status.{exists, is_status_exists, is_status_deleted}
use drive_server_wip.Files.Store.{File, find_file}
use drive_server_wip.Files.Drive.{
  WorkspaceOptions, CreateFile, DriveState, files_of, is_string_empty,
  find_by_plain_name_and_folder_id, create_row, update_by_uuid_and_user_id, set_plain_name,
  set_type, to_domain, check_empty_files_limit, check_workspace_empty_files_limit,
}

unfoldable pub is_filename_valid : String → Option String → Bool
is_filename_valid plain_name type = not (is_string_empty (some plain_name) && is_string_empty type)

unfoldable pub is_deleted : File → Bool
is_deleted f = is_status_deleted f.status || f.removed

-- `findOneBy({ uuid, status: EXISTS, userId })`
abbrev pub find_existing_file : {C : Type 0} → Uuid → ℕ → DriveState C → Option File
find_existing_file uuid user_id s =
    find_one (λ f. f.uuid == uuid && is_status_exists f.status && f.user_id == user_id) (files_of s)

abbrev pub is_given : String → Bool
is_given name = not (str_eq name "")

-- What a move says of a file of the name in the destination.
abbrev pub refuse_existing_file : Uuid → Option File → Result (Unit {0})
refuse_existing_file uuid none = ok tt
refuse_existing_file uuid (some found) =
    if found.uuid == uuid
    then err (conflict "File was already moved to that location")
    else err (conflict "A file with the same name already exists in destination folder")

abbrev pub new_file : User → CreateFile → Folder → EncryptedName → Uuid → ℕ → File
new_file user dto folder name uuid now = record {
  uuid = uuid;
  user_id = user.id;
  file_id = if dto.size == 0 then none else dto.file_id;
  size = dto.size;
  updated_at = now;
  modification_time = elim (dto.modification_time) [ none ↦ now | some time ↦ time ];
  folder_id = folder.id;
  folder_uuid = folder.uuid;
  name = name;
  plain_name = some dto.plain_name;
  type = dto.type;
  status = exists;
  removed = false;
}

-- The library's cache, the key of a user's usage that an upload expires, and the ciphers.
module _ (cache_manager : CacheManager)
    (expire_user_usage : Uuid → Action cache_manager.Cache (Unit {0})) (ciphers : Ciphers) where
  abbrev pub FileHandler : Type 0 → Type 0
  FileHandler A = Action (DriveState cache_manager.Cache) A

  abbrev pub on_cache : {A : Type 0} → Action cache_manager.Cache A → FileHandler A
  on_cache m = zoom (λ s. s.cache) (λ c s. record s { cache = c }) m

  unfoldable pub encrypted_name : String → ℕ → FileHandler EncryptedName
  encrypted_name text folder_id =
      zoom (λ s. s.folders) (λ t s. record s { folders = t })
        (encrypt_name ciphers text (some folder_id))

  unfoldable pub enforce_upload_size : User → ℕ → FileHandler (Unit {0})
  enforce_upload_size user size = do
    limits ← gets (λ s. s.tables.limits)
    on_cache (enforce_max_upload_file_size cache_manager user size limits)

  -- The limits on the size of a new content
  unfoldable pub check_size_limits : User → ℕ → Option WorkspaceOptions → FileHandler (Unit {0})
  check_size_limits user size none =
      if size == 0 then check_empty_files_limit user else enforce_upload_size user size
  check_size_limits user size (some options) =
      if size == 0 then check_workspace_empty_files_limit options else enforce_upload_size user size

  -- The mail for the first file of a user
  abbrev pub first_upload : User → Bool → FileHandler (Unit {0})
  first_upload user is_first = modify (λ s. record s {
    first_uploads = if is_first then user.uuid ∷ s.first_uploads else s.first_uploads;
  })

  unfoldable pub create_file : User → CreateFile → Bool → Option WorkspaceOptions → FileHandler File
  create_file user dto is_free_tier workspace_options = do
    had_files_before_upload ←
        gets (λ s. is_some (find_one (λ f. f.user_id == user.id) (files_of s)))
    found ← gets (λ s. find_existing dto.folder_uuid s.folders)
    folder ← or_throw found (not_found "Folder not found")
    throw_if (not (folder.user_id == user.id)) (forbidden "Folder is not yours")
    crypto_file_name ← encrypted_name dto.plain_name folder.id
    found_file ←
        gets (find_by_plain_name_and_folder_id user.id (some dto.plain_name) dto.type folder.id)
    throw_if (is_some found_file) (conflict "File already exists")
    check_size_limits user dto.size workspace_options
    file ← create_row (new_file user dto folder crypto_file_name)
    catch (on_cache (expire_user_usage user.uuid)) (λ e. pure tt)
    first_upload user (not had_files_before_upload && is_free_tier)
    pure file

  -- The names of a file after an update of its data, and its ciphertext
  unfoldable pub encrypted_if_given : Option String → File → FileHandler EncryptedName
  encrypted_if_given none file = pure file.name
  encrypted_if_given (some name) file =
      let encrypted = encrypted_name name file.folder_id in
      if is_given name then encrypted else pure file.name

  abbrev pub decrypted : File → Option String
  decrypted file = or_else file.plain_name (decrypt_name ciphers file.name (some file.folder_id))

  abbrev pub set_names : EncryptedName → String → Option String → ℕ → File → File
  set_names name plain_name type now f = record f {
    name = name;
    plain_name = some plain_name;
    type = type;
    modification_time = now;
  }

  -- The names are free, and are written.
  unfoldable pub change_names :
      User → File → EncryptedName → String → Option String → FileHandler File
  change_names user file name plain_name type = do
    found ←
        gets (find_by_plain_name_and_folder_id file.user_id (some plain_name) type file.folder_id)
    throw_if (is_some found) (conflict "A file with this name already exists in this location")
    now ← gets (λ s. s.tables.now)
    update_by_uuid_and_user_id file.uuid user.id (set_names name plain_name type now)
    pure (set_names name plain_name type now file)

  unfoldable pub update_file_meta_data :
      User → Uuid → Option String → Option String → FileHandler File
  update_file_meta_data user file_uuid plain_name type = do
    throw_if (is_string_empty plain_name && is_string_empty type)
        (bad_request "Filename cannot be empty")
    found ← gets (find_existing_file file_uuid user.id)
    row ← or_throw found (not_found "File not found")
    throw_if (not (row.user_id == user.id)) (forbidden "This file is not yours")
    crypto_file_name ← encrypted_if_given plain_name row
    change_names user (to_domain row) crypto_file_name
        (set_plain_name (or_else plain_name (decrypted (to_domain row))))
        (set_type (or_else type (to_domain row).type))

  abbrev pub set_place : Folder → EncryptedName → String → Option String → File → File
  set_place destination name plain_name type f = record f {
    folder_id = destination.id;
    folder_uuid = destination.uuid;
    name = name;
    status = exists;
    plain_name = some plain_name;
    type = type;
  }

  -- The destination has no file of the names, and the file goes there under them.
  unfoldable pub change_place : User → File → Folder → String → Option String → FileHandler File
  change_place user file destination plain_name type = do
    throw_if (not (is_filename_valid plain_name type)) (bad_request "Filename is not valid")
    found ←
        gets (find_by_plain_name_and_folder_id file.user_id (some plain_name) type destination.id)
    lift (refuse_existing_file file.uuid found)
    name ← encrypted_name plain_name destination.id
    update_by_uuid_and_user_id file.uuid user.id (set_place destination name plain_name type)
    pure (set_place destination name plain_name type file)

  unfoldable pub move_file : User → Uuid → Uuid → Option String → Option String → FileHandler File
  move_file user file_uuid destination_uuid name type = do
    found ← gets (λ s. find_file file_uuid user.id s.tables)
    row ← or_throw found (unprocessable "File can not be moved")
    throw_if (is_deleted row) (unprocessable "File can not be moved")
    destination ←
        zoom (λ s. s.folders) (λ t s. record s { folders = t })
          (get_folder_by_uuid destination_uuid user.id)
    throw_if destination.removed (unprocessable "File can not be moved to destination")
    change_place user (to_domain row) destination
        (set_plain_name (or_else name (decrypted (to_domain row))))
        (set_type (or_else type (to_domain row).type))
