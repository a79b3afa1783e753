-- ===== src/Folders.antt =====
-- src/modules/folder/folder.usecase.ts: folders are created, renamed, moved and put into the trash.
pub mod Names
pub mod Store
pub mod Move
pub mod Tree
pub mod Conflicts
pub mod Bulk
pub mod Orphans
mod Tests
use text.Mathlib.Text.{◌==◌ as str_eq}
use drive_server_wip.Prelude.{
  ℕ, suc, String, Bool, true, false, ◌&&◌, ◌||◌, not, Option, none, some, List, [], ◌∷◌, ◌++◌, ◌==◌,
  if◌then◌else◌, is_some,
}
use drive_server_wip.Prelude.Table.{find_one, find_all, create}
use drive_server_wip.Prelude.Outcome.{
  Action, Result, ok, err, bad_request, not_found, conflict, forbidden, unprocessable, type_error,
  pure, gets, or_throw, lift, throw_if, modify, throw, ◌>>=◌, ◌>>◌,
}
use Names.{EncryptedName, Ciphers, is_invalid_name, decrypt_name, same_encrypted, same_text}
use Store.{
  Uuid, Folder, User, Store as FolderStore, Handler, unique_violation, is_key, is_at, has_id,
  is_live, is_root_folder, is_owned_by, find_by_id, find_by_folder_uuid, find_existing,
  find_of_user, find_kept_of_user, find_by_name_and_parent_uuid, has_clash, update_by_folder_id,
  create_with_attributes, encrypt_name,
}

-- The owner of the folders of a guest in a shared workspace is the host.
unfoldable pub owner_of_folders : User → Handler User
owner_of_folders creator = do
  found ← gets (λ s. find_one (λ u. str_eq u.username creator.bridge_user) s.users)
  or_throw (if str_eq creator.email creator.bridge_user then some creator else found) type_error

abbrev pub new_folder : User → EncryptedName → String → Folder → ℕ → Uuid → Folder
new_folder user name plain_name parent id uuid = record {
  id = id;
  uuid = uuid;
  parent_id = some parent.id;
  parent_uuid = some parent.uuid;
  name = name;
  plain_name = some plain_name;
  bucket = none;
  user_id = user.id;
  deleted = false;
  removed = false;
}

-- `findOne({ parentUuid, plainName, deleted: false })`
abbrev pub find_name_in_use : Uuid → String → FolderStore → Option Folder
find_name_in_use parent plain_name s =
    find_one
      (λ f.
        is_key f.parent_uuid parent && same_text f.plain_name (some plain_name) && not f.deleted)
      s.folders

-- `findOne({ name, parentUuid, deleted: false, removed: false })`
abbrev pub find_same_encrypted : EncryptedName → Option Uuid → FolderStore → Option Folder
find_same_encrypted name parent s =
    find_one (λ f. same_encrypted f.name name && is_at f.parent_uuid parent && is_live f) s.folders

-- `findByParentUuid(parentUuid, { plainName: names, deleted: false, removed: false })`
abbrev pub is_named : List String → Folder → Bool
is_named [] f = false
is_named (n ∷ ns) f = same_text f.plain_name (some n) || is_named ns f

abbrev pub is_empty : List String → Bool
is_empty [] = true
is_empty (n ∷ ns) = false

abbrev pub find_by_parent_uuid : Uuid → List String → FolderStore → List Folder
find_by_parent_uuid parent names s =
    find_all (λ f. is_key f.parent_uuid parent && is_live f && (is_empty names || is_named names f))
      s.folders

abbrev pub is_nonempty : List Folder → Bool
is_nonempty [] = false
is_nonempty (f ∷ fs) = true

abbrev pub is_among : String → List String → Bool
is_among n [] = false
is_among n (m ∷ ms) = str_eq m n || is_among n ms

-- `new Set(names).size !== names.length`
abbrev pub has_duplicates : List String → Bool
has_duplicates [] = false
has_duplicates (n ∷ ns) = is_among n ns || has_duplicates ns

abbrev pub has_invalid_name : List String → Bool
has_invalid_name [] = false
has_invalid_name (n ∷ ns) = is_invalid_name n || has_invalid_name ns

-- Rows of one insertion that break the unique index, beside those of the table or among themselves.
abbrev pub any_clash : List Folder → List Folder → Bool
any_clash [] fs = false
any_clash (r ∷ rs) fs = has_clash r fs || any_clash rs (create r fs)

-- `bulkCreate`
unfoldable pub bulk_create : List Folder → Handler (List Folder)
bulk_create rows = do
  is_taken ← gets (λ s. any_clash rows s.folders)
  throw_if is_taken unique_violation
  modify (λ s. record s { folders = s.folders ++ rows })
  pure rows

-- The identifiers of a new row
unfoldable pub new_identifiers : Handler (ℕ × Uuid)
new_identifiers s =
    (ok (s.next_id, s.next_uuid), record s { next_id = suc s.next_id; next_uuid = suc s.next_uuid })

-- `folder?.isRemoved()`
abbrev pub is_removed : Option Folder → Bool
is_removed none = false
is_removed (some f) = f.removed

-- What a move says of a folder of the name in the destination.
abbrev pub refuse_existing : Folder → Option Folder → Result (Unit {0})
refuse_existing folder none = ok tt
refuse_existing folder (some exists) =
    if exists.uuid == folder.uuid
    then err (conflict "Folder was already moved to that location")
    else err (conflict "A folder with the same name already exists in destination folder")

-- `getFolderByUuid`, by the identifier of the user
unfoldable pub get_folder_by_uuid : Uuid → ℕ → Handler Folder
get_folder_by_uuid folder_uuid user_id = do
  found ← gets (find_existing folder_uuid)
  folder ← or_throw found (not_found "Not Found")
  throw_if (not (folder.user_id == user_id)) (forbidden "Forbidden")
  pure folder

-- The checks of a move, which give the folder and the folder that it goes to.
unfoldable pub check_move : User → Uuid → Uuid → Handler (Folder × Folder)
check_move user folder_uuid destination_uuid = do
  found ← gets (find_by_folder_uuid folder_uuid)
  folder ← or_throw found (not_found "Folder does not exist")
  throw_if (not (is_owned_by folder user)) (forbidden "Forbidden")
  throw_if (is_root_folder folder) (unprocessable "The root folder can not be moved")
  throw_if folder.removed (unprocessable "Folder can not be moved")
  parent_folder ← gets (λ s. find_one (λ f. is_key folder.parent_id f.id) s.folders)
  throw_if (is_removed parent_folder) (unprocessable "Folder can not be moved")
  destination ← get_folder_by_uuid destination_uuid user.id
  throw_if destination.removed (unprocessable "Folder can not be moved to destination")
  pure (folder, destination)

module _ (ciphers : Ciphers) where
  unfoldable pub create_folder : User → Uuid → String → Handler Folder
  create_folder creator parent_folder_uuid plain_name = do
    user ← owner_of_folders creator
    found ← gets (find_of_user parent_folder_uuid user.id)
    parent ← or_throw found (not_found "Parent folder does not exist")
    throw_if (is_invalid_name plain_name) (bad_request "Invalid folder name")
    name_already_in_use ← gets (λ s. is_some (find_name_in_use parent.uuid plain_name s))
    throw_if name_already_in_use
        (conflict "Folder with the same name already exists in this location")
    encrypted_folder_name ← encrypt_name ciphers plain_name (some parent.id)
    create_with_attributes (new_folder user encrypted_folder_name plain_name parent)

  unfoldable pub make_rows : User → Folder → List String → Handler (List Folder)
  make_rows user parent [] = pure []
  make_rows user parent (n ∷ ns) = do
    name ← encrypt_name ciphers n (some parent.id)
    identifiers ← new_identifiers
    rest ← make_rows user parent ns
    pure (new_folder user name n parent identifiers.0 identifiers.1 ∷ rest)

  unfoldable pub create_bulk_folders : User → Uuid → List String → Handler (List Folder)
  create_bulk_folders user parent_folder_uuid plain_names = do
    found ← gets (find_kept_of_user parent_folder_uuid user.id)
    parent ← or_throw found (not_found "Parent folder does not exist")
    throw_if (has_invalid_name plain_names) (bad_request "Invalid folder name")
    throw_if (has_duplicates plain_names) (conflict "Duplicate folder names in request")
    existing ← gets (λ s. is_nonempty (find_by_parent_uuid parent.uuid plain_names s))
    throw_if existing (conflict "Folders already exist")
    rows ← make_rows user parent plain_names
    bulk_create rows

  unfoldable pub rename_folder : Folder → String → Handler Folder
  rename_folder folder new_name = do
    throw_if (is_invalid_name new_name) (bad_request "Invalid folder name")
    new_encrypted_name ← encrypt_name ciphers new_name folder.parent_id
    exists ← gets (λ s.
        is_some
          (find_by_name_and_parent_uuid new_encrypted_name (some new_name) folder.parent_uuid s))
    throw_if exists (conflict "A folder with the same name already exists in this location")
    update_by_folder_id folder.id
        (λ f. record f { name = new_encrypted_name; plain_name = some new_name })

  unfoldable pub update_folder_meta_data : User → Uuid → String → Handler Folder
  update_folder_meta_data user folder_uuid plain_name = do
    found ← gets (find_by_folder_uuid folder_uuid)
    folder ← or_throw found (not_found "Folder not found")
    throw_if folder.removed (unprocessable "Cannot update this folder metadata")
    throw_if (not (is_owned_by folder user)) (forbidden "This folder is not yours")
    crypto_file_name ← encrypt_name ciphers plain_name folder.parent_id
    exists ← gets (λ s. is_some (find_same_encrypted crypto_file_name folder.parent_uuid s))
    throw_if exists (conflict "A folder with this name already exists in this location")
    update_by_folder_id folder.id
        (λ f. record f { name = crypto_file_name; plain_name = some plain_name })

  -- `newName ?? decryptName(...)`
  abbrev pub name_after_move : Option String → Folder → Option String
  name_after_move (some new_name) folder = some new_name
  name_after_move none folder = decrypt_name ciphers folder.name folder.parent_id

  abbrev pub is_invalid_new_name : Option String → Bool
  is_invalid_new_name none = false
  is_invalid_new_name (some name) = is_invalid_name name

  abbrev pub set_location : Folder → EncryptedName → String → Folder → Folder
  set_location destination name plain_name f = record f {
    parent_id = some destination.id;
    parent_uuid = some destination.uuid;
    name = name;
    plain_name = some plain_name;
    deleted = false;
  }

  unfoldable pub move_folder : User → Uuid → Uuid → Option String → Handler Folder
  move_folder user folder_uuid destination_uuid new_name = do
    throw_if (is_invalid_new_name new_name) (bad_request "Invalid folder name")
    (folder, destination) ← check_move user folder_uuid destination_uuid
    plain_name ← or_throw (name_after_move new_name folder) type_error
    name_encrypted_with_destination ← encrypt_name ciphers plain_name (some destination.id)
    exists ← gets (
        find_by_name_and_parent_uuid name_encrypted_with_destination (some plain_name)
          (some destination.uuid))
    lift (refuse_existing folder exists)
    update_by_folder_id folder.id
        (set_location destination name_encrypted_with_destination plain_name)
