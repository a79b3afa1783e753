-- ===== src/Folders/Store.antt =====
-- Folders: src/modules/folder/folder.domain.ts, and the queries and writes of folder.repository.ts.
use drive_server_wip.Prelude.{
  ℕ, suc, String, Bool, true, false, ◌&&◌, ◌||◌, not, Option, none, some, List, ◌==◌, is_some,
}
use drive_server_wip.Prelude.Table.{find_one, update, create}
use drive_server_wip.Prelude.Outcome.{
  Exception, ok, Action, not_found, internal_error, pure, gets, or_throw, throw_if, modify, ◌>>=◌,
  ◌>>◌,
}
use drive_server_wip.Folders.Names.{EncryptedName, Ciphers, same_encrypted, same_text}

-- Identifiers are only compared.
abbrev pub Uuid : Type 0
Uuid = ℕ

-- Without its time stamps. A folder without a parent is the root of a drive or of a device.
pub record Folder : Type 0 where
  pub id : ℕ
  pub uuid : Uuid
  pub parent_id : Option ℕ
  pub parent_uuid : Option Uuid
  pub name : EncryptedName
  pub plain_name : Option String
  pub bucket : Option ℕ
  pub user_id : ℕ
  pub deleted : Bool
  pub removed : Bool

pub record User : Type 0 where
  pub id : ℕ
  pub username : String
  pub email : String
  pub bridge_user : String
  pub root_folder_id : ℕ

-- `random` is what the next random bytes are.
pub record Store : Type 0 where
  pub folders : List Folder
  pub users : List User
  pub next_id : ℕ
  pub next_uuid : Uuid
  pub random : ℕ

abbrev pub Handler : Type 0 → Type 0
Handler A = Action Store A

-- What the driver throws when a write breaks a unique index.
abbrev pub unique_violation : Exception
unique_violation = internal_error "Validation error"

-- A column that is null is equal to nothing.
abbrev pub is_key : Option ℕ → ℕ → Bool
is_key none k = false
is_key (some a) k = a == k

abbrev pub same_key : Option ℕ → Option ℕ → Bool
same_key none b = false
same_key (some a) b = is_key b a

-- A condition on a column, where `null` stands for `IS NULL`.
abbrev pub is_at : Option ℕ → Option ℕ → Bool
is_at none none = true
is_at none (some b) = false
is_at (some a) none = false
is_at (some a) (some b) = a == b

abbrev pub has_id : ℕ → Folder → Bool
has_id id f = f.id == id

abbrev pub has_uuid : Uuid → Folder → Bool
has_uuid uuid f = f.uuid == uuid

abbrev pub is_live : Folder → Bool
is_live f = not f.deleted && not f.removed

abbrev pub is_child_of : Uuid → Folder → Bool
is_child_of parent f = is_key f.parent_uuid parent

-- `Folder` (folder.domain.ts)
unfoldable pub is_root_folder : Folder → Bool
is_root_folder f = not (is_some f.parent_id)

unfoldable pub is_owned_by : Folder → User → Bool
is_owned_by f user = f.user_id == user.id

unfoldable pub is_root : Folder → Bool
is_root f = is_some f.bucket && not (is_some f.parent_id)

-- Whether two buckets differ, where none may be null.
abbrev pub other_bucket : Option ℕ → Option ℕ → Bool
other_bucket none none = false
other_bucket none (some b) = true
other_bucket (some a) none = true
other_bucket (some a) (some b) = not (a == b)

unfoldable pub is_backup : Folder → Folder → Bool
unfolding is_root
is_backup f drive_root = is_root f && other_bucket drive_root.bucket f.bucket

-- Queries
abbrev pub find_by_id : ℕ → Store → Option Folder
find_by_id id s = find_one (has_id id) s.folders

abbrev pub find_by_folder_uuid : Uuid → Store → Option Folder
find_by_folder_uuid uuid s = find_one (has_uuid uuid) s.folders

-- `findByUuid(uuid, false)`
abbrev pub find_existing : Uuid → Store → Option Folder
find_existing uuid s = find_one (λ f. f.uuid == uuid && is_live f) s.folders

-- `findOne({ uuid, userId })` and `findOne({ uuid, userId, removed: false })`
abbrev pub find_of_user : Uuid → ℕ → Store → Option Folder
find_of_user uuid user_id s = find_one (λ f. f.uuid == uuid && f.user_id == user_id) s.folders

abbrev pub find_kept_of_user : Uuid → ℕ → Store → Option Folder
find_kept_of_user uuid user_id s =
    find_one (λ f. f.uuid == uuid && f.user_id == user_id && not f.removed) s.folders

abbrev pub is_same_name : EncryptedName → Option String → Folder → Bool
is_same_name name plain_name f = same_encrypted f.name name || same_text f.plain_name plain_name

-- `findByNameAndParentUuid(name, plainName, parentUuid, false)`
abbrev pub find_by_name_and_parent_uuid :
    EncryptedName → Option String → Option Uuid → Store → Option Folder
find_by_name_and_parent_uuid name plain_name parent s =
    find_one (λ f. is_same_name name plain_name f && is_at f.parent_uuid parent && not f.deleted)
      s.folders

-- What `folders_parentuuid_plainname_unique` forbids beside a row.
abbrev pub is_clash : Folder → Folder → Bool
is_clash new f =
    not (f.id == new.id)
    && same_key f.parent_uuid new.parent_uuid
    && same_text f.plain_name new.plain_name
    && is_live f
    && is_live new

abbrev pub has_clash : Folder → List Folder → Bool
has_clash new fs = is_some (find_one (is_clash new) fs)

-- Writes
abbrev pub with_folders : List Folder → Store → Store
with_folders fs s = record s { folders = fs }

-- `updateByFolderId`
unfoldable pub update_by_folder_id : ℕ → (Folder → Folder) → Handler Folder
update_by_folder_id id set = do
  found ← gets (find_by_id id)
  folder ← or_throw found (not_found "Folder with ID not found")
  is_taken ← gets (λ s. has_clash (set folder) s.folders)
  throw_if is_taken unique_violation
  modify (λ s. with_folders (update (has_id id) set s.folders) s)
  pure (set folder)

-- `createWithAttributes`
unfoldable pub create_with_attributes : (ℕ → Uuid → Folder) → Handler Folder
create_with_attributes make = do
  folder ← gets (λ s. make s.next_id s.next_uuid)
  is_taken ← gets (λ s. has_clash folder s.folders)
  throw_if is_taken unique_violation
  modify (λ s. record s {
    folders = create folder s.folders;
    next_id = suc s.next_id;
    next_uuid = suc s.next_uuid;
  })
  pure folder

module _ (ciphers : Ciphers) where
  -- `encryptName`
  unfoldable pub encrypt_name : String → Option ℕ → Handler EncryptedName
  encrypt_name text salt s = (
    ok (record { random = s.random; payload = ciphers.seal s.random salt text }),
    record s { random = suc s.random },
  )
