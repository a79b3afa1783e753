-- ===== src/Files/Store.antt =====
-- Files and their versions: src/modules/file/file-version.domain.ts, and the queries of
-- file-version.repository.ts and file.repository.ts that the actions on versions use.
use drive_server_wip.Prelude.{
  ℕ, String, suc, ◌-◌, ◌*◌, Bool, true, false, not, ◌&&◌, Option, none, some, List, [], ◌∷◌, ◌==◌,
  leb, if◌then◌else◌, is_some,
}
use drive_server_wip.Prelude.Table.{find_one, find_all, update, destroy, create}
use drive_server_wip.Prelude.Outcome.{
  ok, err, Action, internal_error, gets, throw_if, modify, ◌>>=◌, ◌>>◌,
}
use drive_server_wip.Limits.Store.{Uuid, LimitStore, is_in}
use drive_server_wip.Folders.Names.{EncryptedName}
use drive_server_wip.Files.Status.{FileStatus}

pub data FileVersionStatus : Type 0 where
  exists deleted : FileVersionStatus

abbrev pub is_existing : FileVersionStatus → Bool
is_existing exists = true
is_existing deleted = false

-- An empty file has no file on the network; the table refuses a version without one.
pub record FileVersion : Type 0 where
  pub id : Uuid
  pub file_id : Uuid
  pub user_id : Uuid
  pub network_file_id : Option Uuid
  pub size : ℕ
  pub status : FileVersionStatus
  pub modification_time : ℕ
  pub created_at : ℕ

pub record File : Type 0 where
  pub uuid : Uuid
  pub user_id : ℕ
  pub file_id : Option Uuid
  pub size : ℕ
  pub updated_at : ℕ
  pub modification_time : ℕ
  pub folder_id : ℕ
  pub folder_uuid : Uuid
  pub name : EncryptedName
  pub plain_name : Option String
  pub type : Option String
  pub status : FileStatus
  pub removed : Bool

-- Times are milliseconds.
pub record Store : Type 0 where
  pub files : List File
  pub versions : List FileVersion
  pub limits : LimitStore
  pub next_id : ℕ
  pub now : ℕ

-- The columns of a new version
pub record CreateFileVersionData : Type 0 where
  pub file_id : Uuid
  pub user_id : Uuid
  pub network_file_id : Option Uuid
  pub size : ℕ
  pub modification_time : ℕ

abbrev pub is_version_of : Uuid → FileVersion → Bool
is_version_of file v = v.file_id == file && is_existing v.status

abbrev pub has_version_id : Uuid → FileVersion → Bool
has_version_id id v = v.id == id

abbrev pub has_any_id : List Uuid → FileVersion → Bool
has_any_id ids v = is_in (λ id. v.id == id) ids

abbrev pub is_file_of : Uuid → ℕ → File → Bool
is_file_of uuid user_id f = f.uuid == uuid && f.user_id == user_id

-- A stable sort by the time of creation, the newest first.
abbrev pub insert_newest : FileVersion → List FileVersion → List FileVersion
insert_newest v [] = v ∷ []
insert_newest v (w ∷ ws) =
    let rest = insert_newest v ws in if leb w.created_at v.created_at then v ∷ w ∷ ws else w ∷ rest

abbrev pub sort_newest : List FileVersion → List FileVersion
sort_newest [] = []
sort_newest (v ∷ vs) = insert_newest v (sort_newest vs)

abbrev pub days_ago : ℕ → Store → ℕ
days_ago days s = s.now - days * 86400000

-- `findAllByFileId`
abbrev pub find_all_by_file_id : Uuid → Store → List FileVersion
find_all_by_file_id file s = sort_newest (find_all (is_version_of file) s.versions)

abbrev pub find_version : Uuid → Store → Option FileVersion
find_version id s = find_one (has_version_id id) s.versions

-- `findByUuid`
abbrev pub find_file : Uuid → ℕ → Store → Option File
find_file uuid user_id s = find_one (is_file_of uuid user_id) s.files

abbrev pub set_status : FileVersionStatus → FileVersion → FileVersion
set_status status v = record v { status = status }

abbrev pub update_status : Uuid → FileVersionStatus → Action Store (Unit {0})
update_status id status =
    modify λ s. record s { versions = update (has_version_id id) (set_status status) s.versions }

abbrev pub update_status_batch : List Uuid → FileVersionStatus → Action Store (Unit {0})
update_status_batch ids status =
    modify λ s. record s { versions = update (has_any_id ids) (set_status status) s.versions }

abbrev pub delete_version : Uuid → Action Store (Unit {0})
delete_version id = modify λ s. record s { versions = destroy (has_version_id id) s.versions }

-- Null is equal to nothing in an index.
abbrev pub is_same_network : Option Uuid → Option Uuid → Bool
is_same_network none b = false
is_same_network (some a) none = false
is_same_network (some a) (some b) = a == b

-- What the unique index on the file and its network file forbids.
abbrev pub is_same_content : CreateFileVersionData → FileVersion → Bool
is_same_content version v =
    v.file_id == version.file_id && is_same_network version.network_file_id v.network_file_id

abbrev pub new_version : CreateFileVersionData → Store → FileVersion
new_version version s = record {
  id = s.next_id;
  file_id = version.file_id;
  user_id = version.user_id;
  network_file_id = version.network_file_id;
  size = version.size;
  status = exists;
  modification_time = version.modification_time;
  created_at = s.now;
}

abbrev pub insert_version : CreateFileVersionData → Action Store (Unit {0})
insert_version version =
    modify λ s. record s {
      versions = create (new_version version s) s.versions;
      next_id = suc s.next_id;
    }

-- `create`: the column of the file on the network takes no null.
unfoldable pub create_version : CreateFileVersionData → Action Store (Unit {0})
create_version version = do
  throw_if (not (is_some version.network_file_id))
      (internal_error "null value in column network_file_id violates not-null constraint")
  is_taken ← gets (λ s. is_some (find_one (is_same_content version) s.versions))
  throw_if is_taken (internal_error "Validation error")
  insert_version version

abbrev pub set_content : Option Uuid → ℕ → ℕ → Option ℕ → File → File
set_content file_id size now none f = record f { file_id = file_id; size = size; updated_at = now }
set_content file_id size now (some time) f = record f {
  file_id = file_id;
  size = size;
  updated_at = now;
  modification_time = time;
}

-- `updateByUuidAndUserId` with a new content, which is updated now
abbrev pub update_content : Uuid → ℕ → Option Uuid → ℕ → Option ℕ → Action Store (Unit {0})
update_content uuid user_id file_id size modification_time = modify λ s. record s {
  files =
      update (is_file_of uuid user_id) (set_content file_id size s.now modification_time) s.files;
}

-- `Promise.all` of two writes: both are made, and the first error is thrown.
unfoldable pub all_of : Action Store (Unit {0}) → Action Store (Unit {0}) → Action Store (Unit {0})
all_of m k s =
    let (r, s1) = m s in let (q, s2) = k s1 in elim r [ ok u ↦ (q, s2) | err e ↦ (err e, s2) ]
