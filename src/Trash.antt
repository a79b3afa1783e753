-- ===== src/Trash.antt =====
-- src/modules/trash: the trash of a user is emptied, and items are deleted from it.
pub mod Emptying
pub mod Chunks
pub mod Expiration
mod Tests
use drive_server_wip.Prelude.{
  ℕ, zero, suc, ◌+◌, Bool, true, false, ◌&&◌, ◌||◌, not, Option, none, some, List, [], ◌∷◌, ◌==◌,
  ltb, if◌then◌else◌, length, take, drop, any,
}
use drive_server_wip.Prelude.Table.{create, update, count}
use drive_server_wip.Prelude.Table.Batches.{process_batches, update_batch}
use drive_server_wip.Prelude.Table.Times.{update_batch_at}
use drive_server_wip.Prelude.Outcome.{Action, Result, ok, pure, gets, modify, ◌>>=◌, ◌>>◌}
use drive_server_wip.Files.Status.{exists, trashed, deleted, is_status_trashed}
use drive_server_wip.Files.Store.{File}
use drive_server_wip.Folders.Store.{Uuid, Folder, User}

pub record TrashEmptyRequestedEvent : Type 0 where
  pub user : User
  pub trashed_files_number : ℕ
  pub trashed_folders_number : ℕ

-- `emitted` are the events, in their order, and `now` is the clock, which goes on with each write to the
-- files.
pub record Drive : Type 0 where
  pub files : List File
  pub folders : List Folder
  pub emitted : List TrashEmptyRequestedEvent
  pub now : ℕ

abbrev pub with_files : List File → Drive → Drive
with_files files s = record s { files = files; now = suc s.now }

-- What a write to the files leaves.
abbrev pub beside_files : Drive → List Folder × List TrashEmptyRequestedEvent
beside_files s = (s.folders, s.emitted)

abbrev pub with_drive_folders : List Folder → Drive → Drive
with_drive_folders folders s = record s { folders = folders }

-- The rows in the trash of a user
abbrev pub is_trashed_file : ℕ → File → Bool
is_trashed_file user_id f = f.user_id == user_id && is_status_trashed f.status

abbrev pub is_trashed_folder : ℕ → Folder → Bool
is_trashed_folder user_id f = f.user_id == user_id && f.deleted && not f.removed

-- `NOW()` is the time of the statement.
abbrev pub set_file_deleted : ℕ → File → File
set_file_deleted now f = record f { status = deleted; updated_at = now }

abbrev pub set_folder_removed : Folder → Folder
set_folder_removed f = record f { removed = true }

abbrev pub get_trash_files_count : ℕ → Drive → ℕ
get_trash_files_count user_id s = count (is_trashed_file user_id) s.files

abbrev pub get_trash_folders_count : ℕ → Drive → ℕ
get_trash_folders_count user_id s = count (is_trashed_folder user_id) s.folders

-- They return how many rows they changed.
abbrev pub delete_user_trashed_files_batch : ℕ → ℕ → Action Drive ℕ
delete_user_trashed_files_batch user_id limit =
    update_batch_at (λ s. s.files) with_files (λ s. s.now) (is_trashed_file user_id)
      set_file_deleted limit

abbrev pub delete_trashed_folders_batch : ℕ → ℕ → Action Drive ℕ
delete_trashed_folders_batch user_id limit =
    update_batch (λ s. s.folders) with_drive_folders (is_trashed_folder user_id) set_folder_removed
      limit

-- `chunkSize ?? 100`
abbrev pub chunk_size_of : Option ℕ → ℕ
chunk_size_of none = 100
chunk_size_of (some n) = n

-- The two loops write to different tables; they run one after the other here. The answer is whether the
-- fuel was enough for both.
unfoldable pub perform_trash_deletion : ℕ → User → ℕ → ℕ → Option ℕ → Action Drive Bool
perform_trash_deletion fuel trash_owner files_count folders_count chunk_size = do
  folders_done ←
      process_batches (delete_trashed_folders_batch trash_owner.id (chunk_size_of chunk_size)) fuel
        folders_count 0
  files_done ←
      process_batches (delete_user_trashed_files_batch trash_owner.id (chunk_size_of chunk_size))
        fuel files_count 0
  pure (folders_done && files_done)

pub data EmptyTrashStatus : Type 0 where
  processing completed no_fuel : EmptyTrashStatus

abbrev pub status_of : Bool → EmptyTrashStatus
status_of true = completed
status_of false = no_fuel

abbrev pub emit : TrashEmptyRequestedEvent → Drive → Drive
emit event s = record s { emitted = create event s.emitted }

abbrev pub request_of : User → Drive → TrashEmptyRequestedEvent
request_of user s = record {
  user = user;
  trashed_files_number = get_trash_files_count user.id s;
  trashed_folders_number = get_trash_folders_count user.id s;
}

unfoldable pub empty_counted : ℕ → TrashEmptyRequestedEvent → Action Drive EmptyTrashStatus
empty_counted fuel counted =
    let request = modify (emit counted) >> pure processing in
    let delete =
      perform_trash_deletion fuel counted.user counted.trashed_files_number
        counted.trashed_folders_number (some 100)
      >>= λ done. pure (status_of done) in
    if ltb 10000 (counted.trashed_files_number + counted.trashed_folders_number)
    then request
    else delete

unfoldable pub empty_trash : ℕ → User → Action Drive EmptyTrashStatus
empty_trash fuel trash_owner = do
  counted ← gets (request_of trash_owner)
  empty_counted fuel counted

-- What an attempt at the lock of a user comes to.
pub data LockAttempt : Type 0 where
  acquired held unavailable : LockAttempt

abbrev pub may_proceed : LockAttempt → Bool
may_proceed acquired = true
may_proceed held = false
may_proceed unavailable = true

unfoldable pub handle_empty_trash_requested :
    ℕ → LockAttempt → TrashEmptyRequestedEvent → Action Drive Bool
handle_empty_trash_requested fuel lock event =
    let delete =
      perform_trash_deletion fuel event.user event.trashed_files_number event.trashed_folders_number
        (some 1000) in
    if may_proceed lock then delete else pure true

-- `deleteByUser` of files and of folders
abbrev pub is_file_among : List File → File → Bool
is_file_among files f = any (λ g. f.uuid == g.uuid) files

abbrev pub is_folder_among : List Folder → Folder → Bool
is_folder_among folders f = any (λ g. f.id == g.id) folders

abbrev pub remove_file : ℕ → File → File
remove_file now f = record f { removed = true; status = deleted; updated_at = now }

abbrev pub remove_folder : Folder → Folder
remove_folder f = record f { removed = true; deleted = true }

unfoldable pub delete_files_by_user : ℕ → List File → Action Drive (Unit {0})
delete_files_by_user user_id files = modify (λ s.
    with_files
      (update (λ f. f.user_id == user_id && is_file_among files f) (remove_file s.now) s.files) s)

unfoldable pub delete_folders_by_user : ℕ → List Folder → Action Drive (Unit {0})
delete_folders_by_user user_id folders = modify (λ s.
    with_drive_folders
      (update (λ f. f.user_id == user_id && is_folder_among folders f) remove_folder s.folders) s)

-- `for (let i = 0; i < items.length; i += size)`, by the items that are left; the answer says whether
-- the fuel was enough.
module _ {A : Type 0} (size : ℕ) (call : List A → Action Drive (Unit {0})) where
  unfoldable pub in_chunks : ℕ → List A → Action Drive Bool
  in_chunks fuel [] = pure true
  in_chunks zero (x ∷ xs) = pure false
  in_chunks (suc fuel) (x ∷ xs) = call (take size (x ∷ xs)) >> in_chunks fuel (drop size (x ∷ xs))

-- The loops have as much fuel as there are items.
unfoldable pub delete_items : User → List File → List Folder → Action Drive Bool
delete_items user files folders = do
  files_done ← in_chunks 10 (delete_files_by_user user.id) (length files) files
  folders_done ← in_chunks 10 (delete_folders_by_user user.id) (length folders) folders
  pure (files_done && folders_done)
