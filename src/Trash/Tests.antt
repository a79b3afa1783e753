-- ===== src/Trash/Tests.antt =====
-- A drive with two files and a folder in the trash.
use drive_server_wip.Prelude.{
  ℕ, ◌+◌, ◌≤◌, ◌<◌, ◌≡◌, ◌↔◌, refl, Bool, true, false, ◌&&◌, ◌⊎◌, none, some, List, [], ◌∷◌, ◌==◌,
  arith,
}
use drive_server_wip.Prelude.Table.{update}
use drive_server_wip.Prelude.Table.Batches.{process_batches}
use drive_server_wip.Prelude.Table.Times.{Written}
use drive_server_wip.Prelude.Outcome.{ok, ◌>>=◌}
use drive_server_wip.Limits.Store.{
  User as LimitUser, Limit, LimitStore, counter, numeral, trash_retention_days,
}
use drive_server_wip.Folders.Store.{Folder, User}
use drive_server_wip.Files.Status.{FileStatus, exists, trashed, deleted}
use drive_server_wip.Files.Store.{File}
use drive_server_wip.Trash.{
  Drive, is_file_among, is_folder_among, remove_file, remove_folder, processing, completed,
  request_of, emit, empty_counted, perform_trash_deletion, get_trash_files_count,
  get_trash_folders_count, acquired, empty_trash, handle_empty_trash_requested, delete_items,
}
use drive_server_wip.Trash.Emptying.{IsEmptied, empty_trash-empties}
use drive_server_wip.Trash.Chunks.{delete_items-all}
use drive_server_wip.Trash.Expiration.{
  days, expires_at, is_not_expired, cutoff_date, get_trash_retention_days, is_cleaned_up,
  expires_at-exact, is_cleaned_up-early,
}

abbrev alice : User
alice = record {
  id = 1;
  username = "alice@example.org";
  email = "alice@example.org";
  bridge_user = "alice@example.org";
  root_folder_id = 1;
}

abbrev file : ℕ → ℕ → FileStatus → File
file uuid user_id status = record {
  uuid = uuid;
  user_id = user_id;
  file_id = some uuid;
  size = 1;
  updated_at = 0;
  modification_time = 0;
  folder_id = 1;
  folder_uuid = 1;
  name = record { random = uuid; payload = uuid };
  plain_name = none;
  type = none;
  status = status;
  removed = false;
}

abbrev folder : ℕ → Bool → Folder
folder id in_trash = record {
  id = id;
  uuid = id;
  parent_id = some 1;
  parent_uuid = some 1;
  name = record { random = id; payload = id };
  plain_name = none;
  bucket = none;
  user_id = 1;
  deleted = in_trash;
  removed = false;
}

abbrev drive : Drive
drive = record {
  files = file 1 1 trashed ∷ file 2 1 exists ∷ file 3 2 trashed ∷ file 4 1 trashed ∷ [];
  folders = folder 2 true ∷ folder 3 false ∷ [];
  emitted = [];
  now = 5;
}

empty_trash-empties_example :
    ((get_trash_files_count 1 drive + get_trash_folders_count 1 drive ≤ 10000)
      × (s' : Drive) × (empty_trash 3 alice drive ≡ (ok completed, s'))
      × IsEmptied 1 drive s')
    ⊎ ((10000 < get_trash_files_count 1 drive + get_trash_folders_count 1 drive)
        × (empty_trash 3 alice drive ≡ (ok processing, emit (request_of alice drive) drive))
        × (s' : Drive) × (handle_empty_trash_requested 3 acquired
              (request_of alice drive)
              (emit (request_of alice drive) drive)
            ≡ (ok true, s'))
        × IsEmptied 1 (emit (request_of alice drive) drive) s')
empty_trash-empties_example =
    empty_trash-empties 3 alice acquired drive (omega arith) (omega arith) refl

emptied-drive : empty_trash 3 alice drive ≡ (
  ok completed,
  record {
    files =
        record (file 1 1 deleted) { updated_at = 5 }
        ∷ file 2 1 exists
        ∷ file 3 2 trashed
        ∷ record (file 4 1 deleted) { updated_at = 5 }
        ∷ [];
    folders = record (folder 2 true) { removed = true } ∷ folder 3 false ∷ [];
    emitted = [];
    now = 6;
  },
)
unfolding empty_trash empty_counted perform_trash_deletion process_batches ◌>>=◌
emptied-drive = refl

abbrev among : List File
among = file 4 1 trashed ∷ file 3 2 trashed ∷ []

delete_items-all_example :
    (s' : Drive) × (delete_items alice among (folder 2 true ∷ []) drive ≡ (ok true, s'))
    × Written
        (λ f. f.user_id == 1 && is_file_among among f)
        remove_file
        drive.now
        s'.now
        drive.files
        s'.files
    × (s'.folders
        ≡ update
            (λ f. f.user_id == 1 && is_folder_among (folder 2 true ∷ []) f)
            remove_folder
            drive.folders)
    × (s'.emitted ≡ drive.emitted)
delete_items-all_example = delete_items-all alice among (folder 2 true ∷ []) drive

abbrev retention : ℕ → Limit
retention n = record { label = trash_retention_days; kind = counter; value = numeral n }

-- The tier 7 keeps items for 30 days; the user 1 for as long as the tier does, the user 2 for 60.
abbrev limits : LimitStore
limits = record {
  users = [];
  workspaces = [];
  tier_limits = record { tier_id = 7; limit = retention 30 } ∷ [];
  overridden = record { user_id = 2; limit = retention 60 } ∷ [];
}

abbrev bob : ℕ → LimitUser
bob uuid = record { uuid = uuid; id = uuid; tier_id = some 7 }

-- Thirty days from the 20th of March 2026
expires_at-exact_example :
    (expiration : ℕ) × (expires_at (get_trash_retention_days (bob 1) limits) 1773964800000
      ≡ some expiration)
    × ((is_not_expired
            (cutoff_date (get_trash_retention_days (bob 1) limits) 1776556800000)
            1773964800000
          ≡ true)
        ↔ (1776556800000 ≤ expiration))
    × ((is_cleaned_up (some 7) limits 1773964800000 1776556800000 ≡ true)
        ↔ (expiration ≤ 1776556800000))
expires_at-exact_example =
    expires_at-exact (bob 1) limits 30 1776556800000 1773964800000 refl refl (omega arith)

is_cleaned_up-early_example :
    (is_cleaned_up (some 7) limits 1773964800000 (1773964800000 + days 30) ≡ true)
    × (is_not_expired
          (cutoff_date (get_trash_retention_days (bob 2) limits) (1773964800000 + days 30))
          1773964800000
        ≡ true)
    × (expiration : ℕ) × (expires_at (get_trash_retention_days (bob 2) limits) 1773964800000
        ≡ some expiration)
    × (1773964800000 + days 30 < expiration)
is_cleaned_up-early_example =
    is_cleaned_up-early (bob 2) limits 30 60 1773964800000 refl refl refl (omega arith)
      (omega arith)
