-- ===== src/Files/Names/Tests.antt =====
-- A folder with two files.
use drive_server_wip.Prelude.{ℕ, ◌≡◌, refl, String, false, Option, none, some, [], ◌∷◌, map, arith}
use drive_server_wip.Prelude.Outcome.{ok, err, conflict, catch, zoom, ◌>>=◌}
use drive_server_wip.Limits.Store.{User}
use drive_server_wip.Limits.Upload.{
  CacheManager, enforce_max_upload_file_size, check_tier_limit, check_found_limit,
}
use drive_server_wip.Folders.Names.{decrypt_name, Ciphers, is_blank, is_space}
use drive_server_wip.Folders.Store.{Folder, encrypt_name}
use drive_server_wip.Folders.{get_folder_by_uuid}
use drive_server_wip.Files.Status
use drive_server_wip.Files.Store.{File}
use drive_server_wip.Files.Drive.{
  CreateFile, DriveState, files_of, create_row, set_plain_name, set_type, to_domain,
  update_by_uuid_and_user_id,
}
use drive_server_wip.Files.Handlers.{
  is_filename_valid, is_deleted, encrypted_name, enforce_upload_size, check_size_limits,
  create_file, update_file_meta_data, change_place, move_file,
}
use drive_server_wip.Files.Names.{HasUniqueNames}
use drive_server_wip.Files.Names.Kept.{file_names-kept}
use drive_server_wip.Files.Names.Unnamed.{move_file-unnamed}

-- A cache that forgets, and a toy cipher.
abbrev no_cache : CacheManager
no_cache = record { Cache = Unit; get = λ c key. ok none; set = λ key value ttl c. (ok tt, c) }

abbrev ciphers : Ciphers
ciphers = record {
  seal = λ random salt text. random;
  open_with_salt = λ name salt. none;
  open_deterministic = λ name salt. none;
  open_probabilistic = λ name. none;
}

abbrev alice : User
alice = record { uuid = 10; id = 1; tier_id = none }

abbrev folder : ℕ → Folder
folder id = record {
  id = id;
  uuid = id;
  parent_id = some 9;
  parent_uuid = some 9;
  name = record { random = id; payload = id };
  plain_name = none;
  bucket = none;
  user_id = 1;
  deleted = false;
  removed = false;
}

abbrev file : ℕ → ℕ → String → Option String → File
file uuid folder_id name type = record {
  uuid = uuid;
  user_id = 1;
  file_id = some uuid;
  size = 1;
  updated_at = 0;
  modification_time = 0;
  folder_id = folder_id;
  folder_uuid = folder_id;
  name = record { random = uuid; payload = uuid };
  plain_name = some name;
  type = type;
  status = Status.exists;
  removed = false;
}

abbrev drive : DriveState (Unit {0})
drive = record {
  tables = record {
    files = file 1 7 "a" none ∷ file 2 8 "b" (some "txt") ∷ [];
    versions = [];
    limits = record { users = []; workspaces = []; tier_limits = []; overridden = [] };
    next_id = 3;
    now = 1000;
  };
  folders = record {
    folders = folder 7 ∷ folder 8 ∷ [];
    users = [];
    next_id = 9;
    next_uuid = 9;
    random = 4;
  };
  workspace_files = [];
  cache = tt;
  first_uploads = [];
}

abbrev new_a : CreateFile
new_a = record {
  folder_uuid = 8;
  plain_name = "a";
  type = none;
  size = 5;
  file_id = some 77;
  modification_time = none;
}

-- Two rows in different folders are never named alike.
drive-HasUniqueNames : HasUniqueNames (files_of drive)
drive-HasUniqueNames u n t d = ground arith

file_names-kept_example :
    HasUniqueNames (
      files_of (create_file no_cache (λ uuid c. (ok tt, c)) ciphers alice new_a false none drive).1)
    × HasUniqueNames (
        files_of
          (update_file_meta_data no_cache
            (λ uuid c. (ok tt, c))
            ciphers
            alice
            2
            (some "c")
            none
            drive).1)
    × HasUniqueNames (
        files_of
          (move_file no_cache (λ uuid c. (ok tt, c)) ciphers alice 2 7 (some "c") none drive).1)
file_names-kept_example =
    file_names-kept no_cache (λ uuid c. (ok tt, c)) ciphers alice new_a false none 2 7 (some "c")
      none drive drive-HasUniqueNames (ground arith)

-- The move of "b.txt" as a file "a" without a type is refused.
refused_move :
    (move_file no_cache (λ uuid c. (ok tt, c)) ciphers alice 2 7 (some "a") (some "") drive).0
    ≡ err (conflict "A file with the same name already exists in destination folder")
unfolding move_file is_deleted get_folder_by_uuid zoom set_plain_name set_type to_domain
    change_place is_filename_valid is_blank is_space ◌>>=◌
refused_move = refl

moved_as :
    map {B = Option String × ℕ}
      (λ f. (f.plain_name, f.folder_id))
      (files_of
        (move_file no_cache (λ uuid c. (ok tt, c)) ciphers alice 2 7 (some "c") none drive).1)
    ≡ (some "a", 7) ∷ (some "c", 7) ∷ []
unfolding move_file is_deleted get_folder_by_uuid zoom set_plain_name set_type to_domain
    change_place is_filename_valid is_blank is_space encrypted_name encrypt_name
    update_by_uuid_and_user_id ◌>>=◌
moved_as = refl

created :
    map {B = Option String × ℕ}
      (λ f. (f.plain_name, f.folder_id))
      (files_of
        (create_file no_cache (λ uuid c. (ok tt, c)) ciphers alice new_a false none drive).1)
    ≡ (some "a", 7) ∷ (some "b", 8) ∷ (some "a", 8) ∷ []
unfolding create_file zoom is_blank is_space encrypted_name encrypt_name check_size_limits
    enforce_upload_size enforce_max_upload_file_size check_tier_limit check_found_limit create_row
    to_domain catch ◌>>=◌
created = refl

-- The file "b.txt", had it only its encrypted name, goes to the folder of "a".
abbrev unnamed : DriveState (Unit {0})
unnamed = record drive {
  tables = record (drive.tables) {
    files = file 1 7 "a" none ∷ record (file 2 8 "b" (some "txt")) { plain_name = none } ∷ [];
  };
}

abbrev after_move : DriveState (Unit {0})
after_move = (move_file no_cache (λ uuid c. (ok tt, c)) ciphers alice 2 7 none none unnamed).1

moves : move_file no_cache (λ uuid c. (ok tt, c)) ciphers alice 2 7 none none unnamed ≡ (
  ok (record (file 2 7 "" (some "txt")) { name = record { random = 4; payload = 4 } }),
  after_move,
)
unfolding move_file is_deleted get_folder_by_uuid zoom set_plain_name set_type to_domain
    change_place is_filename_valid is_blank is_space encrypted_name encrypt_name
    update_by_uuid_and_user_id decrypt_name ◌>>=◌
moves = refl

move_file-unnamed_example :
    (◌≡◌ {A = Option String} (some "") (some "")) × (4 ≡ ciphers.seal 4 (some 7) "")
move_file-unnamed_example =
    move_file-unnamed no_cache (λ uuid c. (ok tt, c)) ciphers alice 2 7 none unnamed refl refl moves
