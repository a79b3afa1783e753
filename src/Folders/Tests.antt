-- ===== src/Folders/Tests.antt =====
-- A drive with the folders "a" and, below it, "b" and "c".
use drive_server_wip.Prelude.{
  ℕ, ◌≡◌, ◌≢◌, refl, false, Option, none, some, List, [], ◌∷◌, ◌++◌, map, arith, String, ◌⊎◌,
}
use drive_server_wip.Prelude.Outcome.{Exception, ok, err, conflict, ◌>>=◌}
use drive_server_wip.Folders.Names.{
  Ciphers, is_invalid_name, is_blank, is_space, has_slash, decrypt_name,
}
use drive_server_wip.Folders.Store.{
  Folder, User, Store, unique_violation, find_kept_of_user, is_owned_by, is_root_folder,
  update_by_folder_id, encrypt_name,
}
use drive_server_wip.Folders.{
  get_folder_by_uuid, check_move, create_folder, make_rows, bulk_create, new_identifiers,
  create_bulk_folders, rename_folder, move_folder, update_folder_meta_data,
}
use drive_server_wip.Folders.Tree.{
  IsBelow, IsRooted, HasUniqueIds, move_folder-loops, move_folder-IsRooted,
}
use drive_server_wip.Folders.Conflicts.{folder_names-checked, update_folder_meta_data-unnoticed}
use drive_server_wip.Folders.Orphans.{
  Reply, number, undefined, IsIn, IsAnchored, count_orphans, clear_orphans_folders,
  delete_orphans_folders, delete_orphans_folders-ends,
}
use drive_server_wip.Folders.Bulk.Rows.{IsRowsOf}
use drive_server_wip.Folders.Bulk.{create_bulk_folders-all}

-- A toy cipher, whose ciphertexts do not hold the text.
abbrev ciphers : Ciphers
ciphers = record {
  seal = λ random salt text. random;
  open_with_salt = λ name salt. none;
  open_deterministic = λ name salt. none;
  open_probabilistic = λ name. none;
}

abbrev alice : User
alice = record {
  id = 1;
  username = "alice@example.org";
  email = "alice@example.org";
  bridge_user = "alice@example.org";
  root_folder_id = 1;
}

abbrev folder : ℕ → Option ℕ → String → Folder
folder id parent name = record {
  id = id;
  uuid = id;
  parent_id = parent;
  parent_uuid = parent;
  name = record { random = id; payload = id };
  plain_name = some name;
  bucket = none;
  user_id = 1;
  deleted = false;
  removed = false;
}

abbrev drive : Folder
drive = folder 1 none "drive"

abbrev folder_a : Folder
folder_a = folder 2 (some 1) "a"

abbrev folder_b : Folder
folder_b = folder 3 (some 2) "b"

abbrev folder_c : Folder
folder_c = folder 4 (some 2) "c"

abbrev store : Store
store = record {
  folders = drive ∷ folder_a ∷ folder_b ∷ folder_c ∷ [];
  users = alice ∷ [];
  next_id = 5;
  next_uuid = 5;
  random = 7;
}

store-HasUniqueIds : HasUniqueIds store.folders
store-HasUniqueIds id = ground arith

-- The folder "a" is moved to "b", which is below it.
abbrev moved_down : Store
moved_down = (move_folder ciphers alice 2 3 (some "a") store).1

moved_down_row : Folder
moved_down_row = record folder_a {
  name = record { random = 7; payload = 7 };
  parent_id = some 3;
  parent_uuid = some 3;
}

moves_down : move_folder ciphers alice 2 3 (some "a") store ≡ (ok moved_down_row, moved_down)
unfolding moved_down_row move_folder check_move get_folder_by_uuid is_owned_by is_root_folder
    update_by_folder_id encrypt_name is_invalid_name is_blank is_space has_slash decrypt_name ◌>>=◌
moves_down = refl

move_folder-loops_example : ¬ IsRooted moved_down.folders 2
move_folder-loops_example =
    move_folder-loops ciphers alice 2 3 (some "a") store store-HasUniqueIds moves_down
      (IsBelow.up {f = folder_b} {p = 2} refl refl (IsBelow.self refl))

-- The folder "b" is moved to the drive.
abbrev moved_up : Store
moved_up = (move_folder ciphers alice 3 1 (some "b2") store).1

moved_up_row : Folder
moved_up_row = record folder_b {
  name = record { random = 7; payload = 7 };
  plain_name = some "b2";
  parent_id = some 1;
  parent_uuid = some 1;
}

moves_up : move_folder ciphers alice 3 1 (some "b2") store ≡ (ok moved_up_row, moved_up)
unfolding moved_up_row move_folder check_move get_folder_by_uuid is_owned_by is_root_folder
    update_by_folder_id encrypt_name is_invalid_name is_blank is_space has_slash decrypt_name ◌>>=◌
moves_up = refl

drive_not_below : IsBelow store.folders 3 1 → ⊥
drive_not_below (IsBelow.self e) = absurd (ground arith)
drive_not_below (IsBelow.up found parent below) = absurd (ground arith)

move_folder-IsRooted_example : IsRooted moved_up.folders 4
move_folder-IsRooted_example =
    move_folder-IsRooted ciphers alice 3 1 (some "b2") store store-HasUniqueIds moves_up
      drive_not_below (IsRooted.root {f = drive} refl refl) 4
      (IsRooted.child {f = folder_c} {p = 2} refl refl
        (IsRooted.child {f = folder_a} {p = 1} refl refl (IsRooted.root {f = drive} refl refl)))

folder_names-checked_example :
    ((create_folder ciphers alice 2 "b" store).0 ≢ err unique_violation)
    × ((rename_folder ciphers folder_b "b" store).0 ≢ err unique_violation)
    × ((move_folder ciphers alice 2 3 (some "a") store).0 ≢ err unique_violation)
folder_names-checked_example =
    folder_names-checked ciphers alice 2 3 "b" (some "a") folder_b store refl

-- The folder "b" is given the name of "c" by the update of its data.
update_folder_meta_data-unnoticed_example :
    update_folder_meta_data ciphers alice 3 "c" store
    ≡ (err unique_violation, record store { random = 8 })
update_folder_meta_data-unnoticed_example =
    update_folder_meta_data-unnoticed ciphers alice 3 "c" store {folder = folder_b} refl refl refl
      refl refl refl

create_bulk_folders-all_example :
    ((x : Exception) × (s' : Store) × (create_bulk_folders ciphers alice 2 ("d" ∷ "e" ∷ []) store
        ≡ (err x, s'))
      × (x ≢ unique_violation)
      × (s' ≡ store))
    ⊎ ((parent : Folder) × (rows : List Folder) × (s' : Store) × (create_bulk_folders ciphers alice
            2
            ("d" ∷ "e" ∷ [])
            store
          ≡ (ok rows, s'))
        × (find_kept_of_user 2 1 store ≡ some parent)
        × IsRowsOf parent.uuid ("d" ∷ "e" ∷ []) rows
        × (s'.folders ≡ store.folders ++ rows))
create_bulk_folders-all_example = create_bulk_folders-all ciphers alice 2 ("d" ∷ "e" ∷ []) store

-- The two folders are created, and a name that exists is refused.
bulk_created :
    map {B = Option String}
      (λ f. f.plain_name)
      (create_bulk_folders ciphers alice 2 ("d" ∷ "e" ∷ []) store).1.folders
    ≡ some "drive" ∷ some "a" ∷ some "b" ∷ some "c" ∷ some "d" ∷ some "e" ∷ []
unfolding create_bulk_folders make_rows bulk_create new_identifiers encrypt_name is_invalid_name
    is_blank is_space has_slash ◌>>=◌
bulk_created = refl

bulk_refused :
    (create_bulk_folders ciphers alice 2 ("d" ∷ "c" ∷ []) store).0
    ≡ err (conflict "Folders already exist")
unfolding create_bulk_folders make_rows bulk_create new_identifiers encrypt_name is_invalid_name
    is_blank is_space has_slash ◌>>=◌
bulk_refused = refl

-- The folder "c" is below "b", whose parent is gone; two rounds delete them.
abbrev orphaned : Store
orphaned = record store {
  folders = drive ∷ folder 3 (some 9) "b" ∷ folder 4 (some 3) "c" ∷ folder 5 (some 1) "d" ∷ [];
}

delete_orphans_folders-ends_example :
    (reply : Reply) × (s' : Store) × (delete_orphans_folders 5 1 orphaned ≡ (ok reply, s'))
    × ((reply ≡ number 0) ⊎ (reply ≡ undefined))
    × (count_orphans 1 s'.folders ≡ 0)
    × ((f : Folder) → IsAnchored 1 orphaned.folders f → IsIn f s'.folders)
delete_orphans_folders-ends_example = delete_orphans_folders-ends 5 1 orphaned (omega arith)

orphans_deleted :
    delete_orphans_folders 5 1 orphaned
    ≡ (ok undefined, record store { folders = drive ∷ folder 5 (some 1) "d" ∷ [] })
unfolding delete_orphans_folders clear_orphans_folders ◌>>=◌
orphans_deleted = refl
