-- ===== src/Files/Names/Kept.antt =====
-- Creating, renaming and moving a file keeps the names in a folder apart.
use drive_server_wip.Prelude.{
  ℕ, ◌≤◌, ◌≡◌, refl, ap, ◌∙◌, String, Bool, true, ◌&&◌, Option, none, some, List, ◌==◌, arith,
}
use drive_server_wip.Prelude.Table.{find_one, count, find_one-passes, find_one-other}
use drive_server_wip.Prelude.Outcome.{ok, Action}
use drive_server_wip.Limits.Store.{User}
use drive_server_wip.Limits.Upload.{CacheManager}
use drive_server_wip.Folders.Names.{Ciphers, EncryptedName}
use drive_server_wip.Folders.Store.{Uuid, Folder}
use drive_server_wip.Files.Status.{is_status_exists}
use drive_server_wip.Files.Store.{File, is_file_of}
use drive_server_wip.Files.Drive.{
  WorkspaceOptions, CreateFile, DriveState, files_of, to_domain, updated, create_row,
  update_by_uuid_and_user_id,
}
use drive_server_wip.Files.Handlers.{
  set_names, set_place, new_file, change_names, change_place, refuse_existing_file, create_file,
  update_file_meta_data, move_file,
}
use drive_server_wip.Files.Names.{
  HasUniqueNames, is_named_as, create-HasUniqueNames, update-HasUniqueNames,
}
use drive_server_wip.Files.Names.Quiet.{
  IsQuiet-pure, IsQuiet-bind, IsQuiet-zoom_cache, IsQuiet-zoom_folders, IsQuiet-catch,
  encrypted_name-IsQuiet, check_size_limits-IsQuiet, encrypted_if_given-IsQuiet,
}
use drive_server_wip.Files.Names.Steps.{
  Kept, quiet-Kept, gets-Kept, or_throw-Kept, lift-Kept, then-Kept, modify-Kept, throw_if-Kept,
  is_some-none,
}

create_row-Kept :
    {C : Type 0} (make : Uuid → ℕ → File) (s : DriveState C)
    → HasUniqueNames (files_of s)
    → find_one (is_named_as (make s.tables.next_id s.tables.now)) (files_of s) ≡ none
    → Kept (create_row make s)
unfolding create_row
create_row-Kept make s unique free = gets-Kept _ _ s (
    gets-Kept _ _ s (
      throw_if-Kept _ _ _ s unique λ unclashed.
        modify-Kept _ _ s (record { unique = create-HasUniqueNames _ (files_of s) unique free })))

update-Kept :
    {C : Type 0} (uuid : Uuid) (user_id : ℕ) (set : File → File) (s : DriveState C) (file : File)
    → HasUniqueNames (files_of s)
    → count (is_file_of uuid user_id) (files_of s) ≤ 1
    → find_one (is_file_of uuid user_id) (files_of s) ≡ some file
    → find_one (is_named_as (set file)) (files_of s) ≡ none
    → Kept (update_by_uuid_and_user_id uuid user_id set s)
unfolding update_by_uuid_and_user_id
update-Kept uuid user_id set s file unique once found free = gets-Kept _ _ s (
    throw_if-Kept _ _ _ s unique λ unclashed. record {
      unique =
          update-HasUniqueNames (is_file_of uuid user_id) (updated set s.tables.now) file
            (files_of s) unique once found free;
    })

-- The row that was found is the one that a write changes.
found_as :
    (uuid : Uuid) (user_id : ℕ) (file : File) {fs gs : List File}
    → gs ≡ fs
    → file.uuid ≡ uuid
    → find_one (is_file_of uuid user_id) fs ≡ some file
    → find_one (is_file_of file.uuid user_id) gs ≡ some file
found_as uuid user_id file {fs} {gs} same same_uuid found =
    ap (λ v. find_one (is_file_of v user_id) gs) same_uuid
    ∙ ap (find_one (is_file_of uuid user_id)) same
    ∙ found

refuse_existing_file-ok :
    (uuid : Uuid) (o : Option File) {u : Unit {0}} → refuse_existing_file uuid o ≡ ok u → o ≡ none
refuse_existing_file-ok uuid none e = refl
refuse_existing_file-ok uuid (some f) e = ground arith

module _ (cache_manager : CacheManager)
    (expire_user_usage : Uuid → Action cache_manager.Cache (Unit {0})) (ciphers : Ciphers) where
  abbrev State : Type 0
  State = DriveState cache_manager.Cache

  create_file-Kept :
      (user : User) (dto : CreateFile) (is_free : Bool) (options : Option WorkspaceOptions)
      (s : State)
      → HasUniqueNames (files_of s)
      → Kept (create_file cache_manager expire_user_usage ciphers user dto is_free options s)
  unfolding create_file
  create_file-Kept user dto is_free options s unique = gets-Kept _ _ s (
      gets-Kept _ _ s (
        or_throw-Kept _ _ _ s unique λ folder found. throw_if-Kept _ _ _ s unique λ owned.
          quiet-Kept _ _ s
            (encrypted_name-IsQuiet cache_manager expire_user_usage ciphers dto.plain_name
              folder.id)
            unique
            λ name s1 same. gets-Kept _ _ s1 (
              throw_if-Kept _ _ _ s1 (rw same unique) λ free.
                quiet-Kept _ _ s1
                  (check_size_limits-IsQuiet cache_manager expire_user_usage ciphers user dto.size
                    options)
                  (rw same unique)
                  λ t s2 same2.
                    then-Kept _ _ s2
                      (create_row-Kept (new_file user dto folder name) s2 (rw (same2, same) unique)
                        (rw same2 (is_some-none _ free)))
                      λ file. IsQuiet-bind _ _ (IsQuiet-catch _ tt (IsQuiet-zoom_cache _)) λ t.
                        IsQuiet-bind _ _ (record { same = λ s. refl }) λ t. IsQuiet-pure file)))

  change_names-Kept :
      (user : User) (row : File) (name : EncryptedName) (plain_name : String) (type : Option String)
      (s : State)
      → HasUniqueNames (files_of s)
      → count (is_file_of row.uuid user.id) (files_of s) ≤ 1
      → find_one (is_file_of row.uuid user.id) (files_of s) ≡ some row
      → Kept (
          change_names cache_manager expire_user_usage ciphers user
            (to_domain row)
            name
            plain_name
            type
            s)
  unfolding change_names to_domain
  change_names-Kept user row name plain_name type s unique once found = gets-Kept _ _ s (
      throw_if-Kept _ _ _ s unique λ free. gets-Kept _ _ s (
        then-Kept _ _ s
          (update-Kept row.uuid user.id
            (set_names cache_manager expire_user_usage ciphers name plain_name type s.tables.now) s
            row unique once found (is_some-none _ free))
          λ t. IsQuiet-pure _))

  change_place-Kept :
      (user : User) (row : File) (destination : Folder) (plain_name : String) (type : Option String)
      (s : State)
      → HasUniqueNames (files_of s)
      → count (is_file_of row.uuid user.id) (files_of s) ≤ 1
      → find_one (is_file_of row.uuid user.id) (files_of s) ≡ some row
      → Kept (
          change_place cache_manager expire_user_usage ciphers user
            (to_domain row)
            destination
            plain_name
            type
            s)
  unfolding change_place to_domain
  change_place-Kept user row destination plain_name type s unique once found =
      throw_if-Kept _ _ _ s unique λ valid. gets-Kept _ _ s (
        lift-Kept _ _ s unique λ t free.
          quiet-Kept _ _ s
            (encrypted_name-IsQuiet cache_manager expire_user_usage ciphers plain_name
              destination.id)
            unique
            λ name s1 same.
              then-Kept _ _ s1
                (update-Kept row.uuid user.id
                  (set_place cache_manager expire_user_usage ciphers destination name plain_name
                    type)
                  s1 row (rw same unique) (rw same once) (rw same found)
                  (rw same (refuse_existing_file-ok row.uuid _ free)))
                λ t. IsQuiet-pure _)

  update_file_meta_data-Kept :
      (user : User) (u : Uuid) (name type : Option String) (s : State)
      → HasUniqueNames (files_of s)
      → count (is_file_of u user.id) (files_of s) ≤ 1
      → Kept (update_file_meta_data cache_manager expire_user_usage ciphers user u name type s)
  unfolding update_file_meta_data
  update_file_meta_data-Kept user u name type s unique once = throw_if-Kept _ _ _ s unique λ given.
      gets-Kept _ _ s (
        or_throw-Kept _ _ _ s unique λ file found. throw_if-Kept _ _ _ s unique λ owned.
          let p : File → Bool =
            λ f. f.uuid == u && is_status_exists f.status && f.user_id == user.id in
          let passes : p file ≡ true = find_one-passes p (files_of s) found in
          let here =
            find_one-other p (is_file_of u user.id) (files_of s) once found (ground arith) in
          let same_uuid : file.uuid ≡ u = ground arith in
          quiet-Kept _ _ s
            (encrypted_if_given-IsQuiet cache_manager expire_user_usage ciphers name file) unique
            λ encrypted s1 same.
              change_names-Kept user file encrypted _ _ s1 (rw same unique)
                (rw (same, same_uuid) once) (found_as u user.id file same same_uuid here))

  move_file-Kept :
      (user : User) (u d : Uuid) (name type : Option String) (s : State)
      → HasUniqueNames (files_of s)
      → count (is_file_of u user.id) (files_of s) ≤ 1
      → Kept (move_file cache_manager expire_user_usage ciphers user u d name type s)
  unfolding move_file
  move_file-Kept user u d name type s unique once = gets-Kept _ _ s (
      or_throw-Kept _ _ _ s unique λ file found. throw_if-Kept _ _ _ s unique λ kept.
        let passes : is_file_of u user.id file ≡ true =
          find_one-passes (is_file_of u user.id) (files_of s) found in
        let same_uuid : file.uuid ≡ u = ground arith in
        quiet-Kept _ _ s (IsQuiet-zoom_folders _) unique λ destination s1 same.
          throw_if-Kept _ _ _ s1 (rw same unique) λ to_kept.
            change_place-Kept user file destination _ _ s1 (rw same unique)
              (rw (same, same_uuid) once) (found_as u user.id file same same_uuid found))

  -- No two existing files of a user in a folder get the same name and type, where none have them, by the
  -- creation, the update or the move of a file, whether it returns or throws; files without a type count
  -- as having the same one. Of the file that is renamed or moved there is one row.
  pub file_names-kept :
      (user : User) (dto : CreateFile) (is_free : Bool) (options : Option WorkspaceOptions)
      (u d : Uuid) (name type : Option String) (s : State)
      → HasUniqueNames (files_of s)
      → count (is_file_of u user.id) (files_of s) ≤ 1
      → HasUniqueNames (
          files_of
            (create_file cache_manager expire_user_usage ciphers user dto is_free options s).1)
        × HasUniqueNames (
            files_of
              (update_file_meta_data cache_manager expire_user_usage ciphers user u name type s).1)
        × HasUniqueNames
            (files_of (move_file cache_manager expire_user_usage ciphers user u d name type s).1)
  file_names-kept user dto is_free options u d name type s unique once = (
    (create_file-Kept user dto is_free options s unique).unique,
    (update_file_meta_data-Kept user u name type s unique once).unique,
    (move_file-Kept user u d name type s unique once).unique,
  )
