-- ===== src/Files/Names/Unnamed.antt =====
-- Files whose name is only kept encrypted.
use drive_server_wip.Prelude.{◌≡◌, refl, ap, ◌∙◌, String, Option, none, some}
use drive_server_wip.Prelude.Outcome.{ok, Action, zoom}
use drive_server_wip.Prelude.Outcome.Steps.{
  bind-then, gets-then, known-then, throw_if-then, lift-then, returns-then, value-of_eq,
}
use drive_server_wip.Limits.Store.{User}
use drive_server_wip.Limits.Upload.{CacheManager}
use drive_server_wip.Folders.Names.{Ciphers, is_blank, decrypt_name}
use drive_server_wip.Limits.{or_else}
use drive_server_wip.Folders.Store.{Uuid, Folder, encrypt_name}
use drive_server_wip.Files.Store.{File, find_file}
use drive_server_wip.Files.Drive.{DriveState, set_plain_name, to_domain}
use drive_server_wip.Files.Handlers.{encrypted_name, change_place, move_file}

module _ (cache_manager : CacheManager)
    (expire_user_usage : Uuid → Action cache_manager.Cache (Unit {0})) (ciphers : Ciphers) where
  change_place-then :
      (user : User) (file : File) (destination : Folder) (plain_name : String)
      (type : Option String) (s : DriveState cache_manager.Cache) {r : File}
      {s' : DriveState cache_manager.Cache}
      → change_place cache_manager expire_user_usage ciphers user file destination plain_name type s
        ≡ (ok r, s')
      → (r.plain_name ≡ some plain_name)
        × (r.name.payload ≡ ciphers.seal r.name.random (some r.folder_id) plain_name)
  unfolding change_place encrypted_name encrypt_name zoom
  change_place-then user file destination plain_name type s e = throw_if-then _ _ _ e λ valid e.
      gets-then _ _ e λ e. lift-then _ _ e λ t free e.
        returns-then _ _ refl e
          λ e. bind-then _ _ e λ t s1 done e. rw (← (value-of_eq e)) (refl, refl)

  unnamed_name :
      (row : File) (o : Option String)
      → row.plain_name ≡ none
      → set_plain_name (or_else (to_domain row).plain_name o) ≡ ""
  unfolding to_domain set_plain_name is_blank
  unnamed_name row o unnamed = rw unnamed refl

  -- A file of the user that has only its encrypted name is moved, where a move without a new name
  -- returns, under an empty name, and the empty name is what is encrypted.
  pub move_file-unnamed :
      (user : User) (u d : Uuid) (type : Option String) (s : DriveState cache_manager.Cache)
      {row r : File} {s' : DriveState cache_manager.Cache}
      → find_file u user.id s.tables ≡ some row
      → row.plain_name ≡ none
      → move_file cache_manager expire_user_usage ciphers user u d none type s ≡ (ok r, s')
      → (r.plain_name ≡ some "")
        × (r.name.payload ≡ ciphers.seal r.name.random (some r.folder_id) "")
  unfolding move_file to_domain decrypt_name
  move_file-unnamed user u d type s {row} {r} found unnamed e = gets-then _ _ e λ e.
      known-then _ _ _ found e λ e. throw_if-then _ _ _ e λ kept e.
        bind-then _ _ e λ destination s1 there e. throw_if-then _ _ _ e λ to_kept e.
          let (named, sealed) = change_place-then user _ destination _ _ s1 e in
          let empty =
            unnamed_name row (decrypt_name ciphers row.name (some row.folder_id)) unnamed in
          (named ∙ ap some empty, sealed ∙ ap (ciphers.seal r.name.random (some r.folder_id)) empty)
