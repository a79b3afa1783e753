-- ===== src/Folders/Move.antt =====
-- What a folder is after `moveFolder`.
use drive_server_wip.Prelude.{ℕ, ◌≡◌, refl, sym, ap, String, false, Option, none, some, arith}
use drive_server_wip.Prelude.Table.{update}
use drive_server_wip.Prelude.Outcome.{ok}
use drive_server_wip.Prelude.Outcome.Steps.{
  bind-then, gets-then, or_throw-then, throw_if-then, lift-then, modify-then, returns-then,
  value-of_eq, state-of_eq,
}
use drive_server_wip.Folders.Names.{EncryptedName, Ciphers}
use drive_server_wip.Folders.Store.{
  Uuid, Folder, User, Store, has_id, find_by_id, find_by_folder_uuid, find_existing,
  find_by_name_and_parent_uuid, has_clash, is_owned_by, is_root_folder, update_by_folder_id,
  encrypt_name, with_folders,
}
use drive_server_wip.Folders.{
  check_move, get_folder_by_uuid, move_folder, name_after_move, set_location, refuse_existing,
}

-- An update that returns, in terms of the row that it found.
pub update_by_folder_id-then :
    (id : ℕ) (set : Folder → Folder) (s : Store) {r : Folder} {s' : Store}
    → update_by_folder_id id set s ≡ (ok r, s')
    → (f : Folder) × (find_by_id id s ≡ some f)
      × (has_clash (set f) s.folders ≡ false)
      × (r ≡ set f)
      × (s' ≡ with_folders (update (has_id id) set s.folders) s)
unfolding update_by_folder_id
update_by_folder_id-then id set s e = gets-then _ _ e λ e. or_throw-then _ _ _ e λ f found e.
    gets-then _ _ e λ e.
      throw_if-then _ _ _ e
        λ free e. modify-then _ _ e λ e. (f, found, free, sym (value-of_eq e), sym (state-of_eq e))

get_folder_by_uuid-then :
    (uuid : Uuid) (user_id : ℕ) (s : Store) {r : Folder} {s' : Store}
    → get_folder_by_uuid uuid user_id s ≡ (ok r, s')
    → (find_existing uuid s ≡ some r) × (r.user_id ≡ user_id) × (s' ≡ s)
unfolding get_folder_by_uuid
get_folder_by_uuid-then uuid user_id s e = gets-then _ _ e λ e. or_throw-then _ _ _ e λ f found e.
    throw_if-then _ _ _ e
      λ owned e. rw (← (value-of_eq e)) (found, ground arith, sym (state-of_eq e))

-- What the checks of a move have seen.
pub record IsMovable (user : User) (u d : Uuid) (s : Store) (folder destination : Folder)
    : Type 0 where
  pub found : find_by_folder_uuid u s ≡ some folder
  pub owned : folder.user_id ≡ user.id
  pub has_parent : is_root_folder folder ≡ false
  pub kept : folder.removed ≡ false
  pub to : find_existing d s ≡ some destination
  pub to_owned : destination.user_id ≡ user.id

check_move-then :
    (user : User) (u d : Uuid) (s : Store) {r : Folder × Folder} {s' : Store}
    → check_move user u d s ≡ (ok r, s')
    → IsMovable user u d s r.0 r.1 × (s' ≡ s)
unfolding check_move is_owned_by
check_move-then user u d s {r} e = gets-then _ _ e λ e. or_throw-then _ _ _ e λ folder found e.
    throw_if-then _ _ _ e λ owned e. throw_if-then _ _ _ e λ has_parent e.
      throw_if-then _ _ _ e λ kept e. gets-then _ _ e λ e. throw_if-then _ _ _ e λ parent_kept e.
        bind-then _ _ e λ destination s1 done e. throw_if-then _ _ _ e λ to_kept e.
          let (to, to_owned, same) = get_folder_by_uuid-then d user.id s done in
          rw (← (value-of_eq e), ← (state-of_eq e))
            (
              record {
                found = found;
                owned = ground arith;
                has_parent = has_parent;
                kept = kept;
                to = to;
                to_owned = to_owned;
              },
              same,
            )

abbrev pub encrypted : Ciphers → String → Option ℕ → Store → EncryptedName
encrypted ciphers text salt s = record {
  random = s.random;
  payload = ciphers.seal s.random salt text;
}

-- A move that returns, in terms of what it read.
pub record IsMoved (ciphers : Ciphers) (new_name : Option String) (s s' : Store)
    (r folder destination : Folder) : Type 0 where
  pub plain_name : String
  pub named : name_after_move ciphers new_name folder ≡ some plain_name
  pub free :
      find_by_name_and_parent_uuid
        (encrypted ciphers plain_name (some destination.id) s)
        (some plain_name)
        (some destination.uuid)
        s
      ≡ none
  pub row : Folder
  pub is_row : find_by_id folder.id s ≡ some row
  pub result :
      r
      ≡ set_location ciphers destination
          (encrypted ciphers plain_name (some destination.id) s)
          plain_name
          row
  pub rows :
      s'.folders
      ≡ update
          (has_id folder.id)
          (set_location ciphers destination
            (encrypted ciphers plain_name (some destination.id) s)
            plain_name)
          s.folders

pub refuse_existing-ok :
    (folder : Folder) (exists : Option Folder) {u : Unit {0}}
    → refuse_existing folder exists ≡ ok u
    → exists ≡ none
refuse_existing-ok folder none e = refl
refuse_existing-ok folder (some f) e = ground arith

pub move_folder-then :
    (ciphers : Ciphers) (user : User) (u d : Uuid) (new_name : Option String) (s : Store)
    {r : Folder} {s' : Store}
    → move_folder ciphers user u d new_name s ≡ (ok r, s')
    → (folder destination : Folder) × IsMovable user u d s folder destination
      × IsMoved ciphers new_name s s' r folder destination
unfolding move_folder encrypt_name
move_folder-then ciphers user u d new_name s e = throw_if-then _ _ _ e λ valid e.
    bind-then _ _ e λ pair s1 checked e.
      let (movable, same) = check_move-then user u d s checked in
      let e = rw same at e in
      or_throw-then _ _ _ e λ plain_name named e. returns-then _ _ refl e λ e. gets-then _ _ e λ e.
        lift-then _ _ e λ t free e.
          let (row, is_row, unclashed, result, after) = update_by_folder_id-then _ _ _ e in
          (
            pair.0,
            pair.1,
            movable,
            record {
              plain_name = plain_name;
              named = named;
              free = refuse_existing-ok pair.0 _ free;
              row = row;
              is_row = is_row;
              result = result;
              rows = ap (λ z. z.folders) after;
            },
          )
