-- ===== src/Folders/Conflicts.antt =====
-- What the checks on names leave to the unique index of the table.
pub mod Failures
pub mod Clashes
use text.Mathlib.Text.{◌==◌ as str_eq}
use text.Mathlib.TextEquality.{eq_iff}
use drive_server_wip.Prelude.{
  ℕ, suc, ◌≡◌, ◌≢◌, refl, sym, ap, ◌∙◌, String, Bool, true, false, ◌&&◌, ◌||◌, not, Option, none,
  some, List, [], ◌∷◌, ◌++◌, ◌==◌, arith, inl, inr, Option-cases, Bool-cases, is_some,
  if◌then◌else◌,
}
use drive_server_wip.Prelude.Table.{find_one, find_all, create, update}
use drive_server_wip.Prelude.Outcome.{
  Exception, Result, ok, err, Action, pure, gets, or_throw, lift, throw_if, modify, not_found,
  conflict, bad_request, internal_error, forbidden, unprocessable, type_error, ◌>>=◌, ◌>>◌,
}
use drive_server_wip.Prelude.Outcome.Steps.{
  gets-run, known-run, passed-run, bind-of_ok, bind-of_err,
}
use drive_server_wip.Prelude.Outcome.Atomic.{bind-err, returns-err}
use drive_server_wip.Folders.Names.{Ciphers, EncryptedName, same_text, same_encrypted}
use drive_server_wip.Folders.Store.{
  Uuid, Folder, User, Store, Handler, unique_violation, is_key, same_key, is_at, is_live, is_clash,
  has_clash, find_by_id, has_id, find_by_folder_uuid, find_of_user, find_by_name_and_parent_uuid,
  is_same_name, update_by_folder_id, create_with_attributes, encrypt_name, with_folders,
  is_owned_by,
}
use drive_server_wip.Folders.{
  owner_of_folders, new_folder, find_name_in_use, find_same_encrypted, create_folder, rename_folder,
  move_folder, check_move, get_folder_by_uuid, refuse_existing, update_folder_meta_data,
  set_location,
}
use drive_server_wip.Folders.Move.{encrypted, refuse_existing-ok}
use Failures.{
  IsOther, IsClean, clean-then, IsClean-gets, IsClean-pure, IsClean-or_throw, IsClean-throw_if,
  IsClean-bind, gets-failed, or_throw-failed, throw_if-failed, lift-failed, find_one-stronger,
}
use Clashes.{
  create_with_attributes-clean, update_by_folder_id-clean, is_some-none, name_in_use-free,
  same_name-free,
}

owner_of_folders-IsClean : (creator : User) → IsClean (owner_of_folders creator)
unfolding owner_of_folders
owner_of_folders-IsClean creator =
    IsClean-bind _ _ (IsClean-gets _) λ found. IsClean-or_throw _ _ tt

create_folder-IsClean :
    (ciphers : Ciphers) (creator : User) (p : Uuid) (n : String)
    → IsClean (create_folder ciphers creator p n)
unfolding create_folder encrypt_name
create_folder-IsClean ciphers creator p n = record {
  never = λ s x s' e. clean-then _ _ (owner_of_folders-IsClean creator) e λ user s1 owner e.
      gets-failed _ _ e λ e. or_throw-failed _ _ _ tt e λ parent found e.
        throw_if-failed _ _ _ tt e λ valid e. gets-failed _ _ e λ e.
          throw_if-failed _ _ _ tt e λ free e. returns-err _ _ refl e λ e.
            create_with_attributes-clean
              (new_folder user (encrypted ciphers n (some parent.id) s1) n parent) _
              (name_in_use-free
                (new_folder user (encrypted ciphers n (some parent.id) s1) n parent s1.next_id
                  s1.next_uuid)
                parent.uuid n s1 refl refl (is_some-none _ free))
              e;
}

err_of : {A : Type 0} {y x : Exception} → ◌≡◌ {A = Result A} (err y) (err x) → y ≡ x
err_of e = ground arith

outcome : {A : Type 0} {o : Result A × Store} {x : Exception} → o.0 ≡ err x → o ≡ (err x, o.1)
outcome {o = o} e = ap (λ r. (r, o.1)) e

same_parent :
    {o : Option Folder} {f folder : Folder}
    → o ≡ some f
    → o ≡ some folder
    → f.parent_uuid ≡ folder.parent_uuid
same_parent found stored = ground arith

rename_folder-clean :
    (ciphers : Ciphers) (folder : Folder) (n : String) (s : Store) {x : Exception} {s' : Store}
    → find_by_id folder.id s ≡ some folder
    → rename_folder ciphers folder n s ≡ (err x, s')
    → IsOther x
unfolding rename_folder encrypt_name
rename_folder-clean ciphers folder n s stored e = throw_if-failed _ _ _ tt e λ valid e.
    returns-err _ _ refl e λ e. gets-failed _ _ e λ e. throw_if-failed _ _ _ tt e λ free e.
      update_by_folder_id-clean folder.id
        (λ f. record f { name = encrypted ciphers n folder.parent_id s; plain_name = some n }) _
        (λ f found.
          same_name-free
            (record f { name = encrypted ciphers n folder.parent_id s; plain_name = some n })
            (encrypted ciphers n folder.parent_id s) folder.parent_uuid n s
            (same_parent found stored) refl (is_some-none _ free))
        e

check_move-IsClean : (user : User) (u d : Uuid) → IsClean (check_move user u d)
unfolding check_move get_folder_by_uuid
check_move-IsClean user u d = IsClean-bind _ _ (IsClean-gets _) λ found.
    IsClean-bind _ _ (IsClean-or_throw _ _ tt) λ folder.
      IsClean-bind _ _ (IsClean-throw_if _ _ tt) λ t.
        IsClean-bind _ _ (IsClean-throw_if _ _ tt) λ t.
          IsClean-bind _ _ (IsClean-throw_if _ _ tt) λ t.
            IsClean-bind _ _ (IsClean-gets _) λ parent.
              IsClean-bind _ _ (IsClean-throw_if _ _ tt) λ t.
                IsClean-bind _ _
                  (IsClean-bind _ _ (IsClean-gets _) λ o.
                    IsClean-bind _ _ (IsClean-or_throw _ _ tt)
                      λ g. IsClean-bind _ _ (IsClean-throw_if _ _ tt) λ t. IsClean-pure g)
                  λ destination.
                    IsClean-bind _ _ (IsClean-throw_if _ _ tt)
                      λ t. IsClean-pure (folder, destination)

refuse_existing-IsOther :
    (folder : Folder) (o : Option Folder) (y : Exception)
    → refuse_existing folder o ≡ err y
    → IsOther y
refuse_existing-IsOther folder none y e = absurd (cc)
refuse_existing-IsOther folder (some f) y e = elim (Bool-cases (f.uuid == folder.uuid)) [
  | inl same ↦ rw (← (err_of (rw same at e))) tt
  | inr differ ↦ rw (← (err_of (rw differ at e))) tt
]

move_folder-IsClean :
    (ciphers : Ciphers) (user : User) (u d : Uuid) (n : Option String)
    → IsClean (move_folder ciphers user u d n)
unfolding move_folder encrypt_name
move_folder-IsClean ciphers user u d n = record {
  never = λ s x s' e. throw_if-failed _ _ _ tt e λ valid e.
      clean-then _ _ (check_move-IsClean user u d) e λ pair s1 checked e.
        or_throw-failed _ _ _ tt e λ plain_name named e. returns-err _ _ refl e λ e.
          gets-failed _ _ e λ e. lift-failed _ _ (refuse_existing-IsOther pair.0 _) e λ free e.
            update_by_folder_id-clean pair.0.id
              (set_location ciphers pair.1 (encrypted ciphers plain_name (some pair.1.id) s1)
                plain_name)
              _
              (λ f found.
                same_name-free
                  (set_location ciphers pair.1 (encrypted ciphers plain_name (some pair.1.id) s1)
                    plain_name f)
                  (encrypted ciphers plain_name (some pair.1.id) s1) (some pair.1.uuid) plain_name
                  s1 refl refl (refuse_existing-ok pair.0 _ free))
              e;
}

-- If no other request writes between the checks of a request and its write, neither the creation, nor
-- the renaming of a stored folder, nor the move of a folder ends with the driver's error for the unique
-- index: the checks find every name that is taken.
pub folder_names-checked :
    (ciphers : Ciphers) (user : User) (u d : Uuid) (n : String) (to : Option String)
    (folder : Folder) (s : Store)
    → find_by_id folder.id s ≡ some folder
    → ((create_folder ciphers user u n s).0 ≢ err unique_violation)
      × ((rename_folder ciphers folder n s).0 ≢ err unique_violation)
      × ((move_folder ciphers user u d to s).0 ≢ err unique_violation)
folder_names-checked ciphers user u d n to folder s stored = (
  λ e.
      (create_folder-IsClean ciphers user u n).never s unique_violation
        (create_folder ciphers user u n s).1 (outcome e),
  λ e.
      rename_folder-clean ciphers folder n s {s' = (rename_folder ciphers folder n s).1} stored
        (outcome e),
  λ e.
      (move_folder-IsClean ciphers user u d to).never s unique_violation
        (move_folder ciphers user u d to s).1 (outcome e),
)

-- If the random bytes are new, and the folder is the user's, and its new name is that of another one
-- in its place, the request for the new name gets the driver's error and never the conflict that the
-- code has for it, since two encryptions of a name are never equal.
pub update_folder_meta_data-unnoticed :
    (ciphers : Ciphers) (user : User) (u : Uuid) (n : String) (s : Store) {folder : Folder}
    → find_by_folder_uuid u s ≡ some folder
    → find_by_id folder.id s ≡ some folder
    → folder.removed ≡ false
    → folder.user_id ≡ user.id
    → find_one (λ f. f.name.random == s.random) s.folders ≡ none
    → has_clash (record folder { plain_name = some n }) s.folders ≡ true
    → update_folder_meta_data ciphers user u n s
      ≡ (err unique_violation, record s { random = suc s.random })
unfolding update_folder_meta_data encrypt_name is_owned_by update_by_folder_id
update_folder_meta_data-unnoticed ciphers user u n s {folder} found stored kept owned fresh taken =
    let s1 = record s { random = suc s.random } in
    let name = encrypted ciphers n folder.parent_id s in
    let unseen =
      find_one-stronger (λ f. f.name.random == s.random)
        (λ f. same_encrypted f.name name && is_at f.parent_uuid folder.parent_uuid && is_live f)
        s.folders (λ f e. ground arith) fresh in
    gets-run (find_by_folder_uuid u) _ s
    ∙ known-run (find_by_folder_uuid u s) _ _ s found
    ∙ passed-run folder.removed _ _ s kept
    ∙ passed-run (not (folder.user_id == user.id)) _ _ s (ground arith)
    ∙ bind-of_ok (encrypt_name ciphers n folder.parent_id) _ {s = s} refl
    ∙ gets-run _ _ s1
    ∙ passed-run (is_some (find_same_encrypted name folder.parent_uuid s1)) _ _ s1 (rw unseen refl)
    ∙ gets-run (find_by_id folder.id) _ s1
    ∙ known-run (find_by_id folder.id s1) _ _ s1 stored
    ∙ gets-run _ _ s1
    ∙ bind-of_err
        (throw_if (has_clash (record folder { name = name; plain_name = some n }) s.folders)
          unique_violation)
        _ {s = s1} (rw taken refl)
