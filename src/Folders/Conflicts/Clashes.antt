-- ===== src/Folders/Conflicts/Clashes.antt =====
-- Rows that break the unique index of the table, and writes of rows that do not.
use drive_server_wip.Prelude.{
  ℕ, ◌≡◌, refl, String, Bool, true, false, Option, none, some, List, arith, is_some,
}
use drive_server_wip.Prelude.Table.{find_one, update}
use drive_server_wip.Prelude.Outcome.{Exception, err, pure, throw_if, modify, ◌>>=◌, ◌>>◌}
use drive_server_wip.Folders.Names.{EncryptedName, same_text}
use drive_server_wip.Folders.Store.{
  Uuid, Folder, Store, unique_violation, is_key, same_key, is_at, is_clash, has_clash, find_by_id,
  has_id, find_by_name_and_parent_uuid, update_by_folder_id, create_with_attributes, with_folders,
}
use drive_server_wip.Folders.{find_name_in_use}
use drive_server_wip.Folders.Move.{encrypted}
use drive_server_wip.Folders.Conflicts.Failures.{
  IsOther, gets-failed, or_throw-failed, find_one-stronger,
}

-- A row is inserted where nothing clashes with it.
pub create_with_attributes-clean :
    (make : ℕ → Uuid → Folder) (s : Store) {s' : Store} {x : Exception}
    → has_clash (make s.next_id s.next_uuid) s.folders ≡ false
    → create_with_attributes make s ≡ (err x, s')
    → IsOther x
unfolding create_with_attributes ◌>>=◌
create_with_attributes-clean make s free e = absurd (cc (rw free at e))

-- The last steps of an update, where nothing clashes.
driver-silent :
    (c : Bool) (g : Store → Store) (f : Folder) (s : Store) {s' : Store} {x : Exception}
    → c ≡ false
    → (throw_if c unique_violation >> (modify g >> pure f)) s ≡ (err x, s')
    → ⊥
unfolding ◌>>=◌
driver-silent true g f s free e = cc
driver-silent false g f s free e = cc

pub update_by_folder_id-clean :
    (id : ℕ) (set : Folder → Folder) (s : Store) {s' : Store} {x : Exception}
    → ((f : Folder) → find_by_id id s ≡ some f → has_clash (set f) s.folders ≡ false)
    → update_by_folder_id id set s ≡ (err x, s')
    → IsOther x
unfolding update_by_folder_id
update_by_folder_id-clean id set s free e = gets-failed _ _ e λ e.
    or_throw-failed _ _ _ tt e λ f found e. gets-failed _ _ e λ e. absurd (
      driver-silent (has_clash (set f) s.folders)
        (λ s. with_folders (update (has_id id) set s.folders) s) (set f) s (free f found) e)

-- A folder of a name in a place where the name is free clashes with nothing.
pub clash-free :
    (p : Folder → Bool) (new : Folder) (fs : List Folder)
    → ((f : Folder) → is_clash new f ≡ true → p f ≡ true)
    → find_one p fs ≡ none
    → has_clash new fs ≡ false
clash-free p new fs stronger none_p =
    rw (find_one-stronger p (is_clash new) fs stronger none_p) refl

pub is_some-none : {A : Type 0} (o : Option A) → is_some o ≡ false → o ≡ none
is_some-none none e = refl
is_some-none (some a) e = cc

-- What a clash says of the other row.
clash-of :
    (new f : Folder)
    → is_clash new f ≡ true
    → (same_key f.parent_uuid new.parent_uuid ≡ true)
      × (same_text f.plain_name new.plain_name ≡ true)
      × (f.deleted ≡ false)
clash-of new f e = ground arith

pub same_key-is_key : (a : Option ℕ) (b : ℕ) → same_key a (some b) ≡ true → is_key a b ≡ true
same_key-is_key none b e = absurd (cc)
same_key-is_key (some a) b e = ground arith

same_key-is_at : (a b : Option ℕ) → same_key a b ≡ true → is_at a b ≡ true
same_key-is_at none b e = absurd (cc)
same_key-is_at (some a) none e = absurd (cc)
same_key-is_at (some a) (some b) e = ground arith

-- The place and the name of a row that is about to be written are free.
pub name_in_use-free :
    (new : Folder) (parent : Uuid) (n : String) (s : Store)
    → new.parent_uuid ≡ some parent
    → new.plain_name ≡ some n
    → find_name_in_use parent n s ≡ none
    → has_clash new s.folders ≡ false
name_in_use-free new parent n s place name free =
    clash-free _ new s.folders
      (λ f e.
        let (key, text, live) = clash-of new f e in
        let here = same_key-is_key f.parent_uuid parent (rw (← place) key) in
        let named : same_text f.plain_name (some n) ≡ true = rw (← name) text in
        rw (here, named, live) refl)
      free

pub same_name-free :
    (new : Folder) (encrypted : EncryptedName) (parent : Option Uuid) (n : String) (s : Store)
    → new.parent_uuid ≡ parent
    → new.plain_name ≡ some n
    → find_by_name_and_parent_uuid encrypted (some n) parent s ≡ none
    → has_clash new s.folders ≡ false
same_name-free new encrypted parent n s place name free =
    clash-free _ new s.folders
      (λ f e.
        let (key, text, live) = clash-of new f e in
        let here : is_at f.parent_uuid parent ≡ true =
          same_key-is_at f.parent_uuid parent (rw (← place) key) in
        let named : same_text f.plain_name (some n) ≡ true = rw (← name) text in
        rw (here, named, live) (ground arith))
      free
