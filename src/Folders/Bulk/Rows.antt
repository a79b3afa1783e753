-- ===== src/Folders/Bulk/Rows.antt =====
-- The rows of folders that are created together.
use text.Mathlib.Text.{◌==◌ as str_eq}
use text.Mathlib.TextEquality.{eq_iff}
use drive_server_wip.Prelude.{
  ◌≡◌, refl, ap, ◌∙◌, String, Bool, true, false, ◌&&◌, ◌||◌, none, some, List, [], ◌∷◌, arith,
}
use drive_server_wip.Prelude.Table.{find_one, find_all, create}
use drive_server_wip.Prelude.Outcome.{ok}
use drive_server_wip.Prelude.Outcome.Steps.{bind-of_ok}
use drive_server_wip.Folders.Names.{Ciphers, same_text}
use drive_server_wip.Folders.Store.{
  Uuid, Folder, User, Store, is_key, same_key, is_live, is_clash, encrypt_name,
}
use drive_server_wip.Folders.{
  is_named, is_among, has_duplicates, is_nonempty, any_clash, new_identifiers, make_rows,
}
use drive_server_wip.Folders.Conflicts.Clashes.{clash-free, same_key-is_key}
use drive_server_wip.Folders.Conflicts.Failures.{find_one-stronger}

-- The rows of a request, in its order.
abbrev pub IsRowsOf : Uuid → List String → List Folder → Type 0
IsRowsOf parent [] [] = Unit
IsRowsOf parent [] (r ∷ rs) = ⊥
IsRowsOf parent (n ∷ ns) [] = ⊥
IsRowsOf parent (n ∷ ns) (r ∷ rs) =
    (r.parent_uuid ≡ some parent)
    × (r.plain_name ≡ some n)
    × (is_live r ≡ true)
    × IsRowsOf parent ns rs

-- A folder that exists in a place under one of several names.
abbrev pub is_taken : Uuid → List String → Folder → Bool
is_taken parent names f = is_key f.parent_uuid parent && is_live f && is_named names f

str_eq-sym : (a b : String) → str_eq a b ≡ str_eq b a
str_eq-sym a b = ground (arith, eq_iff a b, eq_iff b a)

is_named-among :
    (r : Folder) (n : String) (ms : List String)
    → r.plain_name ≡ some n
    → is_named ms r ≡ is_among n ms
is_named-among r n [] named = refl
is_named-among r n (m ∷ ms) named =
    ap (λ p. same_text p (some m) || is_named ms r) named
    ∙ ap (λ b. str_eq n m || b) (is_named-among r n ms named)
    ∙ ap (λ b. b || is_among n ms) (str_eq-sym n m)

find_one-create-none :
    {A : Type 0} (p : A → Bool) (x : A) (xs : List A)
    → find_one p xs ≡ none
    → p x ≡ false
    → find_one p (create x xs) ≡ none
find_one-create-none p x [] h px = rw px
find_one-create-none p x (y ∷ xs) h px = ground (arith, find_one-create-none p x xs)

clash-taken :
    (parent : Uuid) (n : String) (ns : List String) (r f : Folder)
    → r.parent_uuid ≡ some parent
    → r.plain_name ≡ some n
    → is_clash r f ≡ true
    → is_taken parent (n ∷ ns) f ≡ true
clash-taken parent n ns r f place named e =
    let key : same_key f.parent_uuid (some parent) ≡ true = rw (← place) (ground arith) in
    let text : same_text f.plain_name (some n) ≡ true = rw (← named) (ground arith) in
    let live : is_live f ≡ true = ground arith in
    rw (same_key-is_key f.parent_uuid parent key, live, text) refl

pub any_clash-free :
    (parent : Uuid) (ns : List String) (rows fs : List Folder)
    → IsRowsOf parent ns rows
    → has_duplicates ns ≡ false
    → find_one (is_taken parent ns) fs ≡ none
    → any_clash rows fs ≡ false
any_clash-free parent [] [] fs rows_of distinct free = refl
any_clash-free parent [] (r ∷ rs) fs rows_of distinct free = absurd rows_of
any_clash-free parent (n ∷ ns) [] fs rows_of distinct free = refl
any_clash-free parent (n ∷ ns) (r ∷ rs) fs (place, named, live, rows_of) distinct free =
    let alone =
      clash-free (is_taken parent (n ∷ ns)) r fs (λ f e. clash-taken parent n ns r f place named e)
        free in
    let others =
      find_one-stronger (is_taken parent (n ∷ ns)) (is_taken parent ns) fs (λ f e. ground arith)
        free in
    let apart : is_taken parent ns r ≡ false = rw (is_named-among r n ns named) (ground arith) in
    let rest =
      any_clash-free parent ns rs (create r fs) rows_of (ground arith)
        (find_one-create-none (is_taken parent ns) r fs others apart) in
    rw (alone, rest) refl

-- The rows are made without a write to the table.
pub make_rows-run :
    (ciphers : Ciphers) (user : User) (parent : Folder) (ns : List String) (s : Store)
    → (rows : List Folder) × (s1 : Store) × (make_rows ciphers user parent ns s ≡ (ok rows, s1))
      × (s1.folders ≡ s.folders)
      × IsRowsOf parent.uuid ns rows
unfolding make_rows encrypt_name new_identifiers
make_rows-run ciphers user parent [] s = ([], s, refl, refl, tt)
make_rows-run ciphers user parent (n ∷ ns) s =
    let s1 = (encrypt_name ciphers n (some parent.id) s).1 in
    let s2 = (new_identifiers s1).1 in
    let (rows, s3, run, same, rows_of) = make_rows-run ciphers user parent ns s2 in
    (
      _,
      s3,
      bind-of_ok (encrypt_name ciphers n (some parent.id)) _ {s = s} refl
          ∙ bind-of_ok new_identifiers _ {s = s1} refl
          ∙ bind-of_ok (make_rows ciphers user parent ns) _ {s = s2} run,
      same,
      (refl, refl, refl, rows_of),
    )

pub find_one-of_find_all :
    (p : Folder → Bool) (fs : List Folder)
    → is_nonempty (find_all p fs) ≡ false
    → find_one p fs ≡ none
find_one-of_find_all p [] e = refl
find_one-of_find_all p (f ∷ fs) e = ground (arith, find_one-of_find_all p fs)
