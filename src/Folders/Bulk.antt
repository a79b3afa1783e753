-- ===== src/Folders/Bulk.antt =====
-- Folders that are created together: `createBulkFolders`.
pub mod Rows
use text.Mathlib.Text.{◌==◌ as str_eq}
use text.Mathlib.TextEquality.{eq_iff}
use drive_server_wip.Prelude.{
  ◌≡◌, ◌≢◌, refl, ap, ◌∙◌, String, Bool, true, false, ◌&&◌, ◌||◌, none, some, List, [], ◌∷◌, ◌++◌,
  arith, inl, inr, ◌⊎◌, Option-cases, Bool-cases,
}
use drive_server_wip.Prelude.Table.{find_one, find_all, create}
use drive_server_wip.Prelude.Outcome.{
  Exception, ok, err, or_throw, throw_if, modify, not_found, conflict, bad_request,
}
use drive_server_wip.Prelude.Outcome.Steps.{
  gets-run, known-run, passed-run, bind-of_ok, bind-of_err,
}
use drive_server_wip.Folders.Names.{Ciphers, same_text}
use drive_server_wip.Folders.Store.{
  Uuid, Folder, User, Store, is_key, same_key, is_live, is_clash, unique_violation,
  find_kept_of_user, encrypt_name,
}
use drive_server_wip.Folders.{
  is_named, is_among, has_duplicates, has_invalid_name, is_empty, is_nonempty, any_clash,
  find_by_parent_uuid, bulk_create, new_identifiers, make_rows, create_bulk_folders,
}
use drive_server_wip.Folders.Conflicts.Clashes.{clash-free, same_key-is_key}
use drive_server_wip.Folders.Conflicts.Failures.{IsOther, find_one-stronger}
use Rows.{IsRowsOf, is_taken, any_clash-free, make_rows-run, find_one-of_find_all}

IsOther-ne : (x : Exception) → IsOther x → x ≢ unique_violation
IsOther-ne x other e = rw e at other

-- The names of the request are free where no folder of the request was found.
names-free :
    (parent : Uuid) (ns : List String) (s : Store)
    → is_nonempty (find_by_parent_uuid parent ns s) ≡ false
    → find_one (is_taken parent ns) s.folders ≡ none
names-free parent ns s free =
    find_one-stronger
      (λ f. is_key f.parent_uuid parent && is_live f && (is_empty ns || is_named ns f))
      (is_taken parent ns) s.folders (λ f e. ground arith) (find_one-of_find_all _ s.folders free)

-- The rows are written together.
bulk_create-run :
    (rows : List Folder) (s : Store)
    → any_clash rows s.folders ≡ false
    → bulk_create rows s ≡ (ok rows, record s { folders = s.folders ++ rows })
unfolding bulk_create
bulk_create-run rows s free =
    gets-run (λ s. any_clash rows s.folders) _ s
    ∙ passed-run (any_clash rows s.folders) _ _ s free
    ∙ bind-of_ok (modify (λ s. record s { folders = s.folders ++ rows })) _ {s = s} refl

-- A request that passes the checks.
create_bulk_folders-run :
    (ciphers : Ciphers) (user : User) (u : Uuid) (ns : List String) (s : Store) {parent : Folder}
    → find_kept_of_user u user.id s ≡ some parent
    → has_invalid_name ns ≡ false
    → has_duplicates ns ≡ false
    → is_nonempty (find_by_parent_uuid parent.uuid ns s) ≡ false
    → (rows : List Folder) × (s' : Store) × (create_bulk_folders ciphers user u ns s
        ≡ (ok rows, s'))
      × IsRowsOf parent.uuid ns rows
      × (s'.folders ≡ s.folders ++ rows)
unfolding create_bulk_folders
create_bulk_folders-run ciphers user u ns s {parent} found valid distinct free =
    let (rows, s1, run, same, rows_of) = make_rows-run ciphers user parent ns s in
    let free1 =
      any_clash-free parent.uuid ns rows s.folders rows_of distinct
        (names-free parent.uuid ns s free) in
    (
      rows,
      record s1 { folders = s1.folders ++ rows },
      gets-run (find_kept_of_user u user.id) _ s
          ∙ known-run (find_kept_of_user u user.id s) _ _ s found
          ∙ passed-run (has_invalid_name ns) _ _ s valid
          ∙ passed-run (has_duplicates ns) _ _ s distinct
          ∙ gets-run (λ s. is_nonempty (find_by_parent_uuid parent.uuid ns s)) _ s
          ∙ passed-run (is_nonempty (find_by_parent_uuid parent.uuid ns s)) _ _ s free
          ∙ bind-of_ok (make_rows ciphers user parent ns) _ {s = s} run
          ∙ bulk_create-run rows s1 (rw same free1),
      rows_of,
      ap (λ fs. fs ++ rows) same,
    )

-- Folders that are asked for together are all created, in their order and under their names, or none is
-- and the client gets another error than the driver's.
pub create_bulk_folders-all :
    (ciphers : Ciphers) (user : User) (u : Uuid) (ns : List String) (s : Store)
    → ((x : Exception) × (s' : Store) × (create_bulk_folders ciphers user u ns s ≡ (err x, s'))
        × (x ≢ unique_violation)
        × (s' ≡ s))
      ⊎ ((parent : Folder) × (rows : List Folder) × (s' : Store) × (create_bulk_folders ciphers user
              u ns s
            ≡ (ok rows, s'))
          × (find_kept_of_user u user.id s ≡ some parent)
          × IsRowsOf parent.uuid ns rows
          × (s'.folders ≡ s.folders ++ rows))
unfolding create_bulk_folders
create_bulk_folders-all ciphers user u ns s = elim (Option-cases (find_kept_of_user u user.id s)) [
  | inl missing ↦ inl (
    not_found "Parent folder does not exist",
    s,
    gets-run (find_kept_of_user u user.id) _ s
        ∙ bind-of_err (or_throw (find_kept_of_user u user.id s) _) _ {s = s} (rw missing refl),
    IsOther-ne (not_found "Parent folder does not exist") tt,
    refl,
  )
  | inr (parent, found) ↦
      let start =
        gets-run (find_kept_of_user u user.id) _ s
        ∙ known-run (find_kept_of_user u user.id s) _ _ s found in
      elim (Bool-cases (has_invalid_name ns)) [
        | inl invalid ↦ inl (
          bad_request "Invalid folder name",
          s,
          start ∙ bind-of_err (throw_if (has_invalid_name ns) _) _ {s = s} (rw invalid refl),
          IsOther-ne (bad_request "Invalid folder name") tt,
          refl,
        )
        | inr valid ↦
            let start = start ∙ passed-run (has_invalid_name ns) _ _ s valid in
            elim (Bool-cases (has_duplicates ns)) [
              | inl twice ↦ inl (
                conflict "Duplicate folder names in request",
                s,
                start ∙ bind-of_err (throw_if (has_duplicates ns) _) _ {s = s} (rw twice refl),
                IsOther-ne (conflict "Duplicate folder names in request") tt,
                refl,
              )
              | inr distinct ↦
                  elim (Bool-cases (is_nonempty (find_by_parent_uuid parent.uuid ns s))) [
                    | inl used ↦ inl (
                      conflict "Folders already exist",
                      s,
                      start
                          ∙ passed-run (has_duplicates ns) _ _ s distinct
                          ∙ gets-run (λ s. is_nonempty (find_by_parent_uuid parent.uuid ns s)) _ s
                          ∙ bind-of_err
                              (throw_if (is_nonempty (find_by_parent_uuid parent.uuid ns s)) _) _
                              {s = s} (rw used refl),
                      IsOther-ne (conflict "Folders already exist") tt,
                      refl,
                    )
                    | inr free ↦
                        let (rows, s', run, rows_of, all) =
                          create_bulk_folders-run ciphers user u ns s found valid distinct free in
                        inr (parent, rows, s', run, found, rows_of, all)
                  ]
            ]
      ]
]
