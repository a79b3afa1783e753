-- ===== src/Files/Restore.antt =====
-- What a file and its versions are after an earlier content is restored: `RestoreFileVersionAction`.
use drive_server_wip.Prelude.{
  ℕ, ◌≡◌, refl, ap, sym, ◌∙◌, Bool, true, ◌&&◌, not, Option, none, some, List, ◌==◌, arith, map,
  ==_iff, ==_self,
}
use drive_server_wip.Prelude.Table.{
  find_one, find_all, count, update, destroy, count-update, count-destroy_self, find_one-passes,
  find_one-update, count-destroy_zero, find_one-none, find_one-create,
}
use drive_server_wip.Prelude.Outcome.{ok}
use drive_server_wip.Prelude.Outcome.Steps.{
  gets-run, known-run, passed-run, bind-of_ok, gets-then, or_throw-then, throw_if-then, modify-then,
  bind-then, value-of_eq, state-of_eq,
}
use drive_server_wip.Limits.Store.{Uuid, User}
use drive_server_wip.Files.Store.{
  FileVersion, File, Store, deleted, is_existing, is_version_of, has_version_id, is_file_of,
  find_all_by_file_id, find_version, find_file, set_status, set_content, new_version,
  update_status_batch, delete_version, update_content, all_of,
}
use drive_server_wip.Files.Versions.{
  is_newer, restore_file_version, create_file_version, version_data,
}
use drive_server_wip.Files.Retention.{has_id_of, count-update_out, count-covered}
use drive_server_wip.Files.Create.{count-of_old, create_file_version-retains, with_deleted}

set_content-keeps :
    (uuid : Uuid) (id : ℕ) (network : Option Uuid) (size now : ℕ) (time : Option ℕ) (f : File)
    → is_file_of uuid id (set_content network size now time f) ≡ is_file_of uuid id f
set_content-keeps uuid id network size now none f = refl
set_content-keeps uuid id network size now (some t) f = refl

abbrev pub newer_versions : Uuid → FileVersion → Store → List FileVersion
newer_versions file v s = find_all (is_newer v) (find_all_by_file_id file s)

-- The versions of a file that exist and are newer than one.
abbrev pub is_newer_version_of : Uuid → FileVersion → FileVersion → Bool
is_newer_version_of file v w = is_version_of file w && is_newer v w

abbrev pub restored : User → Uuid → FileVersion → Store → Store
restored user file v s = record s {
  versions =
      destroy (has_version_id v.id)
        (update (has_id_of (newer_versions file v s)) (set_status deleted) s.versions);
  files =
      update (is_file_of file user.id) (set_content v.network_file_id v.size s.now none) s.files;
}

-- A restoration that returns, in terms of what it read.
restore_file_version-then :
    (user : User) (file_uuid version_id : Uuid) (s : Store) {r : File} {s' : Store}
    → restore_file_version user file_uuid version_id s ≡ (ok r, s')
    → (file : File) × (v : FileVersion) × (find_file file_uuid user.id s ≡ some file)
      × (find_version version_id s ≡ some v)
      × (v.file_id ≡ file_uuid)
      × (is_existing v.status ≡ true)
      × (s' ≡ restored user file_uuid v s)
      × (r ≡ set_content v.network_file_id v.size s.now none file)
unfolding restore_file_version all_of
restore_file_version-then user file_uuid version_id s e = gets-then _ _ e λ e.
    or_throw-then _ _ _ e λ file found e. gets-then _ _ e λ e.
      or_throw-then _ _ _ e λ v found_version e. throw_if-then _ _ _ e λ belongs e.
        throw_if-then _ _ _ e λ alive e. gets-then _ _ e λ e. gets-then _ _ e λ e.
          modify-then _ _ e λ e. bind-then _ _ e λ u s1 done e. (
            file,
            v,
            found,
            found_version,
            ground arith,
            ground arith,
            rw (← (state-of_eq e), ← (state-of_eq done)) refl,
            sym (value-of_eq e),
          )

none_newer :
    (file : Uuid) (v : FileVersion) (s : Store)
    → count
        (is_newer_version_of file v)
        (update (has_id_of (newer_versions file v s)) (set_status deleted) s.versions)
      ≡ 0
none_newer file v s =
    let left : FileVersion → Bool = λ w. not (has_id_of (newer_versions file v s) w) in
    count-update_out (is_newer_version_of file v) (has_id_of (newer_versions file v s))
      (set_status deleted) s.versions (λ w. ground arith)
    ∙ sym (count-of_old left (is_version_of file) (is_newer v) s.versions)
    ∙ count-covered (newer_versions file v s) (has_id_of (newer_versions file v s)) (λ w h. h)

-- A restoration that returns was of a version of the file that existed: the file that it returns is
-- the one that is stored, has the version's content, and neither the version nor an existing newer
-- one is left.
pub restore_file_version-restores :
    (user : User) (file_uuid version_id : Uuid) (s : Store) {r : File} {s' : Store}
    → restore_file_version user file_uuid version_id s ≡ (ok r, s')
    → (v : FileVersion) × (find_version version_id s ≡ some v)
      × (is_version_of file_uuid v ≡ true)
      × (find_file file_uuid user.id s' ≡ some r)
      × (r.file_id ≡ v.network_file_id)
      × (r.size ≡ v.size)
      × (find_version version_id s' ≡ none)
      × (count (is_newer_version_of file_uuid v) s'.versions ≡ 0)
restore_file_version-restores user file_uuid version_id s e =
    let (file, v, found, found_version, belongs, alive, after, result) =
      restore_file_version-then user file_uuid version_id s e in
    let same : (f : File)
        → is_file_of file_uuid user.id (set_content v.network_file_id v.size s.now none f)
          ≡ is_file_of file_uuid user.id f =
      λ f. refl in
    let is_file = find_one-passes (is_file_of file_uuid user.id) s.files found in
    let file_after =
      find_one-update (is_file_of file_uuid user.id) (is_file_of file_uuid user.id)
        (set_content v.network_file_id v.size s.now none) s.files same found in
    let id : v.id ≡ version_id =
      (==_iff v.id version_id).0
        (find_one-passes (has_version_id version_id) s.versions found_version) in
    let rows = update (has_id_of (newer_versions file_uuid v s)) (set_status deleted) s.versions in
    rw (after, result)
      (
        v,
        found_version,
        ground arith,
        rw is_file at file_after,
        refl,
        refl,
        ap (λ k. find_one (has_version_id version_id) (destroy (has_version_id k) rows)) id
            ∙ find_one-none (has_version_id version_id) (destroy (has_version_id version_id) rows)
                (count-destroy_self (has_version_id version_id) rows),
        count-destroy_zero (is_newer_version_of file_uuid v) (has_version_id v.id) rows
            (none_newer file_uuid v s),
      )

-- A restoration whose checks pass returns.
restore_file_version-run :
    (user : User) (file_uuid version_id : Uuid) (s : Store) {file : File} {v : FileVersion}
    → find_file file_uuid user.id s ≡ some file
    → find_version version_id s ≡ some v
    → (v.file_id == file_uuid) ≡ true
    → is_existing v.status ≡ true
    → restore_file_version user file_uuid version_id s
      ≡ (ok (set_content v.network_file_id v.size s.now none file), restored user file_uuid v s)
unfolding restore_file_version all_of
restore_file_version-run user file_uuid version_id s {file} {v} found found_version belongs alive =
    gets-run (find_file file_uuid user.id) _ s
    ∙ known-run (find_file file_uuid user.id s) _ _ s found
    ∙ gets-run (find_version version_id) _ s
    ∙ known-run (find_version version_id s) _ _ s found_version
    ∙ passed-run (not (v.file_id == file_uuid)) _ _ s (rw belongs refl)
    ∙ passed-run (not (is_existing v.status)) _ _ s (rw alive refl)
    ∙ gets-run (find_all_by_file_id file_uuid) _ s
    ∙ gets-run (λ s. s.now) _ s
    ∙ bind-of_ok (update_status_batch (map (λ w. w.id) (newer_versions file_uuid v s)) deleted) _
        {s = s} refl
    ∙ bind-of_ok
        (all_of (delete_version v.id)
          (update_content file_uuid user.id v.network_file_id v.size none))
        _ refl

-- If no version has the next identifier, the content that a file had before a new one was stored is
-- restored, with its size, from the version that was made of it, which is gone then.
pub restore_file_version-create :
    (user : User) (file : File) (network : Option Uuid) (size : ℕ) (time : Option ℕ) (s : Store)
    {s1 : Store}
    → find_file file.uuid user.id s ≡ some file
    → count (has_version_id s.next_id) s.versions ≡ 0
    → create_file_version user file network size time s ≡ (ok tt, s1)
    → (r : File) × (s2 : Store) × (restore_file_version user file.uuid s.next_id s1 ≡ (ok r, s2))
      × (r.file_id ≡ file.file_id)
      × (r.size ≡ file.size)
      × (find_file file.uuid user.id s2 ≡ some r)
      × (find_version s.next_id s2 ≡ none)
restore_file_version-create user file network size time s {s1} found fresh e =
    let (limits, chosen, allowed, after, most, none_old) =
      create_file_version-retains user file network size time s e in
    let v = new_version (version_data user file) (with_deleted chosen s) in
    let is_file = find_one-passes (is_file_of file.uuid user.id) s.files found in
    let file_after =
      find_one-update (is_file_of file.uuid user.id) (is_file_of file.uuid user.id)
        (set_content network size s.now time) s.files
        (set_content-keeps file.uuid user.id network size s.now time) found in
    let still_fresh =
      count-update (has_version_id s.next_id) (has_id_of chosen) (set_status deleted) s.versions
        (λ w. refl) in
    let version_found =
      find_one-create (has_version_id s.next_id) v
        (update (has_id_of chosen) (set_status deleted) s.versions) (still_fresh ∙ fresh)
        (==_self s.next_id) in
    let run =
      restore_file_version-run user file.uuid s.next_id s1
        {file = set_content network size s.now time file} {v = v}
        (rw after (rw is_file at file_after)) (rw after version_found) (==_self file.uuid) refl in
    let (w, found_version, belongs, stored_file, network_back, size_back, gone, none_newer) =
      restore_file_version-restores user file.uuid s.next_id s1 run in
    (_, _, run, refl, refl, stored_file, gone)
