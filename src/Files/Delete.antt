-- ===== src/Files/Delete.antt =====
-- What a file and its versions are after one version is deleted: `DeleteFileVersionAction`.
use drive_server_wip.Prelude.{◌≡◌, refl, some, List, [], ◌∷◌, arith, ◌≢◌}
use drive_server_wip.Prelude.Table.{find_one, update, find_one-passes, find_one-update}
use drive_server_wip.Prelude.Outcome.{ok}
use drive_server_wip.Prelude.Outcome.Steps.{gets-then, or_throw-then, throw_if-then, state-of_eq}
use drive_server_wip.Limits.Store.{Uuid, User}
use drive_server_wip.Files.Store.{
  FileVersion, Store, deleted, has_version_id, find_version, set_status,
}
use drive_server_wip.Files.Versions.{delete_file_version}

find_version-other :
    (id other : Uuid) (vs : List FileVersion)
    → other ≢ id
    → find_one (has_version_id other) (update (has_version_id id) (set_status deleted) vs)
      ≡ find_one (has_version_id other) vs
find_version-other id other [] differ = refl
find_version-other id other (v ∷ vs) differ = ground (arith, find_version-other id other vs differ)

-- A deletion that returns was of a version of the file; the version has the status of a deleted one
-- afterwards, and no other version and no file has changed.
pub delete_file_version-deletes :
    (user : User) (file_uuid version_id : Uuid) (s : Store) {s' : Store}
    → delete_file_version user file_uuid version_id s ≡ (ok tt, s')
    → (v : FileVersion) × (find_version version_id s ≡ some v)
      × (v.file_id ≡ file_uuid)
      × (find_version version_id s' ≡ some (set_status deleted v))
      × ((other : Uuid) → other ≢ version_id → find_version other s' ≡ find_version other s)
      × (s'.files ≡ s.files)
unfolding delete_file_version
delete_file_version-deletes user file_uuid version_id s e = gets-then _ _ e λ e.
    or_throw-then _ _ _ e λ file found e. throw_if-then _ _ _ e λ owned e. gets-then _ _ e λ e.
      or_throw-then _ _ _ e λ v found_version e. throw_if-then _ _ _ e λ belongs e.
        let is_it = find_one-passes (has_version_id version_id) s.versions found_version in
        let written =
          find_one-update (has_version_id version_id) (has_version_id version_id)
            (set_status deleted) s.versions (λ w. refl) found_version in
        rw (← (state-of_eq e)) (
          v,
          found_version,
          ground arith,
          rw is_it at written,
          λ other differ. find_version-other version_id other s.versions differ,
          refl,
        )
