-- ===== src/Files/Versions.antt =====
-- src/modules/file/actions: the actions that make, restore and delete a version of a file.
use drive_server_wip.Prelude.{
  ℕ, ◌++◌, Bool, ◌&&◌, not, Option, none, some, List, [], ◌∷◌, map, ◌==◌, ltb, leb, length, take,
  drop, get_last?, if◌then◌else◌,
}
use drive_server_wip.Prelude.Table.{find_all}
use drive_server_wip.Prelude.Outcome.{
  Result, ok, err, Action, not_found, forbidden, conflict, bad_request, type_error, pure, gets,
  lift, or_throw, throw_if, ◌>>=◌, ◌>>◌,
}
use drive_server_wip.Limits.Store.{Uuid, User}
use drive_server_wip.Limits.{get_file_versioning_limits}
use drive_server_wip.Files.Store.{
  FileVersion, File, Store, CreateFileVersionData, deleted, is_existing, sort_newest, days_ago,
  find_all_by_file_id, find_version, find_file, update_status, update_status_batch, delete_version,
  create_version, update_content, all_of, set_content,
}

-- `versionsToDelete.push(versionsToKeep.at(-1))`, where a missing version has no `id` to read later
abbrev pub push : List FileVersion → Option FileVersion → Result (List FileVersion)
push vs none = err type_error
push vs (some v) = ok (vs ++ v ∷ [])

unfoldable pub versions_to_delete : ℕ → ℕ → List FileVersion → Result (List FileVersion)
versions_to_delete cutoff_date max_versions versions =
    let by_age = find_all (λ v. ltb v.created_at cutoff_date) versions in
    let remaining = sort_newest (find_all (λ v. leb cutoff_date v.created_at) versions) in
    let to_keep = take max_versions remaining in
    let to_delete = by_age ++ drop max_versions remaining in
    if length to_keep == max_versions then push to_delete (get_last? to_keep) else ok to_delete

abbrev pub delete_versions : List FileVersion → Action Store (Unit {0})
delete_versions [] = pure tt
delete_versions (v ∷ vs) = update_status_batch (map (λ w. w.id) (v ∷ vs)) deleted

-- `CreateFileVersionAction`
unfoldable pub apply_retention_policy : Uuid → Uuid → Action Store (Unit {0})
apply_retention_policy file_uuid user_uuid = do
  answer ← gets (λ s. get_file_versioning_limits user_uuid s.limits)
  limits ← lift answer
  cutoff_date ← gets (days_ago limits.retention_days)
  versions ← gets (find_all_by_file_id file_uuid)
  chosen ← lift (versions_to_delete cutoff_date limits.max_versions versions)
  delete_versions chosen

abbrev pub version_data : User → File → CreateFileVersionData
version_data user file = record {
  file_id = file.uuid;
  user_id = user.uuid;
  network_file_id = file.file_id;
  size = file.size;
  modification_time = file.updated_at;
}

unfoldable pub create_file_version :
    User → File → Option Uuid → ℕ → Option ℕ → Action Store (Unit {0})
create_file_version user file new_file_id new_size modification_time = do
  apply_retention_policy file.uuid user.uuid
  all_of (create_version (version_data user file))
      (update_content file.uuid user.id new_file_id new_size modification_time)

abbrev pub is_newer : FileVersion → FileVersion → Bool
is_newer restored v = ltb restored.created_at v.created_at && is_existing v.status

-- `RestoreFileVersionAction`
unfoldable pub restore_file_version : User → Uuid → Uuid → Action Store File
restore_file_version user file_uuid version_id = do
  found ← gets (find_file file_uuid user.id)
  file ← or_throw found (not_found "File not found")
  found_version ← gets (find_version version_id)
  version_to_restore ← or_throw found_version (not_found "Version not found")
  throw_if (not (version_to_restore.file_id == file_uuid))
      (conflict "Version does not belong to this file")
  throw_if (not (is_existing version_to_restore.status))
      (bad_request "Cannot restore a deleted version")
  all_versions ← gets (find_all_by_file_id file_uuid)
  now ← gets (λ s. s.now)
  update_status_batch (map (λ v. v.id) (find_all (is_newer version_to_restore) all_versions))
      deleted
  all_of (delete_version version_to_restore.id) (
      update_content file_uuid user.id version_to_restore.network_file_id version_to_restore.size
        none)
  pure (set_content version_to_restore.network_file_id version_to_restore.size now none file)

-- `DeleteFileVersionAction`
unfoldable pub delete_file_version : User → Uuid → Uuid → Action Store (Unit {0})
delete_file_version user file_uuid version_id = do
  found ← gets (find_file file_uuid user.id)
  file ← or_throw found (not_found "File not found")
  throw_if (not (file.user_id == user.id)) (forbidden "You do not own this file")
  found_version ← gets (find_version version_id)
  version ← or_throw found_version (not_found "Version not found")
  throw_if (not (version.file_id == file_uuid)) (conflict "Version does not belong to this file")
  update_status version_id deleted
