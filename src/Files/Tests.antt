-- ===== src/Files/Tests.antt =====
-- A file with three versions, whose owner may have three of them for fifteen days.
use drive_server_wip.Prelude.{
  ℕ, ◌+◌, ◌≤◌, ◌≡◌, ◌≢◌, refl, ltb, Bool, true, false, none, some, List, [], ◌∷◌, map, arith,
}
use drive_server_wip.Prelude.Table.{count}
use drive_server_wip.Prelude.Outcome.{ok, err, type_error, internal_error, catch, ◌>>=◌}
use drive_server_wip.Limits.Store.{
  Uuid, User, LimitStore, counter, numeral, file_version_retention_days, file_version_max_number,
}
use drive_server_wip.Limits.{
  VersioningLimits, get_file_versioning_limits, get_file_versioning_limits_by_tier,
}
use drive_server_wip.Files.Status
use drive_server_wip.Files.Store.{
  FileVersion, File, Store, exists, deleted, set_status, is_version_of, days_ago, find_file,
  find_version, create_version, all_of,
}
use drive_server_wip.Files.Versions.{
  versions_to_delete, apply_retention_policy, create_file_version, restore_file_version,
  delete_file_version,
}
use drive_server_wip.Files.Create.{
  is_old_version_of, stored, with_deleted, create_file_version-retains,
  create_file_version-no_versions,
}
use drive_server_wip.Files.Unversioned.{create_file_version-unversioned}
use drive_server_wip.Files.Restore.{
  is_newer_version_of, restore_file_version-restores, restore_file_version-create,
}
use drive_server_wip.Files.Delete.{delete_file_version-deletes}
use drive_server_wip.Files.Undo.{
  delete_user_versions_batch, process_batches_with_retry, execute_undo,
}
use drive_server_wip.Files.Undo.Ends.{UndoneFrom, execute_undo-ends}

abbrev alice : User
alice = record { uuid = 10; id = 1; tier_id = some 7 }

abbrev plan : ℕ → LimitStore
plan most = record {
  users = alice ∷ [];
  workspaces = [];
  tier_limits =
      record {
        tier_id = 7;
        limit = record { label = file_version_retention_days; kind = counter; value = numeral 15 };
      }
      ∷ record {
        tier_id = 7;
        limit = record { label = file_version_max_number; kind = counter; value = numeral most };
      }
      ∷ [];
  overridden = [];
}

abbrev version : ℕ → ℕ → FileVersion
version id time = record {
  id = id;
  file_id = 100;
  user_id = 10;
  network_file_id = some (500 + id);
  size = id;
  status = exists;
  modification_time = time;
  created_at = time;
}

abbrev report : File
report = record {
  uuid = 100;
  user_id = 1;
  file_id = some 600;
  size = 60;
  updated_at = 1700000000;
  modification_time = 1700000000;
  folder_id = 1;
  folder_uuid = 1;
  name = record { random = 0; payload = 0 };
  plain_name = some "report";
  type = some "pdf";
  status = Status.exists;
  removed = false;
}

-- Day 20, with versions of the days 1, 11 and 15.
abbrev store : ℕ → Store
store most = record {
  files = report ∷ [];
  versions = version 1 86400000 ∷ version 2 950400000 ∷ version 3 1296000000 ∷ [];
  limits = plan most;
  next_id = 4;
  now = 1728000000;
}

abbrev after : Store
after = (create_file_version alice report (some 700) 70 none (store 2)).1

-- The first version is too old, and the second one makes room.
kept_versions :
    map {B = ℕ × Bool} (λ v. (v.id, is_version_of 100 v)) after.versions
    ≡ (1, false) ∷ (2, false) ∷ (3, true) ∷ (4, true) ∷ []
unfolding create_file_version apply_retention_policy versions_to_delete get_file_versioning_limits
    get_file_versioning_limits_by_tier create_version all_of catch ◌>>=◌
kept_versions = refl

create_file_version-retains_example :
    (limits : VersioningLimits) × (chosen : List FileVersion) × (get_file_versioning_limits 10
        (plan 2)
      ≡ ok limits)
    × (after ≡ stored alice report (some 700) 70 none (with_deleted chosen (store 2)))
    × (count (is_version_of 100) after.versions ≤ limits.max_versions)
    × (count (is_old_version_of 100 (days_ago limits.retention_days (store 2))) after.versions ≡ 0)
unfolding create_file_version apply_retention_policy versions_to_delete get_file_versioning_limits
    get_file_versioning_limits_by_tier create_version all_of catch ◌>>=◌
create_file_version-retains_example =
    create_file_version-retains alice report (some 700) 70 none (store 2) refl

create_file_version-no_versions_example :
    create_file_version alice report (some 700) 70 none (store 0) ≡ (err type_error, store 0)
unfolding get_file_versioning_limits get_file_versioning_limits_by_tier
create_file_version-no_versions_example =
    create_file_version-no_versions alice report (some 700) 70 none (store 0) refl refl

abbrev empty_report : File
empty_report = record report { file_id = none; size = 0 }

abbrev with_empty : Store
with_empty = record (store 2) { files = empty_report ∷ []; versions = [] }

-- The request throws, and the file has its new content.
create_file_version-unversioned_example :
    create_file_version alice empty_report (some 700) 70 none with_empty ≡ (
      err (internal_error "null value in column network_file_id violates not-null constraint"),
      record with_empty {
        files = record report { file_id = some 700; size = 70; updated_at = 1728000000 } ∷ [];
      },
    )
unfolding apply_retention_policy versions_to_delete get_file_versioning_limits
    get_file_versioning_limits_by_tier ◌>>=◌
create_file_version-unversioned_example =
    create_file_version-unversioned alice empty_report (some 700) 70 none with_empty refl refl

abbrev restored_second : Store
restored_second = (restore_file_version alice 100 2 (store 2)).1

abbrev second_content : File
second_content = record report { file_id = some 502; size = 2; updated_at = 1728000000 }

restore_file_version-restores_example :
    (v : FileVersion) × (find_version 2 (store 2) ≡ some v)
    × (is_version_of 100 v ≡ true)
    × (find_file 100 1 restored_second ≡ some second_content)
    × (some 502 ≡ v.network_file_id)
    × (2 ≡ v.size)
    × (find_version 2 restored_second ≡ none)
    × (count (is_newer_version_of 100 v) restored_second.versions ≡ 0)
unfolding restore_file_version all_of ◌>>=◌
restore_file_version-restores_example =
    restore_file_version-restores alice 100 2 (store 2) {r = second_content} refl

restore_file_version-create_example :
    (r : File) × (s2 : Store) × (restore_file_version alice 100 4 after ≡ (ok r, s2))
    × (r.file_id ≡ some 600)
    × (r.size ≡ 60)
    × (find_file 100 1 s2 ≡ some r)
    × (find_version 4 s2 ≡ none)
unfolding create_file_version apply_retention_policy versions_to_delete get_file_versioning_limits
    get_file_versioning_limits_by_tier create_version all_of catch ◌>>=◌
restore_file_version-create_example =
    restore_file_version-create alice report (some 700) 70 none (store 2) refl refl refl

-- The first two calls of the database fail.
execute_undo-ends_example :
    UndoneFrom 10 0
      (record { store = store 2; calls = 0 })
      (execute_undo (λ n. ltb n 2) 4 10 2 (record { store = store 2; calls = 0 }))
execute_undo-ends_example =
    execute_undo-ends (λ n. ltb n 2) 4 10 2 (record { store = store 2; calls = 0 }) (omega arith)
      (omega arith)

all_three :
    (execute_undo (λ n. ltb n 2) 4 10 2 (record { store = store 2; calls = 0 })).0 ≡ ok (some 3)
unfolding execute_undo process_batches_with_retry delete_user_versions_batch catch ◌>>=◌
all_three = refl

abbrev second_deleted : Store
second_deleted = (delete_file_version alice 100 2 (store 2)).1

delete_file_version-deletes_example :
    (v : FileVersion) × (find_version 2 (store 2) ≡ some v)
    × (v.file_id ≡ 100)
    × (find_version 2 second_deleted ≡ some (set_status deleted v))
    × ((other : Uuid)
        → other ≢ 2
        → find_version other second_deleted ≡ find_version other (store 2))
    × (second_deleted.files ≡ report ∷ [])
unfolding delete_file_version ◌>>=◌
delete_file_version-deletes_example = delete_file_version-deletes alice 100 2 (store 2) refl
