-- ===== src/Files/Unversioned.antt =====
-- A new content for a file that has none on the network: `CreateFileVersionAction` on an empty file.
use drive_server_wip.Prelude.{ℕ, ◌≡◌, ◌∙◌, arith, Option, none}
use drive_server_wip.Prelude.Table.{update}
use drive_server_wip.Prelude.Outcome.{Action, Exception, ok, err, internal_error, ◌>>=◌}
use drive_server_wip.Prelude.Outcome.Steps.{bind-of_ok}
use drive_server_wip.Limits.Store.{User}
use drive_server_wip.Files.Store.{
  File, Store, CreateFileVersionData, is_file_of, set_content, create_version, update_content,
  all_of,
}
use drive_server_wip.Files.Versions.{apply_retention_policy, create_file_version, version_data}

create_version-refused :
    (version : CreateFileVersionData) (s : Store)
    → version.network_file_id ≡ none
    → create_version version s ≡ (
      err (internal_error "null value in column network_file_id violates not-null constraint"),
      s,
    )
unfolding create_version ◌>>=◌
create_version-refused version s empty = ground arith

-- The second of two writes is made also if the first one fails.
all_of-first :
    (m k : Action Store (Unit {0})) (s : Store) {x : Exception} {s1 : Store}
    → m s ≡ (err x, s1)
    → all_of m k s ≡ (err x, (k s1).1)
unfolding all_of
all_of-first m k s {x} {s1} e = ground (arith, e)

-- The two writes of the action: the version is refused, and the file is written.
writes-unversioned :
    (user : User) (file : File) (network : Option ℕ) (size : ℕ) (time : Option ℕ) (s : Store)
    → file.file_id ≡ none
    → all_of
        (create_version (version_data user file))
        (update_content file.uuid user.id network size time)
        s
      ≡ (
        err (internal_error "null value in column network_file_id violates not-null constraint"),
        record s {
          files =
              update (is_file_of file.uuid user.id) (set_content network size s.now time) s.files;
        },
      )
writes-unversioned user file network size time s empty =
    all_of-first (create_version (version_data user file))
      (update_content file.uuid user.id network size time) s
      (create_version-refused (version_data user file) s empty)

-- If a file has no content on the network, as an empty one, and the retention policy returns, then a
-- request that gives it a new content throws the database's error for the missing version, and has
-- written the new content to the file all the same.
pub create_file_version-unversioned :
    (user : User) (file : File) (network : Option ℕ) (size : ℕ) (time : Option ℕ) (s : Store)
    {s1 : Store}
    → file.file_id ≡ none
    → apply_retention_policy file.uuid user.uuid s ≡ (ok tt, s1)
    → create_file_version user file network size time s ≡ (
      err (internal_error "null value in column network_file_id violates not-null constraint"),
      record s1 {
        files =
            update (is_file_of file.uuid user.id) (set_content network size s1.now time) s1.files;
      },
    )
unfolding create_file_version
create_file_version-unversioned user file network size time s {s1} empty retained =
    bind-of_ok (apply_retention_policy file.uuid user.uuid) _ {s = s} retained
    ∙ writes-unversioned user file network size time s1 empty
