-- ===== src/Trash/Emptying.antt =====
-- What is left after the trash of a user was emptied.
use drive_server_wip.Prelude.{
  ℕ, ◌+◌, ◌≤◌, ◌<◌, ◌≡◌, ap, refl, ◌∙◌, true, some, arith, inl, inr, ◌⊎◌, ltb, Bool-cases,
}
use drive_server_wip.Prelude.Table.{update}
use drive_server_wip.Prelude.Table.Times.{Written, IsTimed, process_batches-Written}
use drive_server_wip.Prelude.Table.Batches.{IsTable, process_batches, process_batches-all}
use drive_server_wip.Prelude.Outcome.{ok, pure, modify}
use drive_server_wip.Prelude.Outcome.Steps.{bind-of_ok, gets-run}
use drive_server_wip.Folders.Store.{User}
use drive_server_wip.Trash.{
  Drive, processing, completed, status_of, request_of, emit, with_files, beside_files,
  with_drive_folders, is_trashed_file, is_trashed_folder, set_file_deleted, set_folder_removed,
  get_trash_files_count, get_trash_folders_count, delete_user_trashed_files_batch,
  delete_trashed_folders_batch, perform_trash_deletion, empty_counted, empty_trash, LockAttempt,
  may_proceed, handle_empty_trash_requested,
}

-- All rows in the trash of a user are deleted, the files with the times of their writes, which are from
-- the first state's time on and before the second's, and nothing else has changed.
abbrev pub IsEmptied : ℕ → Drive → Drive → Type 0
IsEmptied user_id s s' =
    Written (is_trashed_file user_id) set_file_deleted s.now s'.now s.files s'.files
    × (s'.folders ≡ update (is_trashed_folder user_id) set_folder_removed s.folders)
    × (s'.emitted ≡ s.emitted)

pub files-IsTimed : IsTimed (λ (s : Drive). s.files) with_files (λ s. s.now) beside_files
files-IsTimed = record { rows-put = λ xs s. refl; rest-put = λ xs s. refl; now-put = λ xs s. refl }

folders-IsTable : IsTable (λ s. s.folders) with_drive_folders
folders-IsTable = record {
  rows-put = λ xs s. refl;
  put-rows = λ s. refl;
  put-put = λ xs ys s. refl;
}

perform_trash_deletion-empties :
    (fuel : ℕ) (user : User) (n : ℕ) (s : Drive)
    → 1 ≤ n
    → get_trash_files_count user.id s < fuel
    → get_trash_folders_count user.id s < fuel
    → (s' : Drive) × (perform_trash_deletion fuel user
          (get_trash_files_count user.id s)
          (get_trash_folders_count user.id s)
          (some n)
          s
        ≡ (ok true, s'))
      × IsEmptied user.id s s'
unfolding perform_trash_deletion
perform_trash_deletion-empties fuel user n s some_limit enough_files enough_folders =
    let s1 =
      with_drive_folders (update (is_trashed_folder user.id) set_folder_removed s.folders) s in
    let folders =
      process_batches-all (λ s. s.folders) with_drive_folders folders-IsTable
        (is_trashed_folder user.id) set_folder_removed n fuel (get_trash_folders_count user.id s) 0
        s some_limit (λ f. ground arith) enough_folders (omega arith) in
    let (s', files, later, written, kept) =
      process_batches-Written (λ s. s.files) with_files (λ s. s.now) beside_files files-IsTimed
        (is_trashed_file user.id) set_file_deleted n fuel (get_trash_files_count user.id s) 0 s1
        some_limit (λ t f. ground arith) enough_files (omega arith) in
    (
      s',
      bind-of_ok
            (process_batches (delete_trashed_folders_batch user.id n) fuel
              (get_trash_folders_count user.id s) 0)
            _ {s = s} folders
          ∙ bind-of_ok
              (process_batches (delete_user_trashed_files_batch user.id n) fuel
                (get_trash_files_count user.id s) 0)
              _ {s = s1} files,
      (written, ap (λ r. r.0) kept, ap (λ r. r.1) kept),
    )

-- If there is more fuel than files or folders in the user's trash, a request to empty it ends. With at
-- most ten thousand items all of them, and nothing else, are deleted when it returns. With more, the
-- request only emits an event, and the handler of that event deletes all of them and nothing else,
-- unless another one holds the user's lock. A deleted
-- file has a time between the start and the end of the deletion.
pub empty_trash-empties :
    (fuel : ℕ) (user : User) (lock : LockAttempt) (s : Drive)
    → get_trash_files_count user.id s < fuel
    → get_trash_folders_count user.id s < fuel
    → may_proceed lock ≡ true
    → ((get_trash_files_count user.id s + get_trash_folders_count user.id s ≤ 10000)
        × (s' : Drive) × (empty_trash fuel user s ≡ (ok completed, s'))
        × IsEmptied user.id s s')
      ⊎ ((10000 < get_trash_files_count user.id s + get_trash_folders_count user.id s)
          × (empty_trash fuel user s ≡ (ok processing, emit (request_of user s) s))
          × (s' : Drive) × (handle_empty_trash_requested fuel lock
                (request_of user s)
                (emit (request_of user s) s)
              ≡ (ok true, s'))
          × IsEmptied user.id (emit (request_of user s) s) s')
unfolding empty_trash empty_counted handle_empty_trash_requested
empty_trash-empties fuel user lock s enough_files enough_folders proceeds =
    let start = gets-run (request_of user) (empty_counted fuel) s in
    elim (Bool-cases
      (ltb 10000 (get_trash_files_count user.id s + get_trash_folders_count user.id s))) [
        | inl many ↦
            let (s', ended, emptied) =
              perform_trash_deletion-empties fuel user 1000 (emit (request_of user s) s)
                (omega arith) enough_files enough_folders in
            inr (
              ground arith,
              (rw many at start) ∙ bind-of_ok (modify (emit (request_of user s))) _ {s = s} refl,
              s',
              rw proceeds ended,
              emptied,
            )
        | inr few ↦
            let (s', ended, emptied) =
              perform_trash_deletion-empties fuel user 100 s (omega arith) enough_files
                enough_folders in
            inl (
              ground arith,
              s',
              (rw few at start)
                  ∙ bind-of_ok
                      (perform_trash_deletion fuel user (get_trash_files_count user.id s)
                        (get_trash_folders_count user.id s) (some 100))
                      (λ done. pure (status_of done)) {s = s} ended,
              emptied,
            )
      ]
