-- ===== src/Files/Undo/Ends.antt =====
-- The deletion of all versions of a user ends.
use drive_server_wip.Prelude.{
  ℕ, zero, suc, ◌+◌, ◌-◌, ◌≤◌, ◌<◌, ◌≡◌, refl, ap, sym, ◌∙◌, Bool, false, Option, some, ◌==◌, arith,
  ◌⊎◌, inl, inr, if◌then◌else◌, Bool-cases,
}
use drive_server_wip.Prelude.Table.{count, update, update-id_of_count}
use drive_server_wip.Prelude.Outcome.{Result, ok, err, Exception, Action, internal_error, pure}
use drive_server_wip.Prelude.Outcome.Steps.{bind-of_ok, bind-of_err, catch-of_ok, catch-of_err}
use drive_server_wip.Prelude.Table.Batches.{
  update_first, affected, count-update_first, update-update_first,
}
use drive_server_wip.Limits.Store.{Uuid}
use drive_server_wip.Files.Store.{FileVersion, deleted, set_status}
use drive_server_wip.Files.Undo.{
  delete_with_retry, process_batches_with_retry, Calls, is_version_of_user, versions_of,
  delete_user_versions_batch, execute_undo,
}

abbrev pub cleanup_failed : Exception
cleanup_failed =
    internal_error
      "Failed to complete version cleanup. Successfully deleted versions before failure."

-- A try at a batch: it throws and deletes nothing, or it deletes a batch.
abbrev pub TriedBatch : Uuid → ℕ → Calls → Result ℕ × Calls → Type 0
TriedBatch user b c o =
    ((x : Exception) × (c1 : Calls) × (o ≡ (err x, c1)) × (versions_of c1 ≡ versions_of c))
    ⊎ ((c1 : Calls) × (o ≡ (ok (affected b (count (is_version_of_user user) (versions_of c))), c1))
        × (versions_of c1
            ≡ update_first (is_version_of_user user) (set_status deleted) b (versions_of c)))

-- What the deletion of all versions of a user does: it ends, with an error of its own and some of
-- these versions deleted, or with their number and all of them deleted.
abbrev pub UndoneFrom : Uuid → ℕ → Calls → Result (Option ℕ) × Calls → Type 0
UndoneFrom user total c o =
    ((c1 : Calls) × (o ≡ (err cleanup_failed, c1))
      × (update (is_version_of_user user) (set_status deleted) (versions_of c1)
          ≡ update (is_version_of_user user) (set_status deleted) (versions_of c)))
    ⊎ ((c1 : Calls) × (o
          ≡ (ok (some (total + count (is_version_of_user user) (versions_of c))), c1))
        × (versions_of c1 ≡ update (is_version_of_user user) (set_status deleted) (versions_of c)))

module _ (fails : ℕ → Bool) (user : Uuid) (b : ℕ) where
  batch-tried : (c : Calls) → TriedBatch user b c (delete_user_versions_batch fails user b c)
  unfolding delete_user_versions_batch
  batch-tried c = elim (Bool-cases (fails c.calls)) [
    | inl failed ↦ rw failed (inl (_, _, refl, refl))
    | inr done ↦ rw done (inr (_, refl, refl))
  ]

  retry-tried :
      (n : ℕ) (c : Calls)
      → ((c1 : Calls) × (delete_with_retry (delete_user_versions_batch fails user b) n c
            ≡ (err cleanup_failed, c1))
          × (versions_of c1 ≡ versions_of c))
        ⊎ ((c1 : Calls) × (delete_with_retry (delete_user_versions_batch fails user b) n c
              ≡ (ok (affected b (count (is_version_of_user user) (versions_of c))), c1))
            × (versions_of c1
                ≡ update_first (is_version_of_user user) (set_status deleted) b (versions_of c)))
  retry-tried zero c = inl (c, refl, refl)
  retry-tried (suc n) c =
      let delete_fn = delete_user_versions_batch fails user b in
      let try_again : Exception → Action Calls ℕ = λ e. delete_with_retry delete_fn n in
      elim (batch-tried c) [
        | inl (x, c1, failed, same) ↦ elim (retry-tried n c1) [
          | inl (c2, again, same') ↦
              inl (c2, catch-of_err delete_fn try_again failed ∙ again, same' ∙ same)
          | inr (c2, done, rows) ↦ inr (
            c2,
            catch-of_err delete_fn try_again failed
                ∙ done
                ∙ ap (λ vs. (ok (affected b (count (is_version_of_user user) vs)), c2)) same,
            rows ∙ ap (update_first (is_version_of_user user) (set_status deleted) b) same,
          )
        ]
        | inr (c1, done, rows) ↦ inr (c1, catch-of_ok delete_fn try_again done, rows)
      ]

  loop-undoes :
      (fuel total : ℕ) (c : Calls)
      → 1 ≤ b
      → count (is_version_of_user user) (versions_of c) < fuel
      → UndoneFrom user total c
          (process_batches_with_retry (delete_user_versions_batch fails user b) fuel b total c)
  unfolding process_batches_with_retry
  loop-undoes zero total c some_batch enough = absurd (ground arith)
  loop-undoes (suc fuel) total c some_batch enough =
      let delete_fn = delete_user_versions_batch fails user b in
      let p = is_version_of_user user in
      let out : (v : FileVersion) → p (set_status deleted v) ≡ false = λ v. ground arith in
      elim (retry-tried 3 c) [
        | inl (c1, failed, same) ↦
            inl (c1, bind-of_err (delete_with_retry delete_fn 3) _ failed, ap (update p _) same)
        | inr (c1, done, rows) ↦
            let left = count-update_first p (set_status deleted) b (versions_of c) out in
            let whole = update-update_first p (set_status deleted) b (versions_of c) out in
            let now_left : count p (versions_of c1) ≡ count p (versions_of c) - b =
              ap (count p) rows ∙ left in
            let now_whole = ap (update p (set_status deleted)) rows ∙ whole in
            let next : ℕ → Action Calls (Option ℕ) = λ n.
              if n == b
              then process_batches_with_retry delete_fn fuel b (total + n)
              else pure (some (total + n)) in
            let run = bind-of_ok (delete_with_retry delete_fn 3) next done in
            elim (Bool-cases (affected b (count p (versions_of c)) == b)) [
              | inl full ↦
                  let sum : (total + affected b (count p (versions_of c)))
                        + count p (versions_of c1)
                      ≡ total + count p (versions_of c) =
                    ground arith in
                  elim (loop-undoes fuel (total + affected b (count p (versions_of c))) c1
                    some_batch (ground arith)) [
                      | inl (c2, failed, same) ↦
                          inl (c2, (rw full at run) ∙ failed, same ∙ now_whole)
                      | inr (c2, ended, gone) ↦ inr (
                        c2,
                        (rw full at run) ∙ ended ∙ ap (λ n. (ok (some n), c2)) sum,
                        gone ∙ now_whole,
                      )
                    ]
              | inr last ↦
                  let sum : total + affected b (count p (versions_of c))
                      ≡ total + count p (versions_of c) =
                    ground arith in
                  let none_left : count p (versions_of c1) ≡ 0 = ground arith in
                  inr (
                    c1,
                    (rw last at run) ∙ ap (λ n. (ok (some n), c1)) sum,
                    sym (update-id_of_count p (set_status deleted) (versions_of c1) none_left)
                        ∙ now_whole,
                  )
            ]
      ]

-- If a batch has a version at least, and there is more fuel than versions of the user that exist, the
-- deletion of all versions of a user ends, whichever calls of the database fail: it returns their
-- number and all of them are deleted, or it throws its error and only some of them are deleted; the
-- other versions stay as they are.
pub execute_undo-ends :
    (fails : ℕ → Bool) (fuel : ℕ) (user : Uuid) (batch_size : ℕ) (c : Calls)
    → 1 ≤ batch_size
    → count (is_version_of_user user) (versions_of c) < fuel
    → UndoneFrom user 0 c (execute_undo fails fuel user batch_size c)
unfolding execute_undo
execute_undo-ends fails fuel user batch_size c some_batch enough =
    loop-undoes fails user batch_size fuel 0 c some_batch enough
