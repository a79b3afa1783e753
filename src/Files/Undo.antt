-- ===== src/Files/Undo.antt =====
-- src/modules/file/actions/undo-file-versioning.action.ts: the deletion of all versions of a user, in
-- batches, each of which is tried three times.
pub mod Ends
use drive_server_wip.Prelude.{
  ℕ, zero, suc, ◌+◌, ◌-◌, ◌≤◌, ◌<◌, ◌≡◌, refl, ap, sym, ◌∙◌, Bool, false, ◌&&◌, Option, none, some,
  List, [], ◌∷◌, ◌==◌, leb, arith, ◌⊎◌, inl, inr, if◌then◌else◌, Bool-cases,
}
use drive_server_wip.Prelude.Table.{count, update, update-id_of_count}
use drive_server_wip.Prelude.Outcome.{
  Result, ok, err, Exception, Action, internal_error, pure, throw, catch, ◌>>=◌,
}
use drive_server_wip.Prelude.Outcome.Steps.{bind-of_ok, bind-of_err, catch-of_ok, catch-of_err}
use drive_server_wip.Prelude.Table.Batches.{update_first, affected}
use drive_server_wip.Limits.Store.{Uuid}
use drive_server_wip.Files.Store.{FileVersion, Store, deleted, is_existing, set_status}

module _ {S : Type 0} (delete_fn : Action S ℕ) where
  -- The inner loop, by the number of tries that are left.
  abbrev pub delete_with_retry : ℕ → Action S ℕ
  delete_with_retry zero = throw (
      internal_error
        "Failed to complete version cleanup. Successfully deleted versions before failure.")
  delete_with_retry (suc n) = catch delete_fn (λ e. delete_with_retry n)

  -- The outer loop, on fuel: `none` if there is too little of it.
  unfoldable pub process_batches_with_retry : ℕ → ℕ → ℕ → Action S (Option ℕ)
  process_batches_with_retry zero batch_size total_deleted = pure none
  process_batches_with_retry (suc fuel) batch_size total_deleted =
      delete_with_retry 3 >>= λ processed_count.
      let rest = process_batches_with_retry fuel batch_size (total_deleted + processed_count) in
      if processed_count == batch_size then rest else pure (some (total_deleted + processed_count))

-- The store and the number of calls of the database so far.
pub record Calls : Type 0 where
  pub store : Store
  pub calls : ℕ

abbrev pub is_version_of_user : Uuid → FileVersion → Bool
is_version_of_user user v = v.user_id == user && is_existing v.status

abbrev pub versions_of : Calls → List FileVersion
versions_of c = c.store.versions

-- `fails` says which calls of the database fail.
module _ (fails : ℕ → Bool) where
  -- Of the versions of a user that exist, the query takes the first `limit` ones of the table.
  unfoldable pub delete_user_versions_batch : Uuid → ℕ → Action Calls ℕ
  delete_user_versions_batch user limit c =
      if fails c.calls
      then (err (internal_error "Database unavailable"), record c { calls = suc c.calls })
      else (
        ok (affected limit (count (is_version_of_user user) (versions_of c))),
        record {
          store = record (c.store) {
            versions =
                update_first (is_version_of_user user) (set_status deleted) limit (versions_of c);
          };
          calls = suc c.calls;
        },
      )

  -- `executeUndo`
  unfoldable pub execute_undo : ℕ → Uuid → ℕ → Action Calls (Option ℕ)
  execute_undo fuel user_uuid batch_size =
      process_batches_with_retry (delete_user_versions_batch user_uuid batch_size) fuel batch_size 0
