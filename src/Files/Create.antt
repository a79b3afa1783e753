-- ===== src/Files/Create.antt =====
-- What a file and its versions are after a new content: `CreateFileVersionAction`.
use drive_server_wip.Prelude.{
  ℕ, suc, ◌≤◌, ◌≡◌, refl, ap, sym, ◌∙◌, Bool, false, ◌&&◌, not, Option, none, List, [], ◌∷◌, ltb,
  arith, inl, inr, Option-cases,
}
use drive_server_wip.Prelude.Table.{find_one, find_all, count, update, create, count-create}
use drive_server_wip.Prelude.Outcome.{Result, ok, err, Action, type_error, lift, Outcome-cases}
use drive_server_wip.Prelude.Outcome.Steps.{
  bind-then, gets-then, lift-then, throw_if-then, state-of_eq, gets-run, bind-of_ok, bind-of_err,
}
use drive_server_wip.Limits.Store.{Uuid, User}
use drive_server_wip.Limits.{VersioningLimits, get_file_versioning_limits}
use drive_server_wip.Files.Store.{
  FileVersion, File, Store, CreateFileVersionData, deleted, is_version_of, is_file_of, sort_newest,
  days_ago, find_all_by_file_id, set_status, set_content, new_version, create_version,
  insert_version, is_same_content, update_content, all_of,
}
use drive_server_wip.Files.Versions.{
  versions_to_delete, delete_versions, apply_retention_policy, create_file_version, version_data,
}
use drive_server_wip.Files.Retention.{
  has_id_of, count-update_out, versions_to_delete-leaves, count-sort_newest,
}

abbrev pub with_deleted : List FileVersion → Store → Store
with_deleted chosen s = record s {
  versions = update (has_id_of chosen) (set_status deleted) s.versions;
}

update-nowhere :
    (g : FileVersion → FileVersion) (vs : List FileVersion) → update (has_id_of []) g vs ≡ vs
update-nowhere g [] = refl
update-nowhere g (v ∷ vs) = ap (◌∷◌ v) (update-nowhere g vs)

delete_versions-run :
    (chosen : List FileVersion) (s : Store)
    → delete_versions chosen s ≡ (ok tt, with_deleted chosen s)
delete_versions-run [] s =
    ap (λ vs. (ok tt, record s { versions = vs }))
      (sym (update-nowhere (set_status deleted) s.versions))
delete_versions-run (v ∷ vs) s = refl

-- The old ones among the rows that pass a test.
pub count-of_old :
    (r p old : FileVersion → Bool) (vs : List FileVersion)
    → count r (find_all old (sort_newest (find_all p vs)))
      ≡ count r (find_all (λ v. p v && old v) vs)
count-of_old r p old vs =
    counted (sort_newest (find_all p vs))
    ∙ count-sort_newest (λ v. r v && old v) (find_all p vs)
    ∙ both vs
  where
    counted : (xs : List FileVersion) → count r (find_all old xs) ≡ count (λ v. r v && old v) xs
    counted [] = refl
    counted (x ∷ xs) = ground (arith, counted xs)

    both :
        (xs : List FileVersion)
        → count (λ v. r v && old v) (find_all p xs) ≡ count r (find_all (λ v. p v && old v) xs)
    both [] = refl
    both (x ∷ xs) = ground (arith, both xs)

abbrev pub is_old_version_of : Uuid → ℕ → FileVersion → Bool
is_old_version_of file cutoff v = is_version_of file v && ltb v.created_at cutoff

-- What a retention that returned has left: room for one more version, and none that is too old.
apply_retention_policy-leaves :
    (file user : Uuid) (s : Store) {s' : Store}
    → apply_retention_policy file user s ≡ (ok tt, s')
    → (limits : VersioningLimits) × (chosen : List FileVersion) × (get_file_versioning_limits user
          s.limits
        ≡ ok limits)
      × (s' ≡ with_deleted chosen s)
      × (suc (count (is_version_of file) s'.versions) ≤ limits.max_versions)
      × (count (is_old_version_of file (days_ago limits.retention_days s)) s'.versions ≡ 0)
unfolding apply_retention_policy
apply_retention_policy-leaves file user s e = gets-then _ _ e λ e. lift-then _ _ e λ limits found e.
    gets-then _ _ e λ e. gets-then _ _ e λ e. lift-then _ _ e λ chosen to_delete e.
      let live = is_version_of file in
      let cutoff = days_ago limits.retention_days s in
      let left : FileVersion → Bool = λ v. not (has_id_of chosen v) in
      let (most, none_old) =
        versions_to_delete-leaves cutoff limits.max_versions (find_all_by_file_id file s)
          to_delete in
      let after = sym (delete_versions-run chosen s) ∙ e in
      let out =
        count-update_out live (has_id_of chosen) (set_status deleted) s.versions
          (λ v. ground arith) in
      let old_out =
        count-update_out (is_old_version_of file cutoff) (has_id_of chosen) (set_status deleted)
          s.versions (λ v. ground arith) in
      let sorted = count-sort_newest left (find_all live s.versions) in
      let old = count-of_old left live (λ v. ltb v.created_at cutoff) s.versions in
      rw (← (state-of_eq after)) (
        limits,
        chosen,
        found,
        refl,
        omega (arith, out, sorted, most),
        omega (arith, old_out, old, none_old),
      )

-- Two writes of which the second never throws.
all_of-ok :
    (m k : Action Store (Unit {0})) {s s' : Store}
    → all_of m k s ≡ (ok tt, s')
    → (s1 : Store) × (m s ≡ (ok tt, s1)) × (k s1 ≡ (ok tt, s'))
unfolding all_of
all_of-ok m k {s} e = elim (Outcome-cases (m s)) [
  | inl (x, s1, failed) ↦ absurd (ground arith)
  | inr (a, s1, done) ↦ (s1, done, ground arith)
]

create_version-inserts :
    (version : CreateFileVersionData) (s : Store) {s' : Store}
    → create_version version s ≡ (ok tt, s')
    → (find_one (is_same_content version) s.versions ≡ none)
      × ◌≡◌ {A = Result (Unit {0}) × Store} (insert_version version s) (ok tt, s')
unfolding create_version
create_version-inserts version s e = throw_if-then _ _ _ e λ stored e. gets-then _ _ e λ e.
    throw_if-then _ _ _ e λ free e.
      elim (Option-cases (find_one (is_same_content version) s.versions)) [
        | inl missing ↦ (missing, e)
        | inr (v, taken) ↦ absurd (ground arith)
      ]

abbrev pub stored : User → File → Option Uuid → ℕ → Option ℕ → Store → Store
stored user file network size time s = record s {
  files = update (is_file_of file.uuid user.id) (set_content network size s.now time) s.files;
  versions = create (new_version (version_data user file) s) s.versions;
  next_id = suc s.next_id;
}

store_content-stored :
    (user : User) (file : File) (network : Option Uuid) (size : ℕ) (time : Option ℕ) (s : Store)
    {s' : Store}
    → all_of
        (create_version (version_data user file))
        (update_content file.uuid user.id network size time)
        s
      ≡ (ok tt, s')
    → s' ≡ stored user file network size time s
store_content-stored user file network size time s e =
    let (s2, created, updated) = all_of-ok _ _ e in
    let (free, inserted) = create_version-inserts (version_data user file) s created in
    rw (← (state-of_eq updated), ← (state-of_eq inserted)) refl

-- A request that gives a file a new content and returns has made the earlier content a version, has
-- only deleted some of the other versions, and has written the new content to the file; of the
-- versions of the file at most as many exist as the plan of the user allows, and none that is older
-- than it allows.
pub create_file_version-retains :
    (user : User) (file : File) (network : Option Uuid) (size : ℕ) (time : Option ℕ) (s : Store)
    {s' : Store}
    → create_file_version user file network size time s ≡ (ok tt, s')
    → (limits : VersioningLimits) × (chosen : List FileVersion) × (get_file_versioning_limits
          user.uuid s.limits
        ≡ ok limits)
      × (s' ≡ stored user file network size time (with_deleted chosen s))
      × (count (is_version_of file.uuid) s'.versions ≤ limits.max_versions)
      × (count (is_old_version_of file.uuid (days_ago limits.retention_days s)) s'.versions ≡ 0)
unfolding create_file_version
create_file_version-retains user file network size time s e = bind-then _ _ e λ u s1 retained e.
    let (limits, chosen, found, same, room, none_old) =
      apply_retention_policy-leaves file.uuid user.uuid s retained in
    let final = store_content-stored user file network size time s1 e in
    let more =
      count-create (is_version_of file.uuid) (new_version (version_data user file) s1)
        s1.versions in
    let more_old =
      count-create (is_old_version_of file.uuid (days_ago limits.retention_days s))
        (new_version (version_data user file) s1) s1.versions in
    let clock : s1.now ≡ s.now = rw same refl in
    let new_is_young : is_old_version_of file.uuid (days_ago limits.retention_days s)
          (new_version (version_data user file) s1)
        ≡ false =
      ground arith in
    rw final (
      limits,
      chosen,
      found,
      ap (stored user file network size time) same,
      ground arith,
      ground arith,
    )

apply_retention_policy-no_versions :
    (file user : Uuid) (s : Store) {limits : VersioningLimits}
    → get_file_versioning_limits user s.limits ≡ ok limits
    → limits.max_versions ≡ 0
    → apply_retention_policy file user s ≡ (err type_error, s)
unfolding apply_retention_policy versions_to_delete
apply_retention_policy-no_versions file user s {limits} found none_allowed =
    gets-run (λ s. get_file_versioning_limits user s.limits) _ s
    ∙ bind-of_ok (lift (get_file_versioning_limits user s.limits)) _ {s = s} {a = limits}
        (ap (λ r. (r, s)) found)
    ∙ gets-run (days_ago limits.retention_days) _ s
    ∙ gets-run (find_all_by_file_id file) _ s
    ∙ bind-of_err
        (lift (
          versions_to_delete (days_ago limits.retention_days s) limits.max_versions
            (find_all_by_file_id file s)))
        _ {s = s} (rw none_allowed refl)

-- Where the plan allows a user no version, the request throws the engine's own error and writes
-- nothing, so the file cannot get a new content this way.
pub create_file_version-no_versions :
    (user : User) (file : File) (network : Option Uuid) (size : ℕ) (time : Option ℕ) (s : Store)
    {limits : VersioningLimits}
    → get_file_versioning_limits user.uuid s.limits ≡ ok limits
    → limits.max_versions ≡ 0
    → create_file_version user file network size time s ≡ (err type_error, s)
unfolding create_file_version
create_file_version-no_versions user file network size time s found none_allowed =
    bind-of_err (apply_retention_policy file.uuid user.uuid) _
      (apply_retention_policy-no_versions file.uuid user.uuid s found none_allowed)
