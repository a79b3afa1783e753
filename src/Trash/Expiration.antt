-- ===== src/Trash/Expiration.antt =====
-- When items in the trash expire: src/modules/trash/trash-expiration.utils.ts, the conditions with which the
-- trash is listed (trash.controller.ts, folder.repository.ts), and those with which a job empties the
-- trash of a tier (src/modules/jobs/tasks/trash-cleanup, file.repository.ts). Times are milliseconds since
-- 1970.
use drive_server_wip.Prelude.{
  ℕ, ◌+◌, ◌-◌, ◌*◌, ◌≤◌, ◌<◌, ◌≡◌, ◌∙◌, refl, Bool, true, false, Option, none, some, ◌==◌, arith,
  ltb, leb, if◌then◌else◌, ◌↔◌, Bool-cases, inl, inr,
}
use drive_server_wip.Limits.Store.{
  Uuid, Limit, LimitStore, User, number, trash_retention_days, find_user_overridden_limit,
  find_limit_by_label_and_tier,
}
use drive_server_wip.Limits.{get_user_limit_by_label}

-- 10 March 2026
abbrev pub trash_expiration_start_date : ℕ
trash_expiration_start_date = 1773100800000

abbrev pub days : ℕ → ℕ
days n = n * 86400000

abbrev pub calculate_trash_expiration_date : ℕ → ℕ → ℕ
calculate_trash_expiration_date retention_days deleted_at =
    (if ltb deleted_at trash_expiration_start_date then trash_expiration_start_date else deleted_at)
    + days retention_days

-- A time before 1970 is 0 here, which comes before the start as well.
abbrev pub get_trash_not_expired_cutoff_date : ℕ → ℕ → Option ℕ
get_trash_not_expired_cutoff_date retention_days now =
    if leb (now - days retention_days) trash_expiration_start_date
    then none
    else some (now - days retention_days)

-- `retentionDays ? ... : null`
abbrev pub cutoff_date : Option ℕ → ℕ → Option ℕ
cutoff_date none now = none
cutoff_date (some n) now = if n == 0 then none else get_trash_not_expired_cutoff_date n now

abbrev pub expires_at : Option ℕ → ℕ → Option ℕ
expires_at none updated_at = none
expires_at (some n) updated_at =
    if n == 0 then none else some (calculate_trash_expiration_date n updated_at)

-- `limit ? Number(limit.value) : null`
abbrev pub number_of : Option Limit → Option ℕ
number_of none = none
number_of (some limit) = number limit.value

-- Whether a row in the trash is listed.
abbrev pub is_not_expired : Option ℕ → ℕ → Bool
is_not_expired none updated_at = true
is_not_expired (some cutoff) updated_at = leb cutoff updated_at

-- The user's own limit, or the tier's. What is no number is as good as none: `retentionDays ?` takes
-- both for false.
unfoldable pub get_trash_retention_days : User → LimitStore → Option ℕ
get_trash_retention_days user s = number_of (get_user_limit_by_label trash_retention_days user s)

-- The limit of the tier that the job is for. Without one, or if it is no number, the job fails before
-- it deletes anything.
abbrev pub tier_retention_days : Option Uuid → LimitStore → Option ℕ
tier_retention_days tier_id s =
    number_of (find_limit_by_label_and_tier tier_id trash_retention_days s)

-- The cutoff date of the job, which skips a tier whose cutoff date is before the start. A time before
-- 1970 is 0 here too.
abbrev pub cleanup_cutoff : Option ℕ → ℕ → Option ℕ
cleanup_cutoff none now = none
cleanup_cutoff (some n) now =
    if ltb (now - days n) trash_expiration_start_date then none else some (now - days n)

-- The condition on the time of a row; the one on the size of a file always holds of a size.
abbrev pub is_deleted_by_tier : Option ℕ → ℕ → Bool
is_deleted_by_tier none updated_at = false
is_deleted_by_tier (some cutoff) updated_at = leb updated_at cutoff

-- Whether the job deletes a row in the trash of a user of the tier.
abbrev pub is_cleaned_up : Option Uuid → LimitStore → ℕ → ℕ → Bool
is_cleaned_up tier_id s updated_at now =
    is_deleted_by_tier (cleanup_cutoff (tier_retention_days tier_id s) now) updated_at

listed_iff :
    (n now updated_at : ℕ)
    → (is_not_expired (get_trash_not_expired_cutoff_date n now) updated_at ≡ true)
      ↔ (now ≤ calculate_trash_expiration_date n updated_at)
listed_iff n now updated_at = elim (Bool-cases (leb (now - days n) trash_expiration_start_date)) [
  | inl early ↦ rw early (ground arith)
  | inr late ↦ rw late (ground arith)
]

deleted_iff :
    (n now updated_at : ℕ)
    → (is_deleted_by_tier (cleanup_cutoff (some n) now) updated_at ≡ true)
      ↔ (calculate_trash_expiration_date n updated_at ≤ now)
deleted_iff n now updated_at = elim (Bool-cases (ltb (now - days n) trash_expiration_start_date)) [
  | inl early ↦ rw early (ground arith)
  | inr late ↦ rw late (ground arith)
]

-- The days of a user with a limit of their own.
days-own :
    (user : User) (s : LimitStore) {limit : Limit}
    → find_user_overridden_limit user.uuid trash_retention_days s ≡ some limit
    → get_trash_retention_days user s ≡ number limit.value
unfolding get_trash_retention_days get_user_limit_by_label
days-own user s own = rw own refl

days-tier :
    (user : User) (s : LimitStore)
    → find_user_overridden_limit user.uuid trash_retention_days s ≡ none
    → get_trash_retention_days user s ≡ tier_retention_days user.tier_id s
unfolding get_trash_retention_days get_user_limit_by_label
days-tier user s none_own = rw none_own refl

-- For a user without a retention of their own, in a tier that keeps items for a day at least, an item in
-- the trash is listed exactly until it expires, with that time, and the job of the tier deletes it
-- exactly from that time on.
pub expires_at-exact :
    (user : User) (s : LimitStore) (n now updated_at : ℕ)
    → find_user_overridden_limit user.uuid trash_retention_days s ≡ none
    → tier_retention_days user.tier_id s ≡ some n
    → 1 ≤ n
    → (expiration : ℕ) × (expires_at (get_trash_retention_days user s) updated_at ≡ some expiration)
      × ((is_not_expired (cutoff_date (get_trash_retention_days user s) now) updated_at ≡ true)
          ↔ (now ≤ expiration))
      × ((is_cleaned_up user.tier_id s updated_at now ≡ true) ↔ (expiration ≤ now))
expires_at-exact user s n now updated_at none_own tier some_days =
    let kept : (n == 0) ≡ false = ground arith in
    let same = days-tier user s none_own ∙ tier in
    (
      calculate_trash_expiration_date n updated_at,
      rw (same, kept) refl,
      rw (same, kept) (listed_iff n now updated_at),
      rw tier (deleted_iff n now updated_at),
    )

-- The job does not look at the retention of a user's own. Where that is longer than the tier's, an item
-- that came into the trash after the start is deleted while it is still listed, with a later time.
pub is_cleaned_up-early :
    (user : User) (s : LimitStore) (n m updated_at : ℕ) {limit : Limit}
    → find_user_overridden_limit user.uuid trash_retention_days s ≡ some limit
    → number limit.value ≡ some m
    → tier_retention_days user.tier_id s ≡ some n
    → n < m
    → trash_expiration_start_date ≤ updated_at
    → (is_cleaned_up user.tier_id s updated_at (updated_at + days n) ≡ true)
      × (is_not_expired
            (cutoff_date (get_trash_retention_days user s) (updated_at + days n))
            updated_at
          ≡ true)
      × (expiration : ℕ) × (expires_at (get_trash_retention_days user s) updated_at
          ≡ some expiration)
      × (updated_at + days n < expiration)
is_cleaned_up-early user s n m updated_at own days_own tier longer started =
    let kept : (m == 0) ≡ false = ground arith in
    let same = days-own user s own ∙ days_own in
    let expiration = calculate_trash_expiration_date m updated_at in
    let later : updated_at + days n < expiration = ground arith in
    (
      rw tier ((deleted_iff n (updated_at + days n) updated_at).1 (ground arith)),
      rw (same, kept) ((listed_iff m (updated_at + days n) updated_at).1 (omega arith)),
      expiration,
      rw (same, kept) refl,
      later,
    )
