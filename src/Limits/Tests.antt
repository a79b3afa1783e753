-- ===== src/Limits/Tests.antt =====
-- The limits of a user with a plan of a few numbers.
use drive_server_wip.Prelude.{
  not, ◌||◌, ltb, is_some, ◌+◌, ◌≡◌, refl, Bool, true, false, Option, none, some, [], ◌∷◌, inl, inr,
  if◌then◌else◌, arith, Bool-cases, sym, ◌∙◌,
}
use drive_server_wip.Prelude.Outcome.{ok, err, payment_required, catch, ◌>>=◌}
use drive_server_wip.Limits.Store.{
  LimitLabels, Limit, Value, User, LimitStore, boolean, counter, true_text, numeral,
  file_version_enabled, file_version_max_size, file_version_retention_days, file_version_max_number,
  max_upload_file_size, is_boolean_limit, is_feature_enabled, is_tier,
}
use drive_server_wip.Limits.{
  VersioningLimits, get_file_versioning_limits, get_file_versioning_limits_by_tier,
  get_user_limit_by_label, is_true_value, can_user_access_platform, cli, get_user_business_tiers,
}
use drive_server_wip.Limits.Store.{number_or_zero}
use drive_server_wip.Limits.Versioning.{get_file_versioning_limits-each, value_of}
use drive_server_wip.Limits.Upload.{
  CacheManager, CacheKey, tier_limit, IsCache, IsCoherent, enforce_max_upload_file_size,
  get_max_upload_file_size, check_size, check_tier_limit, check_found_limit,
}
use drive_server_wip.Limits.Store.{max_shared_items, max_shared_item_invites}
use drive_server_wip.Limits.Counters.{
  SharingStore, file, enforce_limit, refuse, find_one_sharing, get_shared_items_number_by_user,
  get_private_sharings_count, get_invites_count,
}
use drive_server_wip.Limits.Counters.Enforce.{enforce_limit-counts}
use drive_server_wip.Limits.Upload.Cached.{verdict, enforce_max_upload_file_size-cached}

abbrev limit_of : LimitLabels → Value → Limit
limit_of label value = record { label = label; kind = counter; value = value }

abbrev pub alice : User
alice = record { uuid = 10; id = 1; tier_id = some 7 }

-- The tier gives two versions for fifteen days, and files of at most 40 bytes; alice has three versions.
abbrev pub plans : LimitStore
plans = record {
  users = alice ∷ [];
  workspaces = [];
  tier_limits =
      record {
        tier_id = 7;
        limit = record { label = file_version_enabled; kind = boolean; value = true_text };
      }
      ∷ record { tier_id = 7; limit = limit_of file_version_max_size (numeral 1000) }
      ∷ record { tier_id = 7; limit = limit_of file_version_retention_days (numeral 15) }
      ∷ record { tier_id = 7; limit = limit_of file_version_max_number (numeral 2) }
      ∷ record { tier_id = 7; limit = limit_of max_upload_file_size (numeral 40) }
      ∷ [];
  overridden = record { user_id = 10; limit = limit_of file_version_max_number (numeral 3) } ∷ [];
}

get_file_versioning_limits-each_example :
    (limits : VersioningLimits) × (get_file_versioning_limits 10 plans ≡ ok limits)
    × (limits.enabled
        ≡ is_true_value (value_of (get_user_limit_by_label file_version_enabled alice plans)))
    × (limits.max_file_size
        ≡ number_or_zero (value_of (get_user_limit_by_label file_version_max_size alice plans)))
    × (limits.retention_days
        ≡ number_or_zero
            (value_of (get_user_limit_by_label file_version_retention_days alice plans)))
    × (limits.max_versions
        ≡ number_or_zero (value_of (get_user_limit_by_label file_version_max_number alice plans)))
get_file_versioning_limits-each_example =
    get_file_versioning_limits-each 10 plans {user = alice} refl (
      (omega arith, omega arith),
      ((omega arith, omega arith), ((omega arith, omega arith), ((omega arith, omega arith), tt))),
    )

alice_limits :
    get_file_versioning_limits 10 plans
    ≡ ok (record { enabled = true; max_file_size = 1000; retention_days = 15; max_versions = 3 })
unfolding get_file_versioning_limits get_file_versioning_limits_by_tier
alice_limits = refl

no_access_limit : can_user_access_platform cli 10 plans ≡ ok true
unfolding can_user_access_platform get_user_business_tiers is_feature_enabled is_boolean_limit
no_access_limit = refl

-- A cache with room for the upload limit of the tier 7.
abbrev is_kept : CacheKey → Bool
is_kept (tier_limit tier max_upload_file_size) = is_tier tier 7
is_kept (tier_limit tier label) = false

abbrev small_cache : CacheManager
small_cache = record {
  Cache = Option Value;
  get = λ c key. ok (if is_kept key then c else none);
  set = λ key v ttl c. (ok tt, if is_kept key then some v else c);
}

is_kept-only :
    (key : CacheKey) → is_kept key ≡ true → key ≡ tier_limit (some 7) max_upload_file_size
is_kept-only (tier_limit (some t) max_upload_file_size) h = ground arith
is_kept-only (tier_limit tier label) h = absurd (ground arith)

small_cache-IsCache : IsCache small_cache
small_cache-IsCache = record {
  get-set = λ key other v w ttl c e. elim (Bool-cases (is_kept key)) [
    | inl there ↦ elim (Bool-cases (is_kept other)) [
      | inl asked ↦ inr (is_kept-only other asked ∙ sym (is_kept-only key there), ground arith)
      | inr elsewhere ↦ inl (ground arith)
    ]
    | inr away ↦ inl (rw away at e)
  ];
}

enforce_max_upload_file_size-cached_example :
    ((enforce_max_upload_file_size small_cache alice 41 plans none).0
      ≡ verdict 41 (get_max_upload_file_size alice plans))
    × IsCoherent small_cache plans (enforce_max_upload_file_size small_cache alice 41 plans none).1
enforce_max_upload_file_size-cached_example =
    enforce_max_upload_file_size-cached small_cache alice 41 plans none small_cache-IsCache
      (record { same = λ t l v e. absurd (ground arith) }) refl

too_large : enforce_max_upload_file_size small_cache alice 41 plans none ≡ (
  err (payment_required "File size exceeds the maximum allowed by your plan"),
  some (numeral 40),
)
unfolding enforce_max_upload_file_size check_tier_limit check_found_limit check_size catch ◌>>=◌
too_large = refl

-- alice shares the items 1 and 2, the first one with two others, and has invited one more to it.
abbrev shared : SharingStore
shared = record {
  limits = record plans {
    tier_limits =
        record { tier_id = 7; limit = limit_of max_shared_items (numeral 2) }
        ∷ record { tier_id = 7; limit = limit_of max_shared_item_invites (numeral 5) }
        ∷ [];
  };
  sharings =
      record { owner_id = 10; item_id = 1; item_type = file; is_private = true }
      ∷ record { owner_id = 10; item_id = 1; item_type = file; is_private = true }
      ∷ record { owner_id = 10; item_id = 2; item_type = file; is_private = true }
      ∷ [];
  invites = record { item_id = 1; item_type = file } ∷ [];
}

enforce_limit-counts_example :
    (enforce_limit max_shared_items alice 3 file shared
      ≡ refuse (
          not (
            is_some (find_one_sharing 3 shared)
            || ltb (get_shared_items_number_by_user 10 shared) 2)))
    × (enforce_limit max_shared_item_invites alice 3 file shared
        ≡ refuse (
            not (
              ltb
                (get_private_sharings_count 3 file shared + get_invites_count 3 file shared + 1)
                5)))
unfolding get_user_limit_by_label
enforce_limit-counts_example =
    enforce_limit-counts alice 3 file shared 2 5 refl refl refl refl refl refl
