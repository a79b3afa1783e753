-- ===== src/Limits/Upload.antt =====
-- src/modules/feature-limit/feature-limit.service.ts: the largest file that a user may upload, and the
-- cache of the tiers' limits.
pub mod Cached
use drive_server_wip.Prelude.{
  ℕ, ◌≡◌, refl, ap, Bool, false, Option, none, some, ◌⊎◌, inl, inr, ltb, arith, if◌then◌else◌,
  Option-cases, sym, ◌∙◌,
}
use drive_server_wip.Prelude.Outcome.{
  Result, ok, err, Action, payment_required, pure, gets, lift, throw_if, catch, ◌>>=◌, ◌>>◌,
  Outcome-cases,
}
use drive_server_wip.Prelude.Outcome.Steps.{bind-of_ok}
use drive_server_wip.Limits.Store.{
  Uuid, LimitLabels, Value, Limit, User, LimitStore, number, exceeds, max_upload_file_size, numeral,
  true_text, other_text, find_user_overridden_limit, find_limit_by_label_and_tier,
}

-- The keys of the cache that hold the limits of tiers.
pub data CacheKey : Type 0 where
  tier_limit : Option Uuid → LimitLabels → CacheKey

abbrev pub tier_of : CacheKey → Option Uuid
tier_of (tier_limit tier label) = tier

abbrev pub label_of : CacheKey → LimitLabels
label_of (tier_limit tier label) = label

-- The library's cache: entries are dropped when they are old, and a call may fail.
pub record CacheManager : Type 1 where
  pub Cache : Type 0
  pub get : Cache → CacheKey → Result (Option Value)
  pub set : CacheKey → Value → ℕ → Action Cache (Unit {0})

module _ (cache_manager : CacheManager) where
  open cache_manager use {Cache, get, set}

  abbrev pub get_tier_limit : Cache → Option Uuid → LimitLabels → Result (Option Value)
  get_tier_limit c tier_id label = get c (tier_limit tier_id label)

  -- for ten minutes
  abbrev pub set_tier_limit : Option Uuid → LimitLabels → Value → Action Cache (Unit {0})
  set_tier_limit tier_id label value = set (tier_limit tier_id label) value 600000

abbrev pub size_in : Option Limit → Option (Option ℕ)
size_in none = none
size_in (some limit) = some (number limit.value)

abbrev pub own_or_tier : Option Limit → Option Limit → Option (Option ℕ)
own_or_tier (some own) of_tier = some (number own.value)
own_or_tier none of_tier = size_in of_tier

-- `none` for null, and `some none` for a text that is no number
unfoldable pub get_max_upload_file_size : User → LimitStore → Option (Option ℕ)
get_max_upload_file_size user db =
    own_or_tier (find_user_overridden_limit user.uuid max_upload_file_size db)
      (find_limit_by_label_and_tier user.tier_id max_upload_file_size db)

module _ (cache_manager : CacheManager) where
  open cache_manager use {Cache, get, set}

  unfoldable pub check_size : ℕ → Value → Action Cache (Unit {0})
  check_size file_size value =
      throw_if (exceeds file_size value)
        (payment_required "File size exceeds the maximum allowed by your plan")

  -- The limit of the tier's rows goes into the cache; a failure to put it there is logged.
  unfoldable pub check_found_limit : User → ℕ → Option Limit → Action Cache (Unit {0})
  check_found_limit user file_size none = pure tt
  check_found_limit user file_size (some limit) =
      catch (set_tier_limit cache_manager user.tier_id max_upload_file_size limit.value)
        (λ e. pure tt)
      >> check_size file_size limit.value

  -- The limit of the tier: the cached one, or that of the tier's rows.
  unfoldable pub check_tier_limit : User → ℕ → LimitStore → Option Value → Action Cache (Unit {0})
  check_tier_limit user file_size db (some cached) = check_size file_size cached
  check_tier_limit user file_size db none =
      check_found_limit user file_size
        (find_limit_by_label_and_tier user.tier_id max_upload_file_size db)

  abbrev pub check_own_limit : User → ℕ → LimitStore → Option Limit → Action Cache (Unit {0})
  check_own_limit user file_size db (some own) = check_size file_size own.value
  check_own_limit user file_size db none = do
    answer ← gets (λ c. get_tier_limit cache_manager c user.tier_id max_upload_file_size)
    cached ← lift answer
    check_tier_limit user file_size db cached

  unfoldable pub enforce_max_upload_file_size : User → ℕ → LimitStore → Action Cache (Unit {0})
  enforce_max_upload_file_size user file_size db =
      check_own_limit user file_size db
        (find_user_overridden_limit user.uuid max_upload_file_size db)

  -- What the cache holds is what the tables say.
  pub record IsCoherent (db : LimitStore) (c : Cache) : Type 0 where
    pub same :
        (tier : Option Uuid) (label : LimitLabels) (v : Value)
        → get_tier_limit cache_manager c tier label ≡ ok (some v)
        → (limit : Limit) × (find_limit_by_label_and_tier tier label db ≡ some limit)
          × (limit.value ≡ v)

  -- A cache gives what was set, or less.
  pub record IsCache : Type 0 where
    pub get-set :
        (key other : CacheKey) (v w : Value) (ttl : ℕ) (c : Cache)
        → get (set key v ttl c).1 other ≡ ok (some w)
        → (get c other ≡ ok (some w)) ⊎ ((other ≡ key) × (w ≡ v))
