-- ===== src/Limits/Upload/Cached.antt =====
-- The check of a file's size, with and without the cache.
use drive_server_wip.Prelude.{
  ℕ, ◌≡◌, refl, ap, Bool, false, Option, none, some, inl, inr, ltb, arith, if◌then◌else◌,
  Option-cases, sym, ◌∙◌,
}
use drive_server_wip.Prelude.Outcome.{
  Result, ok, err, Action, payment_required, pure, catch, ◌>>=◌, Outcome-cases,
}
use drive_server_wip.Prelude.Outcome.Steps.{bind-of_ok}
use drive_server_wip.Limits.Store.{
  Uuid, LimitLabels, Value, Limit, User, LimitStore, number, exceeds, max_upload_file_size, numeral,
  true_text, other_text, find_user_overridden_limit, find_limit_by_label_and_tier,
}
use drive_server_wip.Limits.Upload.{
  CacheManager, get_tier_limit, set_tier_limit, size_in, get_max_upload_file_size, check_size,
  check_found_limit, check_tier_limit, enforce_max_upload_file_size, IsCoherent, IsCache, tier_of,
  label_of, tier_limit,
}

-- Whether a size is above a limit that is there and is a number.
abbrev pub is_above : ℕ → Option (Option ℕ) → Bool
is_above size none = false
is_above size (some none) = false
is_above size (some (some limit)) = ltb limit size

abbrev pub verdict : ℕ → Option (Option ℕ) → Result (Unit {0})
verdict size limit =
    if is_above size limit
    then err (payment_required "File size exceeds the maximum allowed by your plan")
    else ok tt

exceeds-number : (n : ℕ) (v : Value) → exceeds n v ≡ is_above n (some (number v))
exceeds-number n true_text = refl
exceeds-number n (numeral m) = refl
exceeds-number n other_text = refl

module _ (cache_manager : CacheManager) where
  open cache_manager use {Cache, get, set}

  check_size-run :
      (n : ℕ) (v : Value) (c : Cache)
      → check_size cache_manager n v c ≡ (verdict n (some (number v)), c)
  unfolding check_size
  check_size-run n v c = rw (← (exceeds-number n v)) refl

  IsCoherent-set :
      (db : LimitStore) (tier : Option Uuid) (label : LimitLabels) (limit : Limit) (c : Cache)
      → IsCache cache_manager
      → IsCoherent cache_manager db c
      → find_limit_by_label_and_tier tier label db ≡ some limit
      → IsCoherent cache_manager db (set_tier_limit cache_manager tier label limit.value c).1
  IsCoherent-set db tier label limit c laws fits found = record {
    same = λ other label' v e.
        elim (laws.get-set (tier_limit tier label) (tier_limit other label') limit.value v 600000 c
          e) [
            | inl old ↦ fits.same other label' v old
            | inr (same_key, w) ↦
                (limit, rw (ap tier_of same_key, ap label_of same_key) found, sym w)
          ];
  }

  attempt-run :
      (m : Action Cache (Unit {0})) (c : Cache) → catch m (λ e. pure tt) c ≡ (ok tt, (m c).1)
  unfolding catch
  attempt-run m c = elim (Outcome-cases (m c)) [
    | inl (e, c1, failed) ↦ ground arith
    | inr (a, c1, done) ↦ ground arith
  ]

  check_tier_limit-run :
      (user : User) (n : ℕ) (db : LimitStore) (cached : Option Value) (c : Cache)
      → IsCache cache_manager
      → IsCoherent cache_manager db c
      → get_tier_limit cache_manager c user.tier_id max_upload_file_size ≡ ok cached
      → ((check_tier_limit cache_manager user n db cached c).0
          ≡ verdict n (size_in (find_limit_by_label_and_tier user.tier_id max_upload_file_size db)))
        × IsCoherent cache_manager db (check_tier_limit cache_manager user n db cached c).1
  unfolding check_tier_limit check_found_limit
  check_tier_limit-run user n db (some v) c laws fits e =
      let (limit, found, same) = fits.same user.tier_id max_upload_file_size v e in
      rw (found, same, check_size-run n v c) (refl, fits)
  check_tier_limit-run user n db none c laws fits e =
      elim (Option-cases (find_limit_by_label_and_tier user.tier_id max_upload_file_size db)) [
        | inl missing ↦ rw missing (refl, fits)
        | inr (limit, found) ↦
            let run =
              bind-of_ok
                (catch (set_tier_limit cache_manager user.tier_id max_upload_file_size limit.value)
                  (λ e. pure tt))
                (λ u. check_size cache_manager n limit.value)
                (attempt-run
                  (set_tier_limit cache_manager user.tier_id max_upload_file_size limit.value) c)
              ∙ check_size-run n limit.value
                  (set_tier_limit cache_manager user.tier_id max_upload_file_size limit.value
                    c).1 in
            rw (found, run)
              (refl, IsCoherent-set db user.tier_id max_upload_file_size limit c laws fits found)
      ]

  -- If the cache gives what was set or less, and holds what the tables say, and answers, the check of a
  -- file's size throws exactly if the size is above the limit that the tables give, with or without the
  -- cache, and leaves a cache that holds what the tables say.
  pub enforce_max_upload_file_size-cached :
      (user : User) (n : ℕ) (db : LimitStore) (c : Cache) {cached : Option Value}
      → IsCache cache_manager
      → IsCoherent cache_manager db c
      → get_tier_limit cache_manager c user.tier_id max_upload_file_size ≡ ok cached
      → ((enforce_max_upload_file_size cache_manager user n db c).0
          ≡ verdict n (get_max_upload_file_size user db))
        × IsCoherent cache_manager db (enforce_max_upload_file_size cache_manager user n db c).1
  unfolding enforce_max_upload_file_size get_max_upload_file_size ◌>>=◌
  enforce_max_upload_file_size-cached user n db c {cached} laws fits e =
      elim (Option-cases (find_user_overridden_limit user.uuid max_upload_file_size db)) [
        | inl none_own ↦ rw (none_own, e) (check_tier_limit-run user n db cached c laws fits e)
        | inr (own, found) ↦ rw (found, check_size-run n own.value c) (refl, fits)
      ]
