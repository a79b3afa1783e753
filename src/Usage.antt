-- ===== src/Usage.antt =====
-- The storage that a user's files take: src/modules/usage (usage.service.ts, usage.domain.ts and
-- usage.repository.ts).
pub mod Aggregate
mod Tests
use drive_server_wip.Prelude.{
  ℕ, suc, Bool, true, false, ◌&&◌, ◌||◌, not, Option, none, some, List, [], ◌∷◌, ◌==◌, ltb,
  if◌then◌else◌, any,
}
use drive_server_wip.Prelude.Int.{ℤ, pos, negsuc, ◌-ℤ◌}
use drive_server_wip.Prelude.Table.{find_all, create}
use drive_server_wip.Prelude.Sum.{sum_by}
use drive_server_wip.Prelude.Outcome.{
  Result, ok, err, Action, internal_error, pure, gets, lift, ◌>>=◌,
}

-- Identifiers are only compared.
abbrev pub Uuid : Type 0
Uuid = ℕ

pub record Date : Type 0 where
  pub year : ℕ
  pub month : ℕ
  pub day : ℕ

pub data UsageType : Type 0 where
  daily monthly yearly replacement : UsageType

pub record Usage : Type 0 where
  pub id : Uuid
  pub user_id : Uuid
  pub delta : ℤ
  pub period : Date
  pub type : UsageType

pub record UsageStore : Type 0 where
  pub usages : List Usage
  pub next_id : Uuid
  pub today : Date

abbrev pub is_yearly : UsageType → Bool
is_yearly daily = false
is_yearly monthly = false
is_yearly yearly = true
is_yearly replacement = false

abbrev pub is_monthly : UsageType → Bool
is_monthly daily = false
is_monthly monthly = true
is_monthly yearly = false
is_monthly replacement = false

-- `isTemporal`
unfoldable pub is_temporal : UsageType → Bool
is_temporal daily = true
is_temporal monthly = true
is_temporal yearly = true
is_temporal replacement = false

-- Dates by their years, by their months too, and by their days too
abbrev pub is_before_month : Date → Date → Bool
is_before_month a b = ltb a.year b.year || (a.year == b.year && ltb a.month b.month)

abbrev pub is_same_month : Date → Date → Bool
is_same_month a b = a.year == b.year && a.month == b.month

abbrev pub is_before : Date → Date → Bool
is_before a b = is_before_month a b || (is_same_month a b && ltb a.day b.day)

unfoldable pub is_at_or_before_period : Usage → Date → Result Bool
is_at_or_before_period usage date = elim (usage.type) [
  | daily ↦ ok (not (is_before usage.period date))
  | monthly ↦ ok (not (is_before_month usage.period date))
  | yearly ↦ ok (not (ltb usage.period.year date.year))
  | replacement ↦
      err
        (internal_error "Cannot check period comparison for non-temporal usage of type replacement")
]

-- The first of the rows with the last period
abbrev pub latest : Usage → List Usage → Usage
latest u [] = u
latest u (v ∷ vs) =
    let later = latest v vs in
    let same = latest u vs in if is_before u.period v.period then later else same

abbrev pub latest_of : List Usage → Option Usage
latest_of [] = none
latest_of (u ∷ us) = some (latest u us)

unfoldable pub get_latest_temporal_usage : Uuid → UsageStore → Option Usage
get_latest_temporal_usage user s =
    latest_of (find_all (λ u. u.user_id == user && is_temporal u.type) s.usages)

abbrev pub add_usage : Usage → UsageStore → UsageStore
add_usage u s = record s { usages = create u s.usages; next_id = suc s.next_id }

-- A row of the user, of a period and with a change
unfoldable pub create_usage : Uuid → Date → ℤ → UsageType → Action UsageStore Usage
create_usage user period delta type s =
    let usage : Usage = record {
      id = s.next_id;
      user_id = user;
      delta = delta;
      period = period;
      type = type;
    } in
    (ok usage, add_usage usage s)

unfoldable pub create_daily_usage : Uuid → Date → ℤ → Action UsageStore Usage
create_daily_usage user period delta = create_usage user period delta daily

abbrev pub is_zero : ℤ → Bool
is_zero (pos n) = n == 0
is_zero (negsuc n) = false

abbrev pub replaced_after : Option Usage → Date → Result Bool
replaced_after none created_at = ok false
replaced_after (some usage) created_at = is_at_or_before_period usage created_at

-- The change of a file's size by another content, if the file is in the usages that are stored
unfoldable pub add_file_replacement_delta : Uuid → ℤ → ℤ → Date → Action UsageStore (Option Usage)
add_file_replacement_delta user old_size new_size created_at = do
  latest_usage ← gets (get_latest_temporal_usage user)
  counted ←
      lift (
        if is_zero (new_size -ℤ old_size) then ok false else replaced_after latest_usage created_at)
  today ← gets (λ s. s.today)
  let add = create_usage user today (new_size -ℤ old_size) replacement >>= λ u. pure (some u) in
      if counted then add else pure none

-- `EXISTS (SELECT 1 FROM has_yearly WHERE ...)`, and the same for months
abbrev pub has_yearly : Uuid → Date → List Usage → Bool
has_yearly user date us =
    any (λ u. u.user_id == user && is_yearly u.type && u.period.year == date.year) us

abbrev pub has_monthly : Uuid → Date → List Usage → Bool
has_monthly user date us =
    any (λ u. u.user_id == user && is_monthly u.type && is_same_month u.period date) us

-- The rows of `combined_deltas`
abbrev pub is_counted : Uuid → List Usage → Usage → Bool
is_counted user us u =
    u.user_id == user
    && (is_yearly u.type
        || (not (has_yearly user u.period us)
            && (is_monthly u.type || not (has_monthly user u.period us))))

unfoldable pub calculate_aggregated_usage : Uuid → List Usage → ℤ
calculate_aggregated_usage user us = sum_by (λ u. u.delta) (is_counted user us) us
