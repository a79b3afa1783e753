-- ===== src/Usage/Tests.antt =====
-- Two days of March and a replacement, and the year before.
use drive_server_wip.Prelude.{ℕ, ◌≡◌, refl, none, some, List, [], ◌∷◌}
use drive_server_wip.Prelude.Int.{ℤ, pos, negsuc, ◌+ℤ◌, ◌-ℤ◌}
use drive_server_wip.Prelude.Outcome.{ok, ◌>>=◌}
use drive_server_wip.Usage.{
  Date, Usage, UsageType, UsageStore, daily, monthly, yearly, replacement, is_temporal,
  is_at_or_before_period, get_latest_temporal_usage, create_usage, add_file_replacement_delta,
  calculate_aggregated_usage,
}
use drive_server_wip.Usage.Aggregate.{closed, calculate_aggregated_usage-closing}

abbrev on : ℕ → ℕ → ℕ → Date
on year month day = record { year = year; month = month; day = day }

abbrev row : ℕ → ℤ → Date → UsageType → Usage
row id delta period type = record {
  id = id;
  user_id = 10;
  delta = delta;
  period = period;
  type = type;
}

abbrev rows : List Usage
rows =
    row 1 (pos 500) (on 2025 12 31) yearly
    ∷ row 2 (pos 70) (on 2025 7 1) monthly
    ∷ row 3 (pos 20) (on 2026 3 1) daily
    ∷ row 4 (negsuc 4) (on 2026 3 2) replacement
    ∷ row 5 (pos 9) (on 2026 3 2) daily
    ∷ []

-- The month of 2025 is in its year.
aggregated : calculate_aggregated_usage 10 rows ≡ pos 524
unfolding calculate_aggregated_usage ◌+ℤ◌
aggregated = refl

calculate_aggregated_usage-closing_example :
    calculate_aggregated_usage 10 (closed 6 10 (on 2026 3 1) rows)
    ≡ calculate_aggregated_usage 10 rows
calculate_aggregated_usage-closing_example =
    calculate_aggregated_usage-closing 6 10 (on 2026 3 1) rows refl refl

abbrev store : UsageStore
store = record { usages = rows; next_id = 6; today = on 2026 3 4 }

-- A file of the second of March that becomes smaller
replaced :
    (add_file_replacement_delta 10 (pos 30) (pos 10) (on 2026 3 2) store).0
    ≡ ok (some (row 6 (negsuc 19) (on 2026 3 4) replacement))
unfolding add_file_replacement_delta get_latest_temporal_usage is_temporal is_at_or_before_period
    create_usage ◌-ℤ◌ ◌>>=◌
replaced = refl

-- and one of the third, which the next usage will count.
not_replaced :
    add_file_replacement_delta 10 (pos 30) (pos 10) (on 2026 3 3) store ≡ (ok none, store)
unfolding add_file_replacement_delta get_latest_temporal_usage is_temporal is_at_or_before_period
    create_usage ◌-ℤ◌ ◌>>=◌
not_replaced = refl
