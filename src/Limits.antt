-- ===== src/Limits.antt =====
-- src/modules/feature-limit/feature-limit.service.ts: what a user's plan allows. A user's own limit
-- stands before that of the tier.
pub mod Store
pub mod Versioning
pub mod Upload
pub mod Counters
mod Tests
use drive_server_wip.Prelude.{
  ℕ, Bool, true, false, ◌&&◌, Option, none, some, List, [], ◌∷◌, map, ◌==◌, if◌then◌else◌, is_some,
}
use drive_server_wip.Prelude.Outcome.{Result, ok, err, not_found}
use Store.{
  Uuid, LimitLabels, Value, Limit, User, LimitStore, BusinessWorkspace, index, is_true,
  number_or_zero, file_version_enabled, file_version_max_size, file_version_retention_days,
  file_version_max_number, cli_access, rclone_access, is_feature_enabled, find_by_uuid,
  find_by_owner, find_by_uuids, find_user_overridden_limit, find_user_overridden_limits_by_labels,
  find_limits_by_labels_and_tier, find_limits_by_label_and_tiers, find_limit_by_label_and_tier,
}

-- A `Map` from labels to values.
abbrev pub LimitsMap : Type 0
LimitsMap = LimitLabels → Option Value

abbrev pub set : LimitsMap → LimitLabels → Value → LimitsMap
set m label value other = if index other == index label then some value else m other

abbrev pub set_all : LimitsMap → List Limit → LimitsMap
set_all m [] = m
set_all m (limit ∷ limits) = set_all (set m limit.label limit.value) limits

pub record VersioningLimits : Type 0 where
  pub enabled : Bool
  pub max_file_size : ℕ
  pub retention_days : ℕ
  pub max_versions : ℕ

abbrev pub file_versioning_labels : List LimitLabels
file_versioning_labels =
    file_version_enabled ∷ file_version_max_size ∷ file_version_retention_days
    ∷ file_version_max_number ∷ []

abbrev pub is_true_value : Option Value → Bool
is_true_value none = false
is_true_value (some v) = is_true v

unfoldable pub get_file_versioning_limits_by_tier :
    Uuid → Option Uuid → LimitStore → VersioningLimits
get_file_versioning_limits_by_tier user_uuid tier_id s =
    let user_overridden_limits =
      find_user_overridden_limits_by_labels user_uuid file_versioning_labels s in
    let tier_limits = find_limits_by_labels_and_tier tier_id file_versioning_labels s in
    let limits_map = set_all (set_all (λ label. none) tier_limits) user_overridden_limits in
    record {
      enabled = is_true_value (limits_map file_version_enabled);
      max_file_size = number_or_zero (limits_map file_version_max_size);
      retention_days = number_or_zero (limits_map file_version_retention_days);
      max_versions = number_or_zero (limits_map file_version_max_number);
    }

unfoldable pub get_file_versioning_limits : Uuid → LimitStore → Result VersioningLimits
get_file_versioning_limits user_uuid s = elim (find_by_uuid user_uuid s) [
  | none ↦ err (not_found "User not found")
  | some user ↦ ok (get_file_versioning_limits_by_tier user_uuid user.tier_id s)
]

-- `a ?? b`
abbrev pub or_else : {A : Type 0} → Option A → Option A → Option A
or_else none b = b
or_else (some a) b = some a

unfoldable pub get_user_limit_by_label : LimitLabels → User → LimitStore → Option Limit
get_user_limit_by_label label user s =
    or_else (find_user_overridden_limit user.uuid label s)
      (find_limit_by_label_and_tier user.tier_id label s)

-- The tiers of users that have one.
abbrev tiers_of : List User → List (Option Uuid)
tiers_of [] = []
tiers_of (u ∷ us) = let rest = tiers_of us in if is_some u.tier_id then u.tier_id ∷ rest else rest

unfoldable pub get_user_business_tiers : Uuid → LimitStore → List (Option Uuid)
get_user_business_tiers user_uuid s =
    tiers_of (find_by_uuids (map (λ w. w.workspace_user_id) (find_by_owner user_uuid s)) s)

-- The platforms of the code's table, and any other.
pub data Platform : Type 0 where
  cli rclone : Platform
  other_platform : Platform

abbrev pub platform_limit_label : Platform → Option LimitLabels
platform_limit_label cli = some cli_access
platform_limit_label rclone = some rclone_access
platform_limit_label other_platform = none

abbrev pub is_any_enabled : List Limit → Bool
is_any_enabled [] = false
is_any_enabled (limit ∷ limits) =
    let rest = is_any_enabled limits in if is_feature_enabled limit then true else rest

abbrev allowed_by_tiers : List Limit → Bool
allowed_by_tiers [] = true
allowed_by_tiers (limit ∷ limits) = is_any_enabled (limit ∷ limits)

abbrev access_with : Option Limit → List Limit → Bool
access_with (some overridden) tier_limits = is_feature_enabled overridden
access_with none tier_limits = allowed_by_tiers tier_limits

unfoldable pub can_user_access_platform : Platform → Uuid → LimitStore → Result Bool
unfolding get_user_business_tiers
can_user_access_platform platform user_uuid s = elim (platform_limit_label platform) [
  | none ↦ ok true
  | some label ↦ elim (find_by_uuid user_uuid s) [
    | none ↦ err (not_found "User not found")
    | some user ↦ ok (
        access_with (find_user_overridden_limit user.uuid label s) (
          find_limits_by_label_and_tiers (user.tier_id ∷ get_user_business_tiers user.uuid s) label
            s))
  ]
]
