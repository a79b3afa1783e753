-- ===== src/Limits/Store.antt =====
-- The limits of src/modules/feature-limit (limits.enum.ts, domain/limit.domain.ts), and the queries of
-- feature-limit.repository.ts, workspaces.repository.ts and user.repository.ts that read them.
use drive_server_wip.Prelude.{
  ℕ, Bool, true, false, ◌&&◌, not, Option, none, some, List, [], ◌∷◌, ◌==◌, leb, ltb, if◌then◌else◌,
  is_some, map,
}
use drive_server_wip.Prelude.Table.{find_one, find_all}

-- Identifiers are only compared.
abbrev pub Uuid : Type 0
Uuid = ℕ

pub data LimitLabels : Type 0 where
  max_shared_items max_shared_item_invites cli_access platform_access file_version_enabled :
      LimitLabels
  file_version_max_size file_version_retention_days file_version_max_number : LimitLabels
  max_zero_size_files rclone_access trash_retention_days referral_access : LimitLabels
  max_upload_file_size photos_access : LimitLabels

-- The place of a label in the enumeration, by which labels are compared.
abbrev pub index : LimitLabels → ℕ
index max_shared_items = 0
index max_shared_item_invites = 1
index cli_access = 2
index platform_access = 3
index file_version_enabled = 4
index file_version_max_size = 5
index file_version_retention_days = 6
index file_version_max_number = 7
index max_zero_size_files = 8
index rclone_access = 9
index trash_retention_days = 10
index referral_access = 11
index max_upload_file_size = 12
index photos_access = 13

pub data LimitTypes : Type 0 where
  boolean counter : LimitTypes

abbrev pub is_counter : LimitTypes → Bool
is_counter boolean = false
is_counter counter = true

-- The text of a limit, by what the code reads in it: `true`, a whole number, or anything else.
pub data Value : Type 0 where
  true_text : Value
  numeral : ℕ → Value
  other_text : Value

abbrev pub is_true : Value → Bool
is_true true_text = true
is_true (numeral n) = false
is_true other_text = false

-- `Number(value)`, where `none` is not a number
abbrev pub number : Value → Option ℕ
number true_text = none
number (numeral n) = some n
number other_text = none

-- `Number(value) || 0`, for a value that may be missing
abbrev pub number_or_zero : Option Value → ℕ
number_or_zero (some (numeral n)) = n
number_or_zero (some true_text) = 0
number_or_zero (some other_text) = 0
number_or_zero none = 0

-- `count > Number(value)` and `count >= Number(value)`, which are false if it is not a number
abbrev pub exceeds : ℕ → Value → Bool
exceeds n (numeral limit) = ltb limit n
exceeds n true_text = false
exceeds n other_text = false

abbrev pub reaches : ℕ → Value → Bool
reaches n (numeral limit) = leb limit n
reaches n true_text = false
reaches n other_text = false

pub record Limit : Type 0 where
  pub label : LimitLabels
  pub kind : LimitTypes
  pub value : Value

unfoldable pub is_boolean_limit : Limit → Bool
is_boolean_limit limit = not (is_counter limit.kind)

unfoldable pub is_feature_enabled : Limit → Bool
unfolding is_boolean_limit
is_feature_enabled limit = is_boolean_limit limit && is_true limit.value

unfoldable pub is_counter_limit_exceeded : Limit → ℕ → Bool
is_counter_limit_exceeded limit current_count =
    is_counter limit.kind && reaches current_count limit.value

-- A context has whether the limit is bypassed, and a count, whose place a missing one leaves at 0.
unfoldable pub should_limit_be_enforced : Limit → Bool → ℕ → Bool
unfolding is_boolean_limit is_feature_enabled is_counter_limit_exceeded
should_limit_be_enforced limit bypass_limit current_count =
    if bypass_limit
    then false
    else if is_boolean_limit limit
    then not (is_feature_enabled limit)
    else is_counter_limit_exceeded limit current_count

-- The join of a tier's or a user's rows with the limits that they name.
pub record TierLimit : Type 0 where
  pub tier_id : Uuid
  pub limit : Limit

pub record UserOverriddenLimit : Type 0 where
  pub user_id : Uuid
  pub limit : Limit

-- The columns of `users` that the limits read.
pub record User : Type 0 where
  pub uuid : Uuid
  pub id : ℕ
  pub tier_id : Option Uuid

-- The columns of `workspaces` that the limits read.
pub record BusinessWorkspace : Type 0 where
  pub owner_id : Uuid
  pub workspace_user_id : Uuid

pub record LimitStore : Type 0 where
  pub users : List User
  pub workspaces : List BusinessWorkspace
  pub tier_limits : List TierLimit
  pub overridden : List UserOverriddenLimit

abbrev pub has_label : LimitLabels → Limit → Bool
has_label label limit = index limit.label == index label

-- A tier that is null has no rows.
abbrev pub is_tier : Option Uuid → Uuid → Bool
is_tier none id = false
is_tier (some tier) id = id == tier

abbrev pub is_in : {A : Type 0} → (A → Bool) → List A → Bool
is_in p xs = is_some (find_one p xs)

abbrev pub first : List Limit → Option Limit
first [] = none
first (x ∷ xs) = some x

abbrev pub find_limit_by_label_and_tier : Option Uuid → LimitLabels → LimitStore → Option Limit
find_limit_by_label_and_tier tier_id label s = first (
    map (λ r. r.limit)
      (find_all (λ r. is_tier tier_id r.tier_id && has_label label r.limit) s.tier_limits))

abbrev pub find_limits_by_label_and_tiers :
    List (Option Uuid) → LimitLabels → LimitStore → List Limit
find_limits_by_label_and_tiers tier_ids label s =
    map (λ r. r.limit)
      (find_all (λ r. is_in (λ t. is_tier t r.tier_id) tier_ids && has_label label r.limit)
        s.tier_limits)

abbrev pub find_limits_by_labels_and_tier : Option Uuid → List LimitLabels → LimitStore → List Limit
find_limits_by_labels_and_tier tier_id labels s =
    map (λ r. r.limit)
      (find_all (λ r. is_tier tier_id r.tier_id && is_in (λ l. has_label l r.limit) labels)
        s.tier_limits)

abbrev pub find_user_overridden_limit : Uuid → LimitLabels → LimitStore → Option Limit
find_user_overridden_limit user_id label s = first (
    map (λ r. r.limit)
      (find_all (λ r. r.user_id == user_id && has_label label r.limit) s.overridden))

abbrev pub find_user_overridden_limits_by_labels : Uuid → List LimitLabels → LimitStore → List Limit
find_user_overridden_limits_by_labels user_id labels s =
    map (λ r. r.limit)
      (find_all (λ r. r.user_id == user_id && is_in (λ l. has_label l r.limit) labels) s.overridden)

abbrev pub find_by_uuid : Uuid → LimitStore → Option User
find_by_uuid uuid s = find_one (λ u. u.uuid == uuid) s.users

abbrev pub find_by_uuids : List Uuid → LimitStore → List User
find_by_uuids uuids s = find_all (λ u. is_in (λ id. u.uuid == id) uuids) s.users

abbrev pub find_by_owner : Uuid → LimitStore → List BusinessWorkspace
find_by_owner owner s = find_all (λ w. w.owner_id == owner) s.workspaces
