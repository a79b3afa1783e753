-- ===== src/Limits/Counters.antt =====
-- src/modules/feature-limit/feature-limit.usecase.ts: limits on how many items a user shares, and with
-- how many others an item is shared.
pub mod Enforce
use drive_server_wip.Prelude.{
  ℕ, ◌+◌, ◌<◌, ◌≡◌, refl, ap, Bool, true, false, ◌&&◌, not, Option, none, some, List, [], ◌∷◌, ◌==◌,
  arith, ltb, ◌⊎◌, inl, inr, if◌then◌else◌, is_some, Bool-cases, Option-cases, map, ◌∙◌, ◌||◌,
}
use drive_server_wip.Prelude.Table.{find_one, find_all, count}
use drive_server_wip.Prelude.Outcome.{Result, ok, err, payment_required, internal_error}
use drive_server_wip.Limits.{or_else, get_user_limit_by_label}
use drive_server_wip.Limits.Store.{
  Uuid, LimitLabels, Limit, User, LimitStore, max_shared_items, max_shared_item_invites, index,
  is_boolean_limit, should_limit_be_enforced, find_user_overridden_limit,
  find_limit_by_label_and_tier, is_feature_enabled, is_counter_limit_exceeded, is_counter, reaches,
  numeral, counter, has_label, first, is_tier,
}

pub data ItemType : Type 0 where
  folder file : ItemType

abbrev same_type : ItemType → ItemType → Bool
same_type folder folder = true
same_type folder file = false
same_type file folder = false
same_type file file = true

-- The columns of `sharings` and of `sharing_invites` that are counted.
pub record Sharing : Type 0 where
  pub owner_id : Uuid
  pub item_id : Uuid
  pub item_type : ItemType
  pub is_private : Bool

pub record SharingInvite : Type 0 where
  pub item_id : Uuid
  pub item_type : ItemType

pub record SharingStore : Type 0 where
  pub limits : LimitStore
  pub sharings : List Sharing
  pub invites : List SharingInvite

-- `findOneSharingBy({ itemId })`
abbrev pub find_one_sharing : Uuid → SharingStore → Option Sharing
find_one_sharing item s = find_one (λ x. x.item_id == item) s.sharings

-- `count` of the distinct items: a row counts if no later one is of the same item and owner.
abbrev pub count_distinct_items : Uuid → List Sharing → ℕ
count_distinct_items owner [] = 0
count_distinct_items owner (x ∷ xs) =
    (if x.owner_id == owner
        && not (is_some (find_one (λ y. y.owner_id == owner && y.item_id == x.item_id) xs))
      then 1
      else 0)
    + count_distinct_items owner xs

abbrev pub get_shared_items_number_by_user : Uuid → SharingStore → ℕ
get_shared_items_number_by_user user s = count_distinct_items user s.sharings

abbrev pub get_private_sharings_count : Uuid → ItemType → SharingStore → ℕ
get_private_sharings_count item type s =
    count (λ x. x.item_id == item && same_type x.item_type type && x.is_private) s.sharings

abbrev pub get_invites_count : Uuid → ItemType → SharingStore → ℕ
get_invites_count item type s =
    count (λ x. x.item_id == item && same_type x.item_type type) s.invites

unfoldable pub check_max_shared_items_limit : Limit → User → Uuid → SharingStore → Bool
check_max_shared_items_limit limit user item s =
    if is_some (find_one_sharing item s)
    then should_limit_be_enforced limit true 0
    else should_limit_be_enforced limit false (get_shared_items_number_by_user user.uuid s)

unfoldable pub check_max_invitees_per_item_limit : Limit → Uuid → ItemType → SharingStore → Bool
check_max_invitees_per_item_limit limit item type s =
    should_limit_be_enforced limit false
      (get_private_sharings_count item type s + get_invites_count item type s + 1)

-- What `limitCheckFunctions` has for a label of a limit, with the item of the request; `none` for a
-- label that has no function.
abbrev pub check_function :
    LimitLabels → Limit → User → Uuid → ItemType → SharingStore → Option Bool
check_function max_shared_items limit user item type s =
    some (check_max_shared_items_limit limit user item s)
check_function max_shared_item_invites limit user item type s =
    some (check_max_invitees_per_item_limit limit item type s)
check_function label limit user item type s = none

abbrev pub refuse : Bool → Result Bool
refuse true = err (payment_required "Limit exceeded for label")
refuse false = ok false

abbrev pub check_counter_limit : Limit → Option Bool → Result Bool
check_counter_limit limit none = err (internal_error "Internal Server Error")
check_counter_limit limit (some is_limit_surpassed) = refuse is_limit_surpassed

abbrev pub enforce_found_limit : Option Limit → User → Uuid → ItemType → SharingStore → Result Bool
enforce_found_limit none user item type s = err (internal_error "Internal Server Error")
enforce_found_limit (some limit) user item type s =
    if is_boolean_limit limit
    then if should_limit_be_enforced limit false 0
      then err (payment_required "Feature not available for label")
      else ok false
    else check_counter_limit limit (check_function limit.label limit user item type s)

unfoldable pub enforce_limit : LimitLabels → User → Uuid → ItemType → SharingStore → Result Bool
enforce_limit label user item type s =
    enforce_found_limit
      (or_else (find_user_overridden_limit user.uuid label s.limits)
        (find_limit_by_label_and_tier user.tier_id label s.limits))
      user item type s
