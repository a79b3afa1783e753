-- ===== src/Limits/Counters/Enforce.antt =====
-- When the limits on shared items refuse a request.
use drive_server_wip.Prelude.{
  ℕ, ◌+◌, ◌≡◌, refl, ap, Bool, true, false, ◌&&◌, not, some, List, [], ◌∷◌, ◌==◌, arith, ltb, inl,
  inr, is_some, Bool-cases, Option-cases, map, ◌∙◌, ◌||◌,
}
use drive_server_wip.Prelude.Table.{find_all}
use drive_server_wip.Limits.{get_user_limit_by_label}
use drive_server_wip.Limits.Store.{
  Uuid, LimitLabels, Limit, User, LimitStore, max_shared_items, max_shared_item_invites, index,
  is_boolean_limit, should_limit_be_enforced, find_user_overridden_limit, is_feature_enabled,
  is_counter_limit_exceeded, numeral, counter, has_label, first, is_tier,
}
use drive_server_wip.Limits.Counters.{
  ItemType, SharingStore, find_one_sharing, get_shared_items_number_by_user,
  get_private_sharings_count, get_invites_count, check_max_shared_items_limit,
  check_max_invitees_per_item_limit, check_function, refuse, check_counter_limit, enforce_limit,
}

-- What a lookup by a label gives has the label.
first-label :
    {A : Type 0} (mine : A → Bool) (label : LimitLabels) (get : A → Limit) (rows : List A)
    {limit : Limit}
    → first (map get (find_all (λ r. mine r && has_label label (get r)) rows)) ≡ some limit
    → has_label label limit ≡ true
first-label mine label get [] e = cc
first-label mine label get (r ∷ rows) {limit} e =
    ground (arith, first-label mine label get rows {limit = limit})

limit-label :
    (label : LimitLabels) (user : User) (s : LimitStore) {limit : Limit}
    → get_user_limit_by_label label user s ≡ some limit
    → has_label label limit ≡ true
unfolding get_user_limit_by_label
limit-label label user s {limit} e =
    elim (Option-cases (find_user_overridden_limit user.uuid label s)) [
      | inl none_own ↦
          first-label (λ r. is_tier user.tier_id r.tier_id) label (λ r. r.limit) s.tier_limits
            (rw none_own at e)
      | inr (own, found) ↦
          let same : own ≡ limit = ground arith in
          rw (← same)
            (first-label (λ r. r.user_id == user.uuid) label (λ r. r.limit) s.overridden found)
    ]

is_max_shared_items :
    (label : LimitLabels)
    → (index label == index max_shared_items) ≡ true
    → label ≡ max_shared_items
is_max_shared_items max_shared_items h = refl
is_max_shared_items label h = absurd (ground arith)

is_max_shared_item_invites :
    (label : LimitLabels)
    → (index label == index max_shared_item_invites) ≡ true
    → label ≡ max_shared_item_invites
is_max_shared_item_invites max_shared_item_invites h = refl
is_max_shared_item_invites label h = absurd (ground arith)

enforce_limit-found :
    (label : LimitLabels) (user : User) (item : Uuid) (type : ItemType) (s : SharingStore)
    {limit : Limit}
    → get_user_limit_by_label label user s.limits ≡ some limit
    → limit.kind ≡ counter
    → enforce_limit label user item type s
      ≡ check_counter_limit limit (check_function limit.label limit user item type s)
unfolding enforce_limit get_user_limit_by_label is_boolean_limit
enforce_limit-found label user item type s found counts = rw (found, counts) refl

counter-enforced :
    (limit : Limit) (bypass : Bool) (current n : ℕ)
    → limit.kind ≡ counter
    → limit.value ≡ numeral n
    → should_limit_be_enforced limit bypass current ≡ not (bypass || ltb current n)
unfolding should_limit_be_enforced is_boolean_limit is_feature_enabled is_counter_limit_exceeded
counter-enforced limit true current n counts value = refl
counter-enforced limit false current n counts value = rw (counts, value) (ground arith)

shared_items-enforced :
    (limit : Limit) (user : User) (item : Uuid) (s : SharingStore) (n : ℕ)
    → limit.kind ≡ counter
    → limit.value ≡ numeral n
    → check_max_shared_items_limit limit user item s
      ≡ not
          (is_some (find_one_sharing item s) || ltb (get_shared_items_number_by_user user.uuid s) n)
unfolding check_max_shared_items_limit
shared_items-enforced limit user item s n counts value =
    elim (Bool-cases (is_some (find_one_sharing item s))) [
      | inl shared ↦ rw shared (counter-enforced limit true 0 n counts value)
      | inr unshared ↦ rw unshared (
          counter-enforced limit false (get_shared_items_number_by_user user.uuid s) n counts value)
    ]

-- Where a user's limits on shared items, or their tier's, are numbers, to share an item is allowed
-- exactly if the item is shared already or the user shares fewer items than the one number, and to
-- invite to an item exactly if those who have the item, those who are invited to it and its owner are
-- fewer than the other.
pub enforce_limit-counts :
    (user : User) (item : Uuid) (type : ItemType) (s : SharingStore) (items invitees : ℕ)
    {of_items of_invitees : Limit}
    → get_user_limit_by_label max_shared_items user s.limits ≡ some of_items
    → of_items.kind ≡ counter
    → of_items.value ≡ numeral items
    → get_user_limit_by_label max_shared_item_invites user s.limits ≡ some of_invitees
    → of_invitees.kind ≡ counter
    → of_invitees.value ≡ numeral invitees
    → (enforce_limit max_shared_items user item type s
        ≡ refuse (
            not (
              is_some (find_one_sharing item s)
              || ltb (get_shared_items_number_by_user user.uuid s) items)))
      × (enforce_limit max_shared_item_invites user item type s
          ≡ refuse (
              not (
                ltb
                  (get_private_sharings_count item type s + get_invites_count item type s + 1)
                  invitees)))
unfolding check_max_invitees_per_item_limit
enforce_limit-counts user item type s items invitees {of_items} {of_invitees} found counts value
      found' counts' value' =
    let label =
      is_max_shared_items of_items.label (limit-label max_shared_items user s.limits found) in
    let label' =
      is_max_shared_item_invites of_invitees.label
        (limit-label max_shared_item_invites user s.limits found') in
    (
      enforce_limit-found max_shared_items user item type s found counts
          ∙ ap (λ l. check_counter_limit of_items (check_function l of_items user item type s))
              label
          ∙ ap refuse (shared_items-enforced of_items user item s items counts value),
      enforce_limit-found max_shared_item_invites user item type s found' counts'
          ∙ ap
              (λ l. check_counter_limit of_invitees (check_function l of_invitees user item type s))
              label'
          ∙ ap refuse (
              counter-enforced of_invitees false
                (get_private_sharings_count item type s + get_invites_count item type s + 1)
                invitees counts' value'),
    )
