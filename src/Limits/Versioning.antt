-- ===== src/Limits/Versioning.antt =====
-- The limits of file versions, against the limit of each label.
use drive_server_wip.Prelude.{
  ◌≤◌, ◌≡◌, refl, ap, ◌∙◌, Bool, true, ◌&&◌, Option, none, some, List, [], ◌∷◌, ◌==◌, arith, map,
  sym, ==_iff, All,
}
use drive_server_wip.Prelude.Table.{find_one, find_all, count, find_one-none, find_one-passes}
use drive_server_wip.Prelude.Outcome.{ok}
use drive_server_wip.Limits.{
  LimitsMap, VersioningLimits, set, set_all, or_else, is_true_value, file_versioning_labels,
  get_file_versioning_limits, get_file_versioning_limits_by_tier, get_user_limit_by_label,
}
use drive_server_wip.Limits.Store.{
  Uuid, LimitLabels, Value, Limit, User, LimitStore, has_label, is_in, is_tier, first, find_by_uuid,
  number_or_zero, file_version_enabled, file_version_max_size, file_version_retention_days,
  file_version_max_number, find_user_overridden_limit, find_limit_by_label_and_tier,
  find_limits_by_labels_and_tier, find_user_overridden_limits_by_labels,
}

abbrev pub value_of : Option Limit → Option Value
value_of none = none
value_of (some limit) = some limit.value

-- What a map holds after every limit of a list is set, when one limit at most has the label.
set_all-at :
    (m : LimitsMap) (xs : List Limit) (label : LimitLabels)
    → count (has_label label) xs ≤ 1
    → set_all m xs label ≡ or_else (value_of (find_one (has_label label) xs)) (m label)
set_all-at m [] label h = refl
set_all-at m (x ∷ xs) label h =
    ground (arith, set_all-at (set m x.label x.value) xs label, find_one-none (has_label label) xs)

-- Rows that pass a test and have one of several labels, looked through for one of these.
module _ {A : Type 0} (mine : A → Bool) (get : A → Limit) (has listed : Limit → Bool)
    (includes : (l : Limit) → has l ≡ true → listed l ≡ true) where
  rows-find :
      (rows : List A)
      → find_one has (map get (find_all (λ r. mine r && listed (get r)) rows))
        ≡ first (map get (find_all (λ r. mine r && has (get r)) rows))
  rows-find [] = refl
  rows-find (r ∷ rows) = ground (arith, includes (get r), rows-find rows)

  rows-count :
      (rows : List A)
      → count has (map get (find_all (λ r. mine r && listed (get r)) rows))
        ≡ count (λ r. mine r && has (get r)) rows
  rows-count [] = refl
  rows-count (r ∷ rows) = ground (arith, includes (get r), rows-count rows)

-- The same rows, set in a map.
set_all-rows :
    {A : Type 0} (m : LimitsMap) (mine : A → Bool) (get : A → Limit) (listed : Limit → Bool)
    (label : LimitLabels) (rows : List A)
    → ((l : Limit) → has_label label l ≡ true → listed l ≡ true)
    → count (λ r. mine r && has_label label (get r)) rows ≤ 1
    → set_all m (map get (find_all (λ r. mine r && listed (get r)) rows)) label
      ≡ or_else
          (value_of (first (map get (find_all (λ r. mine r && has_label label (get r)) rows))))
          (m label)
set_all-rows m mine get listed label rows includes one =
    set_all-at m (map get (find_all (λ r. mine r && listed (get r)) rows)) label
      (rw (rows-count mine get (has_label label) listed includes rows) one)
    ∙ ap (λ o. or_else (value_of o) (m label))
        (rows-find mine get (has_label label) listed includes rows)

-- A user has at most one limit of a label, and a tier too.
abbrev pub HasOneLimit : Uuid → Option Uuid → LimitStore → LimitLabels → Type 0
HasOneLimit user tier s label =
    (count (λ r. r.user_id == user && has_label label r.limit) s.overridden ≤ 1)
    × (count (λ r. is_tier tier r.tier_id && has_label label r.limit) s.tier_limits ≤ 1)

value_of-or_else : (a b : Option Limit) → value_of (or_else a b) ≡ or_else (value_of a) (value_of b)
value_of-or_else none b = refl
value_of-or_else (some a) b = refl

or_else-none : (a : Option Value) → or_else a none ≡ a
or_else-none none = refl
or_else-none (some a) = refl

-- Both lists of limits in the order in which the code sets them.
map-at :
    (uuid : Uuid) (user : User) (s : LimitStore) (labels : List LimitLabels) (label : LimitLabels)
    → user.uuid ≡ uuid
    → ((l : Limit) → has_label label l ≡ true → is_in (λ k. has_label k l) labels ≡ true)
    → HasOneLimit uuid user.tier_id s label
    → set_all
        (set_all (λ l. none) (find_limits_by_labels_and_tier user.tier_id labels s))
        (find_user_overridden_limits_by_labels uuid labels s)
        label
      ≡ value_of (get_user_limit_by_label label user s)
unfolding get_user_limit_by_label
map-at uuid user s labels label same listed one =
    let own = find_user_overridden_limit uuid label s in
    let tier = find_limit_by_label_and_tier user.tier_id label s in
    let listed_in : Limit → Bool = λ l. is_in (λ k. has_label k l) labels in
    set_all-rows (set_all (λ l. none) (find_limits_by_labels_and_tier user.tier_id labels s))
      (λ r. r.user_id == uuid) (λ r. r.limit) listed_in label s.overridden listed one.0
    ∙ ap (or_else (value_of own)) (
        set_all-rows (λ l. none) (λ r. is_tier user.tier_id r.tier_id) (λ r. r.limit) listed_in
          label s.tier_limits listed one.1
        ∙ or_else-none (value_of tier))
    ∙ sym (value_of-or_else own tier)
    ∙ ap (λ u. value_of (or_else (find_user_overridden_limit u label s) tier)) (sym same)

-- If a user who exists and the user's tier have at most one limit of each label of file versions, the
-- limits of the user's versions are given, and each of them is what the user's own limit of its label
-- says, or the tier's if the user has none.
pub get_file_versioning_limits-each :
    (user_uuid : Uuid) (s : LimitStore) {user : User}
    → find_by_uuid user_uuid s ≡ some user
    → All (HasOneLimit user_uuid user.tier_id s) file_versioning_labels
    → (limits : VersioningLimits) × (get_file_versioning_limits user_uuid s ≡ ok limits)
      × (limits.enabled
          ≡ is_true_value (value_of (get_user_limit_by_label file_version_enabled user s)))
      × (limits.max_file_size
          ≡ number_or_zero (value_of (get_user_limit_by_label file_version_max_size user s)))
      × (limits.retention_days
          ≡ number_or_zero (value_of (get_user_limit_by_label file_version_retention_days user s)))
      × (limits.max_versions
          ≡ number_or_zero (value_of (get_user_limit_by_label file_version_max_number user s)))
unfolding get_file_versioning_limits get_file_versioning_limits_by_tier
get_file_versioning_limits-each user_uuid s {user} found one =
    let same : user.uuid ≡ user_uuid =
      (==_iff user.uuid user_uuid).0 (find_one-passes (λ u. u.uuid == user_uuid) s.users found) in
    (
      get_file_versioning_limits_by_tier user_uuid user.tier_id s,
      ground arith,
      ap is_true_value (
          map-at user_uuid user s file_versioning_labels file_version_enabled same
            (λ l h. ground arith) one.0),
      ap number_or_zero (
          map-at user_uuid user s file_versioning_labels file_version_max_size same
            (λ l h. ground arith) one.1.0),
      ap number_or_zero (
          map-at user_uuid user s file_versioning_labels file_version_retention_days same
            (λ l h. ground arith) one.1.1.0),
      ap number_or_zero (
          map-at user_uuid user s file_versioning_labels file_version_max_number same
            (λ l h. ground arith) one.1.1.1.0),
    )
