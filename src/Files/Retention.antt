-- ===== src/Files/Retention.antt =====
-- What the retention policy leaves of the versions of a file.
use drive_server_wip.Prelude.{
  ℕ, zero, suc, ◌+◌, ◌≤◌, ◌≡◌, refl, ap, ◌∙◌, inl, inr, Bool-cases, Option-cases, length-take, ◌++◌,
  Bool, true, false, ◌||◌, not, some, List, [], ◌∷◌, map, ◌==◌, ltb, leb, length, take, drop,
  get_last?, arith, take-append-drop,
}
use drive_server_wip.Prelude.Table.{find_all, count, update, count-append}
use drive_server_wip.Prelude.Outcome.{ok}
use drive_server_wip.Files.Store.{FileVersion, has_any_id, insert_newest, sort_newest}
use drive_server_wip.Files.Versions.{versions_to_delete}

module _ {A : Type 0} where
  -- Rows that a write takes out of a test.
  pub count-update_out :
      (q p : A → Bool) (g : A → A) (xs : List A)
      → ((x : A) → q (g x) ≡ false)
      → count q (update p g xs) ≡ count (λ x. not (p x)) (find_all q xs)
  count-update_out q p g [] out = refl
  count-update_out q p g (x ∷ xs) out = ground (arith, out x, count-update_out q p g xs out)

  -- Two tests, one the negation of the other, share the rows out.
  pub count-split :
      (r p q : A → Bool) (xs : List A)
      → ((x : A) → q x ≡ not (p x))
      → count r xs ≡ count r (find_all p xs) + count r (find_all q xs)
  count-split r p q [] opposite = omega arith
  count-split r p q (x ∷ xs) opposite = ground (arith, opposite x, count-split r p q xs opposite)

  pub count-le_length : (r : A → Bool) (n : ℕ) (xs : List A) → count r (take n xs) ≤ n
  count-le_length r zero xs = omega arith
  count-le_length r (suc n) [] = omega arith
  count-le_length r (suc n) (x ∷ xs) = ground (arith, count-le_length r n xs)

  pub count-lt_length :
      (r : A → Bool) (xs : List A) {o : A}
      → get_last? xs ≡ some o
      → r o ≡ false
      → suc (count r xs) ≤ length xs
  count-lt_length r [] e h = cc
  count-lt_length r (x ∷ []) e h = ground arith
  count-lt_length r (x ∷ y ∷ xs) {o} e h = ground (arith, count-lt_length r (y ∷ xs) {o = o})

  pub count-le_all : (r : A → Bool) (xs : List A) → count r xs ≤ length xs
  count-le_all r [] = omega arith
  count-le_all r (x ∷ xs) = ground (arith, count-le_all r xs)

count-insert_newest :
    (r : FileVersion → Bool) (v : FileVersion) (vs : List FileVersion)
    → count r (insert_newest v vs) ≡ count r (v ∷ vs)
count-insert_newest r v [] = refl
count-insert_newest r v (w ∷ ws) = ground (arith, count-insert_newest r v ws)

-- A sort changes no count.
pub count-sort_newest :
    (r : FileVersion → Bool) (vs : List FileVersion) → count r (sort_newest vs) ≡ count r vs
count-sort_newest r [] = refl
count-sort_newest r (v ∷ vs) =
    omega (arith, count-insert_newest r v (sort_newest vs), count-sort_newest r vs)

-- The rows that are written by the identifiers of some versions.
abbrev pub has_id_of : List FileVersion → FileVersion → Bool
has_id_of vs = has_any_id (map (λ w. w.id) vs)

pub has_id_of-append :
    (vs ws : List FileVersion) (v : FileVersion)
    → has_id_of (vs ++ ws) v ≡ (has_id_of vs v || has_id_of ws v)
has_id_of-append [] ws v = refl
has_id_of-append (u ∷ vs) ws v = ground (arith, has_id_of-append vs ws v)

pub count-covered :
    (xs : List FileVersion) (p : FileVersion → Bool)
    → ((v : FileVersion) → has_id_of xs v ≡ true → p v ≡ true)
    → count (λ v. not (p v)) xs ≡ 0
count-covered [] p covers = refl
count-covered (x ∷ xs) p covers =
    ground (arith, covers x, count-covered xs p (λ v h. covers v (ground (arith, h))))

module _ (cutoff max : ℕ) (vs : List FileVersion) where
  abbrev by_age : List FileVersion
  by_age = find_all (λ v. ltb v.created_at cutoff) vs

  abbrev remaining : List FileVersion
  remaining = sort_newest (find_all (λ v. leb cutoff v.created_at) vs)

  abbrev kept : List FileVersion
  kept = take max remaining

  abbrev dropped : List FileVersion
  dropped = drop max remaining

  -- Whoever lists the old and the surplus versions leaves only kept ones.
  count-left :
      (chosen : List FileVersion)
      → ((v : FileVersion) → has_id_of by_age v ≡ true → has_id_of chosen v ≡ true)
      → ((v : FileVersion) → has_id_of dropped v ≡ true → has_id_of chosen v ≡ true)
      → (count (λ v. not (has_id_of chosen v)) vs ≡ count (λ v. not (has_id_of chosen v)) kept)
        × (count (λ v. not (has_id_of chosen v)) by_age ≡ 0)
  count-left chosen old surplus =
      let left : FileVersion → Bool = λ v. not (has_id_of chosen v) in
      let none_old = count-covered by_age (has_id_of chosen) old in
      let none_surplus = count-covered dropped (has_id_of chosen) surplus in
      let split =
        count-split left (λ v. ltb v.created_at cutoff) (λ v. leb cutoff v.created_at) vs
          (λ v. ground arith) in
      let sorted = count-sort_newest left (find_all (λ v. leb cutoff v.created_at) vs) in
      let parts = count-append left kept dropped in
      let whole = ap (count left) (take-append-drop max remaining) in
      (omega (arith, none_old, none_surplus, split, sorted, parts, whole), none_old)

  room-leaves :
      {chosen : List FileVersion}
      → chosen ≡ by_age ++ dropped
      → (length kept == max) ≡ false
      → (suc (count (λ v. not (has_id_of chosen v)) vs) ≤ max)
        × (count (λ v. not (has_id_of chosen v)) by_age ≡ 0)
  room-leaves {chosen} same room =
      let listed : (v : FileVersion)
          → has_id_of chosen v ≡ (has_id_of by_age v || has_id_of dropped v) =
        λ v. rw same (has_id_of-append by_age dropped v) in
      let (all_kept, none_old) =
        count-left chosen (λ v h. ground (arith, listed v)) (λ v h. ground (arith, listed v)) in
      let few = length-take max remaining in
      let most = count-le_all (λ v. not (has_id_of chosen v)) kept in (ground arith, none_old)

  full-leaves :
      {chosen : List FileVersion} {o : FileVersion}
      → chosen ≡ (by_age ++ dropped) ++ o ∷ []
      → get_last? kept ≡ some o
      → (length kept == max) ≡ true
      → (suc (count (λ v. not (has_id_of chosen v)) vs) ≤ max)
        × (count (λ v. not (has_id_of chosen v)) by_age ≡ 0)
  full-leaves {chosen} {o} same last full =
      let listed : (v : FileVersion)
          → has_id_of chosen v
            ≡ ((has_id_of by_age v || has_id_of dropped v) || has_id_of (o ∷ []) v) =
        λ v. rw same (
          has_id_of-append (by_age ++ dropped) (o ∷ []) v
          ∙ ap (λ b. b || has_id_of (o ∷ []) v) (has_id_of-append by_age dropped v)) in
      let (all_kept, none_old) =
        count-left chosen (λ v h. ground (arith, listed v)) (λ v h. ground (arith, listed v)) in
      let oldest : has_id_of chosen o ≡ true = ground (arith, listed o) in
      let fewer = count-lt_length (λ v. not (has_id_of chosen v)) kept last (rw oldest refl) in
      (ground arith, none_old)

  pub versions_to_delete-leaves :
      {chosen : List FileVersion}
      → versions_to_delete cutoff max vs ≡ ok chosen
      → (suc (count (λ v. not (has_id_of chosen v)) vs) ≤ max)
        × (count (λ v. not (has_id_of chosen v)) by_age ≡ 0)
  unfolding versions_to_delete
  versions_to_delete-leaves {chosen} e = elim (Bool-cases (length kept == max)) [
    | inl full ↦ elim (Option-cases (get_last? kept)) [
      | inl missing ↦ absurd (ground arith)
      | inr (o, last) ↦ full-leaves (ground arith) last full
    ]
    | inr room ↦ room-leaves (ground arith) room
  ]
