-- ===== src/Prelude/Table.antt =====
-- A database table as the list of its rows, and the calls of the object-relational mapper on it:
-- a `where` clause is a Boolean test of a row.
pub mod Batches
pub mod Times
use drive_server_wip.Prelude.{
  ℕ, ◌+◌, ◌≤◌, ◌≡◌, refl, Bool, true, ◌||◌, Option, none, some, List, [], ◌∷◌, ◌++◌, arith,
  if◌then◌else◌, Option-cases, inl, inr, sym, ap, ◌∙◌, false, length,
}

module _ {A : Type 0} where
  -- `findOne({ where })`
  abbrev pub find_one : (A → Bool) → List A → Option A
  find_one p [] = none
  find_one p (x ∷ xs) = if p x then some x else find_one p xs

  -- `findAll({ where })`
  abbrev pub find_all : (A → Bool) → List A → List A
  find_all p [] = []
  find_all p (x ∷ xs) = let rest = find_all p xs in if p x then x ∷ rest else rest

  -- `update(f, { where })`
  abbrev pub update : (A → Bool) → (A → A) → List A → List A
  update p f [] = []
  update p f (x ∷ xs) = (if p x then f x else x) ∷ update p f xs

  -- `destroy({ where })`
  abbrev pub destroy : (A → Bool) → List A → List A
  destroy p [] = []
  destroy p (x ∷ xs) = let rest = destroy p xs in if p x then rest else x ∷ rest

  -- `create(row)`
  abbrev pub create : A → List A → List A
  create x xs = xs ++ x ∷ []

  -- `count({ where })`
  abbrev pub count : (A → Bool) → List A → ℕ
  count p [] = 0
  count p (x ∷ xs) = (if p x then 1 else 0) + count p xs

  pub count-eq-length : (p : A → Bool) (xs : List A) → count p xs ≡ length (find_all p xs)
  count-eq-length p [] = refl
  count-eq-length p (x ∷ xs) = ground (arith, count-eq-length p xs)

  pub count-create :
      (p : A → Bool) (x : A) (xs : List A)
      → count p (create x xs) ≡ count p xs + (if p x then 1 else 0)
  count-create p x [] = omega arith
  count-create p x (y ∷ xs) = omega (arith, count-create p x xs)

  pub update-id_of_count :
      (p : A → Bool) (f : A → A) (xs : List A) → count p xs ≡ 0 → update p f xs ≡ xs
  update-id_of_count p f [] h = refl
  update-id_of_count p f (x ∷ xs) h = ground (arith, update-id_of_count p f xs)

  pub find_one-none : (p : A → Bool) (xs : List A) → count p xs ≡ 0 → find_one p xs ≡ none
  find_one-none p [] h = refl
  find_one-none p (x ∷ xs) h = ground (arith, find_one-none p xs)

  pub count_of_find_none : (p : A → Bool) (xs : List A) → find_one p xs ≡ none → count p xs ≡ 0
  count_of_find_none p [] h = refl
  count_of_find_none p (x ∷ xs) h = ground (arith, count_of_find_none p xs)

  -- What `findOne` returns passes the test.
  pub find_one-passes : (p : A → Bool) (xs : List A) {a : A} → find_one p xs ≡ some a → p a ≡ true
  find_one-passes p [] h = cc
  find_one-passes p (x ∷ xs) {a} h = ground (arith, find_one-passes p xs {a = a})

  pub count-append : (p : A → Bool) (xs ys : List A) → count p (xs ++ ys) ≡ count p xs + count p ys
  count-append p [] ys = omega arith
  count-append p (x ∷ xs) ys = omega (arith, count-append p xs ys)

  -- A write that keeps what a test reads keeps the count.
  pub count-update :
      (q p : A → Bool) (g : A → A) (xs : List A)
      → ((x : A) → q (g x) ≡ q x)
      → count q (update p g xs) ≡ count q xs
  count-update q p g [] same = refl
  count-update q p g (x ∷ xs) same = ground (arith, same x, count-update q p g xs same)

  -- Removing rows lowers every count.
  pub count-destroy-le : (q p : A → Bool) (xs : List A) → count q (destroy p xs) ≤ count q xs
  count-destroy-le q p [] = omega arith
  count-destroy-le q p (x ∷ xs) = ground (arith, count-destroy-le q p xs)

  -- A write by a key that one row has changes that row alone.
  pub update-middle :
      (q : A → Bool) (g : A → A) (xs : List A) (y : A) (ys : List A)
      → count q xs ≡ 0
      → q y ≡ true
      → count q ys ≡ 0
      → update q g (xs ++ y ∷ ys) ≡ xs ++ g y ∷ ys
  update-middle q g [] y ys cx qy cy = rw (qy, update-id_of_count q g ys cy)
  update-middle q g (x ∷ xs) y ys cx qy cy = ground (arith, update-middle q g xs y ys)

  -- What `findOne` gives after a write that keeps the tested columns.
  pub find_one-update :
      (q p : A → Bool) (g : A → A) (xs : List A) {o : A}
      → ((x : A) → q (g x) ≡ q x)
      → find_one q xs ≡ some o
      → find_one q (update p g xs) ≡ some (if p o then g o else o)
  find_one-update q p g [] same e = cc
  find_one-update q p g (x ∷ xs) {o} same e =
      ground (arith, same x, find_one-update q p g xs {o = o} same)

  -- A row that one test finds counts for every test that it passes.
  pub count_of_found :
      (p q : A → Bool) (xs : List A) {o : A} → find_one p xs ≡ some o → q o ≡ true → 1 ≤ count q xs
  count_of_found p q [] e h = cc
  count_of_found p q (x ∷ xs) {o} e h = ground (arith, count_of_found p q xs {o = o})

  -- A row that one test finds is found by every test that it alone passes.
  pub find_one-other :
      (p q : A → Bool) (xs : List A) {o : A}
      → count q xs ≤ 1
      → find_one p xs ≡ some o
      → q o ≡ true
      → find_one q xs ≡ some o
  find_one-other p q [] c e h = cc
  find_one-other p q (x ∷ xs) {o} c e h =
      ground (arith, find_one-other p q xs {o = o}, count_of_found p q xs {o = o})

  -- A test that rows are removed by counts no row afterwards.
  pub count-destroy_self : (p : A → Bool) (xs : List A) → count p (destroy p xs) ≡ 0
  count-destroy_self p [] = refl
  count-destroy_self p (x ∷ xs) = ground (arith, count-destroy_self p xs)

  pub count-destroy_zero :
      (q p : A → Bool) (xs : List A) → count q xs ≡ 0 → count q (destroy p xs) ≡ 0
  count-destroy_zero q p [] h = refl
  count-destroy_zero q p (x ∷ xs) h = ground (arith, count-destroy_zero q p xs)

  pub destroy-id_of_count : (p : A → Bool) (xs : List A) → count p xs ≡ 0 → destroy p xs ≡ xs
  destroy-id_of_count p [] h = refl
  destroy-id_of_count p (x ∷ xs) h = ground (arith, destroy-id_of_count p xs)

  -- Removing the row that was just added.
  pub destroy-create :
      (p : A → Bool) (x : A) (xs : List A)
      → count p xs ≡ 0
      → p x ≡ true
      → destroy p (create x xs) ≡ xs
  destroy-create p x [] h px = rw px
  destroy-create p x (y ∷ xs) h px = ground (arith, destroy-create p x xs)

  pub find_one-create :
      (p : A → Bool) (x : A) (xs : List A)
      → count p xs ≡ 0
      → p x ≡ true
      → find_one p (create x xs) ≡ some x
  find_one-create p x [] h px = rw px
  find_one-create p x (y ∷ xs) h px = ground (arith, find_one-create p x xs)

  -- A write beside the row that a test finds.
  pub find_one-untouched :
      (q p : A → Bool) (g : A → A) (xs : List A)
      → ((x : A) → q (g x) ≡ q x)
      → ((o : A) → find_one q xs ≡ some o → p o ≡ false)
      → find_one q (update p g xs) ≡ find_one q xs
  find_one-untouched q p g xs same beside = elim (Option-cases (find_one q xs)) [
    | inl missing ↦
        find_one-none q (update p g xs)
          (count-update q p g xs same ∙ count_of_find_none q xs missing)
        ∙ sym missing
    | inr (o, found) ↦
        find_one-update q p g xs same found
        ∙ ap (λ b. some (if b then g o else o)) (beside o found)
        ∙ sym found
  ]

  -- Two writes of the same values are one.
  pub update-update_or :
      (p q r : A → Bool) (g : A → A) (xs : List A)
      → ((x : A) → g (g x) ≡ g x)
      → ((x : A) → r x ≡ (p x || q x))
      → update q g (update p g xs) ≡ update r g xs
  update-update_or p q r g [] again both = refl
  update-update_or p q r g (x ∷ xs) again both =
      ground (arith, again x, both x, update-update_or p q r g xs again both)
