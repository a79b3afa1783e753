-- ===== src/Prelude/Sum.antt =====
-- `sum('column', { where })` over a table, and what each write does to such a sum.
use drive_server_wip.Prelude.{
  ℕ, suc, ◌≤◌, ◌≡◌, refl, arith, Bool, true, some, List, [], ◌∷◌, if◌then◌else◌,
}
use drive_server_wip.Prelude.Int.{ℤ, pos, negsuc, ◌+ℤ◌, ◌*ℤ◌, int_laws}
use drive_server_wip.Prelude.Table.{find_one, update, create, destroy, count, update-id_of_count}

pub *ℤ-zero : (d : ℤ) → d *ℤ pos 0 ≡ pos 0
unfolding ◌*ℤ◌
*ℤ-zero d = ground arith

pub *ℤ-suc : (d : ℤ) (n : ℕ) → d *ℤ pos (suc n) ≡ d *ℤ pos n +ℤ d
unfolding ◌*ℤ◌ ◌+ℤ◌
*ℤ-suc (pos a) n = ground arith
*ℤ-suc (negsuc a) n = ground arith

module _ {A : Type 0} (f : A → ℤ) (p : A → Bool) where
  abbrev pub sum_by : List A → ℤ
  sum_by [] = pos 0
  sum_by (x ∷ xs) = (if p x then f x else pos 0) +ℤ sum_by xs

  pub sum-create : (x : A) (xs : List A) → p x ≡ true → sum_by (create x xs) ≡ sum_by xs +ℤ f x
  sum-create x [] h = grind int_laws
  sum-create x (y ∷ xs) h = grind (int_laws, sum-create x xs h)

  -- A write to the one row that `findOne` finds moves the sum by the change in that row.
  pub sum-update :
      (q : A → Bool) (g : A → A) (o : A) (xs : List A)
      → count q xs ≤ 1
      → find_one q xs ≡ some o
      → p o ≡ true
      → p (g o) ≡ true
      → sum_by (update q g xs) +ℤ f o ≡ sum_by xs +ℤ f (g o)
  sum-update q g o [] c e po pg = cc
  sum-update q g o (x ∷ xs) c e po pg =
      grind (int_laws, sum-update q g o xs, update-id_of_count q g xs)

  -- So does its removal.
  pub sum-destroy_none :
      (q : A → Bool) (xs : List A) → count q xs ≡ 0 → sum_by (destroy q xs) ≡ sum_by xs
  sum-destroy_none q [] c = refl
  sum-destroy_none q (x ∷ xs) c = grind (int_laws, sum-destroy_none q xs)

  pub sum-destroy :
      (q : A → Bool) (o : A) (xs : List A)
      → count q xs ≤ 1
      → find_one q xs ≡ some o
      → p o ≡ true
      → sum_by (destroy q xs) +ℤ f o ≡ sum_by xs
  sum-destroy q o [] c e po = cc
  sum-destroy q o (x ∷ xs) c e po = grind (int_laws, sum-destroy q o xs, sum-destroy_none q xs)

  -- Adding the same to each of the rows that are summed.
  pub sum-update_all :
      (g : A → A) (d : ℤ) (xs : List A)
      → ((x : A) → p (g x) ≡ p x)
      → ((x : A) → f (g x) ≡ f x +ℤ d)
      → sum_by (update p g xs) ≡ sum_by xs +ℤ d *ℤ pos (count p xs)
  sum-update_all g d [] keeps adds = grind (int_laws, *ℤ-zero d)
  sum-update_all g d (x ∷ xs) keeps adds =
      grind (int_laws, keeps x, adds x, sum-update_all g d xs keeps adds, *ℤ-suc d (count p xs))
