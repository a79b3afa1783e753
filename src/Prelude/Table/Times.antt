-- ===== src/Prelude/Table/Times.antt =====
-- Writes that put the time of the write into the rows, and the loops that make several of them.
use drive_server_wip.Prelude.{
  ℕ, zero, suc, ◌+◌, ◌-◌, ◌≡◌, ◌≤◌, ◌<◌, ◌⊎◌, refl, ap, ◌∙◌, Bool, true, false, ◌||◌, List, [], ◌∷◌,
  ltb, ◌==◌, arith, if◌then◌else◌, Bool-cases, inl, inr,
}
use drive_server_wip.Prelude.Table.{count, update}
use drive_server_wip.Prelude.Table.Batches.{
  affected, update_first, count-update_first, process_batches,
}
use drive_server_wip.Prelude.Outcome.{Action, ok, pure}
use drive_server_wip.Prelude.Outcome.Steps.{bind-of_ok}

-- `p` is the test, `g` the write, and the times are from `start` on and before `end`.
module _ {A : Type 0} (p : A → Bool) (g : ℕ → A → A) where
  -- A row that passes the test is written at one of the times, and any other is as it was.
  abbrev pub RowWritten : ℕ → ℕ → A → A → Type 0
  RowWritten start end x y =
      ((p x ≡ true) × (t : ℕ) × (start ≤ t) × (t < end) × (y ≡ g t x)) ⊎ ((p x ≡ false) × (y ≡ x))

  -- The same of every row of a table, in its place.
  abbrev pub Written : ℕ → ℕ → List A → List A → Type 0
  Written start end [] [] = Unit
  Written start end [] (y ∷ ys) = ⊥
  Written start end (x ∷ xs) [] = ⊥
  Written start end (x ∷ xs) (y ∷ ys) = RowWritten start end x y × Written start end xs ys

  pub Written-none : (a b : ℕ) (xs : List A) → count p xs ≡ 0 → Written a b xs xs
  Written-none a b [] none_passes = tt
  Written-none a b (x ∷ xs) none_passes =
      (inr (ground arith, refl), Written-none a b xs (ground arith))

  pub Written-earlier : (a b c : ℕ) (xs ys : List A) → a ≤ b → Written b c xs ys → Written a c xs ys
  Written-earlier a b c [] [] le h = tt
  Written-earlier a b c [] (y ∷ ys) le h = h
  Written-earlier a b c (x ∷ xs) [] le h = h
  Written-earlier a b c (x ∷ xs) (y ∷ ys) le (row, rows) = (
    elim row [
      | inl (passes, t, late, early, same) ↦ inl (passes, t, omega arith, early, same)
      | inr beside ↦ inr beside
    ],
    Written-earlier a b c xs ys le rows,
  )

  -- A write to the first rows, and then the writes to the others.
  pub Written-update_first :
      (a b t n : ℕ) (xs zs : List A)
      → a ≤ t
      → t < b
      → ((t : ℕ) (x : A) → p (g t x) ≡ false)
      → Written a b (update_first p (g t) n xs) zs
      → Written a b xs zs
  Written-update_first a b t zero xs zs late early out h = h
  Written-update_first a b t (suc n) [] zs late early out h = h
  Written-update_first a b t (suc n) (x ∷ xs) [] late early out h = elim (Bool-cases (p x)) [
    | inl passes ↦ absurd (rw passes at h)
    | inr beside ↦ absurd (rw beside at h)
  ]
  Written-update_first a b t (suc n) (x ∷ xs) (z ∷ zs) late early out h = elim (Bool-cases (p x)) [
    | inl passes ↦
        let (row, rows) = rw passes at h in
        (
          elim row [
            | inl (again, _, _, _, _) ↦ absurd (ground (arith, out t x))
            | inr (_, same) ↦ inl (passes, t, late, early, same)
          ],
          Written-update_first a b t n xs zs late early out rows,
        )
    | inr beside ↦
        let (row, rows) = rw beside at h in
        (row, Written-update_first a b t (suc n) xs zs late early out rows)
  ]

  pub Written-batch :
      (a b t n : ℕ) (xs ys zs : List A)
      → ys ≡ update_first p (g t) n xs
      → a ≤ t
      → t < b
      → ((t : ℕ) (x : A) → p (g t x) ≡ false)
      → Written a b ys zs
      → Written a b xs zs
  Written-batch a b t n xs ys zs batch late early out h =
      Written-update_first a b t n xs zs late early out (rw batch at h)

-- Two writes, by tests that the writes do not change, are one by both tests.
pub Written-update :
    {A : Type 0} (p q r : A → Bool) (g : ℕ → A → A) (a b t : ℕ) (xs zs : List A)
    → a ≤ t
    → t < b
    → ((x : A) → q (g t x) ≡ q x)
    → ((t u : ℕ) (x : A) → g u (g t x) ≡ g u x)
    → ((x : A) → r x ≡ (p x || q x))
    → Written q g a b (update p (g t) xs) zs
    → Written r g a b xs zs
Written-update p q r g a b t [] [] late early kept again both h = tt
Written-update p q r g a b t [] (z ∷ zs) late early kept again both h = h
Written-update p q r g a b t (x ∷ xs) [] late early kept again both h = h
Written-update p q r g a b t (x ∷ xs) (z ∷ zs) late early kept again both (row, rows) = (
  elim (Bool-cases (p x)) [
    | inl passes ↦ elim (rw passes at row) [
      | inl (_, u, from, to, same) ↦ inl (ground (arith, both x), u, from, to, same ∙ again t u x)
      | inr (_, same) ↦ inl (ground (arith, both x), t, late, early, same)
    ]
    | inr beside ↦ elim (rw beside at row) [
      | inl (hit, u, from, to, same) ↦ inl (ground (arith, both x), u, from, to, same)
      | inr (missed, same) ↦ inr (ground (arith, both x), same)
    ]
  ],
  Written-update p q r g a b t xs zs late early kept again both rows,
)

module _ {S A : Type 0} (rows : S → List A) (put : List A → S → S) (now : S → ℕ) where
  -- The answer is how many rows have changed.
  abbrev pub update_batch_at : (A → Bool) → (ℕ → A → A) → ℕ → Action S ℕ
  update_batch_at p g limit s =
      (ok (affected limit (count p (rows s))), put (update_first p (g (now s)) limit (rows s)) s)

module _ {S A R : Type 0} (rows : S → List A) (put : List A → S → S) (now : S → ℕ)
    (rest : S → R) where
  -- A table of the state, with what a write to it leaves.
  pub record IsTimed : Type 0 where
    pub rows-put : (xs : List A) (s : S) → rows (put xs s) ≡ xs
    pub rest-put : (xs : List A) (s : S) → rest (put xs s) ≡ rest s
    pub now-put : (xs : List A) (s : S) → now (put xs s) ≡ suc (now s)

  -- The loop ends and has written all rows that pass the test, if it counts as many as there are.
  pub process_batches-Written :
      IsTimed
      → (p : A → Bool) (g : ℕ → A → A) (limit fuel total processed : ℕ) (s : S) → 1 ≤ limit
      → ((t : ℕ) (x : A) → p (g t x) ≡ false)
      → count p (rows s) < fuel
      → processed + count p (rows s) ≡ total
      → (s' : S) × (process_batches (update_batch_at rows put now p g limit) fuel total processed s
          ≡ (ok true, s'))
        × (now s ≤ now s')
        × Written p g (now s) (now s') (rows s) (rows s')
        × (rest s' ≡ rest s)
  unfolding process_batches
  process_batches-Written table p g limit zero total processed s some_limit out enough sum =
      absurd (omega arith)
  process_batches-Written table p g limit (suc fuel) total processed s some_limit out enough sum =
      elim (Bool-cases (ltb processed total)) [
        | inl more ↦
            let xs = update_first p (g (now s)) limit (rows s) in
            let s1 = put xs s in
            let n = affected limit (count p (rows s)) in
            let same : rows s1 ≡ xs = table.rows-put xs s in
            let left : count p (rows s1) ≡ count p (rows s) - limit =
              ap (count p) same ∙ count-update_first p (g (now s)) limit (rows s) (out (now s)) in
            let changed : (n == 0) ≡ false = ground arith in
            let tick = table.now-put xs s in
            let (s', ended, later, written, kept) =
              process_batches-Written table p g limit fuel total (processed + n) s1 some_limit out
                (ground arith) (ground arith) in
            let run =
              bind-of_ok (update_batch_at rows put now p g limit)
                (λ n.
                  let rest =
                    process_batches (update_batch_at rows put now p g limit) fuel total
                      (processed + n) in
                  if n == 0 then pure true else rest)
                {s = s} refl in
            (
              s',
              rw more ((rw changed at run) ∙ ended),
              omega (arith, tick, later),
              Written-batch p g (now s) (now s') (now s) limit (rows s) (rows s1) (rows s') same
                  (omega arith) (omega (arith, tick, later)) out
                  (Written-earlier p g (now s) (now s1) (now s') (rows s1) (rows s')
                    (omega (arith, tick)) written),
              kept ∙ table.rest-put xs s,
            )
        | inr ended ↦ (
          s,
          rw ended refl,
          omega arith,
          Written-none p g (now s) (now s) (rows s) (ground arith),
          refl,
        )
      ]
