-- ===== src/Prelude/Table/Batches.antt =====
-- Writes to a limited number of the rows that pass a test.
use drive_server_wip.Prelude.{
  ℕ, zero, suc, ◌+◌, ◌-◌, ◌≡◌, ◌≤◌, ◌<◌, refl, ap, sym, ◌∙◌, Bool, true, false, List, [], ◌∷◌, leb,
  ltb, ◌==◌, arith, if◌then◌else◌, Bool-cases, inl, inr,
}
use drive_server_wip.Prelude.Table.{count, update, update-id_of_count}
use drive_server_wip.Prelude.Outcome.{Action, ok, pure, ◌>>=◌}
use drive_server_wip.Prelude.Outcome.Steps.{bind-of_ok}

-- How many rows a write to at most `limit` of `found` rows changes.
abbrev pub affected : ℕ → ℕ → ℕ
affected limit found = if leb limit found then limit else found

module _ {A : Type 0} (p : A → Bool) (g : A → A) where
  -- A write to the first rows that pass a test.
  abbrev pub update_first : ℕ → List A → List A
  update_first zero xs = xs
  update_first (suc n) [] = []
  update_first (suc n) (x ∷ xs) =
      let fewer = update_first n xs in
      let same = update_first (suc n) xs in if p x then g x ∷ fewer else x ∷ same

  pub count-update_first :
      (n : ℕ) (xs : List A)
      → ((x : A) → p (g x) ≡ false)
      → count p (update_first n xs) ≡ count p xs - n
  count-update_first zero xs out = omega arith
  count-update_first (suc n) [] out = omega arith
  count-update_first (suc n) (x ∷ xs) out =
      ground (arith, out x, count-update_first n xs out, count-update_first (suc n) xs out)

  pub update-update_first :
      (n : ℕ) (xs : List A)
      → ((x : A) → p (g x) ≡ false)
      → update p g (update_first n xs) ≡ update p g xs
  update-update_first zero xs out = refl
  update-update_first (suc n) [] out = refl
  update-update_first (suc n) (x ∷ xs) out =
      ground (arith, out x, update-update_first n xs out, update-update_first (suc n) xs out)

-- `while (processed < total)`: a batch that changes no row ends the loop too. The answer says whether
-- the fuel was enough.
module _ {S : Type 0} (batch : Action S ℕ) where
  unfoldable pub process_batches : ℕ → ℕ → ℕ → Action S Bool
  process_batches zero total processed = pure false
  process_batches (suc fuel) total processed =
      let step = batch >>= λ n.
      let rest = process_batches fuel total (processed + n) in if n == 0 then pure true else rest in
      if ltb processed total then step else pure true

module _ {S A : Type 0} (rows : S → List A) (put : List A → S → S) where
  -- The answer is how many rows have changed.
  abbrev pub update_batch : (A → Bool) → (A → A) → ℕ → Action S ℕ
  update_batch p g limit s =
      (ok (affected limit (count p (rows s))), put (update_first p g limit (rows s)) s)

  -- A table of the state.
  pub record IsTable : Type 0 where
    pub rows-put : (xs : List A) (s : S) → rows (put xs s) ≡ xs
    pub put-rows : (s : S) → put (rows s) s ≡ s
    pub put-put : (xs ys : List A) (s : S) → put xs (put ys s) ≡ put xs s

  module _ (table : IsTable) (p : A → Bool) (g : A → A) (limit : ℕ) where
    update-none : (s : S) → count p (rows s) ≡ 0 → put (update p g (rows s)) s ≡ s
    update-none s none_left =
        ap (λ xs. put xs s) (update-id_of_count p g (rows s) none_left) ∙ table.put-rows s

    -- The loop ends and has changed all rows that pass the test, if it counts as many as there are.
    pub process_batches-all :
        (fuel total processed : ℕ) (s : S)
        → 1 ≤ limit
        → ((x : A) → p (g x) ≡ false)
        → count p (rows s) < fuel
        → processed + count p (rows s) ≡ total
        → process_batches (update_batch p g limit) fuel total processed s
          ≡ (ok true, put (update p g (rows s)) s)
    unfolding process_batches
    process_batches-all zero total processed s some_limit out enough sum = absurd (omega arith)
    process_batches-all (suc fuel) total processed s some_limit out enough sum =
        elim (Bool-cases (ltb processed total)) [
          | inl more ↦
              let xs = update_first p g limit (rows s) in
              let s1 = put xs s in
              let n = affected limit (count p (rows s)) in
              let same : rows s1 ≡ xs = table.rows-put xs s in
              let left : count p (rows s1) ≡ count p (rows s) - limit =
                ap (count p) same ∙ count-update_first p g limit (rows s) out in
              let changed : (n == 0) ≡ false = ground arith in
              let rest =
                process_batches-all fuel total (processed + n) s1 some_limit out (ground arith)
                  (ground arith) in
              let whole = ap (update p g) same ∙ update-update_first p g limit (rows s) out in
              let run =
                bind-of_ok (update_batch p g limit)
                  (λ n.
                    let rest =
                      process_batches (update_batch p g limit) fuel total (processed + n) in
                    if n == 0 then pure true else rest)
                  {s = s} refl in
              rw more (
                (rw changed at run)
                ∙ rest
                ∙ ap (λ ys. (ok true, ys)) (ap (λ ys. put ys s1) whole ∙ table.put-put _ _ s))
          | inr ended ↦ rw ended (ap (λ t. (ok true, t)) (sym (update-none s (ground arith))))
        ]
