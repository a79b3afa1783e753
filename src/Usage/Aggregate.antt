-- ===== src/Usage/Aggregate.antt =====
-- Stored usages that are put together.
use drive_server_wip.Prelude.{
  ◌≡◌, sym, ap, ◌∙◌, Bool, true, false, ◌&&◌, ◌||◌, not, List, [], ◌∷◌, ◌==◌, ==_self, Bool-cases,
  inl, inr, arith, any, any-append,
}
use drive_server_wip.Prelude.Int.{ℤ, ◌+ℤ◌, int_laws}
use drive_server_wip.Prelude.Table.{create}
use drive_server_wip.Prelude.Sum.{sum_by, sum-create}
use drive_server_wip.Usage.{
  Uuid, Date, Usage, monthly, is_yearly, is_monthly, is_same_month, has_yearly, has_monthly,
  is_counted, calculate_aggregated_usage,
}

-- A row of a day, or of a replacement, in the month of a date.
abbrev pub is_in_month : Uuid → Date → Usage → Bool
is_in_month user date u =
    u.user_id == user
    && not (is_yearly u.type)
    && not (is_monthly u.type)
    && is_same_month u.period date

sum-split :
    {A : Type 0} (f : A → ℤ) (p q r : A → Bool) (xs : List A)
    → ((x : A) → p x ≡ (q x || r x))
    → ((x : A) → (q x && r x) ≡ false)
    → sum_by f p xs ≡ sum_by f q xs +ℤ sum_by f r xs
sum-split f p q r [] either apart = grind int_laws
sum-split f p q r (x ∷ xs) either apart =
    grind (int_laws, either x, apart x, sum-split f p q r xs either apart)

-- The row of a month in place of its days
abbrev pub closing : Uuid → Uuid → Date → List Usage → Usage
closing id user date us = record {
  id = id;
  user_id = user;
  delta = sum_by (λ u. u.delta) (is_in_month user date) us;
  period = date;
  type = monthly;
}

module _ (id user : Uuid) (date : Date) (us : List Usage) where
  abbrev pub closed : List Usage
  closed = create (closing id user date us) us

  yearly-same : (d : Date) → has_yearly user d closed ≡ has_yearly user d us
  yearly-same d =
      any-append (λ u. u.user_id == user && is_yearly u.type && u.period.year == d.year) us
        (closing id user date us ∷ [])
      ∙ ground (arith, ==_self user)

  monthly-more :
      (d : Date) → has_monthly user d closed ≡ (has_monthly user d us || is_same_month date d)
  monthly-more d =
      any-append (λ u. u.user_id == user && is_monthly u.type && is_same_month u.period d) us
        (closing id user date us ∷ [])
      ∙ ground (arith, ==_self user)

  same_month : (a b : Date) → is_same_month a b ≡ is_same_month b a
  same_month a b = ground arith

  -- A month that is open
  in_month-open :
      (u : Usage)
      → has_yearly user date us ≡ false
      → has_monthly user date us ≡ false
      → is_in_month user date u ≡ true
      → (has_yearly user u.period us ≡ false) × (has_monthly user u.period us ≡ false)
  in_month-open u no_year no_month here =
      let year : u.period.year ≡ date.year = ground arith in
      let month : u.period.month ≡ date.month = ground arith in
      (
        ap (λ y. any (λ v. v.user_id == user && is_yearly v.type && v.period.year == y) us) year
            ∙ no_year,
        ap
              (λ y.
                any
                  (λ v.
                    v.user_id == user
                    && is_monthly v.type
                    && (v.period.year == y && v.period.month == u.period.month))
                  us)
              year
            ∙ ap
                (λ m.
                  any
                    (λ v.
                      v.user_id == user
                      && is_monthly v.type
                      && (v.period.year == date.year && v.period.month == m))
                    us)
                month
            ∙ no_month,
      )

  counted-closed :
      (u : Usage)
      → has_yearly user date us ≡ false
      → has_monthly user date us ≡ false
      → (is_counted user us u ≡ (is_counted user closed u || is_in_month user date u))
        × ((is_counted user closed u && is_in_month user date u) ≡ false)
  counted-closed u no_year no_month =
      let year = yearly-same u.period in
      let month =
        monthly-more u.period
        ∙ ap (λ b. has_monthly user u.period us || b) (same_month date u.period) in
      elim (Bool-cases (is_in_month user date u)) [
        | inl here ↦
            let (no_year', no_month') = in_month-open u no_year no_month here in
            rw (year, month, no_year', no_month') (ground arith)
        | inr elsewhere ↦ rw (year, month) (ground arith)
      ]

  -- Where a user has no row of the year and none of the month of a date, a row of that month with the sum
  -- of its days and replacements does not change the usage that is calculated for the user.
  pub calculate_aggregated_usage-closing :
      has_yearly user date us ≡ false
      → has_monthly user date us ≡ false
      → calculate_aggregated_usage user closed ≡ calculate_aggregated_usage user us
  unfolding calculate_aggregated_usage
  calculate_aggregated_usage-closing no_year no_month =
      sum-create (λ u. u.delta) (is_counted user closed) (closing id user date us) us
        (rw (yearly-same date, no_year) (ground (arith, ==_self user)))
      ∙ sym (
          sum-split (λ u. u.delta) (is_counted user us) (is_counted user closed)
            (is_in_month user date) us (λ u. (counted-closed u no_year no_month).0)
            (λ u. (counted-closed u no_year no_month).1))
