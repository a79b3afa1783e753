-- ===== src/Prelude/Outcome/Atomic.antt =====
-- Handlers that write nothing when they throw.
use drive_server_wip.Prelude.{◌≡◌, arith, inl, inr}
use drive_server_wip.Prelude.Outcome.{
  Exception, ok, err, Action, pure, modify, catch, ◌>>=◌, Outcome-cases,
}
use drive_server_wip.Prelude.Outcome.Reads.{
  Reads, Reads-pure, Reads-gets, Reads-or_throw, Reads-lift, Reads-throw_if, Reads-bind,
}

pub record Atomic {S A : Type 0} (m : Action S A) : Type 0 where
  pub undone : (s : S) (x : Exception) (s' : S) → m s ≡ (err x, s') → s' ≡ s

-- Handlers that never throw.
pub record Total {S A : Type 0} (m : Action S A) : Type 0 where
  pub returned : (s : S) (x : Exception) (s' : S) → m s ≡ (err x, s') → ⊥

module _ {S A : Type 0} where
  pub Atomic-Reads : (m : Action S A) → Reads m → Atomic m
  Atomic-Reads m r = record { undone = λ s x s' e. ground (arith, r.kept s) }

  pub Atomic-Total : (m : Action S A) → Total m → Atomic m
  Atomic-Total m t = record { undone = λ s x s' e. absurd (t.returned s x s' e) }

  pub Total-pure : (a : A) → Total (pure {S = S} a)
  Total-pure a = record { returned = λ s x s' e. cc }

pub Total-modify : {S : Type 0} (g : S → S) → Total (modify g)
Total-modify g = record { returned = λ s x s' e. cc }

module _ {S A B : Type 0} where
  pub bind-err :
      {C : Type 0} (m : Action S A) (f : A → Action S B) {s : S} {x : Exception} {s' : S}
      → (m >>= f) s ≡ (err x, s')
      → (m s ≡ (err x, s') → C)
      → ((a : A) (s1 : S) → m s ≡ (ok a, s1) → f a s1 ≡ (err x, s') → C)
      → C
  unfolding ◌>>=◌
  bind-err m f {s} h first rest = elim (Outcome-cases (m s)) [
    | inl (x, s1, e) ↦ first (ground arith)
    | inr (a, s1, e) ↦ rest a s1 e (ground arith)
  ]

  -- A step that writes nothing threw, or the rest did in the same state.
  pub Reads-err :
      {C : Type 0} (m : Action S A) (f : A → Action S B) {s : S} {x : Exception} {s' : S}
      → Reads m
      → (m >>= f) s ≡ (err x, s')
      → (s' ≡ s → C)
      → ((a : A) → m s ≡ (ok a, s) → f a s ≡ (err x, s') → C)
      → C
  Reads-err m f {s} r h first rest =
      bind-err m f h (λ failed. first (ground (arith, r.kept s)))
        λ a s1 done e.
          let same : s1 ≡ s = ground (arith, r.kept s) in rest a (rw same at done) (rw same at e)

  pub returns-err :
      {C : Type 0} (m : Action S A) (f : A → Action S B) {s s1 : S} {a : A} {x : Exception} {s' : S}
      → m s ≡ (ok a, s1)
      → (m >>= f) s ≡ (err x, s')
      → (f a s1 ≡ (err x, s') → C)
      → C
  unfolding ◌>>=◌
  returns-err m f {s} e h k = k (ground arith)

  pub Atomic-bind :
      (m : Action S A) (f : A → Action S B) → Reads m → ((a : A) → Atomic (f a)) → Atomic (m >>= f)
  Atomic-bind m f r k = record {
    undone = λ s x s' e.
        bind-err m f e (λ failed. ground (arith, r.kept s))
          λ a s1 done e.
            let same : s1 ≡ s = ground (arith, r.kept s) in ground (arith, (k a).undone s1 x s' e);
  }

pub ruleset atomic_rules = (
  Atomic-bind, Atomic-Total, Atomic-Reads, Reads-pure, Reads-gets, Reads-or_throw, Reads-lift,
  Reads-throw_if, Reads-bind, Total-pure, Total-modify,
)

pub catch-err :
    {S A C : Type 0} (m : Action S A) (handler : Exception → Action S A) {s : S} {x : Exception}
    {s' : S}
    → catch m handler s ≡ (err x, s')
    → ((y : Exception) (s1 : S) → m s ≡ (err y, s1) → handler y s1 ≡ (err x, s') → C)
    → C
unfolding catch
catch-err m handler {s} h k = elim (Outcome-cases (m s)) [
  | inl (y, s1, e) ↦ k y s1 e (ground arith)
  | inr (a, s1, e) ↦ absurd (ground arith)
]
