-- ===== src/Prelude/Outcome/Steps.antt =====
-- A handler that returned, taken apart at its first step: the rest of a proof gets what the step
-- gave, the state that it left, and what the handler did then.
use drive_server_wip.Prelude.{
  Bool, true, false, Option, none, some, ◌≡◌, refl, ap, arith, inl, inr, ◌⊎◌,
}
use drive_server_wip.Prelude.Outcome.{
  Exception, Result, ok, err, Action, gets, or_throw, lift, throw_if, modify, ◌>>=◌, catch, throw,
  Outcome-cases,
}

module _ {S A B : Type 0} where
  pub bind-then :
      {C : Type 0} (m : Action S A) (f : A → Action S B) {s : S} {b : B} {s' : S}
      → (m >>= f) s ≡ (ok b, s')
      → ((a : A) (s1 : S) → m s ≡ (ok a, s1) → f a s1 ≡ (ok b, s') → C)
      → C
  unfolding ◌>>=◌
  bind-then m f {s} h k = elim (Outcome-cases (m s)) [
    | inl (x, s1, e) ↦ absurd (ground arith)
    | inr (a, s1, e) ↦ k a s1 e (ground arith)
  ]

  -- A block whose first step is known to return or to throw.
  pub bind-of_ok :
      (m : Action S A) (f : A → Action S B) {s s1 : S} {a : A}
      → m s ≡ (ok a, s1)
      → (m >>= f) s ≡ f a s1
  unfolding ◌>>=◌
  bind-of_ok m f {s} e = ground arith

  pub bind-of_err :
      (m : Action S A) (f : A → Action S B) {s s1 : S} {x : Exception}
      → m s ≡ (err x, s1)
      → (m >>= f) s ≡ (err x, s1)
  unfolding ◌>>=◌
  bind-of_err m f {s} e = ground arith

  pub gets-run : (g : S → A) (f : A → Action S B) (s : S) → (gets g >>= f) s ≡ f (g s) s
  unfolding ◌>>=◌
  gets-run g f s = refl

  pub known-run :
      (o : Option A) (x : Exception) (f : A → Action S B) (s : S) {a : A}
      → o ≡ some a
      → (or_throw o x >>= f) s ≡ f a s
  unfolding ◌>>=◌
  known-run o x f s e = rw e

  -- A step that returns whatever the state.
  pub returns-then :
      {C : Type 0} (m : Action S A) (f : A → Action S B) {s s1 : S} {a : A} {b : B} {s' : S}
      → m s ≡ (ok a, s1)
      → (m >>= f) s ≡ (ok b, s')
      → (f a s1 ≡ (ok b, s') → C)
      → C
  unfolding ◌>>=◌
  returns-then m f {s} e h k = k (ground arith)

  pub gets-then :
      {C : Type 0} (g : S → A) (f : A → Action S B) {s : S} {b : B} {s' : S}
      → (gets g >>= f) s ≡ (ok b, s')
      → (f (g s) s ≡ (ok b, s') → C)
      → C
  unfolding ◌>>=◌
  gets-then g f h k = k h

  pub or_throw-then :
      {C : Type 0} (o : Option A) (x : Exception) (f : A → Action S B) {s : S} {b : B} {s' : S}
      → (or_throw o x >>= f) s ≡ (ok b, s')
      → ((a : A) → o ≡ some a → f a s ≡ (ok b, s') → C)
      → C
  unfolding ◌>>=◌
  or_throw-then none x f h k = absurd (cc)
  or_throw-then (some a) x f h k = k a refl h

  -- The same, where the value is known.
  pub known-then :
      {C : Type 0} (o : Option A) (x : Exception) (f : A → Action S B) {s : S} {a : A} {b : B}
      {s' : S}
      → o ≡ some a
      → (or_throw o x >>= f) s ≡ (ok b, s')
      → (f a s ≡ (ok b, s') → C)
      → C
  unfolding ◌>>=◌
  known-then none x f e h k = absurd (cc)
  known-then (some a) x f {s} e h k = k (ground arith)

  pub lift-then :
      {C : Type 0} (r : Result A) (f : A → Action S B) {s : S} {b : B} {s' : S}
      → (lift r >>= f) s ≡ (ok b, s')
      → ((a : A) → r ≡ ok a → f a s ≡ (ok b, s') → C)
      → C
  unfolding ◌>>=◌
  lift-then (ok a) f h k = k a refl h
  lift-then (err e) f h k = absurd (cc)

module _ {S B : Type 0} where
  pub throw_if-then :
      {C : Type 0} (c : Bool) (x : Exception) (f : Unit {0} → Action S B) {s : S} {b : B} {s' : S}
      → (throw_if c x >>= f) s ≡ (ok b, s')
      → (c ≡ false → f tt s ≡ (ok b, s') → C)
      → C
  unfolding ◌>>=◌
  throw_if-then true x f h k = absurd (cc)
  throw_if-then false x f h k = k refl h

  pub modify-then :
      {C : Type 0} (g : S → S) (f : Unit {0} → Action S B) {s : S} {b : B} {s' : S}
      → (modify g >>= f) s ≡ (ok b, s')
      → (f tt (g s) ≡ (ok b, s') → C)
      → C
  unfolding ◌>>=◌
  modify-then g f h k = k h

  pub passed-run :
      (c : Bool) (x : Exception) (f : Unit {0} → Action S B) (s : S)
      → c ≡ false
      → (throw_if c x >>= f) s ≡ f tt s
  unfolding ◌>>=◌
  passed-run c x f s e = rw e

module _ {S A : Type 0} where
  -- A `try` whose body is known to return or to throw.
  pub catch-of_ok :
      (m : Action S A) (handler : Exception → Action S A) {s s1 : S} {a : A}
      → m s ≡ (ok a, s1)
      → catch m handler s ≡ (ok a, s1)
  unfolding catch
  catch-of_ok m handler {s} e = ground arith

  pub catch-of_err :
      (m : Action S A) (handler : Exception → Action S A) {s s1 : S} {x : Exception}
      → m s ≡ (err x, s1)
      → catch m handler s ≡ handler x s1
  unfolding catch
  catch-of_err m handler {s} e = ground arith

-- A `try` that returned: its body returned, or its handler did.
pub catch-eq-ok :
    {S A : Type 0} (m : Action S A) (handler : Exception → Action S A) {s : S} {a : A} {s' : S}
    → catch m handler s ≡ (ok a, s')
    → (m s ≡ (ok a, s'))
      ⊎ ((e : Exception) × (s1 : S) × (m s ≡ (err e, s1)) × (handler e s1 ≡ (ok a, s')))
unfolding catch
catch-eq-ok m handler {s} h = elim (Outcome-cases (m s)) [
  | inl (e, s1, failed) ↦ inr (e, s1, failed, ground arith)
  | inr (a, s1, done) ↦ inl (ground arith)
]

-- A block that ends in a throw does not return.
pub throw-ne-ok :
    {S A B : Type 0} (m : Action S A) (x : A → Exception) (s : S) {b : B} {s' : S}
    → (m >>= λ a. throw (x a)) s ≡ (ok b, s')
    → ⊥
throw-ne-ok m x s h = bind-then _ _ h λ a s1 e rest. cc

-- The parts of an equation between two results.
pub value-of_eq :
    {S A : Type 0} {a b : A} {s s' : S} → ◌≡◌ {A = Result A × S} (ok a, s) (ok b, s') → a ≡ b
value-of_eq e = ground arith

pub exception-of_eq :
    {S A : Type 0} {x y : Exception} {s s' : S}
    → ◌≡◌ {A = Result A × S} (err x, s) (err y, s')
    → x ≡ y
exception-of_eq e = ground arith

pub state-of_eq :
    {S A : Type 0} {r r' : Result A} {s s' : S} → ◌≡◌ {A = Result A × S} (r, s) (r', s') → s ≡ s'
state-of_eq e = ap (λ o. o.1) e
