-- ===== src/Folders/Conflicts/Failures.antt =====
-- Handlers that throw none of the driver's exceptions, taken apart at their steps.
use drive_server_wip.Prelude.{
  ◌≡◌, refl, Bool, true, false, Option, none, some, List, [], ◌∷◌, arith,
}
use drive_server_wip.Prelude.Table.{find_one}
use drive_server_wip.Prelude.Outcome.{
  Exception, Result, ok, err, pure, gets, or_throw, lift, throw_if, internal_error, ◌>>=◌,
}
use drive_server_wip.Prelude.Outcome.Atomic.{bind-err}
use drive_server_wip.Folders.Store.{Store, Handler}

-- Exceptions with a meaning for the client, which the driver's is not.
abbrev pub IsOther : Exception → Type 0
IsOther (internal_error message) = ⊥
IsOther x = Unit

-- Handlers that throw no other exceptions.
pub record IsClean {A : Type 0} (m : Handler A) : Type 0 where
  pub never : (s : Store) (x : Exception) (s' : Store) → m s ≡ (err x, s') → IsOther x

-- A handler that threw: its first step, or the rest.
pub clean-then :
    {A B : Type 0} (m : Handler A) (f : A → Handler B) {s : Store} {x : Exception} {s' : Store}
    → IsClean m
    → (m >>= f) s ≡ (err x, s')
    → ((a : A) (s1 : Store) → m s ≡ (ok a, s1) → f a s1 ≡ (err x, s') → IsOther x)
    → IsOther x
clean-then m f {s} {x} {s'} clean e rest = bind-err m f e (λ failed. clean.never s x s' failed) rest

pub IsClean-gets : {A : Type 0} (g : Store → A) → IsClean (gets g)
IsClean-gets g = record { never = λ s x s' e. absurd (cc) }

pub IsClean-pure : {A : Type 0} (a : A) → IsClean (pure a)
IsClean-pure a = record { never = λ s x s' e. absurd (cc) }

exception_of :
    {A : Type 0} {y x : Exception} {s s' : Store}
    → ◌≡◌ {A = Result A × Store} (err y, s) (err x, s')
    → y ≡ x
exception_of e = ground arith

pub IsClean-or_throw :
    {A : Type 0} (o : Option A) (y : Exception) → IsOther y → IsClean (or_throw o y)
IsClean-or_throw none y other = record { never = λ s x s' e. rw (← (exception_of e)) other }
IsClean-or_throw (some a) y other = record { never = λ s x s' e. absurd (cc) }

pub IsClean-throw_if : (c : Bool) (y : Exception) → IsOther y → IsClean (throw_if c y)
IsClean-throw_if true y other = record { never = λ s x s' e. rw (← (exception_of e)) other }
IsClean-throw_if false y other = record { never = λ s x s' e. absurd (cc) }

pub IsClean-bind :
    {A B : Type 0} (m : Handler A) (f : A → Handler B)
    → IsClean m
    → ((a : A) → IsClean (f a))
    → IsClean (m >>= f)
IsClean-bind m f clean rest = record {
  never = λ s x s' e. clean-then m f clean e λ a s1 done e. (rest a).never s1 x s' e;
}

-- The steps of a handler that threw, one by one.
module _ {A B : Type 0} where
  pub gets-failed :
      (g : Store → A) (f : A → Handler B) {s s' : Store} {x : Exception}
      → (gets g >>= f) s ≡ (err x, s')
      → (f (g s) s ≡ (err x, s') → IsOther x)
      → IsOther x
  unfolding ◌>>=◌
  gets-failed g f e rest = rest e

  pub or_throw-failed :
      (o : Option A) (y : Exception) (f : A → Handler B) {s s' : Store} {x : Exception}
      → IsOther y
      → (or_throw o y >>= f) s ≡ (err x, s')
      → ((a : A) → o ≡ some a → f a s ≡ (err x, s') → IsOther x)
      → IsOther x
  unfolding ◌>>=◌
  or_throw-failed none y f other e rest = rw (← (exception_of e)) other
  or_throw-failed (some a) y f other e rest = rest a refl e

pub throw_if-failed :
    {B : Type 0} (c : Bool) (y : Exception) (f : Unit {0} → Handler B) {s s' : Store}
    {x : Exception}
    → IsOther y
    → (throw_if c y >>= f) s ≡ (err x, s')
    → (c ≡ false → f tt s ≡ (err x, s') → IsOther x)
    → IsOther x
unfolding ◌>>=◌
throw_if-failed true y f other e rest = rw (← (exception_of e)) other
throw_if-failed false y f other e rest = rest refl e

pub lift-failed :
    {B : Type 0} (r : Result (Unit {0})) (f : Unit {0} → Handler B) {s s' : Store} {x : Exception}
    → ((y : Exception) → r ≡ err y → IsOther y)
    → (lift r >>= f) s ≡ (err x, s')
    → (r ≡ ok tt → f tt s ≡ (err x, s') → IsOther x)
    → IsOther x
unfolding ◌>>=◌
lift-failed (ok t) f other e rest = rest refl e
lift-failed (err y) f other e rest = rw (← (exception_of e)) (other y refl)

-- A test that no row passes, and a stronger one.
pub find_one-stronger :
    {A : Type 0} (p q : A → Bool) (xs : List A)
    → ((x : A) → q x ≡ true → p x ≡ true)
    → find_one p xs ≡ none
    → find_one q xs ≡ none
find_one-stronger p q [] stronger e = refl
find_one-stronger p q (x ∷ xs) stronger e =
    ground (arith, stronger x, find_one-stronger p q xs stronger)
