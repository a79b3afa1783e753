-- ===== src/Prelude/Outcome.antt =====
-- What a request handler does: it reads and writes a store, and returns a value or throws one of
-- the exceptions of the web framework. What was written before a throw stays written.
pub mod Steps
pub mod Reads
pub mod Atomic
use drive_server_wip.Prelude.{
  String, Bool, true, false, Option, none, some, if◌then◌else◌, ◌≡◌, refl, arith, ◌⊎◌, inl, inr,
}

-- The exception classes, with their messages; `type_error` is the engine's own, for a field of
-- `null` or `undefined`.
pub data Exception : Type 0 where
  bad_request not_found forbidden conflict unprocessable payment_required internal_error :
      String → Exception
  type_error : Exception

pub data Result (A : Type 0) : Type 0 where
  ok : A → Result A
  err : Exception → Result A

abbrev pub Action : Type 0 → Type 0 → Type 0
Action S A = S → Result A × S

module _ {S A : Type 0} where
  abbrev pub pure : A → Action S A
  pure a s = (ok a, s)

  abbrev pub throw : Exception → Action S A
  throw e s = (err e, s)

  abbrev pub gets : (S → A) → Action S A
  gets f s = (ok (f s), s)

  -- `if (!x) throw e`, for a value that may be null
  abbrev pub or_throw : Option A → Exception → Action S A
  or_throw none e s = (err e, s)
  or_throw (some a) e s = (ok a, s)

  abbrev pub lift : Result A → Action S A
  lift r s = (r, s)

  -- `try { m } catch (e) { handler e }`
  unfoldable pub catch : Action S A → (Exception → Action S A) → Action S A
  catch m handler s = let (r, s') = m s in elim r [ ok a ↦ (ok a, s') | err e ↦ handler e s' ]

infixl 5 ◌>>=◌ ◌>>◌
unfoldable pub ◌>>=◌ : {S A B : Type 0} → Action S A → (A → Action S B) → Action S B
◌>>=◌ m f s = let (r, s') = m s in elim r [ ok a ↦ f a s' | err e ↦ (err e, s') ]

abbrev pub ◌>>◌ : {S A B : Type 0} → Action S A → Action S B → Action S B
m >> k = m >>= λ _. k

module _ {S : Type 0} where
  abbrev pub throw_if : Bool → Exception → Action S (Unit {0})
  throw_if c e s = (if c then err e else ok tt, s)

  abbrev pub modify : (S → S) → Action S (Unit {0})
  modify f s = (ok tt, f s)

-- A handler of a part of the state.
unfoldable pub zoom : {S T A : Type 0} → (S → T) → (T → S → S) → Action T A → Action S A
zoom part put m s = let (r, t) = m (part s) in (r, put t s)

-- Whether a handler returned.
abbrev pub Returned : {A : Type 0} → Result A → Type 0
Returned (ok a) = Unit
Returned (err e) = ⊥

pub Result-cases :
    {A : Type 0} (r : Result A) → ((e : Exception) × (r ≡ err e)) ⊎ ((a : A) × (r ≡ ok a))
Result-cases (ok a) = inr (a, refl)
Result-cases (err e) = inl (e, refl)

pub Outcome-cases :
    {A S : Type 0} (o : Result A × S)
    → ((e : Exception) × (s : S) × (o ≡ (err e, s))) ⊎ ((a : A) × (s : S) × (o ≡ (ok a, s)))
Outcome-cases (ok a, s) = inr (a, s, refl)
Outcome-cases (err e, s) = inl (e, s, refl)
