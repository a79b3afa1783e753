-- ===== src/Files/Names/Steps.antt =====
-- Handlers that keep the names in a folder apart, taken apart at their steps.
use drive_server_wip.Prelude.{
  ◌≡◌, refl, sym, ap, ◌∙◌, Bool, true, false, Option, none, some, inl, inr, is_some,
}
use drive_server_wip.Prelude.Outcome.{
  Exception, Result, ok, err, Action, gets, or_throw, lift, throw_if, modify, ◌>>=◌, Outcome-cases,
}
use drive_server_wip.Prelude.Outcome.Steps.{bind-of_ok, bind-of_err}
use drive_server_wip.Files.Drive.{DriveState, files_of}
use drive_server_wip.Files.Names.{HasUniqueNames}
use drive_server_wip.Files.Names.Quiet.{IsQuiet}

-- A handler that ends with the names apart, whether it returns or throws.
pub record Kept {A C : Type 0} (o : Result A × DriveState C) : Type 0 where
  pub unique : HasUniqueNames (files_of o.1)

module _ {A B C : Type 0} where
  pub quiet-Kept :
      (m : Action (DriveState C) A) (f : A → Action (DriveState C) B) (s : DriveState C)
      → IsQuiet m
      → HasUniqueNames (files_of s)
      → ((a : A) (s1 : DriveState C) → files_of s1 ≡ files_of s → Kept (f a s1))
      → Kept ((m >>= f) s)
  quiet-Kept m f s quiet unique rest = elim (Outcome-cases (m s)) [
    | inl (x, s1, e) ↦
        let same : files_of s1 ≡ files_of s = sym (ap (λ o. files_of o.1) e) ∙ quiet.same s in
        rw (bind-of_err m f e) (record { unique = rw same unique })
    | inr (a, s1, e) ↦
        rw (bind-of_ok m f e) (rest a s1 (sym (ap (λ o. files_of o.1) e) ∙ quiet.same s))
  ]

  pub gets-Kept :
      (g : DriveState C → A) (f : A → Action (DriveState C) B) (s : DriveState C)
      → Kept (f (g s) s)
      → Kept ((gets g >>= f) s)
  unfolding ◌>>=◌
  gets-Kept g f s rest = rest

  pub or_throw-Kept :
      (o : Option A) (x : Exception) (f : A → Action (DriveState C) B) (s : DriveState C)
      → HasUniqueNames (files_of s)
      → ((a : A) → o ≡ some a → Kept (f a s))
      → Kept ((or_throw o x >>= f) s)
  unfolding ◌>>=◌
  or_throw-Kept none x f s unique rest = record { unique = unique }
  or_throw-Kept (some a) x f s unique rest = rest a refl

  pub lift-Kept :
      (r : Result A) (f : A → Action (DriveState C) B) (s : DriveState C)
      → HasUniqueNames (files_of s)
      → ((a : A) → r ≡ ok a → Kept (f a s))
      → Kept ((lift r >>= f) s)
  unfolding ◌>>=◌
  lift-Kept (ok a) f s unique rest = rest a refl
  lift-Kept (err x) f s unique rest = record { unique = unique }

  -- The last step of a handler that only reads afterwards.
  pub then-Kept :
      (m : Action (DriveState C) A) (f : A → Action (DriveState C) B) (s : DriveState C)
      → Kept (m s)
      → ((a : A) → IsQuiet (f a))
      → Kept ((m >>= f) s)
  then-Kept m f s kept quiet = elim (Outcome-cases (m s)) [
    | inl (x, s1, e) ↦ rw (bind-of_err m f e) (record { unique = (rw e at kept).unique })
    | inr (a, s1, e) ↦
        rw (bind-of_ok m f e) (record { unique = rw ((quiet a).same s1) (rw e at kept).unique })
  ]

pub modify-Kept :
    {B C : Type 0} (g : DriveState C → DriveState C) (f : Unit {0} → Action (DriveState C) B)
    (s : DriveState C)
    → Kept (f tt (g s))
    → Kept ((modify g >>= f) s)
unfolding ◌>>=◌
modify-Kept g f s kept = kept

pub throw_if-Kept :
    {B C : Type 0} (c : Bool) (x : Exception) (f : Unit {0} → Action (DriveState C) B)
    (s : DriveState C)
    → HasUniqueNames (files_of s)
    → (c ≡ false → Kept (f tt s))
    → Kept ((throw_if c x >>= f) s)
unfolding ◌>>=◌
throw_if-Kept true x f s unique rest = record { unique = unique }
throw_if-Kept false x f s unique rest = rest refl

pub is_some-none : {A : Type 0} (o : Option A) → is_some o ≡ false → o ≡ none
is_some-none none e = refl
is_some-none (some a) e = absurd (cc)
