-- ===== src/Prelude/Outcome/Reads.antt =====
-- Handlers that write nothing, whether they return or throw.
use drive_server_wip.Prelude.{Bool, Option, none, some, ◌≡◌, refl, arith, inl, inr}
use drive_server_wip.Prelude.Outcome.{
  Exception, Result, ok, Action, pure, gets, or_throw, lift, throw_if, ◌>>=◌, Outcome-cases,
}
use drive_server_wip.Prelude.Outcome.Steps.{bind-then}

pub record Reads {S A : Type 0} (m : Action S A) : Type 0 where
  pub kept : (s : S) → (m s).1 ≡ s

module _ {S A : Type 0} where
  pub Reads-pure : (a : A) → Reads (pure {S = S} a)
  Reads-pure a = record { kept = λ s. refl }

  pub Reads-gets : (g : S → A) → Reads (gets g)
  Reads-gets g = record { kept = λ s. refl }

  pub Reads-or_throw : (o : Option A) (x : Exception) → Reads (or_throw {S = S} o x)
  Reads-or_throw none x = record { kept = λ s. refl }
  Reads-or_throw (some a) x = record { kept = λ s. refl }

  pub Reads-lift : (r : Result A) → Reads (lift {S = S} r)
  Reads-lift r = record { kept = λ s. refl }

pub Reads-throw_if : {S : Type 0} (c : Bool) (x : Exception) → Reads (throw_if {S = S} c x)
Reads-throw_if c x = record { kept = λ s. refl }

module _ {S A B : Type 0} where
  pub Reads-bind :
      (m : Action S A) (f : A → Action S B) → Reads m → ((a : A) → Reads (f a)) → Reads (m >>= f)
  unfolding ◌>>=◌
  Reads-bind m f km kf = record {
    kept = λ s. elim (Outcome-cases (m s)) [
      | inl (x, s1, e) ↦ ground (arith, km.kept s)
      | inr (a, s1, e) ↦ ground (arith, km.kept s, (kf a).kept s1)
    ];
  }

  -- A step that writes nothing leaves the state to the rest.
  pub Reads-then :
      {C : Type 0} (m : Action S A) (f : A → Action S B) {s : S} {b : B} {s' : S}
      → Reads m
      → (m >>= f) s ≡ (ok b, s')
      → ((a : A) → m s ≡ (ok a, s) → f a s ≡ (ok b, s') → C)
      → C
  Reads-then m f {s} r h k =
      bind-then m f h
        λ a s1 e rest. let p : s1 ≡ s = ground (arith, r.kept s) in k a (rw p at e) (rw p at rest)

pub ruleset reads_rules =
    (Reads-pure, Reads-gets, Reads-or_throw, Reads-lift, Reads-throw_if, Reads-bind)
