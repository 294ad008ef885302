-- ===== src/Base/Safe.antt =====
-- Actions that never panic, whatever the state. One rule for each way to build an action.
use mathlib.Core.Bool.{Bool, true, false}
use mathlib.Core.Option.{Option, none, some}
use openscreen_rs.Base.Effects.{
  Outcome, ok, err, panic, Action, pure, raise, lift, ensure, continue, ◌>>=◌,
}
use openscreen_rs.Base.Tests.{if◌then◌else◌}

abbrev pub IsSafe : {E A : Type 0} → Outcome E A → Type 0
IsSafe (ok a) = Unit {0}
IsSafe (err e) = Unit {0}
IsSafe panic = ⊥

pub IsSafe-if :
    {E A : Type 0} (b : Bool) (r s : Outcome E A)
    → IsSafe r
    → IsSafe s
    → IsSafe (if b then r else s)
IsSafe-if true r s h k = h
IsSafe-if false r s h k = k

pub record Safe {S E A : Type 0} (m : Action S E A) : Type 0 where
  pub at : (s : S) → IsSafe (m s).0

module _ {S E A : Type 0} where
  pub Safe-pure : (a : A) → Safe {S = S} {E = E} (pure a)
  unfolding pure
  Safe-pure a = record { at = λ s. tt }

  pub Safe-raise : (e : E) → Safe {S = S} {A = A} (raise e)
  unfolding raise
  Safe-raise e = record { at = λ s. tt }

  pub Safe-lift : (r : Outcome E A) → IsSafe r → Safe {S = S} (lift r)
  unfolding lift
  Safe-lift r h = record { at = λ s. h }

  pub Safe-if : (b : Bool) (m n : Action S E A) → Safe m → Safe n → Safe (if b then m else n)
  Safe-if true m n hm hn = hm
  Safe-if false m n hm hn = hn

pub Safe-ensure : {S E : Type 0} (b : Bool) (e : E) → Safe {S = S} (ensure b e)
unfolding ensure
Safe-ensure true e = record { at = λ s. tt }
Safe-ensure false e = record { at = λ s. tt }

module _ {S E A B : Type 0} where
  Safe-continue :
      (r : Outcome E A) (f : A → Action S E B) (s : S)
      → IsSafe r
      → ((a : A) → Safe (f a))
      → IsSafe (continue r f s).0
  Safe-continue (ok a) f s h hf = (hf a).at s
  Safe-continue (err e) f s h hf = tt
  Safe-continue panic f s h hf = h

  pub Safe-bind :
      (m : Action S E A) (f : A → Action S E B) → Safe m → ((a : A) → Safe (f a)) → Safe (m >>= f)
  unfolding ◌>>=◌
  Safe-bind m f hm hf = record { at = λ s. Safe-continue (m s).0 f (m s).1 (hm.at s) hf }

  pub Safe-option :
      (o : Option A) (m : Action S E B) (f : A → Action S E B)
      → Safe m
      → ((a : A) → Safe (f a))
      → Safe (elim o [ none ↦ m | some a ↦ f a ])
  Safe-option none m f hm hf = hm
  Safe-option (some a) m f hm hf = hf a

pub ruleset safe_rules = (Safe-pure, Safe-raise, Safe-if, Safe-ensure, Safe-bind)
