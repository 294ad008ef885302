-- ===== src/Base/Keeps.antt =====
-- Actions that keep a property of the state, whether they return, fail or panic. One rule for each
-- way to build an action.
use mathlib.Core.Bool.{Bool, true, false}
use openscreen_rs.Base.Effects.{
  Outcome, ok, err, panic, Action, pure, raise, fault, lift, gets, ensure, continue, ◌>>=◌,
}
use openscreen_rs.Base.Tests.{if◌then◌else◌}

pub record Keeps {S E A : Type 0} (I : S → Type 0) (m : Action S E A) : Type 0 where
  pub at : (s : S) → I s → I (m s).1

module _ {S E A : Type 0} {I : S → Type 0} where
  pub Keeps-pure : (a : A) → Keeps {E = E} I (pure a)
  unfolding pure
  Keeps-pure a = record { at = λ s h. h }

  pub Keeps-raise : (e : E) → Keeps {A = A} I (raise e)
  unfolding raise
  Keeps-raise e = record { at = λ s h. h }

  pub Keeps-fault : Keeps {E = E} {A = A} I fault
  unfolding fault
  Keeps-fault = record { at = λ s h. h }

  pub Keeps-lift : (r : Outcome E A) → Keeps I (lift r)
  unfolding lift
  Keeps-lift r = record { at = λ s h. h }

  pub Keeps-gets : (f : S → A) → Keeps {E = E} I (gets f)
  unfolding gets
  Keeps-gets f = record { at = λ s h. h }

  pub Keeps-if :
      (b : Bool) (m n : Action S E A) → Keeps I m → Keeps I n → Keeps I (if b then m else n)
  Keeps-if true m n hm hn = hm
  Keeps-if false m n hm hn = hn

pub Keeps-ensure : {S E : Type 0} {I : S → Type 0} (b : Bool) (e : E) → Keeps I (ensure b e)
unfolding ensure
Keeps-ensure true e = record { at = λ s h. h }
Keeps-ensure false e = record { at = λ s h. h }

module _ {S E A B : Type 0} {I : S → Type 0} where
  Keeps-continue :
      (r : Outcome E A) (f : A → Action S E B) (s : S)
      → ((a : A) → Keeps I (f a))
      → I s
      → I (continue r f s).1
  Keeps-continue (ok a) f s hf h = (hf a).at s h
  Keeps-continue (err e) f s hf h = h
  Keeps-continue panic f s hf h = h

  pub Keeps-bind :
      (m : Action S E A) (f : A → Action S E B)
      → Keeps I m
      → ((a : A) → Keeps I (f a))
      → Keeps I (m >>= f)
  unfolding ◌>>=◌
  Keeps-bind m f hm hf = record { at = λ s h. Keeps-continue (m s).0 f (m s).1 hf (hm.at s h) }

pub ruleset keeps_rules = (
  Keeps-pure, Keeps-raise, Keeps-fault, Keeps-lift, Keeps-gets, Keeps-if, Keeps-ensure, Keeps-bind,
)
