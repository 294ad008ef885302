-- ===== src/Base/Returns.antt =====
-- What holds of every value that an action returns. One rule for each way to build an action.
use mathlib.Core.Bool.{Bool, true, false}
use openscreen_rs.Base.Effects.{
  Outcome, ok, err, panic, Action, pure, raise, fault, continue, ◌>>=◌,
}
use openscreen_rs.Base.Tests.{if◌then◌else◌}

abbrev pub OnOk : {E A : Type 0} → (A → Type 0) → Outcome E A → Type 0
OnOk P (ok a) = P a
OnOk P (err e) = Unit
OnOk P panic = Unit

pub record Returns {S E A : Type 0} (P : A → Type 0) (m : Action S E A) : Type 0 where
  pub at : (s : S) → OnOk P (m s).0

module _ {S E A : Type 0} {P : A → Type 0} where
  pub Returns-pure : (a : A) → P a → Returns {S = S} {E = E} P (pure a)
  unfolding pure
  Returns-pure a h = record { at = λ s. h }

  pub Returns-raise : (e : E) → Returns {S = S} P (raise e)
  unfolding raise
  Returns-raise e = record { at = λ s. tt }

  pub Returns-fault : Returns {S = S} {E = E} P fault
  unfolding fault
  Returns-fault = record { at = λ s. tt }

  pub Returns-if :
      (b : Bool) (m n : Action S E A) → Returns P m → Returns P n → Returns P (if b then m else n)
  Returns-if true m n hm hn = hm
  Returns-if false m n hm hn = hn

module _ {S E A B : Type 0} {P : B → Type 0} where
  Returns-continue :
      (r : Outcome E A) (f : A → Action S E B) (s : S)
      → ((a : A) → Returns P (f a))
      → OnOk P (continue r f s).0
  Returns-continue (ok a) f s hf = (hf a).at s
  Returns-continue (err e) f s hf = tt
  Returns-continue panic f s hf = tt

  pub Returns-bind :
      (m : Action S E A) (f : A → Action S E B) → ((a : A) → Returns P (f a)) → Returns P (m >>= f)
  unfolding ◌>>=◌
  Returns-bind m f hf = record { at = λ s. Returns-continue (m s).0 f (m s).1 hf }

pub ruleset returns_rules = (Returns-pure, Returns-raise, Returns-fault, Returns-if, Returns-bind)
