-- ===== src/Base/Effects.antt =====
-- The effects of the code: a call returns a value, returns an error, or panics, and what it wrote
-- before that stays written, so the state comes back in all three cases.

use mathlib.Core.Bool.{Bool, true, false}

pub data Outcome (E A : Type 0) : Type 0 where
  ok : A → Outcome E A
  err : E → Outcome E A
  panic : Outcome E A

abbrev pub Action : Type 0 → Type 0 → Type 0 → Type 0
Action S E A = S → Outcome E A × S

-- `Result::map_err` with a constant closure, on the outcome of a call.
abbrev pub map_err : {E F A : Type 0} → F → Outcome E A → Outcome F A
map_err f (ok a) = ok a
map_err f (err e) = err f
map_err f panic = panic

module _ {S E A : Type 0} where
  unfoldable pub pure : A → Action S E A
  pure a s = (ok a, s)

  unfoldable pub raise : E → Action S E A
  raise e s = (err e, s)

  unfoldable pub fault : Action S E A
  fault s = (panic, s)

  unfoldable pub lift : Outcome E A → Action S E A
  lift r s = (r, s)

  unfoldable pub gets : (S → A) → Action S E A
  gets f s = (ok (f s), s)

-- `if !test { return Err(e); }`
unfoldable pub ensure : {S E : Type 0} → Bool → E → Action S E (Unit {0})
ensure true e s = (ok tt, s)
ensure false e s = (err e, s)

module _ {S E A B : Type 0} where
  abbrev pub continue : Outcome E A → (A → Action S E B) → Action S E B
  continue (ok a) f s = f a s
  continue (err e) f s = (err e, s)
  continue panic f s = (panic, s)

  infixl 5 ◌>>=◌ ◌>>◌
  -- The `?` operator: go on with the value, or stop with the error.
  unfoldable pub ◌>>=◌ : Action S E A → (A → Action S E B) → Action S E B
  unfolding pure raise fault lift gets ensure
  ◌>>=◌ m f s = continue (m s).0 f (m s).1

  abbrev pub ◌>>◌ : Action S E A → Action S E B → Action S E B
  m >> n = m >>= λ _. n
