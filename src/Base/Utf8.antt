-- ===== src/Base/Utf8.antt =====
-- `core::str::from_utf8` of the language's library: a `str` is the list of its UTF-8 bytes.
use Prim.Native.Nat.{ℕ}
use mathlib.Core.Path.{◌≡◌, refl, ap, ◌∙◌}
use mathlib.Core.Bool.{Bool, true, false, ◌&&◌}
use mathlib.Core.Option.{Option, none, some}
use mathlib.Core.List.{List, [], ◌∷◌}
use openscreen_rs.Base.Tests.{ltb, leb, ◌==◌, if◌then◌else◌, and-first, and-second}
use openscreen_rs.Base.Lists.{all}

-- The ranges of the bytes that must follow a first byte; `none` where no character begins so.
following : ℕ → Option (List (ℕ × ℕ))
following b =
    let tail : ℕ × ℕ = (0x80, 0xbf) in
    if ltb b 0x80
    then some []
    else if leb 0xc2 b && leb b 0xdf
    then some (tail ∷ [])
    else if b == 0xe0
    then some ((0xa0, 0xbf) ∷ tail ∷ [])
    else if b == 0xed
    then some ((0x80, 0x9f) ∷ tail ∷ [])
    else if leb 0xe1 b && leb b 0xef
    then some (tail ∷ tail ∷ [])
    else if b == 0xf0
    then some ((0x90, 0xbf) ∷ tail ∷ tail ∷ [])
    else if b == 0xf4
    then some ((0x80, 0x8f) ∷ tail ∷ tail ∷ [])
    else if leb 0xf1 b && leb b 0xf3
    then some (tail ∷ tail ∷ tail ∷ [])
    else none

utf8_from : List (ℕ × ℕ) → List ℕ → Bool
unfolding following
utf8_from [] [] = true
utf8_from (range ∷ more) [] = false
utf8_from ((low, high) ∷ more) (b ∷ bs) = (leb low b && leb b high) && utf8_from more bs
utf8_from [] (b ∷ bs) = elim (following b) [ none ↦ false | some more ↦ utf8_from more bs ]

unfoldable pub is_utf8 : List ℕ → Bool
unfolding utf8_from
is_utf8 bs = utf8_from [] bs

unfoldable pub from_utf8 : List ℕ → Option (List ℕ)
from_utf8 bs = if is_utf8 bs then some bs else none

following-ascii : (b : ℕ) → ltb b 0x80 ≡ true → following b ≡ some []
unfolding following
following-ascii b h = rw h refl

pub is_utf8-ascii : (bs : List ℕ) → all (λ b. ltb b 0x80) bs ≡ true → is_utf8 bs ≡ true
unfolding is_utf8 utf8_from
is_utf8-ascii [] h = refl
is_utf8-ascii (b ∷ bs) h =
    ap (λ (o : Option (List (ℕ × ℕ))). elim o [ none ↦ false | some more ↦ utf8_from more bs ])
      (following-ascii b (and-first _ _ h))
    ∙ is_utf8-ascii bs (and-second _ _ h)
