-- ===== src/Base/Equality.antt =====
-- Go's `==` on strings, as a decision: a split on a test yields the equation or its negation.
use Prim.Native.String.{String}
use mathlib.Core.Path.{◌≡◌}
use mathlib.Core.Logic.{ite, dite, ◌≢◌}
use mathlib.Core.Bool.{Bool, true, false, Bool-discrete}
use native.Mathlib.Omega.{arith}
use text.Mathlib.Text
use text.Mathlib.TextEquality.{eq_iff}

unfoldable pub str_dec : Discrete String
str_dec s t =
    dite (Bool-discrete (Text.◌==◌ s t) true) (λ same. yes ((eq_iff s t).0 same))
      (λ differ. no (λ p. differ ((eq_iff s t).1 p)))

infix 50 ◌==◌
abbrev pub ◌==◌ : String → String → Bool
s == t = ite (str_dec s t) true false

pub eq_self : (s : String) → (s == s) ≡ true
eq_self s = ground arith

pub eq→path : (s t : String) → (s == t) ≡ true → s ≡ t
eq→path s t h = ground arith

pub ne→false : (s t : String) → s ≢ t → (s == t) ≡ false
ne→false s t h = ground arith
