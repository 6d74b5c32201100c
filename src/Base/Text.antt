-- ===== src/Base/Text.antt =====
-- Go's `strings` package, as far as the program uses it.
use Prim.Native.Nat.{ℕ}
use Prim.Native.Char.{code}
use Prim.Native.String.{String}
use Prim.Native.String as S
use mathlib.Core.Path.{◌≡◌}
use mathlib.Core.Bool.{Bool, true, false, ◌||◌}
use mathlib.Core.Option.{Option, none, some}
use text.Mathlib.TextLemmas.{nil-append, cons-append}
use skupper_docker.Base.Equality.{◌==◌}
use skupper_docker.Base.Tests.{nat_eq, nat_eq_refl, if◌then◌else◌}

-- the text behind a prefix, if it is one
unfoldable pub strip_prefix : String → String → Option String
strip_prefix String.[] s = some s
strip_prefix (String.◌∷◌ c p) String.[] = none
strip_prefix (String.◌∷◌ c p) (String.◌∷◌ d s) =
    let rest = strip_prefix p s in if nat_eq (code c) (code d) then rest else none

pub strip_prefix-append : (p s : String) → strip_prefix p (S.◌++◌ p s) ≡ some s
unfolding strip_prefix
strip_prefix-append String.[] s = rw nil-append
strip_prefix-append (String.◌∷◌ c p) s = rw (cons-append, nat_eq_refl) (strip_prefix-append p s)

-- strings.HasPrefix
abbrev pub has_prefix : String → String → Bool
has_prefix s p = elim (strip_prefix p s) [ none ↦ false | some r ↦ true ]

-- strings.TrimPrefix
abbrev pub trim_prefix : String → String → String
trim_prefix s p = elim (strip_prefix p s) [ none ↦ s | some r ↦ r ]

-- strings.Contains
unfoldable pub contains : String → String → Bool
unfolding strip_prefix
contains String.[] t = has_prefix String.[] t
contains (String.◌∷◌ c s) t = has_prefix (String.◌∷◌ c s) t || contains s t

-- strings.SplitN(s, sep, 2) for a separator of one character: what stands before the first
-- separator, and what stands behind it if there is one.
unfoldable pub split_at : ℕ → String → String × Option String
split_at sep String.[] = (String.[], none)
split_at sep (String.◌∷◌ c s) =
    let rest = split_at sep s in
    if nat_eq (code c) sep then (String.[], some s) else (String.◌∷◌ c rest.0, rest.1)

abbrev pub colon : ℕ
colon = 58

-- strings.TrimSuffix
unfoldable pub strip_suffix : String → String → Option String
strip_suffix suffix String.[] = if String.[] == suffix then some String.[] else none
strip_suffix suffix (String.◌∷◌ c s) =
    let rest = strip_suffix suffix s in
    if String.◌∷◌ c s == suffix
    then some String.[]
    else elim rest [ none ↦ none | some r ↦ some (String.◌∷◌ c r) ]

abbrev pub trim_suffix : String → String → String
trim_suffix s suffix = elim (strip_suffix suffix s) [ none ↦ s | some r ↦ r ]
