-- ===== src/Base/Exec/Atomic.antt =====
-- Rules for operations that only read, and for operations that change nothing when they fail.
use skupper_docker.Base.Tests.{if◌then◌else◌}
use skupper_docker.Base.Exec.{
  Result, ok, err, Exec, pure, fail, lift, gets, wrap, refuse_if, wrap_result, continue, ◌>>=◌,
}
use mathlib.Core.Path.{◌≡◌, refl, ◌∙◌}
use mathlib.Core.Bool.{Bool, true, false}

wrap_result-err :
    {E A : Type 0} (f : E → E) (r : Result E A) {e : E}
    → wrap_result f r ≡ err e
    → (x : E) × (r ≡ err x)
wrap_result-err f (ok a) h = cc
wrap_result-err f (err x) h = (x, refl)

module _ {E S A : Type 0} where
  -- `m` leaves the state as it was
  pub record IsReadOnly (m : Exec E S A) : Type 0 where
    pub at : (s : S) → (m s).1 ≡ s

  -- `m` leaves the state as it was if it fails
  pub record IsAtomic (m : Exec E S A) : Type 0 where
    pub at : (s : S) (e : E) → (m s).0 ≡ err e → (m s).1 ≡ s

  pub IsAtomic-read : (m : Exec E S A) → IsReadOnly m → IsAtomic m
  IsAtomic-read m r = record { at = λ s e _. r.at s }

  pub IsReadOnly-lift : (r : Result E A) → IsReadOnly (lift {S = S} r)
  IsReadOnly-lift r = record { at = λ s. refl }

  pub IsReadOnly-fail : (e : E) → IsReadOnly (fail {S = S} {A = A} e)
  IsReadOnly-fail e = record { at = λ s. refl }

  pub IsReadOnly-pure : (a : A) → IsReadOnly (pure {E = E} {S = S} a)
  IsReadOnly-pure a = record { at = λ s. refl }

  pub IsReadOnly-gets : (f : S → A) → IsReadOnly (gets {E = E} f)
  IsReadOnly-gets f = record { at = λ s. refl }

  pub IsReadOnly-wrap : (f : E → E) (m : Exec E S A) → IsReadOnly m → IsReadOnly (wrap f m)
  IsReadOnly-wrap f m r = record { at = r.at }

  pub IsAtomic-wrap : (f : E → E) (m : Exec E S A) → IsAtomic m → IsAtomic (wrap f m)
  IsAtomic-wrap f m r = record {
    at = λ s e h. let (x, p) = wrap_result-err f (m s).0 h in r.at s x p;
  }

  pub IsAtomic-if :
      (b : Bool) (m n : Exec E S A) → IsAtomic m → IsAtomic n → IsAtomic (if b then m else n)
  IsAtomic-if true m n k l = k
  IsAtomic-if false m n k l = l

module _ {E S A B : Type 0} where
  continue-atomic :
      (f : A → Exec E S B) (r : Result E A) (t s : S) (e : E)
      → ((a : A) → IsAtomic (f a))
      → t ≡ s
      → (continue r f t).0 ≡ err e
      → (continue r f t).1 ≡ s
  continue-atomic f (ok a) t s e k p h = (k a).at t e h ∙ p
  continue-atomic f (err x) t s e k p h = p

  -- A step that only reads may stand before one that is atomic.
  pub IsAtomic-bind :
      (m : Exec E S A) (f : A → Exec E S B)
      → IsReadOnly m
      → ((a : A) → IsAtomic (f a))
      → IsAtomic (m >>= f)
  IsAtomic-bind m f r k = record {
    at = λ s e h. continue-atomic f (m s).0 (m s).1 s e k (r.at s) h;
  }

  continue-read :
      (f : A → Exec E S B) (r : Result E A) (t s : S)
      → ((a : A) → IsReadOnly (f a))
      → t ≡ s
      → (continue r f t).1 ≡ s
  continue-read f (ok a) t s k p = (k a).at t ∙ p
  continue-read f (err x) t s k p = p

  pub IsReadOnly-bind :
      (m : Exec E S A) (f : A → Exec E S B)
      → IsReadOnly m
      → ((a : A) → IsReadOnly (f a))
      → IsReadOnly (m >>= f)
  IsReadOnly-bind m f r k = record { at = λ s. continue-read f (m s).0 (m s).1 s k (r.at s) }

pub IsReadOnly-refuse_if : {E S : Type 0} (b : Bool) (e : E) → IsReadOnly (refuse_if {S = S} b e)
IsReadOnly-refuse_if b e = record { at = λ s. refl }

pub ruleset atomic_rules = (
  IsAtomic-read, IsAtomic-wrap, IsAtomic-if, IsAtomic-bind, IsReadOnly-lift, IsReadOnly-fail,
  IsReadOnly-pure, IsReadOnly-gets, IsReadOnly-wrap, IsReadOnly-bind, IsReadOnly-refuse_if,
)
