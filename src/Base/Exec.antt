-- ===== src/Base/Exec.antt =====
-- Operations that change a state and may fail. What was written before a failure stays written.
pub mod Atomic
use mathlib.Core.Path.{◌≡◌, refl}
use mathlib.Core.Logic.{◌⊎◌, inl, inr}
use mathlib.Core.Bool.{Bool, true, false}
use mathlib.Core.Option.{Option, none, some}
use skupper_docker.Base.Tests.{if◌then◌else◌}

pub data Result {ℓ κ} (E : Type ℓ) (A : Type κ) : Type (ℓ ⊔ κ) where
  ok : A → Result E A
  err : E → Result E A

abbrev pub Exec : Type 0 → Type 0 → Type 0 → Type 0
Exec E S A = S → Result E A × S

module _ {E A : Type 0} where
  -- `fmt.Errorf("...: %w", err)`
  abbrev pub wrap_result : (E → E) → Result E A → Result E A
  wrap_result f (ok a) = ok a
  wrap_result f (err e) = err (f e)

module _ {E S A : Type 0} where
  abbrev pub pure : A → Exec E S A
  pure a s = (ok a, s)

  abbrev pub fail : E → Exec E S A
  fail e s = (err e, s)

  abbrev pub lift : Result E A → Exec E S A
  lift r s = (r, s)

  abbrev pub gets : (S → A) → Exec E S A
  gets f s = (ok (f s), s)

  abbrev pub wrap : (E → E) → Exec E S A → Exec E S A
  wrap f m s = let (r, s') = m s in (wrap_result f r, s')

module _ {E S A B : Type 0} where
  abbrev pub continue : Result E A → (A → Exec E S B) → Exec E S B
  continue (ok a) f s = f a s
  continue (err e) f s = (err e, s)

  infixl 5 ◌>>=◌ ◌>>◌
  abbrev pub ◌>>=◌ : Exec E S A → (A → Exec E S B) → Exec E S B
  ◌>>=◌ m f s = let (r, s') = m s in continue r f s'

  abbrev pub ◌>>◌ : Exec E S A → Exec E S B → Exec E S B
  m >> n = m >>= λ _. n

-- `err == nil`
abbrev pub is_ok : {E A : Type 0} → Result E A → Bool
is_ok (ok a) = true
is_ok (err e) = false

-- A call whose error is only logged.
abbrev pub attempt : {E S A : Type 0} → Exec E S A → Exec E S (Unit {0})
attempt m s = (ok tt, (m s).1)

pub Result-cases :
    {E A : Type 0} (r : Result E A) → ((a : A) × (r ≡ ok a)) ⊎ ((e : E) × (r ≡ err e))
Result-cases (ok a) = inl (a, refl)
Result-cases (err e) = inr (e, refl)

-- A chain that succeeds went through its first step.
module _ {E S A B : Type 0} (f : A → Exec E S B) where
  continue-ok :
      (r : Result E A) (s : S) {b : B}
      → (continue r f s).0 ≡ ok b
      → (a : A) × (r ≡ ok a) × (continue r f s ≡ f a s)
  continue-ok (ok a) s h = (a, refl, refl)
  continue-ok (err e) s h = cc

  pub bind-ok :
      (m : Exec E S A) (s : S) {b : B}
      → ((m >>= f) s).0 ≡ ok b
      → (a : A) × ((m s).0 ≡ ok a) × ((m >>= f) s ≡ f a (m s).1)
  bind-ok m s h = continue-ok (m s).0 (m s).1 h

-- A step that follows another is taken when the other succeeds.
module _ {E S A B : Type 0} where
  then-state :
      (r : Result E A) (n : Exec E S B) (s : S)
      → (continue r (λ _. n) s).1 ≡ (if is_ok r then (n s).1 else s)
  then-state (ok a) n s = refl
  then-state (err e) n s = refl

  then-is_ok :
      (r : Result E A) (n : Exec E S B) (s : S)
      → is_ok (continue r (λ _. n) s).0 ≡ (if is_ok r then is_ok (n s).0 else false)
  then-is_ok (ok a) n s = refl
  then-is_ok (err e) n s = refl

  pub step-state :
      (m : Exec E S A) (n : Exec E S B) (s : S)
      → ((m >> n) s).1 ≡ (if is_ok (m s).0 then (n (m s).1).1 else (m s).1)
  step-state m n s = then-state (m s).0 n (m s).1

  pub step-is_ok :
      (m : Exec E S A) (n : Exec E S B) (s : S)
      → is_ok ((m >> n) s).0 ≡ (if is_ok (m s).0 then is_ok (n (m s).1).0 else false)
  step-is_ok m n s = then-is_ok (m s).0 n (m s).1

-- `if b { return err }`
abbrev pub refuse_if : {E S : Type 0} → Bool → E → Exec E S (Unit {0})
refuse_if b e s = (if b then err e else ok tt, s)
