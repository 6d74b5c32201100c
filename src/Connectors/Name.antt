-- ===== src/Connectors/Name.antt =====
-- `generateConnectorName` of client/connector_create.go, and the names that it gives.
use Prim.Native.Char.{code}
use skupper_docker.Base.{
  ℕ, zero, suc, ◌+◌, ◌-◌, ◌≤◌, ◌<◌, ◌≡◌, ◌≢◌, refl, ap, sym, ◌∙◌, String, ◌<>◌, Bool, true, false,
  ◌&&◌, Option, none, some, List, [], ◌∷◌, ◌==◌, leb, if◌then◌else◌, map, any, All, arith,
  Bool-cases, inl, inr, eq→path, ne→false,
}
use skupper_docker.Base.Int.{pos, itoa}
use skupper_docker.Base.Text.{strip_prefix}

is_digit : ℕ → Bool
is_digit c = leb 48 c && leb c 57

-- the last digit of the digits with which a text goes on
last_digit : ℕ → String → ℕ
unfolding is_digit
last_digit d String.[] = d
last_digit d (String.◌∷◌ c s) =
    let rest = last_digit (code c - 48) s in if is_digit (code c) then rest else d

digits : String → Option ℕ
unfolding is_digit last_digit
digits String.[] = none
digits (String.◌∷◌ c s) = if is_digit (code c) then some (last_digit (code c - 48) s) else none

-- the digits behind a prefix of which the text behind it is given
after_conn : Option String → Option ℕ
unfolding digits
after_conn none = none
after_conn (some s) = digits s

-- The submatch of the pattern conn([0-9])+ in a text. A group that is repeated holds what it matched
-- last, so it is the last digit of the first match.
find_submatch : String → Option ℕ
unfolding strip_prefix after_conn
find_submatch String.[] = none
find_submatch (String.◌∷◌ c s) =
    let rest = find_submatch s in
    elim (after_conn (strip_prefix "conn" (String.◌∷◌ c s))) [ none ↦ rest | some n ↦ some n ]

-- one round of the loop over the files
abbrev raise : Option ℕ → ℕ → ℕ
raise none max = max
raise (some v) max = if leb max v then v + 1 else max

next_number : ℕ → List String → ℕ
unfolding find_submatch
next_number max [] = max
next_number max (f ∷ files) = next_number (raise (find_submatch f) max) files

unfoldable pub generate_connector_name : List String → String
unfolding next_number
generate_connector_name files = "conn" <> itoa (pos (next_number 1 files))

last_digit-≤ : (d : ℕ) (s : String) → d ≤ 9 → last_digit d s ≤ 9
unfolding last_digit is_digit
last_digit-≤ d String.[] h = h
last_digit-≤ d (String.◌∷◌ c s) h = ground (arith, last_digit-≤ (code c - 48) s)

-- a number with one digit, if there is one
abbrev IsDigit : Option ℕ → Type 0
IsDigit none = Unit
IsDigit (some n) = n ≤ 9

digits-IsDigit : (s : String) → IsDigit (digits s)
unfolding digits is_digit
digits-IsDigit String.[] = tt
digits-IsDigit (String.◌∷◌ c s) = ground (arith, last_digit-≤ (code c - 48) s)

after_conn-IsDigit : (o : Option String) → IsDigit (after_conn o)
unfolding after_conn
after_conn-IsDigit none = tt
after_conn-IsDigit (some s) = digits-IsDigit s

found-IsDigit :
    (o rest : Option ℕ)
    → IsDigit o
    → IsDigit rest
    → IsDigit (elim o [ none ↦ rest | some n ↦ some n ])
found-IsDigit none rest h k = k
found-IsDigit (some n) rest h k = h

find_submatch-IsDigit : (s : String) → IsDigit (find_submatch s)
unfolding find_submatch
find_submatch-IsDigit String.[] = tt
find_submatch-IsDigit (String.◌∷◌ c s) =
    found-IsDigit (after_conn (strip_prefix "conn" (String.◌∷◌ c s))) (find_submatch s)
      (after_conn-IsDigit (strip_prefix "conn" (String.◌∷◌ c s))) (find_submatch-IsDigit s)

raise-≤ : (o : Option ℕ) (max : ℕ) → IsDigit o → max ≤ 10 → raise o max ≤ 10
raise-≤ none max h k = k
raise-≤ (some n) max h k = ground arith

≤-raise : (o : Option ℕ) (max : ℕ) → max ≤ raise o max
≤-raise none max = omega arith
≤-raise (some n) max = ground arith

-- Whatever the files: the number of a generated name is at least the one the search starts with, and
-- at most 10.
next_number-bounds :
    (max : ℕ) (files : List String)
    → max ≤ 10
    → (max ≤ next_number max files) × (next_number max files ≤ 10)
unfolding next_number
next_number-bounds max [] h = (omega arith, h)
next_number-bounds max (f ∷ files) h =
    let m = raise (find_submatch f) max in
    let (lower, upper) =
      next_number-bounds m files (raise-≤ (find_submatch f) max (find_submatch-IsDigit f) h) in
    let step = ≤-raise (find_submatch f) max in (omega arith, upper)

next_number-< :
    (v max : ℕ) (f : String) (files : List String)
    → max ≤ 10
    → any (λ (g : String). f == g) files ≡ true
    → find_submatch f ≡ some v
    → v < next_number max files
unfolding next_number
next_number-< v max f [] h m e = cc
next_number-< v max f (g ∷ files) h m e =
    let raised = raise-≤ (find_submatch g) max (find_submatch-IsDigit g) h in
    elim (Bool-cases (f == g)) [
      | inl same ↦
          let found : find_submatch g ≡ some v = ap find_submatch (sym (eq→path f g same)) ∙ e in
          ground (arith, next_number-bounds (raise (find_submatch g) max) files raised)
      | inr other ↦ next_number-< v (raise (find_submatch g) max) f files raised (ground arith) e
    ]

ninth : find_submatch "conn9" ≡ some 9
unfolding find_submatch after_conn digits last_digit is_digit strip_prefix
ninth = refl

-- If there is a ninth connector of a generated name, the name that is generated is that of the tenth,
-- whatever else there is: also if the tenth is there.
pub generate_connector_name-tenth :
    (files : List String)
    → any (λ (f : String). "conn9" == f) files ≡ true
    → generate_connector_name files ≡ "conn10"
unfolding generate_connector_name itoa
generate_connector_name-tenth files m =
    let above = next_number-< 9 1 "conn9" files (omega arith) m ninth in
    let (lower, upper) = next_number-bounds 1 files (omega arith) in
    let n : next_number 1 files ≡ 10 = omega arith in rw n refl

abbrev pub generated : ℕ → String
generated k = "conn" <> itoa (pos k)

find_submatch-generated :
    (k : ℕ) → k ≤ 10 → find_submatch (generated k) ≡ some (if leb k 9 then k else 0)
unfolding find_submatch after_conn digits last_digit is_digit strip_prefix itoa
find_submatch-generated zero h = refl
find_submatch-generated (suc zero) h = refl
find_submatch-generated (suc (suc zero)) h = refl
find_submatch-generated (suc (suc (suc zero))) h = refl
find_submatch-generated (suc (suc (suc (suc zero)))) h = refl
find_submatch-generated (suc (suc (suc (suc (suc zero))))) h = refl
find_submatch-generated (suc (suc (suc (suc (suc (suc zero)))))) h = refl
find_submatch-generated (suc (suc (suc (suc (suc (suc (suc zero))))))) h = refl
find_submatch-generated (suc (suc (suc (suc (suc (suc (suc (suc zero)))))))) h = refl
find_submatch-generated (suc (suc (suc (suc (suc (suc (suc (suc (suc zero))))))))) h = refl
find_submatch-generated (suc (suc (suc (suc (suc (suc (suc (suc (suc (suc zero)))))))))) h = refl
find_submatch-generated (suc (suc (suc (suc (suc (suc (suc (suc (suc (suc (suc k))))))))))) h =
    ground arith

-- the number of a generated name with one digit
abbrev Numbers : List ℕ → Type 0
Numbers = All (λ (k : ℕ). (1 ≤ k) × (k ≤ 9))

generated-below :
    (max : ℕ) (ks : List ℕ)
    → max ≤ 10
    → Numbers ks
    → All (λ (k : ℕ). k < next_number max (map generated ks)) ks
unfolding next_number
generated-below max [] h d = tt
generated-below max (k ∷ ks) h ((low, high), d) =
    let raised =
      raise-≤ (find_submatch (generated k)) max (find_submatch-IsDigit (generated k)) h in
    let found = find_submatch-generated k (omega arith) in
    let (lower, upper) =
      next_number-bounds (raise (find_submatch (generated k)) max) (map generated ks) raised in
    (ground arith, generated-below (raise (find_submatch (generated k)) max) ks raised d)

generated-≢ : (n k : ℕ) → n ≤ 10 → 1 ≤ k → k < n → generated n ≢ generated k
generated-≢ n k h low less e =
    let same =
      sym (find_submatch-generated n h)
      ∙ ap find_submatch e
      ∙ find_submatch-generated k (omega arith) in
    ground arith

fresh-below :
    (n : ℕ) (ks : List ℕ)
    → n ≤ 10
    → Numbers ks
    → All (λ (k : ℕ). k < n) ks
    → any (λ (f : String). generated n == f) (map generated ks) ≡ false
fresh-below n [] h d below = refl
fresh-below n (k ∷ ks) h ((low, high), d) (less, below) =
    rw (ne→false (generated n) (generated k) (generated-≢ n k h low less))
      (fresh-below n ks h d below)

-- Where the connectors are those of generated names with a number from 1 to 9, in any order and with
-- gaps, the name that is generated is that of none of them.
generate_connector_name-fresh :
    (ks : List ℕ)
    → Numbers ks
    → any (λ (f : String). generate_connector_name (map generated ks) == f) (map generated ks)
      ≡ false
unfolding generate_connector_name
generate_connector_name-fresh ks d =
    fresh-below (next_number 1 (map generated ks)) ks
      (next_number-bounds 1 (map generated ks) (omega arith)).1 d
      (generated-below 1 ks (omega arith) d)
