-- ===== src/Cli/Arguments.antt =====
-- The checks of the arguments in cmd/skupper-docker/main.go.
use Prim.Native.Char.{code}
use skupper_docker.Base.{
  nat_eq, ◌≡◌, ◌≢◌, refl, String, true, some, List, [], ◌∷◌, arith, Bool-cases, inl, inr,
}
use skupper_docker.Base.Text.{contains, split_at, strip_prefix}
use skupper_docker.Base.Exec.{Result, ok, err}
use skupper_docker.Errors.{Error, index_out_of_range}
use skupper_docker.Cli.{
  slash, second_part, after_type, parse_target_type_and_name, is_expose_target, verify_type,
  verify_target_type_from_args, expose_target_args, bind_args,
}

-- A text that contains the separator is split in two.
split_at-contains :
    (s : String) → contains s "/" ≡ true → (rest : String) × ((split_at slash s).1 ≡ some rest)
unfolding contains split_at strip_prefix
split_at-contains String.[] h = absurd (ground arith)
split_at-contains (String.◌∷◌ c s) h = elim (Bool-cases (nat_eq (code c) slash)) [
  | inl e ↦ (s, rw e refl)
  | inr e ↦ let (rest, p) = split_at-contains s (ground arith) in (rest, rw (e, p) refl)
]

parsed_type :
    (r : Result Error (String × String))
    → verify_type r ≡ ok tt
    → (type : String) × (name : String) × (r ≡ ok (type, name)) × (is_expose_target type ≡ true)
unfolding verify_type
parsed_type (err e) h = cc
parsed_type (ok (type, name)) h = (type, name, refl, ground arith)

-- Arguments of `expose` or `unexpose` that pass the check name a target whose type is `container` or
-- `host-service`; taking the arguments apart does not run out of them.
expose_target_args-parse :
    (args : List String)
    → expose_target_args args ≡ ok tt
    → (type : String) × (name : String) × (parse_target_type_and_name args ≡ ok (type, name))
      × (is_expose_target type ≡ true)
unfolding expose_target_args verify_target_type_from_args
expose_target_args-parse [] h = cc
expose_target_args-parse (a ∷ []) h =
    parsed_type (parse_target_type_and_name (a ∷ [])) (ground arith)
expose_target_args-parse (a ∷ b ∷ []) h =
    parsed_type (parse_target_type_and_name (a ∷ b ∷ [])) (ground arith)
expose_target_args-parse (a ∷ b ∷ c ∷ more) h = cc

-- Arguments of `bind` or `unbind` that pass the check are the name of a service and arguments that
-- name a target whose type is `container` or `host-service`; taking them apart does not run out of
-- them.
bind_args-parse :
    (args : List String)
    → bind_args args ≡ ok tt
    → (service : String) × (rest : List String) × (type : String) × (name : String) × (args
        ≡ service ∷ rest)
      × (parse_target_type_and_name rest ≡ ok (type, name))
      × (is_expose_target type ≡ true)
unfolding bind_args verify_target_type_from_args
bind_args-parse [] h = cc
bind_args-parse (s ∷ []) h = cc
bind_args-parse (s ∷ a ∷ []) h =
    let (type, name, p, q) = parsed_type (parse_target_type_and_name (a ∷ [])) (ground arith) in
    (s, a ∷ [], type, name, refl, p, q)
bind_args-parse (s ∷ a ∷ b ∷ []) h =
    let (type, name, p, q) = parsed_type (parse_target_type_and_name (a ∷ b ∷ [])) (ground arith) in
    (s, a ∷ b ∷ [], type, name, refl, p, q)
bind_args-parse (s ∷ a ∷ b ∷ c ∷ more) h = cc

-- A single argument that contains a separator and the word `container` is taken apart without
-- running out of parts.
parse-single :
    (a : String)
    → contains a "/" ≡ true
    → (type : String) × (name : String) × (parse_target_type_and_name (a ∷ []) ≡ ok (type, name))
unfolding parse_target_type_and_name second_part after_type
parse-single a h =
    let (rest, p) = split_at-contains a h in
    elim (Bool-cases (contains a "container")) [
      | inl e ↦ ((split_at slash a).0, (split_at slash rest).0, rw (e, p) refl)
      | inr e ↦ (a, "", rw e refl)
    ]

-- The check of the arguments of `expose` never runs out of their parts.
expose_target_args-total : (args : List String) → expose_target_args args ≢ err index_out_of_range
unfolding expose_target_args verify_target_type_from_args verify_type parse_target_type_and_name
expose_target_args-total [] h = cc
expose_target_args-total (a ∷ []) h = elim (Bool-cases (contains a "/")) [
  | inl e ↦ let (type, name, p) = parse-single a e in absurd (ground arith)
  | inr e ↦ absurd (ground arith)
]
expose_target_args-total (a ∷ b ∷ []) h = ground arith
expose_target_args-total (a ∷ b ∷ c ∷ more) h = cc
