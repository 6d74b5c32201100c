-- ===== src/Docker/Images.antt =====
-- `GetImageVersion` of pkg/docker/containers.go. The digests of an image, the `RepoDigests` of
-- InspectImageByID, are an argument; they are ASCII, so that the characters that the code counts are
-- bytes.
use skupper_docker.Base.{
  ℕ, zero, suc, String, ◌<>◌, Option, none, some, List, [], ◌∷◌, ◌≡◌, refl, arith,
}
use skupper_docker.Base.Text.{split_at}
use skupper_docker.Base.Exec.{Result, ok, err}
use skupper_docker.Errors.{Error, index_out_of_range}

abbrev at_sign : ℕ
at_sign = 64

-- the first characters of a text, if it has as many
take : ℕ → String → Option String
take zero s = some String.[]
take (suc n) String.[] = none
take (suc n) (String.◌∷◌ c s) = elim (take n s) [ none ↦ none | some t ↦ some (String.◌∷◌ c t) ]

-- The version of an image that has the first digest; `hash` is what stands behind its first at sign,
-- up to the second.
version_of : (image digest : String) → Option String → String
unfolding take
version_of image digest none = digest
version_of image digest (some hash) = elim (take 19 hash) [
  | none ↦ digest
  | some short ↦ image <> " (" <> short <> ")"
]

between : Option String → Option String
unfolding split_at
between none = none
between (some rest) = some (split_at at_sign rest).0

-- An image without digests, which was built on the host, makes the index panic.
first_version : String → List String → Result Error String
unfolding version_of between split_at
first_version image [] = err index_out_of_range
first_version image (digest ∷ digests) =
    ok (version_of image digest (between (split_at at_sign digest).1))

unfoldable pub get_image_version :
    (String → Result Error (List String)) → String → Result Error String
unfolding first_version
get_image_version inspect_image image = elim (inspect_image image) [
  | ok digests ↦ first_version image digests
  | err e ↦ err e
]

router_version :
    get_image_version
      (λ image. ok ("quay.io/skupper/qdrouterd@sha256:0123456789abcdef0123" ∷ []))
      "quay.io/skupper/qdrouterd:0.4"
    ≡ ok "quay.io/skupper/qdrouterd:0.4 (sha256:0123456789ab)"
unfolding get_image_version
router_version = refl

-- An image without digests has no version: looking for it is a panic, not an error.
version_undigested :
    (inspect_image : String → Result Error (List String)) (image : String)
    → inspect_image image ≡ ok []
    → get_image_version inspect_image image ≡ err index_out_of_range
unfolding get_image_version
version_undigested inspect_image image e = ground arith
