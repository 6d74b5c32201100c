-- ===== src/Docker/Tests.antt =====
-- Runs of the environment of a container at concrete inputs.
use skupper_docker.Base.{◌≡◌, refl, String, List, [], ◌∷◌}
use skupper_docker.Docker.{find_env_var}
use skupper_docker.Base.Text.{strip_prefix}

abbrev env : List String
env = "A=1" ∷ "B=2" ∷ []

-- A name that another begins with finds the other's text.
finds_longer_name : find_env_var ("PATH_EXTRA=x" ∷ []) "PATH" ≡ "PATH_EXTRA=x"
unfolding find_env_var strip_prefix
finds_longer_name = refl
