-- ===== src/Docker.antt =====
-- pkg/docker/envvars.go: environment variables of a container, each a text `NAME=value`.
pub mod Laws
pub mod Api
pub mod Daemon
pub mod Simple
pub mod Containers
pub mod Networks
pub mod Machine
pub mod Images
mod Tests
use skupper_docker.Base.{String, ◌<>◌, List, [], ◌∷◌, if◌then◌else◌}
use skupper_docker.Base.Text.{has_prefix, trim_prefix}

unfoldable pub find_env_var : List String → String → String
find_env_var [] name = ""
find_env_var (v ∷ env) name =
    if has_prefix v name then trim_prefix v (name <> "=") else find_env_var env name

pub set_env_var : List String → String → String → List String
set_env_var [] name value = []
set_env_var (v ∷ current) name value =
    (if has_prefix v name then name <> "=" <> value else v) ∷ set_env_var current name value
