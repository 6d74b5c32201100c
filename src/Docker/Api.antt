-- ===== src/Docker/Api.antt =====
-- The data of Docker's API, as far as the program fills it in or reads it (package
-- github.com/docker/docker/api/types).
use skupper_docker.Base.{ℕ, String, Bool, Option, List}
use skupper_docker.Base.Dict.{Dict}

-- `Mount`, and a mount point of a running container
pub record Mount : Type 0 where
  pub kind : String
  pub source : String
  pub target : String

-- `ContainerJSON`
pub record ContainerJson : Type 0 where
  pub id : String
  pub hostname : String
  pub image : String
  pub cmd : List String
  pub status : String
  pub env : List String
  pub labels : Dict String
  pub exposed_ports : List String
  pub mounts : List Mount
  -- network name to IP address
  pub networks : Dict String

-- `HealthConfig`; the period in seconds
pub record HealthConfig : Type 0 where
  pub test : List String
  pub start_period : ℕ

-- `ContainerCreateConfig`, with the fields of its configurations of the container, the host and the
-- networks. A field that a literal leaves out is empty.
pub record ContainerCreateConfig : Type 0 where
  pub name : String
  pub hostname : String
  pub image : String
  pub cmd : List String
  pub env : List String
  pub labels : Dict String
  pub exposed_ports : List String
  pub healthcheck : Option HealthConfig
  pub mounts : List Mount
  pub privileged : Bool
  pub network_mode : String
  pub extra_hosts : List String
  -- a port of the container to the ports of the host
  pub port_bindings : Dict (List String)
  -- the networks of the configuration of networks
  pub endpoints : List String

-- `Container`, an entry of a list of containers; the name is the first of its names.
pub record Container : Type 0 where
  pub id : String
  pub name : String
  pub labels : Dict String
