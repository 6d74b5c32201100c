-- ===== src/Network/Query.antt =====
-- The queries of pkg/qdr/mgmt.go, run in the container of the router by pkg/qdr/container.go. The
-- operations of the daemon on commands in containers, dockerstdcopy.StdCopy and the decoding of
-- JSON are arguments.
use skupper_docker.Base.{ℕ, String, List, [], ◌∷◌, Option}
use skupper_docker.Base.Exec.{Result, Exec, pure, lift, ◌>>=◌}
use skupper_docker.Errors.{Error}
use skupper_docker.Types.{TransportConnectedSites}
use skupper_docker.Docker.Api.{ContainerJson}
use skupper_docker.Docker.Daemon.{Daemon}
use skupper_docker.Network.{RouterNode, Connection, get_connected_sites}

-- `ExecResult`
pub record ExecResult : Type 0 where
  pub exit_code : ℕ
  pub out_buffer : String
  pub err_buffer : String

-- The part of libdocker.Interface for commands; a stream is what it holds.
pub record Commands (D : Type 0) : Type 0 where
  pub create_exec : String → List String → Exec Error D String
  pub attach_exec : String → Exec Error D String
  pub inspect_exec : String → D → Result Error ℕ
  -- a stream is taken apart into output and errors
  pub std_copy : String → Result Error (String × String)

abbrev get_query : String → List String
get_query typename = "qdmanage" ∷ "query" ∷ "--type" ∷ typename ∷ []

module _ {D : Type 0} (dd : Daemon D) (commands : Commands D) where
  abbrev inspect_exec : String → Exec Error D ℕ
  inspect_exec id d = (commands.inspect_exec id d, d)

  -- `Exec`: the exit code is handed on, and nothing reads it.
  exec : String → List String → Exec Error D ExecResult
  exec id cmd = do
    exec_id ← commands.create_exec id cmd
    stream ← commands.attach_exec exec_id
    buffers ← lift (commands.std_copy stream)
    exit_code ← inspect_exec exec_id
    pure (record { exit_code = exit_code; out_buffer = buffers.0; err_buffer = buffers.1 })

  abbrev inspect : String → Exec Error D ContainerJson
  inspect name d = (dd.inspect_container name d, d)

  router_exec : List String → Exec Error D ExecResult
  unfolding exec
  router_exec command = do current ← inspect "skupper-router"; exec current.id command

  get_nodes : (String → Result Error (List RouterNode)) → Exec Error D (List RouterNode)
  unfolding router_exec
  get_nodes decode = do result ← router_exec (get_query "node"); lift (decode result.out_buffer)

  unfoldable get_connections :
      (String → Result Error (List Connection)) → Exec Error D (List Connection)
  unfolding router_exec
  get_connections decode = do
    result ← router_exec (get_query "connection")
    lift (decode result.out_buffer)

  -- `GetConnectedSites` with its query
  unfoldable query_connected_sites :
      (String → Result Error (List RouterNode)) → D → (TransportConnectedSites × Option Error) × D
  unfolding get_nodes get_connected_sites
  query_connected_sites decode d =
      let (nodes, d') = get_nodes decode d in (get_connected_sites nodes, d')
