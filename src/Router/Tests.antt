-- ===== src/Router/Tests.antt =====
-- Runs of the definitions for pkg/qdr/qdr.go at concrete inputs.
use skupper_docker.Base.{◌≡◌, refl, false, none, some, List, [], ◌∷◌, str_dec}
use skupper_docker.Base.Int.{pos}
use skupper_docker.Base.Dict
use skupper_docker.Base.Exec.{ok}
use skupper_docker.Types.{ServiceInterface, ServiceInterfaceTarget, container_selector}
use skupper_docker.Router.{Connector, connector_zero, ssl_profile_named, initial_config}
use skupper_docker.Router.Document.{unmarshal_router_config, marshal_router_config}
use skupper_docker.Router.Edit.{
  Edit, connector, conn_ssl_profile, without_connector, edit_all, edited_config_reads_back,
}
use skupper_docker.Router.Proxy.{proxy_config, tcp_endpoint}
use skupper_docker.Router.Proxy.Laws.{proxy_config_tcp}
use skupper_docker.Controller.Bindings.{get_target_port}

abbrev conn1 : Connector
conn1 = record connector_zero {
  name = "conn1";
  host = "example.com";
  port = "45671";
  role = "edge";
}

abbrev edits : List Edit
edits =
    conn_ssl_profile (ssl_profile_named "conn1-profile")
    ∷ connector conn1
    ∷ without_connector "conn2"
    ∷ []

edited_config_reads_back_example :
    unmarshal_router_config (marshal_router_config (edit_all edits (initial_config "r" "s" false)))
    ≡ ok (edit_all edits (initial_config "r" "s" false))
edited_config_reads_back_example = edited_config_reads_back edits "r" "s" false

abbrev pg : ServiceInterfaceTarget
pg = record { name = "pg"; selector = container_selector; target_port = pos 0; service = "" }

abbrev db : ServiceInterface
db = record {
  address = "db";
  protocol = "tcp";
  port = pos 5432;
  event_channel = false;
  aggregate = "";
  headless = none;
  targets = pg ∷ [];
  origin = "";
  alias = "";
}

proxy_config_tcp_example :
    (Dict.lookup "egress-pg" (proxy_config db "site").bridges.tcp_connectors
      ≡ some (tcp_endpoint "egress-pg" "pg" (pos 5432) "db" "site"))
    × ((proxy_config db "site").bridges.tcp_listeners
        ≡ ("ingress", tcp_endpoint "ingress" "0.0.0.0" (pos 5432) "db" "site") ∷ [])
unfolding str_dec get_target_port
proxy_config_tcp_example = proxy_config_tcp db "site" "egress-pg" refl
