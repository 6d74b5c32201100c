-- ===== src/Errors.antt =====
-- The errors that the program returns. A constructor with an error is `fmt.Errorf("…: %w", err)`;
-- the texts are not modelled, what they carry is.
use skupper_docker.Base.{String}
use skupper_docker.Base.Int.{ℤ}

pub data Error : Type 0 where
  -- from below: the daemon, the file system, encoding/json, a panic of the Go runtime
  daemon : String → Error
  no_such_file : String → Error
  not_writable : String → Error
  not_json : Error
  nil_dereference : Error
  index_out_of_range : Error
  -- client/
  no_transport : Error → Error
  services_not_read : Error → Error
  services_not_decoded : Error → Error
  services_not_written : Error → Error
  service_not_found : Error → Error
  bad_target_port : String → ℤ → Error
  port_out_of_range : ℤ → Error
  aggregate_and_event_channel : Error
  bad_aggregate : String → Error
  bad_mapping : String → Error
  aggregate_needs_http : Error
  event_channel_needs_http : Error
  protocol_mismatch : String → String → Error
  container_not_read : String → Error → Error
  bad_target_type : String → Error
  port_required : Error
  no_entry : String → Error
  no_target : String → String → Error
  nothing_to_unexpose : Error
  file_exists : String → Error
  connector_not_made : Error → Error
  no_secret_origin : Error
  site_not_read : Error → Error
  connection_to_self : Error
  connectors_not_read : Error → Error
  connector_not_stored : Error → Error
  connector_not_removed : Error → Error
  router_config_not_read : Error → Error
  router_config_not_decoded : Error
  router_config_not_written : Error → Error
  router_not_restarted : Error → Error
  controller_not_restarted : Error → Error
  proxies_not_listed : Error → Error
  proxy_not_restarted : Error → Error
  token_files_not_read : Error → Error
  connections_not_read : Error → Error
  edge_takes_no_connections : Error
  ca_not_read : Error → Error
  console_user_unused : Error
  console_password_unused : Error
  transport_not_started : Error → Error
  controller_not_started : Error → Error
  controller_not_stopped : Error → Error
  controller_not_removed : Error → Error
  proxy_not_stopped : Error → Error
  proxy_not_removed : Error → Error
  transport_not_stopped : Error → Error
  network_not_removed : Error → Error
  network_without_name : Error
  files_not_removed : Error → Error
  -- cmd/skupper-docker
  service_not_created : Error → Error
  unknown_service : String → Error
  usage : Error
  illegal_argument : String → Error
  extra_argument : String → Error
  bad_target_kind : Error
  bad_protocol : String → Error
  address_required : Error
  bad_port : String → Error
  token_not_created : Error → Error
  site_config_not_read : Error → Error
  connection_not_created : Error → Error
  connection_not_removed : Error → Error
  connections_not_listed : Error → Error
  status_not_read : Error → Error
  versions_not_read : Error → Error
  services_not_listed : Error → Error
