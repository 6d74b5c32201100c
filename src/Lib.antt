-- ===== src/Lib.antt =====
-- skupper-docker: Skupper sites on a Docker host. A site has a router container, a controller and a
-- command line. The command line edits a file of service definitions; the controller watches that
-- file, announces the definitions of its site to other sites, merges theirs into the file, and
-- keeps bindings from which a proxy container with a router of its own is run for every service.
--
-- The files and the code they model (paths from the root of the repository):
--   Types, Errors     api/types/types.go, api/types/client.go: records, constants; the errors that
--                     the functions return, as data instead of texts.
--   Host              what client and controller see of the host: the answers of the Docker daemon,
--                     the addresses of docker0 (pkg/utils/utils.go, GetInternalIP), the file of
--                     definitions, and whether it can be written.
--   Service           client/serviceinterface_*.go. Validate is validateServiceInterface; Targets has
--                     the helpers on targets; Client has one function for each operation of
--                     VanClient on services: service_interface_create for ServiceInterfaceCreate
--                     and so on. Client/Operations has these operations as data, and runs of them.
--   Controller        cmd/service-controller/controller.go: the tables of Controller, and reading
--                     and writing the file. Controller/Sync is service_sync.go: receive is the loop
--                     body of runServiceSync, sync_update and age are the branches of syncSender.
--                     Controller/Bindings is bridges.go and processServiceDefs.
--                     Controller/Proxies is what keeps the proxy containers: getProxies,
--                     ensureProxyFor, deleteProxy, updateProxies, and processServiceDefs as a whole.
--                     Controller/Runs is the start of runServiceDefsWatcher, and a controller over
--                     time: a step relation of messages, ageings, notices of the file and commands.
--   Router            pkg/qdr/qdr.go: RouterConfig and the operations on it. Router/Document is
--                     MarshalRouterConfig and UnmarshalRouterConfig; Router/Proxy is
--                     GetRouterConfigForProxy; Router/Edit has the operations as data.
--   Cli               cmd/skupper-docker/main.go: the checks of arguments, and the commands expose,
--                     unexpose, bind and unbind, which call the operations of Service. Cli/Services
--                     has the commands service create, service delete and list-exposed, Cli/Sites
--                     those of a site and its connectors, Cli/Check is check-connection.
--   Docker            pkg/docker/envvars.go: the environment variables of a container.
--                     Docker/Containers is pkg/docker/containers.go: the configurations of the
--                     containers, their creation and restarts. Docker/Images is GetImageVersion,
--                     Docker/Networks pkg/docker/networks.go. Docker/Daemon is the
--                     interface of pkg/docker/libdocker/client.go, Docker/Api the data of Docker
--                     that it has; Docker/Simple, with containers, and Docker/Machine, with networks
--                     as well, are instances of it that can be run.
--   Site              client/router_create.go: GetRouterSpecFromOpts, the plan of a site, with
--                     Site/Transport for the configuration of its router. Site/Files has the files of
--                     a site; Site/Create is RouterCreate and client/site_config_create.go, Site/Inspect
--                     client/router_inspect.go, Site/Remove client/router_remove.go. Site/Certificates
--                     has getCertData, ensureCA and generateCredentials of client/router_create.go,
--                     and pkg/utils/configs/config.go.
--   Connectors        client/connector_create.go, connector_remove.go and connector_list.go.
--                     Connectors/Name is generateConnectorName, Connectors/Token is
--                     client/connector_token_create.go, Connectors/Inspect
--                     client/connector_inspect.go.
--   Network           pkg/qdr/mgmt.go: what is counted and found in the answers of the router.
--                     Network/Query has its queries, and pkg/qdr/container.go.
--   Base              Booleans, numbers, texts, maps, and operations that change a state and may fail
--                     (Base/Exec): what was written before a failure stays written.
-- The modules below these, named for what they prove, have the lemmas; the modules named Tests run
-- the theorems at concrete inputs.
--
-- The Docker daemon is not in the repository. Client operations on services and the controller's
-- bindings ask it for an inspection only, and that answer is a function that Host carries: theorems
-- hold for every such function. Containers are created, started and removed on a daemon that is an
-- argument, an instance of the interface Daemon over any type of states. Theorems that need to know
-- what the daemon does take IsHealthy, or some of CanCreate, CanRemove, Answered, Shows and
-- HasNetworks: what Docker documents of a daemon on which no operation fails that is asked of a
-- container or of a network in a fitting state. What an image adds to the configuration of a
-- container is seen in an inspection, and is an argument of Shows; the container itself is held
-- with the configuration that it was created with. Docker/Simple meets IsHealthy and Shows,
-- Docker/Machine the others. Further theorems hold for every daemon. The environment of the
-- process, the texts of json.Marshal that end in labels and environment variables, the secret of a
-- token, the digests of an image, the package that makes certificates, and the operations of the
-- daemon on commands in containers are arguments too; Site/Inspect and check-connection take the
-- answers of the router.
--
-- Go's maps are association lists, whose order is that in which a range loop meets the entries;
-- theorems hold for every order. The text of a configuration is written in that order too, which
-- the code chooses anew at each call: of a configuration with several entries in a map there are
-- several texts, and a theorem that compares texts speaks of the text in the order of the lists
-- that it names. Go's int is an integer without bound: the code adds none but counters, and the
-- texts of ports are made by itoa, whose recursion has the number itself as fuel. All loops are
-- structural recursions on lists, or on the number of rounds that the code allows, as the five
-- repetitions of RouterInspect and the seconds of check-connection. An index out of range and a nil
-- dereference, which are panics in Go, are errors here.
--
-- encoding/json is not modelled: a file is the map that it decodes to, or garbled, and an element
-- of a router's document holds the record that it decodes to, or is one of the malformed kinds. Its
-- failure to encode is left out, since it cannot fail on these types. Goroutines are steps, one
-- after the other: the code shares its tables between goroutines without a lock, and interleavings
-- inside a handler are not modelled. The certificates of a site are a state of their own, apart
-- from its other files: site_certificates makes them from nothing, in the order of RouterCreate.
-- The two files of the console, logging, WaitForContainerStatus, which only waits, the set-up of
-- the processes, and the declarations of the flags of commands are not modelled. The client of the
-- daemon, pkg/docker/libdocker, is derived from the kubelet and only passes calls on. A file system
-- either accepts all writes or none, and then leaves the file as it was, where the code may leave
-- it truncated. A name of a connector is one that can be a name of a directory.
pub mod Base
pub mod Types
pub mod Errors
pub mod Host
pub mod Service
pub mod Controller
pub mod Router
pub mod Cli
pub mod Docker
pub mod Network
pub mod Site
pub mod Connectors
