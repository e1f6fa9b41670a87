-- ===== src/Lib.antt =====
-- The Docker operator: Kubernetes controllers that run containers on remote Docker daemons, and a
-- tunnel that carries connections from the cluster to hosts behind a firewall.
--
-- The program and the files that model it:
--   * api/v1alpha1/*.go, the custom resources: Api, a module for each file; Api.Cluster has the objects
--     of Kubernetes itself that the service controller writes. deepcopy.go and zz_generated.deepcopy.go there
--     are Api.Copies: Memory has the cells and what each statement of a copy does to them, Deep what a deep copy
--     is, Cells the structs with addresses for pointers, and the others the methods of each resource.
--   * internal/controller/common/utils.go and the reading of Secrets: Common.Tls, Common.Secrets;
--     mock_client.go beside it, a Docker daemon in memory: Common.Mock.
--   * internal/controller/dockerjob/reconciler.go: JobController. `getDockerClient` is Client,
--     `createAndStartContainer` is Create, `parseMemoryString` and `buildDockerResources` are Memory,
--     `syncJob`, `handleTTLCleanup` and `setStatus` are Sync, `Reconcile` is Reconcile. The other
--     children of JobController have the proofs, each named for what it is about.
--   * internal/controller/dockercontainer/reconciler.go: ContainerController. `needsRecreate` and the
--     conversions of resources and health checks are Drift, `createAndStartContainer` is Create,
--     `syncContainer` is Sync, `Reconcile` and `deleteExternalResources` are Reconcile, and the methods that
--     read Secrets are Secrets. logs.go beside it is Logs. The functions of the former tunnel, from `generateToken` on, which nothing calls, are Former
--     and FormerServer.
--   * internal/controller/dockerservice/reconciler.go: ServiceController. The addresses of the targets and
--     their push are Targets, `ensureTunnelAuthSecret` is Auth, `reconcileTunnelServer` is Server,
--     `reconcileTunnelClient` is Client, `getDockerClient` is Host, and `Reconcile`,
--     `deleteExternalResources` and `findDockerServicesForContainer` are Reconcile.
--   * internal/controller/dockerdeployment/controller.go: DeploymentController, with the definitions in
--     Scaling. `sort.Slice` and `rand.Intn` are parameters of them.
--   * internal/controller/dockerhost/reconciler.go: HostController, with the definitions in Ping.
--   * internal/tunnel/server.go, client.go and conn.go: Tunnel. The targets and their parsing
--     are Targets, the server's state and handlers are Server, its `Start` is Start, the client's rounds, its request and the
--     header it reads are Client, and the stream of bytes over a WebSocket is Conn.
--   * internal/tunnel/gateway.go: Tunnel.Gateway, the `Director` of the reverse proxy.
--   * cmd/manager/main.go: Manager. The flags of the command `tunnel` are Flags, and what it starts is Run; the
--     start of the manager, with the `SetupWithManager` of each reconciler, is Start.
--
-- How the parts meet. The service controller starts the command `tunnel` twice, as a server in the cluster
-- and as a client on the Docker host, with arguments that Manager reads; the client reaches the server
-- through the gateway; and the controller pushes to the server the list of targets that the server
-- parses. The container controller writes the addresses that the service controller collects. The container
-- controller meets the daemon of Common.Mock in ContainerController.Round.
--
-- How state and errors are modelled. A controller's method is an action (Exec) on a World: what is
-- outside, the reconciler's cache of clients, and the calls made so far, newest first. An error comes
-- back beside the state, since what was done before it stays done. The Kubernetes API, the Docker
-- API, the clock and the library functions are the fields of a record Env (Outside.Calls) that every
-- definition of a controller takes as a parameter, and those that only the service controller uses
-- are the fields of Cluster; nothing is assumed of them but where a theorem
-- names it. A call that may change something outside is noted in the world's trace. An object that
-- the Go code changes through a pointer is passed along, and a status update that succeeds replaces it
-- by the server's answer. The server of the tunnel is a record, and a critical section under its lock
-- is one function on it, so an interleaving of handlers is a sequence of these functions.
-- Where sharing matters, in the copies of the resources, the memory is a list of cells that only grows,
-- and a pointer is an index into it.
--
-- Numbers. Instants and durations are integers of nanoseconds over the native numbers; int32, int64,
-- uint64 and the product in `time.Duration(n) * time.Second` wrap as the Go code does, and `Sub`
-- saturates. The loops are over lists and counts. Only two definitions
-- take fuel: the decimal numerals, where each digit takes one unit and a number has fewer digits than its
-- value plus one, and Tunnel.Stream, which reads a connection to its end, where each read gives a byte, so
-- that a unit more than there are bytes is enough.
--
-- Not modelled: the copying of bytes between sockets and logging, which are input and output; and what
-- controller-runtime does with the controllers that the manager registers.
pub mod Prelude
pub mod Exec
pub mod Api
pub mod Outside
pub mod Common
pub mod JobController
pub mod ContainerController
pub mod DeploymentController
pub mod HostController
pub mod ServiceController
pub mod Tunnel
pub mod Manager
mod Tests
