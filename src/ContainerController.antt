-- ===== src/ContainerController.antt =====
-- internal/controller/dockercontainer/reconciler.go: the definitions are Drift, Secrets, Create, Sync,
-- Reconcile, Logs, Former and FormerServer, what is proved of them are the others.
pub mod Drift
pub mod Secrets
pub mod Create
pub mod Sync
pub mod Reconcile
pub mod Settled
pub mod Fresh
pub mod Exact
pub mod Limits
pub mod Ports
pub mod Deletion
pub mod Steady
pub mod Round
pub mod Logs
pub mod Former
pub mod FormerServer
pub mod LogClients
