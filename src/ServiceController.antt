-- ===== src/ServiceController.antt =====
-- internal/controller/dockerservice/reconciler.go: the definitions are Targets, Auth, Server, Host, Client
-- and Reconcile, what is proved of them are the others.
pub mod Targets
pub mod Auth
pub mod Server
pub mod Host
pub mod Client
pub mod Reconcile
pub mod Leak
pub mod Push
pub mod Tokens
pub mod Deletion
