-- ===== src/HostController.antt =====
-- internal/controller/dockerhost/reconciler.go: the definitions are Ping, what is proved of them is
-- Health.
pub mod Ping
pub mod Health
