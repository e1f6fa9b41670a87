-- ===== src/Manager.antt =====
-- cmd/manager/main.go: the definitions of the command `tunnel` are Flags and Run, what is proved of them is
-- Args; the start of the manager is Start, what is proved of it is Startup. Flags are texts of code points.
pub mod Flags
pub mod Run
pub mod Args
pub mod Start
pub mod Startup
