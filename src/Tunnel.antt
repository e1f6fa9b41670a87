-- ===== src/Tunnel.antt =====
-- internal/tunnel: the server in the cluster, which hands TCP connections round robin to the targets of
-- the connected tunnel clients, and the client on the Docker host, which dials the target that a stream
-- names. A text is the list of its code points; on the wire it is a list of bytes.
pub mod Targets
pub mod Server
pub mod Client
pub mod Conn
pub mod Stream
pub mod Gateway
pub mod Forward
pub mod Lifetime
pub mod Registry
pub mod RoundRobin
pub mod Push
pub mod Auth
pub mod Header
pub mod Start
