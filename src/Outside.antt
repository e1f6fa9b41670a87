-- ===== src/Outside.antt =====
-- What the controllers act on and do not implement: the Kubernetes API, the Docker API, the clock and
-- the library functions, as a record of operations on an unknown state `W` (and an unknown type `F`
-- of floating-point numbers). Nothing is assumed of it here.
-- A world is that state with the reconciler's cache of clients and the calls made so far, the newest
-- first: every call that can change something outside is noted, whether or not it succeeds.
pub mod Docker
pub mod Calls
pub mod Time
pub mod Requeue
pub mod Trace
pub mod Durations
