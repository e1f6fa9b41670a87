-- ===== src/JobController.antt =====
-- internal/controller/dockerjob/reconciler.go: the controller that runs a DockerJob once in a Docker
-- container, with retries, a deadline and a cleanup after a time to live.
pub mod Client
pub mod Memory
pub mod Create
pub mod Sync
pub mod Reconcile
pub mod Creation
pub mod Deadline
pub mod Cache
pub mod Deletion
pub mod Runs
pub mod RunSteps
pub mod RunBound
pub mod Failing
pub mod Finished
pub mod TimeToLive
