-- ===== src/Api.antt =====
-- The custom resources of api/v1alpha1, one module for each source file, and the Kubernetes
-- metadata that they carry.
pub mod Meta
pub mod Container
pub mod Job
pub mod Host
pub mod Deployment
pub mod Service
pub mod Cluster
pub mod Copies
