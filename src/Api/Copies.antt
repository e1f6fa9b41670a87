-- ===== src/Api/Copies.antt =====
-- api/v1alpha1/deepcopy.go and zz_generated.deepcopy.go: the copies of the resources.
pub mod Memory
pub mod Cells
pub mod Deep
pub mod Leaf
pub mod Resource
pub mod Container
pub mod Job
pub mod Deployment
pub mod Service
pub mod Apart
