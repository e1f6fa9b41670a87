-- ===== src/DeploymentController.antt =====
-- internal/controller/dockerdeployment/controller.go: the definitions are Scaling, what is proved of
-- them are the others.
pub mod Scaling
pub mod Replicas
pub mod Owners
pub mod Overrun
