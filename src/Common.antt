-- ===== src/Common.antt =====
-- What the controllers share: internal/controller/common/utils.go and mock_client.go, and the reading of
-- Secrets, which the job controller and the container controller each spell out in the same words.
pub mod Tls
pub mod Secrets
pub mod Mock
