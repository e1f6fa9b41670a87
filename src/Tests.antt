-- ===== src/Tests.antt =====
-- Runs on concrete inputs, and the theorems applied to them.
mod Fixtures
mod Job
mod JobTimes
mod Container
mod Deployment
mod Tunnel
mod Pass
mod Copies
mod Service
mod Command
mod Startup
mod Fresh
mod Round
