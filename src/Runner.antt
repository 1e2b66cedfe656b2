-- ===== src/Runner.antt =====
-- helpers/test-runner-service: the service that builds, pulls and runs test images one at a time.
pub mod Models
pub mod Settings
pub mod Docker
pub mod Artifacts
pub mod Portal
pub mod Store
pub mod Execute
pub mod Validation
pub mod Auth
pub mod Oidc
pub mod Coordinator
pub mod Api
pub mod Processes
pub mod Samples
mod Witnesses
