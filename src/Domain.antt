-- ===== src/Domain.antt =====
-- The domain layer, domain/*.go.
pub mod Role
pub mod Clock
pub mod Fault
pub mod Reference
pub mod User
pub mod Credential
