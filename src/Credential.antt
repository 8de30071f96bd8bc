-- ===== src/Credential.antt =====
-- feature/credential: the credential service and its repository.
pub mod Ports
pub mod Table
pub mod Lifecycle
pub mod Notify
pub mod Guards
pub mod Mint
pub mod Review
pub mod Verify
pub mod Maintain
pub mod Numbers
pub mod Intake
