-- ===== src/User.antt =====
-- feature/user: the user policy and the user service.
pub mod Ports
pub mod Policy
pub mod Service
