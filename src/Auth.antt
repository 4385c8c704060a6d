-- ===== src/Auth.antt =====
-- hysteria/auth_backend.py: whether a user may connect.
pub mod Inputs
pub mod Password
pub mod Counts
pub mod User
pub mod Meaning
pub mod Credential
pub mod Secrets
pub mod Accepted
pub mod Quota
pub mod Decision
pub mod Payload
pub mod Stages
pub mod FailClosed
pub mod Uuids
pub mod Hashes
