-- ===== src/Credential.antt =====
-- The credential provider: CredentialProvider, and what it uses of common/managers/ipc/udp.
pub mod Results
pub mod Names
pub mod Logon
pub mod Serialization
pub mod PasswordRequest
pub mod Receiver
pub mod Requests
pub mod Service
pub mod Session
pub mod Fields
pub mod Provider
