-- ===== src/CredentialProvider.antt =====
-- The credential provider: CredentialProvider/ and its core/.
pub mod Credential
pub mod HResult
pub mod Kerb
pub mod Password
pub mod Provider
pub mod Ui
