-- ===== src/LocalCredentialStore.antt =====
-- CppClient/CppClient/LocalCredentialStore.cpp.
pub mod VaultJson
pub mod Validity
pub mod Policy
pub mod Files
pub mod Save
pub mod Accounts
