-- ===== src/FidoVerifier.antt =====
-- CppClient/CppClient/FidoVerifier.cpp.
pub mod Errors
pub mod ClientData
pub mod AuthenticatorData
pub mod Cose
pub mod Assertion
pub mod Registration
