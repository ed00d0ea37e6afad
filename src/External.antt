-- ===== src/External.antt =====
-- Libraries that the program calls and does not contain, as records of operations that the model
-- takes as parameters.
pub mod Json
pub mod Cbor
pub mod Fido
