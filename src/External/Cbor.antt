-- ===== src/External/Cbor.antt =====
-- libcbor, as far as the program uses it.
use windows_fido_logon.Base.{ℕ, Bool, Option, List, Bytes}

pub record CborLibrary : Type 1 where
  pub Item : Type 0
  -- `cbor_load`: the item, and how many bytes were read; `none` is a null pointer.
  pub load : Bytes → Option (Item × ℕ)
  pub isa_map : Item → Bool
  -- `cbor_map_handle` with `cbor_map_size`.
  pub pairs : Item → List (Item × Item)
  pub isa_uint : Item → Bool
  pub isa_negint : Item → Bool
  -- `cbor_get_int`, a uint64_t; a negative integer is -1 minus it.
  pub get_int : Item → ℕ
  pub isa_bytestring : Item → Bool
  -- `cbor_bytestring_handle` with `cbor_bytestring_length`; `none` is a null pointer.
  pub bytestring : Item → Option Bytes
