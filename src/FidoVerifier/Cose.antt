-- ===== src/FidoVerifier/Cose.antt =====
-- `CoseEs256Coordinates` and `ExtractAttestedCredential`. An `int` is its 32-bit pattern, as the
-- casts leave it.
pub mod Entries
pub mod Integers
pub mod Extract
use Prim.Native.Nat.{bit_and}
use windows_fido_logon.Base.{
  ℕ, ◌+◌, ◌-◌, ◌*◌, ◌%◌, ◌^◌, ◌≡◌, refl, Bool, true, false, not, ◌&&◌, ◌||◌, Option, none, some,
  List, [], ◌∷◌, ◌++◌, Bytes, arith, length, take, drop, ltb, leb, ◌==◌, if◌then◌else◌,
}
use windows_fido_logon.External.Cbor.{CborLibrary}
use windows_fido_logon.FidoVerifier.Errors.{
  Verified, ok, err, require, found, ◌>>=◌, ◌>>◌, attested_data_missing, invalid_attested_length,
  invalid_cose_key, not_es256,
}
use windows_fido_logon.FidoVerifier.AuthenticatorData.{byte_at, attested_credential_data}

-- `static_cast<int>(n)` and `-1 - static_cast<int>(n)`.
abbrev pub int_of : ℕ → ℕ
int_of n = n % 2 ^ 32

abbrev pub negative_int_of : ℕ → ℕ
negative_int_of n = 2 ^ 32 - 1 - n % 2 ^ 32

-- The keys -1, -2 and -3, and the value -7.
abbrev pub minus_one : ℕ
minus_one = 2 ^ 32 - 1

abbrev pub minus_two : ℕ
minus_two = 2 ^ 32 - 2

abbrev pub minus_three : ℕ
minus_three = 2 ^ 32 - 3

abbrev pub cose_es256 : ℕ
cose_es256 = 2 ^ 32 - 7

-- The variables of the loop: `none` where the flag `has…` is false.
pub record Found : Type 0 where
  pub key_type : Option ℕ
  pub algorithm : Option ℕ
  pub curve : Option ℕ
  pub x : Option Bytes
  pub y : Option Bytes

abbrev pub nothing_found : Found
nothing_found = record { key_type = none; algorithm = none; curve = none; x = none; y = none }

-- `if (seen) return false; seen = true; …`
abbrev pub set_once {ℓ κ} : {A : Type ℓ} {B : Type κ} → Option A → B → Option B
set_once (some a) found = none
set_once none found = some found

-- `!begin || length != 32`
abbrev pub coordinate_of : Option Bytes → Option Bytes
coordinate_of none = none
coordinate_of (some bytes) = if length bytes == 32 then some bytes else none

abbrev pub with_coordinate {ℓ} : {B : Type ℓ} → Option Bytes → (Bytes → Option B) → Option B
with_coordinate none f = none
with_coordinate (some bytes) f = f bytes

-- The checks behind the loop.
unfoldable pub finish_scan :
    Option ℕ → Option ℕ → Option ℕ → Option Bytes → Option Bytes → Option Bytes
finish_scan (some key_type) (some algorithm) (some curve) (some x) (some y) =
    if key_type == 2 && algorithm == cose_es256 && curve == 1 && length x == 32 && length y == 32
    then some (x ++ y)
    else none
finish_scan _ _ _ _ _ = none

module _ (cbor : CborLibrary) where
  open cbor use {
    Item, load, isa_map, pairs, isa_uint, isa_negint, get_int, isa_bytestring, bytestring,
  }

  -- The key as an `int`; `none` is the `continue` at a key of another type.
  unfoldable pub key_of : Item → Option ℕ
  key_of key =
      if isa_uint key
      then some (int_of (get_int key))
      else if isa_negint key
      then some (negative_int_of (get_int key))
      else none

  -- One round of the loop at a key; `none` is `return false`.
  unfoldable pub scan_value : ℕ → Item → Found → Option Found
  scan_value key value s =
      if key == 1 && isa_uint value
      then set_once s.key_type (record s { key_type = some (int_of (get_int value)) })
      else if key == 3 && isa_negint value
      then set_once s.algorithm (record s { algorithm = some (negative_int_of (get_int value)) })
      else if key == minus_one && isa_uint value
      then set_once s.curve (record s { curve = some (int_of (get_int value)) })
      else if key == minus_two && isa_bytestring value
      then with_coordinate (coordinate_of (bytestring value))
          (λ bytes. set_once s.x (record s { x = some bytes }))
      else if key == minus_three && isa_bytestring value
      then with_coordinate (coordinate_of (bytestring value))
          (λ bytes. set_once s.y (record s { y = some bytes }))
      else some s

  unfoldable pub scan_pair : Item × Item → Found → Option Found
  unfolding key_of scan_value
  scan_pair (key, value) s = elim (key_of key) [ none ↦ some s | some k ↦ scan_value k value s ]

  unfoldable pub scan : List (Item × Item) → Found → Option Found
  scan [] s = some s
  scan (p ∷ ps) s = elim (scan_pair p s) [ none ↦ none | some s' ↦ scan ps s' ]

  abbrev loaded : Bytes → Option (Item × ℕ) → Option (List (Item × Item))
  loaded cose none = none
  loaded cose (some (map, read)) =
      if isa_map map && read == length cose && leb (length (pairs map)) 32
      then some (pairs map)
      else none

  unfoldable pub cose_es256_coordinates : Bytes → Option Bytes
  unfolding scan scan_pair finish_scan
  cose_es256_coordinates cose = elim (loaded cose (load cose)) [
    | none ↦ none
    | some entries ↦ elim (scan entries nothing_found) [
      | none ↦ none
      | some s ↦ finish_scan s.key_type s.algorithm s.curve s.x s.y
    ]
  ]

  -- The credential ID and the exact bytes of the COSE key.
  unfoldable pub extract_attested_credential : Bytes → Verified (Bytes × Bytes)
  unfolding cose_es256_coordinates
  extract_attested_credential auth_data = do
    require
        (not (
          ltb (length auth_data) 55
          || bit_and (byte_at auth_data 32) attested_credential_data == 0))
        attested_data_missing
    let id_length = byte_at auth_data 53 * 2 ^ 8 + byte_at auth_data 54
    let cose_offset = 55 + id_length
    require (not (id_length == 0 || ltb 1024 id_length || leb (length auth_data) cose_offset))
        invalid_attested_length
    let credential_id = take id_length (drop 55 auth_data)
    (item, read) ← found (load (drop cose_offset auth_data)) invalid_cose_key
    require (isa_map item && not (read == 0)) invalid_cose_key
    let cose = take read (drop cose_offset auth_data)
    coordinates ← found (cose_es256_coordinates cose) not_es256
    ok (credential_id, cose)
