-- ===== src/FidoVerifier/Cose/Extract.antt =====
-- What `ExtractAttestedCredential` has established when it returns true.
use Prim.Native.Nat.{bit_and}
use windows_fido_logon.Base.{
  ℕ, ◌+◌, ◌*◌, ◌/◌, ◌%◌, ◌<◌, ◌≤◌, ◌≡◌, sym, ap, subst, true, not, ◌&&◌, ◌||◌, some, Bytes, IsBytes,
  arith, length, take, drop, ltb, leb, ◌==◌,
}
use windows_fido_logon.External.Cbor.{CborLibrary}
use windows_fido_logon.FidoVerifier.Errors.{
  ok, ok-injective, >>-eq-ok, found->>=-eq-ok, attested_data_missing, invalid_attested_length,
  invalid_cose_key, not_es256,
}
use windows_fido_logon.FidoVerifier.AuthenticatorData.{
  byte_at, attested_credential_data, attested_iff, byte_at-lt,
}
use windows_fido_logon.FidoVerifier.Cose.{cose_es256_coordinates, extract_attested_credential}
use windows_fido_logon.FidoVerifier.Cose.Entries.{IsEs256Key, cose_es256_coordinates-IsEs256Key}

-- The length of the credential ID, a big-endian number of 16 bits.
abbrev pub id_length : Bytes → ℕ
id_length auth_data = byte_at auth_data 53 * 256 + byte_at auth_data 54

module _ (cbor : CborLibrary) where
  open cbor use {Item, load, isa_map}

  pub record IsAttested (auth_data credential_id cose : Bytes) : Type 0 where
    pub long_enough : 55 ≤ length auth_data
    pub attested : byte_at auth_data 32 / 64 % 2 ≡ 1
    pub some_id : 0 < id_length auth_data
    pub small_id : id_length auth_data ≤ 1024
    pub within : 55 + id_length auth_data < length auth_data
    pub id : credential_id ≡ take (id_length auth_data) (drop 55 auth_data)
    pub item : Item
    pub read : ℕ
    pub key_read : load (drop (55 + id_length auth_data) auth_data) ≡ some (item, read)
    pub key : cose ≡ take read (drop (55 + id_length auth_data) auth_data)
    pub coordinates : Bytes
    pub is_key : IsEs256Key cbor cose coordinates

  attested_flag :
      (auth_data : Bytes)
      → IsBytes auth_data
      → not (
          ltb (length auth_data) 55 || bit_and (byte_at auth_data 32) attested_credential_data == 0)
        ≡ true
      → (55 ≤ length auth_data) × (byte_at auth_data 32 / 64 % 2 ≡ 1)
  attested_flag auth_data bytes h = (
    ground arith,
    (attested_iff (byte_at auth_data 32) (byte_at-lt auth_data 32 bytes)).0 (ground arith),
  )

  length_checks :
      (id size : ℕ)
      → not (id == 0 || ltb 1024 id || leb size (55 + id)) ≡ true
      → (0 < id) × (id ≤ 1024) × (55 + id < size)
  length_checks id size h = (ground arith, ground arith, ground arith)

  -- What `ExtractAttestedCredential` returns for bytes stands in them: the attested bit is set, the ID
  -- is the 1 to 1024 bytes that the length field gives, and the key is the CBOR map behind them, an
  -- ES256 key.
  pub extract_attested_credential-IsAttested :
      (auth_data credential_id cose : Bytes)
      → IsBytes auth_data
      → extract_attested_credential cbor auth_data ≡ ok (credential_id, cose)
      → IsAttested auth_data credential_id cose
  unfolding extract_attested_credential
  extract_attested_credential-IsAttested auth_data credential_id cose bytes h =
      let id = id_length auth_data in
      let rest = drop (55 + id) auth_data in
      let (flagged, h₁) =
        >>-eq-ok
          (not (
            ltb (length auth_data) 55
            || bit_and (byte_at auth_data 32) attested_credential_data == 0))
          attested_data_missing _ h in
      let (sized, h₂) =
        >>-eq-ok (not (id == 0 || ltb 1024 id || leb (length auth_data) (55 + id)))
          invalid_attested_length _ h₁ in
      let (item_read, loaded, h₃) = found->>=-eq-ok (load rest) invalid_cose_key _ h₂ in
      let key = take item_read.1 rest in
      let (_, h₄) =
        >>-eq-ok (isa_map item_read.0 && not (item_read.1 == 0)) invalid_cose_key _ h₃ in
      let (coordinates, is_key, h₅) =
        found->>=-eq-ok (cose_es256_coordinates cbor key) not_es256 _ h₄ in
      let (long, attested) = attested_flag auth_data bytes flagged in
      let (some_id, small_id, within) = length_checks id (length auth_data) sized in
      let same : (take id (drop 55 auth_data), key) ≡ (credential_id, cose) = ok-injective h₅ in
      let same_key = ap (λ (p : Bytes × Bytes). p.1) same in
      record {
        long_enough = long;
        attested = attested;
        some_id = some_id;
        small_id = small_id;
        within = within;
        id = sym (ap (λ (p : Bytes × Bytes). p.0) same);
        item = item_read.0;
        read = item_read.1;
        key_read = loaded;
        key = sym same_key;
        coordinates = coordinates;
        is_key =
            subst (λ c. IsEs256Key cbor c coordinates) same_key
              (cose_es256_coordinates-IsEs256Key cbor key coordinates is_key);
      }
