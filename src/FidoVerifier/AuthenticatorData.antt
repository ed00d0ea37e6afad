-- ===== src/FidoVerifier/AuthenticatorData.antt =====
-- `VerifyAuthenticatorData`: the RP ID hash, the flags and the counter of the authenticator data.
use Prim.Native.Nat.{bit_and}
use windows_fido_logon.Base.{
  le_of_not-ltb, not_ltb_of_le, ℕ, zero, suc, [], ◌∷◌, ◌+◌, ◌*◌, ◌/◌, ◌%◌, ◌^◌, ◌<◌, ◌≤◌, ◌≡◌, refl,
  ap, ◌∙◌, ◌↔◌, true, not, some, Bytes, IsBytes, ◌&&◌, bytes_eq, eq_of_bytes_eq, bytes_eq_refl,
  arith, length, get_or, take, ltb, ◌==◌, all_below, all_below_sound, ◌||◌,
}
use windows_fido_logon.External.Fido.{FidoLibrary}
use windows_fido_logon.FidoVerifier.Errors.{
  Verified, ok, require, found, ◌>>=◌, ◌>>◌, found->>=-eq-ok, >>-eq-ok, data_too_short,
  unable_to_hash, rp_hash_mismatch, user_presence_missing, user_verification_missing,
}

abbrev pub user_present : ℕ
user_present = 0x01

abbrev pub user_verified : ℕ
user_verified = 0x04

abbrev pub attested_credential_data : ℕ
attested_credential_data = 0x40

-- `authData[index]`, read only within the bounds.
abbrev pub byte_at : Bytes → ℕ → ℕ
byte_at bytes index = get_or bytes index 0

-- The bytes are shifted to disjoint places, so `|` adds.
pub big_endian32 : ℕ → ℕ → ℕ → ℕ → ℕ
big_endian32 a b c d = a * 2 ^ 24 + b * 2 ^ 16 + c * 2 ^ 8 + d

flag_tables :
    all_below 256 (λ f.
      (not (bit_and f 0x01 == 0) && f % 2 == 1 || bit_and f 0x01 == 0 && f % 2 == 0)
      && (not (bit_and f 0x04 == 0) && f / 4 % 2 == 1 || bit_and f 0x04 == 0 && f / 4 % 2 == 0)
      && (not (bit_and f 0x40 == 0) && f / 64 % 2 == 1 || bit_and f 0x40 == 0 && f / 64 % 2 == 0))
    ≡ true
unfolding all_below
flag_tables = refl

pub present_iff : (f : ℕ) → f < 256 → (not (bit_and f user_present == 0) ≡ true) ↔ (f % 2 ≡ 1)
present_iff f h = let t = all_below_sound _ 256 f h flag_tables in ground arith

pub verified_iff : (f : ℕ) → f < 256 → (not (bit_and f user_verified == 0) ≡ true) ↔ (f / 4 % 2 ≡ 1)
verified_iff f h = let t = all_below_sound _ 256 f h flag_tables in ground arith

pub attested_iff :
    (f : ℕ) → f < 256 → (not (bit_and f attested_credential_data == 0) ≡ true) ↔ (f / 64 % 2 ≡ 1)
attested_iff f h = let t = all_below_sound _ 256 f h flag_tables in ground arith

pub byte_at-lt : (bytes : Bytes) (index : ℕ) → IsBytes bytes → byte_at bytes index < 256
byte_at-lt [] index h = omega arith
byte_at-lt (b ∷ bytes) zero h = h.0
byte_at-lt (b ∷ bytes) (suc index) h = byte_at-lt bytes index h.1

counter_of :
    (a b c d n : ℕ) → ok (big_endian32 a b c d) ≡ ok n → n ≡ ((a * 256 + b) * 256 + c) * 256 + d
unfolding big_endian32
counter_of a b c d n h = ground arith

module _ (fido : FidoLibrary) where
  open fido use {sha256}

  unfoldable pub verify_authenticator_data : Bytes → Bytes → Verified ℕ
  unfolding big_endian32
  verify_authenticator_data auth_data rp_id = do
    require (not (ltb (length auth_data) 37)) data_too_short
    expected_rp_hash ← found (sha256 rp_id) unable_to_hash
    require (bytes_eq expected_rp_hash (take 32 auth_data)) rp_hash_mismatch
    let flags = byte_at auth_data 32
    require (not (bit_and flags user_present == 0)) user_presence_missing
    require (not (bit_and flags user_verified == 0)) user_verification_missing
    ok (
        big_endian32 (byte_at auth_data 33) (byte_at auth_data 34) (byte_at auth_data 35)
          (byte_at auth_data 36))

  -- What the authenticator data must hold, bit by bit.
  pub record IsAuthentic (auth_data rp_id : Bytes) (sign_count : ℕ) : Type 0 where
    pub long_enough : 37 ≤ length auth_data
    pub rp_hash : sha256 rp_id ≡ some (take 32 auth_data)
    pub present : byte_at auth_data 32 % 2 ≡ 1
    pub verified : byte_at auth_data 32 / 4 % 2 ≡ 1
    pub counted :
        sign_count
        ≡ ((byte_at auth_data 33 * 256 + byte_at auth_data 34) * 256 + byte_at auth_data 35) * 256
          + byte_at auth_data 36

  verify_authenticator_data-IsAuthentic :
      (auth_data rp_id : Bytes) (n : ℕ)
      → IsBytes auth_data
      → verify_authenticator_data auth_data rp_id ≡ ok n
      → IsAuthentic auth_data rp_id n
  unfolding verify_authenticator_data
  verify_authenticator_data-IsAuthentic auth_data rp_id n bytes h =
      let (long, h₁) = >>-eq-ok _ _ _ h in
      let (hash, hashed, h₂) = found->>=-eq-ok _ _ _ h₁ in
      let (same, h₃) = >>-eq-ok _ _ _ h₂ in
      let (present, h₄) = >>-eq-ok _ _ _ h₃ in
      let (verified, h₅) = >>-eq-ok _ _ _ h₄ in
      let small = byte_at-lt auth_data 32 bytes in
      record {
        long_enough = le_of_not-ltb _ _ long;
        rp_hash = hashed ∙ ap some (eq_of_bytes_eq hash (take 32 auth_data) same);
        present = (present_iff _ small).0 present;
        verified = (verified_iff _ small).0 verified;
        counted = counter_of _ _ _ _ n h₅;
      }

  IsAuthentic-verify_authenticator_data :
      (auth_data rp_id : Bytes) (n : ℕ)
      → IsBytes auth_data
      → IsAuthentic auth_data rp_id n
      → verify_authenticator_data auth_data rp_id ≡ ok n
  unfolding verify_authenticator_data
  IsAuthentic-verify_authenticator_data auth_data rp_id n bytes a =
      let small = byte_at-lt auth_data 32 bytes in
      let long = not_ltb_of_le (length auth_data) 37 a.long_enough in
      rw
        (
          long,
          a.rp_hash,
          bytes_eq_refl (take 32 auth_data),
          (present_iff _ small).1 a.present,
          (verified_iff _ small).1 a.verified,
        )
        (ap ok (let c = a.counted in omega arith))

  -- `VerifyAuthenticatorData` accepts exactly the data that is long enough, names the relying party
  -- by its hash and carries both the presence and the verification bit, and it returns the
  -- big-endian counter.
  pub verify_authenticator_data_iff :
      (auth_data rp_id : Bytes) (n : ℕ)
      → IsBytes auth_data
      → (verify_authenticator_data auth_data rp_id ≡ ok n) ↔ IsAuthentic auth_data rp_id n
  verify_authenticator_data_iff auth_data rp_id n bytes = (
    verify_authenticator_data-IsAuthentic auth_data rp_id n bytes,
    IsAuthentic-verify_authenticator_data auth_data rp_id n bytes,
  )
