-- ===== src/FidoVerifier/Assertion.antt =====
-- `FidoVerifier::VerifyAssertion`.
pub mod Accepted
use windows_fido_logon.Base.{
  ℕ, ◌<◌, ◌≡◌, ◌⊎◌, refl, inl, inr, Bool, true, false, not, ◌&&◌, ◌||◌, Option, none, some, List,
  [], ◌∷◌, Bytes, codes, bytes_eq, eq_of_bytes_eq, arith, length, is_empty, leb, ◌==◌,
  if◌then◌else◌, Bool-cases,
}
use windows_fido_logon.LocalFidoTypes.{
  CredentialRecord, FidoAssertionData, FidoSignResponse, es256_algorithm,
}
use windows_fido_logon.External.Json.{JsonLibrary}
use windows_fido_logon.External.Cbor.{CborLibrary}
use windows_fido_logon.External.Fido.{FidoLibrary}
use windows_fido_logon.Convert.{base64url_decode}
use windows_fido_logon.FidoVerifier.Errors.{
  Verified, ok, err, require, found, ◌>>=◌, ◌>>◌, >>-eq-ok, found->>=-eq-ok, >>=-eq-ok,
  unsupported_algorithm, not_one_assertion, wrong_credential, invalid_assertion_field,
  counter_did_not_increase, out_of_memory, signature_failed,
}
use windows_fido_logon.FidoVerifier.ClientData.{verify_client_data}
use windows_fido_logon.FidoVerifier.AuthenticatorData.{verify_authenticator_data}
use windows_fido_logon.FidoVerifier.Cose.{cose_es256_coordinates}

-- `if (result == FIDO_OK) result = …`
infixl 5 ◌then_call◌
abbrev pub ◌then_call◌ : {A : Type 0} → ℕ × A → (A → ℕ × A) → ℕ × A
(result, a) then_call f = if result == 0 then f a else (result, a)

-- `response.assertions.front()` of a list of one.
abbrev pub only_assertion : List FidoAssertionData → Option FidoAssertionData
only_assertion (a ∷ []) = some a
only_assertion _ = none

-- `credential.signCount != 0 && (newSignCount == 0 || newSignCount <= credential.signCount)`
unfoldable pub counter_stuck : ℕ → ℕ → Bool
counter_stuck stored new = not (stored == 0) && (new == 0 || leb new stored)

module _ (fido : FidoLibrary) where
  open fido use {
    Assert, Key, es256_pk_from_ptr, assert_set_clientdata, assert_set_rp, assert_set_count,
    assert_set_authdata_raw, assert_set_sig, assert_set_up, assert_set_uv, assert_verify,
  }

  unfoldable pub fill_assertion : Assert → Bytes → Bytes → Bytes → Bytes → ℕ × Assert
  fill_assertion handle client_data rp_id auth_data signature =
      assert_set_clientdata handle client_data
      then_call (λ a. assert_set_rp a rp_id)
      then_call (λ a. assert_set_count a 1)
      then_call (λ a. assert_set_authdata_raw a 0 auth_data)
      then_call (λ a. assert_set_sig a 0 signature)
      then_call assert_set_up
      then_call assert_set_uv

  -- The status of the chain of calls: the first that fails, or that of the verification.
  unfoldable pub signature_status : Assert → Key → Bytes → Bytes → Bytes → Bytes → Bytes → ℕ
  signature_status handle key client_data rp_id auth_data signature public_key =
      let (result, assertion) = fill_assertion handle client_data rp_id auth_data signature in
      let (key_result, key') = es256_pk_from_ptr key public_key in
      if result == 0
      then (if key_result == 0 then assert_verify assertion 0 key' else key_result)
      else result

module _ (json : JsonLibrary) (cbor : CborLibrary) (fido : FidoLibrary) where
  open fido use {assert_new, es256_pk_new}

  unfoldable pub verify_assertion :
      CredentialRecord → Bytes → Bytes → Bytes → FidoSignResponse → Verified ℕ
  verify_assertion credential expected_challenge expected_rp_id expected_origin response = do
    require (credential.algorithm == es256_algorithm) unsupported_algorithm
    assertion ← found (only_assertion response.assertions) not_one_assertion
    require (bytes_eq assertion.credential_id credential.credential_id) wrong_credential
    let client_data = base64url_decode response.client_data
    let auth_data = base64url_decode assertion.authenticator_data
    let signature = base64url_decode assertion.signature_data
    let credential_id = base64url_decode assertion.credential_id
    let cose_public_key = base64url_decode credential.cose_public_key
    require
        (not (
          is_empty client_data
          || is_empty auth_data
          || is_empty signature
          || is_empty credential_id
          || is_empty cose_public_key))
        invalid_assertion_field
    public_key ← found (cose_es256_coordinates cbor cose_public_key) invalid_assertion_field
    verify_client_data json client_data (codes "webauthn.get") expected_challenge expected_origin
    new_sign_count ← verify_authenticator_data fido auth_data expected_rp_id
    require (not (counter_stuck credential.sign_count new_sign_count)) counter_did_not_increase
    handle ← found assert_new out_of_memory
    key ← found es256_pk_new out_of_memory
    let status =
        signature_status fido handle key client_data expected_rp_id auth_data signature public_key
    require (status == 0) (signature_failed status)
    ok new_sign_count
