-- ===== src/FidoVerifier/Registration.antt =====
-- `FidoVerifier::VerifyRegistration`.
pub mod Accepted
use windows_fido_logon.Base.{
  ℕ, ◌<◌, ◌≡◌, refl, Bool, true, false, not, ◌&&◌, ◌||◌, Option, none, some, List, [], ◌∷◌, Bytes,
  codes, bytes_eq, is_empty, ltb, take, drop, ◌==◌, if◌then◌else◌,
}
use windows_fido_logon.LocalFidoTypes.{RegistrationResult, es256_algorithm}
use windows_fido_logon.External.Json.{JsonLibrary}
use windows_fido_logon.External.Cbor.{CborLibrary}
use windows_fido_logon.External.Fido.{FidoLibrary}
use windows_fido_logon.Convert.{base64url_decode, base64url_encode}
use windows_fido_logon.FidoVerifier.Errors.{
  Verified, ok, err, require, found, ◌>>=◌, ◌>>◌, invalid_registration_encoding, out_of_memory,
  registration_failed, unsupported_attestation_format, attestation_failed,
  omitted_authenticator_data, omitted_credential_id, credential_id_mismatch, omitted_material,
}
use windows_fido_logon.FidoVerifier.ClientData.{verify_client_data}
use windows_fido_logon.FidoVerifier.AuthenticatorData.{verify_authenticator_data}
use windows_fido_logon.FidoVerifier.Cose.{extract_attested_credential}
use windows_fido_logon.FidoVerifier.Assertion.{◌then_call◌}

abbrev pub format_none : Bytes
format_none = codes "none"

abbrev pub format_packed : Bytes
format_packed = codes "packed"

abbrev or_empty : Option Bytes → Bytes
or_empty none = []
or_empty (some bytes) = bytes

module _ (fido : FidoLibrary) where
  open fido use {
    Cred, cred_set_type, cred_set_rp, cred_set_clientdata, cred_set_uv, cred_set_attobj, cred_fmt,
    cred_x5c_len, cred_verify, cred_verify_self,
  }

  unfoldable pub fill_credential : Cred → Bytes → Bytes → Bytes → ℕ × Cred
  fill_credential credential rp_id client_data attestation =
      cred_set_type credential
      then_call (λ c. cred_set_rp c rp_id (codes "Windows FIDO Logon"))
      then_call (λ c. cred_set_clientdata c client_data)
      then_call cred_set_uv
      then_call (λ c. cred_set_attobj c attestation)

  -- The status of the attestation check: none is made for the format "none".
  unfoldable pub attestation_status : Cred → Bytes → ℕ
  attestation_status credential format =
      if bytes_eq format format_packed
      then (if ltb 0 (cred_x5c_len credential)
          then cred_verify credential
          else cred_verify_self credential)
      else 0

module _ (json : JsonLibrary) (cbor : CborLibrary) (fido : FidoLibrary) where
  open fido use {Cred, cred_new, cred_fmt, cred_authdata_raw, cred_id}

  -- The part behind the attestation check.
  unfoldable pub finish_registration :
      Cred → Bytes → Bytes → Bytes → Bytes → Verified RegistrationResult
  finish_registration credential expected_rp_id attestation_object client_data_json format = do
    auth_data ← found (cred_authdata_raw credential) omitted_authenticator_data
    require (not (is_empty auth_data)) omitted_authenticator_data
    sign_count ← verify_authenticator_data fido auth_data expected_rp_id
    (extracted_id, cose) ← extract_attested_credential cbor auth_data
    parsed_id ← found (cred_id credential) omitted_credential_id
    require (not (is_empty parsed_id)) omitted_credential_id
    require (bytes_eq parsed_id extracted_id) credential_id_mismatch
    let credential_id = base64url_encode false extracted_id
    let cose_public_key = base64url_encode false cose
    require (not (is_empty credential_id || is_empty cose_public_key)) omitted_material
    ok (record {
      credential_id = credential_id;
      cose_public_key = cose_public_key;
      aaguid = base64url_encode false (take 16 (drop 37 auth_data));
      client_data_json = client_data_json;
      authenticator_data = base64url_encode false auth_data;
      attestation_statement = attestation_object;
      attestation_format = format;
      algorithm = es256_algorithm;
      sign_count = sign_count;
    })

  unfoldable pub verify_registration :
      Bytes → Bytes → Bytes → Bytes → Bytes → Verified RegistrationResult
  verify_registration expected_challenge expected_rp_id expected_origin attestation_object
        client_data_json =
      do
        let attestation = base64url_decode attestation_object
        let client_data = base64url_decode client_data_json
        require (not (is_empty attestation || is_empty client_data)) invalid_registration_encoding
        verify_client_data json client_data (codes "webauthn.create") expected_challenge
            expected_origin
        new_credential ← found cred_new out_of_memory
        let (status, credential) =
            fill_credential fido new_credential expected_rp_id client_data attestation
        require (status == 0) (registration_failed status)
        let format = or_empty (cred_fmt credential)
        require (bytes_eq format format_none || bytes_eq format format_packed)
            unsupported_attestation_format
        let attested = attestation_status fido credential format
        require (attested == 0) (attestation_failed attested)
        finish_registration credential expected_rp_id attestation_object client_data_json format
