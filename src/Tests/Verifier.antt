-- ===== src/Tests/Verifier.antt =====
-- Runs of CppClient/CppClient/FidoVerifier.cpp.
use windows_fido_logon.Base.{
  ◌≡◌, ◌↔◌, refl, subst, true, false, some, [], ◌∷◌, ◌++◌, Bytes, IsBytes, codes, bytes_eq,
  traverse,
}
use windows_fido_logon.Convert.{
  base64url_decode, base64url_encode, base64_encode, from_url, from_url_char, decode_base64_strict,
  padding_ok, decode_loop, finish_decode, trailing_bits_clear, padding_from_back, base64_value,
  base64_char, to_url_char,
}
use windows_fido_logon.LocalFidoTypes.{RegistrationResult, es256_algorithm}
use windows_fido_logon.FidoVerifier.Errors.{ok}
use windows_fido_logon.FidoVerifier.ClientData.{
  verify_client_data, IsCeremony, verify_client_data-IsCeremony,
}
use windows_fido_logon.FidoVerifier.AuthenticatorData.{
  verify_authenticator_data, IsAuthentic, verify_authenticator_data_iff,
}
use windows_fido_logon.FidoVerifier.Cose.{
  cose_es256_coordinates, extract_attested_credential, scan, finish_scan, scan_pair, key_of,
  scan_value,
}
use windows_fido_logon.FidoVerifier.Cose.Integers.{
  AllFit, IsFitting, IsCoseKey, cose_es256_coordinates-IsCoseKey,
}
use windows_fido_logon.FidoVerifier.Cose.Extract.{
  IsAttested, extract_attested_credential-IsAttested,
}
use windows_fido_logon.FidoVerifier.Assertion.{
  verify_assertion, fill_assertion, signature_status, counter_stuck,
}
use windows_fido_logon.FidoVerifier.Assertion.Accepted.{IsAccepted, verify_assertion-IsAccepted}
use windows_fido_logon.FidoVerifier.Registration.{
  verify_registration, finish_registration, fill_credential, attestation_status,
}
use windows_fido_logon.FidoVerifier.Registration.Accepted.{
  IsRegistered, verify_registration-IsRegistered,
}
use windows_fido_logon.Tests.Samples.{
  json, cbor, fido, challenge, rp_id, origin, credential, response, auth_data, repeated, small,
  Item, key_map, uint, negint, bytestring, is_uint, is_negint, pairs_of,
}

verify_authenticator_data_iff_example :
    (verify_authenticator_data fido auth_data rp_id ≡ ok 9) ↔ IsAuthentic fido auth_data rp_id 9
verify_authenticator_data_iff_example =
    verify_authenticator_data_iff fido auth_data rp_id 9 (small auth_data refl)

in_ceremony : verify_client_data json (codes "get") (codes "webauthn.get") challenge origin ≡ ok tt
unfolding verify_client_data bytes_eq
in_ceremony = refl

verify_client_data-IsCeremony_example :
    IsCeremony json (codes "get") (codes "webauthn.get") challenge origin
verify_client_data-IsCeremony_example =
    verify_client_data-IsCeremony json (codes "get") (codes "webauthn.get") challenge origin
      in_ceremony

coordinates : cose_es256_coordinates cbor (3 ∷ 4 ∷ 5 ∷ []) ≡ some (repeated 32 5 ++ repeated 32 6)
unfolding cose_es256_coordinates scan finish_scan scan_pair key_of scan_value
coordinates = refl

one_kind : (item : Item) → is_uint item ≡ true → is_negint item ≡ false
one_kind (uint n) h = refl
one_kind (negint n) h = absurd (cc)
one_kind (bytestring b) h = absurd (cc)
one_kind key_map h = absurd (cc)

cbor-IsFitting : IsFitting cbor (3 ∷ 4 ∷ 5 ∷ [])
cbor-IsFitting = record {
  one_kind = one_kind;
  all_fit = λ map h.
      subst (λ m. AllFit cbor (pairs_of m)) (only map h)
        (refl, refl, (refl, refl, (refl, refl, (refl, refl, (refl, refl, tt)))));
}
  where
    only : (map : Item) → cbor.load (3 ∷ 4 ∷ 5 ∷ []) ≡ some (map, 3) → key_map ≡ map
    only map h = cc

cose_es256_coordinates-IsCoseKey_example :
    IsCoseKey cbor (3 ∷ 4 ∷ 5 ∷ []) (repeated 32 5 ++ repeated 32 6)
cose_es256_coordinates-IsCoseKey_example =
    cose_es256_coordinates-IsCoseKey cbor (3 ∷ 4 ∷ 5 ∷ []) (repeated 32 5 ++ repeated 32 6)
      cbor-IsFitting coordinates

extracted : extract_attested_credential cbor auth_data ≡ ok (1 ∷ 2 ∷ [], 3 ∷ 4 ∷ 5 ∷ [])
unfolding extract_attested_credential cose_es256_coordinates scan finish_scan scan_pair key_of
    scan_value
extracted = refl

extract_attested_credential-IsAttested_example :
    IsAttested cbor auth_data (1 ∷ 2 ∷ []) (3 ∷ 4 ∷ 5 ∷ [])
extract_attested_credential-IsAttested_example =
    extract_attested_credential-IsAttested cbor auth_data (1 ∷ 2 ∷ []) (3 ∷ 4 ∷ 5 ∷ [])
      (small auth_data refl) extracted

accepted : verify_assertion json cbor fido credential challenge rp_id origin response ≡ ok 9
unfolding verify_assertion fill_assertion signature_status counter_stuck verify_client_data
    verify_authenticator_data cose_es256_coordinates scan finish_scan scan_pair key_of scan_value
    base64url_decode base64url_encode from_url traverse from_url_char decode_base64_strict
    padding_ok decode_loop finish_decode trailing_bits_clear padding_from_back base64_value
    base64_char base64_encode to_url_char bytes_eq
accepted = refl

verify_assertion-IsAccepted_example :
    IsAccepted json cbor fido credential challenge rp_id origin response 9
verify_assertion-IsAccepted_example =
    verify_assertion-IsAccepted json cbor fido credential challenge rp_id origin response 9 accepted

abbrev registration : RegistrationResult
registration = record {
  credential_id = codes "AQI";
  cose_public_key = codes "AwQF";
  aaguid = codes "CAgICAgICAgICAgICAgICA";
  client_data_json = codes "Y3JlYXRl";
  authenticator_data = base64url_encode false auth_data;
  attestation_statement = codes "AQI";
  attestation_format = codes "none";
  algorithm = es256_algorithm;
  sign_count = 9;
}

registering :
    verify_registration json cbor fido challenge rp_id origin (codes "AQI") (codes "Y3JlYXRl")
    ≡ ok registration
unfolding verify_registration finish_registration fill_credential attestation_status
    extract_attested_credential verify_client_data verify_authenticator_data cose_es256_coordinates
    scan finish_scan scan_pair key_of scan_value base64url_decode base64url_encode from_url traverse
    from_url_char decode_base64_strict padding_ok decode_loop finish_decode trailing_bits_clear
    padding_from_back base64_value base64_char base64_encode to_url_char bytes_eq
registering = refl

raw_bytes : (c bytes : Bytes) → some auth_data ≡ some bytes → IsBytes bytes
raw_bytes c bytes h = subst IsBytes (some_injective h) (small auth_data refl)
  where
    some_injective : {a b : Bytes} → some a ≡ some b → a ≡ b
    some_injective e = cc

verify_registration-IsRegistered_example :
    IsRegistered json cbor fido challenge rp_id origin (codes "AQI") (codes "Y3JlYXRl") registration
verify_registration-IsRegistered_example =
    verify_registration-IsRegistered json cbor fido raw_bytes challenge rp_id origin (codes "AQI")
      (codes "Y3JlYXRl") registration registering
