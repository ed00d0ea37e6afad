-- ===== src/FidoVerifier/Registration/Accepted.antt =====
-- What `FidoVerifier::VerifyRegistration` has established when it returns true.
use windows_fido_logon.Base.{
  ℕ, ◌+◌, ◌≡◌, ◌⊎◌, refl, sym, ap, subst, ◌∙◌, inl, inr, true, false, not, ◌||◌, Option, none, some,
  Bytes, codes, IsBytes, take, drop, take-IsBytes, drop-IsBytes, bytes_eq, eq_of_bytes_eq, is_empty,
  ◌==◌, ==_iff, Bool-cases,
}
use windows_fido_logon.LocalFidoTypes.{RegistrationResult, es256_algorithm}
use windows_fido_logon.External.Json.{JsonLibrary}
use windows_fido_logon.External.Cbor.{CborLibrary}
use windows_fido_logon.External.Fido.{FidoLibrary}
use windows_fido_logon.Convert.{base64url_decode, base64url_encode}
use windows_fido_logon.Convert.RoundTrip.{base64url_decode-base64url_encode}
use windows_fido_logon.FidoVerifier.Errors.{ok, ok-injective, >>-eq-ok, found->>=-eq-ok, >>=-eq-ok}
use windows_fido_logon.FidoVerifier.ClientData.{
  verify_client_data, IsCeremony, verify_client_data-IsCeremony,
}
use windows_fido_logon.FidoVerifier.AuthenticatorData.{
  verify_authenticator_data, IsAuthentic, verify_authenticator_data_iff,
}
use windows_fido_logon.FidoVerifier.Cose.{extract_attested_credential}
use windows_fido_logon.FidoVerifier.Cose.Extract.{
  IsAttested, extract_attested_credential-IsAttested, id_length,
}
use windows_fido_logon.FidoVerifier.Registration.{
  fill_credential, attestation_status, or_empty, finish_registration, format_none, format_packed,
  verify_registration,
}

module _ (json : JsonLibrary) (cbor : CborLibrary) (fido : FidoLibrary) where
  open fido use {
    Cred, cred_new, cred_fmt, cred_authdata_raw, cred_id, cred_x5c_len, cred_verify,
    cred_verify_self,
  }

  -- What the result takes from the credential object that libfido2 has parsed.
  pub record IsExtracted (credential : Cred) (rp_id : Bytes) (result : RegistrationResult)
      : Type 0 where
    pub auth_data : Bytes
    pub raw : cred_authdata_raw credential ≡ some auth_data
    pub authentic : IsAuthentic fido auth_data rp_id result.sign_count
    pub contents :
        IsAttested cbor auth_data
          (base64url_decode result.credential_id)
          (base64url_decode result.cose_public_key)
    pub same_id : cred_id credential ≡ some (base64url_decode result.credential_id)
    pub aaguid : base64url_decode result.aaguid ≡ take 16 (drop 37 auth_data)
    pub algorithm : result.algorithm ≡ es256_algorithm

  pub record IsRegistered (challenge rp_id origin attestation_object client_data_json : Bytes)
      (result : RegistrationResult) : Type 0 where
    pub ceremony :
        IsCeremony json
          (base64url_decode client_data_json)
          (codes "webauthn.create")
          challenge
          origin
    pub new_credential : Cred
    pub created : cred_new ≡ some new_credential
    pub credential : Cred
    pub filled :
        fill_credential fido new_credential rp_id
          (base64url_decode client_data_json)
          (base64url_decode attestation_object)
        ≡ (0, credential)
    pub format : cred_fmt credential ≡ some result.attestation_format
    pub attested :
        (result.attestation_format ≡ format_none)
        ⊎ (result.attestation_format ≡ format_packed)
          × (attestation_status fido credential format_packed ≡ 0)
    pub extracted : IsExtracted credential rp_id result

  format_cases :
      (o : Option Bytes)
      → (bytes_eq (or_empty o) format_none || bytes_eq (or_empty o) format_packed) ≡ true
      → o ≡ some (or_empty o)
  unfolding bytes_eq
  format_cases none h = absurd (cc)
  format_cases (some f) h = refl

  attestation_cases :
      (credential : Cred) (f : Bytes)
      → (bytes_eq f format_none || bytes_eq f format_packed) ≡ true
      → attestation_status fido credential f ≡ 0
      → (f ≡ format_none)
        ⊎ (f ≡ format_packed) × (attestation_status fido credential format_packed ≡ 0)
  attestation_cases credential f h s = elim (Bool-cases (bytes_eq f format_none)) [
    | inl n ↦ inl (eq_of_bytes_eq f format_none n)
    | inr n ↦
        let packed = eq_of_bytes_eq f format_packed (rw n at h) in
        inr (packed, subst (λ g. attestation_status fido credential g ≡ 0) packed s)
  ]

  module _
      (raw_bytes : (c : Cred) (bytes : Bytes)
        → cred_authdata_raw c ≡ some bytes
        → IsBytes bytes) where
    finish_registration-IsExtracted :
        (credential : Cred) (rp_id attestation_object client_data_json format : Bytes)
        (result : RegistrationResult)
        → finish_registration json cbor fido credential rp_id attestation_object client_data_json
            format
          ≡ ok result
        → IsExtracted credential rp_id result × (result.attestation_format ≡ format)
    unfolding finish_registration
    finish_registration-IsExtracted credential rp_id attestation_object client_data_json format
          result h =
        let (auth_data, raw, h₇) = found->>=-eq-ok (cred_authdata_raw credential) _ _ h in
        let (_, h₈) = >>-eq-ok (not (is_empty auth_data)) _ _ h₇ in
        let (count, counted, h₉) =
          >>=-eq-ok (verify_authenticator_data fido auth_data rp_id) _ h₈ in
        let (id_key, extracted, h₁₀) =
          >>=-eq-ok (extract_attested_credential cbor auth_data) _ h₉ in
        let (parsed, parsed_id, h₁₁) = found->>=-eq-ok (cred_id credential) _ _ h₁₀ in
        let (_, h₁₂) = >>-eq-ok (not (is_empty parsed)) _ _ h₁₁ in
        let (same_id, h₁₃) = >>-eq-ok (bytes_eq parsed id_key.0) _ _ h₁₂ in
        let (_, h₁₄) =
          >>-eq-ok
            (not (
              is_empty (base64url_encode false id_key.0)
              || is_empty (base64url_encode false id_key.1)))
            _ _ h₁₃ in
        let made = ok-injective h₁₄ in
        let bytes = raw_bytes credential auth_data raw in
        let contents =
          extract_attested_credential-IsAttested cbor auth_data id_key.0 id_key.1 bytes extracted in
        let id_bytes : IsBytes id_key.0 = rw contents.id (
          take-IsBytes (id_length auth_data) (drop 55 auth_data)
            (drop-IsBytes 55 auth_data bytes)) in
        let key_bytes : IsBytes id_key.1 = rw contents.key (
          take-IsBytes contents.read (drop (55 + id_length auth_data) auth_data)
            (drop-IsBytes (55 + id_length auth_data) auth_data bytes)) in
        let same_key = base64url_decode-base64url_encode id_key.1 key_bytes in
        let same_credential = base64url_decode-base64url_encode id_key.0 id_bytes in
        subst (λ r. IsExtracted credential rp_id r × (r.attestation_format ≡ format)) made
          (
            record {
              auth_data = auth_data;
              raw = raw;
              authentic =
                  (verify_authenticator_data_iff fido auth_data rp_id count bytes).0 counted;
              contents = rw (same_credential, same_key) contents;
              same_id =
                  parsed_id
                  ∙ ap some (eq_of_bytes_eq parsed id_key.0 same_id ∙ sym same_credential);
              aaguid =
                  base64url_decode-base64url_encode (take 16 (drop 37 auth_data))
                    (take-IsBytes 16 (drop 37 auth_data) (drop-IsBytes 37 auth_data bytes));
              algorithm = refl;
            },
            refl,
          )

  -- `VerifyRegistration` returns true only for client data of this ceremony, an attestation object
  -- that libfido2 parsed, of format none, or packed with an attestation that libfido2 verified, and
  -- authenticator data that names the relying party with user presence and verification. The ID and
  -- the key that it hands out decode to the bytes in that data, the ID is the one that libfido2
  -- parsed, and the key is an ES256 public key. It is assumed that libfido2 hands out bytes.
  pub verify_registration-IsRegistered :
      ((c : Cred) (bytes : Bytes) → cred_authdata_raw c ≡ some bytes → IsBytes bytes)
      → (challenge rp_id origin attestation_object client_data_json : Bytes)
        (result : RegistrationResult)
      → verify_registration json cbor fido challenge rp_id origin attestation_object
          client_data_json
        ≡ ok result
      → IsRegistered challenge rp_id origin attestation_object client_data_json result
  unfolding verify_registration
  verify_registration-IsRegistered raw_bytes challenge rp_id origin attestation_object
        client_data_json result h =
      let attestation = base64url_decode attestation_object in
      let client_data = base64url_decode client_data_json in
      let (_, h₁) = >>-eq-ok (not (is_empty attestation || is_empty client_data)) _ _ h in
      let (_, ceremony, h₂) =
        >>=-eq-ok (verify_client_data json client_data (codes "webauthn.create") challenge origin) _
          h₁ in
      let (new, created, h₃) = found->>=-eq-ok cred_new _ _ h₂ in
      let filled = fill_credential fido new rp_id client_data attestation in
      let credential : Cred = filled.1 in
      let format = or_empty (cred_fmt credential) in
      let (status, h₄) = >>-eq-ok (filled.0 == 0) _ _ h₃ in
      let (known, h₅) =
        >>-eq-ok (bytes_eq format format_none || bytes_eq format format_packed) _ _ h₄ in
      let (attested, h₆) = >>-eq-ok (attestation_status fido credential format == 0) _ _ h₅ in
      let (extracted, same_format) =
        finish_registration-IsExtracted raw_bytes credential rp_id attestation_object
          client_data_json format result h₆ in
      record {
        ceremony =
            verify_client_data-IsCeremony json client_data (codes "webauthn.create") challenge
              origin ceremony;
        new_credential = new;
        created = created;
        credential = credential;
        filled = ap (λ (n : ℕ). (n, credential)) ((==_iff filled.0 0).0 status);
        format = rw same_format (format_cases (cred_fmt credential) known);
        attested =
            rw same_format (attestation_cases credential format known ((==_iff _ 0).0 attested));
        extracted = extracted;
      }
