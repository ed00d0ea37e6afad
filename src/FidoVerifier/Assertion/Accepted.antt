-- ===== src/FidoVerifier/Assertion/Accepted.antt =====
-- What `FidoVerifier::VerifyAssertion` has established when it returns true.
use windows_fido_logon.Base.{
  ℕ, ◌<◌, ◌≡◌, ◌⊎◌, Bool, true, false, not, ◌||◌, some, List, [], ◌∷◌, Bytes, codes, IsBytes,
  bytes_eq, eq_of_bytes_eq, arith, is_empty, ◌==◌, ==_iff, subst,
}
use windows_fido_logon.LocalFidoTypes.{
  CredentialRecord, FidoAssertionData, FidoSignResponse, es256_algorithm,
}
use windows_fido_logon.External.Json.{JsonLibrary}
use windows_fido_logon.External.Cbor.{CborLibrary}
use windows_fido_logon.External.Fido.{FidoLibrary}
use windows_fido_logon.Convert.{base64url_decode}
use windows_fido_logon.Convert.RoundTrip.{base64url_encode-base64url_decode}
use windows_fido_logon.FidoVerifier.Errors.{ok, ok-injective, >>-eq-ok, found->>=-eq-ok, >>=-eq-ok}
use windows_fido_logon.FidoVerifier.ClientData.{
  verify_client_data, IsCeremony, verify_client_data-IsCeremony,
}
use windows_fido_logon.FidoVerifier.AuthenticatorData.{
  verify_authenticator_data, IsAuthentic, verify_authenticator_data_iff,
}
use windows_fido_logon.FidoVerifier.Cose.{cose_es256_coordinates}
use windows_fido_logon.FidoVerifier.Cose.Entries.{IsEs256Key, cose_es256_coordinates-IsEs256Key}
use windows_fido_logon.FidoVerifier.Assertion.{
  only_assertion, fill_assertion, signature_status, counter_stuck, verify_assertion,
}

only_assertion-eq-some :
    (l : List FidoAssertionData) (a : FidoAssertionData) → only_assertion l ≡ some a → l ≡ a ∷ []
only_assertion-eq-some [] a h = absurd (cc)
only_assertion-eq-some (b ∷ []) a h = cc
only_assertion-eq-some (b ∷ c ∷ l) a h = absurd (cc)

counter_grows :
    (stored new : ℕ) → not (counter_stuck stored new) ≡ true → (stored ≡ 0) ⊎ (stored < new)
unfolding counter_stuck
counter_grows stored new h = ground arith

IsBytes-decode : (s : Bytes) → is_empty (base64url_decode s) ≡ false → IsBytes (base64url_decode s)
IsBytes-decode s h = (base64url_encode-base64url_decode s (λ e. let t = rw e at h in cc)).0

first_two_of_five :
    (a b c d e : Bool) → not (a || b || c || d || e) ≡ true → (a ≡ false) × (b ≡ false)
first_two_of_five a b c d e h = ground arith

module _ (json : JsonLibrary) (cbor : CborLibrary) (fido : FidoLibrary) where
  open fido use {Assert, Key, assert_new, es256_pk_new, es256_pk_from_ptr, assert_verify}

  -- libfido2 accepted the client data, the relying party, the data, the signature and the options
  -- on the assertion, and the key, and then verified the signature with that key.
  pub record IsSigned (client_data rp_id auth_data signature public_key : Bytes) : Type 0 where
    pub handle : Assert
    pub key : Key
    pub created : assert_new ≡ some handle
    pub allocated : es256_pk_new ≡ some key
    pub filled : (fill_assertion fido handle client_data rp_id auth_data signature).0 ≡ 0
    pub keyed : (es256_pk_from_ptr key public_key).0 ≡ 0
    pub verified :
        assert_verify
          (fill_assertion fido handle client_data rp_id auth_data signature).1
          0
          (es256_pk_from_ptr key public_key).1
        ≡ 0

  pub record IsAccepted (credential : CredentialRecord) (challenge rp_id origin : Bytes)
      (response : FidoSignResponse) (count : ℕ) : Type 0 where
    pub algorithm : credential.algorithm ≡ es256_algorithm
    pub assertion : FidoAssertionData
    pub only : response.assertions ≡ assertion ∷ []
    pub owned : assertion.credential_id ≡ credential.credential_id
    pub public_key : Bytes
    pub stored_key : IsEs256Key cbor (base64url_decode credential.cose_public_key) public_key
    pub ceremony :
        IsCeremony json
          (base64url_decode response.client_data)
          (codes "webauthn.get")
          challenge
          origin
    pub authentic : IsAuthentic fido (base64url_decode assertion.authenticator_data) rp_id count
    pub counter : (credential.sign_count ≡ 0) ⊎ (credential.sign_count < count)
    pub signed :
        IsSigned
          (base64url_decode response.client_data)
          rp_id
          (base64url_decode assertion.authenticator_data)
          (base64url_decode assertion.signature_data)
          public_key

  signature_status-eq-0 :
      (handle : Assert) (key : Key) (c r a s p : Bytes)
      → signature_status fido handle key c r a s p ≡ 0
      → ((fill_assertion fido handle c r a s).0 ≡ 0)
        × ((es256_pk_from_ptr key p).0 ≡ 0)
        × (assert_verify (fill_assertion fido handle c r a s).1 0 (es256_pk_from_ptr key p).1 ≡ 0)
  unfolding signature_status
  signature_status-eq-0 handle key c r a s p h = (ground arith, ground arith, ground arith)

  -- `VerifyAssertion` returns true only for exactly one assertion, by the stored ES256 credential,
  -- whose client data names the ceremony, the challenge and the origin, whose authenticator data
  -- names the relying party with user presence and verification, whose counter is above a stored
  -- counter that is not zero, and whose signature libfido2 verifies with the stored key; the counter
  -- that it returns is the one in the authenticator data.
  pub verify_assertion-IsAccepted :
      (credential : CredentialRecord) (challenge rp_id origin : Bytes) (response : FidoSignResponse)
      (count : ℕ)
      → verify_assertion json cbor fido credential challenge rp_id origin response ≡ ok count
      → IsAccepted credential challenge rp_id origin response count
  unfolding verify_assertion
  verify_assertion-IsAccepted credential challenge rp_id origin response count h =
      let (algorithm, h₁) = >>-eq-ok (credential.algorithm == es256_algorithm) _ _ h in
      let (assertion, only, h₂) = found->>=-eq-ok (only_assertion response.assertions) _ _ h₁ in
      let (owned, h₃) =
        >>-eq-ok (bytes_eq assertion.credential_id credential.credential_id) _ _ h₂ in
      let client_data = base64url_decode response.client_data in
      let auth_data = base64url_decode assertion.authenticator_data in
      let signature = base64url_decode assertion.signature_data in
      let (nonempty, h₄) =
        >>-eq-ok
          (not (
            is_empty client_data
            || is_empty auth_data
            || is_empty signature
            || is_empty (base64url_decode assertion.credential_id)
            || is_empty (base64url_decode credential.cose_public_key)))
          _ _ h₃ in
      let (public_key, coordinates, h₅) =
        found->>=-eq-ok (cose_es256_coordinates cbor (base64url_decode credential.cose_public_key))
          _ _ h₄ in
      let (_, ceremony, h₆) =
        >>=-eq-ok
          (verify_client_data json (base64url_decode response.client_data) (codes "webauthn.get")
            challenge origin)
          _ h₅ in
      let (new, counted, h₇) =
        >>=-eq-ok
          (verify_authenticator_data fido (base64url_decode assertion.authenticator_data) rp_id) _
          h₆ in
      let (grows, h₈) = >>-eq-ok (not (counter_stuck credential.sign_count new)) _ _ h₇ in
      let (handle, created, h₉) = found->>=-eq-ok assert_new _ _ h₈ in
      let (key, allocated, h₁₀) = found->>=-eq-ok es256_pk_new _ _ h₉ in
      let (signed, h₁₁) =
        >>-eq-ok
          (signature_status fido handle key client_data rp_id auth_data signature public_key == 0) _
          _ h₁₀ in
      let (filled, keyed, verified) =
        signature_status-eq-0 handle key _ _ _ _ _ ((==_iff _ 0).0 signed) in
      let (_, some_data) = first_two_of_five _ _ _ _ _ nonempty in
      let same = ok-injective h₁₁ in
      record {
        algorithm = (==_iff _ _).0 algorithm;
        assertion = assertion;
        only = only_assertion-eq-some _ _ only;
        owned = eq_of_bytes_eq _ _ owned;
        public_key = public_key;
        stored_key = cose_es256_coordinates-IsEs256Key cbor _ _ coordinates;
        ceremony = verify_client_data-IsCeremony json _ _ _ _ ceremony;
        authentic =
            (verify_authenticator_data_iff fido auth_data rp_id count
                (IsBytes-decode assertion.authenticator_data some_data)).0
              (subst (λ n. verify_authenticator_data fido auth_data rp_id ≡ ok n) same counted);
        counter =
            subst (λ n. (credential.sign_count ≡ 0) ⊎ (credential.sign_count < n)) same
              (counter_grows _ _ grows);
        signed = record {
          handle = handle;
          key = key;
          created = created;
          allocated = allocated;
          filled = filled;
          keyed = keyed;
          verified = verified;
        };
      }
