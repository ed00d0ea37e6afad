-- ===== src/FidoVerifier/ClientData.antt =====
-- `VerifyClientData`.
use windows_fido_logon.Base.{
  ◌≡◌, refl, false, not, some, [], Bytes, bytes_eq, eq_of_not, eq_of_bytes_eq, bytes_eq_refl, ap,
  ◌∙◌,
}
use windows_fido_logon.External.Json.{JsonLibrary}
use windows_fido_logon.FidoVerifier.Errors.{
  Verified, ok, require, found, ◌>>=◌, ◌>>◌, found->>=-eq-ok, >>-eq-ok, require-eq-ok,
  client_data_type_mismatch, challenge_mismatch, origin_mismatch, cross_origin, invalid_client_data,
}

module _ (json : JsonLibrary) where
  open json use {Json, parse, value_string, value_bool}

  unfoldable pub verify_client_data : Bytes → Bytes → Bytes → Bytes → Verified (Unit {0})
  verify_client_data client_data expected_type expected_challenge expected_origin = do
    value ← found (parse client_data) invalid_client_data
    type ← found (value_string value "type" []) invalid_client_data
    require (bytes_eq type expected_type) client_data_type_mismatch
    challenge ← found (value_string value "challenge" []) invalid_client_data
    require (bytes_eq challenge expected_challenge) challenge_mismatch
    origin ← found (value_string value "origin" []) invalid_client_data
    require (bytes_eq origin expected_origin) origin_mismatch
    crossed ← found (value_bool value "crossOrigin" false) invalid_client_data
    require (not crossed) cross_origin

  -- What the client data must say.
  pub record IsCeremony (client_data type challenge origin : Bytes) : Type 0 where
    pub value : Json
    pub parsed : parse client_data ≡ some value
    pub typed : value_string value "type" [] ≡ some type
    pub challenged : value_string value "challenge" [] ≡ some challenge
    pub from_origin : value_string value "origin" [] ≡ some origin
    pub same_origin : value_bool value "crossOrigin" false ≡ some false

  -- Client data that `VerifyClientData` accepts parses, names the expected type, challenge and origin,
  -- and is not cross-origin.
  pub verify_client_data-IsCeremony :
      (client_data type challenge origin : Bytes)
      → verify_client_data client_data type challenge origin ≡ ok tt
      → IsCeremony client_data type challenge origin
  unfolding verify_client_data
  verify_client_data-IsCeremony d t c o h =
      let (value, parsed, h₁) = found->>=-eq-ok _ _ _ h in
      let (type, typed, h₂) = found->>=-eq-ok _ _ _ h₁ in
      let (same_type, h₃) = >>-eq-ok _ _ _ h₂ in
      let (challenge, challenged, h₄) = found->>=-eq-ok _ _ _ h₃ in
      let (same_challenge, h₅) = >>-eq-ok _ _ _ h₄ in
      let (origin, from_origin, h₆) = found->>=-eq-ok _ _ _ h₅ in
      let (same_origin, h₇) = >>-eq-ok _ _ _ h₆ in
      let (crossed, crossing, h₈) = found->>=-eq-ok _ _ _ h₇ in
      record {
        value = value;
        parsed = parsed;
        typed = typed ∙ ap some (eq_of_bytes_eq type t same_type);
        challenged = challenged ∙ ap some (eq_of_bytes_eq challenge c same_challenge);
        from_origin = from_origin ∙ ap some (eq_of_bytes_eq origin o same_origin);
        same_origin = crossing ∙ ap some (eq_of_not crossed (require-eq-ok _ _ h₈));
      }

  pub IsCeremony-verify_client_data :
      (client_data type challenge origin : Bytes)
      → IsCeremony client_data type challenge origin
      → verify_client_data client_data type challenge origin ≡ ok tt
  unfolding verify_client_data
  IsCeremony-verify_client_data d t c o h =
      rw (h.parsed, h.typed, h.challenged, h.from_origin, h.same_origin)
        (rw (bytes_eq_refl t, bytes_eq_refl c, bytes_eq_refl o) refl)
