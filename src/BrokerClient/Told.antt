-- ===== src/BrokerClient/Told.antt =====
-- What BeginAuthentication returns.
use windows_fido_logon.Base.{
  ◌≡◌, refl, subst, Bool, true, false, Option, none, some, [], ◌∷◌, Wide, Bytes, codes, traverse,
  if◌then◌else◌,
}
use windows_fido_logon.LocalFidoTypes.{AuthenticationChallenge}
use windows_fido_logon.External.Json.{JsonLibrary}
use windows_fido_logon.BrokerClient.{
  ClientError, ok, Pipe, call, op, text_member, begin_authentication,
}
use windows_fido_logon.BrokerClient.Messages.{
  string_at, ◌>>?◌, parse_authentication_challenge, enforced_challenge, no_challenge,
}
use windows_fido_logon.BrokerClient.FailClosed.{
  >>=-eq-ok, or_error-eq-ok, IsAccepted, call-IsAccepted,
}

-- A challenge as the broker's reply tells it, and as the client fills in the rest of it: a request for a verified
-- user where a key is enforced, and an empty one where none is.
pub record IsTold (json : JsonLibrary) (response : json.Json) (c : AuthenticationChallenge)
    : Type 0 where
  pub enforced : json.value_bool response "enforced" false ≡ some c.enforced
  pub session_id : c.enforced ≡ true → string_at json response "sessionId" ≡ some c.session_id
  pub origin : c.enforced ≡ true → string_at json response "origin" ≡ some c.origin
  pub rp_id : c.enforced ≡ true → string_at json response "rpId" ≡ some c.rp_id
  pub request_rp_id : c.request.rp_id ≡ c.rp_id
  pub challenge : c.enforced ≡ true → string_at json response "challenge" ≡ some c.request.challenge
  pub user_verification : c.enforced ≡ true → c.request.user_verification ≡ codes "required"
  pub request_type : c.enforced ≡ true → c.request.type ≡ codes "webauthn"
  pub allowed :
      c.enforced ≡ true
      → (ids : json.Json) × (json.member response "credentialIds" ≡ some ids)
        × (traverse json.get_string (json.items ids) ≡ some c.request.allow_credentials)
  pub nothing :
      c.enforced ≡ false
      → (c.session_id ≡ [])
        × (c.origin ≡ [])
        × (c.rp_id ≡ [])
        × (c.request.challenge ≡ [])
        × (c.request.user_verification ≡ [])
        × (c.request.type ≡ [])
        × (c.request.allow_credentials ≡ [])

module _ (json : JsonLibrary) where
  open json use {Json, member, items, get_string}

  some-injective {ℓ} : {A : Type ℓ} {a b : A} → some a ≡ some b → a ≡ b
  some-injective h = cc

  >>?-eq-some {ℓ κ} :
      {A : Type ℓ} {C : Type κ} (o : Option A) (next : A → Option C) {c : C}
      → (o >>? next) ≡ some c
      → (a : A) × (o ≡ some a) × (next a ≡ some c)
  >>?-eq-some none next h = absurd (cc)
  >>?-eq-some (some a) next h = (a, refl, h)

  enforced_challenge-IsTold :
      (response : Json) (c : AuthenticationChallenge)
      → json.value_bool response "enforced" false ≡ some true
      → enforced_challenge json response ≡ some c
      → IsTold json response c
  unfolding enforced_challenge
  enforced_challenge-IsTold response c said h =
      let (session_id, has_session, h₁) = >>?-eq-some (string_at json response "sessionId") _ h in
      let (rp_id, has_rp, h₂) = >>?-eq-some (string_at json response "rpId") _ h₁ in
      let (origin, has_origin, h₃) = >>?-eq-some (string_at json response "origin") _ h₂ in
      let (challenge, has_challenge, h₄) = >>?-eq-some (string_at json response "challenge") _ h₃ in
      let (ids, has_ids, h₅) = >>?-eq-some (member response "credentialIds") _ h₄ in
      let (allowed, all_ids, h₆) = >>?-eq-some (traverse get_string (items ids)) _ h₅ in
      subst (IsTold json response) (some-injective h₆) (record {
        enforced = said;
        session_id = λ _. has_session;
        origin = λ _. has_origin;
        rp_id = λ _. has_rp;
        request_rp_id = refl;
        challenge = λ _. has_challenge;
        user_verification = λ _. refl;
        request_type = λ _. refl;
        allowed = λ _. (ids, has_ids, all_ids);
        nothing = λ e. absurd (cc);
      })

  parsed_challenge-IsTold :
      (response : Json) (said : Bool) (c : AuthenticationChallenge)
      → json.value_bool response "enforced" false ≡ some said
      → (if said then enforced_challenge json response else some (no_challenge json)) ≡ some c
      → IsTold json response c
  parsed_challenge-IsTold response true c told h = enforced_challenge-IsTold response c told h
  parsed_challenge-IsTold response false c told h =
      subst (IsTold json response) (some-injective h) (record {
        enforced = told;
        session_id = λ e. absurd (cc);
        origin = λ e. absurd (cc);
        rp_id = λ e. absurd (cc);
        request_rp_id = refl;
        challenge = λ e. absurd (cc);
        user_verification = λ e. absurd (cc);
        request_type = λ e. absurd (cc);
        allowed = λ e. absurd (cc);
        nothing = λ _. (refl, refl, refl, refl, refl, refl, refl);
      })

-- What BeginAuthentication returns was told by the broker: the pipe's server has the SID of LocalSystem, its
-- reply parses and says `ok`, and `enforced` is what the reply says (false where it says nothing).
-- Where a key is enforced, the session, the origin, the relying party, the challenge and the allowed
-- credential IDs, in their order, are the reply's, the relying party is also that of the request,
-- and the request is of type webauthn and requires user verification; where none is, all of these
-- are empty.
pub begin_authentication-IsTold :
    (json : JsonLibrary) (pipe : Pipe) (to_string : Wide → Bytes) (sid : Wide)
    (c : AuthenticationChallenge)
    → begin_authentication json pipe to_string sid ≡ ok c
    → (response : json.Json) × IsAccepted json pipe
        (op json "begin_auth" ∷ text_member json "sid" (to_string sid) ∷ [])
        response
      × IsTold json response c
unfolding begin_authentication parse_authentication_challenge
begin_authentication-IsTold json pipe to_string sid c h =
    let members = op json "begin_auth" ∷ text_member json "sid" (to_string sid) ∷ [] in
    let (response, calls, h₁) = >>=-eq-ok (call json pipe members) _ h in
    let (said, told, h₂) = >>?-eq-some json (json.value_bool response "enforced" false) _ (
      or_error-eq-ok ClientError.invalid_challenge (parse_authentication_challenge json response)
        h₁) in
    (
      response,
      call-IsAccepted json pipe members response calls,
      parsed_challenge-IsTold json response said c told h₂,
    )
