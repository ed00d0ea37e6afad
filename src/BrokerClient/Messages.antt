-- ===== src/BrokerClient/Messages.antt =====
-- CppClient/CppClient/BrokerClient.cpp: what the client writes of assertions and reads of replies.
use Prim.Native.String.{String}
use windows_fido_logon.Base.{
  true, false, Option, none, some, List, [], ◌∷◌, map, Bytes, codes, traverse, if◌then◌else◌,
}
use windows_fido_logon.LocalFidoTypes.{
  CredentialRecord, FidoAssertionData, FidoSignResponse, AuthenticationChallenge, es256_algorithm,
}
use windows_fido_logon.External.Json.{JsonLibrary}

pub record RegistrationChallenge : Type 0 where
  pub session_id : Bytes
  pub rp_id : Bytes
  pub origin : Bytes
  pub challenge : Bytes
  pub user_id : Bytes
  pub exclude_credentials : List Bytes

-- A chain of calls of the JSON library, each of which may throw.
infixl 5 ◌>>?◌
abbrev pub ◌>>?◌ {ℓ κ} : {A : Type ℓ} {C : Type κ} → Option A → (A → Option C) → Option C
none >>? next = none
some a >>? next = next a

module _ (json : JsonLibrary) where
  open json use {
    Json, parse, dump, member, items, get_string, value_string, value_bool, value_int, value_uint,
    value_json, value_strings, object, array, of_string, of_bool, of_int,
  }

  unfoldable pub assertion_data_to_json : FidoAssertionData → Json
  assertion_data_to_json item = object (
      ("credentialId", of_string item.credential_id)
      ∷ ("authenticatorData", of_string item.authenticator_data)
      ∷ ("signature", of_string item.signature_data)
      ∷ ("userHandle", of_string item.user_handle)
      ∷ [])

  -- `AssertionToJson`.
  unfoldable pub assertion_to_json : FidoSignResponse → Json
  assertion_to_json response = object (
      ("clientData", of_string response.client_data)
      ∷ ("assertions", array (map assertion_data_to_json response.assertions))
      ∷ [])

  abbrev pub string_at : Json → String → Option Bytes
  string_at value name = member value name >>? get_string

  -- `CredentialFromJson`.
  pub credential_from_json : Json → Option CredentialRecord
  credential_from_json item = string_at item "credentialId" >>? λ credential_id.
      value_string item "cosePublicKey" [] >>? λ cose_public_key.
      value_int item "algorithm" es256_algorithm >>? λ algorithm.
      value_string item "aaguid" [] >>? λ aaguid.
      value_string item "label" (codes "Security key") >>? λ label.
      value_string item "createdAt" [] >>? λ created_at.
      value_uint item "signCount" 0 >>? λ sign_count. some (record {
        credential_id = credential_id;
        cose_public_key = cose_public_key;
        algorithm = algorithm;
        aaguid = aaguid;
        label = label;
        created_at = created_at;
        sign_count = sign_count;
      })

  -- A challenge that asks for nothing.
  abbrev pub no_challenge : AuthenticationChallenge
  no_challenge = record {
    enforced = false;
    session_id = [];
    rp_id = [];
    origin = [];
    request = record {
      challenge = [];
      rp_id = [];
      user_verification = [];
      type = [];
      allow_credentials = [];
    };
  }

  unfoldable pub enforced_challenge : Json → Option AuthenticationChallenge
  enforced_challenge value = string_at value "sessionId" >>? λ session_id.
      string_at value "rpId" >>? λ rp_id. string_at value "origin" >>? λ origin.
      string_at value "challenge" >>? λ challenge. member value "credentialIds" >>? λ ids.
      traverse get_string (items ids) >>? λ allow_credentials. some (record {
        enforced = true;
        session_id = session_id;
        rp_id = rp_id;
        origin = origin;
        request = record {
          challenge = challenge;
          rp_id = rp_id;
          user_verification = codes "required";
          type = codes "webauthn";
          allow_credentials = allow_credentials;
        };
      })

  -- `ParseAuthenticationChallenge`.
  unfoldable pub parse_authentication_challenge : Json → Option AuthenticationChallenge
  parse_authentication_challenge value = value_bool value "enforced" false >>? λ enforced.
      if enforced then enforced_challenge value else some no_challenge

  -- `ParseRegistrationChallenge`.
  pub parse_registration_challenge : Json → Option RegistrationChallenge
  parse_registration_challenge value = string_at value "sessionId" >>? λ session_id.
      string_at value "rpId" >>? λ rp_id. string_at value "origin" >>? λ origin.
      string_at value "challenge" >>? λ challenge. string_at value "userId" >>? λ user_id.
      value_strings value "excludeCredentials" >>? λ exclude_credentials. some (record {
        session_id = session_id;
        rp_id = rp_id;
        origin = origin;
        challenge = challenge;
        user_id = user_id;
        exclude_credentials = exclude_credentials;
      })
