-- ===== src/BrokerService/Ceremony.antt =====
-- `AssertionFromJson`, `VerifySessionAssertion`, `CheckedLabel`, and the challenges that the
-- responses carry.
use windows_fido_logon.Base.{
  ℕ, Bool, not, ◌||◌, Option, none, some, List, [], ◌∷◌, map, Bytes, bytes_eq, codes, length,
  is_empty, any, ltb, traverse, if◌then◌else◌,
}
use windows_fido_logon.LocalFidoTypes.{
  CredentialRecord, AccountRecord, FidoAssertionData, FidoSignResponse,
}
use windows_fido_logon.External.Json.{JsonLibrary}
use windows_fido_logon.External.Cbor.{CborLibrary}
use windows_fido_logon.External.Fido.{FidoLibrary}
use windows_fido_logon.FidoVerifier.Errors.{Verified}
use windows_fido_logon.FidoVerifier.Errors
use windows_fido_logon.FidoVerifier.Assertion.{only_assertion, verify_assertion}
use windows_fido_logon.LocalCredentialStore.VaultJson
use windows_fido_logon.LocalCredentialStore.Validity.{is_control}
use windows_fido_logon.LocalCredentialStore.Accounts.{find_account, upsert_account}
use windows_fido_logon.BrokerService.State.{
  Session, Platform, B, pure, throw, require, found, json_value, store_call, random_id, ◌>>=◌, ◌>>◌,
  no_credentials, not_one_assertion, credential_not_registered, verification, counter_not_saved,
  no_user_handle, invalid_label,
}

-- The fields of an authentication challenge, and of a registration challenge.
pub record AuthChallenge : Type 0 where
  pub session_id : Bytes
  pub rp_id : Bytes
  pub origin : Bytes
  pub challenge : Bytes
  pub credential_ids : List Bytes

pub record RegistrationChallenge : Type 0 where
  pub session_id : Bytes
  pub rp_id : Bytes
  pub origin : Bytes
  pub challenge : Bytes
  pub user_id : Bytes
  pub exclude_credentials : List Bytes

-- `CredentialPublicJson`: what `status` tells of a credential.
pub record PublicCredential : Type 0 where
  pub credential_id : Bytes
  pub algorithm : ℕ
  pub aaguid : Bytes
  pub label : Bytes
  pub created_at : Bytes
  pub sign_count : ℕ

pub credential_public : CredentialRecord → PublicCredential
credential_public c = record {
  credential_id = c.credential_id;
  algorithm = c.algorithm;
  aaguid = c.aaguid;
  label = c.label;
  created_at = c.created_at;
  sign_count = c.sign_count;
}

abbrev pub ids_of : List CredentialRecord → List Bytes
ids_of = map λ c. c.credential_id

-- `CreateAuthChallenge`, with the identifier that the handler adds.
pub create_auth_challenge : Bytes → Session → AccountRecord → AuthChallenge
create_auth_challenge id session account = record {
  session_id = id;
  rp_id = session.rp_id;
  origin = session.origin;
  challenge = session.challenge;
  credential_ids = ids_of account.credentials;
}

abbrev excluded : Option AccountRecord → List Bytes
excluded none = []
excluded (some account) = ids_of account.credentials

abbrev pub label_valid : Bytes → Bool
label_valid label = not (ltb 128 (length label) || any is_control label)

abbrev pub find_credential : Bytes → List CredentialRecord → Option CredentialRecord
find_credential id [] = none
find_credential id (c ∷ cs) = if bytes_eq c.credential_id id then some c else find_credential id cs

-- Writing the counter through the iterator.
abbrev pub set_count : Bytes → ℕ → List CredentialRecord → List CredentialRecord
set_count id count [] = []
set_count id count (c ∷ cs) =
    if bytes_eq c.credential_id id
    then record c { sign_count = count } ∷ cs
    else c ∷ set_count id count cs

-- `!account || account->credentials.empty()`.
abbrev pub registered : Option AccountRecord → Option AccountRecord
registered none = none
registered (some account) = if is_empty account.credentials then none else some account

abbrev pub verified : {A : Type 0} → Verified A → B A
verified (Errors.ok a) = pure a
verified (Errors.err e) = throw (verification e)

module _ (p : Platform) (json : JsonLibrary) where
  open json use {Json, member, items, value_string}

  -- `CreateRegistrationChallenge`, with the identifier that the handler adds.
  pub create_registration_challenge :
      Bytes → Session → Option AccountRecord → B RegistrationChallenge
  create_registration_challenge id session account = do
    user_id ← random_id p.sys 32
    require (not (is_empty user_id)) no_user_handle
    pure (record {
      session_id = id;
      rp_id = session.rp_id;
      origin = session.origin;
      challenge = session.challenge;
      user_id = user_id;
      exclude_credentials = excluded account;
    })

  pub checked_label : Json → B Bytes
  checked_label request = do
    given ← json_value (value_string request "label" (codes "Security key"))
    let label = if is_empty given then codes "Security key" else given
    require (label_valid label) invalid_label
    pure label

  unfoldable pub assertion_data_from_json : Json → Option FidoAssertionData
  assertion_data_from_json item =
      VaultJson.◌>>=◌ (VaultJson.string_at p.sys json item "credentialId") λ credential_id.
        VaultJson.◌>>=◌ (VaultJson.string_at p.sys json item "authenticatorData")
          λ authenticator_data.
            VaultJson.◌>>=◌ (VaultJson.string_at p.sys json item "signature") λ signature_data.
              VaultJson.◌>>=◌ (value_string item "userHandle" []) λ user_handle. some (record {
                credential_id = credential_id;
                authenticator_data = authenticator_data;
                signature_data = signature_data;
                user_handle = user_handle;
                username = [];
                display_name = [];
              })

  unfoldable pub assertion_from_json : Json → Option FidoSignResponse
  unfolding assertion_data_from_json
  assertion_from_json value =
      VaultJson.◌>>=◌ (VaultJson.string_at p.sys json value "clientData") λ client_data.
        VaultJson.◌>>=◌ (member value "assertions") λ entries.
          VaultJson.◌>>=◌ (traverse assertion_data_from_json (items entries))
            λ assertions. some (record { client_data = client_data; assertions = assertions })

module _ (p : Platform) (json : JsonLibrary) (cbor : CborLibrary) (fido : FidoLibrary) where
  open json use {Json}

  -- The counter that was verified is written back to the account.
  unfoldable pub verify_session_assertion : Session → Json → B (Unit {0})
  unfolding assertion_from_json
  verify_session_assertion session assertion_value = do
    found_account ← store_call (find_account p.sys json session.target_sid) no_credentials
    account ← found (registered found_account) no_credentials
    response ← json_value (assertion_from_json p json assertion_value)
    assertion ← found (only_assertion response.assertions) not_one_assertion
    credential ←
        found (find_credential assertion.credential_id account.credentials)
          credential_not_registered
    counter ← verified (
        verify_assertion json cbor fido credential session.challenge session.rp_id session.origin
          response)
    store_call
        (upsert_account p.sys json (record account {
          credentials = set_count assertion.credential_id counter account.credentials;
        }))
        counter_not_saved
