-- ===== src/BrokerService/Authentication.antt =====
-- The operations `status`, `begin_auth`, `finish_auth` and `begin_test` of `BrokerService::Handle`.
use Prim.Native.String.{String}
use windows_fido_logon.Base.{
  ℕ, Bool, true, false, not, ◌&&◌, Option, none, some, List, [], ◌++◌, map, Bytes, Wide, codes,
  is_empty, if◌then◌else◌,
}
use windows_fido_logon.LocalFidoTypes.{AccountRecord, Vault}
use windows_fido_logon.External.Json.{JsonLibrary}
use windows_fido_logon.External.Cbor.{CborLibrary}
use windows_fido_logon.External.Fido.{FidoLibrary}
use windows_fido_logon.LocalCredentialStore.VaultJson.{to_string, to_w_string, string_at}
use windows_fido_logon.LocalCredentialStore.Policy.{is_sid_enforced}
use windows_fido_logon.LocalCredentialStore.Accounts.{find_account}
use windows_fido_logon.BrokerService.State.{
  SessionKind, authentication, Session, Caller, Platform, B, pure, require, found, json_value,
  store_call, random_id, ◌>>=◌, ◌>>◌, access_denied, inconsistent_policy, no_credential_enforced,
  no_credentials,
}
use windows_fido_logon.BrokerService.Sessions.{put_session, take_session}
use windows_fido_logon.BrokerService.Ceremony.{
  AuthChallenge, RegistrationChallenge, PublicCredential, credential_public, create_auth_challenge,
  registered, verify_session_assertion,
}

-- The responses that have `"ok": true`, by their other members.
pub data Response : Type 0 where
  plain : Response
  status :
      (found enforced : Bool)
      → (username : Bytes) → (credentials : List PublicCredential) → Response
  not_enforced : Response
  enforced : AuthChallenge → Response
  registering : RegistrationChallenge → Response
  registered_count : ℕ → Response
  authorization : AuthChallenge → Response

abbrev pub origin_of : Vault → Bytes
origin_of vault = codes "https://" ++ vault.rp_id

abbrev pub session_of :
    SessionKind → Wide → Wide → Wide → Bytes → Bytes → Bytes → Bytes → Bytes → Session
session_of kind caller_sid target_sid username challenge rp_id origin label credential_to_remove =
    record {
      kind = kind;
      caller_sid = caller_sid;
      target_sid = target_sid;
      username = username;
      challenge = challenge;
      rp_id = rp_id;
      origin = origin;
      label = label;
      credential_to_remove = credential_to_remove;
      expires_at = 0;
    }

module _ (p : Platform) (json : JsonLibrary) where
  open json use {Json}

  -- `Convert::ToWString(request.at(name).get<std::string>())`; of the password it is
  -- `ExtractPassword`, whose wiping of the request is not modelled.
  abbrev pub wide_at : Json → String → B Wide
  wide_at request name = do
    text ← json_value (string_at p.sys json request name)
    pure (to_w_string p.sys text)

  abbrev pub account_of : Wide → B (Option AccountRecord)
  account_of sid = store_call (find_account p.sys json sid) no_credentials

  abbrev status_of : Option AccountRecord → Response
  status_of none = status false false [] []
  status_of (some account) =
      status true account.enforced (to_string p.sys account.username)
        (map credential_public account.credentials)

  pub handle_status : Caller → Json → B Response
  handle_status caller request = do
    sid ← wide_at request "sid"
    require
        (not (
          not caller.is_system
          && not caller.is_elevated_admin
          && not (p.sys.same_text caller.sid sid)))
        access_denied
    account ← account_of sid
    pure (status_of account)

  -- A session for an assertion, stored, and the challenge of its response.
  pub open_session :
      SessionKind → Caller → Wide → Wide → Vault → Bytes → AccountRecord → B AuthChallenge
  open_session kind caller sid username vault credential_to_remove account = do
    challenge ← random_id p.sys 32
    let session =
        session_of kind caller.sid sid username challenge vault.rp_id (origin_of vault) []
          credential_to_remove
    id ← put_session p.sys session
    pure (create_auth_challenge id session account)

  abbrev enforced_account : Option AccountRecord → Option AccountRecord
  enforced_account none = none
  enforced_account (some account) = if account.enforced then some account else none

  -- The policy in the registry is asked only where the vault does not enforce the account.
  pub answer_unenforced : Wide → B Response
  answer_unenforced sid = do
    listed ← store_call (is_sid_enforced p.sys sid) inconsistent_policy
    require (not listed) inconsistent_policy
    pure not_enforced

  pub begin_auth : Caller → Json → Vault → B Response
  unfolding open_session answer_unenforced
  begin_auth caller request vault = do
    sid ← wide_at request "sid"
    require (not (not caller.is_system && not (p.sys.same_text caller.sid sid))) access_denied
    account ← account_of sid
    elim (enforced_account account) [
      | none ↦ answer_unenforced sid
      | some account ↦ do
        require (not (is_empty account.credentials)) no_credential_enforced
        challenge ← open_session authentication caller sid [] vault [] account
        pure (enforced challenge)
    ]

  pub begin_test : Caller → Json → Vault → B Response
  unfolding open_session
  begin_test caller request vault = do
    sid ← wide_at request "sid"
    require (not (not caller.is_system && not (p.sys.same_text caller.sid sid))) access_denied
    found_account ← account_of sid
    account ← found (registered found_account) no_credentials
    challenge ← open_session authentication caller sid [] vault [] account
    pure (enforced challenge)

module _ (p : Platform) (json : JsonLibrary) (cbor : CborLibrary) (fido : FidoLibrary) where
  open json use {Json, member}

  -- Take the session, verify the assertion for it.
  unfoldable pub consume_assertion : SessionKind → Caller → Json → B Session
  consume_assertion kind caller request = do
    id ← json_value (string_at p.sys json request "sessionId")
    session ← take_session p.sys id caller kind
    assertion ← json_value (member request "assertion")
    verify_session_assertion p json cbor fido session assertion
    pure session

  unfoldable pub finish_auth : Caller → Json → B Response
  unfolding consume_assertion
  finish_auth caller request = do
    session ← consume_assertion authentication caller request
    pure plain
