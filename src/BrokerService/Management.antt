-- ===== src/BrokerService/Management.antt =====
-- The operations of `BrokerService::Handle` that change the registered keys and the policy.
use windows_fido_logon.Base.{
  ℕ, Bool, true, false, not, ◌&&◌, Option, none, some, List, [], ◌∷◌, ◌++◌, Bytes, Wide, codes,
  length, any, leb, ◌==◌, if◌then◌else◌,
}
use windows_fido_logon.LocalFidoTypes.{CredentialRecord, AccountRecord, Vault, RegistrationResult}
use windows_fido_logon.External.Json.{JsonLibrary}
use windows_fido_logon.External.Cbor.{CborLibrary}
use windows_fido_logon.External.Fido.{FidoLibrary}
use windows_fido_logon.Machine.{System}
use windows_fido_logon.FidoVerifier.Registration.{verify_registration}
use windows_fido_logon.LocalCredentialStore.VaultJson.{string_at}
use windows_fido_logon.LocalCredentialStore.Save.{save, load_or_create}
use windows_fido_logon.LocalCredentialStore.Accounts.{
  find_sid, replace_sid, has_credential, remove_credential, set_enforced,
}
use windows_fido_logon.BrokerService.State.{
  registration, removal_authorization, Session, Caller, Platform, BrokerError, B, pure, require,
  found, json_value, store_call, random_id, ◌>>=◌, ◌>>◌, access_denied, vault_unavailable,
  no_credentials, not_current_user, not_current_account, unresolved_account, password_failed,
  too_many_credentials, already_registered, not_saved, last_credential, unknown_credential,
  not_removed, elevation_required, filter_conflict, filter_inspection, enforcement_failed,
}
use windows_fido_logon.BrokerService.Sessions.{put_session, take_session}
use windows_fido_logon.BrokerService.Ceremony.{
  checked_label, create_registration_challenge, registered, verified,
}
use windows_fido_logon.BrokerService.Authentication.{
  Response, plain, registering, registered_count, authorization, origin_of, session_of, wide_at,
  account_of, open_session, consume_assertion,
}

abbrev pub maximum_credentials_per_account : ℕ
maximum_credentials_per_account = 64

-- The loop of `HasConflictingCredentialProviderFilter` over the registered filters: whether there is
-- one that is neither ours nor Windows' own, and the error of the inspection. The list ends where
-- the enumeration does.
our_filter : Bytes
our_filter = codes "{54B25B17-C7AE-4C2B-B3C4-E3B29A73D9B1}"

conflict_among : Platform → List (ℕ × Wide) → Bool × ℕ
unfolding our_filter
conflict_among p [] = (false, 0)
conflict_among p ((status, name) ∷ rest) =
    if not (status == 0)
    then (false, status)
    else if not (p.sys.same_text name our_filter) && not (p.is_windows_filter name)
    then (true, 0)
    else conflict_among p rest

pub has_conflicting_filter : Platform → Bool × ℕ
unfolding conflict_among
has_conflicting_filter p =
    if p.filter_open_status == 2
    then (false, 0)
    else if not (p.filter_open_status == 0)
    then (false, p.filter_open_status)
    else conflict_among p p.filter_entries

-- `ResolveLocalAccount(…) && IsSameSid(sid, resolvedSid)`: the account's name.
abbrev pub resolved : Platform → Wide → Option (Wide × Wide) → Option Wide
resolved p sid none = none
resolved p sid (some (name, resolved_sid)) =
    if p.sys.same_text sid resolved_sid then some name else none

-- The loop over all credentials of the vault.
abbrev pub registered_anywhere : Bytes → List AccountRecord → Bool
registered_anywhere id accounts = any (λ account. has_credential id account.credentials) accounts

abbrev pub new_record : RegistrationResult → Session → Bytes → CredentialRecord
new_record result session created_at = record {
  credential_id = result.credential_id;
  cose_public_key = result.cose_public_key;
  algorithm = result.algorithm;
  aaguid = result.aaguid;
  label = session.label;
  created_at = created_at;
  sign_count = result.sign_count;
}

-- The account that the credential goes to: that of the vault under its present name, or a new one.
abbrev pub enrolling_account : Session → Option AccountRecord → AccountRecord
enrolling_account session none = record {
  sid = session.target_sid;
  username = session.username;
  enforced = false;
  credentials = [];
}
enrolling_account session (some account) = record account { username = session.username }

abbrev pub enroll_into :
    System
    → Session
    → AccountRecord
    → List AccountRecord
    → Option AccountRecord
    → List AccountRecord
enroll_into sys session account accounts none = accounts ++ account ∷ []
enroll_into sys session account accounts (some _) =
    replace_sid sys session.target_sid account accounts

abbrev room_for_more : Option AccountRecord → Bool
room_for_more none = true
room_for_more (some account) =
    not (leb maximum_credentials_per_account (length account.credentials))

module _ (p : Platform) (json : JsonLibrary) where
  open json use {Json, get_bool, member, value_bool}

  -- What the operations check that want the password of the current local account: the caller, the
  -- account and the password; the account's SID and name.
  pub current_account : Caller → Json → BrokerError → BrokerError → B (Wide × Wide)
  current_account caller request foreign unresolved = do
    sid ← wide_at p json request "sid"
    username ← wide_at p json request "username"
    password ← wide_at p json request "password"
    require (p.sys.same_text caller.sid sid) foreign
    name ← found (resolved p sid (p.resolve_account username)) unresolved
    let status = p.validate_password name password
    require (status == 0) (password_failed status)
    pure (sid, name)

  pub begin_registration : Caller → Json → Vault → B Response
  unfolding current_account
  begin_registration caller request vault = do
    (sid, name) ← current_account caller request not_current_user not_current_account
    account ← account_of p json sid
    require (room_for_more account) too_many_credentials
    label ← checked_label p json request
    challenge ← random_id p.sys 32
    let session =
        session_of registration caller.sid sid name challenge vault.rp_id (origin_of vault) label []
    id ← put_session p.sys session
    registration_challenge ← create_registration_challenge p json id session account
    pure (registering registration_challenge)

  -- An account that may lose the credential.
  pub removable : Wide → Json → B (AccountRecord × Bytes)
  removable sid request = do
    found_account ← account_of p json sid
    account ← found (registered found_account) no_credentials
    require (not (account.enforced && leb (length account.credentials) 1)) last_credential
    id ← json_value (string_at p.sys json request "credentialId")
    require (has_credential id account.credentials) unknown_credential
    pure (account, id)

  pub begin_remove : Caller → Json → Vault → B Response
  unfolding current_account removable
  begin_remove caller request vault = do
    (sid, name) ← current_account caller request access_denied unresolved_account
    (account, id) ← removable sid request
    challenge ← open_session p json removal_authorization caller sid name vault id account
    pure (authorization challenge)

  pub remove_with_password : Caller → Json → B Response
  unfolding current_account removable
  remove_with_password caller request = do
    (sid, name) ← current_account caller request access_denied unresolved_account
    (account, id) ← removable sid request
    store_call (remove_credential p.sys json sid id) not_removed
    pure plain

  -- A conflict is looked for only when the policy is switched on.
  pub check_filters : Bool → Json → B (Unit {0})
  unfolding has_conflicting_filter
  check_filters false request = pure tt
  check_filters true request = do
    allowed ← json_value (value_bool request "allowFilterConflict" false)
    let (conflict, error) = has_conflicting_filter p
    require (not (conflict && not allowed)) filter_conflict
    require (error == 0) filter_inspection

  pub set_enforcement : Caller → Json → B Response
  unfolding current_account check_filters
  set_enforcement caller request = do
    require caller.is_elevated_admin elevation_required
    (sid, name) ← current_account caller request not_current_user unresolved_account
    value ← json_value (member request "enabled")
    enabled ← json_value (get_bool value)
    check_filters enabled request
    store_call (set_enforced p.sys json sid enabled) enforcement_failed
    pure plain

module _ (p : Platform) (json : JsonLibrary) (cbor : CborLibrary) (fido : FidoLibrary) where
  open json use {Json}

  pub commit_registration : Caller → Json → B Response
  commit_registration caller request = do
    id ← json_value (string_at p.sys json request "sessionId")
    session ← take_session p.sys id caller registration
    attestation_object ← json_value (string_at p.sys json request "attestationObject")
    client_data_json ← json_value (string_at p.sys json request "clientDataJson")
    result ← verified (
        verify_registration json cbor fido session.challenge session.rp_id session.origin
          attestation_object client_data_json)
    current ← store_call (load_or_create p.sys json) vault_unavailable
    require (not (registered_anywhere result.credential_id current.accounts)) already_registered
    let known = find_sid p.sys session.target_sid current.accounts
    let account = enrolling_account session known
    require (not (leb maximum_credentials_per_account (length account.credentials)))
        too_many_credentials
    let larger = record account {
      credentials = account.credentials ++ new_record result session p.utc_now ∷ [];
    }
    store_call
        (save p.sys json
          (record current { accounts = enroll_into p.sys session larger current.accounts known }))
        not_saved
    pure (registered_count (length larger.credentials))

  pub finish_remove : Caller → Json → B Response
  finish_remove caller request = do
    session ← consume_assertion p json cbor fido removal_authorization caller request
    store_call (remove_credential p.sys json session.target_sid session.credential_to_remove)
        not_removed
    pure plain
