-- ===== src/BrokerClient.antt =====
-- CppClient/CppClient/BrokerClient.cpp: the requests to the broker over its pipe, and the reading of the
-- replies. The pipe is a parameter.
pub mod Messages
pub mod FailClosed
pub mod Told
pub mod Assertions
use Prim.Native.String.{String}
use windows_fido_logon.Base.{
  ℕ, ◌≡◌, refl, Bool, true, false, not, ◌&&◌, Option, none, some, List, [], ◌∷◌, ◌++◌, map, Bytes,
  Wide, codes, length, ltb, traverse, ◌==◌, if◌then◌else◌,
}
use windows_fido_logon.LocalFidoTypes.{
  CredentialRecord, FidoAssertionData, FidoSignResponse, SignRequest, AuthenticationChallenge,
  es256_algorithm, broker_protocol_version, max_broker_message_bytes,
}
use windows_fido_logon.External.Json.{JsonLibrary}
use windows_fido_logon.BrokerClient.Messages.{
  RegistrationChallenge, ◌>>?◌, assertion_data_to_json, assertion_to_json, string_at,
  credential_from_json, no_challenge, enforced_challenge, parse_authentication_challenge,
  parse_registration_challenge,
}

pub data ClientError : Type 0 where
  unavailable no_connection untrusted unserializable too_large unwritten timed_out unread
        invalid_data :
      ClientError
  invalid_challenge : ClientError
  rejected : Bytes → ClientError

-- A result, an error text, or an exception that leaves the function.
pub data Called {ℓ} (A : Type ℓ) : Type ℓ where
  ok : A → Called A
  err : ClientError → Called A
  thrown : Called A

infixl 5 ◌>>=◌
abbrev pub ◌>>=◌ {ℓ κ} : {A : Type ℓ} {C : Type κ} → Called A → (A → Called C) → Called C
ok value >>= next = next value
err e >>= next = err e
thrown >>= next = thrown

pub data Read : Type 0 where
  message : Bytes → Read
  no_message : (timeout : Bool) → Read

-- The pipe, as one call of the client meets it.
pub record Pipe : Type 0 where
  -- WaitNamedPipeW and CreateFileW.
  pub waits : Bool
  pub opens : Bool
  -- GetNamedPipeServerProcessId, `none` where it is missing or fails; OpenProcess and OpenProcessToken.
  pub server_process : Option ℕ
  pub opens_process : ℕ → Bool
  pub opens_token : ℕ → Bool
  -- The size that GetTokenInformation asks for TokenUser, the SID that it then returns, and
  -- IsWellKnownSid of it for WinLocalSystemSid.
  pub token_size : ℕ → ℕ
  pub token_user : ℕ → Option Bytes
  pub is_local_system : Bytes → Bool
  -- Whether the whole message is written, and the reply to it.
  pub writes : Bytes → Bool
  pub reads : Bytes → Read

-- `IsTrustedPipeServer`.
abbrev pub runs_as_system : Pipe → Option Bytes → Bool
runs_as_system pipe none = false
runs_as_system pipe (some sid) = pipe.is_local_system sid

abbrev pub trusted_process : Pipe → Option ℕ → Bool
trusted_process pipe none = false
trusted_process pipe (some process) =
    if process == 0
    then false
    else if not (pipe.opens_process process)
    then false
    else if not (pipe.opens_token process)
    then false
    else not (pipe.token_size process == 0) && runs_as_system pipe (pipe.token_user process)

abbrev pub is_trusted_pipe_server : Pipe → Bool
is_trusted_pipe_server pipe = trusted_process pipe pipe.server_process

-- What the parsing of a reply to a request returns in a `try` with its own error.
abbrev pub or_error {ℓ} : {A : Type ℓ} → ClientError → Option A → Called A
or_error e none = err e
or_error e (some a) = ok a

abbrev pub or_throw {ℓ} : {A : Type ℓ} → Option A → Called A
or_throw none = thrown
or_throw (some a) = ok a

pub record AccountStatus : Type 0 where
  pub found : Bool
  pub enforced : Bool
  pub username : Bytes
  pub credentials : List CredentialRecord

module _ (json : JsonLibrary) where
  open json use {
    Json, parse, dump, member, items, get_string, value_string, value_bool, value_int, value_uint,
    value_json, value_strings, object, array, of_string, of_bool, of_int,
  }

  abbrev pub rejection : Option Bytes → Called Json
  rejection none = err invalid_data
  rejection (some text) = err (rejected text)

  -- A reply with `ok`, or the error that it tells.
  abbrev pub verdict : Json → Option Bool → Called Json
  verdict response none = err invalid_data
  verdict response (some true) = ok response
  verdict response (some false) =
      rejection (value_string response "error" (codes "Broker rejected the request."))

  abbrev pub answered : Read → Called Json
  answered (no_message timeout) = err (if timeout then timed_out else unread)
  answered (message bytes) = or_error invalid_data (parse bytes) >>= λ response.
      verdict response (value_bool response "ok" false)

  abbrev pub send : Pipe → Bytes → Called Json
  send pipe serialized =
      if ltb max_broker_message_bytes (length serialized)
      then err too_large
      else if not (pipe.writes serialized)
      then err unwritten
      else answered (pipe.reads serialized)

  -- The request with the version.
  abbrev pub envelope : List (String × Json) → Json
  envelope members = object (members ++ (("version", of_int broker_protocol_version) ∷ []))

  -- `Call`.
  unfoldable pub call : Pipe → List (String × Json) → Called Json
  call pipe members =
      if not pipe.waits
      then err unavailable
      else if not pipe.opens
      then err no_connection
      else if not (is_trusted_pipe_server pipe)
      then err untrusted
      else (or_error unserializable (dump (envelope members)) >>= send pipe)

  abbrev pub op : String → String × Json
  op name = ("op", of_string (codes name))

  abbrev pub text_member : String → Bytes → String × Json
  text_member name text = (name, of_string text)

  module _ (pipe : Pipe) (to_string : Wide → Bytes) where
    -- `GetStatus`, whose exceptions leave it; the name is in UTF-8.
    pub get_status : Wide → Called AccountStatus
    get_status sid =
        call pipe (op "status" ∷ text_member "sid" (to_string sid) ∷ []) >>= λ response. or_throw (
          value_bool response "found" false >>? λ found.
          value_bool response "enforced" false >>? λ enforced.
          value_string response "username" [] >>? λ username.
          value_json response "credentials" (array []) >>? λ entries.
          traverse (credential_from_json json) (items entries) >>? λ credentials. some (record {
            found = found;
            enforced = enforced;
            username = username;
            credentials = credentials;
          }))

    -- `BeginAuthentication` and `BeginTest`.
    unfoldable pub begin_authentication : Wide → Called AuthenticationChallenge
    begin_authentication sid =
        call pipe (op "begin_auth" ∷ text_member "sid" (to_string sid) ∷ []) >>= λ response.
        or_error invalid_challenge (parse_authentication_challenge json response)

    pub begin_test : Wide → Called AuthenticationChallenge
    begin_test sid =
        call pipe (op "begin_test" ∷ text_member "sid" (to_string sid) ∷ []) >>= λ response.
        or_error invalid_challenge (parse_authentication_challenge json response)

    -- `FinishAuthentication` and `FinishRemoval`.
    unfoldable pub finish_authentication : Bytes → FidoSignResponse → Called Json
    finish_authentication session_id assertion = call pipe (
        op "finish_auth"
        ∷ text_member "sessionId" session_id
        ∷ ("assertion", assertion_to_json json assertion)
        ∷ [])

    pub finish_removal : Bytes → FidoSignResponse → Called Json
    finish_removal session_id assertion = call pipe (
        op "finish_remove"
        ∷ text_member "sessionId" session_id
        ∷ ("assertion", assertion_to_json json assertion)
        ∷ [])

    -- What the requests with a password begin with.
    abbrev pub with_password : String → (sid username password : Wide) → List (String × Json)
    with_password name sid username password =
        op name
        ∷ text_member "sid" (to_string sid)
        ∷ text_member "username" (to_string username)
        ∷ text_member "password" (to_string password)
        ∷ []

    pub begin_registration : (sid username password : Wide) → Bytes → Called RegistrationChallenge
    begin_registration sid username password label =
        call pipe (
          with_password "begin_registration" sid username password
          ++ (text_member "label" label ∷ []))
        >>= λ response.
            or_error invalid_challenge
              (member response "registration" >>? parse_registration_challenge json)

    pub commit_registration :
        (session_id label attestation_object client_data_json : Bytes) → Called Json
    commit_registration session_id label attestation_object client_data_json = call pipe (
        op "commit_registration"
        ∷ text_member "sessionId" session_id
        ∷ text_member "label" label
        ∷ text_member "attestationObject" attestation_object
        ∷ text_member "clientDataJson" client_data_json
        ∷ [])

    pub begin_removal : (sid username password : Wide) → Bytes → Called AuthenticationChallenge
    begin_removal sid username password credential_id =
        call pipe (
          with_password "begin_remove" sid username password
          ++ (text_member "credentialId" credential_id ∷ []))
        >>= λ response.
            or_error invalid_challenge
              (member response "authorization" >>? parse_authentication_challenge json)

    pub remove_credential_with_password : (sid username password : Wide) → Bytes → Called Json
    remove_credential_with_password sid username password credential_id = call pipe (
        with_password "remove_with_password" sid username password
        ++ (text_member "credentialId" credential_id ∷ []))

    pub set_enforcement :
        (sid username password : Wide) → (enabled allow_filter_conflict : Bool) → Called Json
    set_enforcement sid username password enabled allow_filter_conflict = call pipe (
        with_password "set_enforcement" sid username password
        ++ (("enabled", of_bool enabled)
            ∷ ("allowFilterConflict", of_bool allow_filter_conflict)
            ∷ []))
