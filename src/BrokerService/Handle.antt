-- ===== src/BrokerService/Handle.antt =====
-- `BrokerService::Handle` and `ProcessRequest`.
use windows_fido_logon.Base.{
  not, ◌||◌, Option, none, some, [], Bytes, bytes_eq, codes, length, is_empty, ltb, ◌==◌,
  if◌then◌else◌,
}
use windows_fido_logon.LocalFidoTypes.{Vault, broker_protocol_version, max_broker_message_bytes}
use windows_fido_logon.External.Json.{JsonLibrary}
use windows_fido_logon.External.Cbor.{CborLibrary}
use windows_fido_logon.External.Fido.{FidoLibrary}
use windows_fido_logon.LocalCredentialStore.Save.{load_or_create}
use windows_fido_logon.LocalCredentialStore.Accounts.{refresh_local_accounts}
use windows_fido_logon.BrokerService.State.{
  Caller, Platform, B, throw, require, found, json_value, store_call, ◌>>=◌, ◌>>◌, refresh_failed,
  vault_unavailable, unsupported_operation, invalid_request_size, unsupported_version,
  unidentified_caller,
}
use windows_fido_logon.BrokerService.Authentication.{
  Response, handle_status, begin_auth, begin_test, finish_auth,
}
use windows_fido_logon.BrokerService.Management.{
  begin_registration, commit_registration, begin_remove, remove_with_password, finish_remove,
  set_enforcement,
}

-- The operations, by the texts that name them.
pub data Operation : Type 0 where
  status begin_authentication finish_authentication begin_test_ begin_registration_ : Operation
  commit_registration_ begin_removal remove_by_password finish_removal set_policy : Operation

pub operation_of : Bytes → Option Operation
operation_of op =
    if bytes_eq op (codes "status")
    then some status
    else if bytes_eq op (codes "begin_auth")
    then some begin_authentication
    else if bytes_eq op (codes "finish_auth")
    then some finish_authentication
    else if bytes_eq op (codes "begin_test")
    then some begin_test_
    else if bytes_eq op (codes "begin_registration")
    then some begin_registration_
    else if bytes_eq op (codes "commit_registration")
    then some commit_registration_
    else if bytes_eq op (codes "begin_remove")
    then some begin_removal
    else if bytes_eq op (codes "remove_with_password")
    then some remove_by_password
    else if bytes_eq op (codes "finish_remove")
    then some finish_removal
    else if bytes_eq op (codes "set_enforcement")
    then some set_policy
    else none

module _ (p : Platform) (json : JsonLibrary) (cbor : CborLibrary) (fido : FidoLibrary) where
  open json use {Json, parse, value_string, value_uint}

  pub perform : Caller → Json → Vault → Option Operation → B Response
  perform caller request vault none = throw unsupported_operation
  perform caller request vault (some status) = handle_status p json caller request
  perform caller request vault (some begin_authentication) = begin_auth p json caller request vault
  perform caller request vault (some finish_authentication) =
      finish_auth p json cbor fido caller request
  perform caller request vault (some begin_test_) = begin_test p json caller request vault
  perform caller request vault (some begin_registration_) =
      begin_registration p json caller request vault
  perform caller request vault (some commit_registration_) =
      commit_registration p json cbor fido caller request
  perform caller request vault (some begin_removal) = begin_remove p json caller request vault
  perform caller request vault (some remove_by_password) =
      remove_with_password p json caller request
  perform caller request vault (some finish_removal) = finish_remove p json cbor fido caller request
  perform caller request vault (some set_policy) = set_enforcement p json caller request

  -- Every operation but `status` loads the vault first.
  abbrev perform_operation : Caller → Json → Option Operation → B Response
  perform_operation caller request (some status) = handle_status p json caller request
  perform_operation caller request operation = do
    vault ← store_call (load_or_create p.sys json) vault_unavailable
    perform caller request vault operation

  pub handle : Caller → Json → B Response
  unfolding perform
  handle caller request = do
    store_call (refresh_local_accounts p.sys json) refresh_failed
    op ← json_value (value_string request "op" [])
    perform_operation caller request (operation_of op)

  -- The caller is known only after the version was checked; `none` is a failed `GetCaller`.
  pub process_request : Option Caller → Bytes → B Response
  unfolding handle
  process_request caller input = do
    require (not (is_empty input || ltb max_broker_message_bytes (length input)))
        invalid_request_size
    request ← json_value (parse input)
    version ← json_value (value_uint request "version" 0)
    require (version == broker_protocol_version) unsupported_version
    known ← found caller unidentified_caller
    handle known request
