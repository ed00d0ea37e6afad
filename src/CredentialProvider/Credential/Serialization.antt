-- ===== src/CredentialProvider/Credential/Serialization.antt =====
-- `CCredential::GetSerialization` with `PackLogon` and `PackPasswordChange`, and
-- `CCredential::ReportResult`.
use windows_fido_logon.Base.{
  ℕ, Bool, false, not, ◌&&◌, ◌||◌, Option, none, some, bytes_eq, is_empty, ◌==◌, if◌then◌else◌,
}
use windows_fido_logon.CredentialProvider.HResult.{
  HResult, Hr, ok, err, ◌>>=◌, require, s_ok, e_invalidarg, e_unexpected,
}
use windows_fido_logon.CredentialProvider.Ui.{UiText, ui_text}
use windows_fido_logon.CredentialProvider.Kerb.{
  PackedLogon, PackedChange, ChangePassword, unicode_string_init, logon_init, logon_pack,
  change_password_pack,
}
use windows_fido_logon.CredentialProvider.Password.{
  CredentialApi, protect_if_necessary_and_copy_password, retrieve_negotiate_auth_package,
}
use windows_fido_logon.CredentialProvider.Credential.{
  Mode, Credential, set_status, set_mode, clear_pin, reset_mfa, clear_secrets,
  clear_password_fields,
}

-- What the packing meets: the sizes of the two structures, whether their allocation succeeds.
pub record Packing : Type 0 where
  pub api : CredentialApi
  pub logon_size : ℕ
  pub change_size : ℕ
  pub allocated : Bool

pub data Contents : Type 0 where
  logon_contents : PackedLogon → Contents
  change_contents : PackedChange → Contents

-- A serialization of the provider for CPGSR_RETURN_CREDENTIAL_FINISHED.
pub record Serialization : Type 0 where
  pub auth_package : ℕ
  pub contents : Contents

pub data Icon : Type 0 where
  no_icon warning_icon error_icon : Icon

-- The result, the serialization (`none` is CPGSR_NO_CREDENTIAL_NOT_FINISHED), and the status that
-- LogonUI shows.
pub record Reply : Type 0 where
  pub result : HResult
  pub serialization : Option Serialization
  pub status_text : Option UiText
  pub icon : Icon

abbrev pub reply : HResult → Option Serialization → Reply
reply result serialization = record {
  result = result;
  serialization = serialization;
  status_text = none;
  icon = no_icon;
}

abbrev pub told : UiText → Icon → Reply
told label icon = record {
  result = s_ok;
  serialization = none;
  status_text = some label;
  icon = icon;
}

-- `PackLogon`.
unfoldable pub pack_logon : Packing → Credential → Hr Serialization
pack_logon p s = do
  protected ← protect_if_necessary_and_copy_password p.api s.password s.scenario
  logon ← logon_init (some s.domain) (some s.username) protected s.scenario
  packed ← logon_pack p.logon_size p.allocated logon
  auth_package ← retrieve_negotiate_auth_package p.api
  ok (record { auth_package = auth_package; contents = logon_contents packed })

-- The new password is authorised, not empty and given twice.
abbrev pub may_change : Credential → Bool
may_change s =
    s.password_change_authorized
    && not (is_empty s.new_password1)
    && bytes_eq s.new_password1 s.new_password2

abbrev pub change_request : Credential → Hr ChangePassword
change_request s = do
  domain ← unicode_string_init (some s.domain)
  account ← unicode_string_init (some s.username)
  old_password ← unicode_string_init (some s.password)
  new_password ← unicode_string_init (some s.new_password1)
  ok (record {
    domain = domain;
    account = account;
    old_password = old_password;
    new_password = new_password;
  })

unfoldable pub packed_change : Packing → Credential → Hr Serialization
packed_change p s = do
  request ← change_request s
  packed ← change_password_pack p.change_size p.allocated request
  auth_package ← retrieve_negotiate_auth_package p.api
  ok (record { auth_package = auth_package; contents = change_contents packed })

-- `PackPasswordChange`.
unfoldable pub pack_password_change : Packing → Credential → Hr Serialization
pack_password_change p s = require (may_change s) e_invalidarg (packed_change p s)

abbrev pub changed : Hr Serialization → Credential → Credential × Reply
changed (ok serialization) s = (s, reply s_ok (some serialization))
changed (err e) s = (
  set_status (ui_text UiText.password_update_failed) s,
  told UiText.password_update_failed error_icon,
)

abbrev pub logged_on : Hr Serialization → Credential → Credential × Reply
logged_on (ok serialization) s = (s, reply s_ok (some serialization))
logged_on (err e) s = (s, reply e none)

abbrev pub serialize : Packing → Mode → Credential → Credential × Reply
serialize p Mode.change_password s = changed (pack_password_change p s) s
serialize p _ s = if s.mfa_complete then logged_on (pack_logon p s) s else (s, reply s_ok none)

-- `GetSerialization` with its four pointers.
unfoldable pub get_serialization : Packing → Credential → Credential × Reply
get_serialization p s = if s.retired then (s, reply e_unexpected none) else serialize p s.mode s

abbrev pub status_password_must_change : ℕ
status_password_must_change = 3221226020

abbrev pub status_password_expired : ℕ
status_password_expired = 3221225585

abbrev pub status_wrong_password : ℕ
status_wrong_password = 3221225578

-- NTSTATUS or its substatus asks for a new password.
abbrev pub must_change : ℕ → ℕ → Bool
must_change status substatus =
    (status == status_password_must_change)
    || (status == status_password_expired)
    || (substatus == status_password_must_change)
    || (substatus == status_password_expired)

abbrev pub failure_text : ℕ → ℕ → UiText
failure_text status substatus =
    if (status == status_wrong_password) || (substatus == status_wrong_password)
    then UiText.password_verification_failed
    else UiText.sign_in_failed

-- A logon that succeeded.
abbrev pub report_success : Credential → Credential × Reply
report_success s = (
  clear_password_fields
      (clear_secrets (record (reset_mfa s) { password_change_authorized = false })),
  reply s_ok none,
)

-- A logon that needs a new password.
abbrev pub report_must_change : Credential → Credential × Reply
report_must_change s = (
  set_status (ui_text UiText.password_must_change) (
      set_mode Mode.change_password
        (record s { password_change_authorized = s.mfa_complete; mfa_complete = false })),
  told UiText.password_must_change warning_icon,
)

-- A logon that failed.
abbrev pub report_failure : UiText → Credential → Credential × Reply
report_failure label s = (
  set_status (ui_text label)
      (clear_password_fields (clear_secrets (set_mode Mode.username_password (reset_mfa s)))),
  told label error_icon,
)

-- `ReportResult` of NTSTATUS and substatus.
unfoldable pub report_result : ℕ → ℕ → Credential → Credential × Reply
report_result status substatus s =
    let cleared = clear_pin s in
    if status == 0
    then report_success cleared
    else if must_change status substatus
    then report_must_change cleared
    else report_failure (failure_text status substatus) cleared
