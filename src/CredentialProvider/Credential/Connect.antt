-- ===== src/CredentialProvider/Credential/Connect.antt =====
-- `CCredential::Connect`, with what a call meets: the broker's client, the accounts, the devices, and
-- the user who cancels.
use windows_fido_logon.Base.{
  ℕ, zero, suc, Bool, true, not, ◌&&◌, ◌||◌, Option, none, some, List, [], ◌∷◌, Bytes, Wide,
  is_empty, if◌then◌else◌,
}
use windows_fido_logon.LocalFidoTypes.{FidoSignResponse, SignRequest, AuthenticationChallenge}
use windows_fido_logon.CredentialProvider.HResult.{
  HResult, s_ok, e_unexpected, e_invalidarg, e_accessdenied, from_win32, hresult_from_win32,
}
use windows_fido_logon.CredentialProvider.Ui.{UiText, ui_text}
use windows_fido_logon.CredentialProvider.Credential.{
  Mode, Device, Credential, set_status, set_mode, clear_pin, reset_mfa, full_reset, initial_prompt,
}

-- What `ResolveLocalAccount` returns of an account.
pub record Account : Type 0 where
  pub username : Wide
  pub computer : Wide
  pub sid : Wide

pub data Resolution : Type 0 where
  found : Account → Resolution
  not_found : ℕ → Resolution

pub record Environment : Type 0 where
  -- Whether `QueryContinue` says to stop: at the beginning (0), after the broker's challenge (1), the
  -- selection (2), the signature (3) and the broker's verdict (4). Without a query it never does.
  pub cancelled : ℕ → Bool
  pub resolve_local_account : Wide → Resolution
  -- `_wcsicmp(a.c_str(), b.c_str()) == 0`.
  pub same_text : Wide → Wide → Bool
  pub begin_authentication : Wide → Option AuthenticationChallenge
  pub is_sid_enforced : Wide → Bool
  pub get_devices : List Device
  -- `none` where the selection does not return FIDO_OK.
  pub select_by_touch : List Device → Option ℕ
  -- `Convert::ToString` and `Sign` with the request, the origin and the PIN.
  pub sign : Device → SignRequest → Bytes → Wide → Option FidoSignResponse
  pub finish_authentication : Bytes → FidoSignResponse → Bool

abbrev pub error_cancelled : ℕ
error_cancelled = 1223

abbrev pub error_device_not_available : ℕ
error_device_not_available = 4319

unfoldable pub device_at : List Device → Option ℕ → Option Device
device_at devices none = none
device_at [] (some n) = none
device_at (d ∷ devices) (some zero) = some d
device_at (d ∷ devices) (some (suc n)) = device_at devices (some n)

abbrev pub show : UiText → Credential → Credential
show label s = set_status (ui_text label) s

-- The user has cancelled.
abbrev pub stopped : Credential → Credential × HResult
stopped s = (full_reset s, from_win32 error_cancelled)

-- The ceremony fails.
abbrev pub refused : UiText → Credential → Credential × HResult
refused label s = (show label (set_mode Mode.username_password (reset_mfa s)), e_accessdenied)

module _ (env : Environment) where
  abbrev pub finish :
      AuthenticationChallenge → Option FidoSignResponse → Credential → Credential × HResult
  finish c none s = refused UiText.key_verification_failed s
  finish c (some assertion) s =
      if not (env.finish_authentication c.session_id assertion)
      then refused UiText.key_verification_incomplete s
      else if env.cancelled 4
      then stopped s
      else (show UiText.key_verified (record s { mfa_complete = true; challenge = none }), s_ok)

  -- The ceremony with the selected key.
  abbrev pub touch : AuthenticationChallenge → Option Device → Credential → Credential × HResult
  touch c none s = refused UiText.key_verification_failed s
  touch c (some device) s =
      let shown = clear_pin (show UiText.touch_key s) in
      if env.cancelled 3
      then stopped shown
      else finish c (env.sign device c.request c.origin s.fido_pin) shown

  -- The key is selected: a key with a PIN waits for it. `SelectByTouch` returns an index of the list.
  abbrev pub selected :
      AuthenticationChallenge → ℕ → Option Device → Credential → Credential × HResult
  selected c n (some device) s =
      let chosen = record s { selected_device = some n } in
      if device.has_pin
      then (show UiText.enter_pin_and_touch (set_mode Mode.fido chosen), s_ok)
      else touch c (some device) chosen
  selected c n none s = touch c none (record s { selected_device = some n })

  abbrev pub touched : AuthenticationChallenge → Option ℕ → Credential → Credential × HResult
  touched c none s = refused UiText.key_verification_failed s
  touched c (some n) s = selected c n (device_at env.get_devices (some n)) s

  abbrev pub choose : AuthenticationChallenge → List Device → Credential → Credential × HResult
  choose c [] s =
      (show UiText.no_security_key_detected (reset_mfa s), from_win32 error_device_not_available)
  choose c (device ∷ []) s = selected c 0 (some device) s
  choose c (d₀ ∷ d₁ ∷ devices) s =
      let shown = show UiText.touch_key s in
      if env.cancelled 2
      then stopped shown
      else touched c (env.select_by_touch (d₀ ∷ d₁ ∷ devices)) shown

  -- The broker's answer.
  abbrev pub answered : Option AuthenticationChallenge → Credential → Credential × HResult
  answered none s = (show UiText.sign_in_verification_unavailable s, e_accessdenied)
  answered (some c) s =
      if env.cancelled 1
      then stopped s
      else if not c.enforced
      then (if env.is_sid_enforced s.sid
          then (show UiText.mfa_policy_unavailable s, e_accessdenied)
          else (show UiText.preparing_windows_sign_in (record s { mfa_complete = true }), s_ok))
      else choose c env.get_devices (record s { challenge = some c; devices = env.get_devices })

  abbrev pub resolved : Resolution → Credential → Credential × HResult
  resolved (found account) s =
      if not (is_empty s.user_sid) && not (env.same_text account.sid s.user_sid)
      then (show UiText.sign_in_failed (full_reset s), e_accessdenied)
      else let known = record s {
        username = account.username;
        domain = account.computer;
        sid = account.sid;
      } in
        answered (env.begin_authentication account.sid) known
  resolved (not_found e) s = (show UiText.local_accounts_only s, hresult_from_win32 e)

  abbrev pub start : Option AuthenticationChallenge → Credential → Credential × HResult
  start none s = resolved (env.resolve_local_account s.username) s
  start (some c) s = touch c (device_at s.devices s.selected_device) s

  -- Past the first question to the user.
  abbrev pub submit : Mode → Credential → Credential × HResult
  submit Mode.change_password s = (s, if s.password_change_authorized then s_ok else e_accessdenied)
  submit _ s =
      if is_empty s.username || is_empty s.password
      then (show (initial_prompt s) s, e_invalidarg)
      else start s.challenge s

  unfoldable pub connect : Credential → Credential × HResult
  connect s =
      if s.retired
      then (s, e_unexpected)
      else if env.cancelled 0
      then stopped s
      else submit s.mode s
