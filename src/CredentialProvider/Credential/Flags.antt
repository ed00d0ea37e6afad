-- ===== src/CredentialProvider/Credential/Flags.antt =====
-- What Connect does to the flags of a tile.
use windows_fido_logon.Base.{
  ℕ, ◌≡◌, ◌≢◌, refl, Bool, true, false, not, ◌&&◌, ◌||◌, Option, none, some, List, [], ◌∷◌,
  is_empty, if_elim,
}
use windows_fido_logon.LocalFidoTypes.{FidoSignResponse, AuthenticationChallenge}
use windows_fido_logon.CredentialProvider.HResult.{HResult, s_ok}
use windows_fido_logon.CredentialProvider.Credential.{
  Mode, Device, Credential, set_mode, clear_pin, reset_mfa, full_reset,
}
use windows_fido_logon.CredentialProvider.Credential.Connect.{
  Resolution, found, not_found, Environment, device_at, finish, touch, selected, touched, choose,
  answered, resolved, start, submit, connect,
}

-- The approval of a tile after a call: as before, dropped, or given with S_OK.
pub data Approval (before : Bool) : Bool → HResult → Type 0 where
  kept : {result : HResult} → Approval before before result
  dropped : {result : HResult} → Approval before false result
  given : Approval before true s_ok

Approval-before :
    {before after : Bool} {result : HResult}
    → Approval before after result
    → result ≢ s_ok
    → after ≡ true
    → before ≡ true
Approval-before kept failed complete = complete
Approval-before dropped failed complete = absurd (cc)
Approval-before given failed complete = absurd (failed refl)

abbrev pub Same : Credential → Credential × HResult → Type 0
Same s result =
    (result.0.retired ≡ s.retired) × Approval s.mfa_complete result.0.mfa_complete result.1

module _ (env : Environment) where
  finish-Same :
      (c : AuthenticationChallenge) (answer : Option FidoSignResponse) (s : Credential)
      → Same s (finish env c answer s)
  unfolding full_reset reset_mfa set_mode clear_pin
  finish-Same c none s = (refl, dropped)
  finish-Same c (some assertion) s =
      if_elim (Same s) (not (env.finish_authentication c.session_id assertion))
        (λ _. (refl, dropped))
        (λ _. if_elim (Same s) (env.cancelled 4) (λ _. (refl, dropped)) (λ _. (refl, given)))

  touch-Same :
      (c : AuthenticationChallenge) (device : Option Device) (s : Credential)
      → Same s (touch env c device s)
  unfolding full_reset reset_mfa set_mode clear_pin
  touch-Same c none s = (refl, dropped)
  touch-Same c (some device) s =
      if_elim (Same s) (env.cancelled 3) (λ _. (refl, dropped)) (λ _. finish-Same c _ _)

  selected-Same :
      (c : AuthenticationChallenge) (n : ℕ) (device : Option Device) (s : Credential)
      → Same s (selected env c n device s)
  unfolding set_mode
  selected-Same c n none s = touch-Same c none _
  selected-Same c n (some device) s =
      if_elim (Same s) device.has_pin (λ _. (refl, kept)) (λ _. touch-Same c (some device) _)

  touched-Same :
      (c : AuthenticationChallenge) (n : Option ℕ) (s : Credential) → Same s (touched env c n s)
  unfolding reset_mfa set_mode clear_pin
  touched-Same c none s = (refl, dropped)
  touched-Same c (some n) s = selected-Same c n (device_at env.get_devices (some n)) s

  choose-Same :
      (c : AuthenticationChallenge) (devices : List Device) (s : Credential)
      → Same s (choose env c devices s)
  unfolding full_reset reset_mfa set_mode clear_pin
  choose-Same c [] s = (refl, dropped)
  choose-Same c (device ∷ []) s = selected-Same c 0 (some device) s
  choose-Same c (d₀ ∷ d₁ ∷ devices) s =
      if_elim (Same s) (env.cancelled 2) (λ _. (refl, dropped))
        (λ _. touched-Same c (env.select_by_touch (d₀ ∷ d₁ ∷ devices)) _)

  answered-Same :
      (answer : Option AuthenticationChallenge) (s : Credential) → Same s (answered env answer s)
  unfolding full_reset reset_mfa set_mode clear_pin
  answered-Same none s = (refl, kept)
  answered-Same (some c) s =
      if_elim (Same s) (env.cancelled 1) (λ _. (refl, dropped))
        (λ _.
          if_elim (Same s) (not c.enforced)
            (λ _.
              if_elim (Same s) (env.is_sid_enforced s.sid) (λ _. (refl, kept)) (λ _. (refl, given)))
            (λ _. choose-Same c env.get_devices _))

  resolved-Same : (resolution : Resolution) (s : Credential) → Same s (resolved env resolution s)
  unfolding full_reset reset_mfa set_mode clear_pin
  resolved-Same (not_found e) s = (refl, kept)
  resolved-Same (found a) s =
      if_elim (Same s) (not (is_empty s.user_sid) && not (env.same_text a.sid s.user_sid))
        (λ _. (refl, dropped)) (λ _. answered-Same (env.begin_authentication a.sid) _)

  start-Same :
      (challenge : Option AuthenticationChallenge) (s : Credential) → Same s (start env challenge s)
  start-Same none s = resolved-Same (env.resolve_local_account s.username) s
  start-Same (some c) s = touch-Same c (device_at s.devices s.selected_device) s

  submit-Same : (mode : Mode) (s : Credential) → Same s (submit env mode s)
  submit-Same Mode.change_password s = (refl, kept)
  submit-Same Mode.username_password s =
      if_elim (Same s) (is_empty s.username || is_empty s.password) (λ _. (refl, kept))
        (λ _. start-Same s.challenge s)
  submit-Same Mode.fido s =
      if_elim (Same s) (is_empty s.username || is_empty s.password) (λ _. (refl, kept))
        (λ _. start-Same s.challenge s)

  pub connect-Same : (s : Credential) → Same s (connect env s)
  unfolding connect full_reset reset_mfa set_mode clear_pin
  connect-Same s =
      if_elim (Same s) s.retired (λ _. (refl, kept))
        (λ _. if_elim (Same s) (env.cancelled 0) (λ _. (refl, dropped)) (λ _. submit-Same s.mode s))

-- A Connect that does not return S_OK approves nothing: if the tile is approved afterwards, it was so
-- before.
pub connect-keeps_approval :
    (env : Environment) (s : Credential)
    → (connect env s).1 ≢ s_ok
    → (connect env s).0.mfa_complete ≡ true
    → s.mfa_complete ≡ true
connect-keeps_approval env s failed complete =
    Approval-before (connect-Same env s).1 failed complete
