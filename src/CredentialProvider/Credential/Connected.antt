-- ===== src/CredentialProvider/Credential/Connected.antt =====
-- Connect keeps the invariant of a tile.
use windows_fido_logon.Base.{
  ℕ, ◌≡◌, refl, sym, ap, subst, not, ◌&&◌, ◌||◌, Option, none, some, List, [], ◌∷◌, Wide, is_empty,
  if_elim, arith,
}
use windows_fido_logon.LocalFidoTypes.{FidoSignResponse, AuthenticationChallenge}
use windows_fido_logon.CredentialProvider.HResult.{HResult}
use windows_fido_logon.CredentialProvider.Credential.{
  Mode, Device, Credential, set_mode, clear_pin, reset_mfa, full_reset,
}
use windows_fido_logon.CredentialProvider.Credential.Connect.{
  Account, Resolution, found, not_found, Environment, device_at, finish, touch, selected, touched,
  choose, answered, resolved, start, submit, connect,
}
use windows_fido_logon.CredentialProvider.Credential.Approved.{
  IsAccount, IsIssued, IsApproved, unenforced, verified, IsStable, IsPending, IsSound, reset_Sound,
  refused_Sound, approved_Sound,
}

module _ {Met : Environment → Type 0} (stable : IsStable Met) (env : Environment)
    (met : Met env) where
  -- The tile's fields that the branches leave, and the state after a result.
  abbrev Keeps : Credential × HResult → Type 0
  Keeps result = IsSound Met result.0

  abbrev Pending : Credential → AuthenticationChallenge → Type 0
  Pending s c = IsPending Met s.user_sid s.username s.domain s.sid c

  finish-Sound :
      (c : AuthenticationChallenge) (device : Device) (pin : Wide)
      (answer : Option FidoSignResponse) (s : Credential)
      → env.sign device c.request c.origin pin ≡ answer
      → Pending s c
      → IsSound Met s
      → Keeps (finish env c answer s)
  unfolding full_reset reset_mfa set_mode clear_pin
  finish-Sound c device pin none s signs pending sound = refused_Sound sound
  finish-Sound c device pin (some assertion) s signs (account, enforced, issued) sound =
      if_elim Keeps (not (env.finish_authentication c.session_id assertion))
        (λ _. refused_Sound sound)
        (λ accepts.
          if_elim Keeps (env.cancelled 4) (λ _. reset_Sound)
            (λ _.
              approved_Sound account
                (verified env c device pin assertion issued enforced met signs (ground arith))))

  touch-Sound :
      (c : AuthenticationChallenge) (device : Option Device) (s : Credential)
      → Pending s c
      → IsSound Met s
      → Keeps (touch env c device s)
  unfolding full_reset reset_mfa set_mode clear_pin
  touch-Sound c none s pending sound = refused_Sound sound
  touch-Sound c (some device) s pending sound =
      if_elim Keeps (env.cancelled 3) (λ _. reset_Sound)
        (λ _.
          finish-Sound c device s.fido_pin (env.sign device c.request c.origin s.fido_pin) _ refl
            pending sound)

  selected-Sound :
      (c : AuthenticationChallenge) (n : ℕ) (device : Option Device) (s : Credential)
      → Pending s c
      → IsSound Met s
      → Keeps (selected env c n device s)
  unfolding set_mode
  selected-Sound c n none s pending sound = touch-Sound c none _ pending sound
  selected-Sound c n (some device) s pending sound =
      if_elim Keeps device.has_pin (λ _. sound) (λ _. touch-Sound c (some device) _ pending sound)

  touched-Sound :
      (c : AuthenticationChallenge) (n : Option ℕ) (s : Credential)
      → Pending s c
      → IsSound Met s
      → Keeps (touched env c n s)
  unfolding reset_mfa set_mode clear_pin
  touched-Sound c none s pending sound = refused_Sound sound
  touched-Sound c (some n) s pending sound =
      selected-Sound c n (device_at env.get_devices (some n)) s pending sound

  choose-Sound :
      (c : AuthenticationChallenge) (devices : List Device) (s : Credential)
      → Pending s c
      → IsSound Met s
      → Keeps (choose env c devices s)
  unfolding full_reset reset_mfa set_mode clear_pin
  choose-Sound c [] s pending sound = refused_Sound sound
  choose-Sound c (device ∷ []) s pending sound = selected-Sound c 0 (some device) s pending sound
  choose-Sound c (d₀ ∷ d₁ ∷ devices) s pending sound =
      if_elim Keeps (env.cancelled 2) (λ _. reset_Sound)
        (λ _. touched-Sound c (env.select_by_touch (d₀ ∷ d₁ ∷ devices)) _ pending sound)

  answered-Sound :
      (answer : Option AuthenticationChallenge) (s : Credential)
      → env.begin_authentication s.sid ≡ answer
      → s.challenge ≡ none
      → IsAccount Met s.user_sid s.username s.domain s.sid
      → IsSound Met s
      → Keeps (answered env answer s)
  unfolding full_reset reset_mfa set_mode clear_pin
  answered-Sound none s asked idle account sound = sound
  answered-Sound (some c) s asked idle account sound =
      if_elim Keeps (env.cancelled 1) (λ _. reset_Sound)
        (λ _.
          if_elim Keeps (not c.enforced)
            (λ unforced.
              if_elim Keeps (env.is_sid_enforced s.sid) (λ _. sound)
                (λ unlisted. record {
                  approved = λ _. (account, unenforced env c met asked (ground arith) unlisted);
                  pending = sound.pending;
                }))
            (λ enforced.
              let issued : IsIssued Met s.sid c = record { env = env; met = met; issued = asked } in
              choose-Sound c env.get_devices _ (account, ground arith, issued)
                (record {
                  approved = sound.approved;
                  pending = λ c' h. (account, ground arith, subst (IsIssued Met s.sid) (cc) issued);
                })))

  resolved-Sound :
      (resolution : Resolution) (s : Credential)
      → env.resolve_local_account s.username ≡ resolution
      → s.challenge ≡ none
      → IsSound Met s
      → Keeps (resolved env resolution s)
  unfolding full_reset reset_mfa set_mode clear_pin
  resolved-Sound (not_found e) s asked idle sound = sound
  resolved-Sound (found a) s asked idle sound =
      if_elim Keeps (not (is_empty s.user_sid) && not (env.same_text a.sid s.user_sid))
        (λ _. reset_Sound)
        (λ own.
          let account : IsAccount Met s.user_sid a.username a.computer a.sid = record {
            env = env;
            met = met;
            typed = s.username;
            known = asked;
            own = ground arith;
          } in
          answered-Sound (env.begin_authentication a.sid) _ refl idle account (record {
            approved = λ h.
                let (old, approval) = sound.approved h in
                (
                  account,
                  subst (IsApproved Met)
                      (sym (
                        ap (λ (b : Account). b.sid)
                          (stable old.env env old.typed _ a old.met met old.known asked)))
                      approval,
                );
            pending = λ c h. absurd (cc);
          }))

  start-Sound :
      (challenge : Option AuthenticationChallenge) (s : Credential)
      → s.challenge ≡ challenge
      → IsSound Met s
      → Keeps (start env challenge s)
  start-Sound none s idle sound =
      resolved-Sound (env.resolve_local_account s.username) s refl idle sound
  start-Sound (some c) s waits sound =
      touch-Sound c (device_at s.devices s.selected_device) s (sound.pending c waits) sound

  submit-Sound : (mode : Mode) (s : Credential) → IsSound Met s → Keeps (submit env mode s)
  submit-Sound Mode.change_password s sound = sound
  submit-Sound Mode.username_password s sound =
      if_elim Keeps (is_empty s.username || is_empty s.password) (λ _. sound)
        (λ _. start-Sound s.challenge s refl sound)
  submit-Sound Mode.fido s sound =
      if_elim Keeps (is_empty s.username || is_empty s.password) (λ _. sound)
        (λ _. start-Sound s.challenge s refl sound)

  pub connect-Sound : (s : Credential) → IsSound Met s → IsSound Met (connect env s).0
  unfolding connect full_reset reset_mfa set_mode clear_pin
  connect-Sound s sound =
      if_elim Keeps s.retired (λ _. sound)
        (λ _. if_elim Keeps (env.cancelled 0) (λ _. reset_Sound) (λ _. submit-Sound s.mode s sound))
