-- ===== src/CredentialProvider/Credential/Safety.antt =====
-- What a serialization of a reachable tile rests on.
use windows_fido_logon.Base.{
  ℕ, ◌≡◌, refl, subst, ◌⊎◌, inl, inr, true, false, not, Option, none, some, Wide, is_empty,
  bytes_eq, eq_of_bytes_eq, ◌==◌, leb, if◌then◌else◌, if_elim, arith,
}
use windows_fido_logon.CredentialProvider.HResult.{
  HResult, Hr, ok, err, s_ok, e_invalidarg, require-eq-ok,
}
use windows_fido_logon.CredentialProvider.Ui.{fid_num_fields}
use windows_fido_logon.CredentialProvider.Credential.{
  Mode, Credential, initialize, set_mode, clear_pin, reset_mfa, full_reset, retire, change_username,
  Target, target_of, assign, set_string_value,
}
use windows_fido_logon.CredentialProvider.Credential.Connect.{Environment}
use windows_fido_logon.CredentialProvider.Credential.Serialization.{
  Packing, Serialization, Reply, pack_logon, pack_password_change, packed_change, may_change, reply,
  changed, logged_on, serialize, get_serialization, must_change, report_result,
}
use windows_fido_logon.CredentialProvider.Credential.Steps.{
  Step, set_string_value_step, connect_step, get_serialization_step, report_result_step,
  full_reset_step, retire_step, Reachable, initial, next,
}
use windows_fido_logon.CredentialProvider.Credential.Connected.{connect-Sound}
use windows_fido_logon.CredentialProvider.Credential.Approved.{
  IsAccount, IsApproved, IsStable, Sound, IsSound, reset_Sound, refused_Sound,
}

-- A serialization is finished only where a flag says that the sign-in is approved.
changed-flag :
    (p : Packing) (s : Credential) (packed : Hr Serialization) {x : Serialization}
    → pack_password_change p s ≡ packed
    → (changed packed s).1.serialization ≡ some x
    → s.password_change_authorized ≡ true
unfolding pack_password_change
changed-flag p s (ok y) packs h =
    let (allowed, _) = require-eq-ok (may_change s) e_invalidarg (packed_change p s) packs in
    ground arith
changed-flag p s (err e) packs h = absurd (cc)

serialize-flag :
    (p : Packing) (mode : Mode) (s : Credential) {x : Serialization}
    → (serialize p mode s).1.serialization ≡ some x
    → (s.mfa_complete ≡ true) ⊎ (s.password_change_authorized ≡ true)
serialize-flag p Mode.change_password s h = inr (changed-flag p s (pack_password_change p s) refl h)
serialize-flag p Mode.username_password s h = ground arith
serialize-flag p Mode.fido s h = ground arith

get_serialization-flag :
    (p : Packing) (s : Credential) {x : Serialization}
    → (get_serialization p s).1.serialization ≡ some x
    → (s.retired ≡ false) × ((s.mfa_complete ≡ true) ⊎ (s.password_change_authorized ≡ true))
unfolding get_serialization
get_serialization-flag p s {x} h =
    if_elim
      (λ (r : Credential × Reply).
        r.1.serialization ≡ some x
        → (s.retired ≡ false) × ((s.mfa_complete ≡ true) ⊎ (s.password_change_authorized ≡ true)))
      s.retired (λ _ finished. absurd (cc))
      (λ live finished. (live, serialize-flag p s.mode s finished)) h

module _ {Met : Environment → Type 0} where
  change_username-Sound :
      (value : Wide) (s : Credential) → IsSound Met s → IsSound Met (change_username value s)
  unfolding full_reset reset_mfa set_mode clear_pin
  change_username-Sound value s sound =
      if_elim (λ (t : Credential). IsSound Met (record t { username = value }))
        (bytes_eq s.username value)
        (λ same.
          subst
            (λ u.
              Sound Met s.user_sid u s.domain s.sid s.mfa_complete s.challenge
                s.password_change_authorized)
            (eq_of_bytes_eq s.username value same) sound)
        (λ _. reset_Sound)

  assign-Sound :
      (target : Option Target) (value : Wide) (s : Credential)
      → IsSound Met s
      → IsSound Met (assign target value s).0
  assign-Sound none value s sound = sound
  assign-Sound (some Target.the_username) value s sound =
      if_elim (λ (r : Credential × HResult). IsSound Met r.0) (not (is_empty s.user_sid))
        (λ _. sound) (λ _. change_username-Sound value s sound)
  assign-Sound (some Target.the_password) value s sound = sound
  assign-Sound (some Target.the_pin) value s sound = sound
  assign-Sound (some Target.the_new_password1) value s sound = sound
  assign-Sound (some Target.the_new_password2) value s sound = sound

  set_string_value-Sound :
      (field : ℕ) (value : Wide) (s : Credential)
      → IsSound Met s
      → IsSound Met (set_string_value field value s).0
  unfolding set_string_value
  set_string_value-Sound field value s sound =
      if_elim (λ (r : Credential × HResult). IsSound Met r.0) (leb fid_num_fields field)
        (λ _. sound)
        (λ _.
          if_elim (λ (r : Credential × HResult). IsSound Met r.0) s.retired (λ _. sound)
            (λ _. assign-Sound (target_of field) value s sound))

  changed-Sound :
      (packed : Hr Serialization) (s : Credential)
      → IsSound Met s
      → IsSound Met (changed packed s).0
  changed-Sound (ok _) s sound = sound
  changed-Sound (err _) s sound = sound

  logged_on-Sound :
      (packed : Hr Serialization) (s : Credential)
      → IsSound Met s
      → IsSound Met (logged_on packed s).0
  logged_on-Sound (ok _) s sound = sound
  logged_on-Sound (err _) s sound = sound

  log_on-Sound :
      (p : Packing) (s : Credential)
      → IsSound Met s
      → IsSound Met
          (if s.mfa_complete then logged_on (pack_logon p s) s else (s, reply s_ok none)).0
  log_on-Sound p s sound =
      if_elim (λ (r : Credential × Reply). IsSound Met r.0) s.mfa_complete
        (λ _. logged_on-Sound (pack_logon p s) s sound) (λ _. sound)

  serialize-Sound :
      (p : Packing) (mode : Mode) (s : Credential)
      → IsSound Met s
      → IsSound Met (serialize p mode s).0
  serialize-Sound p Mode.change_password s sound = changed-Sound (pack_password_change p s) s sound
  serialize-Sound p Mode.username_password s sound = log_on-Sound p s sound
  serialize-Sound p Mode.fido s sound = log_on-Sound p s sound

  get_serialization-Sound :
      (p : Packing) (s : Credential) → IsSound Met s → IsSound Met (get_serialization p s).0
  unfolding get_serialization
  get_serialization-Sound p s sound =
      if_elim (λ (r : Credential × Reply). IsSound Met r.0) s.retired (λ _. sound)
        (λ _. serialize-Sound p s.mode s sound)

  report_result-Sound :
      (status substatus : ℕ) (s : Credential)
      → IsSound Met s
      → IsSound Met (report_result status substatus s).0
  unfolding report_result reset_mfa set_mode clear_pin
  report_result-Sound status substatus s sound =
      let P : Credential × Reply → Type 0 = λ r. IsSound Met r.0 in
      if_elim P (status == 0) (λ _. reset_Sound)
        (λ _.
          if_elim P (must_change status substatus)
            (λ _. record {
              approved = elim [ inl h ↦ absurd (cc) | inr h ↦ sound.approved (inl h) ];
              pending = sound.pending;
            })
            (λ _. refused_Sound sound))

  Step-Sound : {s t : Credential} → IsStable Met → IsSound Met s → Step Met s t → IsSound Met t
  unfolding full_reset retire reset_mfa set_mode clear_pin
  Step-Sound stable sound (set_string_value_step field value s) =
      set_string_value-Sound field value s sound
  Step-Sound stable sound (connect_step env s met) = connect-Sound stable env met s sound
  Step-Sound stable sound (get_serialization_step p s) = get_serialization-Sound p s sound
  Step-Sound stable sound (report_result_step status substatus s) =
      report_result-Sound status substatus s sound
  Step-Sound stable sound (full_reset_step s) = reset_Sound
  Step-Sound stable sound (retire_step s) = reset_Sound

  Reachable-Sound : {s : Credential} → IsStable Met → Reachable Met s → IsSound Met s
  unfolding initialize set_mode
  Reachable-Sound stable (initial scenario username domain user_sid) = reset_Sound
  Reachable-Sound stable (next before step) = Step-Sound stable (Reachable-Sound stable before) step

-- Whatever calls LogonUI makes of a tile, in any order and with any answers of the broker, the accounts
-- and the keys: when GetSerialization finishes a logon or a change of password, the tile is not retired,
-- the account it names is one that `ResolveLocalAccount` returned, and is the tile's own where the tile
-- belongs to a user, and for that account's SID either the broker and the registry have both said that no key
-- is enforced, or a key has signed the broker's challenge for that SID and the broker has accepted the
-- assertion. One name resolves to one account throughout.
pub get_serialization-IsApproved :
    {Met : Environment → Type 0} (p : Packing) (s : Credential) (x : Serialization)
    → IsStable Met
    → Reachable Met s
    → (get_serialization p s).1.serialization ≡ some x
    → (s.retired ≡ false)
      × IsAccount Met s.user_sid s.username s.domain s.sid
      × IsApproved Met s.sid
get_serialization-IsApproved p s x stable reached finished =
    let (live, flag) = get_serialization-flag p s finished in
    let (account, approval) = (Reachable-Sound stable reached).approved flag in
    (live, account, approval)
