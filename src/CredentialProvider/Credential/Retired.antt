-- ===== src/CredentialProvider/Credential/Retired.antt =====
-- A retired tile: no call brings it back.
use windows_fido_logon.Base.{
  ℕ, ◌≡◌, refl, sym, ◌∙◌, true, not, Option, none, some, Wide, is_empty, bytes_eq, ◌==◌, leb,
  if_elim, arith,
}
use windows_fido_logon.CredentialProvider.HResult.{HResult, Hr, ok, err}
use windows_fido_logon.CredentialProvider.Ui.{fid_num_fields}
use windows_fido_logon.CredentialProvider.Credential.{
  Mode, Credential, initialize, set_mode, clear_pin, reset_mfa, full_reset, retire, Target,
  target_of, assign, set_string_value,
}
use windows_fido_logon.CredentialProvider.Credential.Connect.{Environment, connect}
use windows_fido_logon.CredentialProvider.Credential.Serialization.{
  Packing, Serialization, Reply, pack_logon, pack_password_change, changed, logged_on, serialize,
  get_serialization, must_change, report_result,
}
use windows_fido_logon.CredentialProvider.Credential.Steps.{
  Step, set_string_value_step, connect_step, get_serialization_step, report_result_step,
  full_reset_step, retire_step, Reachable, initial, next,
}
use windows_fido_logon.CredentialProvider.Credential.Flags.{connect-Same}
use windows_fido_logon.CredentialProvider.Credential.Cleared.{
  IsErased, full_reset-IsErased, report_result-IsErased,
}

report_result-retired :
    (status substatus : ℕ) (s : Credential)
    → (report_result status substatus s).0.retired ≡ s.retired
unfolding report_result reset_mfa set_mode clear_pin
report_result-retired status substatus s =
    let P : Credential × Reply → Type 0 = λ r. r.0.retired ≡ s.retired in
    if_elim P (status == 0) (λ _. refl)
      (λ _. if_elim P (must_change status substatus) (λ _. refl) (λ _. refl))

assign-retired :
    (target : Option Target) (value : Wide) (s : Credential)
    → (assign target value s).0.retired ≡ s.retired
unfolding full_reset reset_mfa set_mode clear_pin
assign-retired none value s = refl
assign-retired (some Target.the_username) value s =
    if_elim (λ (r : Credential × HResult). r.0.retired ≡ s.retired) (not (is_empty s.user_sid))
      (λ _. refl)
      (λ _.
        if_elim (λ (t : Credential). t.retired ≡ s.retired) (bytes_eq s.username value) (λ _. refl)
          (λ _. refl))
assign-retired (some Target.the_password) value s = refl
assign-retired (some Target.the_pin) value s = refl
assign-retired (some Target.the_new_password1) value s = refl
assign-retired (some Target.the_new_password2) value s = refl

log_on-same : (packed : Hr Serialization) (s : Credential) → (logged_on packed s).0 ≡ s
log_on-same (ok _) s = refl
log_on-same (err _) s = refl

changed-retired :
    (packed : Hr Serialization) (s : Credential) → (changed packed s).0.retired ≡ s.retired
changed-retired (ok _) s = refl
changed-retired (err _) s = refl

serialize-retired :
    (p : Packing) (mode : Mode) (s : Credential) → (serialize p mode s).0.retired ≡ s.retired
serialize-retired p Mode.change_password s = changed-retired (pack_password_change p s) s
serialize-retired p Mode.username_password s = ground (arith, log_on-same (pack_logon p s) s)
serialize-retired p Mode.fido s = ground (arith, log_on-same (pack_logon p s) s)

-- What every state keeps: a retired tile is erased.
abbrev Holds : Credential → Type 0
Holds s = s.retired ≡ true → IsErased s

set_string_value-Holds :
    (field : ℕ) (value : Wide) (s : Credential) → Holds s → Holds (set_string_value field value s).0
unfolding set_string_value
set_string_value-Holds field value s holds =
    let P : Credential × HResult → Type 0 = λ r. Holds r.0 in
    if_elim P (leb fid_num_fields field) (λ _. holds)
      (λ _.
        if_elim P s.retired (λ _. holds)
          (λ live retired. absurd (cc (live, retired, assign-retired (target_of field) value s))))

connect-Holds : (env : Environment) (s : Credential) → Holds s → Holds (connect env s).0
unfolding connect
connect-Holds env s holds =
    if_elim (λ (r : Credential × HResult). r.0.retired ≡ s.retired → Holds r.0) s.retired
      (λ _ _. holds) (λ live same retired. absurd (cc (live, same, retired))) (connect-Same env s).0

get_serialization-Holds : (p : Packing) (s : Credential) → Holds s → Holds (get_serialization p s).0
unfolding get_serialization
get_serialization-Holds p s holds =
    if_elim (λ (r : Credential × Reply). Holds r.0) s.retired (λ _. holds)
      (λ live retired. absurd (cc (live, retired, serialize-retired p s.mode s)))

Step-Holds : {Met : Environment → Type 0} {s t : Credential} → Holds s → Step Met s t → Holds t
unfolding retire
Step-Holds holds (set_string_value_step field value s) retired =
    set_string_value-Holds field value s holds retired
Step-Holds holds (connect_step env s met) retired = connect-Holds env s holds retired
Step-Holds holds (get_serialization_step p s) retired = get_serialization-Holds p s holds retired
Step-Holds holds (report_result_step status substatus s) retired =
    report_result-IsErased status substatus s
      (holds (sym (report_result-retired status substatus s) ∙ retired))
Step-Holds holds (full_reset_step s) retired = full_reset-IsErased s
Step-Holds holds (retire_step s) retired = full_reset-IsErased (record s { retired = true })

-- However a tile came to be retired and whatever is called of it afterwards, it holds no password, no PIN
-- and no new password, its fields show none, and neither a logon nor a change of password is approved.
pub Reachable-IsErased :
    {Met : Environment → Type 0} {s : Credential} → Reachable Met s → s.retired ≡ true → IsErased s
unfolding initialize set_mode
Reachable-IsErased (initial scenario username domain user_sid) retired = absurd (cc)
Reachable-IsErased (next before step) retired = Step-Holds (Reachable-IsErased before) step retired
