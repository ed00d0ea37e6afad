-- ===== src/CredentialProvider/Credential/Cleared.antt =====
-- What a tile forgets, and that a retired tile stays so.
use windows_fido_logon.Base.{ℕ, ◌≡◌, refl, false, [], ◌==◌, if_elim}
use windows_fido_logon.CredentialProvider.Ui.{
  fid_password, fid_fido_pin, fid_new_pass_1, fid_new_pass_2, UiText, text,
}
use windows_fido_logon.CredentialProvider.Credential.{
  Credential, set_mode, clear_pin, reset_mfa, full_reset,
}
use windows_fido_logon.CredentialProvider.Credential.Serialization.{
  Reply, must_change, failure_text, report_success, report_must_change, report_failure,
  report_result,
}

-- No secret is left in the tile's state or in what its fields show, and nothing of a sign-in.
pub record IsErased (s : Credential) : Type 0 where
  pub no_password : (s.password ≡ []) × (s.strings fid_password ≡ text [])
  pub no_pin : (s.fido_pin ≡ []) × (s.strings fid_fido_pin ≡ text [])
  pub no_new_password1 : (s.new_password1 ≡ []) × (s.strings fid_new_pass_1 ≡ text [])
  pub no_new_password2 : (s.new_password2 ≡ []) × (s.strings fid_new_pass_2 ≡ text [])
  pub no_approval : (s.mfa_complete ≡ false) × (s.password_change_authorized ≡ false)

pub full_reset-IsErased : (s : Credential) → IsErased (full_reset s)
unfolding full_reset reset_mfa set_mode clear_pin
full_reset-IsErased s = record {
  no_password = (refl, refl);
  no_pin = (refl, refl);
  no_new_password1 = (refl, refl);
  no_new_password2 = (refl, refl);
  no_approval = (refl, refl);
}

report_success-IsErased : (s : Credential) → IsErased (report_success s).0
unfolding reset_mfa clear_pin
report_success-IsErased s = record {
  no_password = (refl, refl);
  no_pin = (refl, refl);
  no_new_password1 = (refl, refl);
  no_new_password2 = (refl, refl);
  no_approval = (refl, refl);
}

report_must_change-IsErased : (s : Credential) → IsErased s → IsErased (report_must_change s).0
unfolding set_mode
report_must_change-IsErased s e = record {
  no_password = e.no_password;
  no_pin = e.no_pin;
  no_new_password1 = e.no_new_password1;
  no_new_password2 = e.no_new_password2;
  no_approval = (refl, e.no_approval.0);
}

report_failure-IsErased :
    (label : UiText) (s : Credential) → IsErased s → IsErased (report_failure label s).0
unfolding reset_mfa set_mode clear_pin
report_failure-IsErased label s e = record {
  no_password = (refl, refl);
  no_pin = (refl, refl);
  no_new_password1 = (refl, refl);
  no_new_password2 = (refl, refl);
  no_approval = (refl, e.no_approval.1);
}

clear_pin-IsErased : (s : Credential) → IsErased s → IsErased (clear_pin s)
unfolding clear_pin
clear_pin-IsErased s e = record {
  no_password = e.no_password;
  no_pin = (refl, refl);
  no_new_password1 = e.no_new_password1;
  no_new_password2 = e.no_new_password2;
  no_approval = e.no_approval;
}

pub report_result-IsErased :
    (status substatus : ℕ) (s : Credential)
    → IsErased s
    → IsErased (report_result status substatus s).0
unfolding report_result
report_result-IsErased status substatus s e =
    let P : Credential × Reply → Type 0 = λ r. IsErased r.0 in
    if_elim P (status == 0) (λ _. report_success-IsErased (clear_pin s))
      (λ _.
        if_elim P (must_change status substatus)
          (λ _. report_must_change-IsErased (clear_pin s) (clear_pin-IsErased s e))
          (λ _.
            report_failure-IsErased (failure_text status substatus) (clear_pin s)
              (clear_pin-IsErased s e)))
