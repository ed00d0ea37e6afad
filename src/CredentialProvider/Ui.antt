-- ===== src/CredentialProvider/Ui.antt =====
-- CredentialProvider/scenario.h, and the texts of CredentialProvider/Localization.h that a tile shows.
-- A field is its number, and a text of the language in use is its identifier.
use windows_fido_logon.Base.{ℕ, List, [], ◌∷◌, Wide}

abbrev pub fid_logo : ℕ
fid_logo = 0

abbrev pub fid_small_text : ℕ
fid_small_text = 2

abbrev pub fid_username : ℕ
fid_username = 3

abbrev pub fid_password : ℕ
fid_password = 4

abbrev pub fid_fido_pin : ℕ
fid_fido_pin = 5

abbrev pub fid_new_pass_1 : ℕ
fid_new_pass_1 = 6

abbrev pub fid_new_pass_2 : ℕ
fid_new_pass_2 = 7

abbrev pub fid_submit_button : ℕ
fid_submit_button = 8

abbrev pub fid_provider_label : ℕ
fid_provider_label = 9

abbrev pub fid_num_fields : ℕ
fid_num_fields = 10

pub data UiText : Type 0 where
  select_user_and_password_prompt enter_password_prompt local_accounts_only sign_in_failed : UiText
  sign_in_verification_unavailable mfa_policy_unavailable preparing_windows_sign_in : UiText
  no_security_key_detected touch_key key_verification_failed enter_pin_and_touch : UiText
  key_verification_incomplete key_verified password_update_failed password_must_change : UiText
  password_verification_failed verify_key_button change_password_button continue_button : UiText
  provider_label : UiText

-- What a field shows: a string, or a text of the language in use.
pub data Shown : Type 0 where
  text : Wide → Shown
  ui_text : UiText → Shown

pub data FieldState : Type 0 where
  hidden display_in_selected_tile display_in_both : FieldState

pub data InteractiveState : Type 0 where
  plain focused : InteractiveState

pub record FieldStatePair : Type 0 where
  pub cpfs : FieldState
  pub cpfis : InteractiveState

abbrev pub pair : FieldState → InteractiveState → FieldStatePair
pair cpfs cpfis = record { cpfs = cpfs; cpfis = cpfis }

-- s_rgScenarioUsernamePassword, s_rgScenarioFido and s_rgScenarioChangePassword.
abbrev pub scenario_username_password : List FieldStatePair
scenario_username_password =
    pair display_in_both plain
    ∷ pair hidden plain
    ∷ pair display_in_selected_tile plain
    ∷ pair display_in_selected_tile focused
    ∷ pair display_in_selected_tile plain
    ∷ pair hidden plain
    ∷ pair hidden plain
    ∷ pair hidden plain
    ∷ pair display_in_selected_tile plain
    ∷ pair hidden plain
    ∷ []

abbrev pub scenario_fido : List FieldStatePair
scenario_fido =
    pair display_in_both plain
    ∷ pair hidden plain
    ∷ pair display_in_selected_tile plain
    ∷ pair hidden plain
    ∷ pair hidden plain
    ∷ pair display_in_selected_tile focused
    ∷ pair hidden plain
    ∷ pair hidden plain
    ∷ pair display_in_selected_tile plain
    ∷ pair hidden plain
    ∷ []

abbrev pub scenario_change_password : List FieldStatePair
scenario_change_password =
    pair display_in_both plain
    ∷ pair hidden plain
    ∷ pair display_in_selected_tile plain
    ∷ pair hidden plain
    ∷ pair hidden plain
    ∷ pair hidden plain
    ∷ pair display_in_selected_tile focused
    ∷ pair display_in_selected_tile plain
    ∷ pair display_in_selected_tile plain
    ∷ pair hidden plain
    ∷ []
