-- ===== src/CredentialProvider/Credential.antt =====
-- CredentialProvider/core/CCredential.cpp: the state of a tile, and what its operations share. The
-- copies of strings succeed, and what LogonUI is told of a change is not part of the state.
pub mod Approved
pub mod Changed
pub mod Cleared
pub mod Completes
pub mod Connect
pub mod Connected
pub mod Flags
pub mod Focus
pub mod LocalUser
pub mod Packed
pub mod Retired
pub mod Safety
pub mod Serialization
pub mod Steps
use windows_fido_logon.Base.{
  ℕ, zero, suc, ◌-◌, Bool, true, false, not, ◌&&◌, Option, none, some, List, [], ◌∷◌, Bytes, Wide,
  bytes_eq, get_or, is_empty, leb, ◌==◌, if◌then◌else◌,
}
use windows_fido_logon.LocalFidoTypes.{AuthenticationChallenge}
use windows_fido_logon.CredentialProviderFilter.{Scenario}
use windows_fido_logon.CredentialProvider.HResult.{
  HResult, s_ok, s_false, e_invalidarg, e_unexpected, e_accessdenied,
}
use windows_fido_logon.CredentialProvider.Ui.{
  fid_small_text, fid_username, fid_password, fid_fido_pin, fid_new_pass_1, fid_new_pass_2,
  fid_submit_button, fid_provider_label, fid_num_fields, UiText, Shown, text, ui_text, FieldState,
  InteractiveState, focused, hidden, plain, FieldStatePair, pair, scenario_username_password,
  scenario_fido, scenario_change_password,
}

pub data Mode : Type 0 where
  username_password fido change_password : Mode

-- A FIDODevice: its path, and `HasPin`.
pub record Device : Type 0 where
  pub path : Bytes
  pub has_pin : Bool

-- The fields of CCredential and of its Configuration that the operations use.
pub record Credential : Type 0 where
  pub scenario : Scenario
  pub mode : Mode
  pub username : Wide
  pub domain : Wide
  pub password : Wide
  pub fido_pin : Wide
  pub new_password1 : Wide
  pub new_password2 : Wide
  pub states : List FieldStatePair
  -- What each of the ten fields shows.
  pub strings : ℕ → Shown
  pub challenge : Option AuthenticationChallenge
  pub devices : List Device
  pub selected_device : Option ℕ
  pub user_sid : Wide
  pub sid : Wide
  pub retired : Bool
  pub mfa_complete : Bool
  pub password_change_authorized : Bool

abbrev pub set_at : ℕ → Shown → (ℕ → Shown) → ℕ → Shown
set_at n shown strings field = if field == n then shown else strings field

-- `ReplaceFieldString` on a field of the tile.
abbrev pub replace_field_string : ℕ → Shown → Credential → Credential
replace_field_string field shown s = record s { strings = set_at field shown s.strings }

abbrev pub initial_prompt : Credential → UiText
initial_prompt s =
    if is_empty s.user_sid
    then UiText.select_user_and_password_prompt
    else UiText.enter_password_prompt

-- `SetStatus`; the query's own status line is not modelled.
abbrev pub set_status : Shown → Credential → Credential
set_status shown s = replace_field_string fid_small_text shown s

-- The table that a mode asks for.
abbrev pub requested : Mode → List FieldStatePair
requested Mode.fido = scenario_fido
requested Mode.change_password = scenario_change_password
requested Mode.username_password = scenario_username_password

-- The tile of a user hides the name and focuses the password.
abbrev pub own_states : Bool → List FieldStatePair → List FieldStatePair
own_states true (logo ∷ large ∷ small ∷ username ∷ password ∷ rest) =
    logo ∷ large ∷ small ∷ pair hidden plain ∷ pair password.cpfs focused ∷ rest
own_states _ states = states

abbrev pub is_username_password : Mode → Bool
is_username_password Mode.username_password = true
is_username_password _ = false

abbrev pub submit_label : Mode → UiText
submit_label Mode.fido = UiText.verify_key_button
submit_label Mode.change_password = UiText.change_password_button
submit_label Mode.username_password = UiText.continue_button

-- `SetMode`.
unfoldable pub set_mode : Mode → Credential → Credential
set_mode mode s = record s {
  mode = mode;
  states = own_states (is_username_password mode && not (is_empty s.user_sid)) (requested mode);
  strings = set_at fid_submit_button (ui_text (submit_label mode)) s.strings;
}

-- `ClearPin`.
unfoldable pub clear_pin : Credential → Credential
clear_pin s = replace_field_string fid_fido_pin (text []) (record s { fido_pin = [] })

-- `ResetMfa`.
unfoldable pub reset_mfa : Credential → Credential
unfolding clear_pin
reset_mfa s = set_status (text []) (
    clear_pin
      (record s { mfa_complete = false; challenge = none; devices = []; selected_device = none }))

-- `Configuration::ClearSecrets`.
abbrev pub clear_secrets : Credential → Credential
clear_secrets s = record s { password = []; fido_pin = []; new_password1 = []; new_password2 = [] }

-- The three fields of passwords are emptied.
abbrev pub clear_password_fields : Credential → Credential
clear_password_fields s =
    replace_field_string fid_new_pass_2 (text []) (
      replace_field_string fid_new_pass_1 (text []) (replace_field_string fid_password (text []) s))

-- `FullReset`, which `SetDeselected` and `Disconnect` call.
unfoldable pub full_reset : Credential → Credential
unfolding reset_mfa set_mode
full_reset s =
    let cleared =
      clear_password_fields
        (clear_secrets (record (reset_mfa s) { password_change_authorized = false })) in
    let idle = set_mode Mode.username_password (record cleared { sid = [] }) in
    set_status (ui_text (initial_prompt idle)) idle

-- `Retire`.
unfoldable pub retire : Credential → Credential
unfolding full_reset
retire s = full_reset (record s { retired = true })

-- `Initialize` first empties every string.
abbrev pub no_strings : ℕ → Shown
no_strings field = text []

-- The state of a new CCredential of a tile.
abbrev pub new_credential : Scenario → Wide → Wide → Wide → Wide → Credential
new_credential scenario username domain password user_sid = record {
  scenario = scenario;
  mode = Mode.username_password;
  username = username;
  domain = domain;
  password = password;
  fido_pin = [];
  new_password1 = [];
  new_password2 = [];
  states = scenario_username_password;
  strings = no_strings;
  challenge = none;
  devices = [];
  selected_device = none;
  user_sid = user_sid;
  sid = [];
  retired = false;
  mfa_complete = false;
  password_change_authorized = false;
}

-- `Initialize` fills the strings and sets the mode.
abbrev pub fill : Credential → Credential
fill s = replace_field_string fid_provider_label (ui_text UiText.provider_label) (
    replace_field_string fid_password (text s.password) (
      replace_field_string fid_username (text s.username)
        (set_status (ui_text (initial_prompt s)) s)))

unfoldable pub initialize : Scenario → Wide → Wide → Wide → Wide → Credential
unfolding set_mode
initialize scenario username domain password user_sid =
    set_mode Mode.username_password
      (fill (new_credential scenario username domain password user_sid))

-- `SetStringValue` of a value that is not null.
abbrev pub change_username : Wide → Credential → Credential
change_username value s =
    let reset = if bytes_eq s.username value then s else full_reset s in
    replace_field_string fid_username (text value) (record reset { username = value })

-- The string that the `switch` selects for a field.
pub data Target : Type 0 where
  the_username the_password the_pin the_new_password1 the_new_password2 : Target

abbrev pub target_of : ℕ → Option Target
target_of field =
    if field == fid_username
    then some Target.the_username
    else if field == fid_password
    then some Target.the_password
    else if field == fid_fido_pin
    then some Target.the_pin
    else if field == fid_new_pass_1
    then some Target.the_new_password1
    else if field == fid_new_pass_2
    then some Target.the_new_password2
    else none

abbrev pub assign : Option Target → Wide → Credential → Credential × HResult
assign none value s = (s, e_invalidarg)
assign (some Target.the_username) value s =
    if not (is_empty s.user_sid) then (s, e_accessdenied) else (change_username value s, s_ok)
assign (some Target.the_password) value s =
    (replace_field_string fid_password (text value) (record s { password = value }), s_ok)
assign (some Target.the_pin) value s =
    (replace_field_string fid_fido_pin (text value) (record s { fido_pin = value }), s_ok)
assign (some Target.the_new_password1) value s =
    (replace_field_string fid_new_pass_1 (text value) (record s { new_password1 = value }), s_ok)
assign (some Target.the_new_password2) value s =
    (replace_field_string fid_new_pass_2 (text value) (record s { new_password2 = value }), s_ok)

unfoldable pub set_string_value : ℕ → Wide → Credential → Credential × HResult
set_string_value field value s =
    if leb fid_num_fields field
    then (s, e_invalidarg)
    else if s.retired
    then (s, e_unexpected)
    else assign (target_of field) value s

-- `GetFieldState`, `GetStringValue` and `GetSubmitButtonValue`; `none` is E_INVALIDARG.
pub get_field_state : ℕ → Credential → Option FieldStatePair
get_field_state field s =
    if leb fid_num_fields field then none else some (get_or s.states field (pair hidden plain))

pub get_string_value : ℕ → Credential → Option Shown
get_string_value field s = if leb fid_num_fields field then none else some (s.strings field)

abbrev pub adjacent_to : Mode → ℕ
adjacent_to Mode.change_password = fid_new_pass_2
adjacent_to Mode.fido = fid_fido_pin
adjacent_to Mode.username_password = fid_password

pub get_submit_button_value : ℕ → Credential → Option ℕ
get_submit_button_value field s =
    if field == fid_submit_button then some (adjacent_to s.mode) else none

-- `GetUserSid`, `SetSelected`.
pub get_user_sid : Credential → HResult × Option Wide
get_user_sid s = if is_empty s.user_sid then (s_false, none) else (s_ok, some s.user_sid)

pub set_selected : Credential → HResult
set_selected s = if s.retired then e_unexpected else s_ok
