-- ===== src/CredentialProvider/Credential/Focus.antt =====
-- What a tile shows in each mode.
use windows_fido_logon.Base.{
  ℕ, ◌+◌, ◌≡◌, ◌≢◌, refl, Bool, true, false, not, ◌&&◌, some, List, [], ◌∷◌, get_or, length,
  is_empty, if◌then◌else◌,
}
use windows_fido_logon.CredentialProvider.Ui.{
  fid_num_fields, fid_submit_button, hidden, focused, plain, FieldStatePair, pair,
}
use windows_fido_logon.CredentialProvider.Credential.{
  Mode, Credential, set_mode, requested, own_states, is_username_password, get_submit_button_value,
}

abbrev is_focused : FieldStatePair → Bool
is_focused p = elim p.cpfis as (λ _. Bool) [ plain ↦ false | focused ↦ true ]

-- The fields that have the focus.
pub focused_fields : ℕ → List FieldStatePair → List ℕ
focused_fields n [] = []
focused_fields n (p ∷ states) =
    let rest = focused_fields (1 + n) states in if is_focused p then n ∷ rest else rest

-- One field has the focus and is displayed, the submit button stands beside a field that is displayed, and
-- every field has a state.
pub record IsUsable (s : Credential) : Type 0 where
  pub focus : ℕ
  pub button : ℕ
  pub one : focused_fields 0 s.states ≡ focus ∷ []
  pub displayed : (get_or s.states focus (pair hidden plain)).cpfs ≢ hidden
  pub beside : get_submit_button_value fid_submit_button s ≡ some button
  pub button_displayed : (get_or s.states button (pair hidden plain)).cpfs ≢ hidden
  pub complete : length s.states ≡ fid_num_fields

IsUsable-as :
    (own : Bool) (mode : Mode) (s : Credential)
    → IsUsable (record s {
      mode = mode;
      states = own_states (is_username_password mode && own) (requested mode);
    })
unfolding focused_fields get_submit_button_value
IsUsable-as true Mode.username_password s = record {
  focus = 4;
  button = 4;
  one = refl;
  displayed = λ h. absurd (cc);
  beside = refl;
  button_displayed = λ h. absurd (cc);
  complete = refl;
}
IsUsable-as false Mode.username_password s = record {
  focus = 3;
  button = 4;
  one = refl;
  displayed = λ h. absurd (cc);
  beside = refl;
  button_displayed = λ h. absurd (cc);
  complete = refl;
}
IsUsable-as true Mode.fido s = record {
  focus = 5;
  button = 5;
  one = refl;
  displayed = λ h. absurd (cc);
  beside = refl;
  button_displayed = λ h. absurd (cc);
  complete = refl;
}
IsUsable-as false Mode.fido s = record {
  focus = 5;
  button = 5;
  one = refl;
  displayed = λ h. absurd (cc);
  beside = refl;
  button_displayed = λ h. absurd (cc);
  complete = refl;
}
IsUsable-as true Mode.change_password s = record {
  focus = 6;
  button = 7;
  one = refl;
  displayed = λ h. absurd (cc);
  beside = refl;
  button_displayed = λ h. absurd (cc);
  complete = refl;
}
IsUsable-as false Mode.change_password s = record {
  focus = 6;
  button = 7;
  one = refl;
  displayed = λ h. absurd (cc);
  beside = refl;
  button_displayed = λ h. absurd (cc);
  complete = refl;
}

-- SetMode leaves every tile usable: exactly one field has the focus and it is displayed, the submit button
-- stands beside a displayed field, and the ten fields all have a state.
pub set_mode-IsUsable : (mode : Mode) (s : Credential) → IsUsable (set_mode mode s)
unfolding set_mode get_submit_button_value
set_mode-IsUsable mode s =
    IsUsable-as (not (is_empty s.user_sid)) mode (record s { strings = (set_mode mode s).strings })
