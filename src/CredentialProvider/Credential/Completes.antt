-- ===== src/CredentialProvider/Credential/Completes.antt =====
-- A sign-in with a key and a PIN that goes through.
use windows_fido_logon.Base.{
  ℕ, ◌≡◌, refl, sym, ap, subst, ◌∙◌, true, false, not, ◌&&◌, ◌||◌, none, some, [], ◌∷◌, Wide,
  is_empty, if_false,
}
use windows_fido_logon.LocalFidoTypes.{FidoSignResponse, AuthenticationChallenge}
use windows_fido_logon.CredentialProvider.HResult.{HResult, s_ok}
use windows_fido_logon.CredentialProvider.Ui.{fid_fido_pin, UiText, text}
use windows_fido_logon.CredentialProvider.Credential.{
  Mode, Device, Credential, set_mode, clear_pin, replace_field_string, set_string_value,
}
use windows_fido_logon.CredentialProvider.Credential.Packed.{IsPackable, pack_logon-ok}
use windows_fido_logon.CredentialProvider.Credential.Serialization.{
  Packing, Serialization, Reply, logged_on, get_serialization,
}
use windows_fido_logon.CredentialProvider.Credential.Connect.{
  Account, found, Environment, device_at, show, touch, connect,
}

-- A tile with a name and a password, and an environment in which nothing fails and nobody cancels: the
-- account has one key, with a PIN, and the broker accepts what the key signs with it.
pub record IsReady (env : Environment) (s : Credential) (a : Account) (c : AuthenticationChallenge)
    (device : Device) (pin : Wide) (assertion : FidoSignResponse) : Type 0 where
  pub live : s.retired ≡ false
  pub first : s.mode ≡ Mode.username_password
  pub named : (is_empty s.username || is_empty s.password) ≡ false
  pub idle : s.challenge ≡ none
  pub patient : (n : ℕ) → env.cancelled n ≡ false
  pub known : env.resolve_local_account s.username ≡ found a
  pub account_named : (is_empty a.username || is_empty s.password) ≡ false
  pub own : (not (is_empty s.user_sid) && not (env.same_text a.sid s.user_sid)) ≡ false
  pub challenged : env.begin_authentication a.sid ≡ some c
  pub enforced : c.enforced ≡ true
  pub one_key : env.get_devices ≡ device ∷ []
  pub with_pin : device.has_pin ≡ true
  pub signs : env.sign device c.request c.origin pin ≡ some assertion
  pub accepts : env.finish_authentication c.session_id assertion ≡ true

-- The tile that waits for the PIN.
abbrev pub waiting : Credential → Account → AuthenticationChallenge → Device → Credential
waiting s a c device = show UiText.enter_pin_and_touch (
    set_mode Mode.fido (record s {
      username = a.username;
      domain = a.computer;
      sid = a.sid;
      challenge = some c;
      devices = device ∷ [];
      selected_device = some 0;
    }))

module _ (env : Environment) (s : Credential) (a : Account) (c : AuthenticationChallenge)
    (device : Device) (pin : Wide) (assertion : FidoSignResponse)
    (r : IsReady env s a c device pin assertion) where
  connect-waiting : connect env s ≡ (waiting s a c device, s_ok)
  unfolding connect
  connect-waiting =
      rw
        (
          r.live,
          r.patient 0,
          r.first,
          r.named,
          r.idle,
          r.known,
          r.own,
          r.challenged,
          r.patient 1,
          r.enforced,
          r.one_key,
          r.with_pin,
        )
        refl

  touch-completes :
      (t : Credential)
      → t.fido_pin ≡ pin
      → touch env c (some device) t ≡ (
        show UiText.key_verified (record (clear_pin (show UiText.touch_key t)) {
          mfa_complete = true;
          challenge = none;
        }),
        s_ok,
      )
  touch-completes t typed = rw (r.patient 3, typed, r.signs, r.accepts, r.patient 4) refl

  -- The tile once the PIN is typed, and once the key is verified.
  abbrev with_typed_pin : Credential
  with_typed_pin = (set_string_value fid_fido_pin pin (connect env s).0).0

  abbrev typed_pin : Credential
  typed_pin =
      replace_field_string fid_fido_pin (text pin)
        (record (waiting s a c device) { fido_pin = pin })

  with_typed_pin_lem : with_typed_pin ≡ typed_pin
  unfolding set_string_value set_mode
  with_typed_pin_lem =
      subst
        (λ (result : Credential × HResult).
          (set_string_value fid_fido_pin pin result.0).0 ≡ typed_pin)
        (sym connect-waiting) (rw r.live refl)

  abbrev verified_tile : Credential
  verified_tile = show UiText.key_verified (record (clear_pin (show UiText.touch_key typed_pin)) {
    mfa_complete = true;
    challenge = none;
  })

  connect-verified : connect env typed_pin ≡ (verified_tile, s_ok)
  unfolding connect set_mode device_at
  connect-verified =
      if_false _ _ r.live
      ∙ if_false _ _ (r.patient 0)
      ∙ if_false _ _ r.account_named
      ∙ touch-completes typed_pin refl

  connect-connect : connect env with_typed_pin ≡ (verified_tile, s_ok)
  connect-connect = rw with_typed_pin_lem connect-verified

  serialization-finishes :
      (p : Packing) (protected : Wide)
      → IsPackable p verified_tile protected
      → (x : Serialization) × ((get_serialization p verified_tile).1.serialization ≡ some x)
  unfolding get_serialization set_mode clear_pin
  serialization-finishes p protected packable =
      let (x, packs) = pack_logon-ok p verified_tile protected packable in
      (
        x,
        ap (λ (result : Credential × Reply). result.1.serialization)
            (if_false _ _ r.live ∙ ap (λ packed. logged_on packed verified_tile) packs),
      )

-- A sign-in with a key that has a PIN goes through: where nobody cancels, the name resolves to the tile's
-- account, one key is there and the broker accepts what it signs with the PIN, the first Connect returns
-- S_OK and shows the PIN field, the PIN is taken, the second Connect returns S_OK, and, where the packing
-- is granted what it asks for, GetSerialization then finishes a logon. The tile starts with a name and a
-- password, without a challenge.
pub sign_in-finishes :
    (env : Environment) (s : Credential) (a : Account) (c : AuthenticationChallenge)
    (device : Device) (pin : Wide) (assertion : FidoSignResponse) (p : Packing) (protected : Wide)
    → IsReady env s a c device pin assertion
    → let shown = connect env s in
      let typed = set_string_value fid_fido_pin pin shown.0 in
      let done = connect env typed.0 in
      IsPackable p done.0 protected
      → (shown.1 ≡ s_ok)
        × (shown.0.mode ≡ Mode.fido)
        × (typed.1 ≡ s_ok)
        × (done.1 ≡ s_ok)
        × ((x : Serialization) × ((get_serialization p done.0).1.serialization ≡ some x))
unfolding set_string_value set_mode
sign_in-finishes env s a c device pin assertion p protected r packable =
    let first = connect-waiting env s a c device pin assertion r in
    let second = connect-connect env s a c device pin assertion r in
    (
      ap (λ (result : Credential × HResult). result.1) first,
      ap (λ (result : Credential × HResult). result.0.mode) first,
      subst
          (λ (result : Credential × HResult). (set_string_value fid_fido_pin pin result.0).1 ≡ s_ok)
          (sym first) (rw r.live refl),
      ap (λ (result : Credential × HResult). result.1) second,
      subst
          (λ (result : Credential × HResult).
            IsPackable p result.0 protected
            → (x : Serialization) × ((get_serialization p result.0).1.serialization ≡ some x))
          (sym second) (serialization-finishes env s a c device pin assertion r p protected)
          packable,
    )
