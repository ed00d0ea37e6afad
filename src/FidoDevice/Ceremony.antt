-- ===== src/FidoDevice/Ceremony.antt =====
-- `FIDODevice::Sign` and `FIDODevice::SetPin`, and what a signature answers.
use windows_fido_logon.Base.{
  ◌≡◌, ◌≢◌, refl, sym, subst, ◌∙◌, true, false, not, ◌||◌, Option, none, some, List, [], ◌∷◌, ◌++◌,
  map, All, Bytes, codes, is_empty, if◌then◌else◌, if_elim, if_false,
}
use windows_fido_logon.LocalFidoTypes.{FidoAssertionData, FidoSignResponse, SignRequest}
use windows_fido_logon.Convert.{base64url_encode, base64url_decode}
use windows_fido_logon.External.Fido.{DeviceLibrary}
use windows_fido_logon.FidoDevice.{
  invalid_argument, no_credentials, Result, ok, err, ◌>>=◌, >>=-eq-ok, checked, present,
  ceremony_timeout_ms, FidoDevice, usable, open_device,
}

-- The client data of an assertion; 34 is the quotation mark.
abbrev pub quoted : Bytes → Bytes
quoted text = 34 ∷ (text ++ (34 ∷ []))

abbrev pub client_data_of : Bytes → Bytes → Bytes
client_data_of challenge origin =
    codes "{"
    ++ quoted (codes "type")
    ++ codes ":"
    ++ quoted (codes "webauthn.get")
    ++ codes ","
    ++ quoted (codes "challenge")
    ++ codes ":"
    ++ quoted challenge
    ++ codes ","
    ++ quoted (codes "origin")
    ++ codes ":"
    ++ quoted origin
    ++ codes ","
    ++ quoted (codes "crossOrigin")
    ++ codes ":false}"

abbrev pub assertion_of : Bytes × Bytes × Bytes × Bytes → FidoAssertionData
assertion_of (id, auth_data, signature, user_id) = record {
  credential_id = base64url_encode false id;
  authenticator_data = base64url_encode false auth_data;
  signature_data = base64url_encode false signature;
  user_handle = base64url_encode false user_id;
  username = [];
  display_name = [];
}

abbrev pub empty_response : FidoSignResponse
empty_response = record { client_data = []; assertions = [] }

-- An empty PIN is a null pointer.
abbrev pub pin_pointer : Bytes → Option Bytes
pin_pointer pin = if is_empty pin then none else some pin

ok-injective {ℓ} : {A : Type ℓ} {a b : A} → ok a ≡ ok b → a ≡ b
ok-injective h = cc

module _ (fido : DeviceLibrary) where
  open fido use {Assert, Dev}

  -- The loop over the allowed credentials; `ok none` where an identifier does not decode, which ends `Sign` with
  -- the status at hand, FIDO_OK.
  unfoldable pub allow_all : List Bytes → Assert → Result (Option Assert)
  allow_all [] assertion = ok (some assertion)
  allow_all (allowed ∷ rest) assertion =
      let id = base64url_decode allowed in
      if is_empty id
      then ok none
      else (checked (fido.assert_allow_cred assertion id) >>= allow_all rest)

  abbrev pub response_of : Bytes → List (Bytes × Bytes × Bytes × Bytes) → Result FidoSignResponse
  response_of client_data [] = err no_credentials
  response_of client_data (item ∷ items) = ok (record {
    client_data = base64url_encode false client_data;
    assertions = map assertion_of (item ∷ items);
  })

  unfoldable pub get_assertion :
      Dev → SignRequest → Bytes → Bytes → Option Assert → Result FidoSignResponse
  get_assertion device request origin pin none = ok empty_response
  get_assertion device request origin pin (some allowed) = do
    with_data ←
        checked (fido.assert_set_clientdata allowed (client_data_of request.challenge origin))
    with_rp ← checked (fido.assert_set_rp with_data request.rp_id)
    with_up ← checked (fido.assert_set_up with_rp)
    with_uv ← checked (fido.assert_set_uv with_up)
    patient ← checked (fido.dev_set_timeout device ceremony_timeout_ms)
    signed ← checked (fido.dev_get_assert patient with_uv (pin_pointer pin))
    response_of (client_data_of request.challenge origin) (fido.assert_items signed)

  -- `Sign`.
  unfoldable pub sign : FidoDevice → SignRequest → Bytes → Bytes → Result FidoSignResponse
  sign device request origin pin =
      if not (usable fido device) || is_empty request.allow_credentials
      then err invalid_argument
      else (do
        opened ← open_device fido device.path
        fresh ← present fido.assert_new
        allowed ← allow_all request.allow_credentials fresh
        get_assertion opened request origin pin allowed)

  -- `SetPin`: the device that has a PIN from then on; an exception is a failure.
  unfoldable pub set_pin : FidoDevice → Bytes → Bytes → Result FidoDevice
  set_pin device new_pin old_pin = if is_empty new_pin then err invalid_argument else (do
    opened ← open_device fido device.path
    done ← checked (fido.dev_set_pin opened new_pin (pin_pointer old_pin), device)
    ok (record done { has_pin = true; has_uv = true }))

  -- Every identifier decodes.
  abbrev pub AllDecode : List Bytes → Type 0
  AllDecode ids = All (λ id. is_empty (base64url_decode id) ≡ false) ids

  allow_all-some :
      (ids : List Bytes) (assertion : Assert) (allowed : Option Assert)
      → AllDecode ids
      → allow_all ids assertion ≡ ok allowed
      → (a : Assert) × (allowed ≡ some a)
  unfolding allow_all
  allow_all-some [] assertion allowed decode h = (assertion, sym (ok-injective h))
  allow_all-some (id ∷ ids) assertion allowed (decodes, decode) h =
      let (next, _, h₁) =
        >>=-eq-ok (checked (fido.assert_allow_cred assertion (base64url_decode id))) (allow_all ids)
          (sym (if_false _ _ decodes) ∙ h) in
      allow_all-some ids next allowed decode h₁

  -- A response that answers a challenge: its client data is the ceremony's, and it holds an assertion.
  pub record IsAnswer (request : SignRequest) (origin : Bytes) (response : FidoSignResponse)
      : Type 0 where
    pub client_data :
        response.client_data ≡ base64url_encode false (client_data_of request.challenge origin)
    pub has_assertion : response.assertions ≢ []

  response_of-IsAnswer :
      (request : SignRequest) (origin : Bytes) (items : List (Bytes × Bytes × Bytes × Bytes))
      (response : FidoSignResponse)
      → response_of (client_data_of request.challenge origin) items ≡ ok response
      → IsAnswer request origin response
  response_of-IsAnswer request origin [] response h = absurd (cc)
  response_of-IsAnswer request origin (item ∷ items) response h =
      subst (IsAnswer request origin) (ok-injective h)
        (record { client_data = refl; has_assertion = λ e. absurd (cc) })

  get_assertion-IsAnswer :
      (device : Dev) (request : SignRequest) (origin pin : Bytes) (a : Assert)
      (response : FidoSignResponse)
      → get_assertion device request origin pin (some a) ≡ ok response
      → IsAnswer request origin response
  unfolding get_assertion
  get_assertion-IsAnswer device request origin pin a response h =
      let (with_data, _, h₁) =
        >>=-eq-ok (checked (fido.assert_set_clientdata a (client_data_of request.challenge origin)))
          _ h in
      let (with_rp, _, h₂) =
        >>=-eq-ok (checked (fido.assert_set_rp with_data request.rp_id)) _ h₁ in
      let (with_up, _, h₃) = >>=-eq-ok (checked (fido.assert_set_up with_rp)) _ h₂ in
      let (with_uv, _, h₄) = >>=-eq-ok (checked (fido.assert_set_uv with_up)) _ h₃ in
      let (patient, _, h₅) =
        >>=-eq-ok (checked (fido.dev_set_timeout device ceremony_timeout_ms)) _ h₄ in
      let (signed, _, h₆) =
        >>=-eq-ok (checked (fido.dev_get_assert patient with_uv (pin_pointer pin))) _ h₅ in
      response_of-IsAnswer request origin (fido.assert_items signed) response h₆

  pub opened_sign-IsAnswer :
      (device : FidoDevice) (request : SignRequest) (origin pin : Bytes)
      (response : FidoSignResponse)
      → AllDecode request.allow_credentials
      → sign device request origin pin ≡ ok response
      → IsAnswer request origin response
  unfolding sign
  opened_sign-IsAnswer device request origin pin response decode =
      if_elim (λ r. r ≡ ok response → IsAnswer request origin response)
        (not (usable fido device) || is_empty request.allow_credentials) (λ _ h. absurd (cc))
        (λ _ h.
          let (opened, _, h₁) = >>=-eq-ok (open_device fido device.path) _ h in
          let (fresh, _, h₂) = >>=-eq-ok (present fido.assert_new) _ h₁ in
          let (allowed, allows, h₃) = >>=-eq-ok (allow_all request.allow_credentials fresh) _ h₂ in
          let (a, is_a) = allow_all-some request.allow_credentials fresh allowed decode allows in
          get_assertion-IsAnswer opened request origin pin a response
            (subst (λ o. get_assertion opened request origin pin o ≡ ok response) is_a h₃))
