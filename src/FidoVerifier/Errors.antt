-- ===== src/FidoVerifier/Errors.antt =====
-- The texts that the verifier leaves in its `error` argument, one constructor for each, and its
-- results: a value, or `false` with the error.
use windows_fido_logon.Base.{ℕ, Bool, true, false, Option, none, some, ◌≡◌, refl}

pub data VerifyError : Type 0 where
  client_data_type_mismatch challenge_mismatch origin_mismatch cross_origin invalid_client_data :
      VerifyError
  data_too_short unable_to_hash rp_hash_mismatch user_presence_missing user_verification_missing :
      VerifyError
  attested_data_missing invalid_attested_length invalid_cose_key not_es256 : VerifyError
  unsupported_algorithm not_one_assertion wrong_credential invalid_assertion_field : VerifyError
  counter_did_not_increase out_of_memory : VerifyError
  signature_failed : ℕ → VerifyError
  invalid_registration_encoding unsupported_attestation_format : VerifyError
  registration_failed attestation_failed : ℕ → VerifyError
  omitted_authenticator_data omitted_credential_id credential_id_mismatch omitted_material :
      VerifyError

pub data Verified {ℓ} (A : Type ℓ) : Type ℓ where
  ok : A → Verified A
  err : VerifyError → Verified A

infixl 5 ◌>>=◌
abbrev pub ◌>>=◌ {ℓ κ} : {V : Type ℓ} {W : Type κ} → Verified V → (V → Verified W) → Verified W
err failure >>= next = err failure
ok value >>= next = next value

infixl 5 ◌>>◌
abbrev pub ◌>>◌ {κ} : {W : Type κ} → Verified (Unit {0}) → Verified W → Verified W
check >> next = check >>= λ _. next

-- `if (!test) { error = e; return false; }`
abbrev pub require : Bool → VerifyError → Verified (Unit {0})
require true e = ok tt
require false e = err e

-- The value of a call that may give none.
abbrev pub found {ℓ} : {A : Type ℓ} → Option A → VerifyError → Verified A
found none e = err e
found (some a) e = ok a

-- A chain that gives a value: what its first call has given, and what the rest makes of that.
pub >>=-eq-ok {ℓ κ} :
    {V : Type ℓ} {W : Type κ} (call : Verified V) (next : V → Verified W) {w : W}
    → (call >>= next) ≡ ok w
    → (v : V) × (call ≡ ok v) × (next v ≡ ok w)
>>=-eq-ok (err failure) next h = absurd (cc)
>>=-eq-ok (ok v) next h = (v, refl, h)

pub >>-eq-ok {ℓ} :
    {B : Type ℓ} (t : Bool) (e : VerifyError) (k : Verified B) {b : B}
    → (require t e >> k) ≡ ok b
    → (t ≡ true) × (k ≡ ok b)
>>-eq-ok true e k h = (refl, h)
>>-eq-ok false e k h = absurd (cc)

pub found->>=-eq-ok {ℓ κ} :
    {A : Type ℓ} {B : Type κ} (o : Option A) (e : VerifyError) (f : A → Verified B) {b : B}
    → (found o e >>= f) ≡ ok b
    → (a : A) × (o ≡ some a) × (f a ≡ ok b)
found->>=-eq-ok none e f h = absurd (cc)
found->>=-eq-ok (some a) e f h = (a, refl, h)

pub require-eq-ok : (t : Bool) (e : VerifyError) → require t e ≡ ok tt → t ≡ true
require-eq-ok true e h = refl
require-eq-ok false e h = absurd (cc)

pub ok-injective {ℓ} : {A : Type ℓ} {a b : A} → ok a ≡ ok b → a ≡ b
ok-injective h = cc
