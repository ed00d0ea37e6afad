-- ===== src/External/Fido.antt =====
-- libfido2 and the hash of bcrypt.dll, as far as the verifier uses them. A status of 0 is FIDO_OK.
-- The calls that fill an assertion or a credential return their status and the object.
use windows_fido_logon.Base.{ℕ, Bool, Option, List, Bytes}

pub record FidoLibrary : Type 1 where
  -- BCrypt's SHA-256; `none` is a failed call.
  pub sha256 : Bytes → Option Bytes
  pub Assert : Type 0
  pub assert_new : Option Assert
  pub assert_set_clientdata : Assert → Bytes → ℕ × Assert
  pub assert_set_rp : Assert → Bytes → ℕ × Assert
  pub assert_set_count : Assert → ℕ → ℕ × Assert
  pub assert_set_authdata_raw : Assert → ℕ → Bytes → ℕ × Assert
  pub assert_set_sig : Assert → ℕ → Bytes → ℕ × Assert
  -- `fido_assert_set_up` and `fido_assert_set_uv` with FIDO_OPT_TRUE.
  pub assert_set_up : Assert → ℕ × Assert
  pub assert_set_uv : Assert → ℕ × Assert
  pub Key : Type 0
  pub es256_pk_new : Option Key
  pub es256_pk_from_ptr : Key → Bytes → ℕ × Key
  -- `fido_assert_verify` for COSE_ES256.
  pub assert_verify : Assert → ℕ → Key → ℕ
  pub Cred : Type 0
  pub cred_new : Option Cred
  -- `fido_cred_set_type` with COSE_ES256, and `fido_cred_set_uv` with FIDO_OPT_TRUE.
  pub cred_set_type : Cred → ℕ × Cred
  pub cred_set_rp : Cred → Bytes → Bytes → ℕ × Cred
  pub cred_set_clientdata : Cred → Bytes → ℕ × Cred
  pub cred_set_uv : Cred → ℕ × Cred
  pub cred_set_attobj : Cred → Bytes → ℕ × Cred
  pub cred_fmt : Cred → Option Bytes
  pub cred_x5c_len : Cred → ℕ
  pub cred_verify : Cred → ℕ
  pub cred_verify_self : Cred → ℕ
  -- Pointer and length; `none` is a null pointer.
  pub cred_authdata_raw : Cred → Option Bytes
  pub cred_id : Cred → Option Bytes

-- libfido2's calls on devices, and the clock. A call on a handle returns its status and the handle.
pub record DeviceLibrary : Type 1 where
  pub Dev : Type 0
  pub dev_new : Option Dev
  pub dev_set_timeout : Dev → ℕ → ℕ × Dev
  pub dev_open : Dev → Bytes → ℕ × Dev
  pub dev_is_fido2 : Dev → Bool
  pub dev_has_pin : Dev → Bool
  pub dev_has_uv : Dev → Bool
  pub dev_set_pin : Dev → Bytes → Option Bytes → ℕ
  -- `fido_cbor_info_new` followed by `fido_dev_get_cbor_info`: the status and the COSE algorithms, `none`
  -- where there is no memory.
  pub dev_get_cbor_info : Dev → Option (ℕ × List ℕ)
  pub dev_get_touch_begin : Dev → ℕ × Dev
  -- `fido_dev_get_touch_status` in the n-th round: the status, and whether the key was touched.
  pub dev_get_touch_status : ℕ → Dev → ℕ × Bool
  -- GetTickCount64 at its n-th call, where the program has called Sleep for `slept` milliseconds in all
  -- since the first.
  pub ticks : (slept n : ℕ) → ℕ
  pub Assert : Type 0
  pub assert_new : Option Assert
  pub assert_allow_cred : Assert → Bytes → ℕ × Assert
  pub assert_set_clientdata : Assert → Bytes → ℕ × Assert
  pub assert_set_rp : Assert → Bytes → ℕ × Assert
  pub assert_set_up : Assert → ℕ × Assert
  pub assert_set_uv : Assert → ℕ × Assert
  -- `fido_dev_get_assert` with a PIN, `none` for a null pointer.
  pub dev_get_assert : Dev → Assert → Option Bytes → ℕ × Assert
  -- Of each assertion: the credential's id, the authenticator data, the signature and the user's id.
  pub assert_items : Assert → List (Bytes × Bytes × Bytes × Bytes)
