-- ===== src/CredentialProvider/HResult.antt =====
-- The HRESULTs that the credential provider returns.
use windows_fido_logon.Base.{ℕ, zero, suc, ◌^◌, ltb, ◌≡◌, refl, Bool, true, false, Option, none}

pub data HResult : Type 0 where
  s_ok s_false : HResult
  e_fail e_invalidarg e_outofmemory e_unexpected e_accessdenied e_notimpl : HResult
  -- HRESULT_FROM_WIN32 of an error that is not 0, and HRESULT_FROM_NT of a failure.
  from_win32 : ℕ → HResult
  from_nt : ℕ → HResult

-- A call that leaves its value only when it succeeds.
pub data Hr {ℓ} (A : Type ℓ) : Type ℓ where
  ok : A → Hr A
  err : HResult → Hr A

infixl 5 ◌>>=◌
abbrev pub ◌>>=◌ {ℓ κ} : {A : Type ℓ} {C : Type κ} → Hr A → (A → Hr C) → Hr C
ok value >>= next = next value
err failure >>= next = err failure

abbrev pub require {ℓ} : {A : Type ℓ} → Bool → HResult → Hr A → Hr A
require true e next = next
require false e next = err e

pub >>=-eq-ok {ℓ κ} :
    {A : Type ℓ} {C : Type κ} (call : Hr A) (next : A → Hr C) {c : C}
    → (call >>= next) ≡ ok c
    → (a : A) × (call ≡ ok a) × (next a ≡ ok c)
>>=-eq-ok (ok a) next h = (a, refl, h)
>>=-eq-ok (err e) next h = absurd (cc)

pub require-eq-ok {ℓ} :
    {A : Type ℓ} (b : Bool) (e : HResult) (next : Hr A) {a : A}
    → require b e next ≡ ok a
    → (b ≡ true) × (next ≡ ok a)
require-eq-ok true e next h = (refl, h)
require-eq-ok false e next h = absurd (cc)

pub ok-injective {ℓ} : {A : Type ℓ} {a b : A} → ok a ≡ ok b → a ≡ b
ok-injective h = cc

-- HRESULT_FROM_WIN32: ERROR_SUCCESS is S_OK.
abbrev pub hresult_from_win32 : ℕ → HResult
hresult_from_win32 zero = s_ok
hresult_from_win32 (suc n) = from_win32 (suc n)

-- A call that fails with a Win32 error leaves no value; with ERROR_SUCCESS it still returns S_OK.
abbrev pub win32_failure {ℓ} : {A : Type ℓ} → ℕ → Hr (Option A)
win32_failure zero = ok none
win32_failure (suc n) = err (from_win32 (suc n))

-- SUCCEEDED(HRESULT_FROM_NT(status)) for a 32-bit NTSTATUS.
abbrev pub nt_success : ℕ → Bool
nt_success status = ltb status (2 ^ 31)
