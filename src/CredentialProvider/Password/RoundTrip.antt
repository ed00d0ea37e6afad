-- ===== src/CredentialProvider/Password/RoundTrip.antt =====
-- A protected password is recovered.
use windows_fido_logon.Base.{
  ℕ, ◌≡◌, ◌≢◌, ◌<◌, ◌⊎◌, refl, sym, ap, subst, ◌∙◌, true, false, ◌&&◌, ◌==◌, ltb, Option, some, [],
  ◌∷◌, Wide, if◌then◌else◌, if_elim, if_true, arith,
}
use windows_fido_logon.CredentialProviderFilter.{Scenario}
use windows_fido_logon.CredentialProvider.HResult.{Hr, ok, err, e_outofmemory, win32_failure}
use windows_fido_logon.CredentialProvider.Password.{
  CredentialApi, Sizing, succeeded, refused, Written, written, write_failed, stored, with_buffer,
  protect_and_copy_string, unprotect_and_copy_string, is_credui,
  protect_if_necessary_and_copy_password, unprotect_if_necessary_and_copy_password,
}

-- What is documented of CredProtectW and CredUnprotectW: without a buffer CredProtect does not succeed; what it
-- writes is not empty and known to CredIsProtected; and CredUnprotect of it asks with
-- ERROR_INSUFFICIENT_BUFFER (122) for a size, and writes into a buffer of that size what was protected.
pub record IsProtecting (api : CredentialApi) : Type 0 where
  pub sizes : (text : Wide) → api.protect_size text ≢ succeeded
  pub marks :
      (text secret : Wide) (size : ℕ)
      → api.protect text size ≡ written secret
      → (secret ≢ []) × (api.is_protected secret ≡ some true)
  pub undoes :
      (text secret : Wide) (size : ℕ)
      → api.protect text size ≡ written secret
      → (n : ℕ) × (0 < n)
        × (api.unprotect_size secret ≡ refused 122 n)
        × (api.unprotect secret n ≡ written text)

-- What the protection of a password ends with.
pub data IsRecoverable (api : CredentialApi) (password : Wide) : Hr (Option Wide) → Type 0 where
  empty :
      password ≡ []
      → unprotect_if_necessary_and_copy_password api [] ≡ ok (some [])
      → IsRecoverable api password (ok (some []))
  recoverable :
      (secret : Wide) (size n : ℕ)
      → api.protect_size password ≡ refused 122 size
      → 0 < size
      → api.allocates size ≡ true
      → api.protect password size ≡ written secret
      → api.unprotect_size secret ≡ refused 122 n
      → unprotect_if_necessary_and_copy_password api secret
        ≡ (if api.allocates n then ok (some password) else err e_outofmemory)
      → IsRecoverable api password (ok (some secret))
  not_sized :
      (error size : ℕ)
      → api.protect_size password ≡ refused error size
      → (error ≢ 122) ⊎ (size ≡ 0)
      → IsRecoverable api password (win32_failure error)
  no_memory :
      (size : ℕ)
      → api.protect_size password ≡ refused 122 size
      → api.allocates size ≡ false
      → IsRecoverable api password (err e_outofmemory)
  not_written :
      (error size : ℕ)
      → api.protect_size password ≡ refused 122 size
      → api.protect password size ≡ write_failed error
      → IsRecoverable api password (win32_failure error)

unprotect_protected :
    (api : CredentialApi) (secret : Wide)
    → secret ≢ []
    → api.is_protected secret ≡ some true
    → unprotect_if_necessary_and_copy_password api secret ≡ unprotect_and_copy_string api secret
unfolding unprotect_if_necessary_and_copy_password
unprotect_protected api [] filled marked = absurd (filled refl)
unprotect_protected api (c ∷ secret) filled marked = rw marked refl

unprotect_written :
    (api : CredentialApi) (text secret : Wide) (n : ℕ)
    → 0 < n
    → api.unprotect_size secret ≡ refused 122 n
    → api.unprotect secret n ≡ written text
    → unprotect_and_copy_string api secret
      ≡ (if api.allocates n then ok (some text) else err e_outofmemory)
unfolding unprotect_and_copy_string
unprotect_written api text secret n positive sized wrote =
    rw (sized, wrote) (if_true _ _ (sized_enough n positive))
  where
    sized_enough : (n : ℕ) → 0 < n → ((122 == 122) && ltb 0 n) ≡ true
    sized_enough n positive = ground arith

written-IsRecoverable :
    (api : CredentialApi) (password : Wide) (size : ℕ) (w : Written)
    → IsProtecting api
    → api.protect_size password ≡ refused 122 size
    → 0 < size
    → api.allocates size ≡ true
    → api.protect password size ≡ w
    → IsRecoverable api password (stored api w)
written-IsRecoverable api password size (write_failed e) documented sized positive memory wrote =
    not_written e size sized wrote
written-IsRecoverable api password size (written secret) documented sized positive memory wrote =
    let (filled, marked) = documented.marks password secret size wrote in
    let (n, room, asked, recovered) = documented.undoes password secret size wrote in
    recoverable secret size n sized positive memory wrote asked (
      unprotect_protected api secret filled marked
      ∙ unprotect_written api password secret n room asked recovered)

with_buffer-IsRecoverable :
    (api : CredentialApi) (password : Wide) (sizing : Sizing)
    → IsProtecting api
    → api.protect_size password ≡ sizing
    → IsRecoverable api password (with_buffer api sizing (api.protect password))
with_buffer-IsRecoverable api password succeeded documented sized =
    absurd (documented.sizes password sized)
with_buffer-IsRecoverable api password (refused e size) documented sized =
    if_elim (IsRecoverable api password) ((e == 122) && ltb 0 size)
      (λ enough.
        let asked : api.protect_size password ≡ refused 122 size =
          sized ∙ ap (λ n. refused n size) (sized_of e size enough).0 in
        if_elim (IsRecoverable api password) (api.allocates size)
          (λ memory.
            written-IsRecoverable api password size (api.protect password size) documented asked
              (sized_of e size enough).1 memory refl)
          (λ memory. no_memory size asked memory))
      (λ other. not_sized e size sized (other_of e size other))
  where
    sized_of : (e size : ℕ) → ((e == 122) && ltb 0 size) ≡ true → (e ≡ 122) × (0 < size)
    sized_of e size h = (ground arith, ground arith)

    other_of : (e size : ℕ) → ((e == 122) && ltb 0 size) ≡ false → (e ≢ 122) ⊎ (size ≡ 0)
    other_of e size h = ground arith

-- What ProtectIfNecessaryAndCopyPassword returns outside of CredUI for a password that is not itself a protected one, if
-- CredProtect and CredUnprotect do what they document: for an empty password the empty text; a
-- protected text, which CredProtect wrote into an allocated buffer of the size it had asked for, and
-- which UnProtectIfNecessaryAndCopyPassword turns back into the password, or fails on with
-- E_OUTOFMEMORY where that buffer is not allocated; or the failure: E_OUTOFMEMORY where the buffer is
-- not allocated, else the error of the call that failed.
pub unprotect-protect :
    (api : CredentialApi) (password : Wide) (scenario : Scenario)
    → IsProtecting api
    → api.is_protected password ≡ some false
    → is_credui api scenario ≡ false
    → IsRecoverable api password (protect_if_necessary_and_copy_password api password scenario)
unfolding protect_if_necessary_and_copy_password protect_and_copy_string
    unprotect_if_necessary_and_copy_password
unprotect-protect api [] scenario documented clear other = empty refl refl
unprotect-protect api (c ∷ password) scenario documented clear other =
    subst (IsRecoverable api (c ∷ password)) (sym (rw (other, clear) refl)) (
      with_buffer-IsRecoverable api (c ∷ password) (api.protect_size (c ∷ password)) documented
        refl)
