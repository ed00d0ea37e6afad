-- ===== src/CredentialProvider/Password.antt =====
-- CredentialProvider/helpers.cpp: the protection of a password in memory, and the package that LSA
-- logs on with. CredProtect, CredUnprotect, CredIsProtected and LSA are parameters.
pub mod RoundTrip
use windows_fido_logon.Base.{
  ℕ, Bool, true, false, ◌&&◌, ◌||◌, Option, none, some, [], ◌∷◌, Wide, ltb, ◌==◌, if◌then◌else◌,
}
use windows_fido_logon.CredentialProviderFilter.{Scenario, credui}
use windows_fido_logon.CredentialProvider.HResult.{
  Hr, ok, err, e_outofmemory, from_nt, win32_failure, nt_success,
}

-- The first of two calls has no buffer: it fails with an error and the size that is needed.
pub data Sizing : Type 0 where
  succeeded : Sizing
  refused : (error size : ℕ) → Sizing

-- The second call writes the text, or fails with an error.
pub data Written : Type 0 where
  written : Wide → Written
  write_failed : ℕ → Written

pub record CredentialApi : Type 0 where
  -- `none` where CredIsProtectedW fails; `some true` for any protection but CredUnprotected.
  pub is_protected : Wide → Option Bool
  pub protect_size : Wide → Sizing
  pub protect : Wide → ℕ → Written
  pub unprotect_size : Wide → Sizing
  pub unprotect : Wide → ℕ → Written
  -- CoTaskMemAlloc for a number of units.
  pub allocates : ℕ → Bool
  -- The NTSTATUS of LsaConnectUntrusted, and that of LsaLookupAuthenticationPackage with the package.
  pub lsa_connect : ℕ
  pub lsa_lookup : ℕ
  pub negotiate_package : ℕ

abbrev pub error_insufficient_buffer : ℕ
error_insufficient_buffer = 122

module _ (api : CredentialApi) where
  abbrev pub stored : Written → Hr (Option Wide)
  stored (written result) = ok (some result)
  stored (write_failed e) = win32_failure e

  -- The two calls; a first call that succeeds leaves a null pointer and S_OK.
  abbrev pub with_buffer : Sizing → (ℕ → Written) → Hr (Option Wide)
  with_buffer succeeded second = ok none
  with_buffer (refused e size) second =
      if (e == error_insufficient_buffer) && ltb 0 size
      then (if api.allocates size then stored (second size) else err e_outofmemory)
      else win32_failure e

  -- `_ProtectAndCopyString`; `ok none` is a null pointer.
  unfoldable pub protect_and_copy_string : Wide → Hr (Option Wide)
  protect_and_copy_string plain = with_buffer (api.protect_size plain) (api.protect plain)

  -- `_UnProtectAndCopyString`.
  unfoldable pub unprotect_and_copy_string : Wide → Hr (Option Wide)
  unprotect_and_copy_string secret = with_buffer (api.unprotect_size secret) (api.unprotect secret)

  abbrev pub is_credui : Scenario → Bool
  is_credui credui = true
  is_credui _ = false

  abbrev pub already_protected : Option Bool → Bool
  already_protected (some protected) = protected
  already_protected none = false

  -- `ProtectIfNecessaryAndCopyPassword`.
  unfoldable pub protect_if_necessary_and_copy_password : Wide → Scenario → Hr (Option Wide)
  protect_if_necessary_and_copy_password [] scenario = ok (some [])
  protect_if_necessary_and_copy_password (c ∷ password) scenario =
      if is_credui scenario || already_protected (api.is_protected (c ∷ password))
      then ok (some (c ∷ password))
      else protect_and_copy_string (c ∷ password)

  -- What `UnProtectIfNecessaryAndCopyPassword` does with the answer of CredIsProtectedW; where that
  -- fails, the pointer stays null.
  abbrev pub unprotect_as : Option Bool → Wide → Hr (Option Wide)
  unprotect_as none password = ok none
  unprotect_as (some false) password = ok (some password)
  unprotect_as (some true) password = unprotect_and_copy_string password

  unfoldable pub unprotect_if_necessary_and_copy_password : Wide → Hr (Option Wide)
  unprotect_if_necessary_and_copy_password [] = ok (some [])
  unprotect_if_necessary_and_copy_password (c ∷ password) =
      unprotect_as (api.is_protected (c ∷ password)) (c ∷ password)

  -- `RetrieveNegotiateAuthPackage`.
  unfoldable pub retrieve_negotiate_auth_package : Hr ℕ
  retrieve_negotiate_auth_package =
      if nt_success api.lsa_connect
      then (if nt_success api.lsa_lookup
          then ok api.negotiate_package
          else err (from_nt api.lsa_lookup))
      else err (from_nt api.lsa_connect)
