-- ===== src/LocalCredentialStore/Validity.antt =====
-- `IsVaultValid`.
use windows_fido_logon.Base.{
  ℕ, Bool, true, not, ◌&&◌, ◌||◌, List, [], ◌∷◌, ◌++◌, map, Bytes, Wide, codes, length, is_empty,
  all, any, bytes_eq, ltb, leb, ◌==◌,
}
use windows_fido_logon.LocalFidoTypes.{
  CredentialRecord, AccountRecord, Vault, es256_algorithm, schema_version,
}
use windows_fido_logon.Convert.{base64url_decode}
use windows_fido_logon.Machine.{System}

abbrev pub is_control : ℕ → Bool
is_control value = ltb value 0x20 || value == 0x7f

abbrev pub is_hex_digit : ℕ → Bool
is_hex_digit value = leb b'0' value && leb value b'9' || leb b'a' value && leb value b'f'

-- Whether a `std::set` of texts, in the order of their insertion, holds the text.
abbrev pub is_in : Bytes → List Bytes → Bool
is_in text seen = any (bytes_eq text) seen

abbrev pub rp_id_of : Bytes → Bytes
rp_id_of machine_id = codes "wfl-" ++ (machine_id ++ codes ".login.local")

unfoldable pub credential_valid : CredentialRecord → Bool
credential_valid credential =
    let id = base64url_decode credential.credential_id in
    let key = base64url_decode credential.cose_public_key in
    let aaguid = base64url_decode credential.aaguid in
    credential.algorithm == es256_algorithm
    && not (is_empty id)
    && leb (length id) 1024
    && not (is_empty key)
    && leb (length key) 1024
    && length aaguid == 16
    && not (is_empty credential.label)
    && leb (length credential.label) 128
    && leb (length credential.created_at) 64
    && not (any is_control credential.label)

-- The loop over the credentials of an account, with the IDs that it has inserted.
unfoldable pub credentials_valid : List Bytes → List CredentialRecord → Bool
unfolding credential_valid
credentials_valid seen [] = true
credentials_valid seen (credential ∷ rest) =
    credential_valid credential
    && not (is_in credential.credential_id seen)
    && credentials_valid (credential.credential_id ∷ seen) rest

module _ (sys : System) where
  unfoldable pub folded_sid : Wide → Wide
  folded_sid sid = map sys.to_upper sid

  unfoldable pub account_valid : AccountRecord → Bool
  account_valid account =
      not (is_empty account.sid)
      && leb (length account.sid) 184
      && leb (length account.username) 256
      && leb (length account.credentials) 64
      && not (account.enforced && is_empty account.credentials)
      && sys.is_valid_sid account.sid

  -- The loop over the accounts, with the folded SIDs that it has inserted.
  unfoldable pub accounts_valid : List Wide → List AccountRecord → Bool
  unfolding credentials_valid account_valid folded_sid
  accounts_valid seen [] = true
  accounts_valid seen (account ∷ rest) =
      account_valid account
      && not (is_in (folded_sid account.sid) seen)
      && credentials_valid [] account.credentials
      && accounts_valid (folded_sid account.sid ∷ seen) rest

  unfoldable pub is_vault_valid : Vault → Bool
  unfolding accounts_valid
  is_vault_valid vault =
      vault.schema == schema_version
      && length vault.machine_id == 32
      && bytes_eq vault.rp_id (rp_id_of vault.machine_id)
      && leb (length vault.accounts) 1024
      && all is_hex_digit vault.machine_id
      && accounts_valid [] vault.accounts
