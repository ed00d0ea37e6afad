-- ===== src/LocalCredentialStore/Save.antt =====
-- `Save` and `LoadOrCreate`.
pub mod Atomic
pub mod Saved
use windows_fido_logon.Base.{
  ℕ, ◌-◌, ◌+◌, ◌/◌, ◌%◌, ◌≡◌, Bool, true, false, not, ◌&&◌, ◌||◌, Option, none, some, List, [], ◌∷◌,
  ◌++◌, Bytes, any, is_empty, ◌==◌, if◌then◌else◌, ltb,
}
use windows_fido_logon.LocalFidoTypes.{AccountRecord, Vault, schema_version}
use windows_fido_logon.External.Json.{JsonLibrary}
use windows_fido_logon.Machine.{
  System, World, File, Outcome, done, failed, thrown, M, pure, fail, on_failure, branch, require,
  or_throw, ◌>>=◌, ◌>>◌,
}
use windows_fido_logon.LocalCredentialStore.VaultJson.{vault_to_json}
use windows_fido_logon.LocalCredentialStore.Validity.{is_vault_valid, rp_id_of}
use windows_fido_logon.LocalCredentialStore.Policy.{synchronize_enforced_registry}
use windows_fido_logon.LocalCredentialStore.Files.{
  ensure_store_directory, write_protected_file, copy_file, move_file, delete_file, load_valid, load,
  error_invalid_data, error_file_not_found, error_path_not_found,
}

abbrev pub has_enforced_accounts : Vault → Bool
has_enforced_accounts vault = any (λ account. account.enforced) vault.accounts

abbrev ignore : {A : Type 0} → M A → M (Unit {0})
ignore m = branch m (λ _. pure tt) (λ _. pure tt)

module _ (sys : System) (json : JsonLibrary) where
  -- The last valid vault: that of the primary file, which is then copied to the backup, or else that
  -- of the backup.
  unfoldable pub keep_previous : M (Option Vault)
  keep_previous =
      branch (load_valid sys json File.primary)
        (λ previous. do
          on_failure (copy_file sys File.primary File.backup)
              (λ e. do delete_file sys File.temporary; fail e)
          pure (some previous))
        (λ _.
          branch (load_valid sys json File.backup) (λ previous. pure (some previous))
            (λ _. pure none))

  -- `restorePreviousFile`, whose result is not looked at.
  pub restore_previous_file : Option Vault → M (Unit {0})
  restore_previous_file none = pure tt
  restore_previous_file (some previous) =
      branch (copy_file sys File.backup File.rollback)
        (λ _.
          branch (move_file sys File.rollback File.primary) (λ _. pure tt)
            (λ _. delete_file sys File.rollback))
        (λ _. pure tt)

  -- `if (previousVault) SynchronizeEnforcedRegistry(*previousVault, nullptr)`.
  unfoldable pub restore_policy : Option Vault → M (Unit {0})
  restore_policy none = pure tt
  restore_policy (some previous) = ignore (synchronize_enforced_registry sys previous)

  -- Behind the backup: an enforcing policy is published before the vault, any other behind it.
  unfoldable pub publish_policy_first : Vault → Option Vault → M (Unit {0})
  publish_policy_first vault previous = do
    on_failure (synchronize_enforced_registry sys vault)
        (λ e. do restore_policy previous; delete_file sys File.temporary; fail e)
    on_failure (move_file sys File.temporary File.primary)
        (λ e. do restore_policy previous; delete_file sys File.temporary; fail e)

  unfoldable pub publish_vault_first : Vault → Option Vault → M (Unit {0})
  publish_vault_first vault previous = do
    on_failure (move_file sys File.temporary File.primary)
        (λ e. do delete_file sys File.temporary; fail e)
    on_failure (synchronize_enforced_registry sys vault)
        (λ e. do restore_previous_file previous; restore_policy previous; fail e)

  unfoldable pub publish : Vault → Option Vault → M (Unit {0})
  publish vault previous =
      if has_enforced_accounts vault
      then publish_policy_first vault previous
      else publish_vault_first vault previous

  unfoldable pub save : Vault → M (Unit {0})
  save vault = do
    require (is_vault_valid sys vault) error_invalid_data
    ensure_store_directory sys
    plaintext ← or_throw (json.dump (vault_to_json sys json vault))
    write_protected_file sys File.temporary plaintext
    previous ← keep_previous
    publish vault previous

  -- `GenerateHexId`; the digits of each byte in lower case.
  abbrev hex_digit : ℕ → ℕ
  hex_digit n = if ltb n 10 then b'0' + n else b'a' + (n - 10)

  abbrev hex_of : Bytes → Bytes
  hex_of [] = []
  hex_of (b ∷ bs) = hex_digit (b / 16) ∷ hex_digit (b % 16) ∷ hex_of bs

  abbrev generated : Option Bytes → Bytes
  generated none = []
  generated (some bytes) = hex_of bytes

  abbrev random_bytes : ℕ → M (Option Bytes)
  random_bytes size w = (done (sys.random w.calls size), record w { calls = w.calls + 1 })

  abbrev pub fresh_vault : Bytes → Vault
  fresh_vault machine_id = record {
    schema = schema_version;
    machine_id = machine_id;
    rp_id = rp_id_of machine_id;
    accounts = [];
  }

  abbrev error_gen_failure : ℕ
  error_gen_failure = 31

  pub load_or_create : M Vault
  load_or_create = on_failure (load sys json) λ load_error. do
    require (load_error == error_file_not_found || load_error == error_path_not_found) load_error
    bytes ← random_bytes 16
    let machine_id = generated bytes
    require (not (is_empty machine_id)) error_gen_failure
    save (fresh_vault machine_id)
    pure (fresh_vault machine_id)
