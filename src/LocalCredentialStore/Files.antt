-- ===== src/LocalCredentialStore/Files.antt =====
-- The files of the vault: `EnsureStoreDirectory`, `ReadProtectedFile`, `WriteProtectedFile`, the
-- copies and moves that `Save` makes, and `Load`.
pub mod Effects
use windows_fido_logon.Base.{
  ℕ, ◌+◌, ◌*◌, ◌≡◌, Bool, true, false, not, ◌&&◌, ◌||◌, Option, none, some, List, [], ◌∷◌, Bytes,
  length, is_empty, ltb, leb, ◌==◌, if◌then◌else◌,
}
use windows_fido_logon.LocalFidoTypes.{Vault}
use windows_fido_logon.External.Json.{JsonLibrary}
use windows_fido_logon.Machine.{
  System, World, Disk, File, Outcome, done, failed, thrown, M, pure, fail, on_failure, next_call,
  os_call, require, or_throw, content, put, ◌>>=◌, ◌>>◌,
}
use windows_fido_logon.LocalCredentialStore.VaultJson.{vault_from_json}
use windows_fido_logon.LocalCredentialStore.Validity.{is_vault_valid}

abbrev pub error_file_not_found : ℕ
error_file_not_found = 2

abbrev pub error_path_not_found : ℕ
error_path_not_found = 3

abbrev pub error_invalid_data : ℕ
error_invalid_data = 13

abbrev pub error_file_invalid : ℕ
error_file_invalid = 1006

abbrev pub get_content : File → M (Option Bytes)
get_content file w = pure (content w.disk file) w

unfoldable pub set_content : File → Option Bytes → M (Unit {0})
set_content file c w = pure tt (record w { disk = put w.disk file c })

-- What a call that failed half-way leaves in the file that it was writing.
abbrev pub tear : System → File → M (Unit {0})
tear sys file w = set_content file (sys.torn w.calls) w

abbrev outcome_of : {A : Type 0} → Outcome A → M A
outcome_of o w = (o, w)

-- CreateFileW on a file that must exist.
abbrev existing : Option Bytes → M Bytes
existing none = fail error_file_not_found
existing (some bytes) = pure bytes

module _ (sys : System) where
  -- SHCreateDirectoryExW, the conversion of the descriptor and SetFileSecurityW.
  unfoldable pub ensure_store_directory : M (Unit {0})
  ensure_store_directory = do os_call sys; os_call sys; os_call sys

  -- GetFileSizeEx, and the size: positive, at most 4 MiB.
  unfoldable pub check_size : Bytes → M (Unit {0})
  check_size encrypted = do
    size_call ← next_call sys
    require (size_call == 0 && ltb 0 (length encrypted) && leb (length encrypted) (4 * 1024 * 1024))
        error_file_invalid

  -- Open, size, read, decrypt.
  unfoldable pub read_protected_file : File → M Bytes
  read_protected_file file = do
    os_call sys
    stored ← get_content file
    encrypted ← existing stored
    check_size encrypted
    os_call sys
    outcome_of (sys.unprotect encrypted)

  abbrev torn_and_failed : File → ℕ → M (Unit {0})
  torn_and_failed file e = do tear sys file; fail e

  unfoldable pub write_contents : File → Bytes → M (Unit {0})
  write_contents file plaintext = do
    os_call sys
    set_content file (some (sys.protect plaintext))
    os_call sys

  -- Encrypt, convert the descriptor, create (which empties the file), write and flush. A failure of
  -- the last two leaves in the file what the system left.
  unfoldable pub write_protected_file : File → Bytes → M (Unit {0})
  write_protected_file file plaintext = do
    os_call sys
    os_call sys
    os_call sys
    set_content file (some [])
    on_failure (write_contents file plaintext) (torn_and_failed file)

  -- CopyFileW.
  unfoldable pub copy_file : File → File → M (Unit {0})
  copy_file from to = do
    on_failure (os_call sys) (torn_and_failed to)
    stored ← get_content from
    bytes ← existing stored
    set_content to (some bytes)

  -- MoveFileExW with MOVEFILE_REPLACE_EXISTING: it replaces the target or changes nothing.
  unfoldable pub move_file : File → File → M (Unit {0})
  move_file from to = do
    os_call sys
    stored ← get_content from
    bytes ← existing stored
    set_content to (some bytes)
    set_content from none

  -- DeleteFileW, whose result is not looked at.
  unfoldable pub delete_file : File → M (Unit {0})
  delete_file file = do code ← next_call sys; if code == 0 then set_content file none else pure tt

abbrev or_invalid : {A : Type 0} → Option A → M A
or_invalid none = fail error_invalid_data
or_invalid (some a) = pure a

abbrev vault_of : System → JsonLibrary → Option Bytes → Option Vault
vault_of sys json none = none
vault_of sys json (some plaintext) = elim (json.parse plaintext) [
  | none ↦ none
  | some value ↦ vault_from_json sys json value
]

module _ (sys : System) (json : JsonLibrary) where
  -- The lambdas `loadValid` of `Load` and `readValidVault` of `Save`: read, parse, check. A text that
  -- does not parse throws, and the exception is caught.
  unfoldable pub load_valid : File → M Vault
  unfolding read_protected_file
  load_valid file = do
    plaintext ← read_protected_file sys file
    parsed ← or_invalid (vault_of sys json (some plaintext))
    require (is_vault_valid sys parsed) error_invalid_data
    pure parsed

  -- The primary file, else the backup; the error is that of the primary file.
  pub load : M Vault
  unfolding load_valid
  load = on_failure (load_valid File.primary) λ primary_error.
      on_failure (load_valid File.backup)
        λ backup_error. fail (if primary_error == 0 then backup_error else primary_error)
