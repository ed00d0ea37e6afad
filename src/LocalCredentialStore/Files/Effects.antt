-- ===== src/LocalCredentialStore/Files/Effects.antt =====
-- What the operations on the files of the vault do to the disk.
use windows_fido_logon.Base.{
  ℕ, ◌≡◌, refl, Bool, true, false, ◌&&◌, Option, none, some, [], Bytes, ◌==◌, leb, ltb, length, ◌*◌,
  ◌+◌, if◌then◌else◌,
}
use windows_fido_logon.External.Json.{JsonLibrary}
use windows_fido_logon.Machine.{
  System, Disk, File, Registry, Outcome, done, failed, thrown, on_failure, require, ◌>>◌, put,
  content, os_call, pure,
}
use windows_fido_logon.Machine.Triples.{
  Assertion, Triple, IsReadOnly, Triple-bind, Triple-on_failure, os_call-IsReadOnly, os_call-Triple,
  require-IsReadOnly, IsReadOnly-bind, IsReadOnly-on_failure,
}
use windows_fido_logon.LocalCredentialStore.Validity.{is_vault_valid}
use windows_fido_logon.LocalCredentialStore.Files.{
  existing, outcome_of, or_invalid, check_size, ensure_store_directory, read_protected_file,
  write_protected_file, copy_file, move_file, delete_file, load_valid, load, error_invalid_data,
  get_content, set_content, write_contents, vault_of, torn_and_failed,
}

existing-IsReadOnly : (o : Option Bytes) → IsReadOnly (existing o)
existing-IsReadOnly none P w p = p
existing-IsReadOnly (some bytes) P w p = p

outcome_of-IsReadOnly : {A : Type 0} (o : Outcome A) → IsReadOnly (outcome_of o)
outcome_of-IsReadOnly (done a) P w p = p
outcome_of-IsReadOnly (failed e) P w p = p
outcome_of-IsReadOnly thrown P w p = p

or_invalid-IsReadOnly : {A : Type 0} (o : Option A) → IsReadOnly (or_invalid o)
or_invalid-IsReadOnly none P w p = p
or_invalid-IsReadOnly (some a) P w p = p

-- What holds of a disk whatever the file contains.
abbrev pub IsBeside : File → Assertion → Type 0
IsBeside file P = (c : Option Bytes) (d : Disk) (r : Registry) → P d r → P (put d file c) r

abbrev pub Holding : File → Option Bytes → Assertion → Assertion
Holding file c P d r = P d r × (content d file ≡ c)

module _ (sys : System) where
  pub ensure_store_directory-IsReadOnly : IsReadOnly (ensure_store_directory sys)
  unfolding ensure_store_directory
  ensure_store_directory-IsReadOnly =
      IsReadOnly-bind (os_call sys) _ (os_call-IsReadOnly sys)
        λ _. IsReadOnly-bind (os_call sys) _ (os_call-IsReadOnly sys) λ _. os_call-IsReadOnly sys

  check_size-IsReadOnly : (encrypted : Bytes) → IsReadOnly (check_size sys encrypted)
  unfolding check_size
  check_size-IsReadOnly encrypted P w p =
      require-IsReadOnly
        (sys.fault w.calls == 0
          && ltb 0 (length encrypted)
          && leb (length encrypted) (4 * 1024 * 1024))
        _ P (record w { calls = w.calls + 1 }) p

  pub read_protected_file-IsReadOnly : (file : File) → IsReadOnly (read_protected_file sys file)
  unfolding read_protected_file
  read_protected_file-IsReadOnly file =
      IsReadOnly-bind (os_call sys) _ (os_call-IsReadOnly sys) λ _.
        IsReadOnly-bind (get_content file) _ (λ P w p. p)
          λ stored. IsReadOnly-bind (existing stored) _ (existing-IsReadOnly stored) λ encrypted.
            IsReadOnly-bind (check_size sys encrypted) _ (check_size-IsReadOnly encrypted) λ _.
              IsReadOnly-bind (os_call sys) _ (os_call-IsReadOnly sys)
                λ _. outcome_of-IsReadOnly (sys.unprotect encrypted)

  set_content-Triple :
      (file : File) (c : Option Bytes) (P : Assertion)
      → IsBeside file P
      → Triple P (set_content file c) (λ _ d r. P d r × (content d file ≡ c)) P
  unfolding set_content
  set_content-Triple File.primary c P frame w p = (frame _ _ _ p, refl)
  set_content-Triple File.backup c P frame w p = (frame _ _ _ p, refl)
  set_content-Triple File.temporary c P frame w p = (frame _ _ _ p, refl)
  set_content-Triple File.rollback c P frame w p = (frame _ _ _ p, refl)

  torn_and_failed-Triple :
      (file : File) (P : Assertion) (Q : Unit {0} → Assertion)
      → IsBeside file P
      → (e : ℕ) → Triple P (torn_and_failed sys file e) Q P
  unfolding set_content
  torn_and_failed-Triple file P Q frame e w p = frame _ _ _ p

  write_contents-Triple :
      (file : File) (plaintext : Bytes) (P : Assertion)
      → IsBeside file P
      → Triple P
          (write_contents sys file plaintext)
          (λ _. Holding file (some (sys.protect plaintext)) P)
          P
  unfolding write_contents
  write_contents-Triple file plaintext P frame =
      let Q : Unit {0} → Assertion = λ _. Holding file (some (sys.protect plaintext)) P in
      Triple-bind P (os_call sys) (λ _. P) _ Q P (os_call-IsReadOnly sys P)
        λ _.
          Triple-bind P (set_content file (some (sys.protect plaintext))) Q _ Q P
            (set_content-Triple file _ P frame) λ _. os_call-Triple sys (Q tt) P (λ d r p. p.0)

  -- A write that fails leaves nothing known of the file, and everything of the others.
  pub write_protected_file-Triple :
      (file : File) (plaintext : Bytes) (P : Assertion)
      → IsBeside file P
      → Triple P
          (write_protected_file sys file plaintext)
          (λ _. Holding file (some (sys.protect plaintext)) P)
          P
  unfolding write_protected_file
  write_protected_file-Triple file plaintext P frame =
      let Q : Unit {0} → Assertion = λ _. Holding file (some (sys.protect plaintext)) P in
      let call = os_call-IsReadOnly sys P in
      Triple-bind P (os_call sys) (λ _. P) _ Q P call
        λ _.
          Triple-bind P (os_call sys) (λ _. P) _ Q P call
            λ _.
              Triple-bind P (os_call sys) (λ _. P) _ Q P call
                λ _.
                  Triple-bind P (set_content file (some [])) (λ _. Holding file (some []) P) _ Q P
                    (set_content-Triple file _ P frame)
                    λ _ w p.
                      Triple-on_failure P (write_contents sys file plaintext)
                        (torn_and_failed sys file) P Q P
                        (write_contents-Triple file plaintext P frame)
                        (torn_and_failed-Triple file P Q frame) (λ d r p. p) w p.0

  beside-Triple :
      (file : File) (c : Option Bytes) (P : Assertion)
      → IsBeside file P
      → Triple P (set_content file c) (λ _. P) P
  unfolding set_content
  beside-Triple file c P frame w p = frame c w.disk w.registry p

  -- A copy touches its target only.
  pub copy_file-Triple :
      (from to : File) (P : Assertion) → IsBeside to P → Triple P (copy_file sys from to) (λ _. P) P
  unfolding copy_file
  copy_file-Triple from to P frame =
      Triple-bind P (on_failure (os_call sys) (torn_and_failed sys to)) (λ _. P) _ (λ _. P) P
        (Triple-on_failure P (os_call sys) (torn_and_failed sys to) P (λ _. P) P
          (os_call-IsReadOnly sys P) (torn_and_failed-Triple to P (λ _. P) frame) (λ d r p. p))
        λ _.
          Triple-bind P (get_content from) (λ _. P) _ (λ _. P) P (λ w p. p)
            λ stored.
              Triple-bind P (existing stored) (λ _. P) _ (λ _. P) P (existing-IsReadOnly stored P)
                λ bytes. beside-Triple to (some bytes) P frame

  get_content-Triple :
      (file : File) (P : Assertion)
      → Triple P (get_content file) (λ c d r. P d r × (content d file ≡ c)) P
  get_content-Triple file P w p = (p, refl)

  existing-Triple :
      (o : Option Bytes) (file : File) (P : Assertion)
      → Triple (Holding file o P) (existing o) (λ bytes. Holding file (some bytes) P) P
  existing-Triple none file P w p = p.0
  existing-Triple (some bytes) file P w p = p

  moved-Triple :
      (from to : File) (bytes : Bytes) (P Q : Assertion)
      → ((d : Disk) (r : Registry)
          → P d r
          → content d from ≡ some bytes
          → Q (put (put d to (some bytes)) from none) r)
      → (E : Assertion)
      → Triple
          (Holding from (some bytes) P)
          (do set_content to (some bytes); set_content from none)
          (λ _. Q)
          E
  unfolding set_content
  moved-Triple from to bytes P Q h E w (p, e) = h w.disk w.registry p e

  -- A move that succeeds puts what the source held in the target and takes the source away, and one
  -- that fails does nothing.
  pub move_file-Triple :
      (from to : File) (P Q : Assertion)
      → ((d : Disk) (r : Registry) (bytes : Bytes)
          → P d r
          → content d from ≡ some bytes
          → Q (put (put d to (some bytes)) from none) r)
      → Triple P (move_file sys from to) (λ _. Q) P
  unfolding move_file
  move_file-Triple from to P Q h =
      Triple-bind P (os_call sys) (λ _. P) _ (λ _. Q) P (os_call-IsReadOnly sys P)
        λ _.
          Triple-bind P (get_content from) (λ c. Holding from c P) _ (λ _. Q) P
            (get_content-Triple from P)
            λ stored.
              Triple-bind (Holding from stored P) (existing stored)
                (λ bytes. Holding from (some bytes) P) _ (λ _. Q) P (existing-Triple stored from P)
                λ bytes. moved-Triple from to bytes P Q (λ d r. h d r bytes) P

  delete_if-Triple :
      (b : Bool) (file : File) (P : Assertion)
      → IsBeside file P
      → Triple P (if b then set_content file none else pure tt) (λ _. P) P
  delete_if-Triple true file P frame = beside-Triple file none P frame
  delete_if-Triple false file P frame = λ w p. p

  pub delete_file-Triple :
      (file : File) (P : Assertion) → IsBeside file P → Triple P (delete_file sys file) (λ _. P) P
  unfolding delete_file
  delete_file-Triple file P frame w p =
      delete_if-Triple (sys.fault w.calls == 0) file P frame (record w { calls = w.calls + 1 }) p

module _ (sys : System) (json : JsonLibrary) where
  pub load_valid-IsReadOnly : (file : File) → IsReadOnly (load_valid sys json file)
  unfolding load_valid
  load_valid-IsReadOnly file =
      IsReadOnly-bind (read_protected_file sys file) _ (read_protected_file-IsReadOnly sys file)
        λ plaintext.
          IsReadOnly-bind (or_invalid (vault_of sys json (some plaintext))) _
            (or_invalid-IsReadOnly _)
            λ parsed.
              IsReadOnly-bind (require (is_vault_valid sys parsed) error_invalid_data) _
                (require-IsReadOnly _ _) λ _ P w p. p

  -- `Load` changes neither the files nor the registry.
  pub load-IsReadOnly : IsReadOnly (load sys json)
  unfolding load
  load-IsReadOnly =
      IsReadOnly-on_failure (load_valid sys json File.primary) _
        (load_valid-IsReadOnly File.primary)
        λ e.
          IsReadOnly-on_failure (load_valid sys json File.backup) _
            (load_valid-IsReadOnly File.backup) λ e' P w p. p
