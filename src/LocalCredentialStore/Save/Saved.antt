-- ===== src/LocalCredentialStore/Save/Saved.antt =====
-- What `Save` as a whole promises.
use windows_fido_logon.Base.{
  ◌≡◌, ◌≢◌, ◌⊎◌, inl, inr, refl, subst, Bool-cases, Bool, true, false, Option, some, Bytes,
}
use windows_fido_logon.LocalFidoTypes.{Vault}
use windows_fido_logon.External.Json.{JsonLibrary}
use windows_fido_logon.Machine.{
  System, World, Disk, File, Registry, Outcome, done, failed, thrown, M, require, or_throw, ◌>>=◌,
  ◌>>◌,
}
use windows_fido_logon.Machine.Triples.{
  Assertion, Triple, Behind, Implies, Triple-bind, Triple-weaken, require-Triple, or_throw-Triple,
}
use windows_fido_logon.LocalCredentialStore.VaultJson.{vault_to_json}
use windows_fido_logon.LocalCredentialStore.Validity.{is_vault_valid}
use windows_fido_logon.LocalCredentialStore.Files.{
  ensure_store_directory, write_protected_file, error_invalid_data,
}
use windows_fido_logon.LocalCredentialStore.Files.Effects.{
  ensure_store_directory-IsReadOnly, write_protected_file-Triple,
}
use windows_fido_logon.LocalCredentialStore.Save.Atomic.{
  Anything, IsOld, Written, IsReplaced, keep_previous-Triple, publish_policy_first-Triple,
  publish_vault_first-Triple,
}
use windows_fido_logon.LocalCredentialStore.Save.{
  has_enforced_accounts, keep_previous, publish_policy_first, publish_vault_first, publish, save,
}

module _ (sys : System) (json : JsonLibrary) where
  -- What every save that succeeds has done.
  abbrev pub IsSaved : Vault → Assertion
  IsSaved vault d r =
      (is_vault_valid sys vault ≡ true)
      × ((text : Bytes) × (json.dump (vault_to_json sys json vault) ≡ some text)
          × IsReplaced sys vault text d r)

module _ (sys : System) (json : JsonLibrary) (old : Option Bytes) where
  at_all :
      {b : Bool} {E : Assertion}
      → b ≡ false
      → (b ≡ true) ⊎ ((d : Disk) (r : Registry) → E d r)
      → Implies Anything E
  at_all e (inl e') = absurd (cc)
  at_all e (inr h) = λ d r _. h d r

  or_worse :
      {A : Type 0} (P : Assertion) (m : M A) (Q : A → Assertion) (E : Assertion)
      → Implies (IsOld old) E
      → Triple P m Q (IsOld old)
      → Triple P m Q E
  or_worse P m Q E weak t = Triple-weaken P P m Q Q (IsOld old) E t (λ d r p. p) (λ _ d r p. p) weak

  publish-Triple :
      (vault : Vault) (text : Bytes) (previous : Option Vault) (E : Assertion)
      → Implies (IsOld old) E
      → (has_enforced_accounts vault ≡ true) ⊎ ((d : Disk) (r : Registry) → E d r)
      → Triple
          (Written sys json old text)
          (publish sys json vault previous)
          (λ _. IsReplaced sys vault text)
          E
  unfolding publish
  publish-Triple vault text previous E weak h = elim (Bool-cases (has_enforced_accounts vault)) [
    | inl e ↦ rw (e) (
        Triple-weaken _ _ (publish_policy_first sys json vault previous) _
          (λ _. IsReplaced sys vault text) (IsOld old) E
          (publish_policy_first-Triple sys json old vault text previous) (λ d r p. p) (λ _ d r p. p)
          weak)
    | inr e ↦ rw (e) (
        Triple-weaken _ _ (publish_vault_first sys json vault previous) _
          (λ _. IsReplaced sys vault text) Anything E
          (publish_vault_first-Triple sys json old vault text previous) (λ d r p. p) (λ _ d r p. p)
          (at_all e h))
  ]

  written :
      (vault : Vault) (E : Assertion)
      → Implies (IsOld old) E
      → (has_enforced_accounts vault ≡ true) ⊎ ((d : Disk) (r : Registry) → E d r)
      → (text : Bytes) → is_vault_valid sys vault ≡ true
      → json.dump (vault_to_json sys json vault) ≡ some text
      → Triple
          (IsOld old)
          (do
            write_protected_file sys File.temporary text
            previous ← keep_previous sys json
            publish sys json vault previous)
          (λ _. IsSaved sys json vault)
          E
  written vault E weak h text valid dumped =
      Triple-bind (IsOld old) (write_protected_file sys File.temporary text)
        (λ _. Written sys json old text) _ (λ _. IsSaved sys json vault) E
        (or_worse (IsOld old) (write_protected_file sys File.temporary text)
          (λ _. Written sys json old text) E weak
          (write_protected_file-Triple sys File.temporary text (IsOld old) (λ c d r p. p)))
        (λ _.
          Triple-bind (Written sys json old text) (keep_previous sys json)
            (λ _. Written sys json old text) (publish sys json vault) (λ _. IsSaved sys json vault)
            E
            (or_worse (Written sys json old text) (keep_previous sys json)
              (λ _. Written sys json old text) E weak (keep_previous-Triple sys json old text))
            (λ previous.
              Triple-weaken (Written sys json old text) (Written sys json old text)
                (publish sys json vault previous) (λ _. IsReplaced sys vault text)
                (λ _. IsSaved sys json vault) E E (publish-Triple vault text previous E weak h)
                (λ d r p. p) (λ _ d r p. (valid, (text, dumped, p))) (λ d r p. p)))

  save-Triple :
      (vault : Vault) (E : Assertion)
      → Implies (IsOld old) E
      → (has_enforced_accounts vault ≡ true) ⊎ ((d : Disk) (r : Registry) → E d r)
      → Triple (IsOld old) (save sys json vault) (λ _. IsSaved sys json vault) E
  unfolding save
  save-Triple vault E weak h =
      Triple-bind (IsOld old) (require (is_vault_valid sys vault) error_invalid_data)
        (λ _ d r. (IsOld old) d r × (is_vault_valid sys vault ≡ true)) _ _ E
        (or_worse (IsOld old) (require (is_vault_valid sys vault) error_invalid_data)
          (λ _ d r. (IsOld old) d r × (is_vault_valid sys vault ≡ true)) E weak
          (require-Triple (is_vault_valid sys vault) error_invalid_data (IsOld old)))
        λ _ w p.
          Triple-bind (IsOld old) (ensure_store_directory sys) (λ _. (IsOld old)) _
            (λ _. IsSaved sys json vault) E
            (or_worse (IsOld old) (ensure_store_directory sys) (λ _. (IsOld old)) E weak
              (ensure_store_directory-IsReadOnly sys (IsOld old)))
            (λ _.
              Triple-bind (IsOld old) (or_throw dumped)
                (λ text d r. (IsOld old) d r × (dumped ≡ some text)) _ (λ _. IsSaved sys json vault)
                E
                (or_worse (IsOld old) (or_throw dumped)
                  (λ text d r. (IsOld old) d r × (dumped ≡ some text)) E weak
                  (or_throw-Triple dumped (IsOld old)))
                (λ text w q. written vault E weak h text p.1 q.1 w q.0))
            w p.0
    where
      dumped : Option Bytes
      dumped = json.dump (vault_to_json sys json vault)

behind-eq-done :
    {A : Type 0} (Q : A → Assertion) (E : Assertion) {r : Outcome A × World} {a : A} {w : World}
    → r ≡ (done a, w)
    → Behind Q E r
    → Q a w.disk w.registry
behind-eq-done Q E e h = subst (Behind Q E) e h

behind-not_done :
    (E : Assertion) (Q : Unit {0} → Assertion) (r : Outcome (Unit {0}) × World)
    → r.0 ≢ done tt
    → Behind Q E r
    → E r.1.disk r.1.registry
behind-not_done E Q (done tt, w) n h = absurd (n refl)
behind-not_done E Q (failed e, w) n h = h
behind-not_done E Q (thrown, w) n h = h

-- A `Save` that succeeds was given a valid vault; the primary file then holds the protected text of
-- the vault's JSON, the temporary file is gone, and the registry holds the policy of the vault.
pub save-IsSaved :
    (sys : System) (json : JsonLibrary) (vault : Vault) (w after : World)
    → save sys json vault w ≡ (done tt, after)
    → IsSaved sys json vault after.disk after.registry
save-IsSaved sys json vault w after h =
    behind-eq-done (λ _. IsSaved sys json vault) Anything h
      (save-Triple sys json w.disk.primary vault Anything (λ _ _ _. tt) (inr (λ _ _. tt)) w refl)

-- A `Save` of a vault that enforces an account either succeeds or leaves the primary file as it was,
-- whichever of its calls fails, and whatever the failed calls have left in their own files.
pub save-IsOld :
    (sys : System) (json : JsonLibrary) (vault : Vault) (w : World)
    → has_enforced_accounts vault ≡ true
    → (save sys json vault w).0 ≢ done tt
    → (save sys json vault w).1.disk.primary ≡ w.disk.primary
save-IsOld sys json vault w enforced n =
    behind-not_done (λ d r. d.primary ≡ w.disk.primary) (λ _. IsSaved sys json vault)
      (save sys json vault w) n
      (save-Triple sys json w.disk.primary vault (λ d r. d.primary ≡ w.disk.primary) (λ _ _ p. p)
        (inl enforced) w refl)
