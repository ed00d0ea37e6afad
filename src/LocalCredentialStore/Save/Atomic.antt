-- ===== src/LocalCredentialStore/Save/Atomic.antt =====
-- What `Save` leaves on the disk and in the registry, when it succeeds and when it does not.
use windows_fido_logon.Base.{ℕ, ◌≡◌, refl, sym, ◌∙◌, Option, none, some, Bytes}
use windows_fido_logon.LocalFidoTypes.{Vault}
use windows_fido_logon.External.Json.{JsonLibrary}
use windows_fido_logon.Machine.{
  System, World, File, Outcome, done, failed, thrown, M, pure, fail, on_failure, ◌>>=◌, ◌>>◌,
}
use windows_fido_logon.Machine.Triples.{
  Assertion, Triple, Behind, Triple-bind, Triple-branch, Triple-on_failure, Triple-weaken,
}
use windows_fido_logon.LocalCredentialStore.Policy.{synchronize_enforced_registry}
use windows_fido_logon.LocalCredentialStore.Policy.Publish.{IsPublished, synchronize-Triple}
use windows_fido_logon.LocalCredentialStore.Files.{copy_file, move_file, delete_file, load_valid}
use windows_fido_logon.LocalCredentialStore.Files.Effects.{
  Holding, copy_file-Triple, move_file-Triple, delete_file-Triple, load_valid-IsReadOnly,
}
use windows_fido_logon.LocalCredentialStore.Save.{
  keep_previous, restore_previous_file, restore_policy, publish_policy_first, publish_vault_first,
}

-- Nothing is said of a state.
abbrev pub Anything : Assertion
Anything d r = Unit {0}

pub Behind-anything :
    {A : Type 0} (o : Outcome A) (w : World) → Behind (λ _. Anything) Anything (o, w)
Behind-anything (done a) w = tt
Behind-anything (failed e) w = tt
Behind-anything thrown w = tt

failing-Triple :
    {A C : Type 0} (m : M A) (e : ℕ) (P : Assertion) (Q : C → Assertion)
    → Triple P (m >>= λ _. fail e) Q Anything
failing-Triple m e P Q =
    Triple-bind P m (λ _. Anything) (λ _. fail e) Q Anything
      (λ w p. Behind-anything (m w).0 (m w).1) (λ _ w p. p)

-- The primary file is what it was.
abbrev pub IsOld : Option Bytes → Assertion
IsOld old d r = d.primary ≡ old

-- The vault has replaced the primary file, and the registry holds its policy.
abbrev pub IsReplaced : System → Vault → Bytes → Assertion
IsReplaced sys vault text d r =
    (d.primary ≡ some (sys.protect text)) × (d.temporary ≡ none) × IsPublished vault r

module _ (sys : System) (json : JsonLibrary) (old : Option Bytes) where
  abbrev Kept : Assertion
  Kept = IsOld old

  abbrev pub Written : Bytes → Assertion
  Written text = Holding File.temporary (some (sys.protect text)) (IsOld old)

  cleaned-Triple :
      {A : Type 0} (e : ℕ) (Q : A → Assertion)
      → Triple Kept (do delete_file sys File.temporary; fail e) Q Kept
  cleaned-Triple e Q =
      Triple-bind Kept (delete_file sys File.temporary) (λ _. Kept) (λ _. fail e) Q Kept
        (delete_file-Triple sys File.temporary Kept (λ c d r p. p)) (λ _ w p. p)

  restore_policy-Triple :
      (previous : Option Vault) → Triple Kept (restore_policy sys json previous) (λ _. Kept) Kept
  unfolding restore_policy
  restore_policy-Triple none w p = p
  restore_policy-Triple (some previous) w p =
      Triple-branch Kept (synchronize_enforced_registry sys previous) (λ _. Kept) Kept
        (λ _. pure tt) (λ _. pure tt) (λ _. Kept) Kept
        (Triple-weaken Kept Kept (synchronize_enforced_registry sys previous)
          (λ _ d r. Kept d r × IsPublished previous r) (λ _. Kept) Kept Kept
          (synchronize-Triple sys (λ d. d.primary ≡ old) previous) (λ d r p. p) (λ _ d r p. p.0)
          (λ d r p. p))
        (λ _ w p. p) (λ _ w p. p) (λ d r p. p) w p

  undone-Triple :
      (e : ℕ) (previous : Option Vault) (Q : Unit {0} → Assertion)
      → Triple Kept
          (do restore_policy sys json previous; delete_file sys File.temporary; fail e)
          Q
          Kept
  undone-Triple e previous Q =
      Triple-bind Kept (restore_policy sys json previous) (λ _. Kept) _ Q Kept
        (restore_policy-Triple previous) (λ _. cleaned-Triple e Q)

  pub keep_previous-Triple :
      (text : Bytes) → Triple (Written text) (keep_previous sys json) (λ _. Written text) Kept
  unfolding keep_previous
  keep_previous-Triple text =
      let W = Written text in
      Triple-branch W (load_valid sys json File.primary) (λ _. W) W _ _ (λ _. W) Kept
        (load_valid-IsReadOnly sys json File.primary W)
        (λ previous.
          Triple-bind W
            (on_failure (copy_file sys File.primary File.backup)
              (λ e. do delete_file sys File.temporary; fail e))
            (λ _. W) (λ _. pure (some previous)) (λ _. W) Kept
            (Triple-on_failure W (copy_file sys File.primary File.backup) _ W (λ _. W) Kept
              (copy_file-Triple sys File.primary File.backup W (λ c d r p. p))
              (λ e w p. cleaned-Triple e (λ _. W) w p.0) (λ d r p. p.0))
            (λ _ w p. p))
        (λ _.
          Triple-branch W (load_valid sys json File.backup) (λ _. W) W
            (λ previous. pure (some previous)) (λ _. pure none) (λ _. W) Kept
            (load_valid-IsReadOnly sys json File.backup W) (λ _ w p. p) (λ _ w p. p) (λ d r p. p.0))
        (λ d r p. p.0)

  pub publish_policy_first-Triple :
      (vault : Vault) (text : Bytes) (previous : Option Vault)
      → Triple
          (Written text)
          (publish_policy_first sys json vault previous)
          (λ _. IsReplaced sys vault text)
          Kept
  unfolding publish_policy_first
  publish_policy_first-Triple vault text previous =
      let W = Written text in
      let Ready : Assertion = λ d r. W d r × IsPublished vault r in
      Triple-bind W _ (λ _. Ready) _ (λ _. IsReplaced sys vault text) Kept
        (Triple-on_failure W (synchronize_enforced_registry sys vault) _ W (λ _. Ready) Kept
          (synchronize-Triple sys (λ d. (d.primary ≡ old) × (d.temporary ≡ some (sys.protect text)))
            vault)
          (λ e w p. undone-Triple e previous (λ _. Ready) w p.0) (λ d r p. p.0))
        (λ _.
          Triple-on_failure Ready (move_file sys File.temporary File.primary) _ Ready
            (λ _. IsReplaced sys vault text) Kept
            (move_file-Triple sys File.temporary File.primary Ready (IsReplaced sys vault text)
              (λ d r bytes p e. (sym e ∙ p.0.1, refl, p.1)))
            (λ e w p. undone-Triple e previous (λ _. IsReplaced sys vault text) w p.0.0)
            (λ d r p. p.0.0))

  pub publish_vault_first-Triple :
      (vault : Vault) (text : Bytes) (previous : Option Vault)
      → Triple
          (Written text)
          (publish_vault_first sys json vault previous)
          (λ _. IsReplaced sys vault text)
          Anything
  unfolding publish_vault_first
  publish_vault_first-Triple vault text previous =
      let W = Written text in
      let Moved : Assertion = λ d r. (d.primary ≡ some (sys.protect text)) × (d.temporary ≡ none) in
      Triple-bind W _ (λ _. Moved) _ (λ _. IsReplaced sys vault text) Anything
        (Triple-on_failure W (move_file sys File.temporary File.primary) _ W (λ _. Moved) Anything
          (move_file-Triple sys File.temporary File.primary W Moved
            (λ d r bytes p e. (sym e ∙ p.1, refl)))
          (λ e. failing-Triple (delete_file sys File.temporary) e W (λ _. Moved)) (λ d r p. tt))
        (λ _.
          Triple-on_failure Moved (synchronize_enforced_registry sys vault) _ Moved
            (λ _. IsReplaced sys vault text) Anything
            (Triple-weaken Moved Moved (synchronize_enforced_registry sys vault) _
              (λ _. IsReplaced sys vault text) Moved Moved
              (synchronize-Triple sys
                (λ d. (d.primary ≡ some (sys.protect text)) × (d.temporary ≡ none)) vault)
              (λ d r p. p) (λ _ d r p. (p.0.0, p.0.1, p.1)) (λ d r p. p))
            (λ e.
              Triple-bind Moved (restore_previous_file sys json previous) (λ _. Anything) _
                (λ _. IsReplaced sys vault text) Anything (λ w p. Behind-anything _ _)
                (λ _.
                  failing-Triple (restore_policy sys json previous) e Anything
                    (λ _. IsReplaced sys vault text)))
            (λ d r p. tt))
