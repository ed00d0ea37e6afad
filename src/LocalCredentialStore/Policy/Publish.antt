-- ===== src/LocalCredentialStore/Policy/Publish.antt =====
-- What `SynchronizeEnforcedRegistry` publishes.
use windows_fido_logon.Base.{◌≡◌, refl, some, Wide}
use windows_fido_logon.LocalFidoTypes.{Vault}
use windows_fido_logon.Machine.{System, Disk, Registry, os_call}
use windows_fido_logon.Machine.Triples.{
  Assertion, Triple, Triple-bind, os_call-IsReadOnly, os_call-Triple,
}
use windows_fido_logon.LocalCredentialStore.Policy.{
  enforced_of, multi_sz, closed_multi, enabled_value, set_enforced_sids, set_enable_filter,
  synchronize_enforced_registry,
}

-- The registry holds the policy of the vault.
abbrev pub IsPublished : Vault → Registry → Type 0
IsPublished vault r =
    (r.enforced_sids ≡ some (closed_multi (multi_sz vault.accounts)))
    × (r.enable_filter ≡ some (enabled_value (enforced_of vault.accounts)))

module _ (sys : System) (D : Disk → Type 0) where
  set_enforced_sids-Triple :
      (value : Wide)
      → Triple
          (λ d _. D d)
          (set_enforced_sids value)
          (λ _ d r. D d × (r.enforced_sids ≡ some value))
          (λ d _. D d)
  unfolding set_enforced_sids
  set_enforced_sids-Triple value w p = (p, refl)

  set_enable_filter-Triple :
      (vault : Vault)
      → Triple
          (λ d r. D d × (r.enforced_sids ≡ some (closed_multi (multi_sz vault.accounts))))
          (set_enable_filter (enabled_value (enforced_of vault.accounts)))
          (λ _ d r. D d × IsPublished vault r)
          (λ d _. D d)
  unfolding set_enable_filter
  set_enable_filter-Triple vault w (p, e) = (p, (e, refl))

  -- It leaves the files alone, and the registry holds the policy when it succeeds.
  pub synchronize-Triple :
      (vault : Vault)
      → Triple
          (λ d _. D d)
          (synchronize_enforced_registry sys vault)
          (λ _ d r. D d × IsPublished vault r)
          (λ d _. D d)
  unfolding synchronize_enforced_registry
  synchronize-Triple vault =
      let P : Assertion = λ d _. D d in
      let multi = closed_multi (multi_sz vault.accounts) in
      let Listed : Assertion = λ d r. D d × (r.enforced_sids ≡ some multi) in
      let Q : Unit {0} → Assertion = λ _ d r. D d × IsPublished vault r in
      Triple-bind P (os_call sys) (λ _. P) _ Q P (os_call-IsReadOnly sys P)
        λ _.
          Triple-bind P (os_call sys) (λ _. P) _ Q P (os_call-IsReadOnly sys P)
            λ _.
              Triple-bind P (set_enforced_sids multi) (λ _. Listed) _ Q P
                (set_enforced_sids-Triple multi)
                λ _.
                  Triple-bind Listed (os_call sys) (λ _. Listed) _ Q P
                    (os_call-Triple sys Listed P (λ d r p. p.0)) λ _. set_enable_filter-Triple vault
