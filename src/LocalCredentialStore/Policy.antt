-- ===== src/LocalCredentialStore/Policy.antt =====
-- The policy in the registry: `SynchronizeEnforcedRegistry`, `ReadEnforcedSids`, `IsSidEnforced`
-- and `RegistryReader::GetMultiSZ` of CppClient/CppClient/RegistryReader.cpp.
pub mod RoundTrip
pub mod Publish
use windows_fido_logon.Base.{
  ℕ, zero, suc, ◌+◌, Bool, true, false, Option, none, some, List, [], ◌∷◌, ◌++◌, Wide, length,
  is_empty, any, ltb, ◌==◌, if◌then◌else◌,
}
use windows_fido_logon.LocalFidoTypes.{AccountRecord, Vault}
use windows_fido_logon.Machine.{System, World, Registry, M, pure, on_failure, os_call, ◌>>=◌, ◌>>◌}

-- The SIDs of the enforced accounts, in the order of the vault.
abbrev pub enforced_of : List AccountRecord → List Wide
enforced_of [] = []
enforced_of (account ∷ rest) =
    if account.enforced then account.sid ∷ enforced_of rest else enforced_of rest

-- The loop that fills `multi`: each SID and a zero behind it.
unfoldable pub multi_sz : List AccountRecord → Wide
multi_sz [] = []
multi_sz (account ∷ rest) =
    if account.enforced then account.sid ++ (0 ∷ multi_sz rest) else multi_sz rest

-- The zero at the end, and a second one behind an empty list.
unfoldable pub closed_multi : Wide → Wide
closed_multi multi = if is_empty multi then 0 ∷ 0 ∷ [] else multi ++ 0 ∷ []

abbrev pub enabled_value : List Wide → ℕ
enabled_value [] = 0
enabled_value (sid ∷ sids) = 1

unfoldable pub set_enforced_sids : Wide → M (Unit {0})
set_enforced_sids value w =
    pure tt (record w { registry = record registry { enforced_sids = some value } })
  where
    registry : Registry
    registry = w.registry

unfoldable pub set_enable_filter : ℕ → M (Unit {0})
set_enable_filter value w =
    pure tt (record w { registry = record registry { enable_filter = some value } })
  where
    registry : Registry
    registry = w.registry

module _ (sys : System) where
  -- RegCreateKeyExW, then the two values, each only if the call before it succeeded.
  unfoldable pub synchronize_enforced_registry : Vault → M (Unit {0})
  synchronize_enforced_registry vault = do
    os_call sys
    os_call sys
    set_enforced_sids (closed_multi (multi_sz vault.accounts))
    os_call sys
    set_enable_filter (enabled_value (enforced_of vault.accounts))

-- The loop of `GetMultiSZ` over the buffer: `current` is the text up to the cursor.
pub multi_strings : Wide → Wide → List Wide
multi_strings current [] = []
multi_strings current (c ∷ cs) = elim (c == 0) [
  | true ↦ elim (is_empty current) [ true ↦ [] | false ↦ current ∷ multi_strings [] cs ]
  | false ↦ multi_strings (current ++ c ∷ []) cs
]

-- The buffer is the value with two zeros behind it. A value of less than one unit gives no texts.
pub get_multi_sz : Option Wide → List Wide
unfolding multi_strings
get_multi_sz none = []
get_multi_sz (some value) = if is_empty value then [] else multi_strings [] (value ++ 0 ∷ 0 ∷ [])

abbrev get_enforced_sids : M (Option Wide)
get_enforced_sids w = pure w.registry.enforced_sids w

-- Opening the key, asking for the size and reading the value; a call that fails gives no texts.
pub read_enforced_sids : System → M (List Wide)
unfolding get_multi_sz
read_enforced_sids sys =
    on_failure
      (do
        os_call sys
        os_call sys
        os_call sys
        stored ← get_enforced_sids
        pure (get_multi_sz stored))
      (λ _. pure [])

pub is_sid_enforced : System → Wide → M Bool
unfolding read_enforced_sids
is_sid_enforced sys sid = do
  sids ← read_enforced_sids sys
  pure (any (λ value. sys.same_text value sid) sids)
