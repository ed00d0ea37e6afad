-- ===== src/CredentialProviderFilter.antt =====
-- CredentialProviderFilter/CCredentialProviderFilter.cpp and
-- CppClient/CppClient/CredentialProviderFilters.h: which providers are denied, and which filters of
-- other vendors count as Windows' own.
use windows_fido_logon.Base.{
  ℕ, zero, suc, ◌-◌, ◌≡◌, refl, sym, ◌⊎◌, inl, inr, Bool, true, false, not, ◌&&◌, ◌||◌, Option,
  none, some, List, [], ◌∷◌, ◌++◌, Wide, codes, length, is_empty, get_or, take, drop, leb, ◌==◌,
  if◌then◌else◌, arith, Bool-cases, eq_of_not,
}
use windows_fido_logon.Machine.{System}

-- The usage scenarios of a credential provider.
pub data Scenario : Type 0 where
  logon unlock_workstation change_password credui plap : Scenario

abbrev pub in_scope : Scenario → Bool
in_scope logon = true
in_scope unlock_workstation = true
in_scope _ = false

-- The loop over the providers; an entry of `is_ours` says whether the provider is the product's.
pub deny : Bool → List Bool → List Bool → List Bool
deny enabled (is_ours ∷ providers) (allowed ∷ rest) =
    (if enabled && not is_ours || not enabled && is_ours then false else allowed)
    ∷ deny enabled providers rest
deny enabled [] allowed = allowed
deny enabled (is_ours ∷ providers) [] = []

pub data FilterResult : Type 0 where
  invalid_argument : FilterResult
  filtered : List Bool → FilterResult

-- `Filter`; `none` is a null pointer, `remote` GetSystemMetrics(SM_REMOTESESSION), and `enabled` the
-- value `enable_filter` of the registry.
pub filter :
    Scenario → (remote enabled : Bool) → Option (List Bool) → Option (List Bool) → FilterResult
unfolding deny
filter scenario remote enabled (some providers) (some allowed) =
    if not (in_scope scenario) || remote
    then filtered allowed
    else filtered (deny enabled providers allowed)
filter scenario remote enabled none allowed = invalid_argument
filter scenario remote enabled (some providers) none = invalid_argument

abbrev pub agrees : Bool → Bool → Bool
agrees enabled is_ours = enabled && is_ours || not enabled && not is_ours

and_true : (a : Bool) → (a && true) ≡ a
and_true true = refl
and_true false = refl

-- What the entry of a provider says behind the loop.
get_or-deny :
    (enabled : Bool) (providers allowed : List Bool) (i : ℕ)
    → length providers ≡ length allowed
    → get_or (deny enabled providers allowed) i false
      ≡ (get_or allowed i false && agrees enabled (get_or providers i (not enabled)))
unfolding deny
get_or-deny enabled [] [] i h = refl
get_or-deny enabled [] (a ∷ allowed) i h = absurd (omega (arith, h))
get_or-deny enabled (p ∷ providers) [] i h = absurd (omega (arith, h))
get_or-deny true (true ∷ providers) (true ∷ allowed) zero h = refl
get_or-deny true (true ∷ providers) (false ∷ allowed) zero h = refl
get_or-deny true (false ∷ providers) (true ∷ allowed) zero h = refl
get_or-deny true (false ∷ providers) (false ∷ allowed) zero h = refl
get_or-deny false (true ∷ providers) (true ∷ allowed) zero h = refl
get_or-deny false (true ∷ providers) (false ∷ allowed) zero h = refl
get_or-deny false (false ∷ providers) (true ∷ allowed) zero h = refl
get_or-deny false (false ∷ providers) (false ∷ allowed) zero h = refl
get_or-deny enabled (p ∷ providers) (a ∷ allowed) (suc i) h =
    get_or-deny enabled providers allowed i (omega (arith, h))

-- The list that `Filter` leaves behind.
abbrev pub allowed_by : FilterResult → List Bool
allowed_by invalid_argument = []
allowed_by (filtered allowed) = allowed

-- At a local logon or unlock, `Filter` leaves a provider allowed exactly if it was allowed before
-- and it is the product's own provider when the policy is on, and any other when it is off; in
-- every other scenario, and in a remote session, it leaves each entry as it was.
pub get_or-filter :
    (scenario : Scenario) (remote enabled : Bool) (providers allowed : List Bool) (i : ℕ)
    → length providers ≡ length allowed
    → get_or (allowed_by (filter scenario remote enabled (some providers) (some allowed))) i false
      ≡ (get_or allowed i false
          && ((not (in_scope scenario) || remote)
              || agrees enabled (get_or providers i (not enabled))))
unfolding filter
get_or-filter scenario remote enabled providers allowed i h =
    elim (Bool-cases (not (in_scope scenario) || remote)) [
      | inl e ↦ rw (e) (sym (and_true (get_or allowed i false)))
      | inr e ↦ rw (e) (get_or-deny enabled providers allowed i h)
    ]

abbrev pub generic_filter : Wide
generic_filter = codes "{DDC0EED2-ADBE-40B6-A217-EDE16A79A0DE}"

abbrev pub module_name : Wide
module_name = codes "credprovs.dll"

abbrev pub in_system_directory : Wide → Wide → Wide
in_system_directory system_directory name = system_directory ++ b'\\' ∷ name

module _ (sys : System) (expand full_path : Wide → Option Wide) where
  -- The quotation marks around a path.
  unfoldable pub is_quoted : Wide → Bool
  is_quoted path =
      leb 2 (length path) && get_or path 0 0 == b'"' && get_or path (length path - 1) 0 == b'"'

  unfoldable pub unquoted : Wide → Wide
  unquoted path = if is_quoted path then take (length path - 2) (drop 1 path) else path

  abbrev or_empty : Option Wide → Wide
  or_empty none = []
  or_empty (some path) = path

  -- `NormalizeFilterPath`: ExpandEnvironmentStringsW, the quotation marks, GetFullPathNameW; empty
  -- if either call fails.
  unfoldable pub normalize_filter_path : Wide → Wide
  normalize_filter_path raw = elim (expand raw) [
    | none ↦ []
    | some path ↦ or_empty (full_path (unquoted path))
  ]

  unfoldable pub matches_windows_generic_filter : Wide → Wide → Wide → Bool
  matches_windows_generic_filter clsid server system_directory =
      let candidate =
        if sys.same_text server module_name
        then in_system_directory system_directory server
        else server in
      let path = normalize_filter_path candidate in
      let expected = normalize_filter_path (in_system_directory system_directory module_name) in
      sys.same_text clsid generic_filter
      && not (is_empty path)
      && not (is_empty expected)
      && sys.same_text path expected

  -- `IsWindowsGenericFilter`: the system directory and the registered server, `none` if either
  -- cannot be read.
  pub is_windows_generic_filter : Wide → Option Wide → Option Wide → Bool
  is_windows_generic_filter clsid (some system_directory) (some server) =
      matches_windows_generic_filter clsid server system_directory
  is_windows_generic_filter clsid none server = false
  is_windows_generic_filter clsid (some system_directory) none = false

  conjuncts :
      (a b c d : Bool)
      → (a && b && c && d) ≡ true
      → (a ≡ true) × (b ≡ true) × (c ≡ true) × (d ≡ true)
  conjuncts a b c d h = (ground arith, ground arith, ground arith, ground arith)

  -- What a registration must be to pass for Windows' own.
  pub record IsGeneric (clsid server system_directory : Wide) : Type 0 where
    pub class_id : sys.same_text clsid generic_filter ≡ true
    pub path : Wide
    pub located :
        (path ≡ normalize_filter_path server)
        ⊎ ((sys.same_text server module_name ≡ true)
            × (path ≡ normalize_filter_path (in_system_directory system_directory server)))
    pub exists : is_empty path ≡ false
    pub same_file :
        sys.same_text path
          (normalize_filter_path (in_system_directory system_directory module_name))
        ≡ true

  located :
      (server system_directory : Wide) (b : Bool)
      → sys.same_text server module_name ≡ b
      → (normalize_filter_path (if b then in_system_directory system_directory server else server)
          ≡ normalize_filter_path server)
        ⊎ ((sys.same_text server module_name ≡ true)
            × (normalize_filter_path
                  (if b then in_system_directory system_directory server else server)
                ≡ normalize_filter_path (in_system_directory system_directory server)))
  located server system_directory true e = inr (e, refl)
  located server system_directory false e = inl refl

  -- A filter passes for Windows' own only under the class of the built-in one, and only if its
  -- server, taken from the system directory where the bare name is registered, has a full path that is the
  -- one of credprovs.dll in the system directory.
  pub matches_windows_generic_filter-IsGeneric :
      (clsid server system_directory : Wide)
      → matches_windows_generic_filter clsid server system_directory ≡ true
      → IsGeneric clsid server system_directory
  unfolding matches_windows_generic_filter
  matches_windows_generic_filter-IsGeneric clsid server system_directory h =
      let (class_id, exists, _, same_file) =
        conjuncts (sys.same_text clsid generic_filter) _ _ _ h in
      record {
        class_id = class_id;
        path = _;
        located = located server system_directory _ refl;
        exists = eq_of_not _ exists;
        same_file = same_file;
      }
