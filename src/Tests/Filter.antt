-- ===== src/Tests/Filter.antt =====
-- Runs of the credential provider filter.
use windows_fido_logon.Base.{
  ◌≡◌, refl, true, false, not, ◌&&◌, ◌||◌, some, [], ◌∷◌, Wide, codes, bytes_eq, get_or,
}
use windows_fido_logon.CredentialProviderFilter.{
  logon, in_scope, filter, allowed_by, agrees, get_or-filter, generic_filter, module_name,
  matches_windows_generic_filter, normalize_filter_path, unquoted, is_quoted, IsGeneric,
  matches_windows_generic_filter-IsGeneric,
}
use windows_fido_logon.Tests.Samples.{system}

get_or-filter_example :
    get_or
      (allowed_by (filter logon false true (some (true ∷ false ∷ [])) (some (true ∷ true ∷ []))))
      1
      false
    ≡ (get_or (true ∷ true ∷ []) 1 false
        && ((not (in_scope logon) || false)
            || agrees true (get_or (true ∷ false ∷ []) 1 (not true))))
get_or-filter_example = get_or-filter logon false true (true ∷ false ∷ []) (true ∷ true ∷ []) 1 refl

abbrev system_directory : Wide
system_directory = codes "C:/Windows/System32"

built_in :
    matches_windows_generic_filter system some some generic_filter module_name system_directory
    ≡ true
unfolding matches_windows_generic_filter normalize_filter_path unquoted is_quoted bytes_eq
built_in = refl

matches_windows_generic_filter-IsGeneric_example :
    IsGeneric system some some generic_filter module_name system_directory
matches_windows_generic_filter-IsGeneric_example =
    matches_windows_generic_filter-IsGeneric system some some generic_filter module_name
      system_directory built_in
