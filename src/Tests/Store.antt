-- ===== src/Tests/Store.antt =====
-- Runs of CppClient/CppClient/LocalCredentialStore.cpp.
use windows_fido_logon.Base.{
  ◌≡◌, refl, ap, none, some, [], ◌∷◌, bytes_eq, arith, traverse, ◌==◌, if◌then◌else◌,
}
use windows_fido_logon.Convert.{
  base64url_decode, base64url_encode, base64_encode, from_url, from_url_char, decode_base64_strict,
  padding_ok, decode_loop, finish_decode, trailing_bits_clear, padding_from_back, base64_value,
  base64_char, to_url_char,
}
use windows_fido_logon.Machine.{System, done, failed}
use windows_fido_logon.LocalCredentialStore.Validity.{
  is_vault_valid, accounts_valid, account_valid, credentials_valid, credential_valid, folded_sid,
}
use windows_fido_logon.LocalCredentialStore.Policy.{
  enforced_of, multi_sz, closed_multi, get_multi_sz, set_enforced_sids, set_enable_filter,
  synchronize_enforced_registry,
}
use windows_fido_logon.LocalCredentialStore.Policy.RoundTrip.{IsText, get_multi_sz-closed_multi}
use windows_fido_logon.LocalCredentialStore.Files.{
  set_content, ensure_store_directory, write_protected_file, write_contents, copy_file, move_file,
  delete_file, load_valid, read_protected_file, check_size,
}
use windows_fido_logon.LocalCredentialStore.Save.{
  save, publish, publish_policy_first, keep_previous, restore_policy,
}
use windows_fido_logon.LocalCredentialStore.Save.Saved.{IsSaved, save-IsSaved, save-IsOld}
use windows_fido_logon.Tests.Samples.{json, system, system_with, world, vault, sid, account}

sid-IsText : IsText sid
sid-IsText = (λ e. absurd (cc), (ground arith))

get_multi_sz-closed_multi_example :
    get_multi_sz (some (closed_multi (multi_sz (account ∷ [])))) ≡ enforced_of (account ∷ [])
get_multi_sz-closed_multi_example = get_multi_sz-closed_multi (account ∷ []) ((λ e. sid-IsText), tt)

-- The move of the new file over the primary one fails.
abbrev failing : System
failing = system_with (λ n. if n == 13 then 5 else 0)

saved : (save system json vault world).0 ≡ done tt
unfolding save publish publish_policy_first keep_previous restore_policy set_content
    ensure_store_directory write_protected_file write_contents copy_file move_file delete_file
    load_valid read_protected_file check_size is_vault_valid accounts_valid account_valid
    credentials_valid credential_valid folded_sid set_enforced_sids set_enable_filter
    synchronize_enforced_registry multi_sz closed_multi base64url_decode base64url_encode from_url
    traverse from_url_char decode_base64_strict padding_ok decode_loop finish_decode
    trailing_bits_clear padding_from_back base64_value base64_char base64_encode to_url_char
    bytes_eq
saved = refl

not_moved : (save failing json vault world).0 ≡ failed 5
unfolding save publish publish_policy_first keep_previous restore_policy set_content
    ensure_store_directory write_protected_file write_contents copy_file move_file delete_file
    load_valid read_protected_file check_size is_vault_valid accounts_valid account_valid
    credentials_valid credential_valid folded_sid set_enforced_sids set_enable_filter
    synchronize_enforced_registry multi_sz closed_multi base64url_decode base64url_encode from_url
    traverse from_url_char decode_base64_strict padding_ok decode_loop finish_decode
    trailing_bits_clear padding_from_back base64_value base64_char base64_encode to_url_char
    bytes_eq
not_moved = refl

save-IsSaved_example :
    IsSaved system json vault
      (save system json vault world).1.disk
      (save system json vault world).1.registry
save-IsSaved_example =
    save-IsSaved system json vault world (save system json vault world).1
      (ap (λ o. (o, (save system json vault world).1)) saved)

save-IsOld_example : (save failing json vault world).1.disk.primary ≡ none
save-IsOld_example =
    save-IsOld failing json vault world refl (λ e. absurd (let n = not_moved in cc))
