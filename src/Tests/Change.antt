-- ===== src/Tests/Change.antt =====
-- A change of password, and a password that is protected.
use windows_fido_logon.Base.{
  ◌≡◌, ◌≢◌, refl, sym, ap, subst, Bool, true, false, some, [], ◌∷◌, Wide, bytes_eq, codes, ◌==◌,
  arith,
}
use windows_fido_logon.LocalAccount.{split_domain, resolve_local_account}
use windows_fido_logon.CredentialProviderFilter.{logon}
use windows_fido_logon.CredentialProvider.Kerb.{
  PackedChange, unicode_string_init, change_password_pack, wide_bytes,
}
use windows_fido_logon.CredentialProvider.Kerb.Change.{IsFitted, unicode_string_init-IsFitted}
use windows_fido_logon.CredentialProvider.Password.{
  CredentialApi, refused, written, protect_if_necessary_and_copy_password,
  retrieve_negotiate_auth_package,
}
use windows_fido_logon.CredentialProvider.Password.RoundTrip.{
  IsProtecting, IsRecoverable, unprotect-protect,
}
use windows_fido_logon.CredentialProvider.Credential.{
  Credential, initialize, set_mode, clear_pin, reset_mfa, full_reset, set_string_value,
}
use windows_fido_logon.CredentialProvider.Credential.Connect.{device_at, connect}
use windows_fido_logon.CredentialProvider.Credential.Serialization.{
  Serialization, change_contents, packed_change, pack_password_change, get_serialization,
  report_result,
}
use windows_fido_logon.CredentialProvider.Credential.Changed.{
  IsChangeOf, get_serialization-IsChangeOf,
}
use windows_fido_logon.Tests.Tile.{packing, signed, secret}

abbrev new_secret : Wide
new_secret = codes "nw"

-- The tile after STATUS_PASSWORD_MUST_CHANGE, with the new password typed twice.
abbrev changing : Credential
changing =
    (set_string_value 7 new_secret
      (set_string_value 6 new_secret (report_result 3221226020 0 signed).0).0).0

abbrev change_at_80 : PackedChange
change_at_80 = record {
  domain = record { length = 4; maximum_length = 4; offset = 80 };
  account = record { length = 6; maximum_length = 6; offset = 84 };
  old_password = record { length = 4; maximum_length = 4; offset = 90 };
  new_password = record { length = 4; maximum_length = 4; offset = 94 };
  extra = 80 ∷ 0 ∷ 67 ∷ 0 ∷ 97 ∷ 0 ∷ 110 ∷ 0 ∷ 110 ∷ 0 ∷ 112 ∷ 0 ∷ 119 ∷ 0 ∷ 110 ∷ 0 ∷ 119 ∷ 0 ∷ [];
  size = 98;
}

abbrev changed_serialization : Serialization
changed_serialization = record { auth_package = 9; contents = change_contents change_at_80 }

get_serialization-IsChangeOf_example : IsChangeOf packing 4096 changing changed_serialization
unfolding initialize set_mode set_string_value connect full_reset reset_mfa clear_pin
    resolve_local_account split_domain bytes_eq get_serialization packed_change pack_password_change
    retrieve_negotiate_auth_package change_password_pack report_result unicode_string_init
    wide_bytes device_at
get_serialization-IsChangeOf_example =
    get_serialization-IsChangeOf packing 4096 changing changed_serialization (omega arith) refl refl

unicode_string_init-IsFitted_example : IsFitted secret (unicode_string_init (some secret))
unicode_string_init-IsFitted_example = unicode_string_init-IsFitted secret

-- A protection that writes an `@` in front.
abbrev is_marked : Wide → Bool
is_marked [] = false
is_marked (c ∷ text) = c == 64

abbrev behind_mark : Wide → Wide
behind_mark [] = []
behind_mark (c ∷ text) = text

abbrev marking : CredentialApi
marking = record {
  is_protected = λ text. some (is_marked text);
  protect_size = λ text. refused 122 1;
  protect = λ text size. written (64 ∷ text);
  unprotect_size = λ text. refused 122 1;
  unprotect = λ text size. written (behind_mark text);
  allocates = λ size. true;
  lsa_connect = 0;
  lsa_lookup = 0;
  negotiate_package = 9;
}

marking-IsProtecting : IsProtecting marking
marking-IsProtecting = record {
  sizes = λ text h. absurd (cc);
  marks = λ text secret size h.
      subst (λ t. (t ≢ []) × (marking.is_protected t ≡ some true)) (written-injective h)
        (λ e. absurd (cc), refl);
  undoes = λ text secret size h.
      (1, omega arith, refl, ap (λ t. written (behind_mark t)) (sym (written-injective h)));
}
  where
    written-injective : {a b : Wide} → written a ≡ written b → a ≡ b
    written-injective h = cc

unprotect-protect_example :
    IsRecoverable marking secret (protect_if_necessary_and_copy_password marking secret logon)
unprotect-protect_example = unprotect-protect marking secret logon marking-IsProtecting refl refl
