-- ===== src/Tests/Tile.antt =====
-- Runs of the tile of a local user.
use windows_fido_logon.Base.{
  ◌≡◌, refl, sym, subst, true, false, none, some, [], ◌∷◌, ◌*◌, length, Wide, bytes_eq, codes,
  arith,
}
use windows_fido_logon.LocalFidoTypes.{AuthenticationChallenge, FidoSignResponse}
use windows_fido_logon.LocalAccount.{split_domain, resolve_local_account}
use windows_fido_logon.LocalAccount.Local.{IsLocal}
use windows_fido_logon.Tests.Accounts.{
  machine, machine-KnowsNames, ann, computer, ann_sid, ann_account,
}
use windows_fido_logon.CredentialProviderFilter.{logon}
use windows_fido_logon.CredentialProvider.HResult.{s_ok}
use windows_fido_logon.CredentialProvider.Password.{
  CredentialApi, succeeded, write_failed, protect_if_necessary_and_copy_password,
  retrieve_negotiate_auth_package,
}
use windows_fido_logon.CredentialProvider.Kerb.{
  Logon, PackedLogon, unicode_string_init, logon_init, logon_pack, wide_bytes, UnicodeString,
  interactive_logon,
}
use windows_fido_logon.CredentialProvider.Kerb.RoundTrip.{IsReadBack, logon_unpack-logon_pack}
use windows_fido_logon.CredentialProvider.Credential.{
  Mode, Device, Credential, initialize, set_mode, clear_pin, reset_mfa, full_reset, retire,
  set_string_value,
}
use windows_fido_logon.CredentialProvider.Credential.Connect.{Environment, device_at, connect}
use windows_fido_logon.CredentialProvider.Credential.Serialization.{
  Packing, Serialization, logon_contents, pack_logon, get_serialization, report_result,
}
use windows_fido_logon.CredentialProvider.Credential.Steps.{
  Reachable, initial, next, set_string_value_step, connect_step, report_result_step, retire_step,
}
use windows_fido_logon.CredentialProvider.Credential.Approved.{IsAccount, IsApproved}
use windows_fido_logon.CredentialProvider.Credential.Safety.{get_serialization-IsApproved}
use windows_fido_logon.CredentialProvider.Credential.Cleared.{IsErased}
use windows_fido_logon.CredentialProvider.Credential.Retired.{Reachable-IsErased}
use windows_fido_logon.CredentialProvider.Credential.Flags.{connect-keeps_approval}
use windows_fido_logon.CredentialProvider.Credential.Focus.{IsUsable, set_mode-IsUsable}
use windows_fido_logon.CredentialProvider.Credential.Packed.{
  IsPackable, IsLogonOf, get_serialization-IsLogonOf,
}
use windows_fido_logon.CredentialProvider.Credential.Completes.{IsReady, sign_in-finishes}
use windows_fido_logon.CredentialProvider.Credential.LocalUser.{
  account_of, resolution_of, IsOn, machine-IsStable, Carries, get_serialization-IsLocal,
}

abbrev key : Device
key = record { path = codes "hid#1"; has_pin = true }

abbrev challenge : AuthenticationChallenge
challenge = record {
  enforced = true;
  session_id = codes "s";
  rp_id = codes "rp";
  origin = codes "o";
  request = record {
    challenge = codes "c";
    rp_id = codes "rp";
    user_verification = codes "required";
    type = codes "webauthn";
    allow_credentials = codes "id" ∷ [];
  };
}

abbrev response : FidoSignResponse
response = record { client_data = []; assertions = [] }

-- Nobody cancels, and the broker accepts what the key signs.
abbrev pub environment : Environment
environment = record {
  cancelled = λ n. false;
  resolve_local_account = λ name. resolution_of (resolve_local_account machine name);
  same_text = bytes_eq;
  begin_authentication = λ sid. some challenge;
  is_sid_enforced = λ sid. true;
  get_devices = key ∷ [];
  select_by_touch = λ devices. none;
  sign = λ device request origin pin. some response;
  finish_authentication = λ session assertion. true;
}

abbrev Met : Environment → Type 0
Met env = env ≡ environment

environment-IsOn : (env : Environment) → Met env → IsOn machine env
environment-IsOn env same = subst (IsOn machine) (sym same) (λ name. refl)

abbrev api : CredentialApi
api = record {
  is_protected = λ text. some true;
  protect_size = λ text. succeeded;
  protect = λ text size. write_failed 5;
  unprotect_size = λ text. succeeded;
  unprotect = λ text size. write_failed 5;
  allocates = λ size. true;
  lsa_connect = 0;
  lsa_lookup = 0;
  negotiate_package = 9;
}

abbrev pub packing : Packing
packing = record { api = api; logon_size = 64; change_size = 80; allocated = true }

abbrev pub secret : Wide
secret = codes "pw"

abbrev pin : Wide
pin = codes "1234"

-- The tile, with its password, after the first Connect, with the PIN, and after the second Connect.
abbrev fresh : Credential
fresh = initialize logon ann computer [] ann_sid

abbrev with_password : Credential
with_password = (set_string_value 4 secret fresh).0

abbrev waits : Credential
waits = (connect environment with_password).0

abbrev with_pin : Credential
with_pin = (set_string_value 5 pin waits).0

abbrev pub signed : Credential
signed = (connect environment with_pin).0

signed-Reachable : Reachable Met signed
signed-Reachable =
    next
      (next
        (next (next (initial logon ann computer ann_sid) (set_string_value_step 4 secret fresh))
          (connect_step environment with_password refl))
        (set_string_value_step 5 pin waits))
      (connect_step environment with_pin refl)

get_serialization-IsApproved_example :
    (signed.retired ≡ false)
    × IsAccount Met signed.user_sid signed.username signed.domain signed.sid
    × IsApproved Met signed.sid
unfolding initialize set_mode set_string_value connect full_reset reset_mfa clear_pin
    resolve_local_account split_domain bytes_eq get_serialization pack_logon
    protect_if_necessary_and_copy_password retrieve_negotiate_auth_package logon_init logon_pack
    unicode_string_init wide_bytes device_at
get_serialization-IsApproved_example =
    get_serialization-IsApproved packing signed _
      (machine-IsStable machine machine-KnowsNames environment-IsOn) signed-Reachable refl

Reachable-IsErased_example : IsErased (report_result 0 0 (retire signed)).0
unfolding initialize set_mode set_string_value connect full_reset reset_mfa clear_pin
    resolve_local_account split_domain bytes_eq device_at retire report_result
Reachable-IsErased_example =
    Reachable-IsErased
      (next (next signed-Reachable (retire_step signed)) (report_result_step 0 0 (retire signed)))
      refl

-- The broker cannot be reached.
abbrev offline : Environment
offline = record environment { begin_authentication = λ sid. none }

connect-keeps_approval_example : signed.mfa_complete ≡ true
unfolding initialize set_mode set_string_value connect full_reset reset_mfa clear_pin
    resolve_local_account split_domain bytes_eq device_at
connect-keeps_approval_example = connect-keeps_approval offline signed (λ h. absurd (cc)) refl

set_mode-IsUsable_example : IsUsable (set_mode Mode.fido fresh)
set_mode-IsUsable_example = set_mode-IsUsable Mode.fido fresh

abbrev packed_at_64 : PackedLogon
packed_at_64 = record {
  message_type = interactive_logon;
  domain = record { length = 4; maximum_length = 4; offset = 64 };
  username = record { length = 6; maximum_length = 6; offset = 68 };
  password = record { length = 4; maximum_length = 4; offset = 74 };
  extra = 80 ∷ 0 ∷ 67 ∷ 0 ∷ 97 ∷ 0 ∷ 110 ∷ 0 ∷ 110 ∷ 0 ∷ 112 ∷ 0 ∷ 119 ∷ 0 ∷ [];
  size = 78;
}

abbrev string_of : Wide → UnicodeString
string_of text = record {
  length = length text * 2;
  maximum_length = length text * 2;
  buffer = text;
}

abbrev logon_of_ann : Logon
logon_of_ann = record {
  message_type = interactive_logon;
  domain = string_of computer;
  username = string_of ann;
  password = string_of secret;
}

logon_unpack-logon_pack_example : IsReadBack 64 4096 packed_at_64 computer ann secret
unfolding logon_init logon_pack unicode_string_init wide_bytes
logon_unpack-logon_pack_example =
    logon_unpack-logon_pack 64 4096 computer ann secret logon logon_of_ann packed_at_64
      (omega arith) refl refl

abbrev serialized : Serialization
serialized = record { auth_package = 9; contents = logon_contents packed_at_64 }

get_serialization-IsLocal_example :
    IsLocal machine
      (record { username = signed.username; computer = signed.domain; sid = signed.sid })
    × Carries packing 4096 signed serialized
    × IsApproved Met signed.sid
unfolding initialize set_mode set_string_value connect full_reset reset_mfa clear_pin
    resolve_local_account split_domain bytes_eq get_serialization pack_logon
    protect_if_necessary_and_copy_password retrieve_negotiate_auth_package logon_init logon_pack
    unicode_string_init wide_bytes device_at
get_serialization-IsLocal_example =
    get_serialization-IsLocal machine machine-KnowsNames environment-IsOn packing 4096 signed
      serialized (omega arith) (omega arith) signed-Reachable refl

get_serialization-IsLogonOf_example : IsLogonOf packing 4096 signed serialized
unfolding initialize set_mode set_string_value connect full_reset reset_mfa clear_pin
    resolve_local_account split_domain bytes_eq get_serialization pack_logon
    protect_if_necessary_and_copy_password retrieve_negotiate_auth_package logon_init logon_pack
    unicode_string_init wide_bytes device_at
get_serialization-IsLogonOf_example =
    get_serialization-IsLogonOf packing 4096 signed serialized (omega arith) (λ h. absurd (cc)) refl

with_password-IsReady :
    IsReady environment with_password (account_of ann_account) challenge key pin response
unfolding initialize set_mode set_string_value connect full_reset reset_mfa clear_pin
    resolve_local_account split_domain bytes_eq device_at
with_password-IsReady = record {
  live = refl;
  first = refl;
  named = refl;
  idle = refl;
  patient = λ n. refl;
  known = refl;
  account_named = refl;
  own = refl;
  challenged = refl;
  enforced = refl;
  one_key = refl;
  with_pin = refl;
  signs = refl;
  accepts = refl;
}

signed-IsPackable : IsPackable packing signed secret
unfolding initialize set_mode set_string_value connect full_reset reset_mfa clear_pin
    resolve_local_account split_domain bytes_eq get_serialization pack_logon
    protect_if_necessary_and_copy_password retrieve_negotiate_auth_package logon_init logon_pack
    unicode_string_init wide_bytes device_at
signed-IsPackable = record {
  protection = refl;
  short_domain = omega arith;
  short_username = omega arith;
  short_password = omega arith;
  in_scope_here = refl;
  memory = refl;
  lsa = (9, refl);
}

sign_in-finishes_example :
    let shown = connect environment with_password in
    let typed = set_string_value 5 pin shown.0 in
    let done = connect environment typed.0 in
    (shown.1 ≡ s_ok)
    × (shown.0.mode ≡ Mode.fido)
    × (typed.1 ≡ s_ok)
    × (done.1 ≡ s_ok)
    × ((x : Serialization) × ((get_serialization packing done.0).1.serialization ≡ some x))
sign_in-finishes_example =
    sign_in-finishes environment with_password (account_of ann_account) challenge key pin response
      packing secret with_password-IsReady signed-IsPackable
