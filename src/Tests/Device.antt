-- ===== src/Tests/Device.antt =====
-- Runs of CppClient/CppClient/FIDODevice.cpp with keys that all work.
use Prim.Native.String.{String}
use windows_fido_logon.Base.{
  Bool, Option, ◌++◌, true, false, none, some, [], ◌∷◌, List, Bytes, bytes_eq, codes, ◌==◌, arith,
  if◌then◌else◌,
}
use windows_fido_logon.LocalFidoTypes.{SignRequest, FidoSignResponse, es256_algorithm}
use windows_fido_logon.Convert.{base64url_encode}
use windows_fido_logon.External.Json.{JsonLibrary}
use windows_fido_logon.FidoDevice.Ceremony.{client_data_of, assertion_of}
use windows_fido_logon.FidoDevice.Agreement.{label}
use windows_fido_logon.BrokerClient.Messages.{◌>>?◌}
use windows_fido_logon.Tests.Samples.{challenge, rp_id, origin}
use windows_fido_logon.External.Fido.{DeviceLibrary}
use windows_fido_logon.FidoDevice.{FidoDevice}
use windows_fido_logon.FidoDevice.Touch.{select_by_touch}
use windows_fido_logon.FidoDevice.Ended.{IsClock, IsEnded, select_by_touch-IsEnded}

abbrev fido : DeviceLibrary
fido = record {
  Dev = Bytes;
  dev_new = some [];
  dev_set_timeout = λ device ms. (0, device);
  dev_open = λ device path. (0, path);
  dev_is_fido2 = λ device. true;
  dev_has_pin = λ device. true;
  dev_has_uv = λ device. true;
  dev_set_pin = λ device pin old. 0;
  dev_get_cbor_info = λ device. some (0, es256_algorithm ∷ []);
  dev_get_touch_begin = λ device. (0, device);
  dev_get_touch_status = λ n device. (0, (n == 1));
  ticks = λ slept n. slept;
  Assert = Bytes;
  assert_new = some [];
  assert_allow_cred = λ a id. (0, a);
  assert_set_clientdata = λ a text. (0, a);
  assert_set_rp = λ a rp. (0, a);
  assert_set_up = λ a. (0, a);
  assert_set_uv = λ a. (0, a);
  dev_get_assert = λ device a pin. (0, a);
  assert_items = λ a. (1 ∷ [], 2 ∷ [], 3 ∷ [], 4 ∷ []) ∷ [];
}

abbrev key_at : Bytes → FidoDevice
key_at path = record {
  path = path;
  is_fido2 = true;
  has_pin = true;
  has_uv = true;
  supports_es256 = true;
}

abbrev keys : List FidoDevice
keys = key_at (codes "hid#1") ∷ key_at (codes "hid#2") ∷ []

-- A clock that advances while the program sleeps.
fido-IsClock : IsClock fido
fido-IsClock = record { monotone = λ slept ms n. omega arith; sleeps = λ slept ms n. omega arith }

select_by_touch-IsEnded_example :
    IsEnded fido (λ n. true) keys (select_by_touch fido 716 (λ n. true) keys)
select_by_touch-IsEnded_example =
    select_by_touch-IsEnded fido 716 (λ n. true) keys fido-IsClock (omega arith)

abbrev request : SignRequest
request = record {
  challenge = challenge;
  rp_id = rp_id;
  user_verification = codes "required";
  type = codes "webauthn";
  allow_credentials = codes "AQID" ∷ [];
}

-- A parser of the texts that `spelled` spells: what stands up to the next quotation mark, behind a given text.
until_quote : Bytes → Option (Bytes × Bytes)
until_quote [] = none
until_quote (c ∷ text) =
    let rest = until_quote text in
    if c == 34 then some ([], text) else elim rest as (λ _. Option (Bytes × Bytes)) [
      | none ↦ none
      | some (before, behind) ↦ some (c ∷ before, behind)
    ]

behind : Bytes → Bytes → Option Bytes
behind [] text = some text
behind (p ∷ prefix) [] = none
behind (p ∷ prefix) (c ∷ text) = let rest = behind prefix text in if p == c then rest else none

data Parsed : Type 0 where
  client_object : (type challenge origin : Bytes) (cross : Bool) → Parsed

text_after : Bytes → Bytes → Option (Bytes × Bytes)
text_after prefix text = behind prefix text >>? until_quote

truth_in : Bytes → Option Bool
truth_in text =
    if bytes_eq text (codes "true}")
    then some true
    else if bytes_eq text (codes "false}")
    then some false
    else none

parse_object : Bytes → Option Parsed
parse_object text = text_after (123 ∷ (label "type" ++ (34 ∷ []))) text >>? λ typed.
    text_after (44 ∷ (label "challenge" ++ (34 ∷ []))) typed.1 >>? λ challenged.
    text_after (44 ∷ (label "origin" ++ (34 ∷ []))) challenged.1 >>? λ from_origin.
    behind (44 ∷ label "crossOrigin") from_origin.1 >>? truth_in >>? λ cross.
    some (client_object typed.0 challenged.0 from_origin.0 cross)

abbrev string_in : Parsed → String → Bytes → Option Bytes
string_in (client_object type c o cross) name default =
    if bytes_eq (codes name) (codes "type")
    then some type
    else if bytes_eq (codes name) (codes "challenge")
    then some c
    else if bytes_eq (codes name) (codes "origin")
    then some o
    else some default

abbrev truth_of : Parsed → String → Bool → Option Bool
truth_of (client_object type c o cross) name default =
    if bytes_eq (codes name) (codes "crossOrigin") then some cross else some default

abbrev parser : JsonLibrary
parser = record {
  Json = Parsed;
  parse = parse_object;
  dump = λ value. none;
  member = λ value name. none;
  items = λ value. [];
  get_string = λ value. none;
  get_bool = λ value. none;
  get_int = λ value. none;
  value_string = string_in;
  value_bool = truth_of;
  value_int = λ value name default. some default;
  value_uint = λ value name default. some default;
  value_json = λ value name default. some default;
  value_strings = λ value name. some [];
  object = λ members. client_object [] [] [] false;
  array = λ values. client_object [] [] [] false;
  of_string = λ text. client_object text [] [] false;
  of_bool = λ b. client_object [] [] [] b;
  of_int = λ n. client_object [] [] [] false;
  of_uint = λ n. client_object [] [] [] false;
}

abbrev response : FidoSignResponse
response = record {
  client_data = base64url_encode false (client_data_of challenge origin);
  assertions = assertion_of (1 ∷ [], 2 ∷ [], 3 ∷ [], 4 ∷ []) ∷ [];
}
