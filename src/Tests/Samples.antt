-- ===== src/Tests/Samples.antt =====
-- Small machines and libraries on which the tests run the code.
use Prim.Native.String.{String}
use windows_fido_logon.Base.{
  ℕ, zero, suc, ◌≡◌, Bool, true, false, Option, none, some, List, [], ◌∷◌, ◌++◌, Bytes, Wide, codes,
  bytes_eq, length, if◌then◌else◌, IsBytes, all, ltb, arith,
}
use windows_fido_logon.LocalFidoTypes.{
  CredentialRecord, AccountRecord, Vault, FidoSignResponse, es256_algorithm,
}
use windows_fido_logon.External.Json.{JsonLibrary}
use windows_fido_logon.External.Cbor.{CborLibrary}
use windows_fido_logon.External.Fido.{FidoLibrary}
use windows_fido_logon.Convert.{base64url_encode}
use windows_fido_logon.Machine.{System, World, done}
use windows_fido_logon.BrokerService.State.{SessionKind, Session, Caller, Service}

abbrev pub repeated : ℕ → ℕ → Bytes
repeated zero b = []
repeated (suc n) b = b ∷ repeated n b

-- Texts, and the client data of a ceremony.
pub data Value : Type 0 where
  text : Bytes → Value
  client : Bytes → Value

abbrev pub challenge : Bytes
challenge = codes "challenge"

abbrev pub rp_id : Bytes
rp_id = codes "wfl.login.local"

abbrev pub origin : Bytes
origin = codes "https://wfl.login.local"

abbrev pub value_string_of : Value → String → Bytes → Option Bytes
value_string_of (text t) name default = none
value_string_of (client type) name default =
    if bytes_eq (codes name) (codes "type")
    then some type
    else if bytes_eq (codes name) (codes "challenge")
    then some challenge
    else if bytes_eq (codes name) (codes "origin")
    then some origin
    else some default

abbrev pub text_of : Value → Option Bytes
text_of (text t) = some t
text_of (client type) = none

abbrev pub parse_client : Bytes → Option Value
parse_client bytes =
    if bytes_eq bytes (codes "get")
    then some (client (codes "webauthn.get"))
    else if bytes_eq bytes (codes "create")
    then some (client (codes "webauthn.create"))
    else none

abbrev pub json : JsonLibrary
json = record {
  Json = Value;
  parse = parse_client;
  dump = λ value. some (codes "{}");
  member = λ value name. none;
  items = λ value. [];
  get_string = text_of;
  get_bool = λ value. none;
  get_int = λ value. none;
  value_string = value_string_of;
  value_bool = λ value name default. some default;
  value_int = λ value name default. some default;
  value_uint = λ value name default. some default;
  value_json = λ value name default. some default;
  value_strings = λ value name. some [];
  object = λ members. text [];
  array = λ values. text [];
  of_string = text;
  of_bool = λ b. text [];
  of_int = λ n. text [];
  of_uint = λ n. text [];
}

-- The map of a public key, and what stands in it.
pub data Item : Type 0 where
  key_map : Item
  uint negint : ℕ → Item
  bytestring : Bytes → Item

abbrev pub pairs_of : Item → List (Item × Item)
pairs_of key_map =
    (uint 1, uint 2)
    ∷ (uint 3, negint 6)
    ∷ (negint 0, uint 1)
    ∷ (negint 1, bytestring (repeated 32 5))
    ∷ (negint 2, bytestring (repeated 32 6))
    ∷ []
pairs_of item = []

abbrev pub is_key_map : Item → Bool
is_key_map key_map = true
is_key_map item = false

abbrev pub is_uint : Item → Bool
is_uint (uint n) = true
is_uint item = false

abbrev pub is_negint : Item → Bool
is_negint (negint n) = true
is_negint item = false

abbrev pub int_in : Item → ℕ
int_in (uint n) = n
int_in (negint n) = n
int_in item = 0

abbrev pub is_bytes : Item → Bool
is_bytes (bytestring b) = true
is_bytes item = false

abbrev pub bytes_in : Item → Option Bytes
bytes_in (bytestring b) = some b
bytes_in item = none

abbrev pub cbor : CborLibrary
cbor = record {
  Item = Item;
  load = λ bytes. some (key_map, length bytes);
  isa_map = is_key_map;
  pairs = pairs_of;
  isa_uint = is_uint;
  isa_negint = is_negint;
  get_int = int_in;
  isa_bytestring = is_bytes;
  bytestring = bytes_in;
}

-- Hash, user present, verified and attested, counter 9, AAGUID, an ID of two bytes, a key of three.
abbrev pub auth_data : Bytes
auth_data =
    repeated 32 7 ++ (0x45 ∷ 0 ∷ 0 ∷ 0 ∷ 9 ∷ repeated 16 8) ++ (0 ∷ 2 ∷ 1 ∷ 2 ∷ 3 ∷ 4 ∷ 5 ∷ [])

-- It accepts everything.
abbrev pub fido : FidoLibrary
fido = record {
  sha256 = λ bytes. some (repeated 32 7);
  Assert = Bytes;
  assert_new = some [];
  assert_set_clientdata = λ a c. (0, a);
  assert_set_rp = λ a r. (0, a);
  assert_set_count = λ a n. (0, a);
  assert_set_authdata_raw = λ a i d. (0, a);
  assert_set_sig = λ a i s. (0, a);
  assert_set_up = λ a. (0, a);
  assert_set_uv = λ a. (0, a);
  Key = Bytes;
  es256_pk_new = some [];
  es256_pk_from_ptr = λ k p. (0, p);
  assert_verify = λ a i k. 0;
  Cred = Bytes;
  cred_new = some [];
  cred_set_type = λ c. (0, c);
  cred_set_rp = λ c i n. (0, c);
  cred_set_clientdata = λ c d. (0, c);
  cred_set_uv = λ c. (0, c);
  cred_set_attobj = λ c a. (0, c);
  cred_fmt = λ c. some (codes "none");
  cred_x5c_len = λ c. 0;
  cred_verify = λ c. 0;
  cred_verify_self = λ c. 0;
  cred_authdata_raw = λ c. some auth_data;
  cred_id = λ c. some (1 ∷ 2 ∷ []);
}

-- The code of the account's credential ID, the bytes 1 and 2.
abbrev pub id_text : Bytes
id_text = codes "AQI"

abbrev pub credential : CredentialRecord
credential = record {
  credential_id = id_text;
  cose_public_key = codes "AwQF";
  algorithm = es256_algorithm;
  aaguid = codes "CAgICAgICAgICAgICAgICA";
  label = codes "key";
  created_at = [];
  sign_count = 4;
}

abbrev pub response : FidoSignResponse
response = record {
  client_data = codes "Z2V0";
  assertions =
      record {
        credential_id = id_text;
        authenticator_data = base64url_encode false auth_data;
        signature_data = codes "AQI";
        user_handle = [];
        username = [];
        display_name = [];
      }
      ∷ [];
}

abbrev pub sid : Wide
sid = codes "S-1-5-21-7"

abbrev pub account : AccountRecord
account = record {
  sid = sid;
  username = codes "ann";
  enforced = true;
  credentials = credential ∷ [];
}

abbrev pub vault : Vault
vault = record {
  schema = 1;
  machine_id = repeated 32 b'a';
  rp_id = codes "wfl-" ++ (repeated 32 b'a' ++ codes ".login.local");
  accounts = account ∷ [];
}

-- A machine on which the n-th call fails if `faults n` is not 0.
abbrev pub system_with : (ℕ → ℕ) → System
system_with faults = record {
  fault = faults;
  torn = λ n. none;
  protect = λ bytes. 1 ∷ bytes;
  unprotect = done;
  same_text = bytes_eq;
  to_upper = λ c. c;
  is_valid_sid = λ s. true;
  resolve_sid = λ s. done (codes "ann");
  wide_to_utf8 = some;
  utf8_to_wide = some;
  random = λ n size. some (repeated size n);
}

abbrev pub system : System
system = system_with (λ n. 0)

abbrev pub world : World
world = record {
  disk = record { primary = none; backup = none; temporary = none; rollback = none };
  registry = record { enforced_sids = none; enable_filter = none };
  calls = 0;
  now = 1000;
}

abbrev pub session : Session
session = record {
  kind = SessionKind.authentication;
  caller_sid = sid;
  target_sid = sid;
  username = [];
  challenge = challenge;
  rp_id = rp_id;
  origin = origin;
  label = [];
  credential_to_remove = [];
  expires_at = 1100;
}

abbrev pub caller : Caller
caller = record { sid = sid; is_system = false; is_elevated_admin = false }

abbrev pub session_id : Bytes
session_id = repeated 32 b'x'

abbrev pub service : Service
service = record { world = world; sessions = (session_id, session) ∷ [] }

pub small : (xs : Bytes) → all (λ b. ltb b 256) xs ≡ true → IsBytes xs
small [] h = tt
small (x ∷ xs) h = (ground arith, small xs (ground arith))
