-- ===== src/LocalCredentialStore/VaultJson.antt =====
-- `CredentialToJson`, `CredentialFromJson`, `VaultToJson` and `VaultFromJson`, with the conversions
-- `Convert::ToString` and `Convert::ToWString`.
use Prim.Native.String.{String}
use windows_fido_logon.Base.{
  ℕ, ◌-◌, ◌^◌, false, Option, none, some, List, [], ◌∷◌, map, Bytes, Wide, codes, length, is_empty,
  traverse, ◌==◌, ltb, if◌then◌else◌, ◌||◌,
}
use windows_fido_logon.LocalFidoTypes.{
  CredentialRecord, AccountRecord, Vault, es256_algorithm, schema_version,
}
use windows_fido_logon.External.Json.{JsonLibrary}
use windows_fido_logon.Machine.{System}

abbrev int_max : ℕ
int_max = 2 ^ 31 - 1

abbrev or_empty : Option (List ℕ) → List ℕ
or_empty none = []
or_empty (some l) = l

pub to_string : System → Wide → Bytes
to_string sys value =
    if is_empty value || ltb int_max (length value) then [] else or_empty (sys.wide_to_utf8 value)

pub to_w_string : System → Bytes → Wide
to_w_string sys value =
    if is_empty value || ltb int_max (length value) then [] else or_empty (sys.utf8_to_wide value)

-- A chain of calls of which each may throw.
infixl 5 ◌>>=◌
abbrev pub ◌>>=◌ {ℓ κ} : {A : Type ℓ} {B : Type κ} → Option A → (A → Option B) → Option B
none >>= f = none
some a >>= f = f a

module _ (sys : System) (json : JsonLibrary) where
  open json use {
    Json, member, items, get_string, get_int, value_string, value_bool, value_int, value_uint,
    object, array, of_string, of_bool, of_int, of_uint,
  }

  pub credential_to_json : CredentialRecord → Json
  credential_to_json value = object (
      ("credentialId", of_string value.credential_id)
      ∷ ("cosePublicKey", of_string value.cose_public_key)
      ∷ ("algorithm", of_int value.algorithm)
      ∷ ("aaguid", of_string value.aaguid)
      ∷ ("label", of_string value.label)
      ∷ ("createdAt", of_string value.created_at)
      ∷ ("signCount", of_uint value.sign_count)
      ∷ [])

  -- `value.at(name).get<std::string>()`.
  abbrev pub string_at : Json → String → Option Bytes
  string_at value name = member value name >>= get_string

  pub credential_from_json : Json → Option CredentialRecord
  credential_from_json value = do
    credential_id ← string_at value "credentialId"
    cose_public_key ← string_at value "cosePublicKey"
    algorithm ← value_int value "algorithm" es256_algorithm
    aaguid ← value_string value "aaguid" []
    label ← value_string value "label" (codes "Security key")
    created_at ← value_string value "createdAt" []
    sign_count ← value_uint value "signCount" 0
    some (record {
      credential_id = credential_id;
      cose_public_key = cose_public_key;
      algorithm = algorithm;
      aaguid = aaguid;
      label = label;
      created_at = created_at;
      sign_count = sign_count;
    })

  pub account_to_json : AccountRecord → Json
  unfolding credential_to_json to_string
  account_to_json account = object (
      ("sid", of_string (to_string sys account.sid))
      ∷ ("username", of_string (to_string sys account.username))
      ∷ ("enforced", of_bool account.enforced)
      ∷ ("credentials", array (map credential_to_json account.credentials))
      ∷ [])

  pub account_from_json : Json → Option AccountRecord
  unfolding credential_from_json to_w_string
  account_from_json item = do
    sid ← string_at item "sid"
    username ← value_string item "username" []
    enforced ← value_bool item "enforced" false
    entries ← member item "credentials"
    credentials ← traverse credential_from_json (items entries)
    some (record {
      sid = to_w_string sys sid;
      username = to_w_string sys username;
      enforced = enforced;
      credentials = credentials;
    })

  pub vault_to_json : Vault → Json
  unfolding account_to_json
  vault_to_json vault = object (
      ("schemaVersion", of_int vault.schema)
      ∷ ("machineId", of_string vault.machine_id)
      ∷ ("rpId", of_string vault.rp_id)
      ∷ ("accounts", array (map account_to_json vault.accounts))
      ∷ [])

  -- The exception for another schema.
  abbrev known_schema : ℕ → Option (Unit {0})
  known_schema schema = if schema == schema_version then some tt else none

  pub vault_from_json : Json → Option Vault
  unfolding account_from_json
  vault_from_json value = do
    version ← member value "schemaVersion"
    schema ← get_int version
    _ ← known_schema schema
    machine_id ← string_at value "machineId"
    rp_id ← string_at value "rpId"
    entries ← member value "accounts"
    accounts ← traverse account_from_json (items entries)
    some (record { schema = schema; machine_id = machine_id; rp_id = rp_id; accounts = accounts })
