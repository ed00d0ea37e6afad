-- ===== src/BrokerClient/Assertions.antt =====
-- The client's assertions as the broker reads them.
use Prim.Native.String.{String}
use windows_fido_logon.Base.{
  ◌≡◌, refl, Option, none, some, List, [], ◌∷◌, map, Bytes, codes, bytes_eq, traverse,
  if◌then◌else◌,
}
use windows_fido_logon.LocalFidoTypes.{FidoAssertionData, FidoSignResponse}
use windows_fido_logon.External.Json.{JsonLibrary}
use windows_fido_logon.BrokerService.State.{Platform}
use windows_fido_logon.BrokerService.Ceremony.{assertion_data_from_json, assertion_from_json}
use windows_fido_logon.BrokerClient.Messages.{assertion_data_to_json, assertion_to_json}

-- The value of a member of an object that is built from braces.
unfoldable pub lookup {ℓ} : {A : Type ℓ} → String → List (String × A) → Option A
lookup name [] = none
lookup name ((key, value) ∷ members) =
    let rest = lookup name members in if bytes_eq (codes name) (codes key) then some value else rest

-- What nlohmann::json documents of objects, arrays and strings.
pub record IsDocumented (json : JsonLibrary) : Type 0 where
  pub strings : (text : Bytes) → json.get_string (json.of_string text) ≡ some text
  pub arrays : (values : List json.Json) → json.items (json.array values) ≡ values
  pub members :
      (ms : List (String × json.Json)) (name : String) (value : json.Json)
      → lookup name ms ≡ some value
      → json.member (json.object ms) name ≡ some value
  pub defaults :
      (ms : List (String × json.Json)) (name : String) (text default : Bytes)
      → lookup name ms ≡ some (json.of_string text)
      → json.value_string (json.object ms) name default ≡ some text

-- The names of the user stay with the client.
abbrev pub without_names : FidoAssertionData → FidoAssertionData
without_names item = record item { username = []; display_name = [] }

assertion_data_from_json-assertion_data_to_json :
    (p : Platform) (json : JsonLibrary)
    → IsDocumented json
    → (item : FidoAssertionData)
    → assertion_data_from_json p json (assertion_data_to_json json item) ≡ some (without_names item)
unfolding assertion_data_from_json assertion_data_to_json lookup bytes_eq
assertion_data_from_json-assertion_data_to_json p json d item =
    rw
      (
        d.members _ "credentialId" (json.of_string item.credential_id) refl,
        d.strings item.credential_id,
        d.members _ "authenticatorData" (json.of_string item.authenticator_data) refl,
        d.strings item.authenticator_data,
        d.members _ "signature" (json.of_string item.signature_data) refl,
        d.strings item.signature_data,
        d.defaults _ "userHandle" item.user_handle [] refl,
      )
      refl

traverse-map :
    (p : Platform) (json : JsonLibrary)
    → IsDocumented json
    → (xs : List FidoAssertionData)
    → traverse (assertion_data_from_json p json) (map (assertion_data_to_json json) xs)
      ≡ some (map without_names xs)
unfolding traverse
traverse-map p json d [] = refl
traverse-map p json d (x ∷ xs) =
    rw (assertion_data_from_json-assertion_data_to_json p json d x, traverse-map p json d xs) refl

-- Client and broker agree on assertions: what `AssertionToJson` of the client writes, `AssertionFromJson` of the broker
-- reads back, the client data and each assertion's four parts in order, under what nlohmann::json documents
-- of strings, arrays and objects. The user's names are not sent.
pub assertion_from_json-assertion_to_json :
    (p : Platform) (json : JsonLibrary) (response : FidoSignResponse)
    → IsDocumented json
    → assertion_from_json p json (assertion_to_json json response)
      ≡ some (record {
        client_data = response.client_data;
        assertions = map without_names response.assertions;
      })
unfolding assertion_from_json assertion_to_json lookup bytes_eq
assertion_from_json-assertion_to_json p json response d =
    let entries = json.array (map (assertion_data_to_json json) response.assertions) in
    rw
      (
        d.members _ "clientData" (json.of_string response.client_data) refl,
        d.strings response.client_data,
        d.members _ "assertions" entries refl,
        d.arrays (map (assertion_data_to_json json) response.assertions),
        traverse-map p json d response.assertions,
      )
      refl
