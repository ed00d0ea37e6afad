-- ===== src/External/Json.antt =====
-- nlohmann::json, as far as the program uses it. `none` is an exception.
use Prim.Native.String.{String}
use windows_fido_logon.Base.{ℕ, Bool, Option, List, Bytes}

pub record JsonLibrary : Type 1 where
  pub Json : Type 0
  -- `json::parse` and `dump`.
  pub parse : Bytes → Option Json
  pub dump : Json → Option Bytes
  -- `value.at(name)`, which throws where there is no such member.
  pub member : Json → String → Option Json
  -- The entries that a range-based for loop visits.
  pub items : Json → List Json
  -- An `int` is its 32-bit pattern.
  -- `get<std::string>()`, `get<bool>()` and `get<int>()`, which throw at a value of another type.
  pub get_string : Json → Option Bytes
  pub get_bool : Json → Option Bool
  pub get_int : Json → Option ℕ
  -- `value(name, default)`, which throws at a member of another type, and at a value that is no object.
  pub value_string : Json → String → Bytes → Option Bytes
  pub value_bool : Json → String → Bool → Option Bool
  pub value_int : Json → String → ℕ → Option ℕ
  pub value_uint : Json → String → ℕ → Option ℕ
  -- `value(name, json)` and `value(name, std::vector<std::string>{})`.
  pub value_json : Json → String → Json → Option Json
  pub value_strings : Json → String → Option (List Bytes)
  -- Values built from braces: objects, `json::array()` with `push_back`, and conversions.
  pub object : List (String × Json) → Json
  pub array : List Json → Json
  pub of_string : Bytes → Json
  pub of_bool : Bool → Json
  pub of_int : ℕ → Json
  pub of_uint : ℕ → Json
