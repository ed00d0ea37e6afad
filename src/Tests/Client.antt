-- ===== src/Tests/Client.antt =====
-- Runs of CppClient/CppClient/BrokerClient.cpp with a JSON library of trees.
use Prim.Native.String.{String}
use windows_fido_logon.Base.{
  ℕ, ◌≡◌, refl, ap, Bool, true, false, Option, none, some, List, [], ◌∷◌, map, Bytes, codes,
  bytes_eq,
}
use windows_fido_logon.LocalFidoTypes.{FidoAssertionData, FidoSignResponse}
use windows_fido_logon.External.Json.{JsonLibrary}
use windows_fido_logon.BrokerService.State.{Platform}
use windows_fido_logon.BrokerService.Ceremony.{assertion_from_json}
use windows_fido_logon.BrokerClient.{Pipe, message, call, begin_authentication, op, text_member}
use windows_fido_logon.BrokerClient.Messages.{
  parse_authentication_challenge, no_challenge, assertion_to_json,
}
use windows_fido_logon.BrokerClient.FailClosed.{IsAccepted, call-IsAccepted}
use windows_fido_logon.BrokerClient.Told.{IsTold, begin_authentication-IsTold}
use windows_fido_logon.BrokerClient.Assertions.{
  lookup, IsDocumented, without_names, assertion_from_json-assertion_to_json,
}
use windows_fido_logon.Tests.Samples.{system}

mutual
  -- A JSON value; the parser knows the text `{` as the reply of a broker that enforces nothing.
  data Tree : Type 0 where
    leaf : Bytes → Tree
    truth : Bool → Tree
    number : ℕ → Tree
    list : Trees → Tree
    table : Members → Tree

  data Trees : Type 0 where
    no_trees : Trees
    and_tree : Tree → Trees → Trees

  data Members : Type 0 where
    no_members : Members
    and_member : String → Tree → Members → Members

trees_of : List Tree → Trees
trees_of [] = no_trees
trees_of (t ∷ ts) = and_tree t (trees_of ts)

list_of : Trees → List Tree
list_of no_trees = []
list_of (and_tree t ts) = t ∷ list_of ts

list_of-trees_of : (ts : List Tree) → list_of (trees_of ts) ≡ ts
unfolding list_of trees_of
list_of-trees_of [] = refl
list_of-trees_of (t ∷ ts) = ap (λ rest. t ∷ rest) (list_of-trees_of ts)

members_of : List (String × Tree) → Members
members_of [] = no_members
members_of ((name, t) ∷ ms) = and_member name t (members_of ms)

pairs_of : Members → List (String × Tree)
pairs_of no_members = []
pairs_of (and_member name t ms) = (name, t) ∷ pairs_of ms

pairs_of-members_of : (ms : List (String × Tree)) → pairs_of (members_of ms) ≡ ms
unfolding pairs_of members_of
pairs_of-members_of [] = refl
pairs_of-members_of ((name, t) ∷ ms) = ap (λ rest. (name, t) ∷ rest) (pairs_of-members_of ms)

items_of : Tree → List Tree
items_of (list ts) = list_of ts
items_of _ = []

member_of : Tree → String → Option Tree
member_of (table ms) name = lookup name (pairs_of ms)
member_of _ name = none

text_of : Tree → Option Bytes
text_of (leaf text) = some text
text_of _ = none

or_default : Option Tree → Bytes → Option Bytes
or_default none default = some default
or_default (some t) default = text_of t

bool_of : Option Tree → Bool → Option Bool
bool_of (some (truth b)) default = some b
bool_of (some t) default = none
bool_of none default = some default

abbrev trees : JsonLibrary
trees = record {
  Json = Tree;
  parse = λ text. some (table (members_of (("ok", truth true) ∷ [])));
  dump = λ value. some (codes "{}");
  member = member_of;
  items = items_of;
  get_string = text_of;
  get_bool = λ value. bool_of (some value) false;
  get_int = λ value. none;
  value_string = λ value name default. or_default (member_of value name) default;
  value_bool = λ value name default. bool_of (member_of value name) default;
  value_int = λ value name default. some default;
  value_uint = λ value name default. some default;
  value_json = λ value name default. some default;
  value_strings = λ value name. some [];
  object = λ ms. table (members_of ms);
  array = λ ts. list (trees_of ts);
  of_string = leaf;
  of_bool = truth;
  of_int = number;
  of_uint = number;
}

trees-IsDocumented : IsDocumented trees
unfolding text_of items_of member_of or_default
trees-IsDocumented = record {
  strings = λ text. refl;
  arrays = list_of-trees_of;
  members = λ ms name value h. rw (pairs_of-members_of ms) h;
  defaults = λ ms name text default h. rw (pairs_of-members_of ms, h) refl;
}

abbrev item : FidoAssertionData
item = record {
  credential_id = codes "AQ";
  authenticator_data = codes "Ag";
  signature_data = codes "Aw";
  user_handle = codes "BA";
  username = codes "ann";
  display_name = [];
}

abbrev sent : FidoSignResponse
sent = record { client_data = codes "e30"; assertions = item ∷ item ∷ [] }

abbrev platform : Platform
platform = record {
  sys = system;
  resolve_account = λ name. none;
  validate_password = λ username password. 0;
  filter_open_status = 2;
  filter_entries = [];
  is_windows_filter = λ name. false;
  utc_now = [];
}

assertion_from_json-assertion_to_json_example :
    assertion_from_json platform trees (assertion_to_json trees sent)
    ≡ some (record { client_data = codes "e30"; assertions = map without_names (item ∷ item ∷ []) })
assertion_from_json-assertion_to_json_example =
    assertion_from_json-assertion_to_json platform trees sent trees-IsDocumented

-- A pipe of LocalSystem with a reply that says `ok` and nothing else.
abbrev pipe : Pipe
pipe = record {
  waits = true;
  opens = true;
  server_process = some 700;
  opens_process = λ process. true;
  opens_token = λ process. true;
  token_size = λ process. 44;
  token_user = λ process. some (codes "S-1-5-18");
  is_local_system = bytes_eq (codes "S-1-5-18");
  writes = λ text. true;
  reads = λ text. message (codes "{");
}

abbrev reply : Tree
reply = table (members_of (("ok", truth true) ∷ []))

call-IsAccepted_example : IsAccepted trees pipe [] reply
unfolding call members_of member_of pairs_of lookup bytes_eq bool_of
call-IsAccepted_example = call-IsAccepted trees pipe [] reply refl

begin_authentication-IsTold_example :
    (response : Tree) × IsAccepted trees pipe
      (op trees "begin_auth" ∷ text_member trees "sid" [] ∷ [])
      response
    × IsTold trees response (no_challenge trees)
unfolding begin_authentication parse_authentication_challenge call members_of member_of pairs_of
    lookup bytes_eq bool_of
begin_authentication-IsTold_example =
    begin_authentication-IsTold trees pipe (λ text. []) [] (no_challenge trees) refl
