-- ===== src/LocalAccount.antt =====
-- CppClient/CppClient/LocalAccount.cpp: which names and SIDs stand for a local account. The calls of the
-- operating system are parameters.
pub mod Local
pub mod Offered
use windows_fido_logon.Base.{
  ℕ, zero, suc, ◌≡◌, refl, Bool, true, false, not, ◌&&◌, ◌||◌, Option, none, some, List, [], ◌∷◌,
  ◌++◌, ◌/◌, ◌%◌, Wide, codes, is_empty, any, ◌==◌, if◌then◌else◌,
}

-- SID_NAME_USE, as far as it is told apart.
pub data SidUse : Type 0 where
  user_type other_type : SidUse

-- What LookupAccountNameW finds: the domain, the SID and its use; and LookupAccountSidW: the name, the
-- domain and the use.
pub record NameLookup : Type 0 where
  pub domain : Wide
  pub sid : Wide
  pub use_type : SidUse

pub record SidLookup : Type 0 where
  pub name : Wide
  pub domain : Wide
  pub use_type : SidUse

-- A value, or a Win32 error.
pub data Lookup {ℓ} (A : Type ℓ) : Type ℓ where
  found : A → Lookup A
  lookup_failed : ℕ → Lookup A

pub record Accounts : Type 0 where
  -- `ComputerName`: empty where GetComputerNameW fails.
  pub computer_name : Wide
  -- `_wcsicmp(a.c_str(), b.c_str()) == 0`.
  pub same_text : Wide → Wide → Bool
  -- NetUserGetInfo at level 0: its status.
  pub net_user_get_info : Wide → ℕ
  -- The two calls of LookupAccountNameW, and ConvertSidToStringSidW of the SID that they return.
  pub lookup_account_name : Wide → Lookup NameLookup
  -- The error of ConvertStringSidToSidW, if it fails, and the two calls of LookupAccountSidW.
  pub convert_sid : Wide → Option ℕ
  pub lookup_account_sid : Wide → Lookup SidLookup
  -- GetLastError where no call has failed.
  pub last_error : ℕ
  -- `IsHiddenFromLogonUi`: the DWORD under SpecialAccounts\UserList, if it is there.
  pub special_account : Wide → Option ℕ

pub record LocalAccount : Type 0 where
  pub username : Wide
  pub computer : Wide
  pub sid : Wide

-- An entry of NetUserEnum; a null name counts as empty.
pub record UserInfo : Type 0 where
  pub name : Wide
  pub flags : ℕ

-- The calls of NetUserEnum: those that return ERROR_MORE_DATA, and the last one, NERR_Success or a failure.
pub data Enumeration : Type 0 where
  more : List UserInfo → Enumeration → Enumeration
  last : List UserInfo → Enumeration
  enumeration_failed : ℕ → Enumeration

abbrev pub error_invalid_parameter : ℕ
error_invalid_parameter = 87

abbrev pub error_no_such_user : ℕ
error_no_such_user = 1317

abbrev pub backslash : ℕ
backslash = 92

abbrev pub at_sign : ℕ
at_sign = 64

-- `find(L'\\')`: what stands before and behind the first backslash.
unfoldable pub split_domain : Wide → Option (Wide × Wide)
split_domain [] = none
split_domain (c ∷ text) =
    let rest = split_domain text in
    if c == backslash then some ([], text) else elim rest as (λ _. Option (Wide × Wide)) [
      | none ↦ none
      | some (domain, name) ↦ some (c ∷ domain, name)
    ]

abbrev pub is_user : SidUse → Bool
is_user user_type = true
is_user other_type = false

module _ (os : Accounts) where
  -- The candidate behind an accepted domain; `none` is ERROR_NO_SUCH_USER.
  abbrev pub without_domain : Option (Wide × Wide) → Wide → Option Wide
  without_domain none input = some input
  without_domain (some (domain, name)) input =
      if not (os.same_text domain (codes ".")) && not (os.same_text domain os.computer_name)
      then none
      else some name

  abbrev pub looked_up : Wide → Lookup NameLookup → Lookup LocalAccount
  looked_up candidate (lookup_failed e) = lookup_failed e
  looked_up candidate (found l) =
      if not (os.same_text l.domain os.computer_name) || not (is_user l.use_type)
      then lookup_failed error_no_such_user
      else found (record { username = candidate; computer = os.computer_name; sid = l.sid })

  abbrev pub resolve_candidate : Option Wide → Lookup LocalAccount
  resolve_candidate none = lookup_failed error_no_such_user
  resolve_candidate (some candidate) =
      if any (λ c. c == at_sign) candidate
      then lookup_failed error_no_such_user
      else if not (os.net_user_get_info candidate == 0)
      then lookup_failed (os.net_user_get_info candidate)
      else looked_up candidate
          (os.lookup_account_name (os.computer_name ++ (backslash ∷ candidate)))

  -- `ResolveLocalAccount`.
  unfoldable pub resolve_local_account : Wide → Lookup LocalAccount
  resolve_local_account input =
      if is_empty input || is_empty os.computer_name
      then lookup_failed error_invalid_parameter
      else resolve_candidate (without_domain (split_domain input) input)

  abbrev pub sid_looked_up : Lookup SidLookup → Lookup (Wide × Wide)
  sid_looked_up (lookup_failed e) = lookup_failed e
  sid_looked_up (found l) =
      if not (is_user l.use_type) || not (os.same_text l.domain os.computer_name)
      then lookup_failed error_no_such_user
      else found (l.name, os.computer_name)

  abbrev pub converted : Option ℕ → Wide → Lookup (Wide × Wide)
  converted (some e) sid = lookup_failed e
  converted none sid = sid_looked_up (os.lookup_account_sid sid)

  -- `ResolveLocalSid`: the name and the computer.
  unfoldable pub resolve_local_sid : Wide → Lookup (Wide × Wide)
  resolve_local_sid sid =
      if is_empty os.computer_name
      then lookup_failed os.last_error
      else converted (os.convert_sid sid) sid

  -- `IsLocalSystemSid`.
  pub is_local_system_sid : Wide → Bool
  is_local_system_sid sid = os.same_text sid (codes "S-1-5-18")

  -- `IsHiddenFromLogonUi`.
  abbrev pub is_hidden : Option ℕ → Bool
  is_hidden none = false
  is_hidden (some value) = value == 0

  abbrev pub is_hidden_from_logon_ui : Wide → Bool
  is_hidden_from_logon_ui username = is_hidden (os.special_account username)

  abbrev pub is_set : ℕ → ℕ → Bool
  is_set bit flags = (flags / bit) % 2 == 1

  -- An entry that EnumerateLocalAccounts goes on with.
  abbrev pub is_listed : UserInfo → Bool
  is_listed user =
      not (is_empty user.name)
      && not (is_set 2 user.flags)
      && is_set 512 user.flags
      && not (is_hidden_from_logon_ui user.name)

  abbrev pub kept_account : Lookup LocalAccount → List LocalAccount → List LocalAccount
  kept_account (found account) rest = account ∷ rest
  kept_account (lookup_failed e) rest = rest

  unfoldable pub listed_accounts : List UserInfo → List LocalAccount
  listed_accounts [] = []
  listed_accounts (user ∷ users) =
      let rest = listed_accounts users in
      if is_listed user then kept_account (resolve_local_account user.name) rest else rest

  -- The loop over the calls: the accounts, and the last status.
  unfoldable pub enumerated : Enumeration → List LocalAccount × ℕ
  enumerated (more users next) = (listed_accounts users ++ (enumerated next).0, (enumerated next).1)
  enumerated (last users) = (listed_accounts users, 0)
  enumerated (enumeration_failed status) = ([], status)

  -- `EnumerateLocalAccounts`: whether it succeeds, the accounts, and the error.
  unfoldable pub enumerate_local_accounts : Enumeration → Bool × List LocalAccount × ℕ
  enumerate_local_accounts calls =
      if is_empty os.computer_name
      then (false, [], os.last_error)
      else let (accounts, status) = enumerated calls in
        ((status == 0) && not (is_empty accounts), accounts, status)
