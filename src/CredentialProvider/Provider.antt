-- ===== src/CredentialProvider/Provider.antt =====
-- CredentialProvider/core/CProvider.cpp: the provider and the tiles it makes. The tiles are made without
-- an allocation failing.
pub mod Visited
pub mod Walked
pub mod Failing
pub mod Tiles
use windows_fido_logon.Base.{
  ℕ, zero, suc, Bool, true, false, not, ◌&&◌, ◌||◌, Option, none, some, List, [], ◌∷◌, ◌++◌, map,
  Wide, bytes_eq, any, length, leb, ltb, is_empty, if◌then◌else◌,
}
use windows_fido_logon.CredentialProviderFilter.{Scenario, in_scope}
use windows_fido_logon.CredentialProvider.HResult.{
  HResult, Hr, ok, err, ◌>>=◌, s_ok, e_notimpl, e_invalidarg, e_unexpected,
}
use windows_fido_logon.CredentialProvider.Credential.{Credential, initialize, full_reset, retire}

-- What the calls on a user of LogonUI's array return: whether the user is of the local provider, and
-- the SID, `none` for a null pointer.
pub record User : Type 0 where
  pub is_local : Hr Bool
  pub get_sid : Hr (Option Wide)

-- ICredentialProviderUserArray: `GetAt` of each index below the count, with `none` for a null user,
-- and whether the account options have CPAO_EMPTY_LOCAL.
pub record Users : Type 0 where
  pub get_count : Hr ℕ
  pub get_at : ℕ → Hr (Option User)
  pub empty_local : Hr Bool

-- The provider: `credentials` are its tiles, and `retired` those that LogonUI may still hold.
pub record Provider : Type 0 where
  pub is_remote : Bool
  pub scenario : Scenario
  pub users : Option Users
  pub credentials : List Credential
  pub ready : Bool

-- `ResolveLocalSid`: the name and the computer of an account.
pub record Directory : Type 0 where
  pub resolve_local_sid : Wide → Option (Wide × Wide)

-- `ClearCredentials`: the retired tiles, and the provider without them.
unfoldable pub clear_credentials : Provider → List Credential × Provider
clear_credentials p = (map retire p.credentials, record p { credentials = []; ready = false })

-- `SetUsageScenario`.
unfoldable pub set_usage_scenario : Scenario → Provider → (List Credential × Provider) × HResult
unfolding clear_credentials
set_usage_scenario scenario p =
    let (old, cleared) = clear_credentials p in
    (
      (old, record cleared { scenario = scenario }),
      if p.is_remote then e_notimpl else if in_scope scenario then s_ok else e_notimpl,
    )

-- `SetUserArray`.
unfoldable pub set_user_array : Option Users → Provider → List Credential × Provider
unfolding clear_credentials
set_user_array users p =
    let (old, cleared) = clear_credentials p in (old, record cleared { users = users })

-- `UnAdvise` resets every tile.
unfoldable pub un_advise : Provider → Provider
un_advise p = record p { credentials = map full_reset p.credentials }

-- The tile of a user, or of no user.
abbrev pub tile : Scenario → Wide → Wide → Wide → Credential
tile scenario username computer sid = initialize scenario username computer [] sid

module _ (directory : Directory) (scenario : Scenario) where
  -- A user of the array: the SIDs seen, and the tiles so far.
  abbrev pub append_known :
      Option (Wide × Wide) → Wide → List Wide → List Credential → List Wide × List Credential
  append_known none sid seen tiles = (seen, tiles)
  append_known (some (username, computer)) sid seen tiles =
      if any (bytes_eq sid) seen
      then (seen, tiles)
      else (sid ∷ seen, tiles ++ (tile scenario username computer sid ∷ []))

  abbrev pub append_sid : Option Wide → List Wide → List Credential → List Wide × List Credential
  append_sid none seen tiles = (seen, tiles)
  append_sid (some sid) seen tiles =
      if is_empty sid
      then (seen, tiles)
      else append_known (directory.resolve_local_sid sid) sid seen tiles

  abbrev pub append_local :
      Bool → User → List Wide → List Credential → Hr (List Wide × List Credential)
  append_local false user seen tiles = ok (seen, tiles)
  append_local true user seen tiles = do sid ← user.get_sid; ok (append_sid sid seen tiles)

  abbrev pub append_user :
      Option User → List Wide → List Credential → Hr (List Wide × List Credential)
  append_user none seen tiles = err e_unexpected
  append_user (some user) seen tiles = do
    is_local ← user.is_local
    append_local is_local user seen tiles

  -- The loop over `count` users from an index on.
  unfoldable pub append_users :
      (count index : ℕ) → Users → List Wide → List Credential → Hr (List Wide × List Credential)
  append_users zero index users seen tiles = ok (seen, tiles)
  append_users (suc count) index users seen tiles = do
    user ← users.get_at index
    found ← append_user user seen tiles
    append_users count (suc index) users found.0 found.1

  abbrev pub with_empty : Bool → List Credential → List Credential
  with_empty true tiles = tiles ++ (tile scenario [] [] [] ∷ [])
  with_empty false tiles = tiles

  abbrev pub enumerate : Users → Hr (List Credential)
  enumerate users = do
    count ← users.get_count
    found ← append_users count 0 users [] []
    empty ← users.empty_local
    ok (with_empty empty found.1)

abbrev pub publish : Hr (List Credential) → Provider → Provider × HResult
publish (ok tiles) p = (record p { credentials = tiles; ready = true }, s_ok)
publish (err e) p = (p, e)

abbrev pub from_users : Directory → Option Users → Provider → Provider × HResult
from_users directory none p = (p, s_ok)
from_users directory (some users) p = publish (enumerate directory p.scenario users) p

-- `CreateCredentials`.
unfoldable pub create_credentials : Directory → Provider → Provider × HResult
create_credentials directory p =
    if p.ready
    then (p, s_ok)
    else if p.is_remote || not (in_scope p.scenario)
    then (p, e_notimpl)
    else from_users directory p.users p

-- `GetCredentialCount` and `GetCredentialAt`; a failed CreateCredentials ends them.
abbrev pub counted : Provider × HResult → Provider × HResult × ℕ
counted (p, s_ok) = (p, s_ok, length p.credentials)
counted (p, e) = (p, e, 0)

unfoldable pub get_credential_count : Directory → Provider → Provider × HResult × ℕ
get_credential_count directory p = counted (create_credentials directory p)

unfoldable pub credential_of : List Credential → ℕ → Option Credential
credential_of [] index = none
credential_of (c ∷ credentials) zero = some c
credential_of (c ∷ credentials) (suc index) = credential_of credentials index

abbrev pub picked : ℕ → Provider × HResult → Provider × Hr Credential
picked index (p, s_ok) = (
  p,
  elim (credential_of p.credentials index) as (λ _. Hr Credential) [
    | none ↦ err e_invalidarg
    | some c ↦ ok c
  ],
)
picked index (p, e) = (p, err e)

unfoldable pub get_credential_at : Directory → ℕ → Provider → Provider × Hr Credential
get_credential_at directory index p = picked index (create_credentials directory p)
