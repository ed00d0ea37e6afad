-- ===== src/LocalCredentialStore/Accounts.antt =====
-- `FindAccount`, `UpsertAccount`, `RemoveCredential`, `SetEnforced` and `RefreshLocalAccounts`.
use windows_fido_logon.Base.{
  ℕ, Bool, true, false, not, ◌&&◌, ◌||◌, Option, none, some, List, [], ◌∷◌, ◌++◌, Bytes, Wide,
  bytes_eq, length, is_empty, any, leb, ◌==◌, if◌then◌else◌,
}
use windows_fido_logon.LocalFidoTypes.{CredentialRecord, AccountRecord}
use windows_fido_logon.External.Json.{JsonLibrary}
use windows_fido_logon.Machine.{
  System, Outcome, done, failed, thrown, M, pure, fail, branch, require, ◌>>=◌, ◌>>◌,
}
use windows_fido_logon.LocalCredentialStore.Policy.{synchronize_enforced_registry}
use windows_fido_logon.LocalCredentialStore.Save.{save, load_or_create}

abbrev pub error_access_denied : ℕ
error_access_denied = 5

abbrev pub error_not_found : ℕ
error_not_found = 1168

abbrev pub error_invalid_state : ℕ
error_invalid_state = 5023

abbrev pub error_none_mapped : ℕ
error_none_mapped = 1332

abbrev pub error_no_such_user : ℕ
error_no_such_user = 1317

abbrev pub or_fail : {A : Type 0} → Option A → ℕ → M A
or_fail none e = fail e
or_fail (some a) e = pure a

-- `std::find_if` on the credential ID, and `erase` of what it found.
pub has_credential : Bytes → List CredentialRecord → Bool
has_credential id credentials = any (λ c. bytes_eq c.credential_id id) credentials

pub erase_credential : Bytes → List CredentialRecord → List CredentialRecord
erase_credential id [] = []
erase_credential id (c ∷ cs) =
    if bytes_eq c.credential_id id then cs else c ∷ erase_credential id cs

module _ (sys : System) where
  -- `std::find_if` on the SID.
  pub find_sid : Wide → List AccountRecord → Option AccountRecord
  find_sid sid [] = none
  find_sid sid (account ∷ rest) =
      if sys.same_text account.sid sid then some account else find_sid sid rest

  -- Writing through the iterator that `std::find_if` returned.
  pub replace_sid : Wide → AccountRecord → List AccountRecord → List AccountRecord
  replace_sid sid account [] = []
  replace_sid sid account (a ∷ rest) =
      if sys.same_text a.sid sid then account ∷ rest else a ∷ replace_sid sid account rest

  -- `if (it == end()) push_back(account); else *it = account;`
  pub upsert : AccountRecord → List AccountRecord → List AccountRecord
  unfolding find_sid replace_sid
  upsert account accounts = elim (find_sid account.sid accounts) [
    | none ↦ accounts ++ account ∷ []
    | some _ ↦ replace_sid account.sid account accounts
  ]

  -- The loop of `RefreshLocalAccounts`: the accounts that are left, and whether any has changed.
  -- `failed` is an error other than an account that is gone.
  abbrev pub after_resolve : AccountRecord → Outcome Wide → Outcome (Option AccountRecord × Bool)
  after_resolve account (done name) =
      if sys.same_text account.username name
      then done (some account, false)
      else done (some (record account { username = name }), true)
  after_resolve account (failed e) =
      if e == error_none_mapped || e == error_no_such_user then done (none, true) else failed e
  after_resolve account thrown = thrown

  abbrev pub with_rest :
      Outcome (Option AccountRecord × Bool)
      → Outcome (List AccountRecord × Bool)
      → Outcome (List AccountRecord × Bool)
  with_rest (done (some account, changed)) (done (rest, later)) =
      done (account ∷ rest, changed || later)
  with_rest (done (none, changed)) (done (rest, later)) = done (rest, changed || later)
  with_rest (done here) (failed e) = failed e
  with_rest (done here) thrown = thrown
  with_rest (failed e) rest = failed e
  with_rest thrown rest = thrown

  pub refresh_accounts : List AccountRecord → Outcome (List AccountRecord × Bool)
  refresh_accounts [] = done ([], false)
  refresh_accounts (account ∷ rest) =
      with_rest (after_resolve account (sys.resolve_sid account.sid)) (refresh_accounts rest)

module _ (sys : System) (json : JsonLibrary) where
  abbrev lift : {A : Type 0} → Outcome A → M A
  lift o w = (o, w)

  -- A vault that cannot be read finds no account.
  pub find_account : Wide → M (Option AccountRecord)
  unfolding find_sid
  find_account sid =
      branch (load_or_create sys json) (λ vault. pure (find_sid sys sid vault.accounts))
        (λ _. pure none)

  pub upsert_account : AccountRecord → M (Unit {0})
  unfolding upsert
  upsert_account account = do
    vault ← load_or_create sys json
    save sys json (record vault { accounts = upsert sys account vault.accounts })

  pub remove_credential : Wide → Bytes → M (Unit {0})
  unfolding find_sid has_credential erase_credential replace_sid
  remove_credential sid credential_id = do
    vault ← load_or_create sys json
    account ← or_fail (find_sid sys sid vault.accounts) error_not_found
    require (has_credential credential_id account.credentials) error_not_found
    require (not (account.enforced && leb (length account.credentials) 1)) error_access_denied
    let smaller = record account {
      credentials = erase_credential credential_id account.credentials;
    }
    save sys json (record vault { accounts = replace_sid sys sid smaller vault.accounts })

  pub set_enforced : Wide → Bool → M (Unit {0})
  unfolding find_sid replace_sid
  set_enforced sid enforced = do
    vault ← load_or_create sys json
    account ← or_fail (find_sid sys sid vault.accounts) error_invalid_state
    require (not (enforced && is_empty account.credentials)) error_invalid_state
    save sys json (record vault {
      accounts = replace_sid sys sid (record account { enforced = enforced }) vault.accounts;
    })

  pub refresh_local_accounts : M (Unit {0})
  unfolding refresh_accounts
  refresh_local_accounts = do
    vault ← load_or_create sys json
    (accounts, changed) ← lift (refresh_accounts sys vault.accounts)
    let refreshed = record vault { accounts = accounts }
    if changed then save sys json refreshed else synchronize_enforced_registry sys refreshed
