-- ===== src/Tests/Accounts.antt =====
-- A machine with one local user.
use windows_fido_logon.Base.{
  ◌≡◌, All, refl, sym, subst, true, false, none, [], ◌∷◌, Wide, bytes_eq, eq_of_bytes_eq, codes,
  is_empty, if◌then◌else◌, if_elim,
}
use windows_fido_logon.LocalAccount.{
  user_type, found, lookup_failed, Accounts, LocalAccount, split_domain, resolve_local_account,
  UserInfo, last, enumerate_local_accounts,
}
use windows_fido_logon.LocalAccount.Local.{
  IsCandidate, IsLocal, resolve_local_account-IsLocal, resolve_local_account-resolve_local_account,
}
use windows_fido_logon.LocalAccount.Offered.{
  IsReturned, IsOffered, enumerate_local_accounts-IsOffered,
}
use windows_fido_logon.CredentialProvider.Credential.LocalUser.{KnowsNames}

abbrev pub ann : Wide
ann = codes "ann"

abbrev pub computer : Wide
computer = codes "PC"

abbrev pub ann_sid : Wide
ann_sid = codes "S-1-5-21-7"

abbrev pub machine : Accounts
machine = record {
  computer_name = computer;
  same_text = bytes_eq;
  net_user_get_info = λ name. if bytes_eq name ann then 0 else 2221;
  lookup_account_name =
      λ name. found (record { domain = computer; sid = ann_sid; use_type = user_type });
  convert_sid = λ sid. none;
  lookup_account_sid = λ sid. lookup_failed 1332;
  last_error = 0;
  special_account = λ name. none;
}

pub machine-KnowsNames : KnowsNames machine
unfolding split_domain bytes_eq
machine-KnowsNames name =
    if_elim (λ n. n ≡ 0 → (is_empty name ≡ false) × (split_domain name ≡ none)) (bytes_eq name ann)
      (λ same _.
        subst (λ n. (is_empty n ≡ false) × (split_domain n ≡ none))
          (sym (eq_of_bytes_eq name ann same)) (refl, refl))
      (λ _ h. absurd (cc))

abbrev pub ann_account : LocalAccount
ann_account = record { username = ann; computer = computer; sid = ann_sid }

pub ann_resolves : resolve_local_account machine ann ≡ found ann_account
unfolding resolve_local_account split_domain bytes_eq
ann_resolves = refl

resolve_local_account-IsLocal_example :
    (is_empty ann ≡ false)
    × (is_empty machine.computer_name ≡ false)
    × IsCandidate machine ann ann
    × IsLocal machine ann_account
resolve_local_account-IsLocal_example =
    resolve_local_account-IsLocal machine ann ann_account ann_resolves

resolve_local_account-resolve_local_account_example :
    resolve_local_account machine ann ≡ found ann_account
resolve_local_account-resolve_local_account_example =
    resolve_local_account-resolve_local_account machine ann ann_account machine-KnowsNames
      ann_resolves

abbrev offered : UserInfo
offered = record { name = ann; flags = 512 }

enumerate_local_accounts-IsOffered_example :
    let result = enumerate_local_accounts machine (last (offered ∷ [])) in
    All (IsOffered machine (λ user. IsReturned user (last (offered ∷ [])))) result.1
    × (result.0 ≡ true → (result.2 ≡ 0) × (is_empty result.1 ≡ false))
enumerate_local_accounts-IsOffered_example =
    enumerate_local_accounts-IsOffered machine (last (offered ∷ []))
