-- ===== src/CredentialProvider/Credential/LocalUser.antt =====
-- A tile on one machine: the accounts that `ResolveLocalAccount` finds there are the tile's accounts.
use windows_fido_logon.Base.{
  ℕ, ◌≡◌, ◌≢◌, ◌<◌, ◌⊎◌, inl, inr, refl, sym, ap, ◌∙◌, false, none, some, Wide, is_empty,
}
use windows_fido_logon.LocalAccount.{
  Accounts, LocalAccount, Lookup, lookup_failed, split_domain, resolve_local_account,
}
use windows_fido_logon.LocalAccount.Local.{
  IsLocal, resolve_local_account-IsLocal, resolve_local_account-resolve_local_account,
}
use windows_fido_logon.CredentialProvider.Credential.{Mode, Credential}
use windows_fido_logon.CredentialProvider.Credential.Connect.{
  Account, Resolution, found, not_found, Environment,
}
use windows_fido_logon.CredentialProvider.Credential.Serialization.{
  Packing, Serialization, get_serialization,
}
use windows_fido_logon.CredentialProvider.Credential.Steps.{Reachable}
use windows_fido_logon.CredentialProvider.Credential.Approved.{IsApproved, IsStable}
use windows_fido_logon.CredentialProvider.Credential.Packed.{IsLogonOf, get_serialization-IsLogonOf}
use windows_fido_logon.CredentialProvider.Credential.Changed.{
  IsChangeOf, get_serialization-IsChangeOf,
}
use windows_fido_logon.CredentialProvider.Credential.Safety.{get_serialization-IsApproved}

abbrev pub account_of : LocalAccount → Account
account_of a = record { username = a.username; computer = a.computer; sid = a.sid }

abbrev pub local_account_of : Account → LocalAccount
local_account_of a = record { username = a.username; computer = a.computer; sid = a.sid }

-- Connect's call of `ResolveLocalAccount`.
abbrev pub resolution_of : Lookup LocalAccount → Resolution
resolution_of (Lookup.found a) = found (account_of a)
resolution_of (lookup_failed e) = not_found e

-- The environment is one of this machine.
abbrev pub IsOn : Accounts → Environment → Type 0
IsOn os env =
    (name : Wide) → env.resolve_local_account name ≡ resolution_of (resolve_local_account os name)

-- NetUserGetInfo knows no name that is empty or contains a backslash.
abbrev pub KnowsNames : Accounts → Type 0
KnowsNames os =
    (name : Wide)
    → os.net_user_get_info name ≡ 0
    → (is_empty name ≡ false) × (split_domain name ≡ none)

found-injective : {a b : Account} → found a ≡ found b → a ≡ b
found-injective h = cc

resolution_of-found :
    (l : Lookup LocalAccount) (a : Account)
    → resolution_of l ≡ found a
    → l ≡ Lookup.found (local_account_of a)
resolution_of-found (Lookup.found b) a h =
    ap (λ c. Lookup.found (local_account_of c)) (found-injective h)
resolution_of-found (lookup_failed e) a h = absurd (cc)

-- What a finished serialization carries: a logon of the tile's account or a change of its password.
pub data Carries (p : Packing) (base : ℕ) (s : Credential) (x : Serialization) : Type 0 where
  a_logon : s.mode ≢ Mode.change_password → IsLogonOf p base s x → Carries p base s x
  a_change : s.mode ≡ Mode.change_password → IsChangeOf p base s x → Carries p base s x

mode_cases : (mode : Mode) → (mode ≡ Mode.change_password) ⊎ (mode ≢ Mode.change_password)
mode_cases Mode.change_password = inl refl
mode_cases Mode.username_password = inr (λ e. absurd (cc))
mode_cases Mode.fido = inr (λ e. absurd (cc))

get_serialization-Carries :
    (p : Packing) (base : ℕ) (s : Credential) (x : Serialization)
    → 0 < p.logon_size
    → 0 < p.change_size
    → (get_serialization p s).1.serialization ≡ some x
    → Carries p base s x
get_serialization-Carries p base s x logon_positive change_positive finished =
    elim (mode_cases s.mode) [
      | inl here ↦
          a_change here (get_serialization-IsChangeOf p base s x change_positive here finished)
      | inr other ↦
          a_logon other (get_serialization-IsLogonOf p base s x logon_positive other finished)
    ]

module _ (os : Accounts) (names : KnowsNames os) {Met : Environment → Type 0}
    (on : (env : Environment) → Met env → IsOn os env) where
  pub machine-IsStable : IsStable Met
  machine-IsStable env env' typed a b met met' first second =
      let once =
        resolution_of-found (resolve_local_account os typed) a (sym (on env met typed) ∙ first) in
      let again =
        resolve_local_account-resolve_local_account os typed (local_account_of a) names once in
      found-injective (sym second ∙ on env' met' a.username ∙ ap resolution_of again)

  -- On one machine, whatever calls LogonUI makes of a tile: when GetSerialization finishes a logon or a change of
  -- password, the tile names a user of this computer, by the name, the computer and the SID that
  -- LookupAccountName finds; the packed structure reads back, at any address, as the computer and the
  -- name of that user with the tile's password, protected in a logon, and in a change with the new
  -- password, given twice alike, behind it; and the sign-in with that user's SID is approved: the
  -- broker and the registry both say that no key is enforced for it, or the broker has accepted a
  -- key's assertion of its own challenge for that SID. NetUserGetInfo knows no name that is empty or
  -- contains a backslash, and the packed structures have a size of their own.
  pub get_serialization-IsLocal :
      (p : Packing) (base : ℕ) (s : Credential) (x : Serialization)
      → 0 < p.logon_size
      → 0 < p.change_size
      → Reachable Met s
      → (get_serialization p s).1.serialization ≡ some x
      → IsLocal os (record { username = s.username; computer = s.domain; sid = s.sid })
        × Carries p base s x
        × IsApproved Met s.sid
  get_serialization-IsLocal p base s x logon_positive change_positive reached finished =
      let (_, account, approval) =
        get_serialization-IsApproved p s x machine-IsStable reached finished in
      let resolves =
        resolution_of-found (resolve_local_account os account.typed) _
          (sym (on account.env account.met account.typed) ∙ account.known) in
      let (_, _, _, local) = resolve_local_account-IsLocal os account.typed _ resolves in
      (
        local,
        get_serialization-Carries p base s x logon_positive change_positive finished,
        approval,
      )
