-- ===== src/CredentialProvider/Credential/Approved.antt =====
-- The invariant of a tile: what its flags say of the broker's answers.
use windows_fido_logon.Base.{
  ◌≡◌, ◌⊎◌, inl, inr, Bool, true, false, Option, none, some, Wide, is_empty,
}
use windows_fido_logon.LocalFidoTypes.{FidoSignResponse, AuthenticationChallenge}
use windows_fido_logon.CredentialProvider.Credential.{Device, Credential}
use windows_fido_logon.CredentialProvider.Credential.Connect.{Account, found, Environment}

-- The account is one that a Connect resolved, and it is the tile's own where the tile has one.
pub record IsAccount (Met : Environment → Type 0) (user_sid username domain sid : Wide)
    : Type 0 where
  pub env : Environment
  pub met : Met env
  pub typed : Wide
  pub known :
      env.resolve_local_account typed
      ≡ found (record { username = username; computer = domain; sid = sid })
  pub own : (is_empty user_sid ≡ true) ⊎ (env.same_text sid user_sid ≡ true)

-- The broker has issued the challenge for the account.
pub record IsIssued (Met : Environment → Type 0) (sid : Wide) (c : AuthenticationChallenge)
    : Type 0 where
  pub env : Environment
  pub met : Met env
  pub issued : env.begin_authentication sid ≡ some c

-- The account needs no key, as the broker and the registry both say; or a key has signed the broker's
-- challenge for the account, and the broker has accepted the assertion for that challenge's session.
pub data IsApproved (Met : Environment → Type 0) (sid : Wide) : Type 0 where
  unenforced :
      (env : Environment) (c : AuthenticationChallenge)
      → Met env
      → env.begin_authentication sid ≡ some c
      → c.enforced ≡ false
      → env.is_sid_enforced sid ≡ false
      → IsApproved Met sid
  verified :
      (env : Environment) (c : AuthenticationChallenge) (device : Device) (pin : Wide)
      (assertion : FidoSignResponse)
      → IsIssued Met sid c
      → c.enforced ≡ true
      → Met env
      → env.sign device c.request c.origin pin ≡ some assertion
      → env.finish_authentication c.session_id assertion ≡ true
      → IsApproved Met sid

-- The same name stands for the same account at every Connect.
abbrev pub IsStable : (Environment → Type 0) → Type 0
IsStable Met =
    (env env' : Environment) (typed : Wide) (a b : Account)
    → Met env
    → Met env'
    → env.resolve_local_account typed ≡ found a
    → env'.resolve_local_account a.username ≡ found b
    → b ≡ a

abbrev pub IsPending :
    (Environment → Type 0)
    → (user_sid username domain sid : Wide) → AuthenticationChallenge
    → Type 0
IsPending Met user_sid username domain sid c =
    IsAccount Met user_sid username domain sid × (c.enforced ≡ true) × IsIssued Met sid c

-- An approval is one of the account that the tile names, and so is a challenge that is pending.
pub record Sound (Met : Environment → Type 0) (user_sid username domain sid : Wide)
    (mfa_complete : Bool) (challenge : Option AuthenticationChallenge)
    (password_change_authorized : Bool) : Type 0 where
  pub approved :
      (mfa_complete ≡ true) ⊎ (password_change_authorized ≡ true)
      → IsAccount Met user_sid username domain sid × IsApproved Met sid
  pub pending :
      (c : AuthenticationChallenge)
      → challenge ≡ some c
      → IsAccount Met user_sid username domain sid × (c.enforced ≡ true) × IsIssued Met sid c

abbrev pub IsSound : (Environment → Type 0) → Credential → Type 0
IsSound Met s =
    Sound Met s.user_sid s.username s.domain s.sid s.mfa_complete s.challenge
      s.password_change_authorized

module _ {Met : Environment → Type 0} {user_sid username domain sid : Wide} where
  pub reset_Sound : Sound Met user_sid username domain sid false none false
  reset_Sound = record {
    approved = elim [ inl h ↦ absurd (cc) | inr h ↦ absurd (cc) ];
    pending = λ c h. absurd (cc);
  }

  pub refused_Sound :
      {mfa pca : Bool} {challenge : Option AuthenticationChallenge}
      → Sound Met user_sid username domain sid mfa challenge pca
      → Sound Met user_sid username domain sid false none pca
  refused_Sound sound = record {
    approved = elim [ inl h ↦ absurd (cc) | inr h ↦ sound.approved (inr h) ];
    pending = λ c h. absurd (cc);
  }

  pub approved_Sound :
      {pca : Bool}
      → IsAccount Met user_sid username domain sid
      → IsApproved Met sid
      → Sound Met user_sid username domain sid true none pca
  approved_Sound account approval = record {
    approved = λ _. (account, approval);
    pending = λ c h. absurd (cc);
  }
