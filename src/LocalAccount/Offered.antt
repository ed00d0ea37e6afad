-- ===== src/LocalAccount/Offered.antt =====
-- The accounts that are enumerated.
use windows_fido_logon.Base.{
  ℕ, ◌≡◌, ◌≢◌, refl, ◌⊎◌, inl, inr, Bool, true, false, not, ◌&&◌, Option, none, some, List, [], ◌∷◌,
  ◌++◌, ◌/◌, ◌%◌, All, Wide, is_empty, ◌==◌, if_elim, arith,
}
use windows_fido_logon.LocalAccount.{
  Lookup, found, lookup_failed, Accounts, LocalAccount, resolve_local_account, is_hidden, is_set,
  UserInfo, Enumeration, more, last, enumeration_failed, is_listed, kept_account, listed_accounts,
  enumerated, enumerate_local_accounts,
}

-- The entries that the calls of NetUserEnum return, and the flags of an entry that is shown.
abbrev pub IsAmong : UserInfo → List UserInfo → Type 0
IsAmong user [] = ⊥
IsAmong user (other ∷ users) = (user ≡ other) ⊎ IsAmong user users

abbrev pub IsReturned : UserInfo → Enumeration → Type 0
IsReturned user (more users next) = IsAmong user users ⊎ IsReturned user next
IsReturned user (last users) = IsAmong user users
IsReturned user (enumeration_failed status) = ⊥

-- An account that is offered: an entry that NetUserEnum returned, with a name, without UF_ACCOUNTDISABLE (0x2), with
-- UF_NORMAL_ACCOUNT (0x200), whose value under SpecialAccounts\UserList is not 0, and which
-- resolves to the account.
pub record IsOffered (os : Accounts) (returned : UserInfo → Type 0) (a : LocalAccount)
    : Type 0 where
  pub user : UserInfo
  pub enumerated_here : returned user
  pub named : user.name ≢ []
  pub enabled : (user.flags / 2) % 2 ≡ 0
  pub normal : (user.flags / 512) % 2 ≡ 1
  pub visible : os.special_account user.name ≢ some 0
  pub resolves : resolve_local_account os user.name ≡ found a

All-IsOffered-imp :
    (os : Accounts) (first second : UserInfo → Type 0)
    → ((user : UserInfo) → first user → second user)
    → (accounts : List LocalAccount) → All (IsOffered os first) accounts
    → All (IsOffered os second) accounts
All-IsOffered-imp os first second wider [] all = tt
All-IsOffered-imp os first second wider (a ∷ accounts) (offered, all) = (
  record {
    user = offered.user;
    enumerated_here = wider offered.user offered.enumerated_here;
    named = offered.named;
    enabled = offered.enabled;
    normal = offered.normal;
    visible = offered.visible;
    resolves = offered.resolves;
  },
  All-IsOffered-imp os first second wider accounts all,
)

named_of : (name : Wide) → is_empty name ≡ false → name ≢ []
named_of [] h e = absurd (cc)
named_of (c ∷ name) h e = absurd (cc)

visible_of : (os : Accounts) (value : Option ℕ) → is_hidden os value ≡ false → value ≢ some 0
visible_of os none h e = absurd (cc)
visible_of os (some value) h e = absurd (cc)

listed_of :
    (a b c d : Bool)
    → (not a && not b && c && not d) ≡ true
    → (a ≡ false) × (not b ≡ true) × (c ≡ true) × (d ≡ false)
listed_of a b c d h = (ground arith, ground arith, ground arith, ground arith)

normal_of : (n : ℕ) → (n % 2 == 1) ≡ true → n % 2 ≡ 1
normal_of n h = ground arith

bit_cases : (n : ℕ) → not (n % 2 == 1) ≡ true → n % 2 ≡ 0
bit_cases n h = ground arith

IsOffered-listed :
    (os : Accounts) (returned : UserInfo → Type 0) (user : UserInfo) (a : LocalAccount)
    → returned user
    → is_listed os user ≡ true
    → resolve_local_account os user.name ≡ found a
    → IsOffered os returned a
IsOffered-listed os returned user a here shown resolves =
    let (named, enabled, normal, visible) =
      listed_of (is_empty user.name) (is_set os 2 user.flags) (is_set os 512 user.flags)
        (is_hidden os (os.special_account user.name)) shown in
    record {
      user = user;
      enumerated_here = here;
      named = named_of user.name named;
      enabled = bit_cases (user.flags / 2) enabled;
      normal = normal_of (user.flags / 512) normal;
      visible = visible_of os (os.special_account user.name) visible;
      resolves = resolves;
    }

kept_account-IsOffered :
    (os : Accounts) (returned : UserInfo → Type 0) (user : UserInfo) (l : Lookup LocalAccount)
    (rest : List LocalAccount)
    → returned user
    → is_listed os user ≡ true
    → resolve_local_account os user.name ≡ l
    → All (IsOffered os returned) rest
    → All (IsOffered os returned) (kept_account os l rest)
kept_account-IsOffered os returned user (found a) rest here shown resolves all =
    (IsOffered-listed os returned user a here shown resolves, all)
kept_account-IsOffered os returned user (lookup_failed e) rest here shown resolves all = all

listed_accounts-IsOffered :
    (os : Accounts) (users : List UserInfo)
    → All (IsOffered os (λ user. IsAmong user users)) (listed_accounts os users)
unfolding listed_accounts
listed_accounts-IsOffered os [] = tt
listed_accounts-IsOffered os (user ∷ users) =
    let returned : UserInfo → Type 0 = λ other. IsAmong other (user ∷ users) in
    let rest =
      All-IsOffered-imp os (λ other. IsAmong other users) returned (λ other h. inr h) _
        (listed_accounts-IsOffered os users) in
    if_elim (All (IsOffered os returned)) (is_listed os user)
      (λ shown.
        kept_account-IsOffered os returned user (resolve_local_account os user.name) _ (inl refl)
          shown refl rest)
      (λ _. rest)

append-IsOffered :
    (os : Accounts) (returned : UserInfo → Type 0) (xs ys : List LocalAccount)
    → All (IsOffered os returned) xs
    → All (IsOffered os returned) ys
    → All (IsOffered os returned) (xs ++ ys)
append-IsOffered os returned [] ys h k = k
append-IsOffered os returned (x ∷ xs) ys h k = (h.0, append-IsOffered os returned xs ys h.1 k)

enumerated-IsOffered :
    (os : Accounts) (calls : Enumeration)
    → All (IsOffered os (λ user. IsReturned user calls)) (enumerated os calls).0
unfolding enumerated
enumerated-IsOffered os (more users next) =
    let returned : UserInfo → Type 0 = λ user. IsReturned user (more users next) in
    append-IsOffered os returned (listed_accounts os users) _
      (All-IsOffered-imp os (λ user. IsAmong user users) returned (λ user h. inl h) _
        (listed_accounts-IsOffered os users))
      (All-IsOffered-imp os (λ user. IsReturned user next) returned (λ user h. inr h) _
        (enumerated-IsOffered os next))
enumerated-IsOffered os (last users) = listed_accounts-IsOffered os users
enumerated-IsOffered os (enumeration_failed status) = tt

-- However many calls NetUserEnum takes and however it ends, each account that EnumerateLocalAccounts returns
-- comes from an entry that one of the calls returned, whose name is not empty, whose flags have
-- 0x200 and lack 0x2, whose value under SpecialAccounts\UserList is not 0, and whose name
-- ResolveLocalAccount resolves to that account; and it succeeds only with NERR_Success and at
-- least one account.
pub enumerate_local_accounts-IsOffered :
    (os : Accounts) (calls : Enumeration)
    → let result = enumerate_local_accounts os calls in
      All (IsOffered os (λ user. IsReturned user calls)) result.1
      × (result.0 ≡ true → (result.2 ≡ 0) × (is_empty result.1 ≡ false))
unfolding enumerate_local_accounts
enumerate_local_accounts-IsOffered os calls =
    if_elim
      (λ (result : Bool × List LocalAccount × ℕ).
        All (IsOffered os (λ user. IsReturned user calls)) result.1
        × (result.0 ≡ true → (result.2 ≡ 0) × (is_empty result.1 ≡ false)))
      (is_empty os.computer_name) (λ _. (tt, λ h. absurd (cc)))
      (λ _. (enumerated-IsOffered os calls, λ h. (ground arith, ground arith)))
