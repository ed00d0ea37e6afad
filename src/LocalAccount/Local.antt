-- ===== src/LocalAccount/Local.antt =====
-- The accounts that a name resolves to, and those that are enumerated.
use windows_fido_logon.Base.{
  ◌≡◌, refl, sym, ap, subst, ◌⊎◌, true, false, not, ◌&&◌, ◌||◌, Option, none, some, ◌∷◌, ◌++◌, Wide,
  codes, is_empty, any, ◌==◌, if_elim, arith,
}
use windows_fido_logon.LocalAccount.{
  NameLookup, Lookup, found, lookup_failed, Accounts, LocalAccount, backslash, at_sign,
  split_domain, is_user, without_domain, looked_up, resolve_candidate, resolve_local_account,
}

found-injective {ℓ} : {A : Type ℓ} {a b : A} → Lookup.found a ≡ found b → a ≡ b
found-injective h = cc

module _ (os : Accounts) where
  -- The candidate that a name stands for: the name itself, or what follows an accepted domain.
  pub data IsCandidate (input : Wide) : Wide → Type 0 where
    bare : split_domain input ≡ none → IsCandidate input input
    qualified :
        (domain name : Wide)
        → split_domain input ≡ some (domain, name)
        → (os.same_text domain (codes ".") ≡ true) ⊎ (os.same_text domain os.computer_name ≡ true)
        → IsCandidate input name

  -- A user of this computer.
  pub record IsLocal (a : LocalAccount) : Type 0 where
    pub computer : a.computer ≡ os.computer_name
    pub no_at_sign : any (λ c. c == at_sign) a.username ≡ false
    pub known : os.net_user_get_info a.username ≡ 0
    pub lookup : NameLookup
    pub looked :
        os.lookup_account_name (os.computer_name ++ (backslash ∷ a.username)) ≡ found lookup
    pub here : os.same_text lookup.domain os.computer_name ≡ true
    pub is_user_here : is_user lookup.use_type ≡ true
    pub sid : a.sid ≡ lookup.sid

  looked_up-IsLocal :
      (candidate : Wide) (l : Lookup NameLookup) (a : LocalAccount)
      → any (λ c. c == at_sign) candidate ≡ false
      → os.net_user_get_info candidate ≡ 0
      → os.lookup_account_name (os.computer_name ++ (backslash ∷ candidate)) ≡ l
      → looked_up os candidate l ≡ found a
      → (a.username ≡ candidate) × IsLocal a
  looked_up-IsLocal candidate (lookup_failed e) a plain known looked = λ h. absurd (cc)
  looked_up-IsLocal candidate (found l) a plain known looked =
      if_elim (λ r. r ≡ found a → (a.username ≡ candidate) × IsLocal a)
        (not (os.same_text l.domain os.computer_name) || not (is_user l.use_type))
        (λ _ h. absurd (cc))
        (λ accepted h.
          subst (λ (b : LocalAccount). (b.username ≡ candidate) × IsLocal b) (found-injective h)
            (
              refl,
              record {
                computer = refl;
                no_at_sign = plain;
                known = known;
                lookup = l;
                looked = looked;
                here = ground arith;
                is_user_here = ground arith;
                sid = refl;
              },
            ))

  resolve_candidate-IsLocal :
      (candidate : Wide) (a : LocalAccount)
      → resolve_candidate os (some candidate) ≡ found a
      → (a.username ≡ candidate) × IsLocal a
  resolve_candidate-IsLocal candidate a =
      if_elim (λ r. r ≡ found a → (a.username ≡ candidate) × IsLocal a)
        (any (λ c. c == at_sign) candidate) (λ _ h. absurd (cc))
        (λ plain.
          if_elim (λ r. r ≡ found a → (a.username ≡ candidate) × IsLocal a)
            (not (os.net_user_get_info candidate == 0)) (λ _ h. absurd (cc))
            (λ known.
              looked_up-IsLocal candidate
                (os.lookup_account_name (os.computer_name ++ (backslash ∷ candidate))) a plain
                (ground arith) refl))

  resolve_split-IsLocal :
      (input : Wide) (parts : Option (Wide × Wide)) (a : LocalAccount)
      → split_domain input ≡ parts
      → resolve_candidate os (without_domain os parts input) ≡ found a
      → IsCandidate input a.username × IsLocal a
  resolve_split-IsLocal input none a parts = λ h.
      let (same, local) = resolve_candidate-IsLocal input a h in
      (subst (IsCandidate input) (sym same) (bare parts), local)
  resolve_split-IsLocal input (some (domain, name)) a parts =
      if_elim (λ o. resolve_candidate os o ≡ found a → IsCandidate input a.username × IsLocal a)
        (not (os.same_text domain (codes ".")) && not (os.same_text domain os.computer_name))
        (λ _ h. absurd (cc))
        (λ accepted h.
          let (same, local) = resolve_candidate-IsLocal name a h in
          (
            subst (IsCandidate input) (sym same) (qualified domain name parts (ground arith)),
            local,
          ))

-- A name that ResolveLocalAccount accepts stands for a user of this computer: what follows the name's first
-- backslash, or the whole name where it has none, contains no `@` and is known to NetUserGetInfo, what
-- precedes the backslash is `.` or the computer's name, and LookupAccountName finds behind the
-- computer's name an account of type user in the computer's own domain, whose SID is returned. Neither
-- the name nor the computer's name is empty.
pub resolve_local_account-IsLocal :
    (os : Accounts) (input : Wide) (a : LocalAccount)
    → resolve_local_account os input ≡ found a
    → (is_empty input ≡ false)
      × (is_empty os.computer_name ≡ false)
      × IsCandidate os input a.username
      × IsLocal os a
unfolding resolve_local_account
resolve_local_account-IsLocal os input a =
    if_elim
      (λ r.
        r ≡ found a
        → (is_empty input ≡ false)
          × (is_empty os.computer_name ≡ false)
          × IsCandidate os input a.username
          × IsLocal os a)
      (is_empty input || is_empty os.computer_name) (λ _ h. absurd (cc))
      (λ named h.
        let (candidate, local) = resolve_split-IsLocal os input (split_domain input) a refl h in
        (ground arith, ground arith, candidate, local))

-- A local account's name without a backslash resolves to that account.
resolve-IsLocal :
    (os : Accounts) (a : LocalAccount)
    → is_empty a.username ≡ false
    → is_empty os.computer_name ≡ false
    → split_domain a.username ≡ none
    → IsLocal os a
    → resolve_local_account os a.username ≡ found a
unfolding resolve_local_account
resolve-IsLocal os a named computer plain l =
    rw (named, computer, plain, l.no_at_sign, l.known, l.looked, l.here, l.is_user_here)
      (ap found (rw (sym l.computer, sym l.sid) refl))

-- Resolving the name of a resolved account gives the same account again: a later ResolveLocalAccount of what
-- the first one returned, on the same machine, changes neither the name nor the computer nor the SID.
-- NetUserGetInfo knows no name that is empty or contains a backslash.
pub resolve_local_account-resolve_local_account :
    (os : Accounts) (input : Wide) (a : LocalAccount)
    → ((name : Wide)
        → os.net_user_get_info name ≡ 0
        → (is_empty name ≡ false) × (split_domain name ≡ none))
    → resolve_local_account os input ≡ found a
    → resolve_local_account os a.username ≡ found a
resolve_local_account-resolve_local_account os input a names h =
    let (_, computer, _, local) = resolve_local_account-IsLocal os input a h in
    let (named, plain) = names a.username local.known in
    resolve-IsLocal os a named computer plain local
