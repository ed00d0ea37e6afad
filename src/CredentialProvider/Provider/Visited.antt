-- ===== src/CredentialProvider/Provider/Visited.antt =====
-- Which users of the array have tiles in the loop of CreateCredentials.
use windows_fido_logon.Base.{
  ℕ, suc, ◌≡◌, refl, sym, subst, ◌<◌, ◌⊎◌, inl, inr, Bool, true, false, none, some, List, [], ◌∷◌,
  ◌++◌, All, Wide, bytes_eq, any, ◌||◌, arith,
}
use windows_fido_logon.CredentialProvider.HResult.{ok}
use windows_fido_logon.CredentialProvider.Credential.{Credential}
use windows_fido_logon.CredentialProvider.Provider.{User, Users, Directory}

-- Some tile has the SID.
abbrev pub HasTile : Wide → List Credential → Type 0
HasTile sid [] = ⊥
HasTile sid (t ∷ tiles) = (t.user_sid ≡ sid) ⊎ HasTile sid tiles

pub HasTile-append :
    (sid : Wide) (tiles others : List Credential)
    → HasTile sid tiles
    → HasTile sid (tiles ++ others)
HasTile-append sid [] others there = absurd there
HasTile-append sid (t ∷ tiles) others (inl here) = inl here
HasTile-append sid (t ∷ tiles) others (inr there) = inr (HasTile-append sid tiles others there)

pub HasTile-last :
    (t : Credential) (tiles : List Credential) → HasTile t.user_sid (tiles ++ (t ∷ []))
HasTile-last t [] = inl refl
HasTile-last t (other ∷ tiles) = inr (HasTile-last t tiles)

module _ (directory : Directory) (users : Users) where
  -- What the provider makes of the user at an index: none for one of another provider, and of a local one a tile
  -- with its SID, unless it has none or it is not resolved.
  pub data IsVisited (index : ℕ) (tiles : List Credential) : Type 0 where
    foreign :
        (user : User)
        → users.get_at index ≡ ok (some user)
        → user.is_local ≡ ok false
        → IsVisited index tiles
    without_sid :
        (user : User)
        → users.get_at index ≡ ok (some user)
        → user.is_local ≡ ok true
        → (user.get_sid ≡ ok none) ⊎ (user.get_sid ≡ ok (some []))
        → IsVisited index tiles
    unresolved :
        (user : User) (sid : Wide)
        → users.get_at index ≡ ok (some user)
        → user.is_local ≡ ok true
        → user.get_sid ≡ ok (some sid)
        → directory.resolve_local_sid sid ≡ none
        → IsVisited index tiles
    shown :
        (user : User) (sid : Wide)
        → users.get_at index ≡ ok (some user)
        → user.is_local ≡ ok true
        → user.get_sid ≡ ok (some sid)
        → HasTile sid tiles
        → IsVisited index tiles

  -- A tile of a local user that stands in the array below an index.
  pub record IsOfUser (bound : ℕ) (t : Credential) : Type 0 where
    pub index : ℕ
    pub below : index < bound
    pub user : User
    pub read : users.get_at index ≡ ok (some user)
    pub is_local : user.is_local ≡ ok true
    pub sid : user.get_sid ≡ ok (some t.user_sid)

  pub IsVisited-append :
      (index : ℕ) (tiles others : List Credential)
      → IsVisited index tiles
      → IsVisited index (tiles ++ others)
  IsVisited-append index tiles others (foreign user read told) = foreign user read told
  IsVisited-append index tiles others (without_sid user read told no_sid) =
      without_sid user read told no_sid
  IsVisited-append index tiles others (unresolved user sid read told given resolves) =
      unresolved user sid read told given resolves
  IsVisited-append index tiles others (shown user sid read told given has) =
      shown user sid read told given (HasTile-append sid tiles others has)

  -- The users below an index have been visited, and every SID seen has its tile.
  pub record IsWalked (index : ℕ) (seen : List Wide) (tiles : List Credential) : Type 0 where
    pub seen_shown : (sid : Wide) → any (bytes_eq sid) seen ≡ true → HasTile sid tiles
    pub visited : (j : ℕ) → j < index → IsVisited j tiles
    pub sources : All (IsOfUser index) tiles

  pub wider :
      (index : ℕ) (tiles : List Credential)
      → All (IsOfUser index) tiles
      → All (IsOfUser (suc index)) tiles
  wider index [] all = tt
  wider index (t ∷ tiles) (source, all) = (
    record {
      index = source.index;
      below = omega (arith, source.below);
      user = source.user;
      read = source.read;
      is_local = source.is_local;
      sid = source.sid;
    },
    wider index tiles all,
  )

  pub with_source :
      (bound : ℕ) (tiles : List Credential) (t : Credential)
      → All (IsOfUser bound) tiles
      → IsOfUser bound t
      → All (IsOfUser bound) (tiles ++ (t ∷ []))
  with_source bound [] t all source = (source, tt)
  with_source bound (other ∷ tiles) t all source = (all.0, with_source bound tiles t all.1 source)

  below_suc : (j index : ℕ) → j < suc index → (j < index) ⊎ (j ≡ index)
  below_suc j index h = ground arith

  pub seen_cases : (b rest : Bool) → (b || rest) ≡ true → (b ≡ true) ⊎ (rest ≡ true)
  seen_cases b rest h = ground arith

  pub next_index :
      (index : ℕ) (tiles : List Credential)
      → ((j : ℕ) → j < index → IsVisited j tiles)
      → IsVisited index tiles
      → (j : ℕ) → j < suc index
      → IsVisited j tiles
  next_index index tiles before here j h = elim (below_suc j index h) [
    | inl less ↦ before j less
    | inr same ↦ subst (λ i. IsVisited i tiles) (sym same) here
  ]

  pub skip :
      (index : ℕ) (seen : List Wide) (tiles : List Credential)
      → IsWalked index seen tiles
      → IsVisited index tiles
      → IsWalked (suc index) seen tiles
  skip index seen tiles walked here = record {
    seen_shown = walked.seen_shown;
    visited = next_index index tiles walked.visited here;
    sources = wider index tiles walked.sources;
  }
