-- ===== src/CredentialProvider/Provider/Tiles.antt =====
-- The tiles that a provider makes.
use windows_fido_logon.Base.{
  ℕ, zero, suc, ◌<◌, ◌≡◌, ◌≢◌, refl, sym, subst, Bool, true, false, not, ◌||◌, Option, none, some,
  List, [], ◌∷◌, ◌++◌, All, Wide, bytes_eq, bytes_eq_refl, any, is_empty, if_elim, arith,
}
use windows_fido_logon.CredentialProviderFilter.{Scenario, in_scope}
use windows_fido_logon.CredentialProvider.HResult.{
  HResult, Hr, ok, err, >>=-eq-ok, ok-injective, s_ok, e_notimpl,
}
use windows_fido_logon.CredentialProvider.Credential.{Credential, set_mode, initialize}
use windows_fido_logon.CredentialProvider.Provider.Visited.{IsVisited, IsOfUser}
use windows_fido_logon.CredentialProvider.Provider.Walked.{append_users-IsWalked}
use windows_fido_logon.CredentialProvider.Provider.Failing.{IsFailing, enumerate-err}
use windows_fido_logon.CredentialProvider.Provider.{
  User, Users, Provider, Directory, tile, append_known, append_sid, append_local, append_user,
  append_users, with_empty, enumerate, publish, from_users, create_credentials,
}

-- The tiles have different SIDs.
abbrev pub Distinct : List Credential → Type 0
Distinct [] = Unit
Distinct (t ∷ tiles) = All (λ (u : Credential). u.user_sid ≢ t.user_sid) tiles × Distinct tiles

All-append {ℓ κ} :
    {A : Type ℓ} (P : A → Type κ) (xs : List A) (y : A) → All P xs → P y → All P (xs ++ (y ∷ []))
All-append P [] y h p = (p, tt)
All-append P (x ∷ xs) y h p = (h.0, All-append P xs y h.1 p)

All-mono {ℓ κ μ} :
    {A : Type ℓ} (P : A → Type κ) (Q : A → Type μ) (xs : List A)
    → ((x : A) → P x → Q x)
    → All P xs
    → All Q xs
All-mono P Q [] f h = tt
All-mono P Q (x ∷ xs) f h = (f x h.0, All-mono P Q xs f h.1)

Distinct-append :
    (tiles : List Credential) (n : Credential)
    → Distinct tiles
    → All (λ (t : Credential). n.user_sid ≢ t.user_sid) tiles
    → Distinct (tiles ++ (n ∷ []))
Distinct-append [] n d new = (tt, tt)
Distinct-append (t ∷ tiles) n d new =
    (All-append _ tiles n d.0 new.0, Distinct-append tiles n d.1 new.1)

module _ (directory : Directory) (scenario : Scenario) where
  -- A tile of a local account: its SID resolves to its name and its computer, and it holds no password.
  pub record IsOwn (t : Credential) : Type 0 where
    pub has_sid : is_empty t.user_sid ≡ false
    pub resolves : directory.resolve_local_sid t.user_sid ≡ some (t.username, t.domain)
    pub no_password : t.password ≡ []

  -- What the loop keeps: the tiles are those of local accounts, their SIDs differ, and are all among those seen.
  record IsKept (seen : List Wide) (tiles : List Credential) : Type 0 where
    own : All IsOwn tiles
    distinct : Distinct tiles
    listed : All (λ (t : Credential). any (bytes_eq t.user_sid) seen ≡ true) tiles

  abbrev Keeps : List Wide × List Credential → Type 0
  Keeps found = IsKept found.0 found.1

  add_tile :
      (username computer sid : Wide) (seen : List Wide) (tiles : List Credential)
      → is_empty sid ≡ false
      → directory.resolve_local_sid sid ≡ some (username, computer)
      → any (bytes_eq sid) seen ≡ false
      → IsKept seen tiles
      → IsKept (sid ∷ seen) (tiles ++ (tile scenario username computer sid ∷ []))
  unfolding initialize set_mode
  add_tile username computer sid seen tiles named resolves new kept = record {
    own =
        All-append _ tiles _ kept.own
          (record { has_sid = named; resolves = resolves; no_password = refl });
    distinct =
        Distinct-append tiles _ kept.distinct
          (All-mono _ _ tiles (λ t before same. absurd (cc (same, before, new))) kept.listed);
    listed =
        All-append _ tiles _ (All-mono _ _ tiles (λ t before. ground (arith, before)) kept.listed)
          (ground (arith, bytes_eq_refl sid));
  }

  append_known-Keeps :
      (account : Option (Wide × Wide)) (sid : Wide) (seen : List Wide) (tiles : List Credential)
      → is_empty sid ≡ false
      → directory.resolve_local_sid sid ≡ account
      → IsKept seen tiles
      → Keeps (append_known directory scenario account sid seen tiles)
  append_known-Keeps none sid seen tiles named resolves kept = kept
  append_known-Keeps (some (username, computer)) sid seen tiles named resolves kept =
      if_elim Keeps (any (bytes_eq sid) seen) (λ _. kept)
        (λ new. add_tile username computer sid seen tiles named resolves new kept)

  append_sid-Keeps :
      (sid : Option Wide) (seen : List Wide) (tiles : List Credential)
      → IsKept seen tiles
      → Keeps (append_sid directory scenario sid seen tiles)
  append_sid-Keeps none seen tiles kept = kept
  append_sid-Keeps (some sid) seen tiles kept =
      if_elim Keeps (is_empty sid) (λ _. kept)
        (λ named.
          append_known-Keeps (directory.resolve_local_sid sid) sid seen tiles named refl kept)

  append_local-Keeps :
      (is_local : Bool) (user : User) (seen : List Wide) (tiles : List Credential)
      (found : List Wide × List Credential)
      → IsKept seen tiles
      → append_local directory scenario is_local user seen tiles ≡ ok found
      → Keeps found
  append_local-Keeps false user seen tiles found kept h = subst Keeps (ok-injective h) kept
  append_local-Keeps true user seen tiles found kept h =
      let (sid, _, h₁) = >>=-eq-ok user.get_sid _ h in
      subst Keeps (ok-injective h₁) (append_sid-Keeps sid seen tiles kept)

  append_user-Keeps :
      (user : Option User) (seen : List Wide) (tiles : List Credential)
      (found : List Wide × List Credential)
      → IsKept seen tiles
      → append_user directory scenario user seen tiles ≡ ok found
      → Keeps found
  append_user-Keeps none seen tiles found kept h = absurd (cc)
  append_user-Keeps (some user) seen tiles found kept h =
      let (is_local, _, h₁) = >>=-eq-ok user.is_local _ h in
      append_local-Keeps is_local user seen tiles found kept h₁

  append_users-Keeps :
      (count index : ℕ) (users : Users) (seen : List Wide) (tiles : List Credential)
      (found : List Wide × List Credential)
      → IsKept seen tiles
      → append_users directory scenario count index users seen tiles ≡ ok found
      → Keeps found
  unfolding append_users
  append_users-Keeps zero index users seen tiles found kept h = subst Keeps (ok-injective h) kept
  append_users-Keeps (suc count) index users seen tiles found kept h =
      let (user, _, h₁) = >>=-eq-ok (users.get_at index) _ h in
      let (next, appended, h₂) = >>=-eq-ok (append_user directory scenario user seen tiles) _ h₁ in
      append_users-Keeps count (suc index) users next.0 next.1 found
        (append_user-Keeps user seen tiles next kept appended) h₂

-- What a provider publishes: tiles of the local users of the array, of all of them whose SID resolves, with
-- different SIDs, and behind them one tile without a name and a SID where the account options ask
-- for it.
pub record IsPublished (directory : Directory) (scenario : Scenario) (users : Users)
    (credentials : List Credential) : Type 0 where
  pub count : ℕ
  pub counted : users.get_count ≡ ok count
  pub tiles : List Credential
  pub complete : (index : ℕ) → index < count → IsVisited directory users index tiles
  pub sources : All (IsOfUser directory users count) tiles
  pub own : All (IsOwn directory scenario) tiles
  pub distinct : Distinct tiles
  pub with_empty_tile : Bool
  pub asked : users.empty_local ≡ ok with_empty_tile
  pub all : credentials ≡ with_empty directory scenario with_empty_tile tiles

enumerate-IsPublished :
    (directory : Directory) (scenario : Scenario) (users : Users) (credentials : List Credential)
    → enumerate directory scenario users ≡ ok credentials
    → IsPublished directory scenario users credentials
enumerate-IsPublished directory scenario users credentials h =
    let (count, counted, h₁) = >>=-eq-ok users.get_count _ h in
    let (found, looped, h₂) =
      >>=-eq-ok (append_users directory scenario count 0 users [] []) _ h₁ in
    let (empty, asked, h₃) = >>=-eq-ok users.empty_local _ h₂ in
    let kept =
      append_users-Keeps directory scenario count 0 users [] [] found
        (record { own = tt; distinct = tt; listed = tt }) looped in
    let walked =
      append_users-IsWalked directory users scenario count 0 count [] [] found (omega arith)
        (record {
          seen_shown = λ sid h. absurd (cc);
          visited = λ j h. absurd (omega (arith, h));
          sources = tt;
        })
        looped in
    record {
      count = count;
      counted = counted;
      tiles = found.1;
      complete = walked.visited;
      sources = walked.sources;
      own = kept.own;
      distinct = kept.distinct;
      with_empty_tile = empty;
      asked = asked;
      all = sym (ok-injective h₃);
    }

-- Either everything or nothing is published.
pub data Created (directory : Directory) (p : Provider) (users : Users)
    : Provider × HResult → Type 0 where
  published :
      (credentials : List Credential)
      → IsPublished directory p.scenario users credentials
      → Created directory p users (record p { credentials = credentials; ready = true }, s_ok)
  already : p.ready ≡ true → Created directory p users (p, s_ok)
  out_of_scope :
      (p.is_remote || not (in_scope p.scenario)) ≡ true → Created directory p users (p, e_notimpl)
  failed : (e : HResult) → IsFailing users e → Created directory p users (p, e)

publish-Created :
    (directory : Directory) (p : Provider) (users : Users) (tiles : Hr (List Credential))
    → enumerate directory p.scenario users ≡ tiles
    → Created directory p users (publish tiles p)
publish-Created directory p users (ok tiles) h =
    published tiles (enumerate-IsPublished directory p.scenario users tiles h)
publish-Created directory p users (err e) h =
    failed e (enumerate-err users directory p.scenario e h)

-- CreateCredentials of a provider that LogonUI has given its users publishes a complete enumeration, or
-- leaves the provider as it is: where its tiles are ready, where the session is remote or the
-- scenario is another than logon and unlock, or where a call of the enumeration fails (GetCount,
-- GetAt, GetProviderID, GetSid of a local user, the account options, or a null user), with that
-- call's error. In a complete one GetCount and, below the count, every GetAt and GetProviderID and every
-- local user's GetSid have succeeded; every local user has a tile with its SID, unless it has no SID or
-- an empty one or `ResolveLocalSid` does not resolve it; every tile of a user is that of a local user of the
-- array, with its SID, which `ResolveLocalSid` resolves to the tile's name and computer; no two have the
-- same SID, none holds a password, and a last tile without a user stands where, and only where, the
-- account options ask for it.
pub create_credentials-Created :
    (directory : Directory) (p : Provider) (users : Users)
    → p.users ≡ some users
    → Created directory p users (create_credentials directory p)
unfolding create_credentials
create_credentials-Created directory p users given =
    let P : Provider × HResult → Type 0 = Created directory p users in
    if_elim P p.ready already (λ _.
      if_elim P (p.is_remote || not (in_scope p.scenario)) out_of_scope (λ _.
        subst (λ (u : Option Users). P (from_users directory u p)) (sym given)
          (publish-Created directory p users (enumerate directory p.scenario users) refl)))
