-- ===== src/CredentialProvider/Provider/Walked.antt =====
-- The loop of CreateCredentials over the users of the array.
use windows_fido_logon.Base.{
  ℕ, zero, suc, ◌+◌, ◌≡◌, refl, sym, subst, inl, inr, Bool, true, false, Option, none, some, List,
  [], ◌∷◌, ◌++◌, Wide, bytes_eq, eq_of_bytes_eq, any, if_elim, arith,
}
use windows_fido_logon.CredentialProviderFilter.{Scenario}
use windows_fido_logon.CredentialProvider.HResult.{ok, >>=-eq-ok, ok-injective}
use windows_fido_logon.CredentialProvider.Credential.{Credential, set_mode, initialize}
use windows_fido_logon.CredentialProvider.Provider.{
  User, Users, Directory, tile, append_known, append_sid, append_local, append_user, append_users,
}
use windows_fido_logon.CredentialProvider.Provider.Visited.{
  HasTile, HasTile-append, HasTile-last, foreign, without_sid, unresolved, shown, IsWalked,
  IsVisited-append, wider, with_source, seen_cases, next_index, skip,
}

module _ (directory : Directory) (users : Users) where
  module _ (scenario : Scenario) (index : ℕ) (user : User)
      (read : users.get_at index ≡ ok (some user)) where
    abbrev Walks : List Wide × List Credential → Type 0
    Walks found = IsWalked directory users (suc index) found.0 found.1

    add :
        (t : Credential) (seen : List Wide) (tiles : List Credential)
        → user.is_local ≡ ok true
        → user.get_sid ≡ ok (some t.user_sid)
        → IsWalked directory users index seen tiles
        → IsWalked directory users (suc index) (t.user_sid ∷ seen) (tiles ++ (t ∷ []))
    add t seen tiles told given walked = record {
      seen_shown = λ sid h. elim (seen_cases directory users (bytes_eq sid t.user_sid) _ h) [
        | inl same ↦
            subst (λ u. HasTile u (tiles ++ (t ∷ []))) (sym (eq_of_bytes_eq sid t.user_sid same))
              (HasTile-last t tiles)
        | inr before ↦ HasTile-append sid tiles (t ∷ []) (walked.seen_shown sid before)
      ];
      visited =
          next_index directory users index (tiles ++ (t ∷ []))
            (λ j less. IsVisited-append directory users j tiles (t ∷ []) (walked.visited j less))
            (shown user t.user_sid read told given (HasTile-last t tiles));
      sources =
          with_source directory users (suc index) tiles t
            (wider directory users index tiles walked.sources)
            (record {
              index = index;
              below = omega arith;
              user = user;
              read = read;
              is_local = told;
              sid = given;
            });
    }

    append_known-Walks :
        (account : Option (Wide × Wide)) (sid : Wide) (seen : List Wide) (tiles : List Credential)
        → user.is_local ≡ ok true
        → user.get_sid ≡ ok (some sid)
        → directory.resolve_local_sid sid ≡ account
        → IsWalked directory users index seen tiles
        → Walks (append_known directory scenario account sid seen tiles)
    unfolding initialize set_mode
    append_known-Walks none sid seen tiles told given resolves walked =
        skip directory users index seen tiles walked (unresolved user sid read told given resolves)
    append_known-Walks (some (username, computer)) sid seen tiles told given resolves walked =
        if_elim Walks (any (bytes_eq sid) seen)
          (λ before.
            skip directory users index seen tiles walked
              (shown user sid read told given (walked.seen_shown sid before)))
          (λ _. add (tile scenario username computer sid) seen tiles told given walked)

    append_sid-Walks :
        (sid : Option Wide) (seen : List Wide) (tiles : List Credential)
        → user.is_local ≡ ok true
        → user.get_sid ≡ ok sid
        → IsWalked directory users index seen tiles
        → Walks (append_sid directory scenario sid seen tiles)
    append_sid-Walks none seen tiles told given walked =
        skip directory users index seen tiles walked (without_sid user read told (inl given))
    append_sid-Walks (some []) seen tiles told given walked =
        skip directory users index seen tiles walked (without_sid user read told (inr given))
    append_sid-Walks (some (c ∷ sid)) seen tiles told given walked =
        append_known-Walks (directory.resolve_local_sid (c ∷ sid)) (c ∷ sid) seen tiles told given
          refl walked

    append_local-Walks :
        (is_local : Bool) (seen : List Wide) (tiles : List Credential)
        (found : List Wide × List Credential)
        → user.is_local ≡ ok is_local
        → IsWalked directory users index seen tiles
        → append_local directory scenario is_local user seen tiles ≡ ok found
        → Walks found
    append_local-Walks false seen tiles found told walked h =
        subst Walks (ok-injective h)
          (skip directory users index seen tiles walked (foreign user read told))
    append_local-Walks true seen tiles found told walked h =
        let (sid, given, h₁) = >>=-eq-ok user.get_sid _ h in
        subst Walks (ok-injective h₁) (append_sid-Walks sid seen tiles told given walked)

  append_user-Walks :
      (scenario : Scenario) (index : ℕ) (user : Option User) (seen : List Wide)
      (tiles : List Credential) (found : List Wide × List Credential)
      → users.get_at index ≡ ok user
      → IsWalked directory users index seen tiles
      → append_user directory scenario user seen tiles ≡ ok found
      → IsWalked directory users (suc index) found.0 found.1
  append_user-Walks scenario index none seen tiles found read walked h = absurd (cc)
  append_user-Walks scenario index (some user) seen tiles found read walked h =
      let (is_local, told, h₁) = >>=-eq-ok user.is_local _ h in
      append_local-Walks scenario index user read is_local seen tiles found told walked h₁

  pub append_users-IsWalked :
      (scenario : Scenario) (count index end : ℕ) (seen : List Wide) (tiles : List Credential)
      (found : List Wide × List Credential)
      → index + count ≡ end
      → IsWalked directory users index seen tiles
      → append_users directory scenario count index users seen tiles ≡ ok found
      → IsWalked directory users end found.0 found.1
  unfolding append_users
  append_users-IsWalked scenario zero index end seen tiles found counts walked h =
      let same : index ≡ end = omega (arith, counts) in
      subst (λ (f : List Wide × List Credential). IsWalked directory users end f.0 f.1)
        (ok-injective h) (subst (λ i. IsWalked directory users i seen tiles) same walked)
  append_users-IsWalked scenario (suc count) index end seen tiles found counts walked h =
      let (user, read, h₁) = >>=-eq-ok (users.get_at index) _ h in
      let (next, appended, h₂) = >>=-eq-ok (append_user directory scenario user seen tiles) _ h₁ in
      append_users-IsWalked scenario count (suc index) end next.0 next.1 found
        (omega (arith, counts))
        (append_user-Walks scenario index user seen tiles next read walked appended) h₂
