-- ===== src/CredentialProvider/Provider/Failing.antt =====
-- Which calls of the enumeration fail.
use windows_fido_logon.Base.{
  ℕ, zero, suc, ◌+◌, ◌≡◌, refl, ◌<◌, ◌⊎◌, inl, inr, subst, Bool, true, false, Option, none, some,
  List, [], Wide, arith,
}
use windows_fido_logon.CredentialProviderFilter.{Scenario}
use windows_fido_logon.CredentialProvider.HResult.{HResult, Hr, ok, err, ◌>>=◌, e_unexpected}
use windows_fido_logon.CredentialProvider.Credential.{Credential}
use windows_fido_logon.CredentialProvider.Provider.{
  User, Users, Directory, append_sid, append_local, append_user, append_users, enumerate,
}

>>=-eq-err {ℓ κ} :
    {A : Type ℓ} {C : Type κ} (call : Hr A) (next : A → Hr C) {e : HResult}
    → (call >>= next) ≡ err e
    → (call ≡ err e) ⊎ ((a : A) × (call ≡ ok a) × (next a ≡ err e))
>>=-eq-err (ok a) next h = inr (a, refl, h)
>>=-eq-err (err f) next h = inl (cc)

err-injective {ℓ} : (A : Type ℓ) (e f : HResult) → (e' : Hr A) → e' ≡ err e → e' ≡ err f → e ≡ f
err-injective A e f e' h k = cc

module _ (users : Users) where
  -- The call on the user at an index that fails, with its error; a null user is E_UNEXPECTED.
  pub data IsFailingAt (index : ℕ) : HResult → Type 0 where
    unread : {e : HResult} → users.get_at index ≡ err e → IsFailingAt index e
    null_user : users.get_at index ≡ ok none → IsFailingAt index e_unexpected
    untold :
        {e : HResult} (user : User)
        → users.get_at index ≡ ok (some user)
        → user.is_local ≡ err e
        → IsFailingAt index e
    no_sid :
        {e : HResult} (user : User)
        → users.get_at index ≡ ok (some user)
        → user.is_local ≡ ok true
        → user.get_sid ≡ err e
        → IsFailingAt index e

  -- The call of an enumeration that fails.
  pub data IsFailing : HResult → Type 0 where
    no_count : {e : HResult} → users.get_count ≡ err e → IsFailing e
    at_index :
        {e : HResult} (count index : ℕ)
        → users.get_count ≡ ok count
        → index < count
        → IsFailingAt index e
        → IsFailing e
    no_options : {e : HResult} → users.empty_local ≡ err e → IsFailing e

  module _ (directory : Directory) (scenario : Scenario) where
    append_local-err :
        (index : ℕ) (is_local : Bool) (user : User) (seen : List Wide) (tiles : List Credential)
        (e : HResult)
        → users.get_at index ≡ ok (some user)
        → user.is_local ≡ ok is_local
        → append_local directory scenario is_local user seen tiles ≡ err e
        → IsFailingAt index e
    append_local-err index false user seen tiles e read told h = absurd (cc)
    append_local-err index true user seen tiles e read told h =
        elim (>>=-eq-err user.get_sid (λ sid. ok (append_sid directory scenario sid seen tiles))
          h) [ inl fails ↦ no_sid user read told fails | inr (sid, _, h₁) ↦ absurd (cc) ]

    append_user-err :
        (index : ℕ) (user : Option User) (seen : List Wide) (tiles : List Credential) (e : HResult)
        → users.get_at index ≡ ok user
        → append_user directory scenario user seen tiles ≡ err e
        → IsFailingAt index e
    append_user-err index none seen tiles e read h =
        subst (IsFailingAt index) (err-injective _ _ _ _ refl h) (null_user read)
    append_user-err index (some user) seen tiles e read h =
        elim (>>=-eq-err user.is_local
          (λ is_local. append_local directory scenario is_local user seen tiles) h) [
            | inl fails ↦ untold user read fails
            | inr (is_local, told, h₁) ↦
                append_local-err index is_local user seen tiles e read told h₁
          ]

    append_users-err :
        (count index : ℕ) (seen : List Wide) (tiles : List Credential) (e : HResult)
        → append_users directory scenario count index users seen tiles ≡ err e
        → (j : ℕ) × (j < index + count) × IsFailingAt j e
    unfolding append_users
    append_users-err zero index seen tiles e h = absurd (cc)
    append_users-err (suc count) index seen tiles e h = elim (>>=-eq-err (users.get_at index) _ h) [
      | inl fails ↦ (index, omega arith, unread fails)
      | inr (user, read, h₁) ↦
          elim (>>=-eq-err (append_user directory scenario user seen tiles) _ h₁) [
            | inl fails ↦ (index, omega arith, append_user-err index user seen tiles e read fails)
            | inr (next, _, h₂) ↦
                let (j, below, failing) = append_users-err count (suc index) next.0 next.1 e h₂ in
                (j, omega (arith, below), failing)
          ]
    ]

    pub enumerate-err : (e : HResult) → enumerate directory scenario users ≡ err e → IsFailing e
    enumerate-err e h = elim (>>=-eq-err users.get_count _ h) [
      | inl fails ↦ no_count fails
      | inr (count, counted, h₁) ↦
          elim (>>=-eq-err (append_users directory scenario count 0 users [] []) _ h₁) [
            | inl fails ↦
                let (index, below, failing) = append_users-err count 0 [] [] e fails in
                at_index count index counted (omega (arith, below)) failing
            | inr (found, _, h₂) ↦ elim (>>=-eq-err users.empty_local _ h₂) [
              | inl fails ↦ no_options fails
              | inr (empty, _, h₃) ↦ absurd (cc)
            ]
          ]
    ]
