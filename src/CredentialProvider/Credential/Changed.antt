-- ===== src/CredentialProvider/Credential/Changed.antt =====
-- What a finished change of password carries.
use windows_fido_logon.Base.{
  ℕ, ◌≡◌, ◌<◌, sym, ap, subst, ◌∙◌, Bool, true, false, some, eq_of_bytes_eq, is_empty, if_elim,
  arith,
}
use windows_fido_logon.CredentialProvider.HResult.{
  Hr, ok, err, e_invalidarg, >>=-eq-ok, ok-injective, require-eq-ok,
}
use windows_fido_logon.CredentialProvider.Kerb.{
  unicode_string_init, ChangePassword, PackedChange, change_password_pack,
}
use windows_fido_logon.CredentialProvider.Kerb.RoundTrip.{IsInit, unicode_string_init-IsInit}
use windows_fido_logon.CredentialProvider.Kerb.Change.{
  IsChangeReadBack, change_password_pack-IsChangeReadBack,
}
use windows_fido_logon.CredentialProvider.Password.{retrieve_negotiate_auth_package}
use windows_fido_logon.CredentialProvider.Credential.{Mode, Credential}
use windows_fido_logon.CredentialProvider.Credential.Serialization.{
  Packing, Serialization, Reply, change_contents, may_change, change_request, packed_change,
  pack_password_change, changed, serialize, get_serialization,
}

-- The change that a serialization carries.
pub record IsChangeOf (p : Packing) (base : ℕ) (s : Credential) (x : Serialization) : Type 0 where
  pub authorized : s.password_change_authorized ≡ true
  pub not_empty : is_empty s.new_password1 ≡ false
  pub confirmed : s.new_password1 ≡ s.new_password2
  pub packed : PackedChange
  pub contents : x.contents ≡ change_contents packed
  pub read_back :
      IsChangeReadBack p.change_size base packed s.domain s.username s.password s.new_password1
  pub negotiate : retrieve_negotiate_auth_package p.api ≡ ok x.auth_package

change_password_pack-allocated :
    (size : ℕ) (b : Bool) (r : ChangePassword) (q : PackedChange)
    → change_password_pack size b r ≡ ok q
    → change_password_pack size true r ≡ ok q
unfolding change_password_pack
change_password_pack-allocated size false r q h = absurd (cc)
change_password_pack-allocated size true r q h = h

record IsRequest (s : Credential) (r : ChangePassword) : Type 0 where
  domain : IsInit r.domain s.domain
  account : IsInit r.account s.username
  old : IsInit r.old_password s.password
  new : IsInit r.new_password s.new_password1

change_request-IsRequest :
    (s : Credential) (r : ChangePassword) → change_request s ≡ ok r → IsRequest s r
change_request-IsRequest s r h =
    let (d, d_ok, h₁) = >>=-eq-ok (unicode_string_init (some s.domain)) _ h in
    let (a, a_ok, h₂) = >>=-eq-ok (unicode_string_init (some s.username)) _ h₁ in
    let (o, o_ok, h₃) = >>=-eq-ok (unicode_string_init (some s.password)) _ h₂ in
    let (n, n_ok, h₄) = >>=-eq-ok (unicode_string_init (some s.new_password1)) _ h₃ in
    subst (IsRequest s) (ok-injective h₄) (record {
      domain = unicode_string_init-IsInit s.domain d d_ok;
      account = unicode_string_init-IsInit s.username a a_ok;
      old = unicode_string_init-IsInit s.password o o_ok;
      new = unicode_string_init-IsInit s.new_password1 n n_ok;
    })

pack_password_change-IsChangeOf :
    (p : Packing) (base : ℕ) (s : Credential) (x : Serialization)
    → 0 < p.change_size
    → pack_password_change p s ≡ ok x
    → IsChangeOf p base s x
unfolding pack_password_change packed_change
pack_password_change-IsChangeOf p base s x positive packs =
    let (allowed, h) = require-eq-ok (may_change s) e_invalidarg (packed_change p s) packs in
    let (r, r_ok, h₁) = >>=-eq-ok (change_request s) _ h in
    let (q, q_ok, h₂) = >>=-eq-ok (change_password_pack p.change_size p.allocated r) _ h₁ in
    let (n, n_ok, h₃) = >>=-eq-ok (retrieve_negotiate_auth_package p.api) _ h₂ in
    let request = change_request-IsRequest s r r_ok in
    let whole = ok-injective h₃ in
    record {
      authorized = ground arith;
      not_empty = ground arith;
      confirmed = eq_of_bytes_eq s.new_password1 s.new_password2 (ground arith);
      packed = q;
      contents = ap (λ (y : Serialization). y.contents) (sym whole);
      read_back =
          change_password_pack-IsChangeReadBack p.change_size base r s.domain s.username s.password
            s.new_password1 q positive request.domain request.account request.old request.new
            (change_password_pack-allocated p.change_size p.allocated r q q_ok);
      negotiate = n_ok ∙ ap (λ (y : Serialization). ok y.auth_package) whole;
    }

changed-ok :
    (packed : Hr Serialization) (s : Credential) (x : Serialization)
    → (changed packed s).1.serialization ≡ some x
    → packed ≡ ok x
changed-ok (ok y) s x h = ground arith
changed-ok (err e) s x h = absurd (cc)

serialize-changed :
    (p : Packing) (mode : Mode) (s : Credential) (x : Serialization)
    → mode ≡ Mode.change_password
    → (serialize p mode s).1.serialization ≡ some x
    → pack_password_change p s ≡ ok x
serialize-changed p Mode.change_password s x here h = changed-ok (pack_password_change p s) s x h
serialize-changed p Mode.username_password s x here h = absurd (cc)
serialize-changed p Mode.fido s x here h = absurd (cc)

-- A serialization that GetSerialization finishes in a change of password was authorised, for a new password that is
-- not empty and was given twice alike, and the packed structure reads back, at its offsets, as the
-- tile's domain and name and the old and the new password, for LSA's Negotiate package; its size is
-- that of the buffer and at most 262140 bytes beside the structure, which has a size of its own.
pub get_serialization-IsChangeOf :
    (p : Packing) (base : ℕ) (s : Credential) (x : Serialization)
    → 0 < p.change_size
    → s.mode ≡ Mode.change_password
    → (get_serialization p s).1.serialization ≡ some x
    → IsChangeOf p base s x
unfolding get_serialization
get_serialization-IsChangeOf p base s x positive here h =
    pack_password_change-IsChangeOf p base s x positive (
      serialize-changed p s.mode s x here (
        if_elim
          (λ (r : Credential × Reply).
            r.1.serialization ≡ some x → (serialize p s.mode s).1.serialization ≡ some x)
          s.retired (λ _ finished. absurd (cc)) (λ _ finished. finished) h))
