-- ===== src/CredentialProvider/Credential/Packed.antt =====
-- What a finished logon carries.
use windows_fido_logon.Base.{
  ℕ, ◌≡◌, ◌≢◌, ◌≤◌, ◌<◌, ◌*◌, refl, sym, ap, subst, ◌∙◌, Bool, true, false, Option, none, some,
  Wide, length, if◌then◌else◌, if_elim, arith,
}
use windows_fido_logon.CredentialProviderFilter.{
  Scenario, in_scope, logon, unlock_workstation, change_password, credui, plap,
}
use windows_fido_logon.CredentialProvider.HResult.{Hr, ok, err, s_ok, >>=-eq-ok, ok-injective}
use windows_fido_logon.CredentialProvider.Kerb.{
  UnicodeString, unicode_string_init, Logon, message_type_of, MessageType, logon_init, PackedLogon,
  logon_pack,
}
use windows_fido_logon.CredentialProvider.Kerb.RoundTrip.{IsReadBack, logon_unpack-logon_pack}
use windows_fido_logon.CredentialProvider.Password.{
  protect_if_necessary_and_copy_password, retrieve_negotiate_auth_package,
}
use windows_fido_logon.CredentialProvider.Credential.{Mode, Credential}
use windows_fido_logon.CredentialProvider.Credential.Serialization.{
  Packing, Serialization, logon_contents, pack_logon, Reply, reply, logged_on, serialize,
  get_serialization,
}

-- Everything that the packing of a logon asks for is granted, and the texts fit.
pub record IsPackable (p : Packing) (s : Credential) (protected : Wide) : Type 0 where
  pub protection :
      protect_if_necessary_and_copy_password p.api s.password s.scenario ≡ ok (some protected)
  pub short_domain : length s.domain ≤ 32767
  pub short_username : length s.username ≤ 32767
  pub short_password : length protected ≤ 32767
  pub in_scope_here : in_scope s.scenario ≡ true
  pub memory : p.allocated ≡ true
  pub lsa : (n : ℕ) × (retrieve_negotiate_auth_package p.api ≡ ok n)

unicode_string_init-ok :
    (text : Wide)
    → length text ≤ 32767
    → (u : UnicodeString) × (unicode_string_init (some text) ≡ ok u)
unfolding unicode_string_init
unicode_string_init-ok text short = (
  record { length = length text * 2; maximum_length = length text * 2; buffer = text },
  ground arith,
)

message_type_of-ok :
    (scenario : Scenario)
    → in_scope scenario ≡ true
    → (t : MessageType) × (message_type_of scenario ≡ ok t)
message_type_of-ok logon h = (_, refl)
message_type_of-ok unlock_workstation h = (_, refl)
message_type_of-ok change_password h = absurd (cc)
message_type_of-ok credui h = absurd (cc)
message_type_of-ok plap h = absurd (cc)

logon_init-ok :
    (domain username password : Wide) (scenario : Scenario)
    → length domain ≤ 32767
    → length username ≤ 32767
    → length password ≤ 32767
    → in_scope scenario ≡ true
    → (l : Logon) × (logon_init (some domain) (some username) (some password) scenario ≡ ok l)
unfolding logon_init
logon_init-ok domain username password scenario d u p scope =
    let (d', d_ok) = unicode_string_init-ok domain d in
    let (u', u_ok) = unicode_string_init-ok username u in
    let (p', p_ok) = unicode_string_init-ok password p in
    let (t, t_ok) = message_type_of-ok scenario scope in
    (
      record { message_type = t; domain = d'; username = u'; password = p' },
      rw (d_ok, u_ok, p_ok, t_ok) refl,
    )

logon_pack-ok : (size : ℕ) (l : Logon) → (q : PackedLogon) × (logon_pack size true l ≡ ok q)
unfolding logon_pack
logon_pack-ok size l = (_, refl)

-- The packing of a logon goes through.
pub pack_logon-ok :
    (p : Packing) (s : Credential) (protected : Wide)
    → IsPackable p s protected
    → (x : Serialization) × (pack_logon p s ≡ ok x)
unfolding pack_logon
pack_logon-ok p s protected i =
    let (l, l_ok) =
      logon_init-ok s.domain s.username protected s.scenario i.short_domain i.short_username
        i.short_password i.in_scope_here in
    let (n, n_ok) = i.lsa in
    let (q, q_ok) = logon_pack-ok p.logon_size l in
    (
      record { auth_package = n; contents = logon_contents q },
      rw (i.protection, l_ok, i.memory, q_ok, n_ok) refl,
    )

-- What a packed logon reads back as.
pub record IsLogonOf (p : Packing) (base : ℕ) (s : Credential) (x : Serialization) : Type 0 where
  pub protected : Wide
  pub protection :
      protect_if_necessary_and_copy_password p.api s.password s.scenario ≡ ok (some protected)
  pub packed : PackedLogon
  pub contents : x.contents ≡ logon_contents packed
  pub read_back : IsReadBack p.logon_size base packed s.domain s.username protected
  pub negotiate : retrieve_negotiate_auth_package p.api ≡ ok x.auth_package

-- A null pointer in place of the password is refused.
logon_init-some :
    (domain username : Wide) (o : Option Wide) (scenario : Scenario) (l : Logon)
    → logon_init (some domain) (some username) o scenario ≡ ok l
    → (password : Wide) × (o ≡ some password)
unfolding logon_init unicode_string_init
logon_init-some domain username (some password) scenario l h = (password, refl)
logon_init-some domain username none scenario l h =
    let (_, _, h₁) = >>=-eq-ok (unicode_string_init (some domain)) _ h in
    let (_, _, h₂) = >>=-eq-ok (unicode_string_init (some username)) _ h₁ in absurd (cc)

logon_pack-allocated :
    (size : ℕ) (b : Bool) (l : Logon) (q : PackedLogon)
    → logon_pack size b l ≡ ok q
    → logon_pack size true l ≡ ok q
unfolding logon_pack
logon_pack-allocated size true l q h = h
logon_pack-allocated size false l q h = absurd (cc)

pack_logon-IsLogonOf :
    (p : Packing) (base : ℕ) (s : Credential) (x : Serialization)
    → 0 < p.logon_size
    → pack_logon p s ≡ ok x
    → IsLogonOf p base s x
unfolding pack_logon
pack_logon-IsLogonOf p base s x positive packs =
    let (o, protection, h₁) =
      >>=-eq-ok (protect_if_necessary_and_copy_password p.api s.password s.scenario) _ packs in
    let (l, l_ok, h₂) =
      >>=-eq-ok (logon_init (some s.domain) (some s.username) o s.scenario) _ h₁ in
    let (q, q_ok, h₃) = >>=-eq-ok (logon_pack p.logon_size p.allocated l) _ h₂ in
    let (n, n_ok, h₄) = >>=-eq-ok (retrieve_negotiate_auth_package p.api) _ h₃ in
    let (w, is_w) = logon_init-some s.domain s.username o s.scenario l l_ok in
    let whole = ok-injective h₄ in
    record {
      protected = w;
      protection = protection ∙ ap ok is_w;
      packed = q;
      contents = ap (λ (y : Serialization). y.contents) (sym whole);
      read_back =
          logon_unpack-logon_pack p.logon_size base s.domain s.username w s.scenario l q positive
            (subst (λ e. logon_init (some s.domain) (some s.username) e s.scenario ≡ ok l) is_w
              l_ok)
            (logon_pack-allocated p.logon_size p.allocated l q q_ok);
      negotiate = n_ok ∙ ap (λ (y : Serialization). ok y.auth_package) whole;
    }

logged_on-ok :
    (packed : Hr Serialization) (s : Credential) (x : Serialization)
    → (logged_on packed s).1.serialization ≡ some x
    → packed ≡ ok x
logged_on-ok (ok y) s x h = ground arith
logged_on-ok (err e) s x h = absurd (cc)

if_some :
    (r : Credential × Reply) (s : Credential) (b : Bool) {x : Serialization}
    → (if b then r else (s, reply s_ok none)).1.serialization ≡ some x
    → r.1.serialization ≡ some x
if_some r s b {x} =
    if_elim (λ (q : Credential × Reply). q.1.serialization ≡ some x → r.1.serialization ≡ some x) b
      (λ _ h. h) (λ _ h. absurd (cc))

serialize-ok :
    (p : Packing) (mode : Mode) (s : Credential) (x : Serialization)
    → mode ≢ Mode.change_password
    → (serialize p mode s).1.serialization ≡ some x
    → pack_logon p s ≡ ok x
serialize-ok p Mode.change_password s x other h = absurd (other refl)
serialize-ok p Mode.username_password s x other h =
    logged_on-ok (pack_logon p s) s x (if_some (logged_on (pack_logon p s) s) s s.mfa_complete h)
serialize-ok p Mode.fido s x other h =
    logged_on-ok (pack_logon p s) s x (if_some (logged_on (pack_logon p s) s) s s.mfa_complete h)

-- A serialization that GetSerialization finishes outside of a change of password carries the tile's
-- account and password: at any address the packed structure is unpacked to the tile's domain, the
-- tile's name and the password as `ProtectIfNecessaryAndCopyPassword` returns it, and the package is LSA's
-- Negotiate package. The packed structure has a size of its own.
pub get_serialization-IsLogonOf :
    (p : Packing) (base : ℕ) (s : Credential) (x : Serialization)
    → 0 < p.logon_size
    → s.mode ≢ Mode.change_password
    → (get_serialization p s).1.serialization ≡ some x
    → IsLogonOf p base s x
unfolding get_serialization
get_serialization-IsLogonOf p base s x positive other h = pack_logon-IsLogonOf p base s x positive (
    serialize-ok p s.mode s x other (
      if_elim
        (λ (r : Credential × Reply).
          r.1.serialization ≡ some x → (serialize p s.mode s).1.serialization ≡ some x)
        s.retired (λ _ finished. absurd (cc)) (λ _ finished. finished) h))
