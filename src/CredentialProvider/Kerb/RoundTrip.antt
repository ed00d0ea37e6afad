-- ===== src/CredentialProvider/Kerb/RoundTrip.antt =====
-- What is read back from a packed logon.
use mathlib.Core.List.{append_assoc, append-nil}
use windows_fido_logon.Base.{
  ℕ, ◌+◌, ◌-◌, ◌*◌, ◌≡◌, ◌≤◌, ◌<◌, refl, ap, sym, subst, ◌∙◌, true, some, [], ◌∷◌, ◌++◌, Bytes,
  Wide, length, length-append, take, drop, take-append, take-length, arith,
}
use windows_fido_logon.CredentialProviderFilter.{Scenario}
use windows_fido_logon.CredentialProvider.HResult.{ok, >>=-eq-ok, ok-injective}
use windows_fido_logon.CredentialProvider.Kerb.{
  wide_bytes, UnicodeString, unicode_string_init, MessageType, Logon, message_type_of, logon_init,
  PackedLogon, copied, packed_at, logon_pack, UnpackedString, logon_unpack, unpacked_at, pointer_of,
}

length-wide_bytes : (text : Wide) → length (wide_bytes text) ≡ length text * 2
unfolding wide_bytes
length-wide_bytes [] = refl
length-wide_bytes (c ∷ text) = omega (arith, length-wide_bytes text)

-- A string that `UnicodeStringInitWithString` has set up over a text.
abbrev pub IsInit : UnicodeString → Wide → Type 0
IsInit u text = (u.length ≡ length text * 2) × (u.length ≤ 65535) × (u.buffer ≡ text)

pub unicode_string_init-IsInit :
    (text : Wide) (u : UnicodeString) → unicode_string_init (some text) ≡ ok u → IsInit u text
unfolding unicode_string_init
unicode_string_init-IsInit text u h = (ground arith, ground arith, ground arith)

copied-IsInit : (u : UnicodeString) (text : Wide) → IsInit u text → copied u ≡ wide_bytes text
copied-IsInit u text (size, _, same) =
    ap (λ t. take u.length (wide_bytes t)) same
    ∙ ap (λ n. take n (wide_bytes text)) (size ∙ sym (length-wide_bytes text))
    ∙ take-length (wide_bytes text)

-- What stands at a pointer into the block of the structure at `base`, with `extra` behind it.
unfoldable pub text_at : ℕ → ℕ → Bytes → UnpackedString → Bytes
text_at struct_size base extra s = take s.length (drop (s.pointer - base - struct_size) extra)

drop-append : (front back : Bytes) → drop (length front) (front ++ back) ≡ back
drop-append [] back = refl
drop-append (x ∷ front) back = drop-append front back

-- The units of little-endian bytes.
pub wide_of : Bytes → Wide
wide_of [] = []
wide_of (a ∷ []) = []
wide_of (a ∷ b ∷ bytes) = (a + b * 256) ∷ wide_of bytes

wide_of-wide_bytes : (text : Wide) → wide_of (wide_bytes text) ≡ text
unfolding wide_of wide_bytes
wide_of-wide_bytes [] = refl
wide_of-wide_bytes (c ∷ text) = ground (arith, wide_of-wide_bytes text)

-- A text that lies behind `front` in the extra bytes is found at the offset of its beginning.
found_at :
    (struct_size base : ℕ) (front back : Bytes) (u : UnicodeString) (text : Wide)
    → 0 < struct_size
    → IsInit u text
    → text_at struct_size base
        (front ++ (copied u ++ back))
        (unpacked_at base (packed_at (struct_size + length front) u))
      ≡ wide_bytes text
unfolding text_at
found_at struct_size base front back u text positive init =
    let place : pointer_of base (struct_size + length front) - base - struct_size ≡ length front =
      ground arith in
    rw
      (
        place,
        drop-append front (copied u ++ back),
        copied-IsInit u text init,
        init.0,
        sym (length-wide_bytes text),
      )
      (take-append (wide_bytes text) back)

pub length-copied : (u : UnicodeString) (text : Wide) → IsInit u text → length (copied u) ≡ u.length
length-copied u text init = rw (copied-IsInit u text init) (length-wide_bytes text ∙ sym init.0)

-- The strings of a logon are texts.
pub record IsLogon (l : Logon) (domain username password : Wide) (scenario : Scenario)
    : Type 0 where
  pub domain_init : IsInit l.domain domain
  pub username_init : IsInit l.username username
  pub password_init : IsInit l.password password
  pub typed : message_type_of scenario ≡ ok l.message_type

pub logon_init-IsLogon :
    (domain username password : Wide) (scenario : Scenario) (l : Logon)
    → logon_init (some domain) (some username) (some password) scenario ≡ ok l
    → IsLogon l domain username password scenario
unfolding logon_init
logon_init-IsLogon domain username password scenario l h =
    let (d, d_ok, h₁) = >>=-eq-ok (unicode_string_init (some domain)) _ h in
    let (u, u_ok, h₂) = >>=-eq-ok (unicode_string_init (some username)) _ h₁ in
    let (p, p_ok, h₃) = >>=-eq-ok (unicode_string_init (some password)) _ h₂ in
    let (t, t_ok, h₄) = >>=-eq-ok (message_type_of scenario) _ h₃ in
    let same = ok-injective h₄ in
    record {
      domain_init =
          subst (λ (l : Logon). IsInit l.domain domain) same
            (unicode_string_init-IsInit domain d d_ok);
      username_init =
          subst (λ (l : Logon). IsInit l.username username) same
            (unicode_string_init-IsInit username u u_ok);
      password_init =
          subst (λ (l : Logon). IsInit l.password password) same
            (unicode_string_init-IsInit password p p_ok);
      typed = t_ok ∙ ap (λ (l : Logon). ok l.message_type) same;
    }

-- What the reader of a packed logon finds: the three strings at the pointers of the unpacked
-- structure, and a buffer that ends with the last of them.
pub record IsReadBack (struct_size base : ℕ) (packed : PackedLogon)
    (domain username password : Wide) : Type 0 where
  pub domain_text : UnpackedString
  pub username_text : UnpackedString
  pub password_text : UnpackedString
  pub unpacked :
      logon_unpack struct_size base packed.size packed
      ≡ some (domain_text, username_text, password_text)
  pub domain_read : wide_of (text_at struct_size base packed.extra domain_text) ≡ domain
  pub username_read : wide_of (text_at struct_size base packed.extra username_text) ≡ username
  pub password_read : wide_of (text_at struct_size base packed.extra password_text) ≡ password
  pub whole : packed.size ≡ struct_size + length packed.extra
  pub bounded : packed.size ≤ struct_size + 3 * 65535

pub read_at :
    (struct_size base offset : ℕ) (front back : Bytes) (u : UnicodeString) (text : Wide)
    (extra : Bytes)
    → 0 < struct_size
    → IsInit u text
    → offset ≡ struct_size + length front
    → extra ≡ front ++ (copied u ++ back)
    → wide_of (text_at struct_size base extra (unpacked_at base (packed_at offset u))) ≡ text
read_at struct_size base offset front back u text extra positive init place e =
    rw (e, place, found_at struct_size base front back u text positive init)
      (wide_of-wide_bytes text)

all_within :
    (struct_size base : ℕ) (d u p : UnicodeString) (extra : Bytes) (t : MessageType)
    → let username_at = struct_size + d.length in
      let password_at = username_at + u.length in
      logon_unpack struct_size base (password_at + p.length) (record {
        message_type = t;
        domain = packed_at struct_size d;
        username = packed_at username_at u;
        password = packed_at password_at p;
        extra = extra;
        size = password_at + p.length;
      })
      ≡ some (
        unpacked_at base (packed_at struct_size d),
        unpacked_at base (packed_at username_at u),
        unpacked_at base (packed_at password_at p),
      )
unfolding logon_unpack
all_within struct_size base d u p extra t = ground arith

logon_pack-IsReadBack :
    (struct_size base : ℕ) (l : Logon) (domain username password : Wide) (scenario : Scenario)
    (packed : PackedLogon)
    → 0 < struct_size
    → IsLogon l domain username password scenario
    → logon_pack struct_size true l ≡ ok packed
    → IsReadBack struct_size base packed domain username password
unfolding logon_pack logon_unpack
logon_pack-IsReadBack struct_size base l domain username password scenario packed positive i h =
    let d = length-copied l.domain domain i.domain_init in
    let u = length-copied l.username username i.username_init in
    let p = length-copied l.password password i.password_init in
    let cd = copied l.domain in
    let cu = copied l.username in
    let cp = copied l.password in
    subst (λ (q : PackedLogon). IsReadBack struct_size base q domain username password)
      (ok-injective h)
      (record {
        domain_text = _;
        username_text = _;
        password_text = _;
        unpacked =
            all_within struct_size base l.domain l.username l.password (cd ++ (cu ++ cp))
              l.message_type;
        domain_read =
            read_at struct_size base _ [] (cu ++ cp) l.domain domain _ positive i.domain_init
              (omega arith) refl;
        username_read =
            read_at struct_size base _ cd cp l.username username _ positive i.username_init
              (omega (arith, d)) refl;
        password_read =
            read_at struct_size base _ (cd ++ cu) [] l.password password _ positive i.password_init
              (omega (arith, d, u, length-append cd cu))
              (sym (append_assoc cd cu (cp ++ []) ∙ ap (λ t. cd ++ (cu ++ t)) (append-nil cp)));
        whole = omega (arith, d, u, p, length-append cd (cu ++ cp), length-append cu cp);
        bounded = omega (arith, i.domain_init.1, i.username_init.1, i.password_init.1);
      })

-- A logon that `KerbInteractiveUnlockLogonInit` sets up from texts and `KerbInteractiveUnlockLogonPack`
-- packs is read back, whatever address it is unpacked at: the three offsets pass the checks of
-- `KerbInteractiveUnlockLogonUnpackInPlace`, the texts at the resulting pointers are the given ones, and
-- the size, of at most 196605 bytes beside the structure, is that of the buffer. The structure has a
-- size of its own.
pub logon_unpack-logon_pack :
    (struct_size base : ℕ) (domain username password : Wide) (scenario : Scenario) (l : Logon)
    (packed : PackedLogon)
    → 0 < struct_size
    → logon_init (some domain) (some username) (some password) scenario ≡ ok l
    → logon_pack struct_size true l ≡ ok packed
    → IsReadBack struct_size base packed domain username password
logon_unpack-logon_pack struct_size base domain username password scenario l packed positive init
      packs =
    logon_pack-IsReadBack struct_size base l domain username password scenario packed positive
      (logon_init-IsLogon domain username password scenario l init) packs
