-- ===== src/CredentialProvider/Kerb/Change.antt =====
-- What is read back from a packed change of password, and which texts a UNICODE_STRING takes.
use mathlib.Core.List.{append_assoc, append-nil}
use windows_fido_logon.Base.{
  ℕ, ◌+◌, ◌*◌, ◌≡◌, ◌≤◌, ◌<◌, refl, ap, sym, subst, ◌∙◌, true, some, ltb, if_elim, [], ◌++◌, Wide,
  length, length-append, arith,
}
use windows_fido_logon.CredentialProvider.HResult.{Hr, ok, err, from_win32, ok-injective}
use windows_fido_logon.CredentialProvider.Kerb.{
  UnicodeString, unicode_string_init, ChangePassword, PackedChange, copied, change_password_pack,
  unpacked_at,
}
use windows_fido_logon.CredentialProvider.Kerb.RoundTrip.{
  IsInit, text_at, wide_of, read_at, length-copied,
}

-- What the reader of a packed change finds at the offsets of its four strings, and its size.
pub record IsChangeReadBack (struct_size base : ℕ) (packed : PackedChange)
    (domain account old new : Wide) : Type 0 where
  pub domain_read :
      wide_of (text_at struct_size base packed.extra (unpacked_at base packed.domain)) ≡ domain
  pub account_read :
      wide_of (text_at struct_size base packed.extra (unpacked_at base packed.account)) ≡ account
  pub old_read :
      wide_of (text_at struct_size base packed.extra (unpacked_at base packed.old_password)) ≡ old
  pub new_read :
      wide_of (text_at struct_size base packed.extra (unpacked_at base packed.new_password)) ≡ new
  pub whole : packed.size ≡ struct_size + length packed.extra
  pub bounded : packed.size ≤ struct_size + 4 * 65535

pub change_password_pack-IsChangeReadBack :
    (struct_size base : ℕ) (r : ChangePassword) (domain account old new : Wide)
    (packed : PackedChange)
    → 0 < struct_size
    → IsInit r.domain domain
    → IsInit r.account account
    → IsInit r.old_password old
    → IsInit r.new_password new
    → change_password_pack struct_size true r ≡ ok packed
    → IsChangeReadBack struct_size base packed domain account old new
unfolding change_password_pack
change_password_pack-IsChangeReadBack struct_size base r domain account old new packed positive d a
      o n h =
    let ld = length-copied r.domain domain d in
    let la = length-copied r.account account a in
    let lo = length-copied r.old_password old o in
    let ln = length-copied r.new_password new n in
    let cd = copied r.domain in
    let ca = copied r.account in
    let co = copied r.old_password in
    let cn = copied r.new_password in
    subst (λ (q : PackedChange). IsChangeReadBack struct_size base q domain account old new)
      (ok-injective h)
      (record {
        domain_read =
            read_at struct_size base _ [] (ca ++ (co ++ cn)) r.domain domain _ positive d
              (omega arith) refl;
        account_read =
            read_at struct_size base _ cd (co ++ cn) r.account account _ positive a
              (omega (arith, ld)) refl;
        old_read =
            read_at struct_size base _ (cd ++ ca) cn r.old_password old _ positive o
              (omega (arith, ld, la, length-append cd ca)) (sym (append_assoc cd ca (co ++ cn)));
        new_read =
            read_at struct_size base _ (cd ++ (ca ++ co)) [] r.new_password new _ positive n
              (omega (arith, ld, la, lo, length-append cd (ca ++ co), length-append ca co))
              (sym (
                append_assoc cd (ca ++ co) (cn ++ [])
                ∙ ap (λ t. cd ++ t)
                    (append_assoc ca co (cn ++ []) ∙ ap (λ t. ca ++ (co ++ t)) (append-nil cn))));
        whole = omega (
          arith,
          ld,
          la,
          lo,
          ln,
          length-append cd (ca ++ (co ++ cn)),
          length-append ca (co ++ cn),
          length-append co cn,
        );
        bounded = omega (arith, d.1, a.1, o.1, n.1);
      })

-- What a UNICODE_STRING of a text is: one of twice as many bytes as the text has units, which fit its 16 bits, or
-- ERROR_ARITHMETIC_OVERFLOW.
pub data IsFitted (text : Wide) : Hr UnicodeString → Type 0 where
  fits :
      {u : UnicodeString}
      → length text ≤ 32767
      → u.buffer ≡ text
      → u.length ≡ length text * 2
      → u.maximum_length ≡ length text * 2
      → u.length ≤ 65535
      → IsFitted text (ok u)
  too_long : 32767 < length text → IsFitted text (err (from_win32 534))

-- UnicodeStringInitWithString takes exactly the texts of at most 32767 units: of each of them it makes a string on
-- the text itself, whose two lengths in bytes are twice the number of units and fit 16 bits, and it
-- fails with ERROR_ARITHMETIC_OVERFLOW (534) on each longer one.
pub unicode_string_init-IsFitted : (text : Wide) → IsFitted text (unicode_string_init (some text))
unfolding unicode_string_init
unicode_string_init-IsFitted text =
    if_elim (IsFitted text) (ltb 65535 (length text)) (λ long. too_long (ground arith))
      (λ _.
        if_elim (IsFitted text) (ltb 65535 (length text * 2)) (λ long. too_long (ground arith))
          (λ short. fits (ground arith) refl refl refl (ground arith)))
