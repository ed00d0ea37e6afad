-- ===== src/CredentialProvider/Kerb.antt =====
-- CredentialProvider/helpers.cpp: the packing of a logon and of a change of password for LSA.
pub mod RoundTrip
pub mod Change
use windows_fido_logon.Base.{
  ℕ, ◌+◌, ◌-◌, ◌*◌, ◌/◌, ◌%◌, ◌≡◌, Bool, true, false, not, ◌&&◌, Option, none, some, List, [], ◌∷◌,
  ◌++◌, Bytes, Wide, length, take, drop, ltb, leb, ◌==◌, if◌then◌else◌,
}
use windows_fido_logon.CredentialProviderFilter.{Scenario, logon, unlock_workstation, credui}
use windows_fido_logon.CredentialProvider.HResult.{
  HResult, Hr, ok, err, ◌>>=◌, e_fail, e_invalidarg, e_outofmemory, from_win32,
}

-- The bytes of UTF-16 units, little-endian.
unfoldable pub wide_bytes : Wide → Bytes
wide_bytes [] = []
wide_bytes (c ∷ cs) = (c % 256) ∷ (c / 256) ∷ wide_bytes cs

abbrev pub error_arithmetic_overflow : ℕ
error_arithmetic_overflow = 534

-- A UNICODE_STRING whose buffer points to a text.
pub record UnicodeString : Type 0 where
  pub length : ℕ
  pub maximum_length : ℕ
  pub buffer : Wide

-- `UnicodeStringInitWithString`; `none` is a null pointer. The length in bytes must fit a USHORT, in
-- units (SizeTToUShort) and in bytes (UShortMult).
unfoldable pub unicode_string_init : Option Wide → Hr UnicodeString
unicode_string_init none = err e_invalidarg
unicode_string_init (some text) =
    if ltb 65535 (length text)
    then err (from_win32 error_arithmetic_overflow)
    else if ltb 65535 (length text * 2)
    then err (from_win32 error_arithmetic_overflow)
    else ok (record { length = length text * 2; maximum_length = length text * 2; buffer = text })

pub data MessageType : Type 0 where
  interactive_logon workstation_unlock_logon not_applicable : MessageType

pub record Logon : Type 0 where
  pub message_type : MessageType
  pub domain : UnicodeString
  pub username : UnicodeString
  pub password : UnicodeString

-- The `switch` over the usage scenario.
abbrev pub message_type_of : Scenario → Hr MessageType
message_type_of unlock_workstation = ok workstation_unlock_logon
message_type_of logon = ok interactive_logon
message_type_of credui = ok not_applicable
message_type_of _ = err e_fail

-- `KerbInteractiveUnlockLogonInit`.
unfoldable pub logon_init : Option Wide → Option Wide → Option Wide → Scenario → Hr Logon
logon_init domain username password scenario = do
  packed_domain ← unicode_string_init domain
  packed_username ← unicode_string_init username
  packed_password ← unicode_string_init password
  message_type ← message_type_of scenario
  ok (record {
    message_type = message_type;
    domain = packed_domain;
    username = packed_username;
    password = packed_password;
  })

-- A UNICODE_STRING of the packed structure: its buffer is an offset from the structure's beginning.
pub record PackedString : Type 0 where
  pub length : ℕ
  pub maximum_length : ℕ
  pub offset : ℕ

-- The packed structure, the bytes behind it, and the size of the whole, a DWORD.
pub record PackedLogon : Type 0 where
  pub message_type : MessageType
  pub domain : PackedString
  pub username : PackedString
  pub password : PackedString
  pub extra : Bytes
  pub size : ℕ

-- CopyMemory copies `Length` bytes of the text.
abbrev pub copied : UnicodeString → Bytes
copied text = take text.length (wide_bytes text.buffer)

-- `_UnicodeStringPackedUnicodeStringCopy` and the offset that its callers then write.
abbrev pub packed_at : ℕ → UnicodeString → PackedString
packed_at offset text = record {
  length = text.length;
  maximum_length = text.length;
  offset = offset;
}

-- `KerbInteractiveUnlockLogonPack`, with the size of the structure; `none` where the allocation fails.
unfoldable pub logon_pack : ℕ → Bool → Logon → Hr PackedLogon
logon_pack struct_size allocated l =
    let username_at = struct_size + l.domain.length in
    let password_at = username_at + l.username.length in
    if allocated
    then ok (record {
      message_type = l.message_type;
      domain = packed_at struct_size l.domain;
      username = packed_at username_at l.username;
      password = packed_at password_at l.password;
      extra = copied l.domain ++ (copied l.username ++ copied l.password);
      size = password_at + l.password.length;
    })
    else err e_outofmemory

-- A pointer: 0 is null.
pub record UnpackedString : Type 0 where
  pub length : ℕ
  pub pointer : ℕ

abbrev pub within : ℕ → PackedString → Bool
within size text = leb (text.offset + text.maximum_length) size

-- `Buffer ? base + Buffer : nullptr`.
abbrev pub pointer_of : ℕ → ℕ → ℕ
pointer_of base offset = if offset == 0 then 0 else base + offset

abbrev pub unpacked_at : ℕ → PackedString → UnpackedString
unpacked_at base text = record { length = text.length; pointer = pointer_of base text.offset }

-- `KerbInteractiveUnlockLogonUnpackInPlace` on a structure at address `base` in a buffer of `size`
-- bytes: the pointers, and `none` where it leaves the structure as it is.
unfoldable pub logon_unpack :
    ℕ → ℕ → ℕ → PackedLogon → Option (UnpackedString × UnpackedString × UnpackedString)
logon_unpack struct_size base size l =
    if leb struct_size size
      && within size l.domain
      && within size l.username
      && within size l.password
    then some (unpacked_at base l.domain, unpacked_at base l.username, unpacked_at base l.password)
    else none

pub record ChangePassword : Type 0 where
  pub domain : UnicodeString
  pub account : UnicodeString
  pub old_password : UnicodeString
  pub new_password : UnicodeString

pub record PackedChange : Type 0 where
  pub domain : PackedString
  pub account : PackedString
  pub old_password : PackedString
  pub new_password : PackedString
  pub extra : Bytes
  pub size : ℕ

-- `KerbChangePasswordPack`.
unfoldable pub change_password_pack : ℕ → Bool → ChangePassword → Hr PackedChange
change_password_pack struct_size allocated r =
    let account_at = struct_size + r.domain.length in
    let old_at = account_at + r.account.length in
    let new_at = old_at + r.old_password.length in
    if allocated
    then ok (record {
      domain = packed_at struct_size r.domain;
      account = packed_at account_at r.account;
      old_password = packed_at old_at r.old_password;
      new_password = packed_at new_at r.new_password;
      extra =
          copied r.domain ++ (copied r.account ++ (copied r.old_password ++ copied r.new_password));
      size = new_at + r.new_password.length;
    })
    else err e_outofmemory
