-- ===== src/Convert/RoundTrip.antt =====
-- Encoding and decoding of base64 and base64url are inverse to one another.
use mathlib.Core.List.{append-nil}
use windows_fido_logon.Base.{
  ℕ, suc, ◌⊎◌, length-map, ◌+◌, ◌*◌, ◌/◌, ◌%◌, ◌^◌, ◌<◌, ◌≡◌, ◌≢◌, refl, sym, ap, ◌∙◌, inl, inr,
  Bool, true, false, ◌||◌, some, List, [], ◌∷◌, ◌++◌, map, Bytes, IsBytes, arith, ◌==◌,
  if◌then◌else◌, Option-cases, Bool-cases, length, is_empty,
}
use windows_fido_logon.Convert.{
  base64_char, base64_encode, base64_decode, base64url_encode, base64url_decode, to_url_char,
  from_url, decode_base64_strict, block_of,
}
use windows_fido_logon.Convert.Sextets.{
  IsSextets, IsCanonical, pack, unpack, pack-IsSextets, pack-IsCanonical, unpack-pack, pack-unpack,
  unpack-IsBytes,
}
use windows_fido_logon.Convert.Alphabet.{
  values_inverse, values-from_url, from_url-map, map-from_url,
}
use windows_fido_logon.Convert.Strict.{
  equals_signs, full_padding, decode_base64_strict-chars, IsCanonical-of_decode,
}

block_sextets :
    (a b c : ℕ)
    → a < 256
    → b < 256
    → c < 256
    → (block_of a b c / 2 ^ 18 % 64 ≡ a / 4)
      × (block_of a b c / 2 ^ 12 % 64 ≡ a % 4 * 16 + b / 16)
      × (block_of a b c / 2 ^ 6 % 64 ≡ b % 16 * 4 + c / 64)
      × (block_of a b c % 64 ≡ c % 64)
block_sextets a b c ha hb hc = omega arith

padding_of : Bool → ℕ → ℕ
padding_of padded n = if padded then full_padding n else 0

padding_period :
    (padded : Bool) (n : ℕ) → padding_of padded (suc (suc (suc (suc n)))) ≡ padding_of padded n
unfolding padding_of
padding_period true n = omega arith
padding_period false n = refl

base64_encode_lem :
    (padded : Bool) (xs : Bytes)
    → IsBytes xs
    → base64_encode padded xs
      ≡ map base64_char (pack xs) ++ equals_signs (padding_of padded (length (pack xs)))
unfolding base64_encode pack padding_of
base64_encode_lem true [] h = refl
base64_encode_lem false [] h = refl
base64_encode_lem true (a ∷ []) (ha, _) =
    let (e, f, _, _) = block_sextets a 0 0 ha (omega arith) (omega arith) in ground arith
base64_encode_lem false (a ∷ []) (ha, _) =
    let (e, f, _, _) = block_sextets a 0 0 ha (omega arith) (omega arith) in ground arith
base64_encode_lem true (a ∷ b ∷ []) (ha, (hb, _)) =
    let (e, f, g, _) = block_sextets a b 0 ha hb (omega arith) in ground arith
base64_encode_lem false (a ∷ b ∷ []) (ha, (hb, _)) =
    let (e, f, g, _) = block_sextets a b 0 ha hb (omega arith) in ground arith
base64_encode_lem padded (a ∷ b ∷ c ∷ rest) (ha, (hb, (hc, h))) =
    let (e, f, g, k) = block_sextets a b c ha hb hc in
    rw (e, f, g, k, base64_encode_lem padded rest h, padding_period padded (length (pack rest)))
      refl

padding_choice :
    (padded : Bool) (n : ℕ) → (padding_of padded n ≡ 0) ⊎ (padding_of padded n ≡ full_padding n)
unfolding padding_of
padding_choice true n = inr refl
padding_choice false n = inl refl

-- Decoding what `Base64Encode` wrote gives the bytes back, with padding and without.
pub base64_decode-base64_encode :
    (padded : Bool) (xs : Bytes) → IsBytes xs → base64_decode (base64_encode padded xs) ≡ xs
unfolding base64_decode
base64_decode-base64_encode padded xs h = rw (base64_encode_lem padded xs h) (
    decode_base64_strict-chars (pack xs) _ (pack-IsSextets xs h) (pack-IsCanonical xs)
      (padding_choice padded (length (pack xs)))
    ∙ unpack-pack xs h)

base64_encode_unpadded :
    (xs : Bytes) → IsBytes xs → base64_encode false xs ≡ map base64_char (pack xs)
unfolding padding_of
base64_encode_unpadded xs h = base64_encode_lem false xs h ∙ append-nil (map base64_char (pack xs))

-- The length test of `Base64URLDecode` never rejects canonical sextets.
canonical_length : (vs : List ℕ) → IsCanonical vs → (length vs % 4 == 1) ≡ false
canonical_length [] c = refl
canonical_length (p ∷ []) c = absurd c
canonical_length (p ∷ q ∷ []) c = refl
canonical_length (p ∷ q ∷ r ∷ []) c = refl
canonical_length (p ∷ q ∷ r ∷ s ∷ rest) c =
    let same : suc (suc (suc (suc (length rest)))) % 4 ≡ length rest % 4 = omega arith in
    rw same (canonical_length rest c)

url_chars :
    (vs : List ℕ) → map to_url_char (map base64_char vs) ≡ map (λ v. to_url_char (base64_char v)) vs
url_chars [] = refl
url_chars (v ∷ vs) = ap (◌∷◌ (to_url_char (base64_char v))) (url_chars vs)

base64url_decode-chars :
    (vs : List ℕ)
    → IsSextets vs
    → IsCanonical vs
    → base64url_decode (map (λ v. to_url_char (base64_char v)) vs) ≡ unpack vs
unfolding base64url_decode unpack
base64url_decode-chars [] h c = refl
base64url_decode-chars (v ∷ vs) h c =
    let size = length-map (λ v. to_url_char (base64_char v)) (v ∷ vs) in
    rw (size, canonical_length (v ∷ vs) c, from_url-map (v ∷ vs) h)
      (rw append-nil at (decode_base64_strict-chars (v ∷ vs) 0 h c (inl refl)))

-- Decoding what `Base64URLEncode` wrote gives the bytes back.
pub base64url_decode-base64url_encode :
    (xs : Bytes) → IsBytes xs → base64url_decode (base64url_encode false xs) ≡ xs
unfolding base64url_encode
base64url_decode-base64url_encode xs h =
    rw (base64_encode_unpadded xs h, url_chars (pack xs))
      (base64url_decode-chars (pack xs) (pack-IsSextets xs h) (pack-IsCanonical xs)
        ∙ unpack-pack xs h)

-- What `Base64URLDecode` computes once the characters are known to be in the alphabet.
base64url_decode_of_from_url :
    (s ds : Bytes)
    → from_url s ≡ some ds
    → base64url_decode s ≢ []
    → base64url_decode s ≡ decode_base64_strict ds
unfolding base64url_decode
base64url_decode_of_from_url s ds e ne = elim (Bool-cases (is_empty s || length s % 4 == 1)) [
  | inl bad ↦ absurd (ne (rw bad refl))
  | inr ok ↦ rw (ok, e) refl
]

from_url_of_decode : (s : Bytes) → base64url_decode s ≢ [] → (ds : Bytes) × (from_url s ≡ some ds)
unfolding base64url_decode
from_url_of_decode s ne = elim (Option-cases (from_url s)) [
  | inl n ↦ absurd (
      ne (elim (Bool-cases (is_empty s || length s % 4 == 1)) [
        | inl bad ↦ rw bad refl
        | inr ok ↦ rw (ok, n) refl
      ]))
  | inr found ↦ found
]

-- Decoding is strict: whenever `Base64URLDecode` returns bytes, encoding these gives the input back,
-- so no two texts stand for the same bytes.
pub base64url_encode-base64url_decode :
    (s : Bytes)
    → base64url_decode s ≢ []
    → IsBytes (base64url_decode s) × (base64url_encode false (base64url_decode s) ≡ s)
unfolding base64url_encode
base64url_encode-base64url_decode s ne =
    let (ds, e) = from_url_of_decode s ne in
    let (vs, vals) = values-from_url s ds e in
    let (sextets, chars) = values_inverse ds vs vals in
    let same = base64url_decode_of_from_url s ds e ne in
    let ne' : decode_base64_strict (map base64_char vs) ≢ [] =
      λ z. ne (same ∙ (ap decode_base64_strict (sym chars) ∙ z)) in
    let (canonical, bytes) = IsCanonical-of_decode vs sextets ne' in
    let value : base64url_decode s ≡ unpack vs =
      same ∙ (ap decode_base64_strict (sym chars) ∙ bytes) in
    let small = unpack-IsBytes vs sextets in
    rw value (
      small,
      rw (base64_encode_unpadded (unpack vs) small, pack-unpack vs sextets canonical, chars)
          (map-from_url s ds e),
    )
