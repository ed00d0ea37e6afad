-- ===== src/Tests/Encoding.antt =====
-- Runs of CppClient/CppClient/Convert.cpp.
use windows_fido_logon.Base.{◌≡◌, refl, true, false, [], ◌∷◌, IsBytes, codes, bytes_eq, traverse}
use windows_fido_logon.Convert.{
  base64url_decode, base64url_encode, base64_encode, base64_decode, from_url, from_url_char,
  decode_base64_strict, padding_ok, decode_loop, finish_decode, trailing_bits_clear,
  padding_from_back, base64_value, base64_char, to_url_char,
}
use windows_fido_logon.Convert.RoundTrip.{
  base64_decode-base64_encode, base64url_encode-base64url_decode, base64url_decode-base64url_encode,
}
use windows_fido_logon.Tests.Samples.{small}

base64_decode-base64_encode_example :
    base64_decode (base64_encode true (codes "logon")) ≡ codes "logon"
base64_decode-base64_encode_example =
    base64_decode-base64_encode true (codes "logon") (small (codes "logon") refl)

base64url_decode-base64url_encode_example :
    base64url_decode (base64url_encode false (251 ∷ 255 ∷ [])) ≡ 251 ∷ 255 ∷ []
base64url_decode-base64url_encode_example =
    base64url_decode-base64url_encode (251 ∷ 255 ∷ []) (small (251 ∷ 255 ∷ []) refl)

decoded : base64url_decode (codes "-_8") ≡ 251 ∷ 255 ∷ []
unfolding base64url_decode base64url_encode from_url traverse from_url_char decode_base64_strict
    padding_ok decode_loop finish_decode trailing_bits_clear padding_from_back base64_value
    base64_char base64_encode to_url_char bytes_eq
decoded = refl

-- A text with bits that no byte takes up is refused.
refused : base64url_decode (codes "-_9") ≡ []
unfolding base64url_decode base64url_encode from_url traverse from_url_char decode_base64_strict
    padding_ok decode_loop finish_decode trailing_bits_clear padding_from_back base64_value
    base64_char base64_encode to_url_char bytes_eq
refused = refl

base64url_encode-base64url_decode_example :
    IsBytes (base64url_decode (codes "-_8"))
    × (base64url_encode false (base64url_decode (codes "-_8")) ≡ codes "-_8")
base64url_encode-base64url_decode_example =
    base64url_encode-base64url_decode (codes "-_8") (λ e. absurd (let d = decoded in cc))
