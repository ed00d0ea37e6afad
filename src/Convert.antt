-- ===== src/Convert.antt =====
-- CppClient/CppClient/Convert.cpp: base64 and base64url.
pub mod Sextets
pub mod Loop
pub mod Alphabet
pub mod Strict
pub mod RoundTrip
use windows_fido_logon.Base.{
  ℕ, ◌+◌, ◌-◌, ◌*◌, ◌/◌, ◌%◌, ◌^◌, Bool, false, not, ◌&&◌, ◌||◌, Option, none, some, [], ◌∷◌, ◌++◌,
  map, Bytes, codes, length, is_empty, get_or, take, leb, ◌==◌, traverse, if◌then◌else◌,
}
use mathlib.Core.List.{reverse}

abbrev pub base64_alphabet : Bytes
base64_alphabet = codes "ABCDEFGHIJKLMNOPQRSTUVWXYZabcdefghijklmnopqrstuvwxyz0123456789+/"

-- `none` is the source's -1.
unfoldable pub base64_value : ℕ → Option ℕ
base64_value value =
    if leb b'A' value && leb value b'Z'
    then some (value - b'A')
    else if leb b'a' value && leb value b'z'
    then some (value - b'a' + 26)
    else if leb b'0' value && leb value b'9'
    then some (value - b'0' + 52)
    else if value == b'+'
    then some 62
    else if value == b'/'
    then some 63
    else none

-- The loop that counts the '=' at the end; it reads the input from the back.
unfoldable pub padding_from_back : Bytes → ℕ
padding_from_back [] = 0
padding_from_back (c ∷ cs) = if c == b'=' then padding_from_back cs + 1 else 0

-- The decoding loop: `accumulator` is a uint32_t, and the shifted accumulator ends in six zero bits,
-- so `|` adds. `none` is a character outside the alphabet; the result carries `lastValue`.
unfoldable pub decode_loop : Bytes → ℕ → ℕ → ℕ → Bytes → Option (Bytes × ℕ)
decode_loop [] accumulator bits last_value decoded = some (decoded, last_value)
decode_loop (c ∷ cs) accumulator bits last_value decoded = elim (base64_value c) [
  | none ↦ none
  | some value ↦
      let accumulator' = accumulator * 64 % 2 ^ 32 + value in
      let bits' = bits + 6 in
      decode_loop cs accumulator' (if leb 8 bits' then bits' - 8 else bits') value
        (if leb 8 bits' then decoded ++ (accumulator' / 2 ^ (bits' - 8) % 256) ∷ [] else decoded)
]

-- The check on the unused trailing bits.
unfoldable pub trailing_bits_clear : ℕ → ℕ → Bool
trailing_bits_clear encoded_length last_value = not (
    encoded_length % 4 == 2 && not (last_value % 16 == 0)
    || encoded_length % 4 == 3 && not (last_value % 4 == 0))

unfoldable pub finish_decode : ℕ → Option (Bytes × ℕ) → Bytes
finish_decode encoded_length none = []
finish_decode encoded_length (some (decoded, last_value)) =
    if trailing_bits_clear encoded_length last_value then decoded else []

-- The checks on the padding.
unfoldable pub padding_ok : ℕ → ℕ → Bool
padding_ok size padding =
    let encoded_length = size - padding in
    leb padding 2
    && not (encoded_length % 4 == 1)
    && (padding == 0 || size % 4 == 0 && (4 - encoded_length % 4) % 4 == padding)

unfoldable pub decode_base64_strict : Bytes → Bytes
unfolding finish_decode
decode_base64_strict input =
    if is_empty input
    then []
    else let size = length input in
      let padding = padding_from_back (reverse input) in
      if padding_ok size padding
      then finish_decode (size - padding) (decode_loop (take (size - padding) input) 0 0 0 [])
      else []

pub base64_decode : Bytes → Bytes
base64_decode value = decode_base64_strict value

-- `none` is a character outside the base64url alphabet.
unfoldable pub from_url_char : ℕ → Option ℕ
from_url_char character =
    if leb b'A' character && leb character b'Z'
      || leb b'a' character && leb character b'z'
      || leb b'0' character && leb character b'9'
    then some character
    else if character == b'-'
    then some b'+'
    else if character == b'_'
    then some b'/'
    else none

unfoldable pub from_url : Bytes → Option Bytes
from_url value = traverse from_url_char value

unfoldable pub base64url_decode : Bytes → Bytes
base64url_decode value =
    if is_empty value || length value % 4 == 1
    then []
    else elim (from_url value) [ none ↦ [] | some base64 ↦ decode_base64_strict base64 ]

-- `kBase64Alphabet[sextet]`.
unfoldable pub base64_char : ℕ → ℕ
base64_char sextet = get_or base64_alphabet sextet 0

-- The block of three bytes, and its sextets; disjoint bits, so `|` adds.
abbrev pub block_of : ℕ → ℕ → ℕ → ℕ
block_of first second third = first * 2 ^ 16 + second * 2 ^ 8 + third

unfoldable pub base64_encode : Bool → Bytes → Bytes
base64_encode padded [] = []
base64_encode padded (a ∷ []) =
    let block = block_of a 0 0 in
    base64_char (block / 2 ^ 18 % 64)
    ∷ base64_char (block / 2 ^ 12 % 64)
    ∷ (if padded then b'=' ∷ b'=' ∷ [] else [])
base64_encode padded (a ∷ b ∷ []) =
    let block = block_of a b 0 in
    base64_char (block / 2 ^ 18 % 64)
    ∷ base64_char (block / 2 ^ 12 % 64)
    ∷ base64_char (block / 2 ^ 6 % 64)
    ∷ (if padded then b'=' ∷ [] else [])
base64_encode padded (a ∷ b ∷ c ∷ rest) =
    let block = block_of a b c in
    base64_char (block / 2 ^ 18 % 64)
    ∷ base64_char (block / 2 ^ 12 % 64)
    ∷ base64_char (block / 2 ^ 6 % 64)
    ∷ base64_char (block % 64)
    ∷ base64_encode padded rest

-- The two calls of `std::replace`.
unfoldable pub to_url_char : ℕ → ℕ
to_url_char c = let d = if c == b'+' then b'-' else c in if d == b'/' then b'_' else d

unfoldable pub base64url_encode : Bool → Bytes → Bytes
base64url_encode padded data_bytes = map to_url_char (base64_encode padded data_bytes)
