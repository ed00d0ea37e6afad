-- ===== src/Convert/Loop.antt =====
-- The decoding loop against `Sextets`: it collects the whole bytes among the bits.
use mathlib.Core.List.{append-nil, append_assoc}
use windows_fido_logon.Base.{
  ℕ, ◌+◌, ◌-◌, ◌*◌, ◌/◌, ◌%◌, ◌^◌, ◌<◌, ◌≡◌, refl, ◌∙◌, inl, inr, Option, none, some, List, [], ◌∷◌,
  ◌++◌, Bytes, arith, if◌then◌else◌, leb, Option-cases, traverse,
}
use windows_fido_logon.Convert.{base64_value, decode_loop}
use windows_fido_logon.Convert.Sextets.{unpack, IsSextets, last_of}

-- The sextets that the characters stand for.
unfoldable pub values : Bytes → Option (List ℕ)
values cs = traverse base64_value cs

-- The loop over sextets that are known to be in the alphabet.
value_loop : List ℕ → ℕ → ℕ → Bytes → Bytes
value_loop [] accumulator bits decoded = decoded
value_loop (value ∷ vs) accumulator bits decoded =
    let accumulator' = accumulator * 64 % 2 ^ 32 + value in
    let bits' = bits + 6 in
    value_loop vs accumulator' (if leb 8 bits' then bits' - 8 else bits')
      (if leb 8 bits' then decoded ++ (accumulator' / 2 ^ (bits' - 8) % 256) ∷ [] else decoded)

-- What the loop returns for the sextets, from a state of the loop.
loop_result : ℕ → ℕ → ℕ → Bytes → Option (List ℕ) → Option (Bytes × ℕ)
loop_result accumulator bits last_value decoded none = none
loop_result accumulator bits last_value decoded (some vs) =
    some (value_loop vs accumulator bits decoded, last_of last_value vs)

decode_loop-values :
    (cs : Bytes) (accumulator bits last_value : ℕ) (decoded : Bytes)
    → decode_loop cs accumulator bits last_value decoded
      ≡ loop_result accumulator bits last_value decoded (values cs)
unfolding decode_loop values traverse loop_result value_loop
decode_loop-values [] a b l d = refl
decode_loop-values (c ∷ cs) a b l d = elim (Option-cases (base64_value c)) [
  | inl e ↦ rw (e, decode_loop) refl
  | inr (v, e) ↦
      rw (e, decode_loop)
        (elim (Option-cases (traverse base64_value cs)) [
          | inl n ↦ rw n (decode_loop-values cs _ _ v _ ∙ (rw n refl))
          | inr (vs, n) ↦ rw n (decode_loop-values cs _ _ v _ ∙ (rw n refl))
        ])
]

-- The three bytes of a group, whatever the accumulator held before it.
abbrev shift_in : ℕ → ℕ → ℕ
shift_in accumulator value = accumulator * 64 % 2 ^ 32 + value

first_byte : (a p q : ℕ) → p < 64 → q < 64 → shift_in (shift_in a p) q / 16 % 256 ≡ p * 4 + q / 16
first_byte a p q hp hq = omega arith

second_byte :
    (a q r : ℕ) → q < 64 → r < 64 → shift_in (shift_in a q) r / 4 % 256 ≡ q % 16 * 16 + r / 4
second_byte a q r hq hr = omega arith

third_byte : (a r s : ℕ) → r < 64 → s < 64 → shift_in (shift_in a r) s / 1 % 256 ≡ r % 4 * 64 + s
third_byte a r s hr hs = omega arith

value_loop-unpack :
    (vs : List ℕ) (accumulator : ℕ) (decoded : Bytes)
    → IsSextets vs
    → value_loop vs accumulator 0 decoded ≡ decoded ++ unpack vs
unfolding value_loop unpack
value_loop-unpack [] a d h = rw append-nil refl
value_loop-unpack (p ∷ []) a d h = rw append-nil refl
value_loop-unpack (p ∷ q ∷ []) a d h = rw (first_byte a p q h.0 h.1.0) refl
value_loop-unpack (p ∷ q ∷ r ∷ []) a d (hp, (hq, (hr, _))) =
    rw (first_byte a p q hp hq, second_byte _ q r hq hr, append_assoc) refl
value_loop-unpack (p ∷ q ∷ r ∷ s ∷ rest) a d (hp, (hq, (hr, (hs, h)))) =
    rw (first_byte a p q hp hq, second_byte _ q r hq hr, third_byte _ r s hr hs)
      (value_loop-unpack rest _ _ h ∙ simp append_assoc)

-- Decoding a run of characters from the start of the loop.
pub decode_loop_lem :
    (cs : Bytes) {vs : List ℕ}
    → values cs ≡ some vs
    → IsSextets vs
    → decode_loop cs 0 0 0 [] ≡ some (unpack vs, last_of 0 vs)
unfolding loop_result
decode_loop_lem cs {vs} e h =
    decode_loop-values cs 0 0 0 [] ∙ rw (e, value_loop-unpack vs 0 [] h) refl

pub decode_loop-none : (cs : Bytes) → values cs ≡ none → decode_loop cs 0 0 0 [] ≡ none
unfolding loop_result
decode_loop-none cs e = decode_loop-values cs 0 0 0 [] ∙ rw e refl
