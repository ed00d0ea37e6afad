-- ===== src/Convert/Strict.antt =====
-- `DecodeBase64Strict` on characters of the alphabet, with its padding.
use mathlib.Core.List.{reverse, reverse_aux, reverse-append, append-nil}
use windows_fido_logon.Base.{
  ℕ, zero, suc, ◌+◌, ◌-◌, ◌%◌, ◌<◌, ◌≤◌, ◌≡◌, ◌≢◌, refl, sym, ap, ◌∙◌, inl, inr, Bool, true, false,
  not, ◌&&◌, some, List, [], ◌∷◌, ◌++◌, map, Bytes, All, arith, ◌==◌, if◌then◌else◌, Bool-cases,
  length, length-append, is_empty, ◌⊎◌, take, length-map, all_below, all_below_sound,
}
use windows_fido_logon.Convert.{
  base64_char, decode_base64_strict, padding_from_back, padding_ok, trailing_bits_clear,
}
use windows_fido_logon.Convert.Sextets.{IsSextets, IsCanonical, unpack, last_of}
use windows_fido_logon.Convert.Loop.{values, decode_loop_lem}
use windows_fido_logon.Convert.Alphabet.{values-map}

-- The tests on the number of sextets and on the last one, `v` standing for no sextet.
pub ends_well : ℕ → List ℕ → Bool
ends_well v vs = not (length vs % 4 == 1) && trailing_bits_clear (length vs) (last_of v vs)

ends_well-cons :
    (v p q r s : ℕ) (rest : List ℕ) → ends_well v (p ∷ q ∷ r ∷ s ∷ rest) ≡ ends_well s rest
unfolding ends_well trailing_bits_clear
ends_well-cons v p q r s rest =
    let e : suc (suc (suc (suc (length rest)))) % 4 ≡ length rest % 4 = omega arith in rw e refl

-- They accept exactly the canonical runs of sextets.
pub ends_well-IsCanonical : (v : ℕ) (vs : List ℕ) → ends_well v vs ≡ true → IsCanonical vs
unfolding ends_well trailing_bits_clear
ends_well-IsCanonical v [] h = tt
ends_well-IsCanonical v (p ∷ []) h = ground arith
ends_well-IsCanonical v (p ∷ q ∷ []) h = ground arith
ends_well-IsCanonical v (p ∷ q ∷ r ∷ []) h = ground arith
ends_well-IsCanonical v (p ∷ q ∷ r ∷ s ∷ rest) h =
    ends_well-IsCanonical s rest (sym (ends_well-cons v p q r s rest) ∙ h)

pub IsCanonical-ends_well : (v : ℕ) (vs : List ℕ) → IsCanonical vs → ends_well v vs ≡ true
unfolding ends_well trailing_bits_clear
IsCanonical-ends_well v [] h = refl
IsCanonical-ends_well v (p ∷ []) h = absurd h
IsCanonical-ends_well v (p ∷ q ∷ []) h = ground arith
IsCanonical-ends_well v (p ∷ q ∷ r ∷ []) h = ground arith
IsCanonical-ends_well v (p ∷ q ∷ r ∷ s ∷ rest) h =
    ends_well-cons v p q r s rest ∙ IsCanonical-ends_well s rest h

-- No character of the alphabet is '='.
no_padding_table : all_below 64 (λ v. not (base64_char v == b'=')) ≡ true
unfolding all_below base64_char
no_padding_table = refl

base64_char-ne : (v : ℕ) → v < 64 → (base64_char v == b'=') ≡ false
base64_char-ne v h =
    let t = all_below_sound (λ v. not (base64_char v == b'=')) 64 v h no_padding_table in
    ground arith

abbrev pub equals_signs : ℕ → Bytes
equals_signs zero = []
equals_signs (suc n) = b'=' ∷ equals_signs n

abbrev HasNoPadding : Bytes → Type 0
HasNoPadding cs = All (λ c. (c == b'=') ≡ false) cs

chars-HasNoPadding : (vs : List ℕ) → IsSextets vs → HasNoPadding (map base64_char vs)
chars-HasNoPadding [] h = tt
chars-HasNoPadding (v ∷ vs) (p, h) = (base64_char-ne v p, chars-HasNoPadding vs h)

reverse_aux-HasNoPadding :
    (xs ys : Bytes) → HasNoPadding xs → HasNoPadding ys → HasNoPadding (reverse_aux xs ys)
reverse_aux-HasNoPadding [] ys h k = k
reverse_aux-HasNoPadding (x ∷ xs) ys (p, h) k = reverse_aux-HasNoPadding xs (x ∷ ys) h (p, k)

padding_from_back-append :
    (k : ℕ) (cs : Bytes) → HasNoPadding cs → padding_from_back (equals_signs k ++ cs) ≡ k
unfolding padding_from_back
padding_from_back-append zero [] h = refl
padding_from_back-append zero (c ∷ cs) (p, h) = rw p refl
padding_from_back-append (suc k) cs h = omega (arith, padding_from_back-append k cs h)

reverse-equals_signs : (k : ℕ) → k ≤ 2 → reverse (equals_signs k) ≡ equals_signs k
reverse-equals_signs zero h = refl
reverse-equals_signs (suc zero) h = refl
reverse-equals_signs (suc (suc zero)) h = refl
reverse-equals_signs (suc (suc (suc k))) h = absurd (omega arith)

padding_count :
    (vs : List ℕ) (k : ℕ)
    → IsSextets vs
    → k ≤ 2
    → padding_from_back (reverse (map base64_char vs ++ equals_signs k)) ≡ k
padding_count vs k h le =
    rw (reverse-append (map base64_char vs) (equals_signs k), reverse-equals_signs k le)
      (padding_from_back-append k (reverse (map base64_char vs))
        (reverse_aux-HasNoPadding (map base64_char vs) [] (chars-HasNoPadding vs h) tt))

length-equals_signs : (k : ℕ) → length (equals_signs k) ≡ k
length-equals_signs zero = refl
length-equals_signs (suc k) = omega (arith, length-equals_signs k)

-- The decoder in terms of what its loops find: `n` characters and `k` signs of padding.
strict_of_parts :
    (input cs : Bytes) (vs : List ℕ) (n k : ℕ)
    → is_empty input ≡ false
    → length input ≡ n + k
    → padding_from_back (reverse input) ≡ k
    → take n input ≡ cs
    → values cs ≡ some vs
    → IsSextets vs
    → decode_base64_strict input
      ≡ (if padding_ok (n + k) k && trailing_bits_clear n (last_of 0 vs) then unpack vs else [])
unfolding decode_base64_strict
strict_of_parts input cs vs n k nonempty size padding chars decoded sextets =
    rw (nonempty, size, padding)
      (let same : n + k - k ≡ n = omega arith in
        rw (same, chars, decode_loop_lem cs decoded sextets) (ground arith))

-- The padding that fills up the last group.
abbrev pub full_padding : ℕ → ℕ
full_padding n = (4 - n % 4) % 4

accepts_padding :
    (n k : ℕ) (rest : Bool)
    → (k ≡ 0) ⊎ (k ≡ full_padding n)
    → (not (n % 4 == 1) && rest) ≡ true
    → (padding_ok (n + k) k && rest) ≡ true
unfolding padding_ok
accepts_padding n k rest pad h = let same : n + k - k ≡ n = omega arith in rw same (ground arith)

padding_le : (n k : ℕ) → (k ≡ 0) ⊎ (k ≡ full_padding n) → (n % 4 == 1) ≡ false → k ≤ 2
padding_le n k pad h = ground arith

length-chars : (vs : List ℕ) (k : ℕ) → length (map base64_char vs ++ equals_signs k) ≡ length vs + k
length-chars vs k = omega (
  arith,
  length-append (map base64_char vs) (equals_signs k),
  length-map base64_char vs,
  length-equals_signs k,
)

take-chars :
    (vs : List ℕ) (rest : Bytes)
    → take (length vs) (map base64_char vs ++ rest) ≡ map base64_char vs
take-chars [] rest = refl
take-chars (v ∷ vs) rest = ap (◌∷◌ (base64_char v)) (take-chars vs rest)

-- Canonical sextets, with no padding or all of it, decode to the whole bytes among their bits.
pub decode_base64_strict-chars :
    (vs : List ℕ) (k : ℕ)
    → IsSextets vs
    → IsCanonical vs
    → (k ≡ 0) ⊎ (k ≡ full_padding (length vs))
    → decode_base64_strict (map base64_char vs ++ equals_signs k) ≡ unpack vs
unfolding ends_well decode_base64_strict unpack
decode_base64_strict-chars [] k h c pad = let e : k ≡ 0 = ground arith in rw e refl
decode_base64_strict-chars (v ∷ vs) k h c pad =
    let ok = IsCanonical-ends_well 0 (v ∷ vs) c in
    strict_of_parts (map base64_char (v ∷ vs) ++ equals_signs k) (map base64_char (v ∷ vs)) (v ∷ vs)
      (length (v ∷ vs)) k refl (length-chars (v ∷ vs) k)
      (padding_count (v ∷ vs) k h (padding_le (length (v ∷ vs)) k pad (ground arith)))
      (take-chars (v ∷ vs) (equals_signs k)) (values-map (v ∷ vs) h) h
    ∙ rw (accepts_padding (length (v ∷ vs)) k _ pad ok) refl

ends_well_of_padding_ok :
    (n : ℕ) (rest : Bool)
    → (padding_ok (n + 0) 0 && rest) ≡ true
    → (not (n % 4 == 1) && rest) ≡ true
unfolding padding_ok
ends_well_of_padding_ok n rest h = ground arith

-- What is decoded from characters of the alphabet with no padding was written canonically.
pub IsCanonical-of_decode :
    (vs : List ℕ)
    → IsSextets vs
    → decode_base64_strict (map base64_char vs) ≢ []
    → IsCanonical vs × (decode_base64_strict (map base64_char vs) ≡ unpack vs)
unfolding ends_well decode_base64_strict
IsCanonical-of_decode [] h ne = absurd (ne refl)
IsCanonical-of_decode (v ∷ vs) h ne =
    let n = length (v ∷ vs) in
    let size : length (map base64_char (v ∷ vs)) ≡ n + 0 =
      omega (arith, length-map base64_char (v ∷ vs)) in
    let chars = rw append-nil at (take-chars (v ∷ vs) []) in
    let padding = rw append-nil at (padding_count (v ∷ vs) 0 h (omega arith)) in
    let e =
      strict_of_parts (map base64_char (v ∷ vs)) (map base64_char (v ∷ vs)) (v ∷ vs) n 0 refl size
        padding chars (values-map (v ∷ vs) h) h in
    elim (Bool-cases (padding_ok (n + 0) 0 && trailing_bits_clear n (last_of 0 (v ∷ vs)))) [
      | inl ok ↦ (ends_well-IsCanonical 0 (v ∷ vs) (ends_well_of_padding_ok n _ ok), e ∙ rw ok refl)
      | inr bad ↦ absurd (ne (e ∙ rw bad refl))
    ]
