-- ===== src/Convert/Sextets.antt =====
-- Base64 as a regrouping of bits: bytes in groups of three, sextets in groups of four.
use windows_fido_logon.Base.{
  ℕ, ◌+◌, ◌*◌, ◌/◌, ◌%◌, ◌<◌, ◌≡◌, refl, List, [], ◌∷◌, Bytes, IsBytes, All, arith,
}

-- The sextets that hold the bits of the bytes, the last one filled up with zero bits.
unfoldable pub pack : Bytes → List ℕ
pack [] = []
pack (a ∷ []) = (a / 4) ∷ (a % 4 * 16) ∷ []
pack (a ∷ b ∷ []) = (a / 4) ∷ (a % 4 * 16 + b / 16) ∷ (b % 16 * 4) ∷ []
pack (a ∷ b ∷ c ∷ rest) =
    (a / 4) ∷ (a % 4 * 16 + b / 16) ∷ (b % 16 * 4 + c / 64) ∷ (c % 64) ∷ pack rest

-- The whole bytes among the bits of the sextets.
unfoldable pub unpack : List ℕ → Bytes
unpack [] = []
unpack (p ∷ []) = []
unpack (p ∷ q ∷ []) = (p * 4 + q / 16) ∷ []
unpack (p ∷ q ∷ r ∷ []) = (p * 4 + q / 16) ∷ (q % 16 * 16 + r / 4) ∷ []
unpack (p ∷ q ∷ r ∷ s ∷ rest) =
    (p * 4 + q / 16) ∷ (q % 16 * 16 + r / 4) ∷ (r % 4 * 64 + s) ∷ unpack rest

abbrev pub IsSextets : List ℕ → Type 0
IsSextets vs = All (λ v. v < 64) vs

-- A number of sextets that bytes can fill, with zero bits behind the last byte.
abbrev pub IsCanonical : List ℕ → Type 0
IsCanonical [] = Unit
IsCanonical (p ∷ []) = ⊥
IsCanonical (p ∷ q ∷ []) = q % 16 ≡ 0
IsCanonical (p ∷ q ∷ r ∷ []) = r % 4 ≡ 0
IsCanonical (p ∷ q ∷ r ∷ s ∷ rest) = IsCanonical rest

pub pack-IsSextets : (xs : Bytes) → IsBytes xs → IsSextets (pack xs)
unfolding pack
pack-IsSextets [] h = tt
pack-IsSextets (a ∷ []) h = omega arith
pack-IsSextets (a ∷ b ∷ []) h = omega arith
pack-IsSextets (a ∷ b ∷ c ∷ rest) (ha, (hb, (hc, h))) =
    (omega arith, (omega arith, (omega arith, (omega arith, pack-IsSextets rest h))))

pub unpack-pack : (xs : Bytes) → IsBytes xs → unpack (pack xs) ≡ xs
unfolding pack unpack
unpack-pack [] h = refl
unpack-pack (a ∷ []) h = ground arith
unpack-pack (a ∷ b ∷ []) h = ground arith
unpack-pack (a ∷ b ∷ c ∷ rest) (ha, (hb, (hc, h))) = ground (arith, unpack-pack rest h)

pub pack-unpack : (vs : List ℕ) → IsSextets vs → IsCanonical vs → pack (unpack vs) ≡ vs
unfolding pack unpack
pack-unpack [] h c = refl
pack-unpack (p ∷ []) h c = absurd c
pack-unpack (p ∷ q ∷ []) h c = ground arith
pack-unpack (p ∷ q ∷ r ∷ []) h c = ground arith
pack-unpack (p ∷ q ∷ r ∷ s ∷ rest) (hp, (hq, (hr, (hs, h)))) c =
    ground (arith, pack-unpack rest h c)

pub pack-IsCanonical : (xs : Bytes) → IsCanonical (pack xs)
unfolding pack
pack-IsCanonical [] = tt
pack-IsCanonical (a ∷ []) = omega arith
pack-IsCanonical (a ∷ b ∷ []) = omega arith
pack-IsCanonical (a ∷ b ∷ c ∷ rest) = pack-IsCanonical rest

-- How the decoder sees that sextets are canonical: by their number and by the last one.
abbrev pub last_of : ℕ → List ℕ → ℕ
last_of v [] = v
last_of v (w ∷ ws) = last_of w ws

pub unpack-IsBytes : (vs : List ℕ) → IsSextets vs → IsBytes (unpack vs)
unfolding unpack
unpack-IsBytes [] h = tt
unpack-IsBytes (p ∷ []) h = tt
unpack-IsBytes (p ∷ q ∷ []) h = omega arith
unpack-IsBytes (p ∷ q ∷ r ∷ []) h = omega arith
unpack-IsBytes (p ∷ q ∷ r ∷ s ∷ rest) (hp, (hq, (hr, (hs, h)))) =
    (omega arith, (omega arith, (omega arith, unpack-IsBytes rest h)))
