-- ===== src/Base/Traverse.antt =====
-- A loop that maps every entry and gives up at the first entry that has no image.
use mathlib.Core.Path.{◌≡◌, refl}
use mathlib.Core.Option.{Option, none, some}
use mathlib.Core.List.{List, [], ◌∷◌, map}
use windows_fido_logon.Base.Lists.{All}

module _ {ℓ} {B : Type ℓ} where
  abbrev pub traverse_cons : Option B → Option (List B) → Option (List B)
  traverse_cons none rest = none
  traverse_cons (some b) none = none
  traverse_cons (some b) (some bs) = some (b ∷ bs)

  traverse_cons-eq-some :
      (o : Option B) (r : Option (List B)) (bs : List B)
      → traverse_cons o r ≡ some bs
      → (b : B) × (cs : List B) × (o ≡ some b) × (r ≡ some cs) × (b ∷ cs ≡ bs)
  traverse_cons-eq-some none r bs e = absurd (cc)
  traverse_cons-eq-some (some b) none bs e = absurd (cc)
  traverse_cons-eq-some (some b) (some cs) bs e = (b, cs, refl, refl, cc)

module _ {ℓ κ} {A : Type ℓ} {B : Type κ} where
  unfoldable pub traverse : (A → Option B) → List A → Option (List B)
  traverse f [] = some []
  traverse f (a ∷ as') = traverse_cons (f a) (traverse f as')

  module _ (f : A → Option B) where
    pub traverse-eq-some_cons :
        (a : A) (xs : List A) (bs : List B)
        → traverse f (a ∷ xs) ≡ some bs
        → (b : B) × (cs : List B) × (f a ≡ some b) × (traverse f xs ≡ some cs) × (b ∷ cs ≡ bs)
    unfolding traverse
    traverse-eq-some_cons a xs bs e = traverse_cons-eq-some (f a) (traverse f xs) bs e

    pub traverse_inverse {μ} :
        (Q : B → Type μ) (g : B → A)
        → ((a : A) (b : B) → f a ≡ some b → Q b × (g b ≡ a))
        → (xs : List A) (bs : List B) → traverse f xs ≡ some bs
        → All Q bs × (map g bs ≡ xs)
    unfolding traverse
    traverse_inverse Q g h [] [] e = (tt, refl)
    traverse_inverse Q g h [] (b ∷ bs) e = absurd (cc)
    traverse_inverse Q g h (a ∷ xs) [] e =
        let (b, cs, _, _, q) = traverse-eq-some_cons a xs [] e in absurd (cc)
    traverse_inverse Q g h (a ∷ xs) (b' ∷ bs) e =
        let (b, cs, fa, rest, q) = traverse-eq-some_cons a xs (b' ∷ bs) e in
        let fb : f a ≡ some b' = cc in
        let same : traverse f xs ≡ some bs = cc in
        let (p, r) = h a b' fb in let (ps, rs) = traverse_inverse Q g h xs bs same in ((p, ps), cc)

module _ {ℓ κ μ} {A : Type ℓ} {B : Type κ} {C : Type μ} where
  pub traverse-map {ν} :
      (P : C → Type ν) (f : A → Option B) (g : C → A) (k : C → B)
      → ((c : C) → P c → f (g c) ≡ some (k c))
      → (cs : List C) → All P cs
      → traverse f (map g cs) ≡ some (map k cs)
  unfolding traverse
  traverse-map P f g k h [] a = refl
  traverse-map P f g k h (c ∷ cs) (p, ps) = rw (h c p, traverse-map P f g k h cs ps) refl
