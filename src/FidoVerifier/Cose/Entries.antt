-- ===== src/FidoVerifier/Cose/Entries.antt =====
-- What the loop over the COSE map collects: the values of each key, in the order of the map.
use mathlib.Core.List.{append_assoc, append-nil}
use windows_fido_logon.Base.{
  ℕ, ◌≤◌, ◌≡◌, refl, sym, ap, ◌∙◌, inl, inr, true, ◌&&◌, Option, none, some, List, [], ◌∷◌, ◌++◌,
  Bytes, arith, length, ◌==◌, if◌then◌else◌, Option-cases, leb, Bool-cases,
}
use windows_fido_logon.External.Cbor.{CborLibrary}
use windows_fido_logon.FidoVerifier.Cose.{
  int_of, negative_int_of, minus_one, minus_two, minus_three, cose_es256, Found, nothing_found,
  key_of, scan_value, scan_pair, scan, finish_scan, loaded, cose_es256_coordinates,
}

abbrev pub opt_list {ℓ} : {A : Type ℓ} → Option A → List A
opt_list none = []
opt_list (some a) = a ∷ []

module _ (cbor : CborLibrary) where
  open cbor use {
    Item, load, isa_map, pairs, isa_uint, isa_negint, get_int, isa_bytestring, bytestring,
  }

  abbrev pub uint_value : Item → List ℕ
  uint_value value = if isa_uint value then int_of (get_int value) ∷ [] else []

  abbrev pub negint_value : Item → List ℕ
  negint_value value = if isa_negint value then negative_int_of (get_int value) ∷ [] else []

  abbrev pub bytes_value : Item → List Bytes
  bytes_value value = if isa_bytestring value then opt_list (bytestring value) else []

  -- The values, read by `read`, of the entries with key `k`.
  abbrev pub at_key {ℓ} : {A : Type ℓ} → ℕ → (Item → List A) → Option ℕ → Item → List A
  at_key k read none value = []
  at_key k read (some j) value = if j == k then read value else []

  unfoldable pub values_at {ℓ} : {A : Type ℓ} → ℕ → (Item → List A) → List (Item × Item) → List A
  values_at k read [] = []
  values_at k read ((key, value) ∷ entries) =
      at_key k read (key_of cbor key) value ++ values_at k read entries

  module _ (k : ℕ) (value : Item) (s s' : Found) (h : scan_value cbor k value s ≡ some s') where
    key_type_step : opt_list s'.key_type ≡ opt_list s.key_type ++ at_key 1 uint_value (some k) value
    unfolding scan_value
    key_type_step = ground arith

    algorithm_step :
        opt_list s'.algorithm ≡ opt_list s.algorithm ++ at_key 3 negint_value (some k) value
    unfolding scan_value
    algorithm_step = ground arith

    curve_step : opt_list s'.curve ≡ opt_list s.curve ++ at_key minus_one uint_value (some k) value
    unfolding scan_value
    curve_step = ground arith

    x_step : opt_list s'.x ≡ opt_list s.x ++ at_key minus_two bytes_value (some k) value
    unfolding scan_value
    x_step = ground arith

    y_step : opt_list s'.y ≡ opt_list s.y ++ at_key minus_three bytes_value (some k) value
    unfolding scan_value
    y_step = ground arith

  -- One induction serves the five fields.
  module _ {ℓ} {A : Type ℓ} (field_of : Found → Option A) (key : ℕ) (read : Item → List A)
      (step : (k : ℕ) (value : Item) (s s' : Found)
        → scan_value cbor k value s ≡ some s'
        → opt_list (field_of s') ≡ opt_list (field_of s) ++ at_key key read (some k) value) where
    scan_pair_field :
        (k value : Item) (s s' : Found)
        → scan_pair cbor (k, value) s ≡ some s'
        → opt_list (field_of s') ≡ opt_list (field_of s) ++ at_key key read (key_of cbor k) value
    unfolding scan_pair
    scan_pair_field k value s s' h = elim (Option-cases (key_of cbor k)) [
      | inl e ↦ rw (e, append-nil) (let t = rw (e, scan_pair) at h in cc)
      | inr (j, e) ↦ rw e (step j value s s' (rw (e, scan_pair) at h))
    ]

    scan_field :
        (entries : List (Item × Item)) (s s' : Found)
        → scan cbor entries s ≡ some s'
        → opt_list (field_of s') ≡ opt_list (field_of s) ++ values_at key read entries
    unfolding scan values_at
    scan_field [] s s' h = rw append-nil (cc)
    scan_field ((k, value) ∷ entries) s s' h = elim (Option-cases (scan_pair cbor (k, value) s)) [
      | inl e ↦ absurd (let t = rw (e, scan) at h in cc)
      | inr (t, e) ↦
          scan_field entries t s' (rw (e, scan) at h)
          ∙ (ap (λ l. l ++ values_at key read entries) (scan_pair_field k value s t e)
              ∙ append_assoc (opt_list (field_of s)) (at_key key read (key_of cbor k) value)
                  (values_at key read entries))
    ]

  -- The map is an ES256 public key as the code reads it, with keys and integers cut to an `int`: each
  -- parameter stands in it exactly once, with the value that the algorithm wants.
  pub record IsEs256Key (cose coordinates : Bytes) : Type 0 where
    pub map : Item
    pub whole : load cose ≡ some (map, length cose)
    pub is_map : isa_map map ≡ true
    pub few : length (pairs map) ≤ 32
    pub key_types : values_at 1 uint_value (pairs map) ≡ 2 ∷ []
    pub algorithms : values_at 3 negint_value (pairs map) ≡ cose_es256 ∷ []
    pub curves : values_at minus_one uint_value (pairs map) ≡ 1 ∷ []
    pub x : Bytes
    pub y : Bytes
    pub xs : values_at minus_two bytes_value (pairs map) ≡ x ∷ []
    pub ys : values_at minus_three bytes_value (pairs map) ≡ y ∷ []
    pub x_size : length x ≡ 32
    pub y_size : length y ≡ 32
    pub joined : coordinates ≡ x ++ y

  loaded-eq-some :
      (cose : Bytes) (o : Option (Item × ℕ)) (entries : List (Item × Item))
      → loaded cbor cose o ≡ some entries
      → (map : Item) × (o ≡ some (map, length cose))
        × (isa_map map ≡ true)
        × (length (pairs map) ≤ 32)
        × (pairs map ≡ entries)
  loaded-eq-some cose none entries h = absurd (cc)
  loaded-eq-some cose (some (map, read)) entries h =
      elim (Bool-cases (isa_map map && read == length cose && leb (length (pairs map)) 32)) [
        | inl t ↦ (map, ground arith, ground arith, ground arith, let u = rw t at h in cc)
        | inr f ↦ absurd (let u = rw f at h in cc)
      ]

  finish_scan-eq-some :
      (ok oa oc : Option ℕ) (ox oy : Option Bytes) (c : Bytes)
      → finish_scan ok oa oc ox oy ≡ some c
      → (x : Bytes) × (y : Bytes) × (ok ≡ some 2)
        × (oa ≡ some cose_es256)
        × (oc ≡ some 1)
        × (ox ≡ some x)
        × (oy ≡ some y)
        × (length x ≡ 32)
        × (length y ≡ 32)
        × (c ≡ x ++ y)
  unfolding finish_scan
  finish_scan-eq-some (some k) (some a) (some v) (some x) (some y) c h = (
    x,
    y,
    ground arith,
    ground arith,
    ground arith,
    refl,
    refl,
    ground arith,
    ground arith,
    ground arith,
  )
  finish_scan-eq-some _ _ _ _ _ c h = absurd (cc)

  -- `CoseEs256Coordinates` accepts only maps that hold the key type, the algorithm, the curve and
  -- both coordinates exactly once with the values of ES256, all read as an `int`, in any order and
  -- among other entries, and it returns the two coordinates of 32 bytes one behind the other.
  pub cose_es256_coordinates-IsEs256Key :
      (cose coordinates : Bytes)
      → cose_es256_coordinates cbor cose ≡ some coordinates
      → IsEs256Key cose coordinates
  unfolding cose_es256_coordinates
  cose_es256_coordinates-IsEs256Key cose coordinates h =
      elim (Option-cases (loaded cbor cose (load cose))) [
        | inl e ↦ absurd (let u = rw (e, cose_es256_coordinates) at h in cc)
        | inr (entries, e) ↦
            let (map, whole, is_map, few, same) = loaded-eq-some cose (load cose) entries e in
            let h' = rw (e, cose_es256_coordinates) at h in
            elim (Option-cases (scan cbor entries nothing_found)) [
              | inl z ↦ absurd (let u = rw z at h' in cc)
              | inr (s, scanned) ↦
                  let (x, y, k, a, v, ex, ey, lx, ly, joined) =
                    finish_scan-eq-some s.key_type s.algorithm s.curve s.x s.y coordinates
                      (rw scanned at h') in
                  record {
                    map = map;
                    whole = whole;
                    is_map = is_map;
                    few = few;
                    key_types = rw same (
                        sym (
                          scan_field (λ f. f.key_type) 1 uint_value key_type_step entries
                            nothing_found s scanned)
                        ∙ ap opt_list k);
                    algorithms = rw same (
                        sym (
                          scan_field (λ f. f.algorithm) 3 negint_value algorithm_step entries
                            nothing_found s scanned)
                        ∙ ap opt_list a);
                    curves = rw same (
                        sym (
                          scan_field (λ f. f.curve) minus_one uint_value curve_step entries
                            nothing_found s scanned)
                        ∙ ap opt_list v);
                    x = x;
                    y = y;
                    xs = rw same (
                        sym (
                          scan_field (λ f. f.x) minus_two bytes_value x_step entries nothing_found s
                            scanned)
                        ∙ ap opt_list ex);
                    ys = rw same (
                        sym (
                          scan_field (λ f. f.y) minus_three bytes_value y_step entries nothing_found
                            s scanned)
                        ∙ ap opt_list ey);
                    x_size = lx;
                    y_size = ly;
                    joined = joined;
                  }
            ]
      ]
