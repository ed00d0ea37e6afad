-- ===== src/FidoVerifier/Cose/Integers.antt =====
-- The COSE map as CBOR has it, with its integers as they are: what CoseEs256Coordinates takes for a key.
use windows_fido_logon.Base.{
  ℕ, ◌-◌, ◌%◌, ◌^◌, ◌≤◌, ◌<◌, ◌≡◌, refl, sym, ap, ◌∙◌, Bool, true, false, not, ◌&&◌, ◌||◌, Option,
  none, some, List, [], ◌∷◌, ◌++◌, map, Bytes, arith, length, ltb, ◌==◌, if◌then◌else◌,
}
use windows_fido_logon.External.Cbor.{CborLibrary}
use windows_fido_logon.FidoVerifier.Cose.{
  int_of, negative_int_of, minus_one, minus_two, minus_three, cose_es256, key_of,
  cose_es256_coordinates,
}
use windows_fido_logon.FidoVerifier.Cose.Entries.{
  opt_list, uint_value, negint_value, bytes_value, at_key, values_at,
  cose_es256_coordinates-IsEs256Key,
}

-- Whether a key read as an `int`, if it is one, is `k`.
abbrev is_key : ℕ → Option ℕ → Bool
is_key k none = false
is_key k (some j) = j == k

abbrev key_as : (unsigned negative : Bool) → ℕ → Option ℕ
key_as unsigned negative n =
    if unsigned then some (int_of n) else if negative then some (negative_int_of n) else none

-- An integer that fits an `int`.
abbrev fits_int : (unsigned negative : Bool) → ℕ → Bool
fits_int unsigned negative n = not (unsigned || negative) || ltb n (2 ^ 31)

is_key-unsigned :
    (unsigned negative : Bool) (n k : ℕ)
    → fits_int unsigned negative n ≡ true
    → k < 2 ^ 31
    → is_key k (key_as unsigned negative n) ≡ (unsigned && n == k)
is_key-unsigned true negative n k small low =
    let same : n % 2 ^ 32 ≡ n = ground arith in rw same refl
is_key-unsigned false true n k small low = ground arith
is_key-unsigned false false n k small low = refl

is_key-negative :
    (unsigned negative : Bool) (n m : ℕ)
    → fits_int unsigned negative n ≡ true
    → (unsigned ≡ true → negative ≡ false)
    → m < 2 ^ 31
    → is_key (2 ^ 32 - 1 - m) (key_as unsigned negative n) ≡ (negative && n == m)
is_key-negative true true n m small one low = absurd (let e = one refl in cc)
is_key-negative true false n m small one low = ground arith
is_key-negative false true n m small one low = ground arith
is_key-negative false false n m small one low = refl

-- The only element of a list that has been mapped to a list of one element.
single_of {ℓ κ} :
    {A : Type ℓ} {B : Type κ} (f : B → A) (l : List B) {a : A}
    → map f l ≡ a ∷ []
    → (b : B) × (l ≡ b ∷ []) × (f b ≡ a)
single_of f [] h = absurd (cc)
single_of f (b ∷ []) h = (b, refl, cc)
single_of f (b ∷ c ∷ l) h = absurd (cc)

module _ (cbor : CborLibrary) where
  open cbor use {
    Item, load, isa_map, pairs, isa_uint, isa_negint, get_int, isa_bytestring, bytestring,
  }

  abbrev pub fits : Item → Bool
  fits item = fits_int (isa_uint item) (isa_negint item) (get_int item)

  abbrev pub AllFit : List (Item × Item) → Type 0
  AllFit [] = Unit
  AllFit ((key, value) ∷ entries) = (fits key ≡ true) × (fits value ≡ true) × AllFit entries

  -- No item is an integer of both kinds, and the integers of the map that is loaded are below 2 ^ 31, or, where they
  -- are negative, -1 minus such a number.
  pub record IsFitting (cose : Bytes) : Type 0 where
    pub one_kind : (item : Item) → isa_uint item ≡ true → isa_negint item ≡ false
    pub all_fit : (map : Item) → load cose ≡ some (map, length cose) → AllFit (pairs map)

  -- The integers k and -1 - k of CBOR.
  abbrev pub is_unsigned : ℕ → Item → Bool
  is_unsigned k item = isa_uint item && get_int item == k

  abbrev pub is_negative : ℕ → Item → Bool
  is_negative k item = isa_negint item && get_int item == k

  -- The value of an entry, where it is of the kind wanted: n, the n of -1 - n, and the bytes.
  abbrev pub unsigned_in : Item → List ℕ
  unsigned_in value = if isa_uint value then get_int value ∷ [] else []

  abbrev pub negative_in : Item → List ℕ
  negative_in value = if isa_negint value then get_int value ∷ [] else []

  abbrev pub text_in : Option Bytes → List Bytes
  text_in none = []
  text_in (some bytes) = bytes ∷ []

  abbrev pub bytes_in : Item → List Bytes
  bytes_in value = if isa_bytestring value then text_in (bytestring value) else []

  -- The values of the entries whose key passes a test, in the order of the map.
  pub values_of {ℓ} : {A : Type ℓ} → (Item → Bool) → (Item → List A) → List (Item × Item) → List A
  values_of test read [] = []
  values_of test read ((key, value) ∷ entries) =
      (if test key then read value else []) ++ values_of test read entries

  -- The map is an ES256 public key: under 1 stands one integer, 2; under 3 one negative integer, -7 (-1 - 6); under
  -- -1 one integer, 1; and under -2 and -3 one byte string each, of 32 bytes.
  pub record IsCoseKey (cose coordinates : Bytes) : Type 0 where
    pub map : Item
    pub whole : load cose ≡ some (map, length cose)
    pub is_map : isa_map map ≡ true
    pub few : length (pairs map) ≤ 32
    pub key_type : values_of (is_unsigned 1) unsigned_in (pairs map) ≡ 2 ∷ []
    pub algorithm : values_of (is_unsigned 3) negative_in (pairs map) ≡ 6 ∷ []
    pub curve : values_of (is_negative 0) unsigned_in (pairs map) ≡ 1 ∷ []
    pub x : Bytes
    pub y : Bytes
    pub has_x : values_of (is_negative 1) bytes_in (pairs map) ≡ x ∷ []
    pub has_y : values_of (is_negative 2) bytes_in (pairs map) ≡ y ∷ []
    pub x_size : length x ≡ 32
    pub y_size : length y ≡ 32
    pub joined : coordinates ≡ x ++ y

  at_key-if {ℓ} :
      {A : Type ℓ} (k : ℕ) (read : Item → List A) (o : Option ℕ) (value : Item)
      → at_key cbor k read o value ≡ (if is_key k o then read value else [])
  at_key-if k read none value = refl
  at_key-if k read (some j) value = refl

  map-append {ℓ κ} :
      {A : Type ℓ} {B : Type κ} (f : B → A) (l m : List B) → map f (l ++ m) ≡ map f l ++ map f m
  map-append f [] m = refl
  map-append f (b ∷ l) m = ap (λ t. f b ∷ t) (map-append f l m)

  map-if {ℓ κ} :
      {A : Type ℓ} {B : Type κ} (f : B → A) (b : Bool) (l : List B)
      → map f (if b then l else []) ≡ (if b then map f l else [])
  map-if f true l = refl
  map-if f false l = refl

  -- One induction serves the five parameters.
  module _ {ℓ κ} {A : Type ℓ} {B : Type κ} (f : B → A) (k : ℕ) (test : Item → Bool)
      (read : Item → List A) (read_in : Item → List B)
      (same_key : (key : Item) → fits key ≡ true → is_key k (key_of cbor key) ≡ test key)
      (same_value : (value : Item) → fits value ≡ true → read value ≡ map f (read_in value)) where
    values_at-values_of :
        (entries : List (Item × Item))
        → AllFit entries
        → values_at cbor k read entries ≡ map f (values_of test read_in entries)
    unfolding values_at values_of
    values_at-values_of [] all = refl
    values_at-values_of ((key, value) ∷ entries) (key_fits, value_fits, all) =
        ap (λ l. l ++ values_at cbor k read entries)
          (at_key-if k read (key_of cbor key) value
            ∙ ap (λ b. if b then read value else []) (same_key key key_fits)
            ∙ ap (λ l. if test key then l else []) (same_value value value_fits)
            ∙ sym (map-if f (test key) (read_in value)))
        ∙ ap (λ l. map f (if test key then read_in value else []) ++ l)
            (values_at-values_of entries all)
        ∙ sym
            (map-append f (if test key then read_in value else []) (values_of test read_in entries))

    one_value :
        (entries : List (Item × Item)) {a : A}
        → AllFit entries
        → values_at cbor k read entries ≡ a ∷ []
        → (b : B) × (values_of test read_in entries ≡ b ∷ []) × (f b ≡ a)
    one_value entries all h =
        single_of f (values_of test read_in entries) (sym (values_at-values_of entries all) ∙ h)

  unsigned_key :
      (k : ℕ) (key : Item)
      → k < 2 ^ 31
      → fits key ≡ true
      → is_key k (key_of cbor key) ≡ is_unsigned k key
  unfolding key_of
  unsigned_key k key low key_fits =
      is_key-unsigned (isa_uint key) (isa_negint key) (get_int key) k key_fits low

  negative_key :
      (m : ℕ) (key : Item)
      → m < 2 ^ 31
      → (isa_uint key ≡ true → isa_negint key ≡ false)
      → fits key ≡ true
      → is_key (2 ^ 32 - 1 - m) (key_of cbor key) ≡ is_negative m key
  unfolding key_of
  negative_key m key low one key_fits =
      is_key-negative (isa_uint key) (isa_negint key) (get_int key) m key_fits one low

  unsigned_value :
      (value : Item) → fits value ≡ true → uint_value cbor value ≡ map (λ n. n) (unsigned_in value)
  unsigned_value value value_fits = read_unsigned (isa_uint value) (isa_negint value) _ value_fits
    where
      read_unsigned :
          (unsigned negative : Bool) (n : ℕ)
          → fits_int unsigned negative n ≡ true
          → (if unsigned then int_of n ∷ [] else [])
            ≡ map (λ n. n) (if unsigned then n ∷ [] else [])
      read_unsigned true negative n small = let same : n % 2 ^ 32 ≡ n = ground arith in rw same refl
      read_unsigned false negative n small = refl

  negative_value :
      (value : Item)
      → fits value ≡ true
      → negint_value cbor value ≡ map (λ n. 2 ^ 32 - 1 - n) (negative_in value)
  negative_value value value_fits = read_negative (isa_uint value) (isa_negint value) _ value_fits
    where
      read_negative :
          (unsigned negative : Bool) (n : ℕ)
          → fits_int unsigned negative n ≡ true
          → (if negative then negative_int_of n ∷ [] else [])
            ≡ map (λ n. 2 ^ 32 - 1 - n) (if negative then n ∷ [] else [])
      read_negative unsigned true n small = let same : n % 2 ^ 32 ≡ n = ground arith in rw same refl
      read_negative unsigned false n small = refl

  bytes_in_value :
      (value : Item) → fits value ≡ true → bytes_value cbor value ≡ map (λ b. b) (bytes_in value)
  bytes_in_value value value_fits = read_bytes (isa_bytestring value) (bytestring value)
    where
      read_bytes :
          (b : Bool) (o : Option Bytes)
          → (if b then opt_list o else []) ≡ map (λ b. b) (if b then text_in o else [])
      read_bytes false o = refl
      read_bytes true none = refl
      read_bytes true (some bytes) = refl

  exactly {ℓ} : {A : Type ℓ} {l : List A} {a : A} → (b : A) × (l ≡ b ∷ []) × (b ≡ a) → l ≡ a ∷ []
  exactly {A = A} {l} (b, only, same) = only ∙ ap (λ c. c ∷ []) same

  six : (n : ℕ) → 2 ^ 32 - 1 - n ≡ cose_es256 → n ≡ 6
  six n h = omega (arith, h)

  -- `CoseEs256Coordinates` takes for a key only a map of at most 32 entries, which is all that is loaded, in which
  -- there stands exactly once each: the integer 2 under the key 1, the integer -7 under 3, the integer 1
  -- under -1, and a byte string of 32 bytes under -2 and under -3, in any order and among other
  -- entries; and it returns the byte strings of -2 and -3 one behind the other. The keys and values
  -- are those of CBOR, whose integers in this map are below 2 ^ 31, or -1 minus such a number; no item
  -- is an integer of both kinds.
  pub cose_es256_coordinates-IsCoseKey :
      (cose coordinates : Bytes)
      → IsFitting cose
      → cose_es256_coordinates cbor cose ≡ some coordinates
      → IsCoseKey cose coordinates
  cose_es256_coordinates-IsCoseKey cose coordinates fitting accepted =
      let i = cose_es256_coordinates-IsEs256Key cbor cose coordinates accepted in
      let all = fitting.all_fit i.map i.whole in
      let (n, only, is_n) =
        one_value (λ n. 2 ^ 32 - 1 - n) 3 (is_unsigned 3) (negint_value cbor) negative_in
          (λ key. unsigned_key 3 key (omega arith)) negative_value (pairs i.map) all i.algorithms in
      record {
        map = i.map;
        whole = i.whole;
        is_map = i.is_map;
        few = i.few;
        key_type = exactly (
            one_value (λ n. n) 1 (is_unsigned 1) (uint_value cbor) unsigned_in
              (λ key. unsigned_key 1 key (omega arith)) unsigned_value (pairs i.map) all
              i.key_types);
        algorithm = exactly (n, only, six n is_n);
        curve = exactly (
            one_value (λ n. n) minus_one (is_negative 0) (uint_value cbor) unsigned_in
              (λ key. negative_key 0 key (omega arith) (fitting.one_kind key)) unsigned_value
              (pairs i.map) all i.curves);
        x = i.x;
        y = i.y;
        has_x = exactly (
            one_value (λ b. b) minus_two (is_negative 1) (bytes_value cbor) bytes_in
              (λ key. negative_key 1 key (omega arith) (fitting.one_kind key)) bytes_in_value
              (pairs i.map) all i.xs);
        has_y = exactly (
            one_value (λ b. b) minus_three (is_negative 2) (bytes_value cbor) bytes_in
              (λ key. negative_key 2 key (omega arith) (fitting.one_kind key)) bytes_in_value
              (pairs i.map) all i.ys);
        x_size = i.x_size;
        y_size = i.y_size;
        joined = i.joined;
      }
