-- ===== src/Convert/Alphabet.antt =====
-- The base64 alphabet, its inverse, and the two characters that base64url replaces.
use mathlib.Core.List.{map-id}
use windows_fido_logon.Base.{
  ℕ, ◌<◌, ◌≡◌, refl, ap, Bool, true, false, ◌&&◌, Option, none, some, List, [], ◌∷◌, map, Bytes,
  arith, ltb, ◌==◌, all_below, all_below_sound, traverse, traverse-map, traverse_inverse,
  Option-cases, traverse-eq-some_cons, ◌∙◌, inl, inr, ◌≢◌,
}
use windows_fido_logon.Convert.{base64_value, base64_char, from_url_char, from_url, to_url_char}
use windows_fido_logon.Convert.Sextets.{IsSextets}
use windows_fido_logon.Convert.Loop.{values}

is_value : ℕ → Option ℕ → Bool
is_value v none = false
is_value v (some w) = w == v

eq-some_of_is_value : (v : ℕ) (o : Option ℕ) → is_value v o ≡ true → o ≡ some v
unfolding is_value
eq-some_of_is_value v none h = ground arith
eq-some_of_is_value v (some w) h = ground arith

char_table : all_below 64 (λ v. is_value v (base64_value (base64_char v))) ≡ true
unfolding all_below is_value base64_value base64_char
char_table = refl

pub base64_value-base64_char : (v : ℕ) → v < 64 → base64_value (base64_char v) ≡ some v
base64_value-base64_char v h = eq-some_of_is_value v _ (all_below_sound _ 64 v h char_table)

-- Whether a character's value, if it has one, is a sextet that stands for the character.
is_inverse : ℕ → Option ℕ → Bool
is_inverse c none = true
is_inverse c (some v) = ltb v 64 && base64_char v == c

value_table : all_below 256 (λ c. is_inverse c (base64_value c)) ≡ true
unfolding all_below is_inverse base64_value base64_char
value_table = refl

base64_value_lt : (c v : ℕ) → base64_value c ≡ some v → c < 256
unfolding base64_value
base64_value_lt c v e = ground arith

pub base64_value_inverse : (c v : ℕ) → base64_value c ≡ some v → (v < 64) × (base64_char v ≡ c)
unfolding is_inverse
base64_value_inverse c v e =
    let t =
      all_below_sound (λ c. is_inverse c (base64_value c)) 256 c (base64_value_lt c v e)
        value_table in
    let t' : is_inverse c (some v) ≡ true = rw e at t in (ground arith, ground arith)

url_table :
    all_below 64 (λ v. is_value (base64_char v) (from_url_char (to_url_char (base64_char v))))
    ≡ true
unfolding all_below is_value base64_char to_url_char from_url_char
url_table = refl

pub from_url_char-to_url_char :
    (v : ℕ) → v < 64 → from_url_char (to_url_char (base64_char v)) ≡ some (base64_char v)
from_url_char-to_url_char v h = eq-some_of_is_value _ _ (all_below_sound _ 64 v h url_table)

pub to_url_char-from_url_char : (c d : ℕ) → from_url_char c ≡ some d → to_url_char d ≡ c
unfolding from_url_char to_url_char
to_url_char-from_url_char c d e = ground arith

-- The same for runs of characters.
pub values-map : (vs : List ℕ) → IsSextets vs → values (map base64_char vs) ≡ some vs
unfolding values
values-map vs h =
    traverse-map (λ v. v < 64) base64_value base64_char (λ v. v) base64_value-base64_char vs h
    ∙ ap some (map-id vs)

pub values_inverse :
    (cs : Bytes) (vs : List ℕ) → values cs ≡ some vs → IsSextets vs × (map base64_char vs ≡ cs)
unfolding values
values_inverse cs vs e =
    traverse_inverse base64_value (λ v. v < 64) base64_char base64_value_inverse cs vs e

pub from_url-map :
    (vs : List ℕ)
    → IsSextets vs
    → from_url (map (λ v. to_url_char (base64_char v)) vs) ≡ some (map base64_char vs)
unfolding from_url
from_url-map vs h =
    traverse-map (λ v. v < 64) from_url_char _ base64_char from_url_char-to_url_char vs h

pub map-from_url : (cs ds : Bytes) → from_url cs ≡ some ds → map to_url_char ds ≡ cs
unfolding from_url
map-from_url cs ds e =
    (traverse_inverse from_url_char (λ d. Unit {0}) to_url_char
      (λ c d h. (tt, to_url_char-from_url_char c d h)) cs ds e).1

-- Every character that base64url lets through has a value.
from_url_char-ne-none : (c d : ℕ) → from_url_char c ≡ some d → base64_value d ≢ none
unfolding from_url_char base64_value
from_url_char-ne-none c d e = ground arith

pub values-from_url :
    (cs ds : Bytes) → from_url cs ≡ some ds → (vs : List ℕ) × (values ds ≡ some vs)
unfolding from_url values traverse
values-from_url [] ds e = ([], ground arith)
values-from_url (c ∷ cs) ds e =
    let (d, es, fc, rest, same) = traverse-eq-some_cons from_url_char c cs ds e in
    let (vs, vals) = values-from_url cs es rest in
    elim (Option-cases (base64_value d)) [
      | inl n ↦ absurd (from_url_char-ne-none c d fc n)
      | inr (v, ev) ↦ (v ∷ vs, rw (← same, ev, vals) refl)
    ]
