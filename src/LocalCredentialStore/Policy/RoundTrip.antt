-- ===== src/LocalCredentialStore/Policy/RoundTrip.antt =====
-- What the reader of the policy gets from what the store has published.
use mathlib.Core.List.{append_assoc, append-nil}
use windows_fido_logon.Base.{
  ℕ, ◌≡◌, ◌≢◌, inl, inr, refl, ap, sym, ◌∙◌, true, false, some, List, [], ◌∷◌, ◌++◌, Wide, All,
  ◌==◌, arith, Bool-cases,
}
use windows_fido_logon.LocalFidoTypes.{AccountRecord}
use windows_fido_logon.LocalCredentialStore.Policy.{
  enforced_of, multi_sz, closed_multi, multi_strings, get_multi_sz,
}

-- A text of at least one unit and without a zero, which any SID is.
abbrev pub IsText : Wide → Type 0
IsText text = (text ≢ []) × All (λ c. c ≢ 0) text

eq_zero_false : (c : ℕ) → c ≢ 0 → (c == 0) ≡ false
eq_zero_false c h = ground arith

multi_strings-cons :
    (current : Wide) (c : ℕ) (cs : Wide)
    → c ≢ 0
    → multi_strings current (c ∷ cs) ≡ multi_strings (current ++ c ∷ []) cs
unfolding multi_strings
multi_strings-cons current c cs h = ground (arith, eq_zero_false c h)

-- The reader takes up a text unit by unit, until the zero behind it.
multi_strings-text :
    (current text rest : Wide)
    → All (λ c. c ≢ 0) text
    → multi_strings current (text ++ 0 ∷ rest) ≡ multi_strings (current ++ text) (0 ∷ rest)
unfolding multi_strings
multi_strings-text current [] rest h =
    ap (λ c. multi_strings c (0 ∷ rest)) (sym (append-nil current))
multi_strings-text current (c ∷ text) rest (p, h) =
    multi_strings-cons current c (text ++ 0 ∷ rest) p
    ∙ multi_strings-text (current ++ c ∷ []) text rest h
    ∙ ap (λ t. multi_strings t (0 ∷ rest)) (append_assoc current (c ∷ []) text)

multi_strings-closed :
    (text rest : Wide) → text ≢ [] → multi_strings text (0 ∷ rest) ≡ text ∷ multi_strings [] rest
unfolding multi_strings
multi_strings-closed [] rest h = absurd (h refl)
multi_strings-closed (c ∷ text) rest h = refl

-- Every enforced account's SID is a text.
abbrev pub AreTexts : List AccountRecord → Type 0
AreTexts accounts = All (λ account. account.enforced ≡ true → IsText account.sid) accounts

multi_strings-multi_sz :
    (accounts : List AccountRecord) (rest : Wide)
    → AreTexts accounts
    → multi_strings [] (multi_sz accounts ++ 0 ∷ rest) ≡ enforced_of accounts
unfolding multi_sz multi_strings
multi_strings-multi_sz [] rest h = refl
multi_strings-multi_sz (account ∷ accounts) rest (p, h) = elim (Bool-cases account.enforced) [
  | inr e ↦ rw (e) (multi_strings-multi_sz accounts rest h)
  | inl e ↦ rw (e) (
      ap (multi_strings []) (append_assoc account.sid (0 ∷ multi_sz accounts) (0 ∷ rest))
      ∙ multi_strings-text [] account.sid (multi_sz accounts ++ 0 ∷ rest) (p e).1
      ∙ multi_strings-closed account.sid (multi_sz accounts ++ 0 ∷ rest) (p e).0
      ∙ ap (◌∷◌ account.sid) (multi_strings-multi_sz accounts rest h))
]

closed_multi-read :
    (m : Wide) (sids : List Wide)
    → ((rest : Wide) → multi_strings [] (m ++ 0 ∷ rest) ≡ sids)
    → get_multi_sz (some (closed_multi m)) ≡ sids
unfolding get_multi_sz closed_multi multi_strings
closed_multi-read [] sids h = h []
closed_multi-read (c ∷ m) sids h =
    ap (multi_strings []) (append_assoc (c ∷ m) (0 ∷ []) (0 ∷ 0 ∷ [])) ∙ h (0 ∷ 0 ∷ [])

-- What `GetMultiSZ` reads from the value that `SynchronizeEnforcedRegistry` writes is the SIDs of
-- the enforced accounts in the order of the vault, if each of these is not empty and has no zero.
pub get_multi_sz-closed_multi :
    (accounts : List AccountRecord)
    → AreTexts accounts
    → get_multi_sz (some (closed_multi (multi_sz accounts))) ≡ enforced_of accounts
get_multi_sz-closed_multi accounts h =
    closed_multi-read _ _ (λ rest. multi_strings-multi_sz accounts rest h)
