-- ===== src/Machine.antt =====
-- The machine that the broker runs on, as far as the program sees it: the four files of the vault,
-- the two registry values of the policy, and the calls of the operating system, each of which may
-- fail. Windows itself is a parameter, `System`.
pub mod Triples
use windows_fido_logon.Base.{
  ℕ, ◌+◌, Bool, true, false, Option, none, some, List, Bytes, Wide, ◌==◌, if◌then◌else◌, ◌≡◌, refl,
}

-- A call's result: a value, `false` with the error code, or an exception.
pub data Outcome {ℓ} (A : Type ℓ) : Type ℓ where
  done : A → Outcome A
  failed : ℕ → Outcome A
  thrown : Outcome A

pub record System : Type 0 where
  -- The error code of the n-th call that may fail, ERROR_SUCCESS (0) if it succeeds, and what a
  -- failed write or copy leaves in its file.
  pub fault : ℕ → ℕ
  pub torn : ℕ → Option Bytes
  -- CryptProtectData and CryptUnprotectData.
  pub protect : Bytes → Bytes
  pub unprotect : Bytes → Outcome Bytes
  -- `_wcsicmp(a.c_str(), b.c_str()) == 0`, and `std::towupper`.
  pub same_text : Wide → Wide → Bool
  pub to_upper : ℕ → ℕ
  -- ConvertStringSidToSidW followed by IsValidSid.
  pub is_valid_sid : Wide → Bool
  -- `ResolveLocalSid`: the account's name, or the error.
  pub resolve_sid : Wide → Outcome Wide
  -- WideCharToMultiByte and MultiByteToWideChar for UTF-8; `none` is a failure.
  pub wide_to_utf8 : Wide → Option Bytes
  pub utf8_to_wide : Bytes → Option Wide
  -- BCryptGenRandom: the bytes that the n-th call returns for a size; `none` is a failure.
  pub random : ℕ → ℕ → Option Bytes

pub data File : Type 0 where
  primary backup temporary rollback : File

pub record Disk : Type 0 where
  pub primary : Option Bytes
  pub backup : Option Bytes
  pub temporary : Option Bytes
  pub rollback : Option Bytes

-- The two values under CONFIG_REGISTRY_PATH: the REG_MULTI_SZ of the enforced SIDs, unit by unit,
-- and the DWORD `enable_filter`; `none` where there is no such value.
pub record Registry : Type 0 where
  pub enforced_sids : Option Wide
  pub enable_filter : Option ℕ

pub record World : Type 0 where
  pub disk : Disk
  pub registry : Registry
  -- How many calls were made, and the steady clock in seconds.
  pub calls : ℕ
  pub now : ℕ

abbrev pub content : Disk → File → Option Bytes
content d File.primary = d.primary
content d File.backup = d.backup
content d File.temporary = d.temporary
content d File.rollback = d.rollback

abbrev pub put : Disk → File → Option Bytes → Disk
put d File.primary c = record d { primary = c }
put d File.backup c = record d { backup = c }
put d File.temporary c = record d { temporary = c }
put d File.rollback c = record d { rollback = c }

abbrev pub M : Type 0 → Type 0
M A = World → Outcome A × World

abbrev pub pure : {A : Type 0} → A → M A
pure a w = (done a, w)

abbrev pub fail : {A : Type 0} → ℕ → M A
fail e w = (failed e, w)

abbrev pub bind_outcome : {A B : Type 0} → Outcome A × World → (A → M B) → Outcome B × World
bind_outcome (done a, w) f = f a w
bind_outcome (failed e, w) f = (failed e, w)
bind_outcome (thrown, w) f = (thrown, w)

infixl 5 ◌>>=◌
abbrev pub ◌>>=◌ : {A C : Type 0} → M A → (A → M C) → M C
◌>>=◌ call next w = bind_outcome (call w) next

infixl 5 ◌>>◌
abbrev pub ◌>>◌ : {C : Type 0} → M (Unit {0}) → M C → M C
call >> next = call >>= λ _. next

-- `if (!step) { handler }`: a step whose failure the code handles itself. An exception passes through.
abbrev pub recover : {A : Type 0} → Outcome A × World → (ℕ → M A) → Outcome A × World
recover (done a, w) handler = (done a, w)
recover (failed e, w) handler = handler e w
recover (thrown, w) handler = (thrown, w)

abbrev pub on_failure : {A : Type 0} → M A → (ℕ → M A) → M A
on_failure m handler w = recover (m w) handler

-- `if (step) { … } else { … }`.
abbrev pub choose : {A B : Type 0} → Outcome A × World → (A → M B) → (ℕ → M B) → Outcome B × World
choose (done a, w) then_do else_do = then_do a w
choose (failed e, w) then_do else_do = else_do e w
choose (thrown, w) then_do else_do = (thrown, w)

abbrev pub branch : {A B : Type 0} → M A → (A → M B) → (ℕ → M B) → M B
branch m then_do else_do w = choose (m w) then_do else_do

abbrev pub require : Bool → ℕ → M (Unit {0})
require true e = pure tt
require false e = fail e

abbrev pub or_throw : {A : Type 0} → Option A → M A
or_throw none w = (thrown, w)
or_throw (some a) w = (done a, w)

module _ (sys : System) where
  -- The next call of the operating system: its error code.
  abbrev pub next_call : M ℕ
  next_call w = (done (sys.fault w.calls), record w { calls = w.calls + 1 })

  -- A call that does nothing but succeed or fail.
  abbrev pub os_call : M (Unit {0})
  os_call = do code ← next_call; require (code == 0) code
