-- ===== src/FidoDevice.antt =====
-- CppClient/CppClient/FIDODevice.cpp: the keys that are there, the selection by touch, and the ceremony.
-- libfido2 and the clock are parameters.
pub mod Touch
pub mod Ended
pub mod Ceremony
pub mod Agreement
use windows_fido_logon.Base.{
  ℕ, zero, suc, ◌+◌, ◌-◌, ◌^◌, ◌≡◌, refl, Bool, true, false, not, ◌&&◌, ◌||◌, Option, none, some,
  List, [], ◌∷◌, ◌++◌, map, Bytes, codes, length, ltb, leb, any, is_empty, ◌==◌, if◌then◌else◌,
}
use windows_fido_logon.LocalFidoTypes.{FidoAssertionData, FidoSignResponse, es256_algorithm}
use windows_fido_logon.Convert.{base64url_encode, base64url_decode}
use windows_fido_logon.External.Fido.{DeviceLibrary}

-- A failure: one of libfido2's statuses that a call returned, or one that the program returns itself.
pub data Failure : Type 0 where
  library_status : ℕ → Failure
  internal invalid_argument notfound keepalive_cancel user_action_timeout no_credentials
        unsupported_option :
      Failure

pub data Result {ℓ} (A : Type ℓ) : Type ℓ where
  ok : A → Result A
  err : Failure → Result A

infixl 5 ◌>>=◌
abbrev pub ◌>>=◌ {ℓ κ} : {A : Type ℓ} {C : Type κ} → Result A → (A → Result C) → Result C
ok value >>= next = next value
err failure >>= next = err failure

pub >>=-eq-ok {ℓ κ} :
    {A : Type ℓ} {C : Type κ} (call : Result A) (next : A → Result C) {c : C}
    → (call >>= next) ≡ ok c
    → (a : A) × (call ≡ ok a) × (next a ≡ ok c)
>>=-eq-ok (err e) next impossible = absurd (cc)
>>=-eq-ok (ok a) next rest = (a, refl, rest)

-- A call that returns a status and an object; FIDO_OK is 0.
abbrev pub checked {ℓ} : {A : Type ℓ} → ℕ × A → Result A
checked (zero, object) = ok object
checked (suc status, object) = err (library_status (suc status))

abbrev pub present {ℓ} : {A : Type ℓ} → Option A → Result A
present (some object) = ok object
present none = err internal

abbrev pub ceremony_timeout_ms : ℕ
ceremony_timeout_ms = 120000

-- A FIDODevice: its path and what `ReadCapabilities` found.
pub record FidoDevice : Type 0 where
  pub path : Bytes
  pub is_fido2 : Bool
  pub has_pin : Bool
  pub has_uv : Bool
  pub supports_es256 : Bool

-- `std::tolower` of a byte in the C locale.
abbrev pub to_lower : ℕ → ℕ
to_lower c = if leb 65 c && leb c 90 then c + 32 else c

abbrev pub starts_with : Bytes → Bytes → Bool
starts_with [] text = true
starts_with (p ∷ prefix) [] = false
starts_with (p ∷ prefix) (c ∷ text) = (p == c) && starts_with prefix text

-- `find(part) != npos`.
abbrev pub contains : Bytes → Bytes → Bool
contains part [] = starts_with part []
contains part (c ∷ text) = starts_with part (c ∷ text) || contains part text

-- `IsWindowsUsbHidPath`.
unfoldable pub is_windows_usb_hid_path : Bytes → Bool
is_windows_usb_hid_path path =
    let lower = map to_lower path in
    contains (codes "hid#") lower && not (contains (codes "windows://hello") lower)

module _ (fido : DeviceLibrary) where
  open fido use {Dev}

  -- `Open`.
  unfoldable pub open_device : Bytes → Result Dev
  open_device path = do
    fresh ← present fido.dev_new
    device ← checked (fido.dev_set_timeout fresh 5000)
    checked (fido.dev_open device path)

  abbrev pub algorithms_of : Option (ℕ × List ℕ) → List ℕ
  algorithms_of (some (zero, algorithms)) = algorithms
  algorithms_of _ = []

  abbrev pub capable : Bytes → Result Dev → FidoDevice
  capable path (err e) = record {
    path = path;
    is_fido2 = false;
    has_pin = false;
    has_uv = false;
    supports_es256 = false;
  }
  capable path (ok device) = record {
    path = path;
    is_fido2 = fido.dev_is_fido2 device;
    has_pin = fido.dev_has_pin device;
    has_uv = fido.dev_has_uv device || fido.dev_has_pin device;
    supports_es256 =
        fido.dev_is_fido2 device
        && any (λ a. a == es256_algorithm) (algorithms_of (fido.dev_get_cbor_info device));
  }

  -- The constructor with `ReadCapabilities`.
  unfoldable pub read_capabilities : Bytes → FidoDevice
  read_capabilities path = capable path (open_device path)

  abbrev pub usable : FidoDevice → Bool
  usable device = device.is_fido2 && device.supports_es256

  -- `GetDevices` of the paths that libfido2 lists; `none` is a null path.
  unfoldable pub get_devices : List (Option Bytes) → List FidoDevice
  get_devices [] = []
  get_devices (none ∷ paths) = get_devices paths
  get_devices (some path ∷ paths) =
      let rest = get_devices paths in
      let device = read_capabilities path in
      if is_windows_usb_hid_path path && usable device then device ∷ rest else rest
