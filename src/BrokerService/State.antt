-- ===== src/BrokerService/State.antt =====
-- The state of the broker, its errors, and the monad of its operations: exceptions over a state.
use windows_fido_logon.Base.{ℕ, ◌+◌, Bool, true, false, Option, none, some, List, [], Bytes, Wide}
use windows_fido_logon.Convert.{base64url_encode}
use windows_fido_logon.FidoVerifier.Errors.{VerifyError}
use windows_fido_logon.Machine.{System, World, Outcome, done, failed, thrown}
use windows_fido_logon.Machine

pub data SessionKind : Type 0 where
  authentication registration removal_authorization : SessionKind

pub record Session : Type 0 where
  pub kind : SessionKind
  pub caller_sid : Wide
  pub target_sid : Wide
  pub username : Wide
  pub challenge : Bytes
  pub rp_id : Bytes
  pub origin : Bytes
  pub label : Bytes
  pub credential_to_remove : Bytes
  pub expires_at : ℕ

pub record Caller : Type 0 where
  pub sid : Wide
  pub is_system : Bool
  pub is_elevated_admin : Bool

-- The machine, and the sessions by their identifiers.
pub record Service : Type 0 where
  pub world : World
  pub sessions : List (Bytes × Session)

-- Windows, as far as the broker asks it for more than the store does.
pub record Platform : Type 0 where
  pub sys : System
  -- `ResolveLocalAccount`: the account's name and SID.
  pub resolve_account : Wide → Option (Wide × Wide)
  -- `ValidateLocalPassword`: the error code, 0 for the right password.
  pub validate_password : Wide → Wide → ℕ
  -- The registered credential provider filters: the status of opening their key, and for each index
  -- the status of the enumeration and the name; `is_windows_filter` is `IsWindowsGenericFilter`.
  pub filter_open_status : ℕ
  pub filter_entries : List (ℕ × Wide)
  pub is_windows_filter : Wide → Bool
  -- `UtcNow`.
  pub utc_now : Bytes

-- The messages of the exceptions, one constructor for each.
pub data BrokerError : Type 0 where
  json_exception invalid_request_size unsupported_version unidentified_caller : BrokerError
  refresh_failed access_denied vault_unavailable unsupported_operation : BrokerError
  inconsistent_policy no_credential_enforced no_credentials : BrokerError
  no_cryptographic_session too_many_sessions no_unique_session no_user_handle : BrokerError
  invalid_session_id unknown_session session_expired wrong_session_type foreign_session :
      BrokerError
  not_one_assertion credential_not_registered counter_not_saved : BrokerError
  verification : VerifyError → BrokerError
  not_current_user not_current_account unresolved_account : BrokerError
  password_failed : ℕ → BrokerError
  too_many_credentials already_registered not_saved invalid_label : BrokerError
  last_credential unknown_credential not_removed : BrokerError
  elevation_required filter_conflict filter_inspection enforcement_failed : BrokerError

pub data Reply {ℓ} (A : Type ℓ) : Type ℓ where
  ok : A → Reply A
  err : BrokerError → Reply A

abbrev pub B : Type 0 → Type 0
B A = Service → Reply A × Service

abbrev pub pure : {A : Type 0} → A → B A
pure a s = (ok a, s)

abbrev pub throw : {A : Type 0} → BrokerError → B A
throw e s = (err e, s)

abbrev pub bind_reply : {A C : Type 0} → Reply A × Service → (A → B C) → Reply C × Service
bind_reply (ok a, s) f = f a s
bind_reply (err e, s) f = (err e, s)

infixl 5 ◌>>=◌ ◌>>◌
abbrev pub ◌>>=◌ : {A C : Type 0} → B A → (A → B C) → B C
◌>>=◌ m f s = bind_reply (m s) f

abbrev pub ◌>>◌ : {C : Type 0} → B (Unit {0}) → B C → B C
m >> k = m >>= λ _. k

-- `if (!test) throw std::runtime_error(e)`
abbrev pub require : Bool → BrokerError → B (Unit {0})
require true e = pure tt
require false e = throw e

abbrev pub found : {A : Type 0} → Option A → BrokerError → B A
found none e = throw e
found (some a) e = pure a

-- `request.at(…)`, `get<…>()` and `value(…)`, which throw.
abbrev pub json_value : {A : Type 0} → Option A → B A
json_value o = found o json_exception

-- A call of the store: `e` is what the code throws when it returns false.
abbrev pub stored_reply :
    {A : Type 0} → BrokerError → List (Bytes × Session) → Outcome A × World → Reply A × Service
stored_reply e sessions (done a, w) = (ok a, record { world = w; sessions = sessions })
stored_reply e sessions (failed c, w) = (err e, record { world = w; sessions = sessions })
stored_reply e sessions (thrown, w) =
    (err json_exception, record { world = w; sessions = sessions })

abbrev pub store_call : {A : Type 0} → Machine.M A → BrokerError → B A
store_call m e s = stored_reply e s.sessions (m s.world)

abbrev encoded : Option Bytes → Bytes
encoded none = []
encoded (some bytes) = base64url_encode false bytes

-- `RandomId`: empty if the generator fails.
abbrev pub random_id : System → ℕ → B Bytes
random_id sys size s = (
  ok (encoded (sys.random s.world.calls size)),
  record s { world = record world { calls = world.calls + 1 } },
)
  where
    world : World
    world = s.world
