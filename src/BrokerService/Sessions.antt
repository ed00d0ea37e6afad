-- ===== src/BrokerService/Sessions.antt =====
-- `PutSession` and `TakeSession`.
pub mod Table
pub mod Replay
pub mod Bounds
pub mod Invariant
use windows_fido_logon.Base.{
  ℕ, zero, suc, ◌+◌, Bool, true, false, not, ◌&&◌, ◌||◌, Option, none, some, List, [], ◌∷◌, Bytes,
  Wide, bytes_eq, length, is_empty, ltb, leb, ◌==◌, if◌then◌else◌,
}
use windows_fido_logon.Machine.{System}
use windows_fido_logon.BrokerService.State.{
  SessionKind, authentication, registration, removal_authorization, Session, Caller, Service, Reply,
  ok, err, B, pure, throw, require, found, random_id, ◌>>=◌, ◌>>◌, no_cryptographic_session,
  too_many_sessions, no_unique_session, invalid_session_id, unknown_session, session_expired,
  wrong_session_type, foreign_session,
}

abbrev pub session_lifetime : ℕ
session_lifetime = 120

abbrev pub maximum_sessions : ℕ
maximum_sessions = 256

abbrev pub maximum_sessions_per_caller : ℕ
maximum_sessions_per_caller = 32

-- `std::map` by the identifiers.
unfoldable pub find_session : Bytes → List (Bytes × Session) → Option Session
find_session id [] = none
find_session id ((key, session) ∷ rest) =
    if bytes_eq key id then some session else find_session id rest

unfoldable pub erase_session : Bytes → List (Bytes × Session) → List (Bytes × Session)
erase_session id [] = []
erase_session id ((key, session) ∷ rest) =
    if bytes_eq key id then erase_session id rest else (key, session) ∷ erase_session id rest

-- The loop that erases what has expired.
unfoldable pub live_sessions : ℕ → List (Bytes × Session) → List (Bytes × Session)
live_sessions now [] = []
live_sessions now ((key, session) ∷ rest) =
    if leb session.expires_at now
    then live_sessions now rest
    else (key, session) ∷ live_sessions now rest

unfoldable pub count_caller : System → Wide → List (Bytes × Session) → ℕ
count_caller sys sid [] = 0
count_caller sys sid ((key, session) ∷ rest) =
    (if sys.same_text session.caller_sid sid then 1 else 0) + count_caller sys sid rest

abbrev pub is_kind : SessionKind → SessionKind → Bool
is_kind authentication authentication = true
is_kind registration registration = true
is_kind removal_authorization removal_authorization = true
is_kind _ _ = false

abbrev pub get_sessions : B (List (Bytes × Session))
get_sessions s = pure s.sessions s

abbrev pub set_sessions : List (Bytes × Session) → B (Unit {0})
set_sessions sessions s = pure tt (record s { sessions = sessions })

abbrev pub get_now : B ℕ
get_now s = pure s.world.now s

abbrev is_free : Bytes → Option Session → Bool
is_free id none = not (is_empty id)
is_free id (some session) = false

-- `if (!id.empty() && !sessions.contains(id)) { sessions.emplace(id, session); return id; }`
abbrev store_if : Bool → Bytes → Session → List (Bytes × Session) → B Bytes → B Bytes
store_if true id session sessions again = do set_sessions ((id, session) ∷ sessions); pure id
store_if false id session sessions again = again

module _ (sys : System) where
  -- The attempts that are left to draw an identifier that is in no use.
  unfoldable pub allocate_session : ℕ → Session → B Bytes
  allocate_session zero session = throw no_unique_session
  allocate_session (suc attempts) session = do
    id ← random_id sys 24
    sessions ← get_sessions
    store_if (is_free id (find_session id sessions)) id session sessions
        (allocate_session attempts session)

  unfoldable pub put_session : Session → B Bytes
  put_session session = do
    require (not (is_empty session.challenge || is_empty session.rp_id || is_empty session.origin))
        no_cryptographic_session
    now ← get_now
    let dated = record session { expires_at = now + session_lifetime }
    sessions ← get_sessions
    let live = live_sessions now sessions
    set_sessions live
    require
        (not (
          leb maximum_sessions (length live)
          || leb maximum_sessions_per_caller (count_caller sys session.caller_sid live)))
        too_many_sessions
    allocate_session 4 dated

  -- The session is erased before it is checked.
  unfoldable pub take_session : Bytes → Caller → SessionKind → B Session
  take_session id caller expected = do
    require (length id == 32) invalid_session_id
    sessions ← get_sessions
    session ← found (find_session id sessions) unknown_session
    set_sessions (erase_session id sessions)
    now ← get_now
    require (not (leb session.expires_at now)) session_expired
    require (is_kind session.kind expected) wrong_session_type
    require (not (not caller.is_system && not (sys.same_text caller.sid session.caller_sid)))
        foreign_session
    pure session
