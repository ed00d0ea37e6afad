-- ===== src/BrokerService/Sessions/Table.antt =====
-- The table of sessions as a map: lookup, deletion, expiry and the counts.
use windows_fido_logon.Base.{
  ℕ, ◌≡◌, ◌≤◌, ◌≢◌, inl, inr, refl, true, false, none, List, [], ◌∷◌, Bytes, Wide, bytes_eq,
  eq_of_bytes_eq, length, arith, Bool-cases, sym, ◌∙◌,
}
use windows_fido_logon.Machine.{System}
use windows_fido_logon.BrokerService.State.{Session}
use windows_fido_logon.BrokerService.Sessions.{
  find_session, erase_session, live_sessions, count_caller,
}

pub find_session-erase_session :
    (id : Bytes) (l : List (Bytes × Session)) → find_session id (erase_session id l) ≡ none
unfolding find_session erase_session
find_session-erase_session id [] = refl
find_session-erase_session id ((key, session) ∷ rest) =
    ground (arith, find_session-erase_session id rest)

bytes_eq-other : (a b c : Bytes) → a ≢ b → bytes_eq c a ≡ true → bytes_eq c b ≡ false
bytes_eq-other a b c different h = elim (Bool-cases (bytes_eq c b)) [
  | inl same ↦ absurd (different (sym (eq_of_bytes_eq c a h) ∙ eq_of_bytes_eq c b same))
  | inr other ↦ other
]

pub find_session-erase_session_other :
    (id other : Bytes) (l : List (Bytes × Session))
    → id ≢ other
    → find_session other (erase_session id l) ≡ find_session other l
unfolding find_session erase_session
find_session-erase_session_other id other [] different = refl
find_session-erase_session_other id other ((key, session) ∷ rest) different = ground (
  arith,
  find_session-erase_session_other id other rest different,
  bytes_eq-other id other key different,
)

pub length-live_sessions :
    (now : ℕ) (l : List (Bytes × Session)) → length (live_sessions now l) ≤ length l
unfolding live_sessions
length-live_sessions now [] = omega arith
length-live_sessions now ((key, session) ∷ rest) = ground (arith, length-live_sessions now rest)

pub count_caller-live_sessions :
    (sys : System) (sid : Wide) (now : ℕ) (l : List (Bytes × Session))
    → count_caller sys sid (live_sessions now l) ≤ count_caller sys sid l
unfolding live_sessions count_caller
count_caller-live_sessions sys sid now [] = omega arith
count_caller-live_sessions sys sid now ((key, session) ∷ rest) =
    ground (arith, count_caller-live_sessions sys sid now rest)

pub length-erase_session :
    (id : Bytes) (l : List (Bytes × Session)) → length (erase_session id l) ≤ length l
unfolding erase_session
length-erase_session id [] = omega arith
length-erase_session id ((key, session) ∷ rest) = ground (arith, length-erase_session id rest)

pub erase_session-absent :
    (id : Bytes) (l : List (Bytes × Session)) → find_session id l ≡ none → erase_session id l ≡ l
unfolding find_session erase_session
erase_session-absent id [] h = refl
erase_session-absent id ((key, session) ∷ rest) h = ground (arith, erase_session-absent id rest)
