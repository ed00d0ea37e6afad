-- ===== src/BrokerService/Sessions/Invariant.antt =====
-- The table of sessions over time: every step of the broker keeps it within its bounds.
use windows_fido_logon.Base.{
  ℕ, ◌+◌, ◌≡◌, ◌<◌, ◌≤◌, inl, inr, refl, true, false, none, List, [], ◌∷◌, Bytes, Wide, leb, arith,
  Bool-cases, sym, subst, bytes_eq, if◌then◌else◌,
}
use windows_fido_logon.Machine.{System, World}
use windows_fido_logon.BrokerService.State.{SessionKind, Session, Caller, Service}
use windows_fido_logon.BrokerService.Sessions.{
  find_session, erase_session, live_sessions, count_caller, put_session, take_session,
  session_lifetime,
}
use windows_fido_logon.BrokerService.Sessions.Table.{
  length-live_sessions, count_caller-live_sessions, length-erase_session,
}
use windows_fido_logon.BrokerService.Sessions.Replay.{take_session-cases}
use windows_fido_logon.BrokerService.Sessions.Bounds.{IsUnique, IsBounded, sessions-put_session}

absent-live_sessions :
    (id : Bytes) (now : ℕ) (l : List (Bytes × Session))
    → find_session id l ≡ none
    → find_session id (live_sessions now l) ≡ none
unfolding find_session live_sessions
absent-live_sessions id now [] h = refl
absent-live_sessions id now ((key, session) ∷ rest) h =
    ground (arith, absent-live_sessions id now rest)

absent-erase_session :
    (id other : Bytes) (l : List (Bytes × Session))
    → find_session id l ≡ none
    → find_session id (erase_session other l) ≡ none
unfolding find_session erase_session
absent-erase_session id other [] h = refl
absent-erase_session id other ((key, session) ∷ rest) h =
    ground (arith, absent-erase_session id other rest)

live_sessions-IsUnique :
    (now : ℕ) (l : List (Bytes × Session)) → IsUnique l → IsUnique (live_sessions now l)
unfolding live_sessions
live_sessions-IsUnique now [] u = tt
live_sessions-IsUnique now ((key, session) ∷ rest) (absent, u) =
    elim (leb session.expires_at now)
      as (λ b.
        IsUnique (if b then live_sessions now rest else (key, session) ∷ live_sessions now rest)) [
          | true ↦ live_sessions-IsUnique now rest u
          | false ↦ (absent-live_sessions key now rest absent, live_sessions-IsUnique now rest u)
        ]

erase_session-IsUnique :
    (id : Bytes) (l : List (Bytes × Session)) → IsUnique l → IsUnique (erase_session id l)
unfolding erase_session
erase_session-IsUnique id [] u = tt
erase_session-IsUnique id ((key, session) ∷ rest) (absent, u) =
    elim (bytes_eq key id)
      as (λ b.
        IsUnique (if b then erase_session id rest else (key, session) ∷ erase_session id rest)) [
          | true ↦ erase_session-IsUnique id rest u
          | false ↦ (absent-erase_session key id rest absent, erase_session-IsUnique id rest u)
        ]

count_caller-erase_session :
    (sys : System) (sid : Wide) (id : Bytes) (l : List (Bytes × Session))
    → count_caller sys sid (erase_session id l) ≤ count_caller sys sid l
unfolding erase_session count_caller
count_caller-erase_session sys sid id [] = omega arith
count_caller-erase_session sys sid id ((key, session) ∷ rest) =
    ground (arith, count_caller-erase_session sys sid id rest)

-- Texts that `_wcsicmp` takes for the same are the same to it as any third one.
abbrev pub AreAlike : System → Type 0
AreAlike sys = (a b c : Wide) → sys.same_text a b ≡ true → sys.same_text c b ≡ sys.same_text c a

module _ (sys : System) (alike : AreAlike sys) where
  count_caller-alike :
      (a b : Wide) (l : List (Bytes × Session))
      → sys.same_text a b ≡ true
      → count_caller sys b l ≡ count_caller sys a l
  unfolding count_caller
  count_caller-alike a b [] h = refl
  count_caller-alike a b ((key, session) ∷ rest) h =
      ground (arith, alike a b session.caller_sid h, count_caller-alike a b rest h)

  count_caller-cons :
      (id : Bytes) (session : Session) (l : List (Bytes × Session)) (n : ℕ)
      → count_caller sys session.caller_sid l < n
      → ((sid : Wide) → count_caller sys sid l ≤ n)
      → (sid : Wide) → count_caller sys sid ((id, session) ∷ l) ≤ n
  unfolding count_caller
  count_caller-cons id session l n room each sid =
      elim (Bool-cases (sys.same_text session.caller_sid sid)) [
        | inl same ↦ ground (arith, same, count_caller-alike session.caller_sid sid l same, room)
        | inr other ↦ ground (arith, other, each sid)
      ]

  live_sessions-IsBounded :
      (now : ℕ) (l : List (Bytes × Session)) → IsBounded sys l → IsBounded sys (live_sessions now l)
  live_sessions-IsBounded now l b = record {
    total = omega (arith, length-live_sessions now l, b.total);
    each = λ sid. omega (arith, count_caller-live_sessions sys sid now l, b.each sid);
    unique = live_sessions-IsUnique now l b.unique;
  }

  put_session-IsBounded :
      (session : Session) (s : Service)
      → IsBounded sys s.sessions
      → IsBounded sys (put_session sys session s).1.sessions
  put_session-IsBounded session s b =
      let live = live_sessions-IsBounded s.world.now s.sessions b in
      elim (sessions-put_session sys session s) [
        | inl e ↦ subst (IsBounded sys) (sym e) b
        | inr (inl e) ↦ subst (IsBounded sys) (sym e) live
        | inr (inr (id, fresh, room, caller_room, e)) ↦ subst (IsBounded sys) (sym e) (record {
          total = omega (arith, room);
          each =
              count_caller-cons id (record session { expires_at = s.world.now + session_lifetime })
                _ _ caller_room live.each;
          unique = (fresh, live.unique);
        })
      ]

  take_session-IsBounded :
      (id : Bytes) (caller : Caller) (kind : SessionKind) (s : Service)
      → IsBounded sys s.sessions
      → IsBounded sys (take_session sys id caller kind s).1.sessions
  take_session-IsBounded id caller kind s b = elim (take_session-cases sys id caller kind s) [
    | inl e ↦ subst (IsBounded sys) (sym e) b
    | inr e ↦ subst (IsBounded sys) (sym e) (record {
      total = omega (arith, length-erase_session id s.sessions, b.total);
      each = λ sid. omega (arith, count_caller-erase_session sys sid id s.sessions, b.each sid);
      unique = erase_session-IsUnique id s.sessions b.unique;
    })
  ]

-- The states of the broker since it started: it puts and takes sessions, and everything else that
-- it does, and the time that passes, changes the machine only.
pub data IsReachable (sys : System) : Service → Type 0 where
  started : (w : World) → IsReachable sys (record { world = w; sessions = [] })
  put :
      (session : Session) (s : Service)
      → IsReachable sys s
      → IsReachable sys (put_session sys session s).1
  taken :
      (id : Bytes) (caller : Caller) (kind : SessionKind) (s : Service)
      → IsReachable sys s
      → IsReachable sys (take_session sys id caller kind s).1
  elsewhere :
      (w : World) (s : Service) → IsReachable sys s → IsReachable sys (record s { world = w })

-- In every state that the broker reaches from an empty table by putting and taking sessions, while
-- the machine changes in any way, the table has at most 256 sessions, at most 32 of any caller, and
-- no identifier twice; texts that `_wcsicmp` takes for the same must be the same to it as any third.
pub IsReachable-IsBounded :
    (sys : System) (alike : AreAlike sys) (s : Service)
    → IsReachable sys s
    → IsBounded sys s.sessions
unfolding count_caller
IsReachable-IsBounded sys alike _ (started w) = record {
  total = omega arith;
  each = λ sid. omega arith;
  unique = tt;
}
IsReachable-IsBounded sys alike _ (put session s r) =
    put_session-IsBounded sys alike session s (IsReachable-IsBounded sys alike s r)
IsReachable-IsBounded sys alike _ (taken id caller kind s r) =
    take_session-IsBounded sys alike id caller kind s (IsReachable-IsBounded sys alike s r)
IsReachable-IsBounded sys alike _ (elsewhere w s r) = IsReachable-IsBounded sys alike s r
