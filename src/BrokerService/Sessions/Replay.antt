-- ===== src/BrokerService/Sessions/Replay.antt =====
-- `TakeSession`: a session is handed out at most once.
use windows_fido_logon.Base.{
  ◌≡◌, ◌≢◌, ◌<◌, ◌⊎◌, inl, inr, refl, Bool, true, false, not, ◌&&◌, none, some, Bytes, length, leb,
  ◌==◌, ==_iff, arith, Option-cases, ap, sym, subst, ◌∙◌,
}
use windows_fido_logon.Machine.{System}
use windows_fido_logon.BrokerService.State.{
  SessionKind, Session, Caller, Service, ok, err, unknown_session,
}
use windows_fido_logon.BrokerService.Replies.{require-cases, >>-eq-ok, found->>=-eq-ok, pure-eq-ok}
use windows_fido_logon.BrokerService.Sessions.{find_session, erase_session, is_kind, take_session}
use windows_fido_logon.BrokerService.Sessions.Table.{
  erase_session-absent, find_session-erase_session, find_session-erase_session_other,
}

pub is_kind_sound : (a b : SessionKind) → is_kind a b ≡ true → a ≡ b
is_kind_sound SessionKind.authentication SessionKind.authentication h = refl
is_kind_sound SessionKind.registration SessionKind.registration h = refl
is_kind_sound SessionKind.removal_authorization SessionKind.removal_authorization h = refl
is_kind_sound SessionKind.authentication SessionKind.registration h = absurd (cc)
is_kind_sound SessionKind.authentication SessionKind.removal_authorization h = absurd (cc)
is_kind_sound SessionKind.registration SessionKind.authentication h = absurd (cc)
is_kind_sound SessionKind.registration SessionKind.removal_authorization h = absurd (cc)
is_kind_sound SessionKind.removal_authorization SessionKind.authentication h = absurd (cc)
is_kind_sound SessionKind.removal_authorization SessionKind.registration h = absurd (cc)

module _ (sys : System) where
  -- The session that a caller may take now.
  pub record IsTaken (id : Bytes) (caller : Caller) (kind : SessionKind) (s : Service)
      (session : Session) (after : Service) : Type 0 where
    pub sized : length id ≡ 32
    pub stored : find_session id s.sessions ≡ some session
    pub unexpired : s.world.now < session.expires_at
    pub expected : session.kind ≡ kind
    pub owned : (caller.is_system ≡ true) ⊎ (sys.same_text caller.sid session.caller_sid ≡ true)
    pub erased : after ≡ record s { sessions = erase_session id s.sessions }

  owner_of :
      (system same : Bool) → not (not system && not same) ≡ true → (system ≡ true) ⊎ (same ≡ true)
  owner_of true same h = inl refl
  owner_of false same h = inr (ground arith)

  -- `TakeSession` returns a session only if it is stored under the identifier of 32 characters,
  -- has not expired, is of the expected kind, and belongs to the caller unless the caller is SYSTEM;
  -- the session is then gone, and nothing else has changed.
  pub take_session-IsTaken :
      (id : Bytes) (caller : Caller) (kind : SessionKind) (s : Service) (session : Session)
      (after : Service)
      → take_session sys id caller kind s ≡ (ok session, after)
      → IsTaken id caller kind s session after
  unfolding take_session
  take_session-IsTaken id caller kind s session after h =
      let (sized, h₁) = >>-eq-ok (length id == 32) _ _ h in
      let (taken, stored, h₂) = found->>=-eq-ok (find_session id s.sessions) _ _ h₁ in
      let (unexpired, h₃) = >>-eq-ok (not (leb taken.expires_at s.world.now)) _ _ h₂ in
      let (expected, h₄) = >>-eq-ok (is_kind taken.kind kind) _ _ h₃ in
      let (owned, h₅) =
        >>-eq-ok (not (not caller.is_system && not (sys.same_text caller.sid taken.caller_sid))) _ _
          h₄ in
      let (same, erased) = pure-eq-ok h₅ in
      record {
        sized = (==_iff _ 32).0 sized;
        stored = stored ∙ ap some same;
        unexpired = subst (λ x. s.world.now < x.expires_at) same (ground (arith, unexpired));
        expected = is_kind_sound _ _ (subst (λ x. is_kind x.kind kind ≡ true) same expected);
        owned = owner_of _ _ (
            subst
              (λ x.
                not (not caller.is_system && not (sys.same_text caller.sid x.caller_sid)) ≡ true)
              same owned);
        erased = sym erased;
      }

  -- A request for an unknown session with an identifier of 32 characters changes nothing and fails.
  unknown :
      (id : Bytes) (caller : Caller) (kind : SessionKind) (s : Service)
      → length id ≡ 32
      → find_session id s.sessions ≡ none
      → take_session sys id caller kind s ≡ (err unknown_session, s)
  unfolding take_session
  unknown id caller kind s sized h = ground (arith, sized, h)

  -- Whatever is answered, the session under the identifier has been erased.
  pub sessions-take_session :
      (id : Bytes) (caller : Caller) (kind : SessionKind) (s : Service)
      → length id ≡ 32
      → (take_session sys id caller kind s).1.sessions ≡ erase_session id s.sessions
  unfolding take_session
  sessions-take_session id caller kind s sized = elim (Option-cases (find_session id s.sessions)) [
    | inl absent ↦ ground (arith, sized, absent, erase_session-absent id s.sessions)
    | inr (session, stored) ↦ ground (arith, sized, stored)
  ]

  -- Whatever the identifier, `TakeSession` leaves the table, or the table without it.
  pub take_session-cases :
      (id : Bytes) (caller : Caller) (kind : SessionKind) (s : Service)
      → let after = (take_session sys id caller kind s).1.sessions in
        (after ≡ s.sessions) ⊎ (after ≡ erase_session id s.sessions)
  unfolding take_session
  take_session-cases id caller kind s = elim (require-cases (length id == 32) _ _ s) [
    | inl e ↦ inl (ap (λ r. r.1.sessions) e)
    | inr (sized, _) ↦ inr (sessions-take_session id caller kind s ((==_iff _ 32).0 sized))
  ]

  -- Whatever `TakeSession` answers for an identifier of 32 characters, the session under it is gone
  -- behind it, and the sessions under the other identifiers are there as before.
  pub find_session-take_session :
      (id : Bytes) (caller : Caller) (kind : SessionKind) (s : Service)
      → length id ≡ 32
      → (find_session id (take_session sys id caller kind s).1.sessions ≡ none)
        × ((other : Bytes)
            → id ≢ other
            → find_session other (take_session sys id caller kind s).1.sessions
              ≡ find_session other s.sessions)
  find_session-take_session id caller kind s sized =
      let e = sessions-take_session id caller kind s sized in
      (
        ap (find_session id) e ∙ find_session-erase_session id s.sessions,
        λ other different.
            ap (find_session other) e
            ∙ find_session-erase_session_other id other s.sessions different,
      )

  -- A second `TakeSession` with the same identifier fails with `unknown_session` whoever makes it
  -- and whatever the first one answered: no session is used twice.
  pub take_session-take_session :
      (id : Bytes) (first second : Caller) (kind kind' : SessionKind) (s : Service)
      → length id ≡ 32
      → take_session sys id second kind' (take_session sys id first kind s).1
        ≡ (err unknown_session, (take_session sys id first kind s).1)
  take_session-take_session id first second kind kind' s sized =
      unknown id second kind' _ sized (find_session-take_session id first kind s sized).0
