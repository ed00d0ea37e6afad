-- ===== src/BrokerService/Sessions/Bounds.antt =====
-- `PutSession`: what it stores, and the bounds that the table keeps.
use windows_fido_logon.Base.{
  ℕ, zero, suc, ◌+◌, ◌≡◌, ◌<◌, ◌≤◌, ◌⊎◌, inl, inr, refl, Bool, true, false, not, ◌||◌, Option, none,
  some, List, [], ◌∷◌, Bytes, Wide, length, is_empty, leb, arith, ap, subst, ◌∙◌,
}
use windows_fido_logon.Machine.{System}
use windows_fido_logon.BrokerService.State.{Session, Service, Reply, ok, err, B, random_id}
use windows_fido_logon.BrokerService.Replies.{require-cases, >>-eq-ok}
use windows_fido_logon.BrokerService.Sessions.{
  find_session, live_sessions, count_caller, is_free, store_if, allocate_session, put_session,
  session_lifetime, maximum_sessions, maximum_sessions_per_caller,
}

is_free-eq-true :
    (id : Bytes) (o : Option Session) → is_free id o ≡ true → (o ≡ none) × (is_empty id ≡ false)
is_free-eq-true id none h = (refl, ground arith)
is_free-eq-true id (some session) h = absurd (cc)

-- What drawing an identifier does: it stores the session under an identifier that was in no use,
-- or fails and leaves the table as it was.
Drawn : Session → List (Bytes × Session) → Reply Bytes → List (Bytes × Session) → Type 0
Drawn session before (ok id) after =
    (find_session id before ≡ none) × (is_empty id ≡ false) × (after ≡ (id, session) ∷ before)
Drawn session before (err e) after = after ≡ before

store_if-Drawn :
    (b : Bool) (id : Bytes) (session : Session) (s : Service) (again : B Bytes)
    → is_free id (find_session id s.sessions) ≡ b
    → Drawn session s.sessions (again s).0 (again s).1.sessions
    → Drawn session s.sessions
        (store_if b id session s.sessions again s).0
        (store_if b id session s.sessions again s).1.sessions
unfolding Drawn
store_if-Drawn true id session s again free h =
    let (absent, nonempty) = is_free-eq-true id _ free in (absent, nonempty, refl)
store_if-Drawn false id session s again free h = h

-- No identifier stands twice.
abbrev pub IsUnique : List (Bytes × Session) → Type 0
IsUnique [] = Unit
IsUnique ((key, session) ∷ rest) = (find_session key rest ≡ none) × IsUnique rest

module _ (sys : System) where
  allocate_session-Drawn :
      (attempts : ℕ) (session : Session) (s : Service)
      → Drawn session s.sessions
          (allocate_session sys attempts session s).0
          (allocate_session sys attempts session s).1.sessions
  unfolding allocate_session Drawn
  allocate_session-Drawn zero session s = refl
  allocate_session-Drawn (suc attempts) session s =
      store_if-Drawn _ _ session (random_id sys 24 s).1 (allocate_session sys attempts session) refl
        (allocate_session-Drawn attempts session (random_id sys 24 s).1)

  -- What `PutSession` has done when it returns an identifier: the session had a challenge, a
  -- relying party and an origin; the live sessions were below both limits; it is stored, dated two
  -- minutes ahead, under an identifier that no live session has.
  pub record IsPlaced (session : Session) (s : Service) (id : Bytes) (after : Service)
      : Type 0 where
    pub challenged : is_empty session.challenge ≡ false
    pub relying : is_empty session.rp_id ≡ false
    pub from_origin : is_empty session.origin ≡ false
    pub room : length (live_sessions s.world.now s.sessions) < maximum_sessions
    pub caller_room :
        count_caller sys session.caller_sid (live_sessions s.world.now s.sessions)
        < maximum_sessions_per_caller
    pub named : is_empty id ≡ false
    pub fresh : find_session id (live_sessions s.world.now s.sessions) ≡ none
    pub stored :
        after.sessions
        ≡ (id, record session { expires_at = s.world.now + session_lifetime })
          ∷ live_sessions s.world.now s.sessions

  given_of : (a b c : Bool) → not (a || b || c) ≡ true → (a ≡ false) × (b ≡ false) × (c ≡ false)
  given_of a b c h = (ground arith, ground arith, ground arith)

  room_of :
      (n m : ℕ)
      → not (leb maximum_sessions n || leb maximum_sessions_per_caller m) ≡ true
      → (n < maximum_sessions) × (m < maximum_sessions_per_caller)
  room_of n m h = (ground arith, ground arith)

  -- `PutSession` returns an identifier only for a session with a challenge, a relying party and an
  -- origin, and only with fewer than 256 live sessions of which fewer than 32 are the caller's; the
  -- session is then stored, dated 120 seconds ahead, in front of the live ones, under an identifier
  -- that is not empty and that none of them has.
  pub put_session-IsPlaced :
      (session : Session) (s : Service) (id : Bytes) (after : Service)
      → put_session sys session s ≡ (ok id, after)
      → IsPlaced session s id after
  unfolding put_session Drawn
  put_session-IsPlaced session s id after h =
      let live = live_sessions s.world.now s.sessions in
      let dated = record session { expires_at = s.world.now + session_lifetime } in
      let (given, h₁) =
        >>-eq-ok
          (not (is_empty session.challenge || is_empty session.rp_id || is_empty session.origin)) _
          _ h in
      let (free, h₂) =
        >>-eq-ok
          (not (
            leb maximum_sessions (length live)
            || leb maximum_sessions_per_caller (count_caller sys session.caller_sid live)))
          _ _ h₁ in
      let (fresh, named, stored) =
        subst (λ r. Drawn dated live r.0 r.1.sessions) h₂
          (allocate_session-Drawn 4 dated (record s { sessions = live })) in
      record {
        challenged =
            (given_of (is_empty session.challenge) (is_empty session.rp_id)
              (is_empty session.origin) given).0;
        relying =
            (given_of (is_empty session.challenge) (is_empty session.rp_id)
              (is_empty session.origin) given).1;
        from_origin =
            (given_of (is_empty session.challenge) (is_empty session.rp_id)
              (is_empty session.origin) given).2;
        room = (room_of _ _ free).0;
        caller_room = (room_of _ _ free).1;
        named = named;
        fresh = fresh;
        stored = stored;
      }

  Drawn-cases :
      (session : Session) (before after : List (Bytes × Session)) (r : Reply Bytes)
      → Drawn session before r after
      → (after ≡ before)
        ⊎ ((id : Bytes) × (find_session id before ≡ none) × (after ≡ (id, session) ∷ before))
  unfolding Drawn
  Drawn-cases session before after (ok id) (fresh, named, e) = inr (id, fresh, e)
  Drawn-cases session before after (err _) e = inl e

  -- What `PutSession` leaves, whatever it answers.
  pub sessions-put_session :
      (session : Session) (s : Service)
      → let live = live_sessions s.world.now s.sessions in
        let after = (put_session sys session s).1.sessions in
        (after ≡ s.sessions)
        ⊎ (after ≡ live)
        ⊎ ((id : Bytes) × (find_session id live ≡ none)
            × (length live < maximum_sessions)
            × (count_caller sys session.caller_sid live < maximum_sessions_per_caller)
            × (after ≡ (id, record session { expires_at = s.world.now + session_lifetime }) ∷ live))
  unfolding put_session
  sessions-put_session session s =
      let live = live_sessions s.world.now s.sessions in
      let dated = record session { expires_at = s.world.now + session_lifetime } in
      let given =
        not (is_empty session.challenge || is_empty session.rp_id || is_empty session.origin) in
      let free = not (
        leb maximum_sessions (length live)
        || leb maximum_sessions_per_caller (count_caller sys session.caller_sid live)) in
      elim (require-cases given _ _ s) [
        | inl e ↦ inl (ap (λ r. r.1.sessions) e)
        | inr (_, e) ↦ elim (require-cases free _ _ (record s { sessions = live })) [
          | inl e' ↦ inr (inl (ap (λ r. r.1.sessions) (e ∙ e')))
          | inr (room, e') ↦
              elim (Drawn-cases dated live _ _
                (allocate_session-Drawn 4 dated (record s { sessions = live }))) [
                  | inl kept ↦ inr (inl (ap (λ r. r.1.sessions) (e ∙ e') ∙ kept))
                  | inr (id, fresh, added) ↦ inr (
                      inr (
                        id,
                        fresh,
                        (room_of _ _ room).0,
                        (room_of _ _ room).1,
                        ap (λ r. r.1.sessions) (e ∙ e') ∙ added,
                      ))
                ]
        ]
      ]

  -- At most 256 sessions, at most 32 of any caller, and every identifier once.
  pub record IsBounded (l : List (Bytes × Session)) : Type 0 where
    pub total : length l ≤ maximum_sessions
    pub each : (sid : Wide) → count_caller sys sid l ≤ maximum_sessions_per_caller
    pub unique : IsUnique l
