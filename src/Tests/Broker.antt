-- ===== src/Tests/Broker.antt =====
-- Runs of BrokerService/BrokerService.cpp.
use windows_fido_logon.Base.{
  ◌≡◌, ◌≢◌, refl, ap, sym, false, none, [], Bytes, bytes_eq, eq_of_bytes_eq, traverse,
}
use windows_fido_logon.Convert.{
  base64url_decode, base64url_encode, base64_encode, from_url, from_url_char, decode_base64_strict,
  padding_ok, decode_loop, finish_decode, trailing_bits_clear, padding_from_back, base64_value,
  base64_char, to_url_char,
}
use windows_fido_logon.BrokerService.State.{Service, ok, err, SessionKind, unknown_session}
use windows_fido_logon.BrokerService.Sessions.{
  find_session, erase_session, live_sessions, count_caller, put_session, take_session,
  allocate_session,
}
use windows_fido_logon.BrokerService.Sessions.Replay.{
  IsTaken, take_session-IsTaken, find_session-take_session, take_session-take_session,
}
use windows_fido_logon.BrokerService.Sessions.Bounds.{IsPlaced, put_session-IsPlaced, IsBounded}
use windows_fido_logon.BrokerService.Sessions.Invariant.{
  AreAlike, started, put, IsReachable-IsBounded,
}
use windows_fido_logon.Tests.Samples.{system, world, session, session_id, caller, service, repeated}

abbrev after : Service
after = record service { sessions = [] }

taken :
    take_session system session_id caller SessionKind.authentication service ≡ (ok session, after)
unfolding take_session find_session erase_session bytes_eq
taken = refl

take_session-IsTaken_example :
    IsTaken system session_id caller SessionKind.authentication service session after
take_session-IsTaken_example =
    take_session-IsTaken system session_id caller SessionKind.authentication service session after
      taken

find_session-take_session_example :
    let s = take_session system session_id caller SessionKind.authentication service in
    (find_session session_id s.1.sessions ≡ none)
    × ((other : Bytes)
        → session_id ≢ other
        → find_session other s.1.sessions ≡ find_session other service.sessions)
find_session-take_session_example =
    find_session-take_session system session_id caller SessionKind.authentication service refl

take_session-take_session_example :
    let s = take_session system session_id caller SessionKind.registration service in
    take_session system session_id caller SessionKind.authentication s.1
    ≡ (err unknown_session, s.1)
take_session-take_session_example =
    take_session-take_session system session_id caller caller SessionKind.registration
      SessionKind.authentication service refl

abbrev drawn : Bytes
drawn = base64url_encode false (repeated 24 0)

placed : (put_session system session service).0 ≡ ok drawn
unfolding put_session allocate_session live_sessions count_caller find_session base64url_decode
    base64url_encode from_url traverse from_url_char decode_base64_strict padding_ok decode_loop
    finish_decode trailing_bits_clear padding_from_back base64_value base64_char base64_encode
    to_url_char bytes_eq
placed = refl

put_session-IsPlaced_example :
    IsPlaced system session service drawn (put_session system session service).1
put_session-IsPlaced_example =
    put_session-IsPlaced system session service drawn (put_session system session service).1
      (ap (λ r. (r, (put_session system session service).1)) placed)

alike : AreAlike system
alike a b c h = ap (λ t. bytes_eq c t) (sym (eq_of_bytes_eq a b h))

IsReachable-IsBounded_example :
    IsBounded system
      (put_session system session (record { world = world; sessions = [] })).1.sessions
IsReachable-IsBounded_example =
    IsReachable-IsBounded system alike
      (put_session system session (record { world = world; sessions = [] })).1
      (put session (record { world = world; sessions = [] }) (started world))
