-- ===== src/BrokerClient/FailClosed.antt =====
-- What a call that succeeds has met.
use Prim.Native.String.{String}
use windows_fido_logon.Base.{
  ℕ, ◌≡◌, ◌≢◌, ◌≤◌, refl, ap, subst, ◌∙◌, Bool, true, false, not, ◌&&◌, ◌==◌, Option, none, some,
  List, Bytes, codes, length, ltb, le_of_not-ltb, if_elim, arith,
}
use windows_fido_logon.LocalFidoTypes.{max_broker_message_bytes}
use windows_fido_logon.External.Json.{JsonLibrary}
use windows_fido_logon.BrokerClient.{
  ClientError, Called, ok, err, thrown, ◌>>=◌, Read, message, no_message, Pipe, or_error, rejection,
  verdict, answered, send, envelope, call, runs_as_system, trusted_process, is_trusted_pipe_server,
}

pub >>=-eq-ok {ℓ κ} :
    {A : Type ℓ} {C : Type κ} (first : Called A) (next : A → Called C) {c : C}
    → (first >>= next) ≡ ok c
    → (a : A) × (first ≡ ok a) × (next a ≡ ok c)
>>=-eq-ok thrown next h = absurd (cc)
>>=-eq-ok (err e) next h = absurd (cc)
>>=-eq-ok (ok a) next h = (a, refl, h)

ok-injective {ℓ} : {A : Type ℓ} {a b : A} → ok a ≡ ok b → a ≡ b
ok-injective h = cc

pub or_error-eq-ok {ℓ} :
    {A : Type ℓ} (e : ClientError) (o : Option A) {a : A} → or_error e o ≡ ok a → o ≡ some a
or_error-eq-ok e none h = absurd (cc)
or_error-eq-ok e (some a) h = ap some (ok-injective h)

-- The server of a pipe, as Windows tells it: a process whose token can be read, with the SID of LocalSystem.
pub record IsSystemServer (pipe : Pipe) : Type 0 where
  pub process : ℕ
  pub known : pipe.server_process ≡ some process
  pub some_process : process ≢ 0
  pub opened : pipe.opens_process process ≡ true
  pub token : pipe.opens_token process ≡ true
  pub sized : pipe.token_size process ≢ 0
  pub sid : Bytes
  pub user : pipe.token_user process ≡ some sid
  pub system : pipe.is_local_system sid ≡ true

runs_as_system-user :
    (pipe : Pipe) (user : Option Bytes)
    → runs_as_system pipe user ≡ true
    → (sid : Bytes) × (user ≡ some sid) × (pipe.is_local_system sid ≡ true)
runs_as_system-user pipe none h = absurd (cc)
runs_as_system-user pipe (some sid) h = (sid, refl, h)

trusted_process-IsSystemServer :
    (pipe : Pipe) (server : Option ℕ)
    → pipe.server_process ≡ server
    → trusted_process pipe server ≡ true
    → IsSystemServer pipe
trusted_process-IsSystemServer pipe none known h = absurd (cc)
trusted_process-IsSystemServer pipe (some process) known h =
    let P : Bool → Type 0 = λ trusted. trusted ≡ true → IsSystemServer pipe in
    (if_elim P (process == 0) (λ _ h. absurd (cc))
        (λ some_process.
          if_elim P (not (pipe.opens_process process)) (λ _ h. absurd (cc))
            (λ opened.
              if_elim P (not (pipe.opens_token process)) (λ _ h. absurd (cc))
                (λ token h.
                  let (sid, user, system) =
                    runs_as_system-user pipe (pipe.token_user process) (both_of _ _ h).1 in
                  record {
                    process = process;
                    known = known;
                    some_process = nonzero process some_process;
                    opened = opened_of _ opened;
                    token = opened_of _ token;
                    sized = nonzero (pipe.token_size process) (opened_not _ (both_of _ _ h).0);
                    sid = sid;
                    user = user;
                    system = system;
                  }))))
      h
  where
    both_of : (a b : Bool) → (a && b) ≡ true → (a ≡ true) × (b ≡ true)
    both_of a b h = (ground arith, ground arith)

    opened_of : (b : Bool) → not b ≡ false → b ≡ true
    opened_of b h = ground arith

    opened_not : (b : Bool) → not b ≡ true → b ≡ false
    opened_not b h = ground arith

    nonzero : (n : ℕ) → (n == 0) ≡ false → n ≢ 0
    nonzero n h e = ground arith

module _ (json : JsonLibrary) where
  open json use {Json, parse, dump, member, value_bool, value_string}

  -- A request that the broker has accepted: the server of the pipe runs as LocalSystem, the request has at most
  -- 64 KiB and was written as a whole, and the reply to it parses and says `ok`.
  pub record IsAccepted (pipe : Pipe) (members : List (String × Json)) (response : Json)
      : Type 0 where
    pub server : IsSystemServer pipe
    pub serialized : Bytes
    pub dumped : dump (envelope json members) ≡ some serialized
    pub fits : length serialized ≤ max_broker_message_bytes
    pub written : pipe.writes serialized ≡ true
    pub reply : Bytes
    pub read : pipe.reads serialized ≡ message reply
    pub parsed : parse reply ≡ some response
    pub positive : value_bool response "ok" false ≡ some true

  rejection-refused : (text : Option Bytes) (r : Json) → rejection json text ≢ ok r
  rejection-refused none r h = absurd (cc)
  rejection-refused (some text) r h = absurd (cc)

  verdict-ok :
      (response : Json) (said : Option Bool) (r : Json)
      → verdict json response said ≡ ok r
      → (said ≡ some true) × (response ≡ r)
  verdict-ok response (some true) r h = (refl, ok-injective h)
  verdict-ok response none r h = absurd (cc)
  verdict-ok response (some false) r h =
      absurd (
        rejection-refused (value_string response "error" (codes "Broker rejected the request.")) r
          h)

  answered-ok :
      (read : Read) (r : Json)
      → answered json read ≡ ok r
      → (reply : Bytes) × (read ≡ message reply)
        × (parse reply ≡ some r)
        × (value_bool r "ok" false ≡ some true)
  answered-ok (no_message timeout) r h = absurd (cc)
  answered-ok (message reply) r h =
      let (response, parses, h₁) =
        >>=-eq-ok (or_error ClientError.invalid_data (parse reply)) _ h in
      let (said, same) = verdict-ok response (value_bool response "ok" false) r h₁ in
      (
        reply,
        refl,
        or_error-eq-ok _ (parse reply) parses ∙ ap some same,
        subst (λ (j : Json). value_bool j "ok" false ≡ some true) same said,
      )

  send-ok :
      (pipe : Pipe) (serialized : Bytes) (r : Json)
      → send json pipe serialized ≡ ok r
      → (length serialized ≤ max_broker_message_bytes)
        × (pipe.writes serialized ≡ true)
        × (answered json (pipe.reads serialized) ≡ ok r)
  send-ok pipe serialized r =
      if_elim
        (λ (sent : Called Json).
          sent ≡ ok r
          → (length serialized ≤ max_broker_message_bytes)
            × (pipe.writes serialized ≡ true)
            × (answered json (pipe.reads serialized) ≡ ok r))
        (ltb max_broker_message_bytes (length serialized)) (λ _ h. absurd (cc))
        (λ fits.
          if_elim
            (λ (sent : Called Json).
              sent ≡ ok r
              → (length serialized ≤ max_broker_message_bytes)
                × (pipe.writes serialized ≡ true)
                × (answered json (pipe.reads serialized) ≡ ok r))
            (not (pipe.writes serialized)) (λ _ h. absurd (cc))
            (λ written h. (le_of_not-ltb _ _ (ap not fits), ground arith, h)))

true_of : (b : Bool) → not b ≡ false → b ≡ true
true_of b h = ground arith

-- `Call` fails closed: it returns true only where the pipe's server is a process whose token can be read
-- and has the SID of LocalSystem, the request with its
-- version has at most 64 KiB and was written as a whole, and the reply to it parses and says `ok`.
pub call-IsAccepted :
    (json : JsonLibrary) (pipe : Pipe) (members : List (String × json.Json)) (response : json.Json)
    → call json pipe members ≡ ok response
    → IsAccepted json pipe members response
unfolding call
call-IsAccepted json pipe members response =
    let P : Called json.Json → Type 0 =
      λ c. c ≡ ok response → IsAccepted json pipe members response in
    if_elim P (not pipe.waits) (λ _ h. absurd (cc))
      (λ _.
        if_elim P (not pipe.opens) (λ _ h. absurd (cc))
          (λ _.
            if_elim P (not (is_trusted_pipe_server pipe)) (λ _ h. absurd (cc))
              (λ trusted h.
                let (serialized, dumps, h₁) =
                  >>=-eq-ok
                    (or_error ClientError.unserializable (json.dump (envelope json members)))
                    (send json pipe) h in
                let (fits, written, h₂) = send-ok json pipe serialized response h₁ in
                let (reply, read, parsed, positive) =
                  answered-ok json (pipe.reads serialized) response h₂ in
                record {
                  server =
                      trusted_process-IsSystemServer pipe pipe.server_process refl
                        (true_of _ trusted);
                  serialized = serialized;
                  dumped = or_error-eq-ok _ _ dumps;
                  fits = fits;
                  written = written;
                  reply = reply;
                  read = read;
                  parsed = parsed;
                  positive = positive;
                })))
