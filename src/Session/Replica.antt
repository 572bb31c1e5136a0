-- ===== src/Session/Replica.antt =====
-- What may reach a replica, over every run of a session: whatever the streams hold, and whichever
-- connections fail, and whenever.
mod Steps
use redis_sentinel_proxy.Base.{
  ℕ, zero, suc, Bool, true, false, ◌&&◌, Bool-cases, Option-cases, ◌⊎◌, inl, inr, List, [], ◌∷◌,
  ◌++◌, Option, none, some, Bytes, length, take, drop, take-append-drop, append-nil, append_assoc,
  if◌then◌else◌, ◌≡◌, refl, sym, ap, ◌∙◌, subst, arith,
}
use redis_sentinel_proxy.Io.{Reader, Sink, Error, Result, ok, err, inline_command, write}
use redis_sentinel_proxy.Io.Transfer.{Prefix, write-Prefix, write_whole}
use redis_sentinel_proxy.Resp.{Command, read_command}
use redis_sentinel_proxy.Router.{Direction, read, contains, get_direction}
use redis_sentinel_proxy.Session.{
  Conn, Session, Outcome, Next, Ending, continue, stop, pinned, backend_failed, client_ended,
  out_of_fuel, done, and_then, state_commands, pin_commands, send_master, send_replica,
  relay_master, relay_replica, discard_replica, if_replica, pin, pipe, pipe_both, count64,
  state_command, is_empty, is_read, reads_from_replica, forward, route, on_command, serve, or_fail,
  run_loop, run,
}
use redis_sentinel_proxy.Session.Replica.Steps.{
  on_replica, Adds, Keeps, AddsIf, send_replica-Adds, send_master-Keeps, relay_master-Keeps,
  relay_replica-Keeps, and_then-Keeps, and_then-Adds, state_command-Adds, state_command-Keeps,
  pin-on_replica, read_direction,
}

module _ (unicode : Bytes → Bytes) where
  -- A command that a replica may get: one that reads only, or one that changes the state of the
  -- connection. It was read off a client's stream.
  pub record MayReach (c : Command) : Type 0 where
    pub source : Reader
    pub behind : Reader
    pub was_read : read_command unicode source ≡ ok (c, behind)
    pub allowed : (get_direction unicode c.name ≡ read) ⊎ (contains c.name state_commands ≡ true)

  -- The bytes sent grow from `a` to `b` by whole commands that may reach a replica, the last one cut
  -- short perhaps.
  pub data Log : Bytes → Bytes → Type 0 where
    nothing : {a b : Bytes} → b ≡ a → Log a b
    whole : {a b : Bytes} (c : Command) → MayReach c → Log (a ++ c.raw) b → Log a b
    cut : {a b : Bytes} (c : Command) → MayReach c → Prefix c.raw a b → Log a b

  -- A step after which the session goes on sends one of them whole, or nothing.
  pub data Grew : Bytes → Bytes → Type 0 where
    same : {a b : Bytes} → b ≡ a → Grew a b
    one : {a b : Bytes} (c : Command) → MayReach c → b ≡ a ++ c.raw → Grew a b

module _ (unicode : Bytes → Bytes) where
  forward-AddsIf :
      (c : Command) (s : Session)
      → AddsIf (reads_from_replica unicode s c.name) c.raw s (forward unicode c s)
  unfolding forward
  forward-AddsIf c s = elim (Bool-cases (reads_from_replica unicode s c.name)) [
    | inl r ↦ simp r (
        and_then-Adds c.raw s _ relay_replica
          (send_replica-Adds c.raw (record s { reads = count64 s.reads })) relay_replica-Keeps)
    | inr m ↦ simp m (
        and_then-Keeps s _ relay_master
          (send_master-Keeps c.raw (record s { writes = count64 s.writes })) relay_master-Keeps)
  ]

  -- What the replica got by the end of a step.
  abbrev Logged : Bytes → Next → Type 0
  Logged a (continue s) = Grew unicode a (on_replica s)
  Logged a (stop s _) = Log unicode a (on_replica s)

  or_fail-Logged :
      (b : Bool) (c : Command) (s : Session) (o : Outcome)
      → (b ≡ true → MayReach unicode c)
      → AddsIf b c.raw s o
      → Logged (on_replica s) (or_fail o)
  or_fail-Logged true c s o may h = elim (Option-cases o.error) [
    | inl e ↦ rw (e, or_fail) (one c (may refl) (h.0 e))
    | inr (x, e) ↦ rw (e, or_fail) (cut c (may refl) h.1)
  ]
  or_fail-Logged false c s o may h = elim (Option-cases o.error) [
    | inl e ↦ rw (e, or_fail) (same h)
    | inr (x, e) ↦ rw (e, or_fail) (nothing h)
  ]

  state_command-Logged :
      (c : Command) (s : Session)
      → MayReach unicode c
      → Logged (on_replica s) (or_fail (state_command c.raw s))
  state_command-Logged c s may = elim (Bool-cases s.has_replica) [
    | inl has ↦ or_fail-Logged true c s _ (λ _. may) (state_command-Adds c.raw s has)
    | inr has ↦ or_fail-Logged false c s _ (λ _. may) (state_command-Keeps c.raw s has)
  ]

  forward-Logged :
      (c : Command) (s : Session)
      → (get_direction unicode c.name ≡ read → MayReach unicode c)
      → Logged (on_replica s) (or_fail (forward unicode c s))
  forward-Logged c s may =
      or_fail-Logged (reads_from_replica unicode s c.name) c s _
        (λ e. may (read_direction s.has_replica _ e)) (forward-AddsIf c s)

  route-Logged :
      (c : Command) (s : Session) (r r' : Reader)
      → read_command unicode r ≡ ok (c, r')
      → Logged (on_replica s) (route unicode c s)
  unfolding route
  route-Logged c s r r' e = elim (Bool-cases (is_empty c.name)) [
    | inl empty ↦ simp empty (same refl)
    | inr named ↦ elim (Bool-cases (contains c.name pin_commands)) [
      | inl pins ↦ simp (named, pins) (nothing (pin-on_replica (some c.raw) s))
      | inr free ↦ elim (Bool-cases (contains c.name state_commands)) [
        | inl state ↦
            simp (named, free, state)
              (state_command-Logged c s
                (record { source = r; behind = r'; was_read = e; allowed = inr state }))
        | inr plain ↦
            simp (named, free, plain)
              (forward-Logged c s
                (λ d. record { source = r; behind = r'; was_read = e; allowed = inl d }))
      ]
    ]
  ]

  on_command-Logged :
      (o : Result (Command × Reader)) (s : Session)
      → read_command unicode s.client.reader ≡ o
      → Logged (on_replica s) (on_command unicode o s)
  unfolding on_command
  on_command-Logged (ok (c, r)) s e = route-Logged c _ s.client.reader r e
  on_command-Logged (err inline_command) s e = nothing (pin-on_replica none s)
  on_command-Logged (err _) s e = nothing refl

  serve-Logged : (s : Session) → Logged (on_replica s) (serve unicode s)
  unfolding serve
  serve-Logged s = on_command-Logged (read_command unicode s.client.reader) s refl

  Log-after : {a b d : Bytes} → Grew unicode a b → Log unicode b d → Log unicode a d
  Log-after {a} {b} {d} (same e) l = subst (λ x. Log unicode x d) e l
  Log-after {a} {b} {d} (one c m e) l = whole c m (subst (λ x. Log unicode x d) e l)

  Log-after_step :
      (a : Bytes) (fuel : ℕ) (n : Next)
      → Logged a n
      → ((t : Session) → Log unicode (on_replica t) (on_replica (run_loop unicode fuel t).0))
      → Log unicode a (
          on_replica
            (elim n as (λ _. Session × Ending) [
              | stop s' e ↦ (s', e)
              | continue s' ↦ run_loop unicode fuel s'
            ]).0)
  Log-after_step a fuel (stop s' e) l rest = l
  Log-after_step a fuel (continue s') g rest = Log-after g (rest s')

  run_loop-Log :
      (fuel : ℕ) (s : Session) → Log unicode (on_replica s) (on_replica (run_loop unicode fuel s).0)
  unfolding run_loop
  run_loop-Log zero s = nothing refl
  run_loop-Log (suc fuel) s =
      Log-after_step (on_replica s) fuel (serve unicode s) (serve-Logged s) (run_loop-Log fuel)

  -- Over a whole routed session, whatever its streams hold and whichever connections fail, the bytes
  -- that the replica gets are the raw bytes of commands read off a client's stream, in a row and each
  -- of them whole, but for the last, which a failed write may cut short; and each of the commands is
  -- on the list of those that only read, or is one that changes the state of the connection. So no
  -- write command reaches a replica.
  pub run-Log : (s : Session) → Log unicode (on_replica s) (on_replica (run unicode s).0)
  unfolding run
  run-Log s = run_loop-Log (suc (length s.client.reader.unread)) s
