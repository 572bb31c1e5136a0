-- ===== src/Session.antt =====
-- pkg/proxy/routing.go: a routed session, from the first command to the end of the connection.
--
-- A connection is a writer and a reader (Io): the bytes that its peer will send are fixed from the
-- start, and a read takes the next of them. `routedProxy`, which dials the backends, is in Proxy.
pub mod Replica
pub mod Relay
pub mod Exchange
pub mod Pinning
pub mod Run
pub mod Alone
pub mod Talks
pub mod Conversation
pub mod Tests
pub mod ConversationTests
use redis_sentinel_proxy.Base.{
  ℕ, zero, suc, ◌+◌, ◌%◌, ◌^◌, Bool, true, false, ◌&&◌, List, [], ◌∷◌, Option, none, some, map,
  Bytes, bytes_eq, codes, length, if◌then◌else◌,
}
use redis_sentinel_proxy.Io.{
  Reader, Sink, Error, io, other, inline_command, diverged, Result, ok, err, Copied, discard, write,
}
use redis_sentinel_proxy.Resp.{Command, read_command}
use redis_sentinel_proxy.Reply.{copy_resp}
use redis_sentinel_proxy.Router.{Direction, read, write as to_master, contains, get_direction}

unfoldable pub state_commands : List Bytes
state_commands = codes "AUTH" ∷ codes "HELLO" ∷ codes "SELECT" ∷ codes "RESET" ∷ codes "CLIENT" ∷ []

unfoldable pub pin_commands : List Bytes
pin_commands =
    codes "SUBSCRIBE"
    ∷ codes "PSUBSCRIBE"
    ∷ codes "SSUBSCRIBE"
    ∷ codes "UNSUBSCRIBE"
    ∷ codes "PUNSUBSCRIBE"
    ∷ codes "SUNSUBSCRIBE"
    ∷ codes "MULTI"
    ∷ codes "WATCH"
    ∷ codes "MONITOR"
    ∷ []

pub record Conn : Type 0 where
  pub sink : Sink
  pub reader : Reader

-- `has_replica` is `s.replica != nil`; the connection's own state outlives it, so that what was
-- sent on it can be spoken of. The counters are int64.
pub record Session : Type 0 where
  pub client : Conn
  pub master : Conn
  pub replica : Conn
  pub has_replica : Bool
  pub reads : ℕ
  pub writes : ℕ

-- A step of a method that returns an error: the state, and the error if there was one.
pub record Outcome : Type 0 where
  pub session : Session
  pub error : Option Error

abbrev pub done : Session → Outcome
done s = record { session = s; error = none }

-- `if err := …; err != nil { return err }`
abbrev pub and_then : Outcome → (Session → Outcome) → Outcome
and_then o next = elim o.error [ none ↦ next o.session | some e ↦ o ]

abbrev sent : Bool → Session → Outcome
sent true s = done s
sent false s = record { session = s; error = some (io other) }

unfoldable pub send_master : Bytes → Session → Outcome
send_master raw s =
    let (fine, w) = write raw s.master.sink in
    sent fine (record s { master = record { sink = w; reader = s.master.reader } })

unfoldable pub send_replica : Bytes → Session → Outcome
send_replica raw s =
    let (fine, w) = write raw s.replica.sink in
    sent fine (record s { replica = record { sink = w; reader = s.replica.reader } })

-- `copyRESP(s.client, s.masterR)`
unfoldable pub relay_master : Session → Outcome
relay_master s =
    let c = copy_resp s.client.sink s.master.reader in
    record {
      session = record s {
        client = record { sink = c.sink; reader = s.client.reader };
        master = record { sink = s.master.sink; reader = c.reader };
      };
      error = c.error;
    }

-- `copyRESP(s.client, s.replicaR)`
unfoldable pub relay_replica : Session → Outcome
relay_replica s =
    let c = copy_resp s.client.sink s.replica.reader in
    record {
      session = record s {
        client = record { sink = c.sink; reader = s.client.reader };
        replica = record { sink = s.replica.sink; reader = c.reader };
      };
      error = c.error;
    }

-- `copyRESP(io.Discard, s.replicaR)`
unfoldable pub discard_replica : Session → Outcome
discard_replica s =
    let c = copy_resp discard s.replica.reader in
    record {
      session = record s { replica = record { sink = s.replica.sink; reader = c.reader } };
      error = c.error;
    }

-- `if s.replica != nil { … }`
abbrev pub if_replica : (Session → Outcome) → Session → Outcome
if_replica act s = if s.has_replica then act s else done s

unfoldable pub state_command : Bytes → Session → Outcome
state_command raw s = and_then (send_master raw s) (λ s1.
    and_then (if_replica (send_replica raw) s1)
      (λ s2. and_then (relay_master s2) (if_replica discard_replica)))

abbrev is_read : Direction → Bool
is_read read = true
is_read to_master = false

abbrev count64 : ℕ → ℕ
count64 n = (n + 1) % 2 ^ 64

-- `io.Copy(w, r)` up to the end of `r`, then `CloseWrite` or `Close`.
unfoldable pub pipe : Sink → Reader → Sink × Reader
pipe w r = let (_, w') = write r.unread w in (record w' { shut = true }, record r { unread = [] })

-- The two pipes of `pin`: they share no connection's direction, so their order does not matter.
unfoldable pub pipe_both : Session → Session
pipe_both s =
    let (to_client, master_r) = pipe s.client.sink s.master.reader in
    let (to_server, client_r) = pipe s.master.sink s.client.reader in
    record s {
      client = record { sink = to_client; reader = client_r };
      master = record { sink = to_server; reader = master_r };
    }

pub close_replica : Session → Session
close_replica s =
    if s.has_replica
    then record s {
      replica = record {
        sink = record (s.replica.sink) { shut = true };
        reader = s.replica.reader;
      };
      has_replica = false;
    }
    else s

pub forward_first : Option Bytes → Session → Outcome
forward_first none s = done s
forward_first (some raw) s = send_master raw s

unfoldable pub pin : Option Bytes → Session → Session
unfolding close_replica forward_first send_master pipe_both pipe
pin raw s =
    let o = forward_first raw (close_replica s) in
    elim o.error [ none ↦ pipe_both o.session | some _ ↦ o.session ]

-- How `run` returned: the client's stream ended or was malformed, a command could not be forwarded
-- or its reply not relayed, or the session was pinned.
pub data Ending : Type 0 where
  client_ended backend_failed : Error → Ending
  pinned out_of_fuel : Ending

pub data Next : Type 0 where
  continue : Session → Next
  stop : Session → Ending → Next

abbrev pub or_fail : Outcome → Next
or_fail o = elim o.error [ none ↦ continue o.session | some e ↦ stop o.session (backend_failed e) ]

abbrev is_empty : Bytes → Bool
is_empty [] = true
is_empty (_ ∷ _) = false

module _ (unicode : Bytes → Bytes) where
  abbrev pub reads_from_replica : Session → Bytes → Bool
  reads_from_replica s name = s.has_replica && is_read (get_direction unicode name)

  -- A command for one backend: write it there, relay the reply.
  unfoldable pub forward : Command → Session → Outcome
  forward c s =
      if reads_from_replica s c.name
      then and_then (send_replica c.raw (record s { reads = count64 s.reads })) relay_replica
      else and_then (send_master c.raw (record s { writes = count64 s.writes })) relay_master

  -- The body of the loop of `run`, after `readCommand` returned a command.
  unfoldable pub route : Command → Session → Next
  route c s =
      if is_empty c.name
      then continue s
      else if contains c.name pin_commands
      then stop (pin (some c.raw) s) pinned
      else if contains c.name state_commands
      then or_fail (state_command c.raw s)
      else or_fail (forward c s)

  -- What `run` does with the result of `readCommand`.
  unfoldable pub on_command : Result (Command × Reader) → Session → Next
  on_command (ok (c, r)) s =
      route c (record s { client = record { sink = s.client.sink; reader = r } })
  on_command (err inline_command) s = stop (pin none s) pinned
  on_command (err e) s = stop s (client_ended e)

  unfoldable pub serve : Session → Next
  serve s = on_command (read_command unicode s.client.reader) s

  unfoldable pub run_loop : ℕ → Session → Session × Ending
  run_loop zero s = (s, out_of_fuel)
  run_loop (suc fuel) s = elim (serve s) [ stop s' e ↦ (s', e) | continue s' ↦ run_loop fuel s' ]

  -- A command takes a byte at least from the client's stream.
  unfoldable pub run : Session → Session × Ending
  unfolding run_loop serve on_command route forward state_command read_command send_master
      send_replica relay_master relay_replica discard_replica pin copy_resp contains bytes_eq
      pin_commands state_commands get_direction write
  run s = run_loop (suc (length s.client.reader.unread)) s
