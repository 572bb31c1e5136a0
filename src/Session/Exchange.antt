-- ===== src/Session/Exchange.antt =====
-- What one command does to a session, on streams of the grammar and connections that take all that
-- is written: for each kind of command, which backend gets it and whose reply the client gets.
use redis_sentinel_proxy.Base.{
  Bool, true, false, ◌&&◌, List, ◌⊎◌, Bytes, if◌then◌else◌, ◌≡◌, ap, ◌∙◌, arith,
}
use redis_sentinel_proxy.Io.{IsOpen}
use redis_sentinel_proxy.Resp.{Command}
use redis_sentinel_proxy.Resp.Commands.{name_of}
use redis_sentinel_proxy.Router.{Direction, read, write as to_master, contains, get_direction}
use redis_sentinel_proxy.Session.{
  Session, Outcome, is_read, reads_from_replica, continue, done, and_then, state_commands,
  pin_commands, send_master, send_replica, relay_master, relay_replica, if_replica, discard_replica,
  state_command, count64, is_empty, forward, route, serve, or_fail,
}
use redis_sentinel_proxy.Session.Relay.{
  with_sent, read_up_to, Request, Answer, IsPlain, serve-Request, route-IsPlain, send_master_open,
  send_replica_open, relay_master-Answer, relay_replica-Answer, discard_replica-Answer,
}

on_replica :
    (act : Session → Outcome) (s : Session) → s.has_replica ≡ true → if_replica act s ≡ act s
on_replica act s has = ap (λ b. if b then act s else done s) has

and_true : {a b : Bool} → a ≡ true → b ≡ true → (a && b) ≡ true
and_true h k = rw (h, k)

not_read :
    (has : Bool) (d : Direction) → (d ≡ to_master) ⊎ (has ≡ false) → (has && is_read d) ≡ false
not_read has d h = ground arith

module _ (unicode : Bytes → Bytes) where
  forward_on :
      (c : Command) (s : Session) {b : Bool}
      → reads_from_replica unicode s c.name ≡ b
      → forward unicode c s ≡ (
          if b
          then and_then (send_replica c.raw (record s { reads = count64 s.reads })) relay_replica
          else and_then (send_master c.raw (record s { writes = count64 s.writes })) relay_master)
  unfolding forward
  forward_on c s e =
      ap
        (λ b.
          if b
          then and_then (send_replica c.raw (record s { reads = count64 s.reads })) relay_replica
          else and_then (send_master c.raw (record s { writes = count64 s.writes })) relay_master)
        e

  pub state_on :
      (c : Command) (s : Session)
      → is_empty c.name ≡ false
      → contains c.name pin_commands ≡ false
      → contains c.name state_commands ≡ true
      → route unicode c s ≡ or_fail (state_command c.raw s)
  unfolding route
  state_on c s e p h = rw (e, p, h)

  exchange_replica :
      (raw reply u : Bytes) (s : Session)
      → IsOpen s.client.sink
      → IsOpen s.replica.sink
      → Answer s.replica reply u
      → and_then (send_replica raw s) relay_replica
        ≡ done (record s {
          client = with_sent s.client reply;
          replica = with_sent (read_up_to s.replica u) raw;
        })
  exchange_replica raw reply u s hc hr a = rw (send_replica_open raw s hr) (
      relay_replica-Answer (record s { replica = with_sent s.replica raw }) reply u hc
        (record { value = a.value; splits = a.splits; small = a.small }))

  exchange_master :
      (raw reply u : Bytes) (s : Session)
      → IsOpen s.client.sink
      → IsOpen s.master.sink
      → Answer s.master reply u
      → and_then (send_master raw s) relay_master
        ≡ done (record s {
          client = with_sent s.client reply;
          master = with_sent (read_up_to s.master u) raw;
        })
  exchange_master raw reply u s hc hm a = rw (send_master_open raw s hm) (
      relay_master-Answer (record s { master = with_sent s.master raw }) reply u hc
        (record { value = a.value; splits = a.splits; small = a.small }))

  exchange_both :
      (raw reply u reply' v : Bytes) (s : Session)
      → s.has_replica ≡ true
      → IsOpen s.client.sink
      → IsOpen s.master.sink
      → IsOpen s.replica.sink
      → Answer s.master reply u
      → Answer s.replica reply' v
      → state_command raw s
        ≡ done (record s {
          client = with_sent s.client reply;
          master = with_sent (read_up_to s.master u) raw;
          replica = with_sent (read_up_to s.replica v) raw;
        })
  unfolding state_command
  exchange_both raw reply u reply' v s has hc hm hr a b =
      let s1 = record s { master = with_sent s.master raw } in
      let s2 = record s1 { replica = with_sent s1.replica raw } in
      let s3 = record s2 { client = with_sent s2.client reply; master = read_up_to s2.master u } in
      ap
        (λ o. and_then o (λ x.
          and_then (if_replica (send_replica raw) x)
            (λ y. and_then (relay_master y) (if_replica discard_replica))))
        (send_master_open raw s hm)
      ∙ ap (λ o. and_then o (λ y. and_then (relay_master y) (if_replica discard_replica)))
          (on_replica (send_replica raw) s1 has ∙ send_replica_open raw s1 hr)
      ∙ ap (λ o. and_then o (if_replica discard_replica))
          (relay_master-Answer s2 reply u hc
            (record { value = a.value; splits = a.splits; small = a.small }))
      ∙ on_replica discard_replica s3 has
      ∙ discard_replica-Answer s3 reply' v
          (record { value = b.value; splits = b.splits; small = b.small })

-- `raw` is what the command takes of the client's stream, `reply` what its answer takes of the
-- backend's.
module _ (unicode : Bytes → Bytes) (s : Session) (args : List Bytes) (raw t : Bytes) where
  -- A plain command that is read-only goes to the replica, if there is one, and to no other. Over
  -- connections that take everything, the replica gets its bytes, the client gets the replica's
  -- reply, and the master's connection is left as it was.
  pub serve_read :
      (reply u : Bytes)
      → Request s args raw t
      → IsPlain unicode (name_of unicode args)
      → get_direction unicode (name_of unicode args) ≡ read
      → s.has_replica ≡ true
      → IsOpen s.client.sink
      → IsOpen s.replica.sink
      → Answer s.replica reply u
      → serve unicode s
        ≡ continue (record s {
          client = with_sent (read_up_to s.client t) reply;
          replica = with_sent (read_up_to s.replica u) raw;
          reads = count64 s.reads;
        })
  serve_read reply u q p d has hc hr a =
      serve-Request unicode s args raw t q
      ∙ route-IsPlain unicode _ _ p
      ∙ ap or_fail (
          forward_on unicode _ (record s { client = read_up_to s.client t })
            (and_true has (ap is_read d))
          ∙ exchange_replica unicode raw reply u
              (record s { client = read_up_to s.client t; reads = count64 s.reads }) hc hr
              (record { value = a.value; splits = a.splits; small = a.small }))

  -- A plain command, whose name is not empty and is that of no pinning and no state command, goes to
  -- the master and to no other if it is not read-only, and so does every plain command if there is no
  -- replica. Over connections that take everything, the client gets the master's reply, and the
  -- replica's connection is left as it was.
  pub serve_write :
      (reply u : Bytes)
      → Request s args raw t
      → IsPlain unicode (name_of unicode args)
      → (get_direction unicode (name_of unicode args) ≡ to_master) ⊎ (s.has_replica ≡ false)
      → IsOpen s.client.sink
      → IsOpen s.master.sink
      → Answer s.master reply u
      → serve unicode s
        ≡ continue (record s {
          client = with_sent (read_up_to s.client t) reply;
          master = with_sent (read_up_to s.master u) raw;
          writes = count64 s.writes;
        })
  serve_write reply u q p d hc hm a =
      serve-Request unicode s args raw t q
      ∙ route-IsPlain unicode _ _ p
      ∙ ap or_fail (
          forward_on unicode _ (record s { client = read_up_to s.client t })
            (not_read s.has_replica _ d)
          ∙ exchange_master unicode raw reply u
              (record s { client = read_up_to s.client t; writes = count64 s.writes }) hc hm
              (record { value = a.value; splits = a.splits; small = a.small }))

  -- With a replica, a command that changes the connection's state goes to both backends: over
  -- connections that take everything, the client gets the master's reply, and the replica's reply is
  -- taken off its stream and dropped.
  pub serve_state :
      (reply u reply' v : Bytes)
      → Request s args raw t
      → is_empty (name_of unicode args) ≡ false
      → contains (name_of unicode args) pin_commands ≡ false
      → contains (name_of unicode args) state_commands ≡ true
      → s.has_replica ≡ true
      → IsOpen s.client.sink
      → IsOpen s.master.sink
      → IsOpen s.replica.sink
      → Answer s.master reply u
      → Answer s.replica reply' v
      → serve unicode s
        ≡ continue (record s {
          client = with_sent (read_up_to s.client t) reply;
          master = with_sent (read_up_to s.master u) raw;
          replica = with_sent (read_up_to s.replica v) raw;
        })
  serve_state reply u reply' v q e p h has hc hm hr a b =
      serve-Request unicode s args raw t q
      ∙ state_on unicode _ _ e p h
      ∙ ap or_fail (
          exchange_both unicode raw reply u reply' v (record s { client = read_up_to s.client t })
            has hc hm hr (record { value = a.value; splits = a.splits; small = a.small })
            (record { value = b.value; splits = b.splits; small = b.small }))
