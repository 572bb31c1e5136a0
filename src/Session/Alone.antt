-- ===== src/Session/Alone.antt =====
-- pkg/proxy/routing.go: a command that changes the connection's state when there is no replica.
use redis_sentinel_proxy.Base.{◌≡◌, refl, ap, ◌∙◌, true, false, List, Bytes}
use redis_sentinel_proxy.Io.{IsOpen}
use redis_sentinel_proxy.Resp.Commands.{name_of}
use redis_sentinel_proxy.Router.{contains}
use redis_sentinel_proxy.Session.{
  Session, Outcome, continue, done, and_then, state_commands, pin_commands, send_replica,
  relay_master, discard_replica, if_replica, state_command, is_empty, or_fail, serve,
}
use redis_sentinel_proxy.Session.Relay.{
  with_sent, read_up_to, Request, Answer, serve-Request, send_master_open, relay_master-Answer,
}
use redis_sentinel_proxy.Session.Exchange.{state_on}

no_replica :
    (act : Session → Outcome) (s : Session) → s.has_replica ≡ false → if_replica act s ≡ done s
no_replica act s e = rw e refl

exchange_alone :
    (raw reply u : Bytes) (s : Session)
    → s.has_replica ≡ false
    → IsOpen s.client.sink
    → IsOpen s.master.sink
    → Answer s.master reply u
    → state_command raw s
      ≡ done (record s {
        client = with_sent s.client reply;
        master = with_sent (read_up_to s.master u) raw;
      })
unfolding state_command
exchange_alone raw reply u s none_there hc hm a =
    let s1 = record s { master = with_sent s.master raw } in
    let s2 = record s1 { client = with_sent s1.client reply; master = read_up_to s1.master u } in
    ap
      (λ o. and_then o (λ x.
        and_then (if_replica (send_replica raw) x)
          (λ y. and_then (relay_master y) (if_replica discard_replica))))
      (send_master_open raw s hm)
    ∙ ap (λ o. and_then o (λ y. and_then (relay_master y) (if_replica discard_replica)))
        (no_replica (send_replica raw) s1 none_there)
    ∙ ap (λ o. and_then o (if_replica discard_replica))
        (relay_master-Answer s1 reply u hc
          (record { value = a.value; splits = a.splits; small = a.small }))
    ∙ no_replica discard_replica s2 none_there

-- It goes to the master alone, whose reply the client gets.
pub serve_state_alone :
    (unicode : Bytes → Bytes) (s : Session) (args : List Bytes) (raw t reply u : Bytes)
    → Request s args raw t
    → is_empty (name_of unicode args) ≡ false
    → contains (name_of unicode args) pin_commands ≡ false
    → contains (name_of unicode args) state_commands ≡ true
    → s.has_replica ≡ false
    → IsOpen s.client.sink
    → IsOpen s.master.sink
    → Answer s.master reply u
    → serve unicode s
      ≡ continue (record s {
        client = with_sent (read_up_to s.client t) reply;
        master = with_sent (read_up_to s.master u) raw;
      })
serve_state_alone unicode s args raw t reply u q e p h none_there hc hm a =
    serve-Request unicode s args raw t q
    ∙ state_on unicode _ _ e p h
    ∙ ap or_fail (
        exchange_alone raw reply u (record s { client = read_up_to s.client t }) none_there hc hm
          (record { value = a.value; splits = a.splits; small = a.small }))
