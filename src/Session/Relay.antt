-- ===== src/Session/Relay.antt =====
-- A command and its reply, end to end: what a session does on streams of the grammar.
use mathlib.Core.List.{append_cancel_right}
use redis_sentinel_proxy.Base.{
  ◌^◌, ◌<◌, false, List, ◌++◌, none, Bytes, length, ◌≡◌, refl, sym, ap, ◌∙◌,
}
use redis_sentinel_proxy.Io.{IsOpen, append_to, discard}
use redis_sentinel_proxy.Io.Transfer.{write_open}
use redis_sentinel_proxy.Resp.{Command}
use redis_sentinel_proxy.Resp.Commands.{IsCommand, name_of, read_command_exact}
use redis_sentinel_proxy.Reply.{copy_resp}
use redis_sentinel_proxy.Reply.Grammar.{Value}
use redis_sentinel_proxy.Reply.Copying.{copy_resp-Value}
use redis_sentinel_proxy.Router.{contains}
use redis_sentinel_proxy.Session.{
  Conn, Session, done, state_commands, pin_commands, send_master, send_replica, relay_master,
  relay_replica, discard_replica, is_empty, forward, route, on_command, serve, or_fail,
}

-- A connection on which `b` was sent, and one whose stream was read up to `t`.
abbrev pub with_sent : Conn → Bytes → Conn
with_sent c b = record c { sink = append_to c.sink b }

abbrev pub read_up_to : Conn → Bytes → Conn
read_up_to c t = record c { reader = record { unread = t; fin = c.reader.fin } }

-- The client's stream begins with a command of these arguments and bytes.
pub record Request (s : Session) (args : List Bytes) (raw t : Bytes) : Type 0 where
  pub wanted : IsCommand args s.client.reader.unread t
  pub splits : s.client.reader.unread ≡ raw ++ t

-- The backend's stream begins with a reply of these bytes.
pub record Answer (c : Conn) (reply t : Bytes) : Type 0 where
  pub value : Value c.reader.unread t
  pub splits : c.reader.unread ≡ reply ++ t
  pub small : length c.reader.unread < 2 ^ 63

copy_resp-Answer :
    (c : Conn) (reply t : Bytes) (client : Conn)
    → IsOpen client.sink
    → Answer c reply t
    → copy_resp client.sink c.reader ≡ record {
      sink = append_to client.sink reply;
      reader = record { unread = t; fin = c.reader.fin };
      error = none;
    }
copy_resp-Answer c reply t client h a =
    let (bytes, splits, run) =
      copy_resp-Value client.sink c.reader.unread t c.reader.fin h a.value a.small in
    let same : bytes ≡ reply = append_cancel_right bytes reply t (sym splits ∙ a.splits) in
    run
    ∙ ap
        (λ x. record {
          sink = append_to client.sink x;
          reader = record { unread = t; fin = c.reader.fin };
          error = none;
        })
        same

pub send_master_open :
    (raw : Bytes) (s : Session)
    → IsOpen s.master.sink
    → send_master raw s ≡ done (record s { master = with_sent s.master raw })
unfolding send_master
send_master_open raw s h = rw (write_open raw s.master.sink h)

pub send_replica_open :
    (raw : Bytes) (s : Session)
    → IsOpen s.replica.sink
    → send_replica raw s ≡ done (record s { replica = with_sent s.replica raw })
unfolding send_replica
send_replica_open raw s h = rw (write_open raw s.replica.sink h)

pub relay_master-Answer :
    (s : Session) (reply t : Bytes)
    → IsOpen s.client.sink
    → Answer s.master reply t
    → relay_master s
      ≡ done (record s { client = with_sent s.client reply; master = read_up_to s.master t })
unfolding relay_master
relay_master-Answer s reply t h a = rw (copy_resp-Answer s.master reply t s.client h a)

pub relay_replica-Answer :
    (s : Session) (reply t : Bytes)
    → IsOpen s.client.sink
    → Answer s.replica reply t
    → relay_replica s
      ≡ done (record s { client = with_sent s.client reply; replica = read_up_to s.replica t })
unfolding relay_replica
relay_replica-Answer s reply t h a = rw (copy_resp-Answer s.replica reply t s.client h a)

pub discard_replica-Answer :
    (s : Session) (reply t : Bytes)
    → Answer s.replica reply t
    → discard_replica s ≡ done (record s { replica = read_up_to s.replica t })
unfolding discard_replica
discard_replica-Answer s reply t a = rw (
    copy_resp-Answer s.replica reply t (record { sink = discard; reader = s.replica.reader })
      (refl, refl) a)

module _ (unicode : Bytes → Bytes) where
  -- The name is that of no pinning and no state command.
  pub record IsPlain (name : Bytes) : Type 0 where
    pub non_empty : is_empty name ≡ false
    pub not_pin : contains name pin_commands ≡ false
    pub not_state : contains name state_commands ≡ false

  pub serve-Request :
      (s : Session) (args : List Bytes) (raw t : Bytes)
      → Request s args raw t
      → serve unicode s
        ≡ route unicode
            (record { name = name_of unicode args; raw = raw })
            (record s { client = read_up_to s.client t })
  unfolding serve on_command
  serve-Request s args raw t q =
      let (raw', splits, run) =
        read_command_exact unicode args s.client.reader.unread t s.client.reader.fin q.wanted in
      let same : raw' ≡ raw = append_cancel_right raw' raw t (sym splits ∙ q.splits) in
      rw run (
        ap
          (λ x.
            route unicode (record { name = name_of unicode args; raw = x })
              (record s { client = read_up_to s.client t }))
          same)

  pub route-IsPlain :
      (c : Command) (s : Session)
      → IsPlain c.name
      → route unicode c s ≡ or_fail (forward unicode c s)
  unfolding route
  route-IsPlain c s p = rw (p.non_empty, p.not_pin, p.not_state)
