-- ===== src/Session/Talks.antt =====
-- pkg/proxy/routing.go: a whole routed session as a client and its backends see it, command by command.
use redis_sentinel_proxy.Base.{◌≡◌, true, false, ◌⊎◌, List, [], ◌∷◌, ◌++◌, Bytes}
use redis_sentinel_proxy.Resp.Commands.{name_of}
use redis_sentinel_proxy.Router.{read, write as to_master, contains, get_direction}
use redis_sentinel_proxy.Session.{Session, state_commands, pin_commands, is_empty, count64}
use redis_sentinel_proxy.Session.Relay.{with_sent, read_up_to, Request, Answer, IsPlain}

-- A command with its reply: the bytes that each side gets for it.
pub record Turn : Type 0 where
  pub for_client : Bytes
  pub for_master : Bytes
  pub for_replica : Bytes

abbrev pub turn : Bytes → Bytes → Bytes → Turn
turn c m r = record { for_client = c; for_master = m; for_replica = r }

-- What a side gets in all.
unfoldable pub in_all : (Turn → Bytes) → List Turn → Bytes
in_all side [] = []
in_all side (t ∷ ts) = side t ++ in_all side ts

module _ (unicode : Bytes → Bytes) where
  -- The client's stream is a sequence of commands, none of which pins, and the backends' streams begin
  -- with the replies. With a replica, a command that reads only goes to it, one that changes the state of
  -- the connection goes to both and is answered by the master, and any other to the master; without one
  -- every command goes to the master. A command without a name goes nowhere and has no reply.
  pub data Talks : Session → List Turn → Type 0 where
    over : {s : Session} → s.client.reader.unread ≡ [] → Talks s []
    reads :
        {s : Session} {turns : List Turn} (args : List Bytes) (raw t reply u : Bytes)
        → Request s args raw t
        → IsPlain unicode (name_of unicode args)
        → get_direction unicode (name_of unicode args) ≡ read
        → s.has_replica ≡ true
        → Answer s.replica reply u
        → Talks
            (record s {
              client = with_sent (read_up_to s.client t) reply;
              replica = with_sent (read_up_to s.replica u) raw;
              reads = count64 s.reads;
            })
            turns
        → Talks s (turn reply [] raw ∷ turns)
    writes :
        {s : Session} {turns : List Turn} (args : List Bytes) (raw t reply u : Bytes)
        → Request s args raw t
        → IsPlain unicode (name_of unicode args)
        → (get_direction unicode (name_of unicode args) ≡ to_master) ⊎ (s.has_replica ≡ false)
        → Answer s.master reply u
        → Talks
            (record s {
              client = with_sent (read_up_to s.client t) reply;
              master = with_sent (read_up_to s.master u) raw;
              writes = count64 s.writes;
            })
            turns
        → Talks s (turn reply raw [] ∷ turns)
    changes_state :
        {s : Session} {turns : List Turn} (args : List Bytes) (raw t reply u reply' v : Bytes)
        → Request s args raw t
        → is_empty (name_of unicode args) ≡ false
        → contains (name_of unicode args) pin_commands ≡ false
        → contains (name_of unicode args) state_commands ≡ true
        → s.has_replica ≡ true
        → Answer s.master reply u
        → Answer s.replica reply' v
        → Talks
            (record s {
              client = with_sent (read_up_to s.client t) reply;
              master = with_sent (read_up_to s.master u) raw;
              replica = with_sent (read_up_to s.replica v) raw;
            })
            turns
        → Talks s (turn reply raw raw ∷ turns)
    changes_master :
        {s : Session} {turns : List Turn} (args : List Bytes) (raw t reply u : Bytes)
        → Request s args raw t
        → is_empty (name_of unicode args) ≡ false
        → contains (name_of unicode args) pin_commands ≡ false
        → contains (name_of unicode args) state_commands ≡ true
        → s.has_replica ≡ false
        → Answer s.master reply u
        → Talks
            (record s {
              client = with_sent (read_up_to s.client t) reply;
              master = with_sent (read_up_to s.master u) raw;
            })
            turns
        → Talks s (turn reply raw [] ∷ turns)
    says_nothing :
        {s : Session} {turns : List Turn} (args : List Bytes) (raw t : Bytes)
        → Request s args raw t
        → name_of unicode args ≡ []
        → Talks (record s { client = read_up_to s.client t }) turns
        → Talks s (turn [] [] [] ∷ turns)
