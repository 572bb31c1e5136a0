-- ===== src/Session/Pinning.antt =====
-- Commands that end the routing: pinning and inline commands, and commands with no name.
use redis_sentinel_proxy.Base.{
  ℕ, true, false, List, [], ◌∷◌, ◌++◌, Option, none, some, Bytes, ◌≢◌, ◌⊎◌, inl, inr, append_assoc,
  ◌≡◌, refl, sym, ap, ◌∙◌, arith,
}
use redis_sentinel_proxy.Io.{Reader, Sink, IsOpen, write, err, inline_command}
use redis_sentinel_proxy.Io.Transfer.{write_open}
use redis_sentinel_proxy.Resp.{Command, read_command, peek_dispatch}
use redis_sentinel_proxy.Resp.Commands.{name_of, read_command_lem}
use redis_sentinel_proxy.Router.{contains}
use redis_sentinel_proxy.Session.{
  Session, continue, stop, pinned, pin_commands, pipe, pin, is_empty, route, on_command, serve,
}
use redis_sentinel_proxy.Session.Relay.{read_up_to, Request, serve-Request}

-- From here on the session is a plain pipe between the client and the master.
pub record Piped (s s' : Session) : Type 0 where
  pub to_master : s'.master.sink.written ≡ s.master.sink.written ++ s.client.reader.unread
  pub to_client : s'.client.sink.written ≡ s.client.sink.written ++ s.master.reader.unread
  pub replica_dropped : s'.has_replica ≡ false
  pub replica_sent : s'.replica.sink.written ≡ s.replica.sink.written
  pub both_shut : (s'.master.sink.shut ≡ true) × (s'.client.sink.shut ≡ true)

pipe_open :
    (w : Sink) (r : Reader)
    → IsOpen w
    → ((pipe w r).0.written ≡ w.written ++ r.unread) × ((pipe w r).0.shut ≡ true)
unfolding pipe
pipe_open w r h = rw (write_open r.unread w h) (refl, refl)

pin-Piped :
    (raw : Bytes) (first : Option Bytes) (s : Session)
    → (first ≡ some raw) ⊎ ((first ≡ none) × (raw ≡ []))
    → IsOpen s.client.sink
    → IsOpen s.master.sink
    → let s' = pin first s in
      (s'.master.sink.written ≡ s.master.sink.written ++ (raw ++ s.client.reader.unread))
      × (s'.client.sink.written ≡ s.client.sink.written ++ s.master.reader.unread)
      × (s'.has_replica ≡ false)
      × (s'.replica.sink.written ≡ s.replica.sink.written)
      × (s'.master.sink.shut ≡ true)
      × (s'.client.sink.shut ≡ true)
unfolding pin write
pin-Piped raw first s h hc hm =
    ground (arith, append_assoc s.master.sink.written raw s.client.reader.unread)

Piped-of_pin :
    (raw rest : Bytes) (first : Option Bytes) (s : Session)
    → (first ≡ some raw) ⊎ ((first ≡ none) × (raw ≡ []))
    → s.client.reader.unread ≡ raw ++ rest
    → IsOpen s.client.sink
    → IsOpen s.master.sink
    → Piped s (pin first (record s { client = read_up_to s.client rest }))
Piped-of_pin raw rest first s h splits hc hm =
    let (m, c, r, sent, shut_m, shut_c) =
      pin-Piped raw first (record s { client = read_up_to s.client rest }) h hc hm in
    record {
      to_master = m ∙ ap (λ x. s.master.sink.written ++ x) (sym splits);
      to_client = c;
      replica_dropped = r;
      replica_sent = sent;
      both_shut = (shut_m, shut_c);
    }

module _ (unicode : Bytes → Bytes) where
  route-pin :
      (c : Command) (s : Session)
      → is_empty c.name ≡ false
      → contains c.name pin_commands ≡ true
      → route unicode c s ≡ stop (pin (some c.raw) s) pinned
  unfolding route
  route-pin c s e p = rw (e, p)

  route_empty :
      (c : Command) (s : Session) → is_empty c.name ≡ true → route unicode c s ≡ continue s
  unfolding route
  route_empty c s e = rw e

  -- A pinning command ends the routing. The master gets every byte of the client's stream from that
  -- command on, the client gets every byte of the master's, and the replica gets nothing more.
  pub serve_pin :
      (s : Session) (args : List Bytes) (raw t : Bytes)
      → Request s args raw t
      → is_empty (name_of unicode args) ≡ false
      → contains (name_of unicode args) pin_commands ≡ true
      → IsOpen s.client.sink
      → IsOpen s.master.sink
      → (s' : Session) × (serve unicode s ≡ stop s' pinned) × Piped s s'
  serve_pin s args raw t q e p hc hm = (
    pin (some raw) (record s { client = read_up_to s.client t }),
    serve-Request unicode s args raw t q ∙ route-pin _ _ e p,
    Piped-of_pin raw t (some raw) s (inl refl) q.splits hc hm,
  )

  serve_inline_eq :
      (s : Session)
      → read_command unicode s.client.reader ≡ err inline_command
      → serve unicode s ≡ stop (pin none s) pinned
  unfolding serve on_command
  serve_inline_eq s e = rw e

  peek_inline :
      (c : ℕ) (rest : Bytes) (r : Reader)
      → c ≢ b'*'
      → peek_dispatch unicode (c ∷ rest) r ≡ err inline_command
  unfolding peek_dispatch
  peek_inline c rest r ne = ground arith

  -- A client that does not begin with an array speaks the inline protocol: not a byte of its stream
  -- is lost, all of it goes to the master.
  pub serve_inline :
      (s : Session) (c : ℕ) (rest : Bytes)
      → s.client.reader.unread ≡ c ∷ rest
      → c ≢ b'*'
      → IsOpen s.client.sink
      → IsOpen s.master.sink
      → (s' : Session) × (serve unicode s ≡ stop s' pinned) × Piped s s'
  serve_inline s c rest e ne hc hm = (
    pin none s,
    serve_inline_eq s (
        read_command_lem unicode s.client.reader
        ∙ ap (λ x. peek_dispatch unicode x s.client.reader) e
        ∙ peek_inline c rest s.client.reader ne),
    Piped-of_pin [] s.client.reader.unread none s (inr (refl, refl)) refl hc hm,
  )

  -- A command whose first argument is empty is dropped like an empty array: it is taken off the
  -- client's stream, no backend gets it, and the client gets no reply.
  pub serve_nameless :
      (s : Session) (args : List Bytes) (raw t : Bytes)
      → Request s args raw t
      → name_of unicode args ≡ []
      → serve unicode s ≡ continue (record s { client = read_up_to s.client t })
  serve_nameless s args raw t q e =
      serve-Request unicode s args raw t q ∙ route_empty _ _ (ap is_empty e)
