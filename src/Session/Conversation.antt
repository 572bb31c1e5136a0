-- ===== src/Session/Conversation.antt =====
-- pkg/proxy/routing.go: a whole routed session of a client that speaks by the protocol and waits for
-- nothing else, against what a client and its backends see of it.
use redis_sentinel_proxy.Base.{
  ℕ, zero, suc, ◌<◌, ◌≡◌, refl, sym, ap, subst, ◌∙◌, List, [], ◌∷◌, ◌++◌, append-nil, append_assoc,
  Bytes, length, arith,
}
use redis_sentinel_proxy.Io.{IsOpen, io}
use redis_sentinel_proxy.Resp.{peek_dispatch}
use redis_sentinel_proxy.Resp.Commands.{read_command_lem}
use redis_sentinel_proxy.Session.{
  Session, continue, stop, Ending, client_ended, on_command, serve, run_loop, run,
}
use redis_sentinel_proxy.Session.Exchange.{serve_read, serve_write, serve_state}
use redis_sentinel_proxy.Session.Run.{Shortens, serve-Shortens}
use redis_sentinel_proxy.Session.Talks.{
  Turn, in_all, Talks, over, reads, writes, changes_state, changes_master, says_nothing,
}
use redis_sentinel_proxy.Session.Alone.{serve_state_alone}
use redis_sentinel_proxy.Session.Pinning.{serve_nameless}

module _ (unicode : Bytes → Bytes) where
  record AllOpen (s : Session) : Type 0 where
    pub client_side : IsOpen s.client.sink
    pub master_side : IsOpen s.master.sink
    pub replica_side : IsOpen s.replica.sink

  -- The session ended with the client's stream, and each side got its part of the turns, in order.
  abbrev pub Carried : Session → List Turn → Session × Ending → Type 0
  Carried s turns p =
      (p.1 ≡ client_ended (io s.client.reader.fin))
      × (p.0.client.sink.written ≡ s.client.sink.written ++ in_all (λ t. t.for_client) turns)
      × (p.0.master.sink.written ≡ s.master.sink.written ++ in_all (λ t. t.for_master) turns)
      × (p.0.replica.sink.written ≡ s.replica.sink.written ++ in_all (λ t. t.for_replica) turns)

  serve_over :
      (s : Session)
      → s.client.reader.unread ≡ []
      → serve unicode s ≡ stop s (client_ended (io s.client.reader.fin))
  unfolding serve on_command peek_dispatch
  serve_over s e =
      ap (λ o. on_command unicode o s)
        (read_command_lem unicode s.client.reader
          ∙ ap (λ x. peek_dispatch unicode x s.client.reader) e)

  run_loop_over :
      (fuel : ℕ) (s : Session) (e : Ending)
      → serve unicode s ≡ stop s e
      → run_loop unicode (suc fuel) s ≡ (s, e)
  unfolding run_loop
  run_loop_over fuel s e h = rw (h, run_loop) refl

  run_loop_goes_on :
      (fuel : ℕ) (s s1 : Session)
      → serve unicode s ≡ continue s1
      → run_loop unicode (suc fuel) s ≡ run_loop unicode fuel s1
  unfolding run_loop
  run_loop_goes_on fuel s s1 h = rw (h, run_loop) refl

  shorter :
      (fuel : ℕ) (s s1 : Session)
      → serve unicode s ≡ continue s1
      → length s.client.reader.unread < suc fuel
      → length s1.client.reader.unread < fuel
  shorter fuel s s1 h enough =
      omega (arith, enough, subst (Shortens unicode s) h (serve-Shortens unicode s))

  -- A round that goes on adds its turn to what the rest carries.
  carry_on :
      (fuel : ℕ) (s s1 : Session) (now : Turn) (turns : List Turn)
      → serve unicode s ≡ continue s1
      → s1.client.reader.fin ≡ s.client.reader.fin
      → s1.client.sink.written ≡ s.client.sink.written ++ now.for_client
      → s1.master.sink.written ≡ s.master.sink.written ++ now.for_master
      → s1.replica.sink.written ≡ s.replica.sink.written ++ now.for_replica
      → Carried s1 turns (run_loop unicode fuel s1)
      → Carried s (now ∷ turns) (run_loop unicode (suc fuel) s)
  unfolding in_all
  carry_on fuel s s1 now turns e f c m r (ending, c', m', r') =
      subst (Carried s (now ∷ turns)) (sym (run_loop_goes_on fuel s s1 e)) (
        ending ∙ ap (λ x. client_ended (io x)) f,
        c' ∙ ap (λ x. x ++ in_all (λ t. t.for_client) turns) c ∙ append_assoc _ now.for_client _,
        m' ∙ ap (λ x. x ++ in_all (λ t. t.for_master) turns) m ∙ append_assoc _ now.for_master _,
        r' ∙ ap (λ x. x ++ in_all (λ t. t.for_replica) turns) r ∙ append_assoc _ now.for_replica _,
      )

  run_loop-Carried :
      (fuel : ℕ) (s : Session) (turns : List Turn)
      → Talks unicode s turns
      → AllOpen s
      → length s.client.reader.unread < fuel
      → Carried s turns (run_loop unicode fuel s)
  unfolding in_all
  run_loop-Carried zero s turns talk o enough =
      let no : ◌≡◌ {A = ℕ} 0 1 = omega (arith, enough) in cc no
  run_loop-Carried (suc fuel) s [] (over e) o enough =
      subst (Carried s []) (sym (run_loop_over fuel s _ (serve_over s e)))
        (refl, sym (append-nil _), sym (append-nil _), sym (append-nil _))
  run_loop-Carried (suc fuel) s (now ∷ turns) (reads args raw t reply u q p d has a next) o enough =
      let e = serve_read unicode s args raw t reply u q p d has o.client_side o.replica_side a in
      carry_on fuel s _ now turns e refl refl (sym (append-nil _)) refl (
        run_loop-Carried fuel _ turns next
          (record {
            client_side = o.client_side;
            master_side = o.master_side;
            replica_side = o.replica_side;
          })
          (shorter fuel s _ e enough))
  run_loop-Carried (suc fuel) s (now ∷ turns) (writes args raw t reply u q p d a next) o enough =
      let e = serve_write unicode s args raw t reply u q p d o.client_side o.master_side a in
      carry_on fuel s _ now turns e refl refl refl (sym (append-nil _)) (
        run_loop-Carried fuel _ turns next
          (record {
            client_side = o.client_side;
            master_side = o.master_side;
            replica_side = o.replica_side;
          })
          (shorter fuel s _ e enough))
  run_loop-Carried (suc fuel) s (now ∷ turns)
        (changes_state args raw t reply u reply' v q ne np st has a b next) o enough =
      let e =
        serve_state unicode s args raw t reply u reply' v q ne np st has o.client_side o.master_side
          o.replica_side a b in
      carry_on fuel s _ now turns e refl refl refl refl (
        run_loop-Carried fuel _ turns next
          (record {
            client_side = o.client_side;
            master_side = o.master_side;
            replica_side = o.replica_side;
          })
          (shorter fuel s _ e enough))
  run_loop-Carried (suc fuel) s (now ∷ turns)
        (changes_master args raw t reply u q ne np st none_there a next) o enough =
      let e =
        serve_state_alone unicode s args raw t reply u q ne np st none_there o.client_side
          o.master_side a in
      carry_on fuel s _ now turns e refl refl refl (sym (append-nil _)) (
        run_loop-Carried fuel _ turns next
          (record {
            client_side = o.client_side;
            master_side = o.master_side;
            replica_side = o.replica_side;
          })
          (shorter fuel s _ e enough))
  run_loop-Carried (suc fuel) s (now ∷ turns) (says_nothing args raw t q n next) o enough =
      let e = serve_nameless unicode s args raw t q n in
      carry_on fuel s _ now turns e refl (sym (append-nil _)) (sym (append-nil _))
        (sym (append-nil _))
        (run_loop-Carried fuel _ turns next
          (record {
            client_side = o.client_side;
            master_side = o.master_side;
            replica_side = o.replica_side;
          })
          (shorter fuel s _ e enough))

  -- A session whose client sends any sequence of commands that do not pin, with or without a replica,
  -- over connections that take everything and whose backends answer, comes to its end with the client's
  -- stream. The client then has got exactly the replies to its commands in order, each backend exactly
  -- the commands that are for it in order, and no side anything else. A command that is empty or whose
  -- first argument is gets no reply and goes to no backend.
  pub run-Carried :
      (s : Session) (turns : List Turn)
      → Talks unicode s turns
      → IsOpen s.client.sink
      → IsOpen s.master.sink
      → IsOpen s.replica.sink
      → Carried s turns (run unicode s)
  unfolding run
  run-Carried s turns talk hc hm hr =
      run_loop-Carried (suc (length s.client.reader.unread)) s turns talk
        (record { client_side = hc; master_side = hm; replica_side = hr }) (omega arith)
