-- ===== src/Session/Replica/Steps.antt =====
-- pkg/proxy/routing.go: what each step of a session sends to its replica.
use redis_sentinel_proxy.Base.{
  Bool, true, false, ◌&&◌, Bool-cases, Option-cases, inl, inr, [], ◌++◌, Option, none, Bytes,
  append-nil, ◌≡◌, refl, sym, ap, ◌∙◌, arith,
}
use redis_sentinel_proxy.Io.{write}
use redis_sentinel_proxy.Io.Transfer.{Prefix, write-Prefix, write_whole}
use redis_sentinel_proxy.Router.{Direction, read}
use redis_sentinel_proxy.Session.{
  Session, Outcome, and_then, send_master, send_replica, relay_master, relay_replica,
  discard_replica, if_replica, pin, state_command, is_read,
}

abbrev pub on_replica : Session → Bytes
on_replica s = s.replica.sink.written

-- What a step adds: all of `raw` if it reports no error, some first bytes of it in any case.
abbrev pub Adds : Bytes → Session → Outcome → Type 0
Adds raw s o =
    (o.error ≡ none → on_replica o.session ≡ on_replica s ++ raw)
    × Prefix raw (on_replica s) (on_replica o.session)

abbrev pub Keeps : Session → Outcome → Type 0
Keeps s o = on_replica o.session ≡ on_replica s

pub send_replica-Adds : (raw : Bytes) (s : Session) → Adds raw s (send_replica raw s)
unfolding send_replica
send_replica-Adds raw s = elim (Bool-cases (write raw s.replica.sink).0) [
  | inl fine ↦ rw fine (λ _. write_whole raw s.replica.sink fine, write-Prefix raw s.replica.sink)
  | inr bad ↦ rw bad (λ e. cc, write-Prefix raw s.replica.sink)
]

pub send_master-Keeps : (raw : Bytes) (s : Session) → Keeps s (send_master raw s)
unfolding send_master
send_master-Keeps raw s = ground arith

pub relay_master-Keeps : (s : Session) → Keeps s (relay_master s)
unfolding relay_master
relay_master-Keeps s = refl

pub relay_replica-Keeps : (s : Session) → Keeps s (relay_replica s)
unfolding relay_replica
relay_replica-Keeps s = refl

discard_replica-Keeps : (s : Session) → Keeps s (if_replica discard_replica s)
unfolding discard_replica
discard_replica-Keeps s = ground arith

pub and_then-Keeps :
    (s : Session) (o : Outcome) (next : Session → Outcome)
    → Keeps s o
    → ((t : Session) → Keeps t (next t))
    → Keeps s (and_then o next)
and_then-Keeps s o next h k = elim (Option-cases o.error) [
  | inl e ↦ rw (e, and_then) (k o.session ∙ h)
  | inr (x, e) ↦ rw (e, and_then) h
]

pub and_then-Adds :
    (raw : Bytes) (s : Session) (o : Outcome) (next : Session → Outcome)
    → Adds raw s o
    → ((t : Session) → Keeps t (next t))
    → Adds raw s (and_then o next)
and_then-Adds raw s o next h k = elim (Option-cases o.error) [
  | inl e ↦ rw (e, and_then) (λ _. k o.session ∙ h.0 e, (h.1.0, h.1.1, h.1.2, k o.session ∙ h.1.3))
  | inr (x, e) ↦ rw (e, and_then) (λ f. cc, h.1)
]

-- What a command adds to a replica that the session may or may not have.
abbrev pub AddsIf : Bool → Bytes → Session → Outcome → Type 0
AddsIf true raw s o = Adds raw s o
AddsIf false raw s o = Keeps s o

and_then-late :
    (raw : Bytes) (s : Session) (o : Outcome) (next : Session → Outcome)
    → Keeps s o
    → Adds raw o.session (next o.session)
    → Adds raw s (and_then o next)
and_then-late raw s o next h k = elim (Option-cases o.error) [
  | inl e ↦
      rw (e, and_then)
        (λ f. k.0 f ∙ ap (λ x. x ++ raw) h, (k.1.0, k.1.1, k.1.2, k.1.3 ∙ ap (λ x. x ++ k.1.0) h))
  | inr (x, e) ↦ rw (e, and_then) (λ f. cc, ([], raw, refl, h ∙ sym (append-nil (on_replica s))))
]

send_master-has_replica :
    (raw : Bytes) (s : Session) → (send_master raw s).session.has_replica ≡ s.has_replica
unfolding send_master
send_master-has_replica raw s = ground arith

-- The rest of `stateCommand`, behind the write to the master.
abbrev pub replies : Session → Outcome
replies s2 = and_then (relay_master s2) (if_replica discard_replica)

to_replica : Bytes → Session → Outcome
to_replica raw s1 = and_then (if_replica (send_replica raw) s1) replies

rest-Keeps : (s : Session) → Keeps s (replies s)
rest-Keeps s =
    and_then-Keeps s (relay_master s) (if_replica discard_replica) (relay_master-Keeps s)
      discard_replica-Keeps

to_replica-Adds : (raw : Bytes) (s : Session) → s.has_replica ≡ true → Adds raw s (to_replica raw s)
unfolding to_replica
to_replica-Adds raw s has =
    and_then-Adds raw s (if_replica (send_replica raw) s) replies
      (simp has (send_replica-Adds raw s)) rest-Keeps

to_replica-Keeps : (raw : Bytes) (s : Session) → s.has_replica ≡ false → Keeps s (to_replica raw s)
unfolding to_replica
to_replica-Keeps raw s has =
    and_then-Keeps s (if_replica (send_replica raw) s) replies (simp has refl) rest-Keeps

state_command_lem :
    (raw : Bytes) (s : Session)
    → state_command raw s ≡ and_then (send_master raw s) (to_replica raw)
unfolding state_command to_replica
state_command_lem raw s = refl

pub state_command-Adds :
    (raw : Bytes) (s : Session) → s.has_replica ≡ true → Adds raw s (state_command raw s)
state_command-Adds raw s has =
    let o = send_master raw s in
    rw (state_command_lem raw s) (
      and_then-late raw s o (to_replica raw) (send_master-Keeps raw s)
        (to_replica-Adds raw o.session (send_master-has_replica raw s ∙ has)))

pub state_command-Keeps :
    (raw : Bytes) (s : Session) → s.has_replica ≡ false → Keeps s (state_command raw s)
state_command-Keeps raw s has = elim (Option-cases (send_master raw s).error) [
  | inl e ↦
      rw (state_command_lem raw s, e, and_then)
        (to_replica-Keeps raw (send_master raw s).session (send_master-has_replica raw s ∙ has)
          ∙ send_master-Keeps raw s)
  | inr (x, e) ↦ rw (state_command_lem raw s, e, and_then) (send_master-Keeps raw s)
]

pub pin-on_replica : (first : Option Bytes) (s : Session) → on_replica (pin first s) ≡ on_replica s
unfolding pin
pin-on_replica first s = ground arith

pub read_direction : (has : Bool) (d : Direction) → (has && is_read d) ≡ true → d ≡ read
read_direction has d h = ground arith
