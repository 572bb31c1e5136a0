-- ===== src/Idle/Tests.antt =====
-- The theorem on idle connections, on a link whose clock is exact and where nobody sends anything.
use redis_sentinel_proxy.Base.{ℕ, ◌+◌, ◌≤◌, true, refl, arith}
use redis_sentinel_proxy.Idle.{deadline_exceeded, Link, idle_read}
use redis_sentinel_proxy.Idle.Timeout.{Timely, Ended, idle_read_ends}

pub record Instant : Type 0 where
  pub now : ℕ
  pub until : ℕ
  pub active : ℕ

-- A read waits until the deadline, and longer.
abbrev link : Link Instant
link = record {
  clock = λ w. (w.now, w);
  set_read_deadline = λ d w. (true, record w { until = d });
  read = λ w. (0, deadline_exceeded, record w { now = w.now + w.until });
  activity = λ w. w.active;
  store_activity = λ t w. record w { active = t };
}

abbrev IsQuiet : Instant → Type 0
IsQuiet w = w.active ≤ 5

link-Timely : Timely link (λ w. w.now) (λ w. w.until) 5 IsQuiet
link-Timely = record {
  clock_reads = λ w. (omega arith, omega arith);
  sets_deadline = λ d w h. refl;
  waits = λ w h. (refl, omega arith);
  clock_keeps = λ w q. q;
  deadline_keeps = λ d w q. q;
  read_keeps = λ w q h. q;
  no_activity = λ w q. q;
}

abbrev begun : Instant
begun = record { now = 5; until = 0; active = 5 }

idle_read_ends_example : Ended link 30 (idle_read link 30 31 begun)
idle_read_ends_example =
    idle_read_ends link 30 (λ w. w.now) (λ w. w.until) 5 link-Timely 30 begun (omega arith)
      (omega arith) (omega arith)
