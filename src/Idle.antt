-- ===== src/Idle.antt =====
-- pkg/proxy/proxy.go: `idleConn`, a connection whose reads give up when neither direction of a session
-- had any traffic for a while.
--
-- The connection, the clock and the time of the last activity, which both directions write, are
-- outside. Times are nanoseconds.
pub mod Timeout
pub mod Tests
use redis_sentinel_proxy.Base.{ℕ, zero, suc, ◌+◌, ◌-◌, Bool, true, false, ltb}

-- The `error` of a read: none, `os.ErrDeadlineExceeded`, or another.
pub data ReadError : Type 0 where
  no_error deadline_exceeded failed : ReadError

-- `activity` and `store_activity` are the atomic `Load` and `Store`.
pub record Link (W : Type 0) : Type 0 where
  pub clock : W → ℕ × W
  pub set_read_deadline : ℕ → W → Bool × W
  pub read : W → ℕ × ReadError × W
  pub activity : W → ℕ
  pub store_activity : ℕ → W → W

-- What `Read` returned: a number of bytes and an error.
pub data Reading : Type 0 where
  returned : ℕ → ReadError → Reading
  out_of_fuel : Reading

module _ {W : Type 0} (l : Link W) (timeout : ℕ) where
  -- `if n > 0 { c.activity.Store(time.Now().UnixNano()) }`
  unfoldable pub touch : ℕ → W → W
  touch zero w = w
  touch (suc n) w = let (now, w1) = l.clock w in l.store_activity now w1

  -- The time since the last activity, which is loaded before the clock is read. It is 0 where the source
  -- has a negative one, which is below the timeout too: the source wraps with a positive timeout only.
  unfoldable pub since_activity : W → ℕ × W
  since_activity w = let (now, w1) = l.clock w in (now - l.activity w, w1)

  -- `Read`: the other direction may keep it waiting.
  unfoldable pub idle_read : ℕ → W → Reading × W
  unfolding touch since_activity
  idle_read zero w = (out_of_fuel, w)
  idle_read (suc fuel) w =
      let (now, w1) = l.clock w in
      let (set, w2) = l.set_read_deadline (now + timeout) w1 in
      elim set [
        | false ↦ (returned 0 failed, w2)
        | true ↦
            let (n, e, w3) = l.read w2 in
            let w4 = touch n w3 in
            let (quiet, w5) = since_activity w4 in
            elim e [
              | no_error ↦ (returned n no_error, w4)
              | failed ↦ (returned n failed, w4)
              | deadline_exceeded ↦ elim (ltb quiet timeout) [
                | true ↦ idle_read fuel w5
                | false ↦ (returned n deadline_exceeded, w5)
              ]
            ]
      ]
