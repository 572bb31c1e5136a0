-- ===== src/Idle/Timeout.antt =====
-- pkg/proxy/proxy.go, `idleConn`: a read comes to its end when the session is quiet, and not before.
use redis_sentinel_proxy.Base.{
  ℕ, zero, suc, ◌+◌, ◌-◌, ◌≤◌, ◌≡◌, ◌≢◌, refl, sym, subst, true, Bool-cases, inl, inr, ◌⊎◌, ltb,
  ltb→lt, arith,
}
use redis_sentinel_proxy.Idle.{
  ReadError, no_error, deadline_exceeded, failed, Link, Reading, returned, touch, since_activity,
  idle_read,
}

-- What is documented of the clock and of deadlines, over the true time: time does not run backwards, and
-- a read that exceeds its deadline ends then, or later, with no bytes. And what makes a session quiet:
-- its states are `Quiet`, as long as its reads bring nothing, and in these no activity is later than
-- `last`.
pub record Timely {W : Type 0} (l : Link W) (time deadline : W → ℕ) (last : ℕ) (Quiet : W → Type 0)
    : Type 0 where
  pub clock_reads : (w : W) → (time w ≤ (l.clock w).0) × ((l.clock w).0 ≤ time (l.clock w).1)
  pub sets_deadline :
      (d : ℕ) (w : W)
      → (l.set_read_deadline d w).0 ≡ true
      → deadline (l.set_read_deadline d w).1 ≡ d
  pub waits :
      (w : W)
      → (l.read w).1 ≡ deadline_exceeded
      → ((l.read w).0 ≡ 0) × (deadline w ≤ time (l.read w).2)
  pub clock_keeps : (w : W) → Quiet w → Quiet (l.clock w).1
  pub deadline_keeps : (d : ℕ) (w : W) → Quiet w → Quiet (l.set_read_deadline d w).1
  pub read_keeps : (w : W) → Quiet w → (l.read w).1 ≡ deadline_exceeded → Quiet (l.read w).2
  pub no_activity : (w : W) → Quiet w → l.activity w ≤ last

ReadError-cases : (e : ReadError) → (e ≡ deadline_exceeded) ⊎ (e ≡ no_error) ⊎ (e ≡ failed)
ReadError-cases no_error = inr (inl refl)
ReadError-cases deadline_exceeded = inl refl
ReadError-cases failed = inr (inr refl)

module _ {W : Type 0} (l : Link W) (timeout : ℕ) where
  -- What a read that returned `n` and `e` left behind. If it returned for idleness, the clock was
  -- read last, and the last activity of either direction was a timeout ago then. Otherwise, if it
  -- brought bytes, the time was stored last as that of the last activity.
  abbrev pub Left : ℕ → ReadError → W → Type 0
  Left n e after =
      ((e ≡ deadline_exceeded)
        × (v : W) × (after ≡ (l.clock v).1)
        × (timeout ≤ (l.clock v).0 - l.activity v))
      ⊎ ((e ≢ deadline_exceeded)
          × ((n ≡ 0) ⊎ ((v : W) × (after ≡ l.store_activity (l.clock v).0 (l.clock v).1))))

  abbrev pub Ended : Reading × W → Type 0
  Ended p = (n : ℕ) × (e : ReadError) × (p.0 ≡ returned n e) × Left n e p.1

  touch_lem :
      (n : ℕ) (w : W)
      → (n ≡ 0) ⊎ ((v : W) × (touch l timeout n w ≡ l.store_activity (l.clock v).0 (l.clock v).1))
  unfolding touch
  touch_lem zero w = inl refl
  touch_lem (suc n) w = inr (w, refl)

  no_error-ne : no_error ≢ deadline_exceeded
  no_error-ne h = cc

  failed-ne : failed ≢ deadline_exceeded
  failed-ne h = cc

  touch_none : (n : ℕ) (w : W) → n ≡ 0 → touch l timeout n w ≡ w
  unfolding touch
  touch_none zero w h = refl
  touch_none (suc n) w h = let no : ◌≡◌ {A = ℕ} 0 1 = omega (arith, h) in cc no

  module _ (time deadline : W → ℕ) (last : ℕ) {Quiet : W → Type 0}
      (t : Timely l time deadline last Quiet) where
    -- After a read that exceeded its deadline, the next one has so much less to wait for.
    nearer :
        (fuel : ℕ) (w w2 : W)
        → Quiet (l.read w2).2
        → 1 ≤ timeout
        → last + timeout ≤ time w + fuel
        → deadline w2 ≡ (l.clock w).0 + timeout
        → (l.read w2).1 ≡ deadline_exceeded
        → ltb (since_activity l timeout (l.read w2).2).0 timeout ≡ true
        → (rest : ℕ) × (fuel ≡ suc rest)
          × (last + timeout ≤ time (since_activity l timeout (l.read w2).2).1 + rest)
    unfolding since_activity
    nearer zero w w2 q positive enough is late more =
        let w3 = (l.read w2).2 in
        let before = ltb→lt (since_activity l timeout w3).0 timeout more in
        let no : ◌≡◌ {A = ℕ} 0 1 = omega (
          arith,
          before,
          enough,
          is,
          t.no_activity w3 q,
          (t.waits w2 late).1,
          (t.clock_reads w).0,
          (t.clock_reads w3).0,
        ) in
        cc no
    nearer (suc rest) w w2 q positive enough is late more =
        let w3 = (l.read w2).2 in
        (
          rest,
          refl,
          omega (
            arith,
            enough,
            is,
            positive,
            (t.waits w2 late).1,
            (t.clock_reads w).0,
            (t.clock_reads w3).0,
            (t.clock_reads w3).1,
          ),
        )

    timed_out :
        (fuel : ℕ) (w : W)
        → ((v : W) (rest : ℕ)
            → fuel ≡ suc rest
            → last + timeout ≤ time v + rest
            → Quiet v
            → Ended (idle_read l timeout fuel v))
        → Quiet w
        → 1 ≤ timeout
        → last + timeout ≤ time w + fuel
        → (l.set_read_deadline ((l.clock w).0 + timeout) (l.clock w).1).0 ≡ true
        → (l.read (l.set_read_deadline ((l.clock w).0 + timeout) (l.clock w).1).1).1
          ≡ deadline_exceeded
        → Ended (idle_read l timeout (suc fuel) w)
    unfolding idle_read touch since_activity
    timed_out fuel w again q positive enough on late =
        let w2 = (l.set_read_deadline ((l.clock w).0 + timeout) (l.clock w).1).1 in
        let n = (l.read w2).0 in
        let w3 = (l.read w2).2 in
        let q3 : Quiet w3 = t.read_keeps w2 (t.deadline_keeps _ _ (t.clock_keeps w q)) late in
        let same = sym (touch_none n w3 (t.waits w2 late).0) in
        elim (Bool-cases (ltb (since_activity l timeout (touch l timeout n w3)).0 timeout)) [
          | inl more ↦
              let (rest, is, left) =
                nearer fuel w w2 q3 positive enough (t.sets_deadline _ _ on) late (
                  subst (λ x. ltb (since_activity l timeout x).0 timeout ≡ true) (sym same) more) in
              rw (on, idle_read, late, more)
                (again (since_activity l timeout (touch l timeout n w3)).1 rest is
                  (subst (λ x. last + timeout ≤ time (since_activity l timeout x).1 + rest) same
                    left)
                  (t.clock_keeps _ (subst Quiet same q3)))
          | inr idle ↦
              rw (on, idle_read, late, idle)
                (
                  n,
                  deadline_exceeded,
                  refl,
                  inl (refl, touch l timeout n w3, refl, grind (arith, idle)),
                )
        ]

    one_round :
        (fuel : ℕ) (w : W)
        → ((v : W) (rest : ℕ)
            → fuel ≡ suc rest
            → last + timeout ≤ time v + rest
            → Quiet v
            → Ended (idle_read l timeout fuel v))
        → Quiet w
        → 1 ≤ timeout
        → last + timeout ≤ time w + fuel
        → Ended (idle_read l timeout (suc fuel) w)
    unfolding idle_read touch since_activity
    one_round fuel w again q positive enough =
        let w2 = (l.set_read_deadline ((l.clock w).0 + timeout) (l.clock w).1).1 in
        elim (Bool-cases (l.set_read_deadline ((l.clock w).0 + timeout) (l.clock w).1).0) [
          | inr off ↦ rw (off, idle_read) (0, failed, refl, inr (failed-ne, inl refl))
          | inl on ↦ elim (ReadError-cases (l.read w2).1) [
            | inr (inl e) ↦
                rw (on, idle_read, e)
                  (
                    (l.read w2).0,
                    no_error,
                    refl,
                    inr (no_error-ne, touch_lem (l.read w2).0 (l.read w2).2),
                  )
            | inr (inr e) ↦
                rw (on, idle_read, e)
                  (
                    (l.read w2).0,
                    failed,
                    refl,
                    inr (failed-ne, touch_lem (l.read w2).0 (l.read w2).2),
                  )
            | inl late ↦ timed_out fuel w again q positive enough on late
          ]
        ]

    -- In a session where the other direction has fallen quiet, a read returns: it takes at most one round
    -- more than there are nanoseconds until the last activity is a timeout ago. If it returns for
    -- idleness, the last activity of either direction was a timeout ago when the clock was read last;
    -- and if it returns bytes, the time was stored last as that of the last activity.
    pub idle_read_ends :
        (fuel : ℕ) (w : W)
        → Quiet w
        → 1 ≤ timeout
        → last + timeout ≤ time w + fuel
        → Ended (idle_read l timeout (suc fuel) w)
    idle_read_ends zero w q positive enough =
        one_round zero w (λ v rest e h quiet. let no : ◌≡◌ {A = ℕ} 0 1 = omega (arith, e) in cc no)
          q positive enough
    idle_read_ends (suc fuel) w q positive enough =
        one_round (suc fuel) w
          (λ v rest e h quiet. idle_read_ends fuel v quiet positive (omega (arith, e, h))) q
          positive enough
