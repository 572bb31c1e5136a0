-- ===== src/Reply/Counts.antt =====
-- The number behind a header: when it is accepted, and what follows then.
use redis_sentinel_proxy.Base.{
  ℕ, ◌≤◌, none, some, true, false, Bool-cases, Option-cases, inl, inr, Bytes, ◌≡◌, ap, ◌∙◌, arith,
  if◌then◌else◌,
}
use redis_sentinel_proxy.Io.{Error, ok, err, malformed_length}
use redis_sentinel_proxy.Io.Integer.{ℤ, pos_part, exceeds, parse_int}
use redis_sentinel_proxy.Resp.{parse_resp_int}
use redis_sentinel_proxy.Reply.{CopyState, Round, failed, with_count}

parse_resp_int-some : (text : Bytes) (z : ℤ) → parse_int text ≡ some z → parse_resp_int text ≡ ok z
unfolding parse_resp_int
parse_resp_int-some text z e = rw (e, parse_resp_int)

parse_resp_int-none :
    (text : Bytes) → parse_int text ≡ none → parse_resp_int text ≡ err malformed_length
unfolding parse_resp_int
parse_resp_int-none text e = rw (e, parse_resp_int)

exceeds_iff : (z : ℤ) (m : ℕ) → exceeds z m ≡ false → pos_part z ≤ m
exceeds_iff z m h = ground arith

le→exceeds : (z : ℤ) (m : ℕ) → pos_part z ≤ m → exceeds z m ≡ false
le→exceeds z m h = ground arith

module _ (text : Bytes) (limit : ℕ) (too_big : Error) (s : CopyState) (next : ℤ → Round) where
  with_count-some :
      (z : ℤ)
      → parse_int text ≡ some z
      → with_count text limit too_big s next
        ≡ (if exceeds z limit then failed s too_big else next z)
  unfolding with_count
  with_count-some z e = rw (parse_resp_int-some text z e, with_count)

  pub with_count-none :
      parse_int text ≡ none → with_count text limit too_big s next ≡ failed s malformed_length
  unfolding with_count
  with_count-none e = rw (parse_resp_int-none text e, with_count)

  pub with_count_allowed :
      (z : ℤ)
      → parse_int text ≡ some z
      → pos_part z ≤ limit
      → with_count text limit too_big s next ≡ next z
  with_count_allowed z e h = with_count-some z e ∙ rw (le→exceeds z limit h)

  pub with_count_over :
      (z : ℤ)
      → parse_int text ≡ some z
      → exceeds z limit ≡ true
      → with_count text limit too_big s next ≡ failed s too_big
  with_count_over z e h = with_count-some z e ∙ rw h

  pub with_count_sound :
      (with_count text limit too_big s next).error ≡ none
      → (z : ℤ) × (parse_int text ≡ some z)
        × (pos_part z ≤ limit)
        × (with_count text limit too_big s next ≡ next z)
  with_count_sound h = elim (Option-cases (parse_int text)) [
    | inl e ↦ cc (ap (λ (x : Round). x.error) (with_count-none e), h)
    | inr (z, e) ↦ elim (Bool-cases (exceeds z limit)) [
      | inl over ↦ cc (ap (λ (x : Round). x.error) (with_count_over z e over), h)
      | inr within ↦ (z, e, exceeds_iff z limit within, with_count-some z e ∙ rw within)
    ]
  ]

  -- What holds of both failures and of every continuation holds of the whole.
  pub with_count_elim {ℓ} :
      (P : Round → Type ℓ)
      → P (failed s malformed_length)
      → P (failed s too_big)
      → ((z : ℤ) → P (next z))
      → P (with_count text limit too_big s next)
  with_count_elim P bad big good = elim (Option-cases (parse_int text)) [
    | inl e ↦ rw (with_count-none e) bad
    | inr (z, e) ↦ elim (Bool-cases (exceeds z limit)) [
      | inl over ↦ rw (with_count_over z e over) big
      | inr within ↦ rw (with_count_allowed z e (exceeds_iff z limit within)) (good z)
    ]
  ]
