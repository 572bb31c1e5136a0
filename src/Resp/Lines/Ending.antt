-- ===== src/Resp/Lines/Ending.antt =====
-- The end of a line: the test of `readLine`, and `line[1 : len(line)-2]`.
use mathlib.Core.Path.{subst}
use redis_sentinel_proxy.Base.{
  ℕ, ◌-◌, ◌≤◌, [], ◌∷◌, ◌++◌, ◌⊎◌, inl, inr, Bytes, length, length-append, take-append, ◌≡◌, refl,
  ap, ◌∙◌, arith, append_assoc,
}
use redis_sentinel_proxy.Io.{ok, err, malformed_line}
use redis_sentinel_proxy.Resp.{byte_at, payload, finish_line}

-- The bytes of the line with type byte `m` and content `text`.
abbrev pub line_bytes : ℕ → Bytes → Bytes
line_bytes m text = m ∷ (text ++ b'\r' ∷ b'\n' ∷ [])

byte_at-append : (xs : Bytes) (c : ℕ) (ys : Bytes) → byte_at (xs ++ c ∷ ys) (length xs) ≡ c
byte_at-append [] c ys = refl
byte_at-append (x ∷ xs) c ys = byte_at-append xs c ys

snoc_cases : (s : Bytes) → (s ≡ []) ⊎ ((init : Bytes) × (c : ℕ) × (s ≡ init ++ c ∷ []))
snoc_cases [] = inl refl
snoc_cases (x ∷ s) = elim (snoc_cases s) [
  | inl e ↦ inr ([], x, ap (◌∷◌ x) e)
  | inr (init, c, e) ↦ inr (x ∷ init, c, ap (◌∷◌ x) e)
]

-- The index of the byte before the last one.
length_before : (init : Bytes) (c d : ℕ) → length (init ++ c ∷ d ∷ []) - 2 ≡ length init
length_before init c d = omega (arith, length-append init (c ∷ d ∷ []))

finish_line_at :
    (init : Bytes) (c : ℕ)
    → finish_line (init ++ c ∷ b'\n' ∷ []) ≡ ok (init ++ c ∷ b'\n' ∷ [])
    → (c ≡ b'\r') × (1 ≤ length init)
unfolding finish_line
finish_line_at init c h = ground (
  arith,
  ap (byte_at (init ++ c ∷ b'\n' ∷ [])) (length_before init c b'\n'),
  byte_at-append init c (b'\n' ∷ []),
  length-append init (c ∷ b'\n' ∷ []),
)

pub finish_line-line_bytes :
    (m : ℕ) (text : Bytes) → finish_line (line_bytes m text) ≡ ok (line_bytes m text)
unfolding finish_line
finish_line-line_bytes m text = ground (
  arith,
  ap (byte_at (line_bytes m text)) (length_before (m ∷ text) b'\r' b'\n'),
  byte_at-append (m ∷ text) b'\r' (b'\n' ∷ []),
  length-append text (b'\r' ∷ b'\n' ∷ []),
)

finish_line_short : finish_line (b'\n' ∷ []) ≡ err malformed_line
unfolding finish_line
finish_line_short = refl

first_byte :
    (init : Bytes)
    → 1 ≤ length init
    → (body : Bytes) → body ≡ init ++ b'\r' ∷ []
    → (m : ℕ) × (text : Bytes) × (body ≡ m ∷ (text ++ b'\r' ∷ []))
first_byte [] h body e = absurd (omega arith)
first_byte (m ∷ text) h body e = (m, text, e)

pub finish_line_text :
    (body : Bytes)
    → finish_line (body ++ b'\n' ∷ []) ≡ ok (body ++ b'\n' ∷ [])
    → (m : ℕ) × (text : Bytes) × (body ≡ m ∷ (text ++ b'\r' ∷ []))
finish_line_text body h = elim (snoc_cases body) [
  | inl e ↦
      cc (subst (λ b. finish_line (b ++ b'\n' ∷ []) ≡ ok (b ++ b'\n' ∷ [])) e h, finish_line_short)
  | inr (init, c, e) ↦
      let joined = ap (λ x. x ++ b'\n' ∷ []) e ∙ append_assoc init (c ∷ []) (b'\n' ∷ []) in
      let (cr, long) = finish_line_at init c (subst (λ x. finish_line x ≡ ok x) joined h) in
      first_byte init long body (e ∙ ap (λ x. init ++ x ∷ []) cr)
]

pub payload-line_bytes : (m : ℕ) (text : Bytes) → payload (line_bytes m text) ≡ text
payload-line_bytes m text =
    rw (length_before (m ∷ text) b'\r' b'\n') (take-append text (b'\r' ∷ b'\n' ∷ []))
