-- ===== src/Resp/Lines/Slices.antt =====
-- `ReadSlice('\n')` against the position of the first newline.
use mathlib.Core.Path.{subst}
use redis_sentinel_proxy.Base.{
  List, ℕ, zero, suc, ◌≤◌, ◌<◌, [], ◌∷◌, ◌++◌, ◌≢◌, Bytes, All, length, take, drop, ◌==◌,
  Bool-cases, inl, inr, ◌≡◌, refl, ap, arith, ==_iff,
}
use redis_sentinel_proxy.Io.{Slice, Stop, delim, full, ended, read_slice}

abbrev pub NoNewline : Bytes → Type 0
NoNewline s = All (λ c. c ≢ b'\n') s

module _ {ℓ κ} {A : Type ℓ} (P : A → Type κ) where
  pub All-append : (xs ys : List A) (hx : All P xs) (hy : All P ys) → All P (xs ++ ys)
  All-append [] ys hx hy = hy
  All-append (x ∷ xs) ys hx hy = (hx.0, All-append xs ys hx.1 hy)

pub NoNewline-left : (xs ys : Bytes) → NoNewline (xs ++ ys) → NoNewline xs
NoNewline-left [] ys h = tt
NoNewline-left (x ∷ xs) ys h = (h.0, NoNewline-left xs ys h.1)

pub NoNewline-take : (n : ℕ) (xs : Bytes) → NoNewline xs → NoNewline (take n xs)
NoNewline-take zero xs h = tt
NoNewline-take (suc n) [] h = tt
NoNewline-take (suc n) (x ∷ xs) h = (h.0, NoNewline-take n xs h.1)

pub NoNewline-drop : (n : ℕ) (xs : Bytes) → NoNewline xs → NoNewline (drop n xs)
NoNewline-drop zero xs h = h
NoNewline-drop (suc n) [] h = tt
NoNewline-drop (suc n) (x ∷ xs) h = NoNewline-drop n xs h.1

pub read_slice_found :
    (n : ℕ) (body t : Bytes)
    → NoNewline body
    → length body < n
    → read_slice n (body ++ b'\n' ∷ t)
      ≡ record { part = body ++ b'\n' ∷ []; rest = t; stop = delim }
unfolding read_slice
read_slice_found zero body t h lt = absurd (omega arith)
read_slice_found (suc n) [] t h lt = refl
read_slice_found (suc n) (c ∷ body) t h lt = ground (arith, read_slice_found n body t h.1)

pub read_slice_full :
    (n : ℕ) (body t : Bytes)
    → NoNewline body
    → n ≤ length body
    → read_slice n (body ++ b'\n' ∷ t)
      ≡ record { part = take n body; rest = drop n body ++ b'\n' ∷ t; stop = full }
unfolding read_slice
read_slice_full zero body t h le = refl
read_slice_full (suc n) [] t h le = absurd (omega arith)
read_slice_full (suc n) (c ∷ body) t h le = ground (arith, read_slice_full n body t h.1)

-- What a slice of `s` from a buffer of `n` bytes holds.
abbrev pub Sliced : ℕ → Bytes → Stop → Bytes → Bytes → Type 0
Sliced n s delim part rest =
    (body : Bytes) × NoNewline body
    × (s ≡ body ++ b'\n' ∷ rest)
    × (part ≡ body ++ b'\n' ∷ [])
    × (length body < n)
Sliced n s full part rest = NoNewline part × (s ≡ part ++ rest) × (length part ≡ n)
Sliced n s ended part rest = Unit

Sliced-cons :
    (n c : ℕ) (s part rest : Bytes) (stop : Stop)
    → c ≢ b'\n'
    → Sliced n s stop part rest
    → Sliced (suc n) (c ∷ s) stop (c ∷ part) rest
Sliced-cons n c s part rest delim ne (body, h, e, p, lt) =
    (c ∷ body, (ne, h), ap (◌∷◌ c) e, ap (◌∷◌ c) p, omega arith)
Sliced-cons n c s part rest full ne (h, e, l) = ((ne, h), ap (◌∷◌ c) e, omega arith)
Sliced-cons n c s part rest ended ne h = tt

abbrev SlicedBy : ℕ → Bytes → Slice → Type 0
SlicedBy n s slice = Sliced n s slice.stop slice.part slice.rest

pub read_slice-Sliced :
    (n : ℕ) (s : Bytes)
    → Sliced n s (read_slice n s).stop (read_slice n s).part (read_slice n s).rest
unfolding read_slice
read_slice-Sliced zero s = (tt, refl, refl)
read_slice-Sliced (suc n) [] = tt
read_slice-Sliced (suc n) (c ∷ s) = elim (Bool-cases (c == b'\n')) [
  | inl here ↦
      let e = (==_iff c b'\n').0 here in
      rw here ([], tt, ap (λ x. x ∷ s) e, ap (λ x. x ∷ []) e, omega arith)
  | inr later ↦ rw later (
      Sliced-cons n c s _ _ (read_slice n s).stop (λ e. cc (later, (==_iff c b'\n').1 e))
        (read_slice-Sliced n s))
]

pub full_slice :
    (n : ℕ) (s : Bytes) → (read_slice n s).stop ≡ full → length (read_slice n s).part ≡ n
full_slice n s e = of_full (
    subst (λ x. Sliced n s x (read_slice n s).part (read_slice n s).rest) e (read_slice-Sliced n s))
  where
    of_full :
        Sliced n s full (read_slice n s).part (read_slice n s).rest
        → length (read_slice n s).part ≡ n
    of_full (_, _, l) = l
