-- ===== src/Io/Integer.antt =====
-- Signed 64-bit integers and `strconv.ParseInt(s, 10, 64)`.
use redis_sentinel_proxy.Base.{
  ℕ, zero, suc, ◌+◌, ◌-◌, ◌*◌, ◌^◌, Bool, true, false, ◌&&◌, [], ◌∷◌, Option, none, some, Bytes,
  ltb, leb, ◌==◌, if◌then◌else◌, codes, ◌≡◌, refl,
}

-- `negsuc n` is -(n + 1).
pub data ℤ : Type 0 where
  pos : ℕ → ℤ
  negsuc : ℕ → ℤ

-- The rounds of `for i := 0; i < n; i++`.
abbrev pub pos_part : ℤ → ℕ
pos_part (pos n) = n
pos_part (negsuc n) = 0

-- `n > m`, for a constant `m` that is not negative.
abbrev pub exceeds : ℤ → ℕ → Bool
exceeds (pos n) m = ltb m n
exceeds (negsuc n) m = false

abbrev pub is_negative : ℤ → Bool
is_negative (pos n) = false
is_negative (negsuc n) = true

abbrev pub is_digit : ℕ → Bool
is_digit c = leb b'0' c && leb c b'9'

-- The digits behind the sign. Go stops as soon as the value passes 64 bits, which is an error
-- too; here the value is compared with the bound at the end.
unfoldable pub scan : ℕ → Bytes → Option ℕ
scan acc [] = some acc
scan acc (c ∷ s) = let later = scan (acc * 10 + (c - b'0')) s in if is_digit c then later else none

abbrev negate : ℕ → ℤ
negate zero = pos 0
negate (suc n) = negsuc n

abbrev signed : Bool → ℕ → Option ℤ
signed false n = if ltb n (2 ^ 63) then some (pos n) else none
signed true n = if leb n (2 ^ 63) then some (negate n) else none

magnitude : Bool → Bytes → Option ℤ
magnitude neg [] = none
magnitude neg (c ∷ s) = elim (scan 0 (c ∷ s)) [ none ↦ none | some n ↦ signed neg n ]

unfoldable pub parse_int : Bytes → Option ℤ
unfolding scan magnitude
parse_int [] = none
parse_int (c ∷ s) =
    if c == b'+'
    then magnitude false s
    else if c == b'-'
    then magnitude true s
    else magnitude false (c ∷ s)

parse_int-min : parse_int (codes "-9223372036854775808") ≡ some (negsuc (2 ^ 63 - 1))
unfolding parse_int
parse_int-min = refl

parse_int-overflow : parse_int (codes "9223372036854775808") ≡ none
unfolding parse_int
parse_int-overflow = refl

parse_int-null : parse_int (codes "-1") ≡ some (negsuc 0)
unfolding parse_int
parse_int-null = refl
