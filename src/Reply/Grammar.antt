-- ===== src/Reply/Grammar.antt =====
-- RESP replies by their grammar, with no counter and no loop: what `copyRESP` should take.
-- A relation `Value s t` reads: `s` begins with one reply, and `t` is what follows it.
use redis_sentinel_proxy.Base.{
  ℕ, zero, suc, ◌+◌, ◌*◌, ◌≤◌, [], ◌∷◌, ◌++◌, ◌⊎◌, some, Bytes, codes, length, ◌≡◌, refl, arith,
}
use redis_sentinel_proxy.Io.Integer.{ℤ, pos, negsuc, pos_part, parse_int}
use redis_sentinel_proxy.Resp.{max_resp_elements, max_bulk_len}
use redis_sentinel_proxy.Resp.Lines.{Line}
use redis_sentinel_proxy.Reply.{Kind, single, blob, aggregate, keyed, attribute, push, kind}

-- `m` is one of the characters of the text.
abbrev pub OneOf : Bytes → ℕ → Type 0
OneOf [] m = ⊥
OneOf (c ∷ cs) m = (m ≡ c) ⊎ OneOf cs m

-- The line announces `n` elements; a negative number announces none.
pub record Announces (text : Bytes) (n : ℕ) : Type 0 where
  pub number : ℤ
  pub parsed : parse_int text ≡ some number
  pub allowed : n ≤ max_resp_elements
  pub count_is : n ≡ pos_part number

mutual
  pub data Value : Bytes → Bytes → Type 0 where
    -- Simple string, error, integer, double, boolean, big number, null.
    scalar : {m : ℕ} {text s t : Bytes} → OneOf (codes "+-:,#(_") m → Line m text s t → Value s t
    -- A null bulk string.
    null :
        {m n : ℕ} {text s t : Bytes}
        → OneOf (codes "$=!") m
        → Line m text s t
        → parse_int text ≡ some (negsuc n)
        → Value s t
    -- A bulk string, verbatim string or bulk error, with its CRLF.
    bulk :
        {m n : ℕ} {text s t u : Bytes} (body : Bytes)
        → OneOf (codes "$=!") m
        → Line m text s t
        → parse_int text ≡ some (pos n)
        → n ≤ max_bulk_len
        → t ≡ body ++ u
        → length body ≡ n + 2
        → Value s u
    -- An array or a set.
    array :
        {m n : ℕ} {text s t u : Bytes}
        → OneOf (codes "*~") m
        → Line m text s t
        → Announces text n
        → Values n t u
        → Value s u
    -- A map has two values for each entry.
    dictionary :
        {n : ℕ} {text s t u : Bytes}
        → Line b'%' text s t
        → Announces text n
        → Values (2 * n) t u
        → Value s u
    -- An attribute section stands before the reply that it annotates.
    attributed :
        {n : ℕ} {text s t u v : Bytes}
        → Line b'|' text s t
        → Announces text n
        → Values (2 * n) t u
        → Value u v
        → Value s v
    -- A push message stands before the reply and is none itself.
    pushed :
        {n : ℕ} {text s t u v : Bytes}
        → Line b'>' text s t
        → Announces text n
        → Values n t u
        → Value u v
        → Value s v

  -- So many replies, one after the other.
  pub data Values : ℕ → Bytes → Bytes → Type 0 where
    finish : {s t : Bytes} → s ≡ t → Values zero s t
    then : {k : ℕ} {s t u : Bytes} → Value s t → Values k t u → Values (suc k) s u

-- The `switch` of `copyRESP` sorts the type bytes as the grammar does.
pub kind_single : (m : ℕ) → OneOf (codes "+-:,#(_") m → kind m ≡ single
unfolding kind
kind_single m h = ground arith

pub kind_blob : (m : ℕ) → OneOf (codes "$=!") m → kind m ≡ blob
unfolding kind
kind_blob m h = ground arith

pub kind_aggregate : (m : ℕ) → OneOf (codes "*~") m → kind m ≡ aggregate
unfolding kind
kind_aggregate m h = ground arith

pub kind_fixed : (kind b'%' ≡ keyed) × (kind b'|' ≡ attribute) × (kind b'>' ≡ push)
unfolding kind
kind_fixed = (refl, refl, refl)

-- And back.
abbrev pub Marks : Kind → ℕ → Type 0
Marks single m = OneOf (codes "+-:,#(_") m
Marks blob m = OneOf (codes "$=!") m
Marks aggregate m = OneOf (codes "*~") m
Marks keyed m = m ≡ b'%'
Marks attribute m = m ≡ b'|'
Marks push m = m ≡ b'>'
Marks _ m = Unit

pub kind-Marks : (m : ℕ) → Marks (kind m) m
unfolding kind
kind-Marks m = ground arith
