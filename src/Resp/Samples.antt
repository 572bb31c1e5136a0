-- ===== src/Resp/Samples.antt =====
-- Commands of one short word, for the tests.
use redis_sentinel_proxy.Base.{
  ℕ, ◌≤◌, [], ◌∷◌, ◌++◌, ◌≢◌, Bytes, codes, some, length, ◌≡◌, refl, arith,
}
use redis_sentinel_proxy.Io.Integer.{pos, parse_int}
use redis_sentinel_proxy.Resp.{max_bulk_len}
use redis_sentinel_proxy.Resp.Lines.{Line}
use redis_sentinel_proxy.Resp.Commands.{no_more, next_arg, IsCommand}

-- `d` is the digit of the word's length.
abbrev pub word_command : ℕ → Bytes → Bytes → Bytes
word_command d word t = codes "*1\r\n$" ++ d ∷ codes "\r\n" ++ ((word ++ codes "\r\n") ++ t)

pub one_digit_Line :
    (m d : ℕ) (t : Bytes) → m ≢ b'\n' → d ≢ b'\n' → Line m (d ∷ []) (m ∷ d ∷ codes "\r\n" ++ t) t
one_digit_Line m d t h k = record {
  starts = refl;
  marker = h;
  no_newline = (k, tt);
  fits = omega arith;
}

one_is_one : parse_int (codes "1") ≡ some (pos 1)
unfolding parse_int
one_is_one = refl

pub word_command-IsCommand :
    (d : ℕ) (word t : Bytes)
    → parse_int (d ∷ []) ≡ some (pos (length word))
    → d ≢ b'\n'
    → length word ≤ max_bulk_len
    → IsCommand (word ∷ []) (word_command d word t) t
word_command-IsCommand d word t p h small = record {
  text = codes "1";
  behind = b'$' ∷ d ∷ codes "\r\n" ++ ((word ++ codes "\r\n") ++ t);
  number = pos 1;
  line = one_digit_Line b'*' b'1' _ (omega arith) (omega arith);
  parsed = one_is_one;
  counted = refl;
  allowed = omega arith;
  bulks =
      next_arg
        (record {
          text = d ∷ [];
          behind = (word ++ codes "\r\n") ++ t;
          crlf = codes "\r\n";
          line = one_digit_Line b'$' d _ (omega arith) h;
          parsed = p;
          allowed = small;
          two = refl;
          splits = refl;
        })
        (no_more refl);
}
