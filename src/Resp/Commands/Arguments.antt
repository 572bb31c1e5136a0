-- ===== src/Resp/Commands/Arguments.antt =====
-- The grammar of client commands, arrays of bulk strings, and one round of `readCommand`.
use mathlib.Core.Path.{subst}
use redis_sentinel_proxy.Base.{
  ℕ, ◌+◌, ◌≤◌, [], ◌∷◌, ◌++◌, List, some, Bytes, ◌==◌, length, take, drop, take-append, drop-append,
  take-append-drop, length-take, length-drop, le→leb, length-append, append_assoc, ◌≡◌, refl, sym,
  ap, ◌∙◌, arith,
}
use redis_sentinel_proxy.Io.{
  Reader, IoError, Result, ok, bind-eq-ok, guard, not_bulk_string, read_full,
}
use redis_sentinel_proxy.Io.Integer.{ℤ, pos, pos_part, parse_int}
use redis_sentinel_proxy.Resp.{
  byte_at, payload, parse_resp_int, bulk_len, max_bulk_len, max_resp_elements, read_line, to_upper,
  read_arg,
}
use redis_sentinel_proxy.Resp.Lines.{
  Line, line_bytes, payload-line_bytes, read_line_iff, read_line_accepts, Line-splits,
}

-- `s` begins with the bulk string `arg`; the two bytes behind its payload are not looked at.
pub record Bulk (arg s t : Bytes) : Type 0 where
  pub text : Bytes
  pub behind : Bytes
  pub crlf : Bytes
  pub line : Line b'$' text s behind
  pub parsed : parse_int text ≡ some (pos (length arg))
  pub allowed : length arg ≤ max_bulk_len
  pub two : length crlf ≡ 2
  pub splits : behind ≡ (arg ++ crlf) ++ t

pub data Bulks : List Bytes → Bytes → Bytes → Type 0 where
  no_more : {s t : Bytes} → s ≡ t → Bulks [] s t
  next_arg :
      {arg s t u : Bytes} {args : List Bytes}
      → Bulk arg s t
      → Bulks args t u
      → Bulks (arg ∷ args) s u

-- `s` begins with the command of these arguments, the name first. A negative count is no arguments.
pub record IsCommand (args : List Bytes) (s t : Bytes) : Type 0 where
  pub text : Bytes
  pub behind : Bytes
  pub number : ℤ
  pub line : Line b'*' text s behind
  pub parsed : parse_int text ≡ some number
  pub counted : length args ≡ pos_part number
  pub allowed : length args ≤ max_resp_elements
  pub bulks : Bulks args behind t

last_step :
    (n : ℕ) (line : Bytes) (r1 : Reader) (b : Bytes × Reader) (r2 : Reader) (arg bytes : Bytes)
    → read_full (n + 2) r1 ≡ ok b
    → ◌≡◌ {A = Result ((Bytes × Bytes) × Reader)}
        (ok ((take n b.0, line ++ b.0), b.1))
        (ok ((arg, bytes), r2))
    → (read_full (n + 2) r1 ≡ ok (b.0, r2)) × (arg ≡ take n b.0) × (bytes ≡ line ++ b.0)
last_step n line r1 b r2 arg bytes e h = (cc, cc, cc)

guard_passed : (c : ℕ) (u : Unit {0}) → guard (c == b'$') not_bulk_string ≡ ok u → c ≡ b'$'
guard_passed c u h = ground arith

module _ (unicode : Bytes → Bytes) where
  -- The upper-cased first argument, or nothing.
  abbrev pub name_of : List Bytes → Bytes
  name_of [] = []
  name_of (arg ∷ _) = to_upper unicode arg

  read_arg_parts :
      (r r2 : Reader) (arg bytes : Bytes)
      → read_arg unicode r ≡ ok ((arg, bytes), r2)
      → (line : Bytes) × (r1 : Reader) × (z : ℤ) × (n : ℕ) × (body : Bytes) × (read_line r
          ≡ ok (line, r1))
        × (byte_at line 0 ≡ b'$')
        × (parse_resp_int (payload line) ≡ ok z)
        × (bulk_len z ≡ ok n)
        × (read_full (n + 2) r1 ≡ ok (body, r2))
        × (arg ≡ take n body)
        × (bytes ≡ line ++ body)
  unfolding read_arg
  read_arg_parts r r2 arg bytes h =
      let (a, e1, h1) = bind-eq-ok (read_line r) _ h in
      let (_, e2, h2) = bind-eq-ok (guard (byte_at a.0 0 == b'$') not_bulk_string) _ h1 in
      let (z, e3, h3) = bind-eq-ok (parse_resp_int (payload a.0)) _ h2 in
      let (n, e4, h4) = bind-eq-ok (bulk_len z) _ h3 in
      let (b, e5, h5) = bind-eq-ok (read_full (n + 2) a.1) _ h4 in
      let (e6, e7, e8) = last_step n a.0 a.1 b r2 arg bytes e5 h5 in
      (a.0, a.1, z, n, b.0, e1, guard_passed (byte_at a.0 0) _ e2, e3, e4, e6, e7, e8)

bulk_len_sound : (z : ℤ) (n : ℕ) → bulk_len z ≡ ok n → (z ≡ pos n) × (n ≤ max_bulk_len)
bulk_len_sound z n h = ground arith

bulk_len_pos : (n : ℕ) → n ≤ max_bulk_len → bulk_len (pos n) ≡ ok n
bulk_len_pos n h = ground arith

read_full_sound :
    (n : ℕ) (r r' : Reader) (body : Bytes)
    → read_full n r ≡ ok (body, r')
    → (r.unread ≡ body ++ r'.unread) × (length body ≡ n) × (r'.fin ≡ r.fin)
unfolding read_full
read_full_sound n r r' body h = ground (arith, take-append-drop n r.unread, length-take n r.unread)

read_full_exact :
    (n : ℕ) (body t : Bytes) (fin : IoError)
    → length body ≡ n
    → read_full n (record { unread = body ++ t; fin = fin })
      ≡ ok (body, record { unread = t; fin = fin })
unfolding read_full
read_full_exact n body t fin e = rw (← e) (
    rw (
      take-append body t,
      drop-append body t,
      le→leb (length body) (length (body ++ t)) (omega (arith, length-append body t)),
    ))

pub parse_resp_int_sound :
    (text : Bytes) (z : ℤ) → parse_resp_int text ≡ ok z → parse_int text ≡ some z
unfolding parse_resp_int
parse_resp_int_sound text z h = ground arith

pub parse_resp_int-some :
    (text : Bytes) (z : ℤ) → parse_int text ≡ some z → parse_resp_int text ≡ ok z
unfolding parse_resp_int
parse_resp_int-some text z e = rw (e, parse_resp_int)

-- The line begins with the first byte of the stream.
pub line_starts :
    (m : ℕ) (rest : Bytes) (r r1 : Reader) (line : Bytes)
    → read_line r ≡ ok (line, r1)
    → r.unread ≡ m ∷ rest
    → byte_at line 0 ≡ m
line_starts m rest r r1 line e s =
    let (m', text, l, is_line, f) = (read_line_iff r r1 line).0 e in
    ap (λ x. byte_at x 0) l ∙ ap (λ x. byte_at x 0) (sym is_line.starts ∙ s)

-- The line of type `m` that `readLine` returned.
pub marked-Line :
    (m : ℕ) (r r1 : Reader) (line : Bytes) (z : ℤ)
    → read_line r ≡ ok (line, r1)
    → byte_at line 0 ≡ m
    → parse_resp_int (payload line) ≡ ok z
    → (text : Bytes) × Line m text r.unread r1.unread
      × (line ≡ line_bytes m text)
      × (parse_int text ≡ some z)
      × (r1.fin ≡ r.fin)
marked-Line m r r1 line z e mark p =
    let (m', text, l, is_line, f) = (read_line_iff r r1 line).0 e in
    let same : m' ≡ m = ap (λ x. byte_at x 0) (sym l) ∙ mark in
    (
      text,
      subst (λ x. Line x text r.unread r1.unread) same is_line,
      l ∙ ap (λ x. line_bytes x text) same,
      parse_resp_int_sound text z
          (ap parse_resp_int (sym (ap payload l ∙ payload-line_bytes m' text)) ∙ p),
      f,
    )

module _ (unicode : Bytes → Bytes) where
  pub read_arg_sound :
      (r r2 : Reader) (arg bytes : Bytes)
      → read_arg unicode r ≡ ok ((arg, bytes), r2)
      → Bulk arg r.unread r2.unread × (r.unread ≡ bytes ++ r2.unread) × (r2.fin ≡ r.fin)
  read_arg_sound r r2 arg bytes h =
      let (line, r1, z, n, body, e1, e2, e3, e4, e5, e6, e7) =
        read_arg_parts unicode r r2 arg bytes h in
      let (text, is_line, l, p, f) = marked-Line b'$' r r1 line z e1 e2 e3 in
      let (zn, small) = bulk_len_sound z n e4 in
      let (sp, len, f2) = read_full_sound (n + 2) r1 r2 body e5 in
      let arg_len : length arg ≡ n = omega (arith, ap length e6, length-take n body, len) in
      let joined : arg ++ drop n body ≡ body =
        ap (λ x. x ++ drop n body) e6 ∙ take-append-drop n body in
      (
        record {
          text = text;
          behind = r1.unread;
          crlf = drop n body;
          line = is_line;
          parsed = p ∙ ap some (zn ∙ ap pos (sym arg_len));
          allowed = omega (arith, arg_len, small);
          two = omega (arith, length-drop n body, len);
          splits = sp ∙ ap (λ x. x ++ r2.unread) (sym joined);
        },
        Line-splits is_line
            ∙ ap (λ x. line_bytes b'$' text ++ x) sp
            ∙ sym (append_assoc (line_bytes b'$' text) body r2.unread)
            ∙ ap (λ x. x ++ r2.unread) (ap (λ x. x ++ body) (sym l) ∙ sym e7),
        f2 ∙ f,
      )

  read_arg_run :
      (arg s t : Bytes) (fin : IoError) (b : Bulk arg s t)
      → read_arg unicode (record { unread = s; fin = fin })
        ≡ ok ((arg, line_bytes b'$' b.text ++ (arg ++ b.crlf)), record { unread = t; fin = fin })
  unfolding read_arg
  read_arg_run arg s t fin b =
      let line_read =
        read_line_accepts (record { unread = s; fin = fin })
          (record { unread = b.behind; fin = fin }) (line_bytes b'$' b.text) b'$' b.text refl b.line
          refl in
      let number = parse_resp_int-some b.text (pos (length arg)) b.parsed in
      rw (line_read, payload-line_bytes b'$' b.text, number, bulk_len_pos (length arg) b.allowed)
        (rw (
          b.splits,
          read_full_exact (length arg + 2) (arg ++ b.crlf) t fin
              (omega (arith, b.two, length-append arg b.crlf)),
          take-append arg b.crlf,
        ))

  pub read_arg_exact :
      (arg s t : Bytes) (fin : IoError)
      → Bulk arg s t
      → (bytes : Bytes) × (s ≡ bytes ++ t)
        × (read_arg unicode (record { unread = s; fin = fin })
            ≡ ok ((arg, bytes), record { unread = t; fin = fin }))
  read_arg_exact arg s t fin b =
      let head = line_bytes b'$' b.text in
      let body = arg ++ b.crlf in
      (
        head ++ body,
        Line-splits b.line ∙ ap (λ x. head ++ x) b.splits ∙ sym (append_assoc head body t),
        read_arg_run arg s t fin b,
      )
