-- ===== src/Resp/Commands.antt =====
-- `readCommand` against the grammar of client commands: what it accepts, the name and the bytes
-- that it returns, and what it leaves unread.
mod Arguments
mod Rounds
use mathlib.Core.Path.{subst}
use redis_sentinel_proxy.Base.{
  ℕ, zero, suc, ◌+◌, ◌≤◌, [], ◌∷◌, ◌++◌, List, Bool, some, true, false, not, Bytes, ◌==◌, length,
  length-append, append_assoc, append-nil, if◌then◌else◌, ◌≡◌, refl, sym, ap, ◌∙◌, arith,
  Bool-cases, inl, inr, ==_iff,
}
use redis_sentinel_proxy.Io.{
  Reader, IoError, Result, ok, err, bind-eq-ok, guard, too_many_elements, ◌>>=◌,
}
use redis_sentinel_proxy.Io.Integer.{ℤ, pos_part, exceeds, parse_int}
use redis_sentinel_proxy.Resp.{
  Command, byte_at, payload, parse_resp_int, max_resp_elements, read_line, to_upper, read_arg,
  read_args, read_array, peek_dispatch, read_command,
}
use redis_sentinel_proxy.Resp.Lines.{
  Line, line_bytes, payload-line_bytes, read_line_accepts, Line-splits,
}
use Arguments.{read_arg_sound, read_arg_exact, line_starts, marked-Line, parse_resp_int-some}
use Rounds.{name_after, Gathered, read_args_sound, read_args_exact}
pub use Arguments.{Bulk, Bulks, no_more, next_arg, IsCommand, name_of}

allowed_count :
    (z : ℤ) (u : Unit {0})
    → guard (not (exceeds z max_resp_elements)) too_many_elements ≡ ok u
    → pos_part z ≤ max_resp_elements
allowed_count z u h = ground arith

within_limit : (z : ℤ) → pos_part z ≤ max_resp_elements → exceeds z max_resp_elements ≡ false
within_limit z h = ground arith

module _ (unicode : Bytes → Bytes) where
  read_array_parts :
      (r : Reader) {c : Command} {r' : Reader}
      → read_array unicode r ≡ ok (c, r')
      → (line : Bytes) × (r1 : Reader) × (z : ℤ) × (read_line r ≡ ok (line, r1))
        × (parse_resp_int (payload line) ≡ ok z)
        × (pos_part z ≤ max_resp_elements)
        × (read_args unicode (pos_part z) true (record { name = []; raw = line }) r1 ≡ ok (c, r'))
  unfolding read_array
  read_array_parts r h =
      let (a, e1, h1) = bind-eq-ok (read_line r) _ h in
      let (z, e2, h2) = bind-eq-ok (parse_resp_int (payload a.0)) _ h1 in
      let (u, e3, h3) =
        bind-eq-ok (guard (not (exceeds z max_resp_elements)) too_many_elements) _ h2 in
      (a.0, a.1, z, e1, e2, allowed_count z u e3, h3)

  pub read_command_lem : (r : Reader) → read_command unicode r ≡ peek_dispatch unicode r.unread r
  unfolding read_command
  read_command_lem r = refl

  peek_star :
      (s : Bytes) (r : Reader) {x : Command × Reader}
      → peek_dispatch unicode s r ≡ ok x
      → (rest : Bytes) × (s ≡ b'*' ∷ rest) × (read_array unicode r ≡ ok x)
  unfolding peek_dispatch
  peek_star [] r h = cc
  peek_star (c ∷ rest) r h = elim (Bool-cases (c == b'*')) [
    | inl star ↦ (rest, ap (λ x. x ∷ rest) ((==_iff c b'*').0 star), rw star at h)
    | inr other ↦ cc (rw other at h)
  ]

  peek_star_array :
      (rest : Bytes) (r : Reader) → peek_dispatch unicode (b'*' ∷ rest) r ≡ read_array unicode r
  unfolding peek_dispatch
  peek_star_array rest r = refl

  name_after_first : (args : List Bytes) → name_after unicode true [] args ≡ name_of unicode args
  name_after_first [] = refl
  name_after_first (arg ∷ args) = refl

  command_of :
      (r r1 r' : Reader) (c : Command) (line text : Bytes) (z : ℤ)
      → Line b'*' text r.unread r1.unread
      → line ≡ line_bytes b'*' text
      → parse_int text ≡ some z
      → r1.fin ≡ r.fin
      → pos_part z ≤ max_resp_elements
      → (g : Gathered unicode true (record { name = []; raw = line }) r1.unread r1.fin c r')
        × (length g.args ≡ pos_part z)
      → (args : List Bytes) × IsCommand args r.unread r'.unread
        × (c.name ≡ name_of unicode args)
        × (r.unread ≡ c.raw ++ r'.unread)
        × (r'.fin ≡ r.fin)
  command_of r r1 r' c line text z is_line l p f small (g, len) =
      let joined : r.unread ≡ (line_bytes b'*' text ++ g.more) ++ r'.unread =
        Line-splits is_line
        ∙ ap (λ x. line_bytes b'*' text ++ x) g.splits
        ∙ sym (append_assoc (line_bytes b'*' text) g.more r'.unread) in
      (
        g.args,
        record {
          text = text;
          behind = r1.unread;
          number = z;
          line = is_line;
          parsed = p;
          counted = len;
          allowed = omega (arith, small, len);
          bulks = g.bulks;
        },
        g.name_is ∙ name_after_first g.args,
        joined ∙ ap (λ x. x ++ r'.unread) (ap (λ x. x ++ g.more) (sym l) ∙ sym g.raw_is),
        g.fin_is ∙ f,
      )

  -- When `readCommand` returns a command, the stream began with one: the name is its first argument
  -- in upper case (empty if it has none), the raw bytes are exactly what was taken off the stream.
  pub read_command_sound :
      (r r' : Reader) (c : Command)
      → read_command unicode r ≡ ok (c, r')
      → (args : List Bytes) × IsCommand args r.unread r'.unread
        × (c.name ≡ name_of unicode args)
        × (r.unread ≡ c.raw ++ r'.unread)
        × (r'.fin ≡ r.fin)
  read_command_sound r r' c h =
      let (rest, starts, h') = peek_star r.unread r (sym (read_command_lem r) ∙ h) in
      let (line, r1, z, e1, e2, small, e3) = read_array_parts r h' in
      let mark = line_starts b'*' rest r r1 line e1 starts in
      let (text, is_line, l, p, f) = marked-Line b'*' r r1 line z e1 mark e2 in
      command_of r r1 r' c line text z is_line l p f small
        (read_args_sound unicode (pos_part z) true _ r1 c r' e3)

  read_array_run :
      (args : List Bytes) (s t : Bytes) (fin : IoError) (c : IsCommand args s t)
      → read_array unicode (record { unread = s; fin = fin })
        ≡ read_args unicode
            (length args)
            true
            (record { name = []; raw = line_bytes b'*' c.text })
            (record { unread = c.behind; fin = fin })
  unfolding read_array
  read_array_run args s t fin c =
      let line_read =
        read_line_accepts (record { unread = s; fin = fin })
          (record { unread = c.behind; fin = fin }) (line_bytes b'*' c.text) b'*' c.text refl c.line
          refl in
      rw (
        line_read,
        payload-line_bytes b'*' c.text,
        parse_resp_int-some c.text c.number c.parsed,
        within_limit c.number (omega (arith, c.counted, c.allowed)),
        c.counted,
      )

  -- A stream that begins with a command is read as that command: `readCommand` returns its first
  -- argument in upper case and exactly its bytes, and leaves what follows unread.
  pub read_command_exact :
      (args : List Bytes) (s t : Bytes) (fin : IoError)
      → IsCommand args s t
      → (raw : Bytes) × (s ≡ raw ++ t)
        × (read_command unicode (record { unread = s; fin = fin })
            ≡ ok (
              record { name = name_of unicode args; raw = raw },
              record { unread = t; fin = fin },
            ))
  read_command_exact args s t fin c =
      let head = line_bytes b'*' c.text in
      let start : Command = record { name = []; raw = head } in
      let (more, splits, run) = read_args_exact unicode true start fin c.bulks in
      (
        head ++ more,
        Line-splits c.line ∙ ap (λ x. head ++ x) splits ∙ sym (append_assoc head more t),
        read_command_lem (record { unread = s; fin = fin })
            ∙ ap (λ x. peek_dispatch unicode x (record { unread = s; fin = fin })) c.line.starts
            ∙ peek_star_array _ (record { unread = s; fin = fin })
            ∙ read_array_run args s t fin c
            ∙ run
            ∙ λ i. ok (
              record { name = name_after_first args i; raw = head ++ more },
              record { unread = t; fin = fin },
            ),
      )
