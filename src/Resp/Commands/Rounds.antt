-- ===== src/Resp/Commands/Rounds.antt =====
-- The loop of `readCommand` over the arguments.
use redis_sentinel_proxy.Base.{
  ℕ, zero, suc, [], ◌∷◌, ◌++◌, List, Bool, true, false, Bytes, length, append_assoc, append-nil,
  if◌then◌else◌, ◌≡◌, refl, sym, ap, ◌∙◌,
}
use redis_sentinel_proxy.Io.{Reader, IoError, ok, bind-eq-ok}
use redis_sentinel_proxy.Resp.{Command, to_upper, read_arg, read_args}
use redis_sentinel_proxy.Resp.Commands.Arguments.{
  Bulks, no_more, next_arg, read_arg_sound, read_arg_exact,
}

module _ (unicode : Bytes → Bytes) where
  -- The name after a run of the loop over these arguments.
  abbrev pub name_after : Bool → Bytes → List Bytes → Bytes
  name_after true name (arg ∷ _) = to_upper unicode arg
  name_after _ name _ = name

  -- What a run of the loop from command `c` to command `c'` has read.
  pub record Gathered (first : Bool) (c : Command) (s : Bytes) (fin : IoError) (c' : Command)
      (r' : Reader) : Type 0 where
    pub args : List Bytes
    pub more : Bytes
    pub bulks : Bulks args s r'.unread
    pub splits : s ≡ more ++ r'.unread
    pub raw_is : c'.raw ≡ c.raw ++ more
    pub name_is : c'.name ≡ name_after first c.name args
    pub fin_is : r'.fin ≡ fin

  abbrev with_arg : Bool → Command → Bytes → Bytes → Command
  with_arg first c arg bytes = record {
    name = if first then to_upper unicode arg else c.name;
    raw = c.raw ++ bytes;
  }

  read_args_next :
      (left : ℕ) (first : Bool) (c : Command) (r : Reader) {c' : Command} {r' : Reader}
      → read_args unicode (suc left) first c r ≡ ok (c', r')
      → (arg : Bytes) × (bytes : Bytes) × (r1 : Reader) × (read_arg unicode r
          ≡ ok ((arg, bytes), r1))
        × (read_args unicode left false (with_arg first c arg bytes) r1 ≡ ok (c', r'))
  unfolding read_args
  read_args_next left first c r h =
      let (a, e, h') = bind-eq-ok (read_arg unicode r) _ h in (a.0.0, a.0.1, a.1, e, h')

  name_after_arg :
      (first : Bool) (name arg : Bytes) (args : List Bytes)
      → name_after false (if first then to_upper unicode arg else name) args
        ≡ name_after first name (arg ∷ args)
  name_after_arg true name arg args = refl
  name_after_arg false name arg args = refl

  name_after_none : (first : Bool) (name : Bytes) → name ≡ name_after first name []
  name_after_none true name = refl
  name_after_none false name = refl

  read_args_none :
      (first : Bool) (c : Command) (r : Reader) {c' : Command} {r' : Reader}
      → read_args unicode zero first c r ≡ ok (c', r')
      → (c ≡ c') × (r ≡ r')
  unfolding read_args
  read_args_none first c r h = (cc, cc)

  pub read_args_sound :
      (left : ℕ) (first : Bool) (c : Command) (r : Reader) (c' : Command) (r' : Reader)
      → read_args unicode left first c r ≡ ok (c', r')
      → (g : Gathered first c r.unread r.fin c' r') × (length g.args ≡ left)
  read_args_sound zero first c r c' r' h =
      let (same, same_r) = read_args_none first c r h in
      (
        record {
          args = [];
          more = [];
          bulks = no_more (ap (λ (x : Reader). x.unread) same_r);
          splits = ap (λ (x : Reader). x.unread) same_r;
          raw_is = ap (λ (x : Command). x.raw) (sym same) ∙ sym (append-nil c.raw);
          name_is = ap (λ (x : Command). x.name) (sym same) ∙ name_after_none first c.name;
          fin_is = ap (λ (x : Reader). x.fin) (sym same_r);
        },
        refl,
      )
  read_args_sound (suc left) first c r c' r' h =
      let (arg, bytes, r1, e, h') = read_args_next left first c r h in
      let (bulk, splits, fin) = read_arg_sound unicode r r1 arg bytes e in
      let (g, len) = read_args_sound left false (with_arg first c arg bytes) r1 c' r' h' in
      (
        record {
          args = arg ∷ g.args;
          more = bytes ++ g.more;
          bulks = next_arg bulk g.bulks;
          splits =
              splits ∙ ap (λ x. bytes ++ x) g.splits ∙ sym (append_assoc bytes g.more r'.unread);
          raw_is = g.raw_is ∙ append_assoc c.raw bytes g.more;
          name_is = g.name_is ∙ name_after_arg first c.name arg g.args;
          fin_is = g.fin_is ∙ fin;
        },
        ap suc len,
      )

  pub read_args_exact :
      (first : Bool) (c : Command) (fin : IoError) {args : List Bytes} {s t : Bytes}
      → Bulks args s t
      → (more : Bytes) × (s ≡ more ++ t)
        × (read_args unicode (length args) first c (record { unread = s; fin = fin })
            ≡ ok (
              record { name = name_after first c.name args; raw = c.raw ++ more },
              record { unread = t; fin = fin },
            ))
  unfolding read_args
  read_args_exact first c fin (no_more e) = (
    [],
    e,
    λ i. ok (
      record { name = name_after_none first c.name i; raw = sym (append-nil c.raw) i },
      record { unread = e i; fin = fin },
    ),
  )
  read_args_exact first c fin (next_arg {arg} {s} {t} {u} {args} bulk rest) =
      let (bytes, splits, run) = read_arg_exact unicode arg s t fin bulk in
      let (more, splits', run') = read_args_exact false (with_arg first c arg bytes) fin rest in
      (
        bytes ++ more,
        splits ∙ ap (λ x. bytes ++ x) splits' ∙ sym (append_assoc bytes more u),
        rw run (
            run' ∙ λ i. ok (
              record {
                name = name_after_arg first c.name arg args i;
                raw = append_assoc c.raw bytes more i;
              },
              record { unread = u; fin = fin },
            )),
      )
