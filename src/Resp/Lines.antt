-- ===== src/Resp/Lines.antt =====
-- `readLine`: exactly which byte streams it accepts, what it returns and what it leaves unread.
mod Slices
mod Loop
mod Ending
use redis_sentinel_proxy.Base.{
  ℕ, zero, suc, ◌+◌, ◌≤◌, [], ◌∷◌, ◌++◌, ◌≢◌, ◌↔◌, Bytes, length, length-append, ◌≡◌, refl, sym, ap,
  ◌∙◌, arith, append_assoc,
}
use mathlib.Core.Path.{subst, ap₂}
use redis_sentinel_proxy.Io.{IoError, Reader, ok}
use redis_sentinel_proxy.Resp.{finish_line, read_line_loop, read_line, line_fuel}
use Slices.{All-append, NoNewline-left}
use Loop.{reading, Accepted, loop_accepts, loop_sound}
use Ending.{finish_line-line_bytes, finish_line_text}
pub use Slices.{NoNewline, full_slice}
pub use Loop.{longest_line}
pub use Ending.{line_bytes, payload-line_bytes}

-- `s` begins with the line of type byte `m` and content `text`, and `t` is what follows it.
pub record Line (m : ℕ) (text s t : Bytes) : Type 0 where
  pub starts : s ≡ m ∷ (text ++ b'\r' ∷ b'\n' ∷ t)
  pub marker : m ≢ b'\n'
  pub no_newline : NoNewline text
  pub fits : length text + 3 ≤ longest_line

Line-of_body :
    (m : ℕ) (text l s : Bytes) (r : Reader) (a : Accepted [] s l r)
    → a.body ≡ m ∷ (text ++ b'\r' ∷ [])
    → (l ≡ line_bytes m text) × Line m text s r.unread
Line-of_body m text l s r a e =
    let regroup : (t : Bytes) → a.body ++ b'\n' ∷ t ≡ m ∷ (text ++ b'\r' ∷ b'\n' ∷ t) =
      λ t. ap (λ x. x ++ b'\n' ∷ t) e ∙ ap (◌∷◌ m) (append_assoc text (b'\r' ∷ []) (b'\n' ∷ t)) in
    let plain : NoNewline (m ∷ (text ++ b'\r' ∷ [])) = subst NoNewline e a.no_newline in
    let whole = a.whole ∙ regroup [] in
    (
      whole,
      record {
        starts = a.splits ∙ regroup r.unread;
        marker = plain.0;
        no_newline = NoNewline-left text (b'\r' ∷ []) plain.1;
        fits = omega (arith, ap length whole, a.fits, length-append text (b'\r' ∷ b'\n' ∷ []));
      },
    )

Accepted_of_Line :
    (m : ℕ) (text t : Bytes) {s : Bytes} (fin : IoError) (line : Line m text s t)
    → read_line_loop line_fuel [] (reading fin (m ∷ (text ++ b'\r' ∷ b'\n' ∷ t)))
      ≡ ok (line_bytes m text, reading fin t)
Accepted_of_Line m text t fin line =
    let body = m ∷ (text ++ b'\r' ∷ []) in
    let regroup : (u : Bytes) → body ++ b'\n' ∷ u ≡ m ∷ (text ++ b'\r' ∷ b'\n' ∷ u) =
      λ u. ap (◌∷◌ m) (append_assoc text (b'\r' ∷ []) (b'\n' ∷ u)) in
    rw (← regroup t, ← regroup [])
      (loop_accepts fin line_fuel 0 [] body t
        (line.marker, All-append _ text (b'\r' ∷ []) line.no_newline (omega arith)) refl refl
        (omega (arith, line.fits, length-append text (b'\r' ∷ [])))
        (rw regroup (finish_line-line_bytes m text)))

read_line_loop_lem : (r : Reader) → read_line r ≡ read_line_loop line_fuel [] r
unfolding read_line
read_line_loop_lem r = refl

read_line_sound :
    (r r' : Reader) (l : Bytes)
    → read_line r ≡ ok (l, r')
    → (m : ℕ) × (text : Bytes) × (l ≡ line_bytes m text)
      × Line m text r.unread r'.unread
      × (r'.fin ≡ r.fin)
read_line_sound r r' l h =
    let (a, f) =
      loop_sound r.fin line_fuel 0 [] r.unread l r' refl refl (omega arith)
        (sym (read_line_loop_lem r) ∙ h) in
    let (m, text, e) =
      finish_line_text a.body (subst (λ x. finish_line x ≡ ok x) a.whole a.checked) in
    let (whole, line) = Line-of_body m text l r.unread r' a e in (m, text, whole, line, f)

pub read_line_accepts :
    (r r' : Reader) (l : Bytes) (m : ℕ) (text : Bytes)
    → l ≡ line_bytes m text
    → Line m text r.unread r'.unread
    → r'.fin ≡ r.fin
    → read_line r ≡ ok (l, r')
read_line_accepts r r' l m text e line f =
    let start : r ≡ reading r.fin (m ∷ (text ++ b'\r' ∷ b'\n' ∷ r'.unread)) =
      λ i. record { unread = line.starts i; fin = r.fin } in
    let end : reading r.fin r'.unread ≡ r' = λ i. record { unread = r'.unread; fin = sym f i } in
    read_line_loop_lem r
    ∙ ap (λ x. read_line_loop line_fuel [] x) start
    ∙ Accepted_of_Line m text r'.unread r.fin line
    ∙ ap₂ (λ x y. ok (x, y)) (sym e) end

-- `readLine` returns a line exactly when the stream begins with one: a type byte, content without
-- a newline, CR and LF, 69632 bytes in all at most. It takes that line off the stream, and no more.
pub read_line_iff :
    (r r' : Reader) (l : Bytes)
    → (read_line r ≡ ok (l, r')) ↔ (
        (m : ℕ) × (text : Bytes) × (l ≡ line_bytes m text)
        × Line m text r.unread r'.unread
        × (r'.fin ≡ r.fin))
read_line_iff r r' l =
    (read_line_sound r r' l, λ (m, text, e, line, f). read_line_accepts r r' l m text e line f)

pub length-line_bytes : (m : ℕ) (text : Bytes) → length (line_bytes m text) ≡ length text + 3
length-line_bytes m text = omega (arith, length-append text (b'\r' ∷ b'\n' ∷ []))

pub Line-splits : {m : ℕ} {text s t : Bytes} → Line m text s t → s ≡ line_bytes m text ++ t
Line-splits {m} {text} {s} {t} line =
    line.starts ∙ ap (◌∷◌ m) (sym (append_assoc text (b'\r' ∷ b'\n' ∷ []) t))

pub length-Line :
    {m : ℕ} {text s t : Bytes} → Line m text s t → length s ≡ length text + 3 + length t
length-Line {m} {text} {s} {t} line =
    omega (arith, ap length line.starts, length-append text (b'\r' ∷ b'\n' ∷ t))
