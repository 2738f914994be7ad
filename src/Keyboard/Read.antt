-- ===== src/Keyboard/Read.antt =====
-- `terminal_read` of student-distrib/kb.c after its wait: the bytes that the caller gets.
use ece391os.Prelude.{
  ℕ, zero, suc, ◌+◌, ◌^◌, ◌≤◌, ◌<◌, ◌≡◌, refl, ap, ◌∙◌, arith, if◌then◌else◌, ltb, ==_refl, length,
  get_or, List,
}
use Prim.Native.Nat.{min}
use ece391os.Console.{Shell, Console}
use ece391os.Keyboard.{buf_length, cur_shell, set_cur_shell, buffer_bytes, terminal_read_finish}
use ece391os.Keyboard.Line.{IsLine, IsReady, Kept-IsReady, set_shell-Kept}

buffer_bytes_lem :
    (n i : ℕ) (f : ℕ → ℕ) (k : ℕ)
    → (length (buffer_bytes n i f) ≡ n)
      × (get_or (buffer_bytes n i f) k 0 ≡ (if ltb k n then f (i + k) else 0))
unfolding buffer_bytes
buffer_bytes_lem zero i f k = (refl, ground arith)
buffer_bytes_lem (suc n) i f zero = (ap suc (buffer_bytes_lem n (i + 1) f 0).0, ground arith)
buffer_bytes_lem (suc n) i f (suc k) =
    let (len, at) = buffer_bytes_lem n (i + 1) f k in (ap suc len, ground (arith, at))

-- What `terminal_read` delivers from the line of the terminal that is viewed.
pub record IsDelivered (c : Console) (n : ℕ) (bytes : List ℕ) (c' : Console) : Type 0 where
  pub count : length bytes ≡ n
  pub bytes_read : (i : ℕ) → get_or bytes i 0 ≡ (if ltb i n then (cur_shell c).kb_buf i else 0)
  pub inside : n ≤ buf_length
  pub ready : IsReady c'
  pub emptied : (cur_shell c').buf_index ≡ 0

emptied : Shell → Shell
emptied s = record s { buf_index = 0 }

emptied-IsLine : (s : Shell) → IsLine s → IsLine (emptied s)
unfolding emptied
emptied-IsLine s line = record {
  ended = omega arith;
  running = λ f. omega arith;
  on_screen = record { column = line.on_screen.column; row = line.on_screen.row };
  typed = omega arith;
}

-- After its wait `terminal_read` of a non-negative number of bytes returns that number, or the
-- length of the line of the viewed terminal if that is less; the caller gets exactly these first
-- bytes of the line, all from inside the line buffer, and the line is empty afterwards.
pub terminal_read_finish-IsDelivered :
    (nbytes : ℕ) (c : Console)
    → IsReady c
    → nbytes < 2 ^ 31
    → let (n, bytes, c') = terminal_read_finish nbytes c in
      (n ≡ min nbytes (cur_shell c).buf_index) × IsDelivered c n bytes c'
unfolding terminal_read_finish emptied
terminal_read_finish-IsDelivered nbytes c r h = (
  count,
  record {
    count = (buffer_bytes_lem n 0 s.kb_buf 0).0;
    bytes_read = λ i. (buffer_bytes_lem n 0 s.kb_buf i).1 ∙ first i;
    inside = ground (arith, line.ended, count);
    ready =
        Kept-IsReady c (set_cur_shell c (emptied s)) r
          (set_shell-Kept c c (emptied s) refl (λ j ne. refl) (emptied-IsLine s line));
    emptied = rw (==_refl c.cur_terminal) refl;
  },
)
  where
    s : Shell
    s = cur_shell c

    line : IsLine s
    line = r.lines c.cur_terminal r.viewed

    n : ℕ
    n = (terminal_read_finish nbytes c).0

    first :
        (i : ℕ) → (if ltb i n then s.kb_buf (0 + i) else 0) ≡ (if ltb i n then s.kb_buf i else 0)
    first i = ap (λ k. if ltb i n then s.kb_buf k else 0) (omega arith)

    count : n ≡ min nbytes s.buf_index
    count = ground (arith, line.ended)
