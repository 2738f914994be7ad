-- ===== src/User/Pingpong/Pictures.antt =====
-- The pictures of syscalls/ece391pingpong.c.
use ece391os.Prelude.{
  ℕ, zero, suc, ◌+◌, ◌≤◌, ◌<◌, ◌≡◌, ◌≢◌, refl, sym, ap, ◌∙◌, arith, ◌||◌, if◌then◌else◌, ◌==◌,
}
use native.Mathlib.Decide.{dec_lt, ℕ_discrete}
use ece391os.Memory.{Mem, store, in_block}
use ece391os.Console.{putc_from}
use ece391os.Console.Sequence.{putc_from_same}
use ece391os.Process.{Sys}
use ece391os.User.Program.{done}
use ece391os.User.Program.Calls.{puts_done}
use ece391os.User.Library.Prints.{HasTerminal, IsText, shown, fdputs-shown}
use ece391os.User.Pingpong.{Layout, buf_max, put_spaces, build_walls, draw}

-- Memory with `n` spaces from `a` on.
abbrev spaced : Mem → ℕ → ℕ → Mem
spaced m a n b = if in_block a n b then b' ' else m b

put_spaces_lem :
    (n a : ℕ) (s : Sys)
    → (m : Mem) × (put_spaces n a s ≡ done tt (record s { mem = m }))
      × ((b : ℕ) → m b ≡ spaced s.mem a n b)
unfolding put_spaces
put_spaces_lem zero a s = (s.mem, refl, λ b. ground arith)
put_spaces_lem (suc n) a s =
    let s1 = record s { mem = store s.mem a b' ' } in
    let (m, run, at) = put_spaces_lem n (a + 1) s1 in (m, run, λ b. at b ∙ ground arith)

-- The picture: walls at 1 and 78, a line feed at 79, the character at `j` and spaces elsewhere.
unfoldable pub picture : ℕ → ℕ → Mem
picture curchar j k =
    if k == j then curchar else if (k == 1) || (k == 78) then b'|' else if k == 79 then 10 else b' '

-- The frame of the picture is in the buffer.
pub record HasWalls (p : Layout) (m : Mem) : Type 0 where
  pub left : (m p.buf ≡ b' ') × (m (p.buf + 1) ≡ b'|')
  pub right : (m (p.buf + 78) ≡ b'|') × (m (p.buf + 79) ≡ 10) × (m (p.buf + 80) ≡ 0)

abbrev walls : Mem → ℕ → Mem
walls m buf =
    store (store (store (store m (buf + 80) 0) (buf + 79) 10) (buf + 78) b'|') (buf + 1) b'|'

walls-HasWalls : (p : Layout) (m : Mem) → m p.buf ≡ b' ' → HasWalls p (walls m p.buf)
walls-HasWalls p m e = record {
  left = (ground arith, ground arith);
  right = (ground arith, ground arith, ground arith);
}

-- The loops before the first picture build its frame.
pub build_walls-HasWalls :
    (p : Layout) (s : Sys)
    → (m : Mem) × (build_walls p s ≡ done tt (record s { mem = m })) × HasWalls p m
unfolding build_walls
build_walls-HasWalls p s =
    let (m, run, at) = put_spaces_lem buf_max p.buf s in
    let first : m p.buf ≡ b' ' = at p.buf ∙ ground arith in
    (walls m p.buf, rw (build_walls, run) refl, walls-HasWalls p m first)

drawn_at :
    (p : Layout) (m m1 : Mem) (curchar j k : ℕ)
    → HasWalls p m
    → ((b : ℕ) → m1 b ≡ spaced m (p.buf + 2) 76 b)
    → 2 ≤ j
    → j < 78
    → k < 80
    → store m1 (p.buf + j) curchar (p.buf + k) ≡ picture curchar j (0 + k)
unfolding picture
drawn_at p m m1 curchar j k w at lo hi lt = elim (ℕ_discrete k j) [
  | yes e ↦ rw e (ground arith)
  | no ne ↦ elim (dec_lt k 2) [
    | yes low ↦ elim (ℕ_discrete k 0) [
      | yes z ↦ rw z (ground (arith, at (p.buf + 0), w.left))
      | no nz ↦ let one : k ≡ 1 = omega arith in rw one (ground (arith, at (p.buf + 1), w.left))
    ]
    | no high ↦ elim (dec_lt k 78) [
      | yes inner ↦ ground (arith, at (p.buf + k))
      | no outer ↦ elim (ℕ_discrete k 78) [
        | yes z ↦ rw z (ground (arith, at (p.buf + 78), w.right))
        | no nz ↦
            let last : k ≡ 79 = omega arith in rw last (ground (arith, at (p.buf + 79), w.right))
      ]
    ]
  ]
]

-- The state in which a picture can be drawn.
pub record CanDraw (p : Layout) (s : Sys) : Type 0 where
  pub terminal : HasTerminal s
  pub has_walls : HasWalls p s.mem
  pub there : p.buf ≢ 0

picture-ne-zero : (curchar j k : ℕ) → curchar ≢ 0 → picture curchar j k ≢ 0
unfolding picture
picture-ne-zero curchar j k ne e = ground (arith, e)

-- From a buffer with its frame and the terminal at descriptor 1, one picture of the program prints
-- a line of 80 bytes: walls in the columns 1 and 78, the character in column `j`, spaces elsewhere
-- and a line feed; nothing else is printed. The frame is kept, so that the next picture can be
-- drawn. `j` is one of the columns between the walls, and the character is not NUL.
pub draw-CanDraw :
    (p : Layout) (curchar j : ℕ) (s : Sys)
    → CanDraw p s
    → curchar ≢ 0
    → 2 ≤ j
    → j < 78
    → (s' : Sys) × (draw p curchar j s ≡ done tt s')
      × CanDraw p s'
      × (s'.machine.console ≡ putc_from 80 (picture curchar j) 0 s.machine.console)
unfolding draw picture
draw-CanDraw p curchar j s c ne lo hi =
    let (m, run, at) = put_spaces_lem 76 (p.buf + 2) s in
    let m1 = store m (p.buf + j) curchar in
    let s1 = record s { mem = m1 } in
    let s2 = shown s1 p.buf 80 in
    let terminal : HasTerminal s1 = record { table = c.terminal.table; used = c.terminal.used } in
    let drawn : (k : ℕ) → k < 80 → m1 (p.buf + k) ≡ picture curchar j (0 + k) =
      λ k lt. drawn_at p s.mem m curchar j k c.has_walls at lo hi lt in
    let ends : m1 (p.buf + 80) ≡ 0 = ground (arith, at (p.buf + 80), c.has_walls.right) in
    let text : IsText m1 p.buf 80 = record {
      string = record {
        inside = λ k lt e. picture-ne-zero curchar j (0 + k) ne (sym (drawn k lt) ∙ e);
        ends = ends;
        fits = omega arith;
      };
      small = omega arith;
      there = c.there;
    } in
    (
      s2,
      rw (draw, run, puts_done p.buf s1 s2 (fdputs-shown s1 p.buf 80 terminal text)) refl,
      record {
        terminal = record { table = c.terminal.table; used = c.terminal.used };
        has_walls = record {
          left = (
            ap m1 (omega arith) ∙ drawn 0 (omega arith) ∙ ground arith,
            drawn 1 (omega arith) ∙ ground arith,
          );
          right =
              (drawn 78 (omega arith) ∙ ground arith, drawn 79 (omega arith) ∙ ground arith, ends);
        };
        there = c.there;
      },
      putc_from_same 80 m1 (picture curchar j) p.buf 0 s.machine.console drawn,
    )
