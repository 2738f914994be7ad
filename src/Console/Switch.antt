-- ===== src/Console/Switch.antt =====
-- `change_shell` and `back_space` of student-distrib/lib.c.
use ece391os.Prelude.{
  ℕ, ◌+◌, ◌-◌, ◌*◌, ◌≤◌, ◌<◌, ◌≡◌, ◌≢◌, ◌⊎◌, inl, inr, refl, sym, ap, arith, Bool, true, false,
  ◌||◌, not, if◌then◌else◌, ◌==◌, ==_iff, ==_refl, Bool-cases, signed_lt,
}
use ece391os.Memory.{Mem, memcpy, in_block}
use ece391os.Memory.Copy.{memcpy-copied, copied}
use ece391os.Paging.{page_size, video_mem_addr}
use ece391os.Console.{
  Shell, Console, physical, shell_num, space, step_back, move_cursor, back_space, change_shell,
}
use ece391os.Console.Scroll.{frame, physical_video}
use ece391os.Console.Screen.{IsOnScreen, position, cell-physical}

-- The physical pages in use are apart: the video page, and the save page of each terminal.
abbrev pub save_page : Console → ℕ → ℕ
save_page c t = physical c.paging (c.terminals t).vid_mem

abbrev pub Apart : ℕ → ℕ → Type 0
Apart a b = (a + page_size ≤ b) ⊎ (b + page_size ≤ a)

pub record HasPages (c : Console) : Type 0 where
  pub video : (t : ℕ) → t < shell_num → Apart (frame c.paging) (save_page c t)
  pub saves :
      (t u : ℕ) → t < shell_num → u < shell_num → t ≢ u → Apart (save_page c t) (save_page c u)

-- What the copies of `change_shell` leave: the saved page holds what stood on the screen, and the
-- screen what stood on the page `shown`.
abbrev pub switched : Mem → ℕ → ℕ → ℕ → Mem
switched m video save shown a =
    if in_block save page_size a
    then m (video + (a - save))
    else if in_block video page_size a
    then m (shown + (a - video))
    else m a

-- The two copies on three pages; `same` tells whether the next page is the saved one.
two_copies :
    (m : Mem) (video save next a : ℕ) (same : Bool)
    → Apart video save
    → Apart video next
    → (same ≡ true → save ≡ next)
    → (same ≡ false → Apart save next)
    → memcpy (memcpy m save video page_size) video next page_size a
      ≡ switched m video save (if same then video else next) a
two_copies m video save next a same av an es eo =
    ground (arith, second, first a, first (next + (a - video)))
  where
    m1 : Mem
    m1 = memcpy m save video page_size

    first : (b : ℕ) → m1 b ≡ copied m save video page_size b
    first b = memcpy-copied page_size m save video b (omega arith)

    second : memcpy m1 video next page_size a ≡ copied m1 video next page_size a
    second = memcpy-copied page_size m1 video next a (omega arith)

in_range :
    (next : ℕ) → next < shell_num → signed_lt next 0 || not (signed_lt next shell_num) ≡ false
in_range next h = ground arith

-- `change_shell` to one of the three terminals saves the screen in the page of the terminal that
-- was viewed, and puts the saved page of the next one on the screen; no other byte of memory
-- changes. The terminals themselves and the page tables are as before. The physical pages of the
-- screen and of the terminals are apart.
pub change_shell-switched :
    (c : Console) (next : ℕ)
    → HasPages c
    → c.cur_terminal < shell_num
    → next < shell_num
    → let c' = (change_shell next c).1 in
      let video = frame c.paging in
      ((change_shell next c).0 ≡ 0)
      × (c'.cur_terminal ≡ next)
      × (c'.terminals ≡ c.terminals)
      × (c'.paging ≡ c.paging)
      × ((a : ℕ)
          → c'.mem a
            ≡ switched c.mem video
                (save_page c c.cur_terminal)
                (if next == c.cur_terminal then video else save_page c next)
                a)
unfolding change_shell move_cursor
change_shell-switched c next pages hc hn =
    rw (in_range next hn, base)
      (
        refl,
        refl,
        refl,
        refl,
        λ a.
            two_copies c.mem (frame c.paging) (save_page c c.cur_terminal) (save_page c next) a
              (next == c.cur_terminal) (pages.video _ hc) (pages.video _ hn)
              (λ e. ap (save_page c) (sym ((==_iff next c.cur_terminal).0 e)))
              (λ e. pages.saves c.cur_terminal next hc hn (ground arith)),
      )
  where
    base : physical c.paging video_mem_addr ≡ frame c.paging
    base = ground (arith, physical_video c.paging 0)

pub step_back_lem :
    (s : Shell)
    → IsOnScreen s
    → 0 < position s
    → IsOnScreen (step_back s) × (position (step_back s) + 1 ≡ position s)
unfolding step_back
step_back_lem s on pos = elim (Bool-cases (s.x == 0)) [
  | inl edge ↦
      let e : s.x ≡ 0 = (==_iff s.x 0).0 edge in
      (record { column = ground arith; row = ground arith }, ground arith)
  | inr inner ↦ (record { column = ground arith; row = ground arith }, ground arith)
]

-- `back_space` takes a cursor on the screen that is not at the top left corner to the cell
-- before it, blanks the character there, and changes no other byte of memory and no other
-- terminal.
pub back_space_lem :
    (c : Console) (a : ℕ)
    → let s = c.terminals c.cur_terminal in
      let s' = (back_space c).terminals c.cur_terminal in
      IsOnScreen s
      → 0 < position s
      → IsOnScreen s'
        × (position s' + 1 ≡ position s)
        × ((back_space c).mem a
            ≡ (if a == frame c.paging + 2 * position s' then space else c.mem a))
        × ((j : ℕ) → j ≢ c.cur_terminal → (back_space c).terminals j ≡ c.terminals j)
unfolding back_space move_cursor
back_space_lem c a on pos =
    let s' = step_back (c.terminals c.cur_terminal) in
    let (on', moved) = step_back_lem (c.terminals c.cur_terminal) on pos in
    rw (==_refl c.cur_terminal) (
      on',
      moved,
      ground (arith, cell-physical c.paging s'.x s'.y on'.column on'.row),
      λ j ne. ground arith,
    )
