-- ===== src/Console/Scroll.antt =====
-- `clear` and `scroll_up` of student-distrib/lib.c, byte by byte of the video page.
use ece391os.Prelude.{
  ℕ, zero, suc, ◌+◌, ◌-◌, ◌*◌, ◌/◌, ◌%◌, ◌≤◌, ◌<◌, ◌≡◌, arith, if◌then◌else◌, ◌==◌,
}
use ece391os.Memory.{Mem, in_block}
use ece391os.Paging.{Paging, page_size, video_mem_addr}
use ece391os.Console.{
  Console, physical, num_cols, num_rows, space, attrib, blank_cell, blank_from, raise_cell,
  raise_from, clear, scroll_up,
}

-- The physical page behind video memory.
unfoldable pub frame : Paging → ℕ
frame p = p.first_page_table (video_mem_addr / page_size) / page_size * page_size

pub physical_video :
    (p : Paging) (k : ℕ) → k < page_size → physical p (video_mem_addr + k) ≡ frame p + k
unfolding frame physical
physical_video p k h = rw (page, offset)
  where
    page : (video_mem_addr + k) / page_size ≡ video_mem_addr / page_size
    page = omega arith

    offset : (video_mem_addr + k) % page_size ≡ k
    offset = omega arith

-- What stands in a blank cell: a space, and the attribute behind it.
abbrev pub blank : ℕ → ℕ
blank k = if k % 2 == 0 then space else attrib

-- The video page after the cells from `i` on, `n` of them, were blanked.
abbrev pub blanked : Paging → Mem → ℕ → ℕ → Mem
blanked p m i n a = if in_block (frame p + 2 * i) (2 * n) a then blank (a - frame p) else m a

blank_cell_lem :
    (p : Paging) (m : Mem) (i a : ℕ) → i < 2000 → blank_cell p m i a ≡ blanked p m i 1 a
blank_cell_lem p m i a h = ground (arith, physical_video p (2 * i), physical_video p (2 * i + 1))

pub blank_from_lem :
    (n i : ℕ) (p : Paging) (m : Mem) (a : ℕ)
    → i + n ≤ 2000
    → blank_from n i p m a ≡ blanked p m i n a
unfolding blank_from
blank_from_lem zero i p m a h = ground arith
blank_from_lem (suc n) i p m a h =
    ground (arith, blank_from_lem n (i + 1) p (blank_cell p m i) a, blank_cell_lem p m i a)

-- The cells from `i` on, `n` of them, hold the characters that stood one row below.
abbrev pub raised : Paging → Mem → ℕ → ℕ → Mem
raised p m i n a =
    if in_block (frame p + 2 * i) (2 * n) a
    then (if (a - frame p) % 2 == 0 then m (a + 2 * num_cols) else attrib)
    else m a

raise_cell_lem : (p : Paging) (m : Mem) (i a : ℕ) → i < 1920 → raise_cell p m i a ≡ raised p m i 1 a
raise_cell_lem p m i a h = ground (
  arith,
  physical_video p (2 * i),
  physical_video p (2 * i + 1),
  physical_video p (2 * (i + num_cols)),
)

pub raise_from_lem :
    (n i : ℕ) (p : Paging) (m : Mem) (a : ℕ)
    → i + n ≤ 1920
    → raise_from n i p m a ≡ raised p m i n a
unfolding raise_from
raise_from_lem zero i p m a h = ground arith
raise_from_lem (suc n) i p m a h = ground (
  arith,
  raise_from_lem n (i + 1) p (raise_cell p m i) a,
  raise_cell_lem p m i a,
  raise_cell_lem p m i (a + 2 * num_cols),
)

-- `clear` makes every cell of the screen blank and changes no other byte of memory.
pub clear-blanked :
    (c : Console) (a : ℕ) → (clear c).mem a ≡ blanked c.paging c.mem 0 (num_rows * num_cols) a
unfolding clear
clear-blanked c a = blank_from_lem (num_rows * num_cols) 0 c.paging c.mem a (omega arith)

-- The screen after it has moved up a row: each cell but those of the last row holds the character
-- of the cell below it.
abbrev pub scrolled : Paging → Mem → Mem
scrolled p m a =
    if in_block (frame p) 3840 a
    then (if (a - frame p) % 2 == 0 then m (a + 2 * num_cols) else attrib)
    else if in_block (frame p + 3840) 160 a
    then blank (a - frame p)
    else m a

-- `scroll_up` moves the characters of each row to the row above, makes the last row blank, gives
-- every cell the same attribute, and changes no byte outside the screen.
pub scroll_up-scrolled : (c : Console) (a : ℕ) → (scroll_up c).mem a ≡ scrolled c.paging c.mem a
unfolding scroll_up
scroll_up-scrolled c a = ground (
  arith,
  blank_from_lem num_cols 1920 p (raise_from 1920 0 p c.mem) a,
  raise_from_lem 1920 0 p c.mem a,
)
  where
    p : Paging
    p = c.paging
