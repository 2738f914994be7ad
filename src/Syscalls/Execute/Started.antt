-- ===== src/Syscalls/Execute/Started.antt =====
-- What `execute` of student-distrib/syscalls.c sets up for a program that is there.
use ece391os.Prelude.{
  ℕ, ◌+◌, ◌-◌, ◌≤◌, ◌<◌, ◌≡◌, ◌≢◌, inr, refl, ap, ◌∙◌, arith, false, Option, some, if◌then◌else◌,
  ◌==◌, ==_refl, u32, update, minus_one,
}
use Prim.Native.Nat.{min}
use ece391os.Memory.{Mem, load32}
use ece391os.Text.{strncpy}
use ece391os.Text.Compare.{IsBytes}
use ece391os.Text.Outside.{memcpy_outside, strncpy_outside}
use ece391os.FileSystem.{num_inodes, inode_address, read_data}
use ece391os.FileSystem.Blocks.{load32-Same, file_size, file_byte, IsWithin, Same}
use ece391os.FileSystem.ReadData.{read_data-loaded}
use ece391os.FileSystem.Keeps.{SameFile, SameFile-Same}
use ece391os.Paging.{user_prog}
use ece391os.Keyboard.{buf_length}
use ece391os.Sched.{current}
use ece391os.Process.{Sys, in_program, map_program}
use ece391os.Process.Pages.{IsProcess, frame_of, shown_frame-set}
use ece391os.Syscalls.Execute.Slots.{IsFree, take_slot_lem}
use ece391os.Syscalls.Execute.Block.{stack_top, stack_of_lem, IsBlock, new_block-IsBlock}
use ece391os.Syscalls.Execute.{
  Frame, enters, max_progs, prog_offset, max_prog_size, block_of, args_of, place_args, load_program,
  enter_process, start_in, start_process,
}

-- Where the locals of `execute` and the image are: below the pages of the program.
pub record IsPlaced (f : Frame) (hi : ℕ) : Type 0 where
  pub dentry : f.file_dentry + 40 ≤ user_prog
  pub args : f.pcb_args + buf_length ≤ user_prog
  pub image : hi ≤ user_prog

place_args_outside :
    (f : Frame) (args pid a : ℕ) (m : Mem)
    → f.pcb_args + buf_length ≤ user_prog
    → pid ≤ max_progs
    → user_prog ≤ a
    → place_args f args pid m a ≡ m a
unfolding place_args args_of block_of
place_args_outside f args pid a m h hp ha =
    memcpy_outside buf_length (strncpy m f.pcb_args args buf_length) (args_of pid) f.pcb_args a
      (ground arith)
    ∙ strncpy_outside buf_length m f.pcb_args args a (ground arith)

-- What `execute` needs: a free slot, and a file that is there, in memory below the pages of the
-- program.
pub record IsLoadable (f : Frame) (s : Sys) (i lo hi : ℕ) : Type 0 where
  pub slot : IsFree s.process_array i
  pub runs : IsProcess (current s.machine.sched).process_num
  pub shown : s.mapped ≢ frame_of (i + 1)
  pub bytes : IsBytes s.mem
  pub page_bytes : IsBytes (s.frames (frame_of (i + 1)))
  pub placed : IsPlaced f hi
  pub valid : load32 s.mem (f.file_dentry + 36) < num_inodes s.mem s.fs
  pub within : IsWithin s.mem s.fs (load32 s.mem (f.file_dentry + 36)) lo hi
  pub header :
      (lo ≤ inode_address s.fs (load32 s.mem (f.file_dentry + 36)))
      × (inode_address s.fs (load32 s.mem (f.file_dentry + 36)) + 4 ≤ hi)

abbrev pub inode_of : Frame → Sys → ℕ
inode_of f s = load32 s.mem (f.file_dentry + 36)

-- What holds when the new process enters its first instruction.
pub record IsStarted (f : Frame) (ebp i : ℕ) (s s' : Sys) : Type 0 where
  pub slots : (j : ℕ) → s'.process_array j ≡ (if j == i then 1 else s.process_array j)
  pub count : s'.process_num ≡ u32 (s.process_num + 1)
  pub block : IsBlock s'.pcb (i + 1) (current s.machine.sched).process_num ebp
  pub saved : s'.blocks ≡ update s.blocks s.pcb.pid s.pcb
  pub row :
      current s'.machine.sched
      ≡ (let row = current s.machine.sched in record row { process_num = i + 1 })
  pub term : s'.machine.sched.cur_sched_term ≡ s.machine.sched.cur_sched_term
  pub others :
      (t : ℕ)
      → t ≢ s.machine.sched.cur_sched_term
      → s'.machine.sched.sched_arr t ≡ s.machine.sched.sched_arr t
  pub stack : s'.machine.sched.esp0 ≡ stack_top (i + 1)
  pub mapped : s'.mapped ≡ frame_of (i + 1)
  pub programs : s'.frames ≡ update s.frames s.mapped s.mem
  pub program :
      (k : ℕ)
      → k < min max_prog_size (file_size s.mem s.fs (inode_of f s))
      → s'.mem (user_prog + prog_offset + k) ≡ file_byte s.mem s.fs (inode_of f s) k

-- Memory once the pages are those of process `n`.
abbrev shown_mem : ℕ → Sys → Mem
shown_mem n s a = if in_program a then update s.frames s.mapped s.mem (frame_of n) a else s.mem a

shown_mem-Same : (n : ℕ) (s : Sys) (lo hi : ℕ) → hi ≤ user_prog → Same s.mem (shown_mem n s) lo hi
shown_mem-Same n s lo hi h a l lt = ground arith

shown_mem-IsBytes :
    (n : ℕ) (s : Sys)
    → IsBytes s.mem
    → IsBytes (s.frames (frame_of n))
    → s.mapped ≢ frame_of n
    → IsBytes (shown_mem n s)
shown_mem-IsBytes n s b bn ne a = ground (arith, b a, bn a)

map_program-shown_mem :
    (i : ℕ) (s : Sys)
    → i < max_progs
    → (map_program (i + 1) (record s { process_array = update s.process_array i 1 })).mem
      ≡ shown_mem (i + 1) s
unfolding map_program
map_program-shown_mem i s lt =
    ap (λ n a. if in_program a then update s.frames s.mapped s.mem n a else s.mem a)
      (shown_frame-set s.machine.console.paging (i + 1) (omega arith))

loads :
    (f : Frame) (s : Sys) (i lo hi : ℕ)
    → IsLoadable f s i lo hi
    → let dest = user_prog + prog_offset in
      let s1 = record s { process_array = update s.process_array i 1 } in
      let n = min max_prog_size (file_size s.mem s.fs (inode_of f s)) in
      (m' : Mem) × (load_program f (map_program (i + 1) s1) ≡ some (n, m'))
      × ((k : ℕ) → k < n → m' (dest + k) ≡ file_byte s.mem s.fs (inode_of f s) k)
unfolding load_program map_program
loads f s i lo hi l =
    let (m', run, at) =
      read_data-loaded m s.fs inode 0 (user_prog + prog_offset) max_prog_size lo hi
        (shown_mem-IsBytes (i + 1) s l.bytes l.page_bytes l.shown) file.within
        (rw file.inodes l.valid) (omega arith) (omega arith)
        (inr (omega (arith, l.placed.image))) in
    let count : min max_prog_size (file_size m s.fs inode - 0)
        ≡ min max_prog_size (file_size s.mem s.fs inode) =
      ground (arith, file.size) in
    (
      m',
      ap reads (map_program-shown_mem i s (omega (arith, l.slot.below))) ∙ goes m' run count,
      λ k lt. at (user_prog + prog_offset + k) ∙ ground (arith, count) ∙ file.bytes k (omega arith),
    )
  where
    m : Mem
    m = shown_mem (i + 1) s

    inode : ℕ
    inode = inode_of f s

    reads : Mem → Option (ℕ × Mem)
    reads x =
        let s1 = map_program (i + 1) (record s { process_array = update s.process_array i 1 }) in
        load_program f (record s1 { mem = x })

    same : Same s.mem m lo hi
    same = shown_mem-Same (i + 1) s lo hi l.placed.image

    file : SameFile s.mem m s.fs inode lo hi
    file = SameFile-Same s.mem m s.fs inode lo hi l.within same l.header.0 l.header.1

    entry : load32 m (f.file_dentry + 36) ≡ inode
    entry =
        load32-Same s.mem m 0 user_prog (f.file_dentry + 36)
          (shown_mem-Same (i + 1) s 0 user_prog (omega arith)) (omega arith)
          (omega (arith, l.placed.dentry))

    goes :
        (m' : Mem)
        → read_data m s.fs inode 0 (user_prog + prog_offset) max_prog_size
          ≡ some (min max_prog_size (file_size m s.fs inode - 0), m')
        → min max_prog_size (file_size m s.fs inode - 0)
          ≡ min max_prog_size (file_size s.mem s.fs inode)
        → reads m ≡ some (min max_prog_size (file_size s.mem s.fs inode), m')
    goes m' run count = rw (reads, entry) (run ∙ ap (λ k. some (k, m')) count)

start_in-loaded :
    (f : Frame) (ebp pid n : ℕ) (s1 : Sys) (m' : Mem)
    → load_program f (map_program pid s1) ≡ some (n, m')
    → n < minus_one
    → let s2 = map_program pid s1 in
      start_in f ebp (pid, s1) ≡ some (enter_process f ebp pid (record s2 { mem = m' }))
unfolding start_in
start_in-loaded f ebp pid n s1 m' run lt =
    let good : (n == minus_one) ≡ false = ground arith in rw (start_in, run, good) refl

-- For a free slot among the six, whose frame is not the one shown, and a file in memory below the
-- pages of the program, `start_process`, which is `execute` from the choice of the slot on,
-- enters the program at the address that stands at offset 24 of the header's buffer. The process
-- gets the lowest free slot and its number, no other slot changes, and one more process is
-- counted. Its control block has its number, the process that the terminal ran as its parent,
-- the top of that parent's kernel stack and the frame pointer for the way back, no video memory,
-- the place of its arguments, descriptors 0 and 1 for the terminal, and the others free; the
-- block of the caller is kept. The row of this terminal has the new number and is otherwise as
-- it was, no other row changes, and the kernel stack is that of the new process. Its pages, which
-- are now shown, hold the file from its first byte, up to the size of the pages, while the program
-- shown before is kept. The terminal runs a process, memory and the pages hold bytes, and the
-- entry and the arguments of `execute` lie below the pages too.
pub start_process-IsStarted :
    (f : Frame) (ebp : ℕ) (s : Sys) (i lo hi : ℕ)
    → IsLoadable f s i lo hi
    → (s' : Sys) × (start_process f ebp s ≡ some (enters (load32 s'.mem (f.elf_buf + 24)), s'))
      × IsStarted f ebp i s s'
unfolding start_process map_program enter_process
start_process-IsStarted f ebp s i lo hi l =
    let (m', run, at) = loads f s i lo hi l in
    (
      (enter_process f ebp (i + 1) (ready m')).1,
      ap (start_in f ebp) (take_slot_lem f s i l.slot)
          ∙ start_in-loaded f ebp (i + 1) _ _ m' run (omega arith),
      record {
        slots = λ j. refl;
        count = refl;
        block =
            new_block-IsBlock f ebp (current s.machine.sched).process_num (i + 1) l.runs
              (omega (arith, l.slot.below));
        saved = refl;
        row = rw (==_refl s.machine.sched.cur_sched_term) refl;
        term = refl;
        others = λ t ne. ground arith;
        stack = stack_of_lem (i + 1) (omega (arith, l.slot.below));
        mapped = shown_frame-set _ (i + 1) (omega (arith, l.slot.below));
        programs = refl;
        program = λ k lt.
            place_args_outside f f.args (i + 1) (user_prog + prog_offset + k) m' l.placed.args
              (omega (arith, l.slot.below)) (omega arith)
            ∙ at k lt;
      },
    )
  where
    ready : Mem → Sys
    ready m' =
        let s1 = record s { process_array = update s.process_array i 1 } in
        let s2 = map_program (i + 1) s1 in record s2 { mem = m' }
