-- ===== src/Syscalls/End.antt =====
-- `halt` of student-distrib/syscalls.c: what the end of a process gives back.
use ece391os.Prelude.{
  ℕ, zero, suc, ◌+◌, ◌-◌, ◌≤◌, ◌<◌, ◌≡◌, ◌≢◌, inl, inr, refl, sym, ap, ◌∙◌, arith, false, ◌||◌,
  if◌then◌else◌, ◌==◌, ==_refl, Bool-cases, u8, minus_one, signed_lt, sub32,
}
use ece391os.Descriptor.{
  JumpTable, rtc_table, file_table, dir_table, stdin_table, stdout_table, max_fd_num,
}
use native.Mathlib.Decide.{ℕ_discrete}
use mathlib.Core.Path.{subst}
use ece391os.Sched.{Sched, current}
use ece391os.Process.{in_program, map_program, Sys}
use ece391os.Process.Pages.{IsProcess, frame_of, shown_frame-set}
use ece391os.Syscalls.{returns_to, in_use, jump_close, close, close_from, halt}

-- The calls of `close` leave the process, its place in the table and the schedule as they are.
pub record SameProcess (s s' : Sys) : Type 0 where
  pub sched : s'.machine.sched ≡ s.machine.sched
  pub count : s'.process_num ≡ s.process_num
  pub slots : s'.process_array ≡ s.process_array
  pub memory : s'.mem ≡ s.mem
  pub programs : s'.frames ≡ s.frames
  pub shown : s'.mapped ≡ s.mapped
  pub blocks : s'.blocks ≡ s.blocks
  pub used : (fd : ℕ) → (s'.pcb.fdt fd).flags ≡ in_use → (s.pcb.fdt fd).flags ≡ in_use

-- Two states that differ in the console and the clock alone.
alike :
    (s s' : Sys)
    → s' ≡ record s {
      rtc = s'.rtc;
      machine = let m = s.machine in record m { console = s'.machine.console };
    }
    → SameProcess s s'
alike s s' e = record {
  sched = ap (λ x. x.machine.sched) e;
  count = ap (λ x. x.process_num) e;
  slots = ap (λ x. x.process_array) e;
  memory = ap (λ x. x.mem) e;
  programs = ap (λ x. x.frames) e;
  shown = ap (λ x. x.mapped) e;
  blocks = ap (λ x. x.blocks) e;
  used = λ k u. ap (λ x. (x.pcb.fdt k).flags) (sym e) ∙ u;
}

jump_close-SameProcess :
    (table : JumpTable) (fd : ℕ) (s : Sys) → SameProcess s (jump_close table fd s).1
unfolding jump_close
jump_close-SameProcess rtc_table fd s = alike s _ refl
jump_close-SameProcess file_table fd s = alike s _ refl
jump_close-SameProcess dir_table fd s = alike s _ refl
jump_close-SameProcess stdin_table fd s = alike s _ refl
jump_close-SameProcess stdout_table fd s = alike s _ refl

close-SameProcess :
    (fd : ℕ) (s : Sys)
    → SameProcess s (close fd s).1
      × (2 ≤ fd → fd ≤ max_fd_num → ((close fd s).1.pcb.fdt fd).flags ≢ in_use)
unfolding close
close-SameProcess fd s = elim (Bool-cases (signed_lt fd 2 || signed_lt max_fd_num fd)) [
  | inl bad ↦ rw bad (same, λ lo hi. absurd (ground arith))
  | inr good ↦ elim (Bool-cases ((s.pcb.fdt fd).flags == in_use)) [
    | inl used ↦
        rw (good, used)
          (
            record {
              sched = k.sched;
              count = k.count;
              slots = k.slots;
              memory = k.memory;
              programs = k.programs;
              shown = k.shown;
              blocks = k.blocks;
              used = λ j e. ground (arith, k.used j);
            },
            λ lo hi. rw (==_refl fd) (ground arith),
          )
    | inr free ↦ rw (good, free) (same, λ lo hi. ground (arith, free))
  ]
]
  where
    same : SameProcess s s
    same = alike s s refl

    k : SameProcess s (jump_close (s.pcb.fdt fd).jump_ptr fd s).1
    k = jump_close-SameProcess (s.pcb.fdt fd).jump_ptr fd s

pub close_from-SameProcess :
    (n i : ℕ) (s : Sys)
    → i + n ≡ 8
    → SameProcess s (close_from n i s)
      × ((fd : ℕ)
          → 2 ≤ fd
          → i ≤ fd
          → fd ≤ max_fd_num
          → ((close_from n i s).pcb.fdt fd).flags ≢ in_use)
unfolding close_from
close_from-SameProcess zero i s e = (alike s s refl, λ fd lo h hi. absurd (omega arith))
close_from-SameProcess (suc n) i s e =
    let (first, closed) = close-SameProcess i s in
    let (rest, all) = close_from-SameProcess n (i + 1) (close i s).1 (omega arith) in
    (
      record {
        sched = rest.sched ∙ first.sched;
        count = rest.count ∙ first.count;
        slots = rest.slots ∙ first.slots;
        memory = rest.memory ∙ first.memory;
        programs = rest.programs ∙ first.programs;
        shown = rest.shown ∙ first.shown;
        blocks = rest.blocks ∙ first.blocks;
        used = λ j h. first.used j (rest.used j h);
      },
      λ fd lo h hi u. elim (ℕ_discrete i fd) [
        | yes p ↦
            closed (omega arith) (omega arith)
              (subst (λ k. ((close i s).1.pcb.fdt k).flags ≡ in_use) (sym p) (rest.used fd u))
        | no ne ↦ all fd lo (omega arith) hi u
      ],
    )

-- What is left of a process that ended, and what its parent goes on with.
pub record IsEnded (s : Sys) (s' : Sys) : Type 0 where
  pub closed : (fd : ℕ) → 2 ≤ fd → fd ≤ max_fd_num → ((s'.blocks s.pcb.pid).fdt fd).flags ≢ in_use
  pub slot :
      (i : ℕ) → s'.process_array i ≡ (if i == s.pcb.pid - 1 then minus_one else s.process_array i)
  pub count : s'.process_num ≡ sub32 s.process_num 1
  pub scheduled : (current s'.machine.sched).process_num ≡ s.pcb.parent_pid
  pub esp : (current s'.machine.sched).esp ≡ s.pcb.parent_esp
  pub ebp : (current s'.machine.sched).ebp ≡ s.pcb.parent_ebp
  pub screen : (current s'.machine.sched).video_buffer ≡ (current s.machine.sched).video_buffer
  pub vid_map :
      (current s'.machine.sched).vid_map
      ≡ (if s.pcb.vidmem == 0 then (current s.machine.sched).vid_map else 0)
  pub stack : s'.machine.sched.esp0 ≡ s.pcb.parent_esp
  pub term : s'.machine.sched.cur_sched_term ≡ s.machine.sched.cur_sched_term
  pub others :
      (t : ℕ)
      → t ≢ s.machine.sched.cur_sched_term
      → s'.machine.sched.sched_arr t ≡ s.machine.sched.sched_arr t
  pub block : s'.pcb ≡ s.blocks s.pcb.parent_pid
  pub mapped : s'.mapped ≡ frame_of s.pcb.parent_pid
  pub memory :
      (a : ℕ)
      → s'.mem a ≡ (if in_program a then s.frames (frame_of s.pcb.parent_pid) a else s.mem a)

-- `halt` of a process that is not one of the three shells goes back to the frame that its parent,
-- another process, saved, with the low byte of the status. No descriptor from 2 to 7 of the
-- process stays in use, its slot is free and no other slot changed, one process less is counted,
-- and the pages show the frame of the parent, which finds its control block and its program as
-- they were. The row of this terminal names the parent and the stack registers that it saved,
-- with the screen as before and the map of video memory taken away if the process had asked for
-- it; no other row has changed.
pub halt-IsEnded :
    (status : ℕ) (s : Sys)
    → 3 < s.pcb.pid
    → IsProcess s.pcb.parent_pid
    → s.pcb.parent_pid ≢ s.pcb.pid
    → s.mapped ≡ frame_of s.pcb.pid
    → ((halt status s).0 ≡ returns_to s.pcb.parent_ebp (u8 status)) × IsEnded s (halt status s).1
unfolding halt map_program
halt-IsEnded status s h known apart shown =
    let shell : (s.pcb.pid == 1) || (s.pcb.pid == 2) || (s.pcb.pid == 3) ≡ false = ground arith in
    let parent : (s.pcb.parent_pid == s.pcb.pid) ≡ false = ground arith in
    let frame : (frame_of s.pcb.parent_pid == frame_of s.pcb.pid) ≡ false = ground arith in
    rw shell (
      refl,
      record {
        closed = λ fd lo hi. rw (==_refl s.pcb.pid) (all fd lo (omega arith) hi);
        slot = λ i. ap (λ f. if i == s.pcb.pid - 1 then minus_one else f i) k.slots;
        count = ap (λ n. sub32 n 1) k.count;
        scheduled = rw (==_refl d.cur_sched_term) refl;
        esp = rw (==_refl d.cur_sched_term) refl;
        ebp = rw (==_refl d.cur_sched_term) refl;
        screen = rw (==_refl d.cur_sched_term) (ap (λ x. (current x).video_buffer) k.sched);
        vid_map =
            rw (==_refl d.cur_sched_term)
              (ap (λ x. if s.pcb.vidmem == 0 then (current x).vid_map else 0) k.sched);
        stack = refl;
        term = ap (λ x. x.cur_sched_term) k.sched;
        others = λ t ne.
            ground (arith, ap (λ x. x.sched_arr t) k.sched, ap (λ x. x.cur_sched_term) k.sched);
        block = rw parent (ap (λ f. f s.pcb.parent_pid) k.blocks);
        mapped = shown_frame-set _ s.pcb.parent_pid known;
        memory = λ a.
            rw
              (
                shown_frame-set _ s.pcb.parent_pid known,
                k.memory,
                k.programs,
                k.shown,
                shown,
                frame,
              )
              refl;
      },
    )
  where
    d : Sched
    d = (close_from 8 0 s).machine.sched

    k : SameProcess s (close_from 8 0 s)
    k = (close_from-SameProcess 8 0 s refl).0

    all :
        (fd : ℕ)
        → 2 ≤ fd
        → 0 ≤ fd
        → fd ≤ max_fd_num
        → ((close_from 8 0 s).pcb.fdt fd).flags ≢ in_use
    all = (close_from-SameProcess 8 0 s refl).1
