-- ===== src/Syscalls/Return.antt =====
-- `execute` and `halt` of student-distrib/syscalls.c together: what a caller of `execute` finds
-- when the program that it started has ended.
use ece391os.Prelude.{
  ℕ, ◌+◌, ◌^◌, ◌≤◌, ◌<◌, ◌≡◌, ◌≢◌, refl, sym, ap, ◌∙◌, arith, true, if◌then◌else◌, ◌==◌, Option,
  none, some, ==_refl, u8,
}
use mathlib.Core.Path.{subst}
use ece391os.Sched.{current}
use ece391os.Process.{Sys, in_program}
use ece391os.Syscalls.{returns_to, halt}
use ece391os.Syscalls.End.{halt-IsEnded}
use ece391os.Syscalls.Execute.{Frame, Execution, enters, start_process}
use ece391os.Process.Pages.{IsProcess, frame_of}
use ece391os.Syscalls.Execute.Block.{stack_top}
use ece391os.Syscalls.Execute.Started.{IsLoadable, IsStarted, start_process-IsStarted}

-- The process `pid` of `s1` runs until `s2`: it may write memory, change its descriptors and its
-- terminal, and start programs that end; the rest is as it was.
pub record HasRun (s1 s2 : Sys) : Type 0 where
  pub pid : s2.pcb.pid ≡ s1.pcb.pid
  pub parent : s2.pcb.parent_pid ≡ s1.pcb.parent_pid
  pub esp : s2.pcb.parent_esp ≡ s1.pcb.parent_esp
  pub ebp : s2.pcb.parent_ebp ≡ s1.pcb.parent_ebp
  pub slots : (j : ℕ) → s2.process_array j ≡ s1.process_array j
  pub count : s2.process_num ≡ s1.process_num
  pub block : s2.blocks s1.pcb.parent_pid ≡ s1.blocks s1.pcb.parent_pid
  pub program :
      (a : ℕ) → s2.frames (frame_of s1.pcb.parent_pid) a ≡ s1.frames (frame_of s1.pcb.parent_pid) a
  pub screen : (current s2.machine.sched).video_buffer ≡ (current s1.machine.sched).video_buffer
  pub term : s2.machine.sched.cur_sched_term ≡ s1.machine.sched.cur_sched_term
  pub mapped : s2.mapped ≡ s1.mapped

-- What the caller of `s`, which saved the frame pointer `ebp`, finds in `s'`, when the program
-- that it started has ended in `s2`.
pub record IsBack (ebp : ℕ) (s s2 s' : Sys) : Type 0 where
  pub slots : (j : ℕ) → s'.process_array j ≡ s.process_array j
  pub count : s'.process_num ≡ s.process_num
  pub block : s'.pcb ≡ s.pcb
  pub mapped : s'.mapped ≡ s.mapped
  pub program : (a : ℕ) → in_program a ≡ true → s'.mem a ≡ s.mem a
  pub scheduled : (current s'.machine.sched).process_num ≡ (current s.machine.sched).process_num
  pub screen : (current s'.machine.sched).video_buffer ≡ (current s.machine.sched).video_buffer
  pub saved_esp : (current s'.machine.sched).esp ≡ stack_top s.pcb.pid
  pub saved_ebp : (current s'.machine.sched).ebp ≡ ebp
  pub vid_map :
      (current s'.machine.sched).vid_map
      ≡ (if s2.pcb.vidmem == 0 then (current s2.machine.sched).vid_map else 0)
  pub term : s'.machine.sched.cur_sched_term ≡ s.machine.sched.cur_sched_term
  pub others :
      (t : ℕ)
      → t ≢ s.machine.sched.cur_sched_term
      → s'.machine.sched.sched_arr t ≡ s2.machine.sched.sched_arr t
  pub stack : s'.machine.sched.esp0 ≡ stack_top s.pcb.pid

abbrev started_state : (s : Sys) (o : Option (Execution × Sys)) → Sys
started_state s none = s
started_state s (some r) = r.1

-- When a process starts a program in slot `i`, the fourth or a later one, and the program ends
-- with `halt`, control is back at the frame that `execute` saved, with the low byte of the
-- status. The caller finds as they were the slots and the count of the processes, its control
-- block, its program in the pages that are shown, and its terminal as the scheduled one. The
-- row of that terminal has the caller's number and screen again; it holds the top of the caller's
-- kernel stack, which is the stack in use too, and the saved frame pointer. The map of video
-- memory in the row is that of the program at its end, and is taken away if the program has asked
-- for one itself, also where the caller had it; the rows of the other terminals are as the program
-- left them. The slot is the lowest free one and the file can be loaded, as
-- start_process-IsStarted asks; the caller is the process that its terminal runs and whose
-- program is shown; and in between the program has kept what belongs to the kernel.
pub start_process-halt :
    (f : Frame) (ebp addr status i lo hi : ℕ) (s s1 s2 : Sys)
    → IsLoadable f s i lo hi
    → 3 ≤ i
    → s.mapped ≡ frame_of s.pcb.pid
    → (current s.machine.sched).process_num ≡ s.pcb.pid
    → s.process_num + 1 < 2 ^ 32
    → start_process f ebp s ≡ some (enters addr, s1)
    → HasRun s1 s2
    → ((halt status s2).0 ≡ returns_to ebp (u8 status)) × IsBack ebp s s2 (halt status s2).1
start_process-halt f ebp addr status i lo hi s s1 s2 l late shown runs small run r =
    let (back, e) = halt-IsEnded status s2 late_pid known apart self in
    (
      back ∙ ap (λ n. returns_to n (u8 status)) (r.ebp ∙ st.block.parent_ebp),
      record {
        slots = λ j. e.slot j ∙ ground (arith, r.slots j, st.slots j, pid, l.slot.free);
        count = e.count ∙ ground (arith, r.count, st.count);
        block = e.block ∙ ap s2.blocks parent ∙ kept_block;
        mapped = e.mapped ∙ ap frame_of parent ∙ sym shown;
        program = λ a inside.
            e.memory a ∙ rw inside (ap (λ n. s2.frames (frame_of n) a) parent ∙ kept_program a);
        scheduled = e.scheduled ∙ parent ∙ sym runs;
        screen = e.screen ∙ r.screen ∙ ap (λ n. n.video_buffer) st.row;
        saved_esp = e.esp ∙ own_stack;
        saved_ebp = e.ebp ∙ r.ebp ∙ st.block.parent_ebp;
        vid_map = e.vid_map;
        term = e.term ∙ r.term ∙ st.term;
        others = λ t ne. e.others t (λ same. ne (same ∙ r.term ∙ st.term));
        stack = e.stack ∙ own_stack;
      },
    )
  where
    st : IsStarted f ebp i s s1
    st =
        let (s0, run0, st0) = start_process-IsStarted f ebp s i lo hi l in
        subst (λ x. IsStarted f ebp i s x) (ap (started_state s) (sym run0 ∙ run)) st0

    pid : s2.pcb.pid ≡ i + 1
    pid = r.pid ∙ st.block.number

    parent1 : s1.pcb.parent_pid ≡ s.pcb.pid
    parent1 = st.block.parent_pid ∙ runs

    parent : s2.pcb.parent_pid ≡ s.pcb.pid
    parent = r.parent ∙ parent1

    own_stack : s2.pcb.parent_esp ≡ stack_top s.pcb.pid
    own_stack = r.esp ∙ st.block.parent_esp ∙ ap stack_top runs

    known : IsProcess s2.pcb.parent_pid
    known = subst IsProcess (runs ∙ sym parent) l.runs

    late_pid : 3 < s2.pcb.pid
    late_pid = omega (arith, pid)

    apart : s2.pcb.parent_pid ≢ s2.pcb.pid
    apart e = l.shown (shown ∙ ap frame_of (sym parent ∙ e ∙ pid))

    self : s2.mapped ≡ frame_of s2.pcb.pid
    self = r.mapped ∙ st.mapped ∙ ap frame_of (sym pid)

    kept_block : s2.blocks s.pcb.pid ≡ s.pcb
    kept_block =
        subst (λ n. s2.blocks n ≡ s1.blocks n) parent1 r.block
        ∙ ap (λ b. b s.pcb.pid) st.saved
        ∙ rw (==_refl s.pcb.pid) refl

    kept_program : (a : ℕ) → s2.frames (frame_of s.pcb.pid) a ≡ s.mem a
    kept_program a =
        subst (λ n. s2.frames (frame_of n) a ≡ s1.frames (frame_of n) a) parent1 (r.program a)
        ∙ ap (λ b. b (frame_of s.pcb.pid) a) st.programs
        ∙ rw (shown, ==_refl (frame_of s.pcb.pid)) refl
