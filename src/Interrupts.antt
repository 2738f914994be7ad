-- ===== src/Interrupts.antt =====
-- The handlers of student-distrib/idt_init.c. Where the linker puts the texts that they print is a
-- parameter; the call of `printf` pushes its second argument at `frame` + 4.
pub mod Exception
use ece391os.Prelude.{
  ℕ, zero, suc, ◌+◌, ◌-◌, ◌*◌, ◌/◌, ◌%◌, ◌^◌, ◌≤◌, ◌<◌, ◌≡◌, ◌≢◌, ◌↔◌, ◌⊎◌, inl, inr, refl, sym, ap,
  ◌∙◌, arith, Bool, true, false, ◌&&◌, ◌||◌, not, Option, none, some, if◌then◌else◌, ltb, leb, ◌==◌,
  ==_iff, ==_refl, Bool-cases, lt→ltb, le→ltb, ltb→lt, ltb→le, lt→leb, le→leb, leb→le, u8, u32,
  bit_and, bit_or, update, minus_one, signed_lt, sub32, length, get_or, set, List, [], ◌∷◌, ◌++◌,
}
use ece391os.Memory.{Mem, store32}
use ece391os.Pic.{send_eoi}
use ece391os.Console.{Console}
use ece391os.Console.Printf.{Buffers, printf}
use ece391os.Descriptor.{max_fd_num}
use ece391os.Sched.{Machine, Sched, SchedNode, current}
use ece391os.Process.{Pcb, Sys, with_console, with_sched, set_row, map_program}
use ece391os.Syscalls.{Exit, returns_to, close_from}

-- A handler that only prints: `test_interrupt`, `exception_func`, `sys_call_handler`.
unfoldable pub print_text : Buffers → ℕ → ℕ → Sys → Option Sys
print_text b frame text s = elim (printf b frame text s.mem s.machine.console) [
  | none ↦ none
  | some (n, m, c) ↦ some (with_console (record s { mem = m }) c)
]

-- `irq1_handler` to `irq15_handler`, for the line and its text.
unfoldable pub irq_handler : Buffers → ℕ → ℕ → ℕ → Sys → Option Sys
irq_handler b frame line text s =
    let k = s.machine in
    print_text b frame text (record s { machine = record k { pic = send_eoi line k.pic } })

-- The process is taken from the table and from the schedule of its terminal.
unfoldable pub leave_process : Sys → Sys
leave_process s =
    let p = s.pcb in
    let row = current s.machine.sched in
    let s1 = record s {
      process_num = sub32 s.process_num 1;
      process_array = update s.process_array (p.pid - 1) minus_one;
    } in
    set_row s1 (record row {
      process_num = p.parent_pid;
      esp = p.parent_esp;
      ebp = p.parent_ebp;
      vid_map = if p.vidmem == 0 then row.vid_map else 0;
    })

-- The rest: the pages of the parent, the descriptors, and the stack of the parent.
unfoldable pub enter_parent : Sys → Sys
enter_parent s =
    let p = s.pcb in
    let s1 = close_from (max_fd_num + 1) 0 (map_program p.parent_pid s) in
    let d = s1.machine.sched in
    let s2 = with_sched s1 (record d { esp0 = p.parent_esp }) in
    let blocks1 = update s2.blocks p.pid s2.pcb in
    record s2 { blocks = blocks1; pcb = blocks1 p.parent_pid }

-- What `EXCEPTION_MAKER` makes of a text.
unfoldable pub exception : Buffers → ℕ → ℕ → ℕ → Sys → Option (Exit × Sys)
exception b frame format msg s =
    let s0 = record s { mem = store32 s.mem (frame + 4) msg } in
    elim (print_text b frame format s0) [
      | none ↦ none
      | some s1 ↦ some (returns_to s.pcb.parent_ebp 256, enter_parent (leave_process s1))
    ]
