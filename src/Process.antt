-- ===== src/Process.antt =====
-- The state of student-distrib/syscalls.c and .h: the control blocks of the processes, the process
-- slots, and the programs in memory.
use ece391os.Prelude.{ℕ, ◌+◌, ◌/◌, Bool, ◌&&◌, if◌then◌else◌, ltb, leb, update}
use ece391os.Memory.{Mem}
use ece391os.FileSystem.{FileSystem}
use ece391os.Descriptor.{Fdt}
use ece391os.Rtc.{Rtc}
use ece391os.Paging.{Paging, user_prog, directory_index, set_page_dir_entry}
use ece391os.Console.{Console}
use ece391os.Sched.{Machine, Sched, SchedNode, four_mb, program_of}
pub mod Pages

-- `pcb_t`; `args` is the address of the array of that name.
pub record Pcb : Type 0 where
  pub pid : ℕ
  pub parent_pid : ℕ
  pub parent_esp : ℕ
  pub parent_ebp : ℕ
  pub fdt : Fdt
  pub args : ℕ
  pub vidmem : ℕ

-- Where the linker puts the strings that `open` compares with, and the name of the shell.
pub record Literals : Type 0 where
  pub empty_name : ℕ
  pub stdin_name : ℕ
  pub stdout_name : ℕ
  pub shell_name : ℕ

-- The state of the kernel as the running process meets it. `pcb` is its own control block, and
-- `blocks` those of the other processes, by process number. Physical memory is counted in frames of
-- four megabytes: the pages from `user_prog` on show the frame `mapped`, and `frames` holds the
-- frames that are not shown, at the same addresses.
pub record Sys : Type 0 where
  pub mem : Mem
  pub fs : FileSystem
  pub literals : Literals
  pub pcb : Pcb
  pub rtc : Rtc
  pub machine : Machine
  pub process_num : ℕ
  pub process_array : ℕ → ℕ
  pub program_addr_test : ℕ
  pub blocks : ℕ → Pcb
  pub mapped : ℕ
  pub frames : ℕ → Mem

abbrev pub with_fdt : Sys → Fdt → Sys
with_fdt s t = record s { pcb = let p = s.pcb in record p { fdt = t } }

abbrev pub with_console : Sys → Console → Sys
with_console s c = record s { machine = let m = s.machine in record m { console = c } }

abbrev pub with_sched : Sys → Sched → Sys
with_sched s d = record s { machine = let m = s.machine in record m { sched = d } }

abbrev pub term_of : Sys → ℕ
term_of s = s.machine.sched.cur_sched_term

-- `sched_arr[cur_sched_term] = n`.
abbrev pub set_row : Sys → SchedNode → Sys
set_row s n =
    with_sched s
      (let d = s.machine.sched in record d { sched_arr = update d.sched_arr d.cur_sched_term n })

-- A pointer into the four megabytes of the program.
abbrev pub in_program : ℕ → Bool
in_program a = leb user_prog a && ltb a (user_prog + four_mb)

-- The frame that the directory maps the pages of the program to.
unfoldable pub shown_frame : Paging → ℕ
shown_frame p = p.page_directory (directory_index user_prog) / four_mb

-- `set_page_dir_entry(USER_PROG, EIGHT_MB + (n - 1)*FOUR_MB)` and the flush: the pages of the
-- program show from here on the frame that the new directory entry names.
unfoldable pub map_program : ℕ → Sys → Sys
map_program n s =
    let c = s.machine.console in
    let p = set_page_dir_entry c.paging user_prog (program_of n) in
    let programs = update s.frames s.mapped s.mem in
    let s1 = with_console s (record c { paging = p }) in
    record s1 {
      mem = λ a. if in_program a then programs (shown_frame p) a else s.mem a;
      frames = programs;
      mapped = shown_frame p;
    }
