-- ===== src/Syscalls.antt =====
-- student-distrib/syscalls.c: the system calls of a process on its descriptors, its arguments,
-- video memory and its end. `mem` is memory as the process sees it, and the table of a descriptor
-- is called by its name. A call that sleeps is given up to its wait.
pub mod Table
pub mod End
pub mod Command
pub mod Return
pub mod Execute
pub mod Dispatch
pub mod Open
pub mod Opens
use ece391os.Prelude.{
  ℕ, zero, suc, ◌+◌, ◌-◌, ◌*◌, ◌/◌, ◌%◌, ◌^◌, ◌≤◌, ◌<◌, ◌≡◌, ◌≢◌, ◌↔◌, ◌⊎◌, inl, inr, refl, sym, ap,
  ◌∙◌, arith, Bool, true, false, ◌&&◌, ◌||◌, not, Option, none, some, if◌then◌else◌, ltb, leb, ◌==◌,
  ==_iff, ==_refl, Bool-cases, lt→ltb, le→ltb, ltb→lt, ltb→le, lt→leb, le→leb, leb→le, u8, u32,
  bit_and, bit_or, update, minus_one, signed_lt, sub32, length, get_or, set, List, [], ◌∷◌, ◌++◌,
}
use ece391os.Process.{
  Pcb, Literals, Sys, with_fdt, with_console, with_sched, term_of, set_row, in_program, map_program,
}
use ece391os.Memory.{Mem, load32, store32}
use ece391os.Text.{strlen, strncmp, strncpy}
use ece391os.FileSystem.{FileSystem, read_dentry_by_name}
use ece391os.Descriptor.{
  JumpTable, rtc_table, file_table, dir_table, stdin_table, stdout_table, FileDesc, Fdt, max_fd_num,
}
use ece391os.Files.{
  file_read, file_write, file_open, file_close, dir_read, dir_write, dir_open, dir_close,
}
use ece391os.Rtc.{Rtc, rtc_open, rtc_close, rtc_write, rtc_read_start}
use ece391os.Paging.{
  user_prog, user_video_mem, video_mem_addr, set_page_dir_entry, set_page_table2_entry,
}
use ece391os.Console.{Console}
use ece391os.Keyboard.{terminal_open, terminal_close, terminal_write, terminal_read_start}
use ece391os.Sched.{Machine, Sched, SchedNode, current, eight_mb, eight_kb, four_mb, program_of}

unfoldable pub invalid_read : ℕ → ℕ → ℕ → ℕ
invalid_read fd buf nbytes = minus_one

unfoldable pub invalid_write : ℕ → ℕ → ℕ → ℕ
invalid_write fd buf nbytes = minus_one

unfoldable pub set_handler : ℕ → ℕ → ℕ
set_handler signum handler_address = minus_one

unfoldable pub sigreturn : ℕ
sigreturn = minus_one

-- `esp & (EIGHT_MB - EIGHT_KB)`.
unfoldable pub get_pcb_add : ℕ → ℕ
get_pcb_add esp = bit_and esp (eight_mb - eight_kb)

abbrev pub in_use : ℕ
in_use = 1

abbrev pub bad_fd : ℕ → Bool
bad_fd fd = signed_lt fd 0 || signed_lt max_fd_num fd

-- What a read comes to: a result, the wait of `rtc_read` or of `terminal_read`, or no result at
-- all.
pub data Reading : Type 0 where
  finished : (result : ℕ) (sys : Sys) → Reading
  waiting_rtc : (sys : Sys) → Reading
  waiting_terminal : (sys : Sys) → Reading
  stuck : Reading

-- `jump_ptr->read`; `frame` is where the compiler puts the local `dentry_t` of `dir_read`.
unfoldable pub jump_read : JumpTable → ℕ → ℕ → ℕ → ℕ → Sys → Reading
jump_read rtc_table frame fd buf nbytes s =
    waiting_rtc (record s { rtc = rtc_read_start (term_of s) s.rtc })
jump_read file_table frame fd buf nbytes s = elim (file_read s.fs s.pcb.fdt s.mem fd buf nbytes) [
  | none ↦ stuck
  | some (ret, t, m) ↦ finished ret (let s1 = with_fdt s t in record s1 { mem = m })
]
jump_read dir_table frame fd buf nbytes s =
    let (ret, t, m) = dir_read s.fs s.pcb.fdt s.mem frame fd buf nbytes in
    finished ret (let s1 = with_fdt s t in record s1 { mem = m })
jump_read stdin_table frame fd buf nbytes s =
    elim (terminal_read_start (term_of s) buf nbytes s.machine.console) [
      | none ↦ finished minus_one s
      | some c ↦ waiting_terminal (with_console s c)
    ]
jump_read stdout_table frame fd buf nbytes s = finished (invalid_read fd buf nbytes) s

unfoldable pub read : ℕ → ℕ → ℕ → ℕ → Sys → Reading
read frame fd buf nbytes s =
    let d = s.pcb.fdt fd in
    if bad_fd fd
    then finished minus_one s
    else if d.flags == minus_one
    then finished minus_one s
    else jump_read d.jump_ptr frame fd buf nbytes s

unfoldable pub jump_write : JumpTable → ℕ → ℕ → ℕ → Sys → ℕ × Sys
jump_write rtc_table fd buf nbytes s =
    let (ret, r) = rtc_write s.mem (term_of s) fd buf nbytes s.rtc in (ret, record s { rtc = r })
jump_write file_table fd buf nbytes s = (file_write fd buf nbytes, s)
jump_write dir_table fd buf nbytes s = (dir_write fd buf nbytes, s)
jump_write stdin_table fd buf nbytes s = (invalid_write fd buf nbytes, s)
jump_write stdout_table fd buf nbytes s =
    let (ret, c) = terminal_write s.mem fd buf nbytes s.machine.console in (ret, with_console s c)

unfoldable pub write : ℕ → ℕ → ℕ → Sys → ℕ × Sys
write fd buf nbytes s =
    let d = s.pcb.fdt fd in
    if bad_fd fd
    then (minus_one, s)
    else if d.flags == minus_one
    then (minus_one, s)
    else jump_write d.jump_ptr fd buf nbytes s

-- The loop of `open`: the first descriptor from `i` on that is not in use.
unfoldable pub find_free : ℕ → ℕ → Fdt → Option ℕ
find_free zero i t = none
find_free (suc n) i t =
    let rest = find_free n (i + 1) t in if (t i).flags == minus_one then some i else rest

abbrev pub new_desc : JumpTable → ℕ → FileDesc
new_desc table inode = record { jump_ptr = table; inode = inode; file_position = 0; flags = in_use }

abbrev pub install : Sys → ℕ → FileDesc → Sys
install s i d = with_fdt s (update s.pcb.fdt i d)

-- The `switch` on the type of the entry, for the free descriptor `i`; the results of the functions
-- that it calls are not used.
unfoldable pub install_entry : ℕ → ℕ → ℕ → Sys → ℕ × Sys
install_entry file_type inode_num i s =
    if file_type == 0
    then (i, install (record s { rtc = (rtc_open (term_of s) s.rtc).1 }) i (new_desc rtc_table 0))
    else if file_type == 1
    then (i, install s i (new_desc dir_table 0))
    else if file_type == 2
    then (i, install s i (new_desc file_table inode_num))
    else (minus_one, s)

unfoldable pub open_terminal : ℕ → Sys → ℕ × Sys
open_terminal fd s = (fd, with_console s (terminal_open s.machine.console).1)

-- The loop of `open` and its `switch`, with the entry at `frame`.
unfoldable pub open_free : ℕ → Sys → ℕ × Sys
open_free frame s = elim (find_free 6 2 s.pcb.fdt) [
  | none ↦ (minus_one, s)
  | some i ↦ install_entry (load32 s.mem (frame + 32)) (load32 s.mem (frame + 36)) i s
]

-- The part of `open` that looks the name up; the entry goes to the local `dentry_t` at `frame`.
unfoldable pub open_entry : ℕ → ℕ → Sys → Option (ℕ × Sys)
open_entry frame filename s = elim (read_dentry_by_name s.mem s.fs filename frame) [
  | none ↦ none
  | some (ret, m) ↦
      let s1 = record s { mem = m } in
      some (if ret == minus_one then (minus_one, s1) else open_free frame s1)
]

-- `none`: `strlen` finds no end of the name.
unfoldable pub open_call : ℕ → ℕ → Sys → Option (ℕ × Sys)
open_call frame filename s =
    if filename == 0 then some (minus_one, s) else elim (strlen s.mem filename) [
      | none ↦ none
      | some len ↦
          if strncmp s.mem filename s.literals.empty_name len == 0
          then some (minus_one, s)
          else if strncmp s.mem filename s.literals.stdin_name len == 0
          then some (open_terminal 0 s)
          else if strncmp s.mem filename s.literals.stdout_name len == 0
          then some (open_terminal 1 s)
          else open_entry frame filename s
    ]

-- `jump_ptr->close`.
unfoldable pub jump_close : JumpTable → ℕ → Sys → ℕ × Sys
jump_close rtc_table fd s = (rtc_close fd, s)
jump_close file_table fd s = (file_close fd, s)
jump_close dir_table fd s = (dir_close fd, s)
jump_close stdin_table fd s = (0, with_console s (terminal_close s.machine.console).1)
jump_close stdout_table fd s = (0, with_console s (terminal_close s.machine.console).1)

unfoldable pub close : ℕ → Sys → ℕ × Sys
close fd s =
    let d = s.pcb.fdt fd in
    let s1 = (jump_close d.jump_ptr fd s).1 in
    if signed_lt fd 2 || signed_lt max_fd_num fd
    then (minus_one, s)
    else if d.flags == in_use
    then (0, install s1 fd (let d1 = s1.pcb.fdt fd in record d1 { flags = minus_one }))
    else (minus_one, s)

-- `none`: the arguments have no end. The comparison with `nbytes` is on unsigned words.
unfoldable pub getargs : ℕ → ℕ → Sys → Option (ℕ × Sys)
getargs buf nbytes s = elim (strlen s.mem s.pcb.args) [
  | none ↦ none
  | some len ↦
      if ltb nbytes (u32 (len + 1)) || (buf == 0) || (s.mem s.pcb.args == 0) || not (in_program buf)
      then some (minus_one, s)
      else some (0, record s { mem = strncpy s.mem buf s.pcb.args nbytes })
]

unfoldable pub vidmap : ℕ → Sys → ℕ × Sys
vidmap screen_start s =
    let s1 = record s { pcb = let p = s.pcb in record p { vidmem = 1 } } in
    let s2 = set_row s1 (let n = current s.machine.sched in record n { vid_map = 1 }) in
    let c = s2.machine.console in
    let s3 =
      with_console s2
        (record c { paging = set_page_table2_entry c.paging user_video_mem video_mem_addr }) in
    if (screen_start == 0) || not (in_program screen_start)
    then (minus_one, s)
    else (0, record s3 { mem = store32 s3.mem screen_start user_video_mem })

unfoldable pub close_from : ℕ → ℕ → Sys → Sys
close_from zero i s = s
close_from (suc n) i s = close_from n (i + 1) (close i s).1

-- How `halt` ends: at the first instruction of the shell, or in the caller of the `execute` that
-- made the process, with the frame pointer and the result there.
pub data Exit : Type 0 where
  restarts : Exit
  returns_to : (ebp result : ℕ) → Exit

unfoldable pub halt : ℕ → Sys → Exit × Sys
halt status s =
    let p = s.pcb in
    let s1 = close_from (max_fd_num + 1) 0 s in
    let d = s1.machine.sched in
    let row = current d in
    let row1 = record row {
      process_num = p.parent_pid;
      esp = p.parent_esp;
      ebp = p.parent_ebp;
      vid_map = if p.vidmem == 0 then row.vid_map else 0;
    } in
    let d1 = record d {
      esp0 = p.parent_esp;
      sched_arr = update d.sched_arr d.cur_sched_term row1;
    } in
    let blocks1 = update s1.blocks p.pid s1.pcb in
    let s2 = record s1 {
      process_num = sub32 s1.process_num 1;
      process_array = update s1.process_array (p.pid - 1) minus_one;
      blocks = blocks1;
      pcb = blocks1 p.parent_pid;
    } in
    if (p.pid == 1) || (p.pid == 2) || (p.pid == 3)
    then (restarts, s)
    else (returns_to p.parent_ebp (u8 status), map_program p.parent_pid (with_sched s2 d1))
