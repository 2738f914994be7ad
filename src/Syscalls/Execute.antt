-- ===== src/Syscalls/Execute.antt =====
-- `execute` and `launch` of student-distrib/syscalls.c. The local arrays and structs are at
-- addresses that the compiler chooses; what a local holds before it is assigned is part of `Frame`
-- too.
pub mod Slots
pub mod Block
pub mod Started
pub mod Refused
use ece391os.Prelude.{
  ℕ, zero, suc, ◌+◌, ◌-◌, ◌*◌, ◌/◌, ◌%◌, ◌^◌, ◌≤◌, ◌<◌, ◌≡◌, ◌≢◌, ◌↔◌, ◌⊎◌, inl, inr, refl, sym, ap,
  ◌∙◌, arith, Bool, true, false, ◌&&◌, ◌||◌, not, Option, none, some, if◌then◌else◌, ltb, leb, ◌==◌,
  ==_iff, ==_refl, Bool-cases, lt→ltb, le→ltb, ltb→lt, ltb→le, lt→leb, le→leb, leb→le, u8, u32,
  bit_and, bit_or, update, minus_one, signed_lt, sub32, length, get_or, set, List, [], ◌∷◌, ◌++◌,
}
use ece391os.Memory.{Mem, load32, memcpy}
use ece391os.Text.{strncpy}
use ece391os.FileSystem.{name_length, read_dentry_by_name, read_data}
use ece391os.Descriptor.{FileDesc, Fdt, stdin_table, stdout_table}
use ece391os.Paging.{user_prog}
use ece391os.Keyboard.{buf_length}
use ece391os.Sched.{Sched, current, eight_mb, eight_kb, four_mb, stack_of}
use ece391os.Process.{Pcb, Sys, with_sched, set_row, map_program}
use ece391os.Syscalls.{in_use}
use ece391os.Syscalls.Command.{file_name, get_args}

pub record Frame : Type 0 where
  pub filename : ℕ
  pub file_dentry : ℕ
  pub elf_buf : ℕ
  pub args : ℕ
  pub pcb_args : ℕ
  pub pcb : Pcb

abbrev pub max_progs : ℕ
max_progs = 6

abbrev pub prog_offset : ℕ
prog_offset = 0x4_8000

abbrev pub max_prog_size : ℕ
max_prog_size = four_mb - prog_offset

-- How a call ends: with -1, or at the first instruction of a program.
pub data Execution : Type 0 where
  failed : Execution
  enters : (program_addr : ℕ) → Execution

-- The loop that marks every slot as free.
unfoldable pub free_slots : ℕ → ℕ → (ℕ → ℕ) → ℕ → ℕ
free_slots zero i slots = slots
free_slots (suc n) i slots = free_slots n (i + 1) (update slots i minus_one)

unfoldable pub is_elf : Mem → ℕ → Bool
is_elf m elf_buf =
    (m elf_buf == 0x7f)
    && (m (elf_buf + 1) == 0x45)
    && (m (elf_buf + 2) == 0x4c)
    && (m (elf_buf + 3) == 0x46)

-- The entry of the file, and its first bytes: -1 for a name that is not there, an inode that is not
-- there, or a file that is no executable. The inode number stays in the local `dentry_t`.
unfoldable pub read_header : Frame → ℕ → Sys → Option (Bool × Mem)
read_header f filename s = elim (read_dentry_by_name s.mem s.fs filename f.file_dentry) [
  | none ↦ none
  | some (ret, m) ↦ elim (ret == minus_one) [
    | true ↦ some (false, m)
    | false ↦ elim (read_data m s.fs (load32 m (f.file_dentry + 36)) 0 f.elf_buf name_length) [
      | none ↦ none
      | some (size, m') ↦ some (not (size == minus_one) && is_elf m' f.elf_buf, m')
    ]
  ]
]

-- The first slot from `i` on that is free.
unfoldable pub find_slot : ℕ → ℕ → (ℕ → ℕ) → Option ℕ
find_slot zero i slots = none
find_slot (suc n) i slots =
    let rest = find_slot n (i + 1) slots in if slots i == minus_one then some i else rest

-- Without a free slot the process number is what the local holds.
unfoldable pub take_slot : Frame → Sys → ℕ × Sys
take_slot f s = elim (find_slot max_progs 0 s.process_array) [
  | none ↦ (f.pcb.pid, s)
  | some i ↦ (i + 1, record s { process_array = update s.process_array i 1 })
]

-- The descriptors of a new process: the terminal's two are in use, the others free.
unfoldable pub new_fdt : Fdt → Fdt
new_fdt t fd =
    let d = t fd in
    if fd == 0
    then record d { jump_ptr = stdin_table; flags = in_use }
    else if fd == 1
    then record d { jump_ptr = stdout_table; flags = in_use }
    else record d { flags = minus_one }

-- Where the control block of process `n` is, and its array `args`.
unfoldable pub block_of : ℕ → ℕ
block_of n = sub32 eight_mb (u32 (n * eight_kb))

unfoldable pub args_of : ℕ → ℕ
args_of n = block_of n + 148

-- The arguments on their way: to the local control block, and with it to its place in the kernel.
unfoldable pub place_args : Frame → ℕ → ℕ → Mem → Mem
place_args f args n m =
    memcpy (strncpy m f.pcb_args args buf_length) (args_of n) f.pcb_args buf_length

-- The program is copied to the process's pages.
unfoldable pub load_program : Frame → Sys → Option (ℕ × Mem)
load_program f s =
    read_data s.mem s.fs (load32 s.mem (f.file_dentry + 36)) 0 (user_prog + prog_offset)
      max_prog_size

-- The control block of a new process, whose parent is the one that the terminal runs.
unfoldable pub new_block : Frame → ℕ → ℕ → ℕ → Pcb
new_block f ebp parent pid = record {
  pid = pid;
  parent_pid = parent;
  parent_esp = stack_of parent;
  parent_ebp = ebp;
  fdt = new_fdt f.pcb.fdt;
  args = args_of pid;
  vidmem = 0;
}

-- The control block is filled and placed, and the schedule of the terminal goes to the process.
unfoldable pub enter_process : Frame → ℕ → ℕ → Sys → Execution × Sys
enter_process f ebp pid s =
    let row = current s.machine.sched in
    let s1 = set_row s (record row { process_num = pid }) in
    let d = s1.machine.sched in
    let s2 = with_sched s1 (record d { esp0 = stack_of pid }) in
    let m = place_args f f.args pid s.mem in
    (
      enters (load32 m (f.elf_buf + 24)),
      record s2 {
        process_num = u32 (s.process_num + 1);
        blocks = update s.blocks s.pcb.pid s.pcb;
        pcb = new_block f ebp row.process_num pid;
        mem = m;
      },
    )

-- From the mapping of the pages of process `pid` on.
unfoldable pub start_in : Frame → ℕ → ℕ × Sys → Option (Execution × Sys)
start_in f ebp (pid, s1) =
    let s2 = map_program pid s1 in
    elim (load_program f s2) [
      | none ↦ none
      | some (size, m) ↦
          let s3 = record s2 { mem = m } in
          some (if size == minus_one then (failed, s3) else enter_process f ebp pid s3)
    ]

-- From the free slot on.
unfoldable pub start_process : Frame → ℕ → Sys → Option (Execution × Sys)
start_process f ebp s = start_in f ebp (take_slot f s)

-- `none`: a string has no end. `ebp` is the frame pointer that is saved for the way back.
unfoldable pub execute : Frame → ℕ → ℕ → Sys → Option (Execution × Sys)
execute f ebp command s =
    let slots =
      if s.process_num == 0 then free_slots max_progs 0 s.process_array else s.process_array in
    let (i, m) = file_name s.mem f.filename command in
    let s1 = record s { process_array = slots; mem = m } in
    elim (not (signed_lt s.process_num max_progs)) [
      | true ↦ some (failed, s)
      | false ↦ elim (read_header f f.filename s1) [
        | none ↦ none
        | some (is_good, m1) ↦ elim is_good [
          | false ↦ some (failed, record s1 { mem = m1 })
          | true ↦ elim (get_args m1 f.args (command + i)) [
            | none ↦ none
            | some m2 ↦ start_process f ebp (record s1 { mem = m2 })
          ]
        ]
      ]
    ]

-- The loop of `launch` over the three shells, from the last one down; -1 as soon as a copy fails.
unfoldable pub load_shells : ℕ → Frame → Sys → Option (Bool × Sys)
load_shells zero f s = some (true, s)
load_shells (suc i) f s =
    let s1 = map_program (i + 1) s in
    elim (load_program f s1) [
      | none ↦ none
      | some (size, m) ↦
          let s2 = record s1 { mem = m; process_array = update s1.process_array i 1 } in
          elim (size == minus_one) [
            | true ↦ some (false, record s1 { mem = m })
            | false ↦ load_shells i f s2
          ]
    ]

-- The control block of shell `n`; what the local holds of the parent's registers stays.
unfoldable pub shell_block : Frame → ℕ → Pcb
shell_block f n = record {
  pid = n;
  parent_pid = 0;
  parent_esp = f.pcb.parent_esp;
  parent_ebp = f.pcb.parent_ebp;
  fdt = new_fdt f.pcb.fdt;
  args = args_of n;
  vidmem = 0;
}

unfoldable pub enter_shell : Frame → Sys → Execution × Sys
enter_shell f s =
    let b1 = update s.blocks 1 (shell_block f 1) in
    let b2 = update b1 2 (shell_block f 2) in
    let m0 = strncpy s.mem f.pcb_args s.literals.empty_name buf_length in
    let m1 = memcpy m0 (args_of 1) f.pcb_args buf_length in
    let m2 = memcpy m1 (args_of 2) f.pcb_args buf_length in
    let m3 = memcpy m2 (args_of 3) f.pcb_args buf_length in
    let addr = load32 m3 (f.elf_buf + 24) in
    let d = s.machine.sched in
    let s1 = with_sched s (record d { esp0 = eight_mb; prev_sched_term = 0 }) in
    (
      enters addr,
      record s1 {
        mem = m3;
        blocks = update b2 3 (shell_block f 3);
        pcb = shell_block f 1;
        process_num = 3;
        program_addr_test = addr;
      },
    )

unfoldable pub launch : Frame → Sys → Option (Execution × Sys)
launch f s =
    let s1 = record s { process_array = free_slots max_progs 0 s.process_array } in
    elim (read_header f s.literals.shell_name s1) [
      | none ↦ none
      | some (is_good, m) ↦ elim is_good [
        | false ↦ some (failed, record s1 { mem = m })
        | true ↦ elim (load_shells 3 f (record s1 { mem = m })) [
          | none ↦ none
          | some (loaded, s2) ↦ some (if loaded then enter_shell f s2 else (failed, s2))
        ]
      ]
    ]
