-- ===== src/Descriptor.antt =====
-- The descriptor table of a process: `jump_table` and `file_desc` of student-distrib/syscalls.h.
use ece391os.Prelude.{ℕ}

-- The five tables of functions, by name; a call through `jump_ptr` is a dispatch on the name.
pub data JumpTable : Type 0 where
  rtc_table file_table dir_table stdin_table stdout_table : JumpTable

-- All three numbers are `int32_t`. `flags` is 1 for a descriptor in use and -1 for a free one.
pub record FileDesc : Type 0 where
  pub jump_ptr : JumpTable
  pub inode : ℕ
  pub file_position : ℕ
  pub flags : ℕ

abbrev pub max_fd_num : ℕ
max_fd_num = 7

-- `fdt[MAX_FD_NUM+1]`.
abbrev pub Fdt : Type 0
Fdt = ℕ → FileDesc
