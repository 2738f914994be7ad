-- ===== src/Syscalls/Execute/Block.antt =====
-- The control block that `execute` of student-distrib/syscalls.c fills for a new process, and the
-- places of the kernel stacks.
use ece391os.Prelude.{ℕ, ◌+◌, ◌-◌, ◌*◌, ◌≤◌, ◌≡◌, refl, arith, minus_one}
use ece391os.Descriptor.{stdin_table, stdout_table, max_fd_num}
use ece391os.Sched.{stack_of}
use ece391os.Process.{Pcb}
use ece391os.Process.Pages.{IsProcess}
use ece391os.Syscalls.Execute.{Frame, max_progs, block_of, args_of, new_fdt, new_block}

-- The kernel stacks lie below 8 MB, 8 KB for each process, and the control block of a process at
-- the lower end of its stack.
abbrev pub stack_top : ℕ → ℕ
stack_top n = 0x80_0000 - (n - 1) * 0x2000

pub stack_of_lem : (n : ℕ) → IsProcess n → stack_of n ≡ stack_top n
unfolding stack_of
stack_of_lem n h = ground arith

args_of_lem : (n : ℕ) → n ≤ max_progs → args_of n ≡ 0x80_0000 - n * 0x2000 + 148
unfolding args_of block_of
args_of_lem n h = ground arith

-- The control block of process `pid`, which `parent` starts with the frame pointer `ebp`.
pub record IsBlock (p : Pcb) (pid parent ebp : ℕ) : Type 0 where
  pub number : p.pid ≡ pid
  pub parent_pid : p.parent_pid ≡ parent
  pub parent_esp : p.parent_esp ≡ stack_top parent
  pub parent_ebp : p.parent_ebp ≡ ebp
  pub no_video : p.vidmem ≡ 0
  pub args : p.args ≡ 0x80_0000 - pid * 0x2000 + 148
  pub input : ((p.fdt 0).jump_ptr ≡ stdin_table) × ((p.fdt 0).flags ≡ 1)
  pub output : ((p.fdt 1).jump_ptr ≡ stdout_table) × ((p.fdt 1).flags ≡ 1)
  pub free : (fd : ℕ) → 2 ≤ fd → fd ≤ max_fd_num → (p.fdt fd).flags ≡ minus_one

pub new_block-IsBlock :
    (f : Frame) (ebp parent pid : ℕ)
    → IsProcess parent
    → pid ≤ max_progs
    → IsBlock (new_block f ebp parent pid) pid parent ebp
unfolding new_block new_fdt
new_block-IsBlock f ebp parent pid known small = record {
  number = refl;
  parent_pid = refl;
  parent_esp = stack_of_lem parent known;
  parent_ebp = refl;
  no_video = refl;
  args = args_of_lem pid small;
  input = (refl, refl);
  output = (refl, refl);
  free = λ fd lo hi. ground arith;
}
