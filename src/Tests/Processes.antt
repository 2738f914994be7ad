-- ===== src/Tests/Processes.antt =====
-- A process with the descriptors 0 to 2 in use.
use ece391os.Prelude.{ℕ, ◌≡◌, refl, arith, some, if◌then◌else◌, ltb, ◌==◌, minus_one}
use ece391os.Descriptor.{Fdt, stdin_table, stdout_table, file_table}
use ece391os.FileSystem.Entry.{OutsideDirectory}
use ece391os.Memory.{load32}
use ece391os.Process.{Pcb, Sys}
use ece391os.Syscalls.{finished, read, write, close, open_call}
use ece391os.Text.{strncmp}
use ece391os.Syscalls.Table.{close-refused}
use ece391os.Syscalls.Open.{IsOrdinary}
use ece391os.Syscalls.Opens.{Opens, open_call-Opens}
use ece391os.Syscalls.{returns_to, halt}
use ece391os.Syscalls.End.{IsEnded, halt-IsEnded}
use ece391os.Syscalls.Command.{IsWord, file_name, named, file_name-named}
use ece391os.Tests.Image.{image, image-IsBytes, name-IsString, fs}
use ece391os.Tests.Devices.{clock, machine}

abbrev table : Fdt
table fd = record {
  jump_ptr = if fd == 0 then stdin_table else if fd == 1 then stdout_table else file_table;
  inode = 0;
  file_position = 0;
  flags = if ltb fd 3 then 1 else minus_one;
}

abbrev parent : Pcb
parent = record {
  pid = 1;
  parent_pid = 0;
  parent_esp = 0;
  parent_ebp = 0;
  fdt = table;
  args = 23000;
  vidmem = 0;
}

abbrev pub sys : Sys
sys = record {
  mem = image;
  fs = fs;
  literals = record {
    empty_name = 21000;
    stdin_name = 21010;
    stdout_name = 21020;
    shell_name = 21030;
  };
  pcb = record {
    pid = 4;
    parent_pid = 1;
    parent_esp = 0x80_0000;
    parent_ebp = 0x7f_ff00;
    fdt = table;
    args = 22000;
    vidmem = 0;
  };
  rtc = clock;
  machine = machine;
  process_num = 4;
  process_array = λ i. if ltb i 4 then 1 else minus_one;
  program_addr_test = 0x804_8000;
  blocks = λ n. parent;
  mapped = 5;
  frames = λ n a. n;
}

frame_outside : OutsideDirectory image fs 40000
unfolding load32
frame_outside = omega arith

name-IsOrdinary : IsOrdinary sys 20000 2
unfolding strncmp
name-IsOrdinary = record {
  string = name-IsString;
  short = omega arith;
  there = omega arith;
  not_empty = refl;
  not_stdin = refl;
  not_stdout = refl;
}

open_call-Opens_example :
    (ret : ℕ) × (s' : Sys) × (open_call 40000 20000 sys ≡ some (ret, s')) × Opens 20000 2 sys ret s'
open_call-Opens_example =
    open_call-Opens 40000 20000 2 sys image-IsBytes frame_outside name-IsOrdinary

close-refused_example :
    let s' = (close 2 sys).1 in
    ((close 2 sys).0 ≡ 0)
    × (read 40000 2 30000 5 s' ≡ finished minus_one s')
    × (write 2 30000 5 s' ≡ (minus_one, s'))
    × (close 2 s' ≡ (minus_one, s'))
    × (s'.pcb.fdt 1 ≡ table 1)
close-refused_example =
    close-refused 40000 2 30000 5 1 sys (omega arith) (omega arith) refl (omega arith)

halt-IsEnded_example : ((halt 256 sys).0 ≡ returns_to 0x7f_ff00 0) × IsEnded sys (halt 256 sys).1
halt-IsEnded_example = halt-IsEnded 256 sys (omega arith) (omega arith) (omega arith) refl

command-IsWord : IsWord image 20000 2
command-IsWord = record {
  inside = λ k h. (ground arith, ground arith);
  ends = λ h. ground arith;
  short = omega arith;
}

file_name-named_example :
    ((file_name image 30000 20000).0 ≡ 2)
    × ((file_name image 30000 20000).1 30001 ≡ named image 30000 20000 2 30001)
file_name-named_example = file_name-named image 30000 20000 2 30001 command-IsWord (omega arith)
