-- ===== src/Tests/Programs.antt =====
-- A process that starts the file of the image, and that goes on when it has ended.
use ece391os.Prelude.{◌≡◌, refl, arith, some}
use ece391os.Memory.{load32}
use ece391os.Process.{Sys, set_row}
use ece391os.Sched.{current}
use ece391os.Syscalls.{returns_to, halt}
use ece391os.Syscalls.Execute.{Frame, enters, start_process}
use ece391os.Syscalls.Execute.Started.{IsLoadable, IsStarted, start_process-IsStarted}
use ece391os.Syscalls.Return.{HasRun, IsBack, start_process-halt}
use ece391os.User.Cat.{Messages, cat}
use ece391os.User.Cat.Named.{CanCat}
use ece391os.User.Cat.Whole.{cat-prints}
use ece391os.FileSystem.{num_dentries, num_inodes}
use ece391os.Text.{strncmp}
use ece391os.Tests.Syserr.{table}
use ece391os.FileSystem.Blocks.{file_byte, file_size}
use ece391os.Console.{putc_from}
use ece391os.Tests.Image.{fs, image, image-IsBytes, image-IsWithin, name-IsString}
use ece391os.Tests.Processes.{sys}

abbrev pub frame : Frame
frame = record {
  filename = 40000;
  file_dentry = 41000;
  elf_buf = 42000;
  args = 43000;
  pcb_args = 44000;
  pcb = sys.pcb;
}

-- The fourth process runs on its terminal.
abbrev caller : Sys
caller = let row = current sys.machine.sched in set_row sys (record row { process_num = 4 })

caller-IsLoadable : IsLoadable frame caller 4 4096 16384
unfolding load32
caller-IsLoadable = record {
  runs = omega arith;
  slot = record { below = omega arith; free = refl; lowest = λ j lt. ground arith };
  shown = omega arith;
  bytes = image-IsBytes;
  page_bytes = λ a. omega arith;
  placed = record { dentry = omega arith; args = omega arith; image = omega arith };
  valid = omega arith;
  within = image-IsWithin;
  header = omega arith;
}

start_process-IsStarted_example :
    (s' : Sys) × (start_process frame 0x7f_fe00 caller ≡ some (enters (load32 s'.mem 42024), s'))
    × IsStarted frame 0x7f_fe00 4 caller s'
start_process-IsStarted_example =
    start_process-IsStarted frame 0x7f_fe00 caller 4 4096 16384 caller-IsLoadable

abbrev started :
    (s' : Sys) × (start_process frame 0x7f_fe00 caller ≡ some (enters (load32 s'.mem 42024), s'))
    × IsStarted frame 0x7f_fe00 4 caller s'
started = start_process-IsStarted frame 0x7f_fe00 caller 4 4096 16384 caller-IsLoadable

-- The program has written to all of its memory.
abbrev ended : Sys
ended = record started.0 { mem = λ a. 7 }

ended-HasRun : HasRun started.0 ended
ended-HasRun = record {
  pid = refl;
  parent = refl;
  esp = refl;
  ebp = refl;
  slots = λ j. refl;
  count = refl;
  block = refl;
  program = λ a. refl;
  screen = refl;
  term = refl;
  mapped = refl;
}

start_process-halt_example :
    ((halt 513 ended).0 ≡ returns_to 0x7f_fe00 1) × IsBack 0x7f_fe00 caller ended (halt 513 ended).1
start_process-halt_example =
    start_process-halt frame 0x7f_fe00 (load32 started.0.mem 42024) 513 4 4096 16384 caller
      started.0 ended caller-IsLoadable (omega arith) refl refl (omega arith) started.1 ended-HasRun

abbrev messages : Messages
messages = record { no_arguments = 45000; no_file = 45100; no_read = 45200 }

-- The process runs `cat` on the file "hi".
abbrev reader : Sys
reader = record sys { pcb = let p = sys.pcb in record p { fdt = table; args = 20000 } }

one_entry : num_dentries image fs ≡ 1
unfolding load32
one_entry = refl

first_entry : load32 image 4192 ≡ 2
unfolding load32
first_entry = refl

first_inode : load32 image 4196 ≡ 0
unfolding load32
first_inode = refl

reader-size : file_size image fs 0 ≡ 5
unfolding load32
reader-size = refl

inodes : num_inodes image fs ≡ 1
unfolding load32
inodes = refl

reader-CanCat : CanCat reader 40000 0x805_0000 4096 16384 2 0
unfolding strncmp
reader-CanCat = record {
  terminal = record { table = refl; used = refl };
  bytes = image-IsBytes;
  free = refl;
  args = name-IsString;
  some_name = omega arith;
  buffer = (refl, omega arith);
  args_apart = omega arith;
  not_empty = refl;
  not_stdin = refl;
  not_stdout = refl;
  empty_apart = omega arith;
  stdin_apart = omega arith;
  stdout_apart = omega arith;
  image = (omega arith, rw one_entry (omega arith));
  buf_apart = omega arith;
  frame_apart = omega arith;
  there =
      (0, rw one_entry (omega arith), record { same = λ i lt. ground arith; ends = λ lt. refl });
  file = λ k lt x. let e : k ≡ 0 = omega (arith, one_entry, lt) in rw e (first_entry, first_inode);
  within = image-IsWithin;
  header = omega arith;
  valid = rw inodes (omega arith);
  size = rw reader-size (omega arith);
}

cat-prints_example :
    (s' : Sys) × (cat 6 messages 40000 0x805_0000 reader ≡ some (0, s'))
    × (s'.machine.console
        ≡ putc_from (file_size image fs 0) (file_byte image fs 0) 0 reader.machine.console)
cat-prints_example =
    cat-prints 6 messages reader 40000 0x805_0000 4096 16384 2 0 reader-CanCat
      (rw reader-size (omega arith))
