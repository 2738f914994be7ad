-- ===== src/Tests/Commands.antt =====
-- The other programs of syscalls/ in a process.
use ece391os.Prelude.{ℕ, ◌≤◌, ◌<◌, ◌≡◌, ◌⊎◌, inl, inr, refl, arith, false, some}
use ece391os.Process.{Sys}
use ece391os.FileSystem.{num_dentries}
use ece391os.User.Program.Calls.{AsksAfter}
use ece391os.User.Program.{done, answered, line_taken, store_list}
use ece391os.User.Program.Line.{IsTyped}
use ece391os.Keyboard.{terminal_read_finish, buffer_bytes}
use ece391os.Text.{strlen, strcpy}
use ece391os.Text.Number.{strrev, itoa}
use ece391os.User.Library.{ece391_strlen, ece391_strcpy, ece391_strrev, ece391_itoa}
use ece391os.User.Library.Equal.{support_equal}
use ece391os.Memory.{Mem, in_block}
use ece391os.Keyboard.{cur_shell}
use ece391os.Console.{putc_from}
use ece391os.Syscalls.Command.{IsWord}
use ece391os.Syscalls.Execute.{Frame, failed, execute}
use ece391os.Syscalls.Execute.Refused.{IsApart, execute-refused}
use ece391os.User.Hello
use ece391os.User.Hello.Greets
use ece391os.User.Shell
use ece391os.User.Shell.Obeys
use ece391os.User.Counter
use ece391os.User.Counter.Counts
use ece391os.User.Counter.Choice
use ece391os.User.Ls.{Layout, ls}
use ece391os.User.Ls.Round.{HasDirectory, listing}
use ece391os.User.Ls.Lists.{CanList, ls-listing}
use ece391os.User.Syserr.Names.{dot-IsOrdinary}
use ece391os.Tests.Image.{fs}
use ece391os.Tests.Syserr.{
  image, layout, one, start, start-IsReady, image-IsBytes, one_entry, entry_type, other_name,
  plus-IsText, feed-IsText, typed, read_image, read_image-Low,
}

abbrev ls_layout : Layout
ls_layout = record {
  dot = 50100;
  no_directory = 50000;
  no_entry = 50000;
  buf = 60000;
  frame = 40000;
}

start_count : num_dentries image fs ≡ 1
start_count = one_entry image (λ a lt. refl)

start-HasDirectory : HasDirectory ls_layout fs image (λ i. 1)
start-HasDirectory = record {
  names = λ i lt.
      let e : i ≡ 0 = omega (arith, start_count, lt) in
      rw e (record { short = omega arith; inside = λ k below. ground arith; ends = λ below. refl });
  outside = inr (rw start_count (omega arith));
  buf_outside = inr (rw start_count (omega arith));
  apart = omega arith;
  there = omega arith;
  count = rw start_count (omega arith);
}

start-CanList : CanList ls_layout (λ i. 1) start
start-CanList = record {
  directory = start-HasDirectory;
  bytes = image-IsBytes;
  dot = dot-IsOrdinary layout one 2 2 start (start-IsReady image (λ a lt. refl) image-IsBytes);
  there =
      (0, rw start_count (omega arith), record { same = λ i lt. ground arith; ends = λ lt. refl });
  type = λ k lt named.
      let e : k ≡ 0 = omega (arith, start_count, lt) in rw e (entry_type image (λ a lt. refl));
  terminal = record { table = refl; used = refl };
  free = refl;
}

ls-listing_example :
    (s' : Sys) × (ls 2 ls_layout start ≡ done 0 s')
    × (s'.machine.console
        ≡ listing image fs (λ i. 1) 0 (num_dentries image fs) start.machine.console)
ls-listing_example =
    ls-listing ls_layout (λ i. 1) 2 start start-CanList (rw start_count (omega arith))

abbrev shell_layout : Shell.Layout
shell_layout = record {
  starting = 50000;
  prompt = 50000;
  no_keyboard = 50000;
  exit = 50200;
  no_command = 50000;
  by_exception = 50000;
  abnormally = 50000;
  buf = 60000;
  frame = 40000;
}

start-CanPrompt : Obeys.CanPrompt shell_layout 1 start
start-CanPrompt = record {
  terminal = record { table = refl; used = refl };
  input = (refl, refl);
  prompt = plus-IsText image (λ a lt. refl);
  there = omega arith;
}

typed-IsTyped : IsTyped typed 1
typed-IsTyped = record {
  index = refl;
  inside = omega arith;
  ends = refl;
  text = λ i lt. ground arith;
  keys = λ i. ground arith;
  bytes = image-IsBytes;
}

abbrev message_lengths : Obeys.Lengths
message_lengths = record { no_command = 1; by_exception = 1; abnormally = 1 }

start-CanReport : Obeys.CanReport shell_layout message_lengths start
start-CanReport = record {
  terminal = record { table = refl; used = refl };
  no_command = plus-IsText image (λ a lt. refl);
  by_exception = plus-IsText image (λ a lt. refl);
  abnormally = plus-IsText image (λ a lt. refl);
}

shell_loop-Obeys_example :
    let s2 = Obeys.command_ready 60000 1 typed in
    let run = Shell.shell_loop 4 shell_layout start in
    AsksAfter 50000 1 60000 start run
    × Obeys.IsCommand 60000 1 typed s2
    × Obeys.Obeys shell_layout message_lengths
        (Shell.shell_loop 3 shell_layout)
        1
        256
        start
        (answered run typed)
        s2
shell_loop-Obeys_example =
    Obeys.shell_loop-Obeys 3 shell_layout message_lengths 1 1 256 start typed start start-CanPrompt
      typed-IsTyped start-CanReport

abbrev counter_layout : Counter.Layout
counter_layout = record {
  enter = 50000;
  no_number = 50000;
  wrong = 50000;
  newline = 50600;
  buf = 60000;
  frame = 40000;
}

start-CanAsk : Choice.CanAsk counter_layout 1 start
start-CanAsk = record {
  terminal = record { table = refl; used = refl };
  input = (refl, refl);
  question = plus-IsText image (λ a lt. refl);
}

typed-CanCount : Counts.CanCount counter_layout (line_taken 60000 1023 typed).1
unfolding line_taken terminal_read_finish store_list buffer_bytes
typed-CanCount = record {
  terminal = record { table = refl; used = refl };
  newline = feed-IsText read_image read_image-Low;
  feed = refl;
  apart = omega arith;
  there = omega arith;
}

counter-Counts_example :
    let s2 = (line_taken 60000 1023 typed).1 in
    AsksAfter 50000 1 60000 start (Counter.counter counter_layout start)
    × (s' : Sys) × (answered (Counter.counter counter_layout start) typed ≡ done 0 s')
    × Counts.Counts counter_layout 0 100 s2.machine.console s'.machine.console
counter-Counts_example =
    Choice.counter-Counts counter_layout 1 100 start typed start-CanAsk typed-IsTyped
      (inl (refl, refl)) typed-CanCount

support_equal_example :
    (ece391_strlen image 50200 ≡ strlen image 50200)
    × (ece391_strcpy image 60000 50200 ≡ strcpy image 60000 50200)
    × (ece391_strrev image 50200 ≡ strrev image 50200)
    × (ece391_itoa 391 50200 10 image ≡ itoa 391 50200 10 image)
support_equal_example = support_equal image 50200 60000 391 10

abbrev hello_layout : Hello.Layout
hello_layout = record {
  question = 50000;
  no_name = 50000;
  greeting = 50000;
  buf = 60000;
  frame = 40000;
}

hello-CanAsk : Greets.CanAsk hello_layout 1 start
hello-CanAsk = record {
  terminal = record { table = refl; used = refl };
  input = (refl, refl);
  question = plus-IsText image (λ a lt. refl);
  there = omega arith;
}

typed-CanGreet : Greets.CanGreet hello_layout 1 (line_taken 60000 1023 typed).1
unfolding line_taken terminal_read_finish store_list buffer_bytes
typed-CanGreet = record {
  terminal = record { table = refl; used = refl };
  greeting = plus-IsText read_image read_image-Low;
  apart = omega arith;
}

hello-greets_example :
    let s2 = (line_taken 60000 1023 typed).1 in
    AsksAfter 50000 1 60000 start (Hello.hello hello_layout start)
    × (s' : Sys) × (answered (Hello.hello hello_layout start) typed ≡ done 0 s')
    × (s'.machine.console
        ≡ putc_from 2
            (cur_shell typed.machine.console).kb_buf
            0
            (putc_from 1 s2.mem 50000 s2.machine.console))
hello-greets_example =
    Greets.hello-greets hello_layout 1 1 1 start typed hello-CanAsk typed-IsTyped typed-CanGreet

abbrev execute_frame : Frame
execute_frame = record {
  filename = 61000;
  file_dentry = 40000;
  elf_buf = 42000;
  args = 43000;
  pcb_args = 44000;
  pcb = start.pcb;
}

missing-IsWord : IsWord image 50200 6
missing-IsWord = record {
  inside = λ k lt. (ground arith, ground arith);
  ends = λ lt. inl refl;
  short = omega arith;
}

start-IsApart : IsApart execute_frame 50200 start
start-IsApart = record {
  command_apart = omega arith;
  name_outside = inr (rw start_count (omega arith));
  entry_outside = inr (rw start_count (omega arith));
}

execute-refused_example :
    ((6 ≤ start.process_num) × (execute execute_frame 0x7f_fe00 50200 start ≡ some (failed, start)))
    ⊎ ((start.process_num < 6)
        × ((m : Mem) × (execute execute_frame 0x7f_fe00 50200 start
              ≡ some (failed, record start { mem = m }))
            × ((a : ℕ) → in_block 61000 33 a ≡ false → m a ≡ image a)))
execute-refused_example =
    execute-refused execute_frame 0x7f_fe00 50200 6 start image-IsBytes missing-IsWord start-IsApart
      (omega arith) (omega arith)
      (λ k lt. other_name image (λ a below. refl) k 50200 6 lt (omega arith) (omega arith))
