-- ===== src/Tests/Boot.antt =====
-- The kernel starts from a file system with a shell of four bytes, and meets a key and the timer.
use ece391os.Prelude.{
  ℕ, suc, ◌∙◌, ◌+◌, ◌-◌, ◌≡◌, refl, true, some, [], if◌then◌else◌, leb, ◌==◌, update, minus_one,
}
use ece391os.Memory.{Mem, load32, copy_bytes, copy_dwords, memcpy, fill_bytes}
use ece391os.Text.{strlen, strlen_from, strncmp, strncpy}
use ece391os.FileSystem.{
  entry_matches, find_dentry_from, find_dentry, copy_dentry, read_dentry_by_name, dblock_address,
  read_data_loop, read_data,
}
use ece391os.Sched.{Machine, pit_interrupt_handler}
use ece391os.Process.{Sys, map_program}
use ece391os.Syscalls.Execute.{
  enters, free_slots, is_elf, read_header, load_program, load_shells, enter_shell, launch,
}
use ece391os.Kernel.{Board, initialize, keyboard_event, launched, steps, timer, key}
use ece391os.Kernel.Boot.{IsPoweredOn, IsRunning}
use ece391os.Kernel.Run.{Reached-IsRunning}
use ece391os.Tests.Image.{fs}
use ece391os.Tests.Devices.{machine, node}
use ece391os.Tests.Processes.{sys}
use ece391os.Tests.Programs.{frame}

-- The name of the shell in its entry and at 21030, the file at 12288.
abbrev shell_image : Mem
shell_image a =
    let name = if leb 4160 a then (if leb 21030 a then a - 21030 else a - 4160) else 5 in
    if (a == 4096)
    then 1
    else if a == 4100
    then 1
    else if a == 4104
    then 1
    else if a == 4192
    then 2
    else if a == 8192
    then 4
    else if a == 12288
    then 0x7f
    else if a == 12289
    then 0x45
    else if a == 12290
    then 0x4c
    else if a == 12291
    then 0x46
    else if name == 0
    then 115
    else if name == 1
    then 104
    else if name == 2
    then 101
    else if name == 3
    then 108
    else if name == 4
    then 108
    else 0

abbrev board : Board
board = record { first_table = 0x1000; second_table = 0x2000; prev_a = 0x26; prev_b = 0x02 }

abbrev cold : Machine
cold =
    let c = machine.console in
    record machine {
      pic = record { master_mask = 0; slave_mask = 0; out = [] };
      console = record c { cur_terminal = 0; print_terminal = 0 };
      sched = record {
        prev_sched_term = minus_one;
        cur_sched_term = 0;
        sched_arr = node;
        esp0 = 0;
      };
    }

cold-IsPoweredOn : IsPoweredOn cold
cold-IsPoweredOn = record {
  viewed = refl;
  printed = refl;
  scheduled = refl;
  masks = (refl, refl);
  silent = refl;
}

abbrev booted : Sys
booted = record sys { mem = shell_image; machine = initialize board cold; process_num = 0 }

-- The memory after the entry, the header and each of the three programs.
abbrev entry_mem : Mem
entry_mem = copy_dentry shell_image 41000 4160

abbrev header_mem : Mem
header_mem = memcpy entry_mem 42000 12288 4

found : read_dentry_by_name shell_image fs 21030 41000 ≡ some (0, entry_mem)
unfolding read_dentry_by_name find_dentry find_dentry_from entry_matches strlen strlen_from strncmp
    load32
found = refl

header_read : read_data entry_mem fs (load32 entry_mem 41036) 0 42000 32 ≡ some (4, header_mem)
unfolding copy_dentry strncpy fill_bytes load32 read_data read_data_loop dblock_address
header_read = refl

good : is_elf header_mem 42000 ≡ true
unfolding is_elf memcpy copy_bytes copy_dwords copy_dentry strncpy fill_bytes load32
good = refl

abbrev emptied_slots : Sys
emptied_slots = record booted { process_array = free_slots 6 0 booted.process_array }

header : read_header frame 21030 emptied_slots ≡ some (true, header_mem)
unfolding read_header
header = rw (read_header, found, header_read, good) refl

-- One of the three programs is loaded and its slot taken.
abbrev after_load : ℕ → Sys → Sys
after_load i s =
    let s1 = map_program (i + 1) s in
    record s1 {
      mem = memcpy s1.mem 0x804_8000 12288 4;
      process_array = update s1.process_array i 1;
    }

abbrev before : Sys
before = record emptied_slots { mem = header_mem }

one_loaded :
    (i : ℕ) (s : Sys)
    → load_program frame (map_program (i + 1) s)
      ≡ some (4, memcpy (map_program (i + 1) s).mem 0x804_8000 12288 4)
    → load_shells (suc i) frame s ≡ load_shells i frame (after_load i s)
unfolding load_shells
one_loaded i s e = rw (load_shells, e) refl

load3 :
    load_program frame (map_program 3 before)
    ≡ some (4, memcpy (map_program 3 before).mem 0x804_8000 12288 4)
unfolding load_program read_data read_data_loop map_program memcpy copy_bytes copy_dwords
    copy_dentry strncpy fill_bytes load32 dblock_address
load3 = refl

abbrev two_left : Sys
two_left = after_load 2 before

load2 :
    load_program frame (map_program 2 two_left)
    ≡ some (4, memcpy (map_program 2 two_left).mem 0x804_8000 12288 4)
unfolding load_program read_data read_data_loop map_program memcpy copy_bytes copy_dwords
    copy_dentry strncpy fill_bytes load32 dblock_address
load2 = refl

abbrev one_left : Sys
one_left = after_load 1 two_left

load1 :
    load_program frame (map_program 1 one_left)
    ≡ some (4, memcpy (map_program 1 one_left).mem 0x804_8000 12288 4)
unfolding load_program read_data read_data_loop map_program memcpy copy_bytes copy_dwords
    copy_dentry strncpy fill_bytes load32 dblock_address
load1 = refl

abbrev all_loaded : Sys
all_loaded = after_load 0 one_left

shells : load_shells 3 frame before ≡ some (true, all_loaded)
unfolding load_shells
shells = one_loaded 2 before load3 ∙ one_loaded 1 two_left load2 ∙ one_loaded 0 one_left load1

abbrev running : Sys
running = (enter_shell frame all_loaded).1

abbrev entry_address : ℕ
entry_address = load32 running.mem 42024

launched_shell : launch frame booted ≡ some (enters entry_address, running)
unfolding launch enter_shell
launched_shell = rw (launch, header, shells) refl

-- The key "a", and then the timer.
Reached-IsRunning_example :
    IsRunning (pit_interrupt_handler 5 6 (keyboard_event 30 running.machine)).1
Reached-IsRunning_example = Reached-IsRunning board cold frame _ cold-IsPoweredOn (
    steps (keyboard_event 30 running.machine) _
      (steps running.machine _ (launched booted running entry_address refl launched_shell)
        (key running.machine 30))
      (timer (keyboard_event 30 running.machine) 5 6))
