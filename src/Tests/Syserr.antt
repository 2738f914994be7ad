-- ===== src/Tests/Syserr.antt =====
-- The program of syscalls/ece391syserr.c in a process.
use ece391os.Prelude.{
  ℕ, ◌+◌, ◌≤◌, ◌<◌, ◌≡◌, ◌≢◌, ◌⊎◌, inr, refl, sym, ap, ◌∙◌, arith, ◌&&◌, if◌then◌else◌, ltb, leb,
  ◌==◌, minus_one,
}
use mathlib.Core.Path.{subst}
use ece391os.Memory.{Mem, load32, store}
use ece391os.Text.Length.{IsString}
use ece391os.Text.Compare.{IsBytes}
use ece391os.Descriptor.{Fdt, stdin_table, stdout_table, file_table}
use ece391os.Process.{Sys}
use ece391os.FileSystem.{num_dentries, dentry_address}
use ece391os.FileSystem.Lookup.{IsNamed}
use ece391os.Keyboard.{terminal_read_finish, buffer_bytes}
use ece391os.User.Program.{done, answered, line_taken, store_list}
use ece391os.User.Program.Line.{HasTyped}
use ece391os.User.Library.Prints.{IsText}
use ece391os.User.Syserr.{Message, Name, dot, helloo, shel, empty, Layout, syserr}
use ece391os.User.Syserr.Ready.{HasStrings, HasFiles, IsReady, size}
use ece391os.User.Syserr.Passes.{says, passes_all, syserr-says}
use ece391os.Tests.Image.{fs}
use ece391os.Tests.Processes.{sys}

-- The boot block with the entry "." of type 1, and the strings.
abbrev pub image : Mem
image a =
    if a == 4096
    then 1
    else if a == 4160
    then 0x2e
    else if a == 4192
    then 1
    else if a == 21010
    then 0x73
    else if a == 21011
    then 0x74
    else if a == 21020
    then 0x73
    else if a == 21021
    then 0x74
    else if a == 50000
    then 0x2b
    else if a == 50100
    then 0x2e
    else if leb 50200 a && ltb a 50206
    then 0x68
    else if a == 50300
    then 0x73
    else if a == 50600
    then 10
    else if leb 50301 a && ltb a 50304
    then 0x68
    else 0

abbrev pub names : Name → ℕ
names dot = 50100
names helloo = 50200
names shel = 50300
names empty = 50400

-- Every text is "+".
abbrev pub layout : Layout
layout = record { say = λ x. 50000; name = names; buf = 61000; frame = 40000; call = λ c s. (0, s) }

abbrev pub one : Message → ℕ
one x = 1

abbrev pub Low : Mem → Type 0
Low m = (a : ℕ) → a < 60000 → m a ≡ image a

module _ (m : Mem) (low : Low m) where
  names-IsString : (x : Name) → IsString m (names x) (size x)
  names-IsString dot = record {
    inside = λ i lt. rw (low (50100 + i) (omega arith)) (ground arith);
    ends = low 50101 (omega arith);
    fits = omega arith;
  }
  names-IsString helloo = record {
    inside = λ i lt. rw (low (50200 + i) (omega arith)) (ground arith);
    ends = low 50206 (omega arith);
    fits = omega arith;
  }
  names-IsString shel = record {
    inside = λ i lt. rw (low (50300 + i) (omega arith)) (ground arith);
    ends = low 50304 (omega arith);
    fits = omega arith;
  }
  names-IsString empty = record {
    inside = λ i lt. absurd (omega arith);
    ends = low 50400 (omega arith);
    fits = omega arith;
  }

  names_apart : (x : Name) → (names x + (size x + 1) ≤ 40000) ⊎ (40040 ≤ names x)
  names_apart dot = omega arith
  names_apart helloo = omega arith
  names_apart shel = omega arith
  names_apart empty = omega arith

  names_there : (x : Name) → names x ≢ 0
  names_there dot = omega arith
  names_there helloo = omega arith
  names_there shel = omega arith
  names_there empty = omega arith

  pub plus-IsText : IsText m 50000 1
  plus-IsText = record {
    string = record {
      inside = λ i lt. rw (low (50000 + i) (omega arith)) (ground arith);
      ends = low 50001 (omega arith);
      fits = omega arith;
    };
    small = omega arith;
    there = omega arith;
  }

  pub feed-IsText : IsText m 50600 1
  feed-IsText = record {
    string = record {
      inside = λ i lt. rw (low (50600 + i) (omega arith)) (ground arith);
      ends = low 50601 (omega arith);
      fits = omega arith;
    };
    small = omega arith;
    there = omega arith;
  }

  image-HasStrings : HasStrings layout one m sys.literals
  image-HasStrings = record {
    text = λ x. plus-IsText;
    text_apart = λ x. omega arith;
    name = names-IsString;
    name_apart = names_apart;
    name_there = names_there;
    dot_spelled = low 50100 (omega arith);
    helloo_spelled = low 50200 (omega arith);
    shel_spelled = (low 50300 (omega arith), low 50301 (omega arith));
    empty_spelled = (low 21000 (omega arith), omega arith);
    stdin_spelled = (low 21010 (omega arith), low 21011 (omega arith), omega arith);
    stdout_spelled = (low 21020 (omega arith), low 21021 (omega arith), omega arith);
  }

  pub one_entry : num_dentries m fs ≡ 1
  unfolding load32
  one_entry =
      rw
        (
          low 4096 (omega arith),
          low 4097 (omega arith),
          low 4098 (omega arith),
          low 4099 (omega arith),
        )
        refl

  pub entry_type : load32 m 4192 ≡ 1
  unfolding load32
  entry_type =
      rw
        (
          low 4192 (omega arith),
          low 4193 (omega arith),
          low 4194 (omega arith),
          low 4195 (omega arith),
        )
        refl

  -- The only entry is not called by a name with another first letter.
  pub other_name :
      (k s n : ℕ)
      → k < num_dentries m fs
      → 0 < n
      → m s ≢ 0x2e
      → ¬ IsNamed m (dentry_address fs k) s n
  other_name k s n lt pos ne named =
      let e : k ≡ 0 = omega (arith, one_entry, lt) in
      let first = subst (λ j. IsNamed m (dentry_address fs j) s n) e named in
      ne (ap m (omega arith) ∙ sym (first.same 0 pos) ∙ low 4160 (omega arith))

  image-HasFiles : HasFiles layout m fs
  image-HasFiles = record {
    outside = inr (rw one_entry (omega arith));
    dot_there = (
      0,
      rw one_entry (omega arith),
      record {
        same =
            λ i lt. rw (low (4160 + i) (omega arith), low (50100 + i) (omega arith)) (ground arith);
        ends = λ lt. low 4161 (omega arith);
      },
    );
    dot_type = λ k lt named.
        let e : k ≡ 0 = omega (arith, one_entry, lt) in
        ap (λ j. load32 m (dentry_address fs j + 32)) e ∙ entry_type;
    no_helloo =
        λ k lt. other_name k 50200 6 lt (omega arith) (omega (arith, low 50200 (omega arith)));
    no_shel =
        λ k lt. other_name k 50300 4 lt (omega arith) (omega (arith, low 50300 (omega arith)));
  }

-- A process with the terminal at descriptors 0 and 1 and no other descriptor open.
abbrev pub table : Fdt
table fd = record {
  jump_ptr = if fd == 0 then stdin_table else if fd == 1 then stdout_table else file_table;
  inode = 0;
  file_position = 0;
  flags = if ltb fd 2 then 1 else minus_one;
}

abbrev pub start : Sys
start = record sys { mem = image; pcb = let p = sys.pcb in record p { fdt = table } }

-- The state in which the line "0" is there, ended by a line feed.
abbrev pub typed : Sys
typed =
    let m = start.machine in
    let c = m.console in
    record start {
      machine = record m {
        console = record c {
          terminals = λ t.
              let row = c.terminals t in record row { kb_buf = λ i. if i == 0 then 0x30 else 10 };
        };
      };
    }

abbrev pub sys_at : Mem → Sys
sys_at m = record start { mem = m }

pub start-IsReady : (m : Mem) → Low m → IsBytes m → IsReady layout one (sys_at m)
start-IsReady m low b = record {
  strings = image-HasStrings m low;
  files = image-HasFiles m low;
  bytes = b;
  terminal = record { table = refl; used = refl };
  input = (refl, refl);
  used = λ i l lt. absurd (omega arith);
  free = λ i l below out. ground arith;
}

pub image-IsBytes : IsBytes image
image-IsBytes a = ground arith

typed-HasTyped : HasTyped typed 127
typed-HasTyped = record {
  some_byte = omega arith;
  inside = omega arith;
  room = (omega arith, omega arith);
}

abbrev pub read_image : Mem
read_image = store (store image 60000 0x30) 60001 10

read_image-IsBytes : IsBytes read_image
read_image-IsBytes a = ground (arith, image-IsBytes a)

pub read_image-Low : Low read_image
read_image-Low a lt = ground arith

taken_mem : (line_taken 60000 127 typed).1.mem ≡ read_image
unfolding line_taken terminal_read_finish store_list buffer_bytes
taken_mem = refl

taken-IsReady : IsReady layout one (line_taken 60000 127 typed).1
unfolding line_taken terminal_read_finish store_list buffer_bytes
taken-IsReady =
    let r = start-IsReady read_image read_image-Low read_image-IsBytes in
    record {
      strings = r.strings;
      files = r.files;
      bytes = r.bytes;
      terminal = record { table = refl; used = refl };
      input = (refl, refl);
      used = r.used;
      free = r.free;
    }

syserr-says_example :
    let s2 = (line_taken 60000 127 typed).1 in
    (s' : Sys) × (answered (syserr layout 60000 start) typed ≡ done 0 s')
    × (s'.machine.console ≡ says layout one s2.mem passes_all s2.machine.console)
    × IsReady layout one s'
syserr-says_example =
    syserr-says layout one 60000 start typed (start-IsReady image (λ a lt. refl) image-IsBytes)
      (omega arith) typed-HasTyped refl taken-IsReady
