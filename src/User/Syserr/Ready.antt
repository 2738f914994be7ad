-- ===== src/User/Syserr/Ready.antt =====
-- What syscalls/ece391syserr.c needs of the kernel to pass its tests, and that a change of the local
-- `dentry_t` of `open` does not touch it.
use ece391os.Prelude.{ℕ, suc, ◌+◌, ◌≤◌, ◌<◌, ◌≡◌, ◌≢◌, ◌⊎◌, sym, ◌∙◌, arith, false, minus_one}
use ece391os.Memory.{Mem, load32, in_block}
use ece391os.Memory.Words.{load32_ext}
use ece391os.Text.Length.{IsString}
use ece391os.Text.Compare.{IsBytes}
use ece391os.FileSystem.{FileSystem, num_dentries, dentry_address, name_length}
use ece391os.FileSystem.Lookup.{IsNamed}
use ece391os.FileSystem.Entry.{OutsideDirectory}
use ece391os.Descriptor.{dir_table, stdin_table, max_fd_num}
use ece391os.Console.{putc_from}
use ece391os.Process.{Sys, Literals}
use ece391os.User.Library.Prints.{HasTerminal, IsText}
use ece391os.User.Syserr.{Message, Name, dot, helloo, shel, empty, Layout}

abbrev pub size : Name → ℕ
size dot = 1
size helloo = 6
size shel = 4
size empty = 0

-- `n` bytes from `a` on lie outside the local `dentry_t` of a call.
abbrev pub Apart : Layout → ℕ → ℕ → Type 0
Apart p a n = (a + n ≤ p.frame) ⊎ (p.frame + 40 ≤ a)

-- The strings that the program and `open` refer to.
pub record HasStrings (p : Layout) (len : Message → ℕ) (m : Mem) (l : Literals) : Type 0 where
  pub text : (x : Message) → IsText m (p.say x) (len x)
  pub text_apart : (x : Message) → Apart p (p.say x) (len x + 1)
  pub name : (x : Name) → IsString m (p.name x) (size x)
  pub name_apart : (x : Name) → Apart p (p.name x) (size x + 1)
  pub name_there : (x : Name) → p.name x ≢ 0
  pub dot_spelled : m (p.name dot) ≡ 0x2e
  pub helloo_spelled : m (p.name helloo) ≡ 0x68
  pub shel_spelled : (m (p.name shel) ≡ 0x73) × (m (p.name shel + 1) ≡ 0x68)
  pub empty_spelled : (m l.empty_name ≡ 0) × Apart p l.empty_name 1
  pub stdin_spelled :
      (m l.stdin_name ≡ 0x73) × (m (l.stdin_name + 1) ≡ 0x74) × Apart p l.stdin_name 2
  pub stdout_spelled :
      (m l.stdout_name ≡ 0x73) × (m (l.stdout_name + 1) ≡ 0x74) × Apart p l.stdout_name 2

-- The file system has the directory entry ".", and no file "helloo" or "shel".
pub record HasFiles (p : Layout) (m : Mem) (fs : FileSystem) : Type 0 where
  pub outside : OutsideDirectory m fs p.frame
  pub dot_there : (k : ℕ) × (k < num_dentries m fs) × IsNamed m (dentry_address fs k) (p.name dot) 1
  pub dot_type :
      (k : ℕ)
      → k < num_dentries m fs
      → IsNamed m (dentry_address fs k) (p.name dot) 1
      → load32 m (dentry_address fs k + 32) ≡ 1
  pub no_helloo :
      (k : ℕ) → k < num_dentries m fs → ¬ IsNamed m (dentry_address fs k) (p.name helloo) 6
  pub no_shel : (k : ℕ) → k < num_dentries m fs → ¬ IsNamed m (dentry_address fs k) (p.name shel) 4

-- The program with directories open at the descriptors from `lo` to below `hi`, and the others from
-- 2 on free.
pub record HasOpen (p : Layout) (len : Message → ℕ) (lo hi : ℕ) (s : Sys) : Type 0 where
  pub strings : HasStrings p len s.mem s.literals
  pub files : HasFiles p s.mem s.fs
  pub bytes : IsBytes s.mem
  pub terminal : HasTerminal s
  pub input : ((s.pcb.fdt 0).jump_ptr ≡ stdin_table) × ((s.pcb.fdt 0).flags ≡ 1)
  pub used :
      (i : ℕ) → lo ≤ i → i < hi → ((s.pcb.fdt i).flags ≡ 1) × ((s.pcb.fdt i).jump_ptr ≡ dir_table)
  pub free :
      (i : ℕ) → 2 ≤ i → i ≤ max_fd_num → (i < lo) ⊎ (hi ≤ i) → (s.pcb.fdt i).flags ≡ minus_one

-- Every descriptor from 2 on is free.
abbrev pub IsReady : Layout → (Message → ℕ) → Sys → Type 0
IsReady p len s = HasOpen p len 2 2 s

-- Memory is the same outside the local `dentry_t`.
abbrev pub Kept : Layout → Mem → Mem → Type 0
Kept p m m' = (a : ℕ) → in_block p.frame 40 a ≡ false → m' a ≡ m a

module _ (p : Layout) {m m' : Mem} (kept : Kept p m m') where
  pub Apart-Kept : (a n i : ℕ) → Apart p a n → i < n → m' (a + i) ≡ m (a + i)
  Apart-Kept a n i apart lt = kept (a + i) (ground arith)

  Apart-first : (a n : ℕ) → Apart p a (suc n) → m' a ≡ m a
  Apart-first a n apart = kept a (ground arith)

  IsString-Kept : (a n : ℕ) → Apart p a (n + 1) → IsString m a n → IsString m' a n
  IsString-Kept a n apart str = record {
    inside = λ i lt. rw (Apart-Kept a (n + 1) i apart (omega arith)) (str.inside i lt);
    ends = Apart-Kept a (n + 1) n apart (omega arith) ∙ str.ends;
    fits = str.fits;
  }

  pub HasStrings-Kept :
      (len : Message → ℕ) (l : Literals) → HasStrings p len m l → HasStrings p len m' l
  HasStrings-Kept len l h = record {
    text = λ x.
        let t = h.text x in
        record {
          string = IsString-Kept (p.say x) (len x) (h.text_apart x) t.string;
          small = t.small;
          there = t.there;
        };
    text_apart = h.text_apart;
    name = λ x. IsString-Kept (p.name x) (size x) (h.name_apart x) (h.name x);
    name_apart = h.name_apart;
    name_there = h.name_there;
    dot_spelled = Apart-first (p.name dot) 1 (h.name_apart dot) ∙ h.dot_spelled;
    helloo_spelled = Apart-first (p.name helloo) 6 (h.name_apart helloo) ∙ h.helloo_spelled;
    shel_spelled = (
      Apart-first (p.name shel) 4 (h.name_apart shel) ∙ h.shel_spelled.0,
      Apart-Kept (p.name shel) 5 1 (h.name_apart shel) (omega arith) ∙ h.shel_spelled.1,
    );
    empty_spelled =
        (Apart-first l.empty_name 0 h.empty_spelled.1 ∙ h.empty_spelled.0, h.empty_spelled.1);
    stdin_spelled = (
      Apart-first l.stdin_name 1 h.stdin_spelled.2 ∙ h.stdin_spelled.0,
      Apart-Kept l.stdin_name 2 1 h.stdin_spelled.2 (omega arith) ∙ h.stdin_spelled.1,
      h.stdin_spelled.2,
    );
    stdout_spelled = (
      Apart-first l.stdout_name 1 h.stdout_spelled.2 ∙ h.stdout_spelled.0,
      Apart-Kept l.stdout_name 2 1 h.stdout_spelled.2 (omega arith) ∙ h.stdout_spelled.1,
      h.stdout_spelled.2,
    );
  }

  load32-Kept : (a : ℕ) → Apart p a 4 → load32 m' a ≡ load32 m a
  load32-Kept a apart =
      load32_ext m m' a (Apart-first a 3 apart) (Apart-Kept a 4 1 apart (omega arith))
        (Apart-Kept a 4 2 apart (omega arith)) (Apart-Kept a 4 3 apart (omega arith))

  IsNamed-Kept :
      (d s n : ℕ)
      → n ≤ name_length
      → Apart p d 40
      → Apart p s (n + 1)
      → IsNamed m' d s n
      → IsNamed m d s n
  IsNamed-Kept d s n short far apart named = record {
    same = λ i lt.
        sym (Apart-Kept d 40 i far (omega arith))
        ∙ named.same i lt
        ∙ Apart-Kept s (n + 1) i apart (omega arith);
    ends = λ lt. sym (Apart-Kept d 40 n far (omega arith)) ∙ named.ends lt;
  }

module _ (p : Layout) (fs : FileSystem) {m m' : Mem} (kept : Kept p m m')
    (outside : OutsideDirectory m fs p.frame) where
  num_dentries-Kept : num_dentries m' fs ≡ num_dentries m fs
  num_dentries-Kept = load32-Kept p kept fs.boot_block (omega (arith, outside))

  entry-Apart : (k : ℕ) → k < num_dentries m fs → Apart p (dentry_address fs k) 40
  entry-Apart k lt = omega (arith, outside)

  named_before :
      (k s n : ℕ)
      → k < num_dentries m' fs
      → n ≤ name_length
      → Apart p s (n + 1)
      → IsNamed m' (dentry_address fs k) s n
      → (k < num_dentries m fs) × IsNamed m (dentry_address fs k) s n
  named_before k s n lt short apart named =
      let lt' : k < num_dentries m fs = rw (← num_dentries-Kept) lt in
      (lt', IsNamed-Kept p kept (dentry_address fs k) s n short (entry-Apart k lt') apart named)

pub HasFiles-Kept :
    (p : Layout) (len : Message → ℕ) (l : Literals) (fs : FileSystem) (m m' : Mem)
    → Kept p m m'
    → HasStrings p len m l
    → HasFiles p m fs
    → HasFiles p m' fs
HasFiles-Kept p len l fs m m' kept h f =
    let count = num_dentries-Kept p fs kept f.outside in
    let (k, lt, named) = f.dot_there in
    record {
      outside = rw count f.outside;
      dot_there = (
        k,
        rw count lt,
        IsNamed-Kept p (λ a out. sym (kept a out)) (dentry_address fs k) (p.name dot) 1
            (omega arith) (entry-Apart p fs kept f.outside k lt) (h.name_apart dot) named,
      );
      dot_type = λ j below there.
          let (lt', was) =
            named_before p fs kept f.outside j (p.name dot) 1 below (omega arith) (h.name_apart dot)
              there in
          load32-Kept p kept (dentry_address fs j + 32)
            (omega (arith, entry-Apart p fs kept f.outside j lt'))
          ∙ f.dot_type j lt' was;
      no_helloo = λ j below there.
          let (lt', was) =
            named_before p fs kept f.outside j (p.name helloo) 6 below (omega arith)
              (h.name_apart helloo) there in
          f.no_helloo j lt' was;
      no_shel = λ j below there.
          let (lt', was) =
            named_before p fs kept f.outside j (p.name shel) 4 below (omega arith)
              (h.name_apart shel) there in
          f.no_shel j lt' was;
    }

pub HasOpen-Kept :
    (p : Layout) (len : Message → ℕ) (lo hi : ℕ) (s : Sys) (m : Mem)
    → HasOpen p len lo hi s
    → Kept p s.mem m
    → IsBytes m
    → HasOpen p len lo hi (record s { mem = m })
HasOpen-Kept p len lo hi s m h kept b = record {
  strings = HasStrings-Kept p kept len s.literals h.strings;
  files = HasFiles-Kept p len s.literals s.fs s.mem m kept h.strings h.files;
  bytes = b;
  terminal = record { table = h.terminal.table; used = h.terminal.used };
  input = h.input;
  used = h.used;
  free = h.free;
}

-- What a test that passes leaves behind: it has printed the text, and the next test can run.
pub record Passed (p : Layout) (len : Message → ℕ) (s : Sys) (x : Message) (s' : Sys) : Type 0 where
  pub ready : IsReady p len s'
  pub kept : Kept p s.mem s'.mem
  pub console : s'.machine.console ≡ putc_from (len x) s.mem (p.say x) s.machine.console
