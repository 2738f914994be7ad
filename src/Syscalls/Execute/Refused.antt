-- ===== src/Syscalls/Execute/Refused.antt =====
-- The calls of `execute` of student-distrib/syscalls.c that are refused.
use ece391os.Prelude.{
  ℕ, ◌+◌, ◌-◌, ◌^◌, ◌≤◌, ◌<◌, ◌≡◌, ◌≢◌, ◌⊎◌, inl, inr, refl, sym, ap, ◌∙◌, arith, true, false, not,
  some, if◌then◌else◌, ◌==◌, signed_lt,
}
use native.Mathlib.Decide.{dec_lt}
use ece391os.Memory.{Mem, in_block}
use ece391os.Memory.Words.{load32_ext}
use ece391os.Text.Length.{IsString}
use ece391os.Text.Compare.{IsBytes}
use ece391os.FileSystem.{num_dentries, dentry_address}
use ece391os.FileSystem.Lookup.{IsNamed}
use ece391os.FileSystem.Entry.{OutsideDirectory, read_dentry_by_name-Looked}
use ece391os.Process.{Sys}
use ece391os.Syscalls.Command.{IsWord, file_name, named, file_name-named}
use ece391os.Syscalls.Execute.{Frame, max_progs, failed, free_slots, read_header, execute}

-- The arrays of `execute` lie apart from the command line and from the directory.
pub record IsApart (f : Frame) (command : ℕ) (s : Sys) : Type 0 where
  pub command_apart : (f.filename + 33 ≤ command) ⊎ (command + 33 ≤ f.filename)
  pub name_outside :
      (f.filename + 33 ≤ s.fs.boot_block)
      ⊎ (dentry_address s.fs (num_dentries s.mem s.fs) ≤ f.filename)
  pub entry_outside : OutsideDirectory s.mem s.fs f.file_dentry

module _ (f : Frame) (command len : ℕ) (s : Sys) (b : IsBytes s.mem) (w : IsWord s.mem command len)
    (p : IsApart f command s) where
  abbrev with_name : Mem
  with_name = (file_name s.mem f.filename command).1

  name_at : (a : ℕ) → with_name a ≡ named s.mem f.filename command len a
  name_at a = (file_name-named s.mem f.filename command len a w p.command_apart).1

  name-IsBytes : IsBytes with_name
  name-IsBytes a = rw (name_at a) (ground (arith, b (command + (a - f.filename)), b a))

  name-kept : (a : ℕ) → in_block f.filename 33 a ≡ false → with_name a ≡ s.mem a
  name-kept a out = name_at a ∙ ground (arith, w.short)

  name_byte : (i : ℕ) → i < len → with_name (f.filename + i) ≡ s.mem (command + i)
  name_byte i lt = name_at (f.filename + i) ∙ ground arith

  name-IsString : IsString with_name f.filename len
  name-IsString = record {
    inside = λ i lt. rw (name_byte i lt) (w.inside i lt).0;
    ends = name_at (f.filename + len) ∙ ground arith;
    fits = omega (arith, w.short);
  }

  directory_kept :
      (a : ℕ)
      → s.fs.boot_block ≤ a
      → a < dentry_address s.fs (num_dentries s.mem s.fs)
      → with_name a ≡ s.mem a
  directory_kept a lo hi = name-kept a (ground (arith, p.name_outside))

  count_kept : num_dentries with_name s.fs ≡ num_dentries s.mem s.fs
  count_kept =
      let e = s.fs.boot_block in
      load32_ext s.mem with_name e (directory_kept e (omega arith) (omega arith))
        (directory_kept (e + 1) (omega arith) (omega arith))
        (directory_kept (e + 2) (omega arith) (omega arith))
        (directory_kept (e + 3) (omega arith) (omega arith))

  header_refused :
      ((k : ℕ) → k < num_dentries s.mem s.fs → ¬ IsNamed s.mem (dentry_address s.fs k) command len)
      → (slots : ℕ → ℕ)
      → let s1 = record s { process_array = slots; mem = with_name } in
        read_header f f.filename s1 ≡ some (false, with_name)
  unfolding read_header
  header_refused none_there slots =
      let (ret, m, run, found) =
        read_dentry_by_name-Looked with_name s.fs f.filename len f.file_dentry name-IsBytes
          name-IsString w.short (rw count_kept p.entry_outside) in
      elim found [
        | inl (k, lt, is_named, first, z, copy) ↦
            let lt' : k < num_dentries s.mem s.fs = omega (arith, lt, count_kept) in
            absurd (
              none_there k lt' (record {
                same = λ i below.
                    sym (
                      directory_kept (dentry_address s.fs k + i) (omega arith)
                        (omega (arith, lt', w.short)))
                    ∙ is_named.same i below
                    ∙ name_byte i below;
                ends = λ below.
                    sym (
                      directory_kept (dentry_address s.fs k + len) (omega arith)
                        (omega (arith, lt', w.short)))
                    ∙ is_named.ends below;
              }))
        | inr (e, same, rest) ↦ rw (read_header, run, e, same) refl
      ]

-- `execute` of a command line whose first word, of at most 32 bytes, is the name of no directory
-- entry: when six processes run or more, it returns -1 and changes nothing. With fewer, and one
-- at least, it returns -1 and changes nothing but the 33 bytes of its local array for the name:
-- no slot is taken, no process is counted and no page is mapped. Its local array and `dentry_t`
-- lie apart from the directory, and the array from the command line.
pub execute-refused :
    (f : Frame) (ebp command len : ℕ) (s : Sys)
    → IsBytes s.mem
    → IsWord s.mem command len
    → IsApart f command s
    → s.process_num < 2 ^ 31
    → s.process_num ≢ 0
    → ((k : ℕ) → k < num_dentries s.mem s.fs → ¬ IsNamed s.mem (dentry_address s.fs k) command len)
    → ((max_progs ≤ s.process_num) × (execute f ebp command s ≡ some (failed, s)))
      ⊎ ((s.process_num < max_progs)
          × ((m : Mem) × (execute f ebp command s ≡ some (failed, record s { mem = m }))
              × ((a : ℕ) → in_block f.filename 33 a ≡ false → m a ≡ s.mem a)))
unfolding execute
execute-refused f ebp command len s b w p small ne none_there =
    elim (dec_lt s.process_num max_progs) [
      | no full ↦
          let stops : not (signed_lt s.process_num max_progs) ≡ true = ground arith in
          inl (omega arith, rw (execute, stops) refl)
      | yes room ↦
          let goes : not (signed_lt s.process_num max_progs) ≡ false = ground arith in
          let running : (s.process_num == 0) ≡ false = ground (arith, ne) in
          let slots =
            if s.process_num == 0
            then free_slots max_progs 0 s.process_array
            else s.process_array in
          let m = (file_name s.mem f.filename command).1 in
          inr (
            room,
            (
              m,
              rw (execute, goes, header_refused f command len s b w p none_there slots)
                  (ap (λ k. some (failed, record s { process_array = k; mem = m }))
                    (rw running refl)),
              name-kept f command len s b w p,
            ),
          )
    ]
