-- ===== src/Kernel/Launch.antt =====
-- `launch` of student-distrib/syscalls.c keeps what `entry` set up.
use ece391os.Prelude.{
  ℕ, zero, suc, ◌+◌, ◌*◌, ◌/◌, ◌≡◌, inl, inr, refl, sym, ap, ◌∙◌, arith, Bool, true, false, Option,
  none, some, if◌then◌else◌, ◌==◌, Bool-cases, update, minus_one,
}
use mathlib.Core.Path.{subst}
use ece391os.Memory.{Mem}
use ece391os.Paging.{Paging, video_mem_addr, page_size, set_page_dir_entry}
use ece391os.Console.Scroll.{frame}
use ece391os.Keyboard.Line.{IsLine}
use ece391os.Process.{Sys, map_program}
use ece391os.Syscalls.Execute.{
  Frame, Execution, failed, enters, load_program, load_shells, max_progs, free_slots, enter_shell,
  read_header, launch,
}
use ece391os.Kernel.Boot.{IsRunning, HasLines, IsUp}

-- The machine is the same but for the page directory and the schedule's start.
pub record SameMachine (s s' : Sys) : Type 0 where
  pic : s'.machine.pic ≡ s.machine.pic
  rows : s'.machine.sched.sched_arr ≡ s.machine.sched.sched_arr
  turn : s'.machine.sched.cur_sched_term ≡ s.machine.sched.cur_sched_term
  terminals : s'.machine.console.terminals ≡ s.machine.console.terminals
  viewed : s'.machine.console.cur_terminal ≡ s.machine.console.cur_terminal
  printed : s'.machine.console.print_terminal ≡ s.machine.console.print_terminal
  table : s'.machine.console.paging.first_page_table ≡ s.machine.console.paging.first_page_table

unchanged : (s s' : Sys) → s'.machine ≡ s.machine → SameMachine s s'
unchanged s s' e = record {
  pic = ap (λ m. m.pic) e;
  rows = ap (λ m. m.sched.sched_arr) e;
  turn = ap (λ m. m.sched.cur_sched_term) e;
  terminals = ap (λ m. m.console.terminals) e;
  viewed = ap (λ m. m.console.cur_terminal) e;
  printed = ap (λ m. m.console.print_terminal) e;
  table = ap (λ m. m.console.paging.first_page_table) e;
}

then_same : (s s1 s2 : Sys) → SameMachine s s1 → SameMachine s1 s2 → SameMachine s s2
then_same s s1 s2 a b = record {
  pic = b.pic ∙ a.pic;
  rows = b.rows ∙ a.rows;
  turn = b.turn ∙ a.turn;
  terminals = b.terminals ∙ a.terminals;
  viewed = b.viewed ∙ a.viewed;
  printed = b.printed ∙ a.printed;
  table = b.table ∙ a.table;
}

map_program-SameMachine : (n : ℕ) (s : Sys) → SameMachine s (map_program n s)
unfolding map_program set_page_dir_entry
map_program-SameMachine n s = record {
  pic = refl;
  rows = refl;
  turn = refl;
  terminals = refl;
  viewed = refl;
  printed = refl;
  table = refl;
}

abbrev Loaded : Sys → Option (Bool × Sys) → Type 0
Loaded s none = Unit
Loaded s (some r) = SameMachine s r.1

SameMachine-Loaded :
    (s s2 : Sys) (o : Option (Bool × Sys)) → SameMachine s s2 → Loaded s2 o → Loaded s o
SameMachine-Loaded s s2 none same all = tt
SameMachine-Loaded s s2 (some r) same all = then_same s s2 r.1 same all

load_shells-Loaded : (n : ℕ) (f : Frame) (s : Sys) → Loaded s (load_shells n f s)
unfolding load_shells
load_shells-Loaded zero f s = unchanged s s refl
load_shells-Loaded (suc i) f s =
    go (load_program f (map_program (i + 1) s)) (λ s2. load_shells-Loaded i f s2)
  where
    s1 : Sys
    s1 = map_program (i + 1) s

    stored : Mem → Sys
    stored m = record s1 { mem = m; process_array = update s1.process_array i 1 }

    changed : (s2 : Sys) → s2.machine ≡ s1.machine → SameMachine s s2
    changed s2 e = then_same s s1 s2 (map_program-SameMachine (i + 1) s) (unchanged s1 s2 e)

    go :
        (o : Option (ℕ × Mem))
        → ((s2 : Sys) → Loaded s2 (load_shells i f s2))
        → Loaded s (elim o [
          | none ↦ none
          | some (size, m) ↦ elim (size == minus_one) [
            | true ↦ some (false, record s1 { mem = m })
            | false ↦ load_shells i f (stored m)
          ]
        ])
    go none rest = tt
    go (some (size, m)) rest = elim (Bool-cases (size == minus_one)) [
      | inl bad ↦ rw bad (changed (record s1 { mem = m }) refl)
      | inr good ↦
          rw good (SameMachine-Loaded s (stored m) _ (changed (stored m) refl) (rest (stored m)))
    ]

enter_shell-SameMachine : (f : Frame) (s : Sys) → SameMachine s (enter_shell f s).1
unfolding enter_shell
enter_shell-SameMachine f s = record {
  pic = refl;
  rows = refl;
  turn = refl;
  terminals = refl;
  viewed = refl;
  printed = refl;
  table = refl;
}

-- What the first program's start changes besides: the schedule has begun.
abbrev pub Begun : Sys → Option (Execution × Sys) → Type 0
Begun s none = Unit
Begun s (some (failed, s')) = Unit
Begun s (some (enters addr, s')) = SameMachine s s' × (s'.machine.sched.prev_sched_term ≡ 0)

pub launch-Begun : (f : Frame) (s : Sys) → Begun s (launch f s)
unfolding launch enter_shell
launch-Begun f s = header (read_header f s.literals.shell_name s1)
  where
    s1 : Sys
    s1 = record s { process_array = free_slots max_progs 0 s.process_array }

    shells :
        (s3 : Sys) (o : Option (Bool × Sys))
        → s3.machine ≡ s.machine
        → Loaded s3 o
        → Begun s (elim o [
          | none ↦ none
          | some (loaded, s2) ↦ some (if loaded then enter_shell f s2 else (failed, s2))
        ])
    shells s3 none e all = tt
    shells s3 (some (true, s2)) e all = (
      then_same s s2 _ (then_same s s3 s2 (unchanged s s3 e) all) (enter_shell-SameMachine f s2),
      refl,
    )
    shells s3 (some (false, s2)) e all = tt

    header :
        (o : Option (Bool × Mem))
        → Begun s (elim o [
          | none ↦ none
          | some (is_good, m) ↦ elim is_good [
            | false ↦ some (failed, record s1 { mem = m })
            | true ↦ elim (load_shells 3 f (record s1 { mem = m })) [
              | none ↦ none
              | some (loaded, s2) ↦ some (if loaded then enter_shell f s2 else (failed, s2))
            ]
          ]
        ])
    header none = tt
    header (some (false, m)) = tt
    header (some (true, m)) =
        let s3 = record s1 { mem = m } in
        shells s3 (load_shells 3 f s3) refl (load_shells-Loaded 3 f s3)

frame-table : (p q : Paging) → p.first_page_table ≡ q.first_page_table → frame p ≡ frame q
unfolding frame
frame-table p q e = ap (λ t. t (video_mem_addr / page_size) / page_size * page_size) e

pub SameMachine-IsRunning :
    (s s' : Sys)
    → IsUp s.machine
    → SameMachine s s'
    → s'.machine.sched.prev_sched_term ≡ 0
    → IsRunning s'.machine
SameMachine-IsRunning s s' u k begun = record {
  up = record {
    ready = record {
      lines = λ t h. subst (λ f. IsLine (f t)) (sym k.terminals) (u.ready.lines t h);
      viewed = rw k.viewed u.ready.viewed;
    };
    turn = rw k.turn u.turn;
    laid = λ t h. ap (λ r. (r t).video_buffer) k.rows ∙ u.laid t h;
    prints = k.printed ∙ u.prints ∙ sym k.turn;
    shows =
        frame-table s'.machine.console.paging s.machine.console.paging k.table
        ∙ rw (k.turn, k.viewed) u.shows;
    lines = subst HasLines (sym k.pic) u.lines;
  };
  started = omega (arith, begun);
}
