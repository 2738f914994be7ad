-- ===== src/Kernel/Calls.antt =====
-- The calls of programs on their terminal keep the kernel in order.
use ece391os.Kernel.Boot.{IsRunning}
use ece391os.Prelude.{
  ℕ, zero, suc, ◌+◌, ◌<◌, ◌≡◌, ◌≢◌, inl, inr, refl, sym, ◌∙◌, arith, ◌||◌, Option, none, some, ◌==◌,
  ==_refl, Bool-cases, signed_lt,
}
use native.Mathlib.Decide.{ℕ_discrete}
use mathlib.Core.Path.{subst}
use ece391os.Memory.{Mem}
use ece391os.Console.{Shell, Console, shell_num, set_shell, putc, putc_from}
use ece391os.Keyboard.{
  buf_length, cur_shell, set_cur_shell, terminal_write, terminal_read_start, terminal_read_finish,
}
use ece391os.Keyboard.Line.{IsLine, IsReady, putc-Printed}
use ece391os.Keyboard.Pages.{putc_from-pages}
use ece391os.Sched.{Machine}

-- A console that is changed without its terminals' roles and its pages.
console-IsRunning :
    (m : Machine) (c : Console)
    → IsRunning m
    → IsReady c
    → c.cur_terminal ≡ m.console.cur_terminal
    → c.print_terminal ≡ m.console.print_terminal
    → c.paging ≡ m.console.paging
    → IsRunning (record m { console = c })
console-IsRunning m c r ready viewed printed pages =
    let u = r.up in
    record {
      up = record {
        ready = ready;
        turn = u.turn;
        laid = u.laid;
        prints = printed ∙ u.prints;
        shows = rw (pages, viewed) u.shows;
        lines = u.lines;
      };
      started = r.started;
    }

-- One terminal's line is replaced by one in order.
shell-IsReady :
    (c c' : Console) (t : ℕ)
    → IsReady c
    → c'.cur_terminal ≡ c.cur_terminal
    → ((j : ℕ) → j ≢ t → c'.terminals j ≡ c.terminals j)
    → (t < shell_num → IsLine (c'.terminals t))
    → IsReady c'
shell-IsReady c c' t r e others line = record {
  lines = λ j lt. elim (ℕ_discrete j t) [
    | yes p ↦ subst (λ k. k < shell_num → IsLine (c'.terminals k)) (sym p) line lt
    | no ne ↦ rw (others j ne) (r.lines j lt)
  ];
  viewed = rw e r.viewed;
}

putc_from-IsReady :
    (n : ℕ) (view : Mem) (a : ℕ) (c : Console)
    → IsReady c
    → c.print_terminal < shell_num
    → IsReady (putc_from n view a c)
      × ((putc_from n view a c).cur_terminal ≡ c.cur_terminal)
      × ((putc_from n view a c).print_terminal ≡ c.print_terminal)
unfolding putc_from
putc_from-IsReady zero view a c r lt = (r, refl, refl)
putc_from-IsReady (suc n) view a c r lt =
    let t = c.print_terminal in
    let line = r.lines t lt in
    let p = putc-Printed (view a) c t refl line.on_screen in
    let here : IsLine ((putc (view a) c).terminals t) = record {
      ended = rw p.keys line.ended;
      running = λ f. rw p.keys (line.running (sym p.flag ∙ f));
      on_screen = p.on_screen;
      typed = omega (arith, p.keys, line.typed, line.ended, p.moved);
    } in
    let (ready, viewed, printed) =
      putc_from-IsReady n view (a + 1) (putc (view a) c)
        (shell-IsReady c (putc (view a) c) t r p.viewed p.others (λ h. here)) (rw p.printed lt) in
    (ready, viewed ∙ p.viewed, printed ∙ p.printed)

pub writes-IsRunning :
    (m : Machine) (view : Mem) (fd buf nbytes : ℕ)
    → IsRunning m
    → IsRunning (record m { console = (terminal_write view fd buf nbytes m.console).1 })
unfolding terminal_write
writes-IsRunning m view fd buf nbytes r = elim (Bool-cases ((buf == 0) || signed_lt nbytes 0)) [
  | inl refused ↦ rw refused (console-IsRunning m m.console r r.up.ready refl refl refl)
  | inr goes ↦
      let (ready, viewed, printed) =
        putc_from-IsReady nbytes view buf m.console r.up.ready (rw r.up.prints r.up.turn) in
      rw goes
        (console-IsRunning m _ r ready viewed printed (putc_from-pages nbytes view buf m.console))
]

abbrev pub RunsOn : Machine → Option Console → Type 0
RunsOn m none = Unit
RunsOn m (some c) = IsRunning (record m { console = c })

abbrev waiting : Shell → Shell
waiting s = record s { line_buffer_flag = 0 }

pub reads-RunsOn :
    (m : Machine) (buf nbytes : ℕ)
    → IsRunning m
    → (m.console.terminals m.sched.cur_sched_term).buf_index < buf_length
    → RunsOn m (terminal_read_start m.sched.cur_sched_term buf nbytes m.console)
unfolding terminal_read_start
reads-RunsOn m buf nbytes r room = elim (Bool-cases ((buf == 0) || signed_lt nbytes 0)) [
  | inl refused ↦ rw refused tt
  | inr goes ↦
      let c = m.console in
      let t = m.sched.cur_sched_term in
      let line = r.up.ready.lines t r.up.turn in
      let cleared : IsLine (waiting (c.terminals t)) = record {
        ended = line.ended;
        running = λ f. room;
        on_screen = record { column = line.on_screen.column; row = line.on_screen.row };
        typed = line.typed;
      } in
      rw goes (
        console-IsRunning m _ r
          (shell-IsReady c (set_shell c t (waiting (c.terminals t))) t r.up.ready refl
            (λ j ne. ground arith) (λ h. rw (==_refl t) cleared))
          refl refl refl)
]

abbrev emptied : Shell → Shell
emptied s = record s { buf_index = 0 }

pub takes-IsRunning :
    (m : Machine) (nbytes : ℕ)
    → IsRunning m
    → IsRunning (record m { console = (terminal_read_finish nbytes m.console).2 })
unfolding terminal_read_finish
takes-IsRunning m nbytes r =
    let c = m.console in
    let line = r.up.ready.lines c.cur_terminal r.up.ready.viewed in
    let empty : IsLine (emptied (cur_shell c)) = record {
      ended = omega arith;
      running = λ f. omega arith;
      on_screen = record { column = line.on_screen.column; row = line.on_screen.row };
      typed = omega arith;
    } in
    console-IsRunning m _ r
      (shell-IsReady c (set_cur_shell c (emptied (cur_shell c))) c.cur_terminal r.up.ready refl
        (λ j ne. ground arith) (λ h. rw (==_refl c.cur_terminal) empty))
      refl refl refl
