-- ===== src/Kernel/Interrupts.antt =====
-- The interrupts of the timer, the keyboard and the clock keep the kernel in order.
use ece391os.Prelude.{
  ℕ, ◌*◌, ◌/◌, ◌<◌, ◌≡◌, ◌≢◌, inl, inr, refl, sym, ap, ◌∙◌, arith, false, ltb, ◌==◌, Bool-cases,
  bit_or, minus_one,
}
use mathlib.Core.Path.{subst}
use ece391os.Pic.{enable_irq, disable_irq, send_eoi}
use ece391os.Paging.{Paging, user_mode, video_mem_addr, page_size, set_page_table1_entry}
use ece391os.Rtc.{Rtc, rtc_interrupt_handler}
use ece391os.Console.{Console}
use ece391os.Console.Scroll.{frame}
use ece391os.Keyboard.{
  recent_release, is_ignored, handle_key, restore_video, keyboard_interrupt_handler,
}
use ece391os.Keyboard.Line.{IsLine}
use ece391os.Keyboard.Keys.{handle_key-IsReady}
use ece391os.Keyboard.Pages.{recent_release_exec-pages, after_release_exec-pages}
use ece391os.Sched.{
  Machine, Sched, current, sched_size, switch_process, after_switch, next_term,
  pit_interrupt_handler,
}
use ece391os.Sched.RoundRobin.{
  IsLaidOut, screen_of, without_flags, next, next_lem, pit_interrupt_handler-Turn,
  pit_interrupt_handler-frame,
}
use ece391os.Kernel.{keyboard_event}
use ece391os.Kernel.Boot.{IsRunning, HasLines, told, IsUp}
use ece391os.Kernel.Lines.{reopened, reopened_from, acknowledged}

timer_lem :
    (esp ebp : ℕ) (m : Machine)
    → m.sched.cur_sched_term < sched_size
    → m.sched.prev_sched_term ≢ minus_one
    → let m' = (pit_interrupt_handler esp ebp m).1 in
      (m'.pic ≡ enable_irq 0 (send_eoi 0 (disable_irq 0 m.pic)))
      × (m'.console.terminals ≡ m.console.terminals)
unfolding pit_interrupt_handler switch_process after_switch next_term
timer_lem esp ebp m h started =
    let on : (m.sched.prev_sched_term == minus_one) ≡ false = ground arith in
    let (turn, other) = next_lem m.sched.cur_sched_term h in
    elim (Bool-cases ((m.sched.sched_arr (next m.sched.cur_sched_term)).esp == minus_one)) [
      | inl fresh ↦ rw (on, turn, other, fresh) (refl, refl)
      | inr ran ↦ rw (on, turn, other, ran) (refl, refl)
    ]

pub timer-IsRunning :
    (m : Machine) (esp ebp : ℕ) → IsRunning m → IsRunning (pit_interrupt_handler esp ebp m).1
timer-IsRunning m esp ebp r =
    let u = r.up in
    let t = pit_interrupt_handler-Turn esp ebp m u.turn r.started in
    let (shows, user, laid, turn) = pit_interrupt_handler-frame esp ebp m u.turn r.started u.laid in
    let (pic, terminals) = timer_lem esp ebp m u.turn r.started in
    record {
      up = record {
        ready = record {
          lines = λ j h. subst (λ f. IsLine (f j)) (sym terminals) (u.ready.lines j h);
          viewed = rw t.viewed u.ready.viewed;
        };
        turn = turn;
        laid = laid;
        prints = t.prints ∙ sym t.turn;
        shows = shows;
        lines = subst HasLines (sym pic) (reopened m.pic 0 (omega arith) refl u.lines);
      };
      started = ground (arith, t.left, u.turn);
    }

handle_key-pages :
    (scan_code : ℕ) (c : Console)
    → (handle_key scan_code c).paging ≡ set_page_table1_entry c.paging video_mem_addr video_mem_addr
unfolding handle_key
handle_key-pages scan_code c = elim (Bool-cases (ltb scan_code recent_release)) [
  | inl pressed ↦ rw pressed (recent_release_exec-pages scan_code _)
  | inr released ↦ rw released (after_release_exec-pages scan_code _)
]

set-frame :
    (p : Paging) (physical : ℕ)
    → frame (set_page_table1_entry p video_mem_addr physical)
      ≡ bit_or physical user_mode / page_size * page_size
unfolding frame set_page_table1_entry
set-frame p physical = refl

-- The video page goes back to the scheduled terminal, whichever is viewed by then.
restore_video-frame :
    (m : Machine) (c : Console)
    → m.sched.cur_sched_term < sched_size
    → IsLaidOut m.sched
    → frame c.paging ≡ video_mem_addr
    → let c' = restore_video m.sched.cur_sched_term (current m.sched).video_buffer c in
      frame c'.paging ≡ screen_of m.sched.cur_sched_term c'.cur_terminal
unfolding restore_video
restore_video-frame m c h laid before =
    elim (Bool-cases (m.sched.cur_sched_term == c.cur_terminal)) [
      | inl viewed ↦ rw viewed before
      | inr hidden ↦
          let t = m.sched.cur_sched_term in
          rw hidden
            (set-frame c.paging (current m.sched).video_buffer ∙ rw (laid t h) (without_flags t h))
    ]

pub key-IsRunning :
    (m : Machine) (scan_code : ℕ) → IsRunning m → IsRunning (keyboard_event scan_code m)
unfolding keyboard_event keyboard_interrupt_handler restore_video
key-IsRunning m scan_code r = elim (Bool-cases (is_ignored scan_code)) [
  | inl ignored ↦ rw ignored (record {
    up = record {
      ready = u.ready;
      turn = u.turn;
      laid = u.laid;
      prints = u.prints;
      shows = u.shows;
      lines = lines;
    };
    started = r.started;
  })
  | inr heard ↦
      let ready = handle_key-IsReady scan_code m.console u.ready in
      rw heard (record {
        up = record {
          ready = record { lines = ready.lines; viewed = ready.viewed };
          turn = u.turn;
          laid = u.laid;
          prints = refl;
          shows = restore_video-frame m (handle_key scan_code m.console) u.turn u.laid before;
          lines = lines;
        };
        started = r.started;
      })
]
  where
    s : Sched
    s = m.sched

    u : IsUp m
    u = r.up

    lines : HasLines (enable_irq 1 (send_eoi 1 (disable_irq 1 m.pic)))
    lines = reopened m.pic 1 (omega arith) refl u.lines

    before : frame (handle_key scan_code m.console).paging ≡ video_mem_addr
    before =
        ap frame (handle_key-pages scan_code m.console) ∙ set-frame m.console.paging video_mem_addr

pub clock-IsRunning :
    (m : Machine) (r : Rtc)
    → IsRunning m
    → IsRunning (record m { pic = (rtc_interrupt_handler (m.pic, r)).0 })
unfolding rtc_interrupt_handler
clock-IsRunning m rtc r = record {
  up = record {
    ready = u.ready;
    turn = u.turn;
    laid = u.laid;
    prints = u.prints;
    shows = u.shows;
    lines =
        let (sq, same) = acknowledged m.pic 8 (omega arith) u.lines in
        reopened_from m.pic _ 8 (omega arith) refl u.lines
          (told (send_eoi 8 (disable_irq 8 m.pic)) 0x8c 0x70 (omega arith) (omega arith) sq) same;
  };
  started = r.started;
}
  where
    u : IsUp m
    u = r.up
