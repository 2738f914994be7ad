-- ===== src/Sched/RoundRobin.antt =====
-- The timer's interrupt of student-distrib/pit.c: whose turn it is, and what is saved and restored.
use ece391os.Prelude.{
  ℕ, ◌+◌, ◌*◌, ◌/◌, ◌<◌, ◌≡◌, ◌≢◌, inl, inr, refl, ap, ◌∙◌, arith, false, if◌then◌else◌, ◌==◌,
  ==_iff, ==_refl, Bool-cases, u32, bit_or, update, minus_one,
}
use ece391os.Prelude.Bits.{every, every_lem}
use ece391os.Paging.{
  user_mode, table_index, Paging, page_size, video_mem_addr, user_video_mem, user_prog,
  set_page_dir_entry, set_page_table1_entry, set_page_table2_entry,
}
use ece391os.Console.{signed_mod}
use ece391os.Console.Scroll.{frame}
use ece391os.Sched.{
  SchedNode, Sched, Machine, Transfer, starts, resumes, sched_size, current, stack_of, program_of,
  video_of, map_video, next_term, switch_process, after_switch, pit_interrupt_handler,
}

abbrev pub saved : SchedNode → ℕ → ℕ → SchedNode
saved n esp ebp = record n { esp = esp; ebp = ebp }

abbrev pub go_on : SchedNode → Transfer
go_on n = if n.esp == minus_one then starts else resumes n.esp n.ebp

abbrev pub moved : Sched → ℕ → ℕ → Sched
moved s t u = record s { prev_sched_term = t; cur_sched_term = u }

-- A turn of the schedule, from terminal `t` to terminal `u`.
pub record Turn (m : Machine) (t u esp ebp : ℕ) (x : Transfer) (m' : Machine) : Type 0 where
  pub transfer : x ≡ go_on (m.sched.sched_arr u)
  pub left : m'.sched.prev_sched_term ≡ t
  pub turn : m'.sched.cur_sched_term ≡ u
  pub rows : m'.sched.sched_arr ≡ update m.sched.sched_arr t (saved (m.sched.sched_arr t) esp ebp)
  pub stack : m'.sched.esp0 ≡ stack_of (m.sched.sched_arr u).process_num
  pub prints : m'.console.print_terminal ≡ u
  pub viewed : m'.console.cur_terminal ≡ m.console.cur_terminal
  pub pages :
      m'.console.paging
      ≡ map_video (moved m.sched t u) m.console.cur_terminal (
          set_page_dir_entry m.console.paging user_prog
            (program_of (m.sched.sched_arr u).process_num))

-- The terminal whose turn comes after that of `t`.
abbrev pub next : ℕ → ℕ
next t = if t == 2 then 0 else t + 1

pub next_lem :
    (t : ℕ)
    → t < sched_size
    → (signed_mod (u32 (t + 1)) sched_size ≡ next t) × (next t == t ≡ false)
next_lem t h = (ground arith, ground arith)

-- When the schedule has started, the timer's interrupt gives the turn to the next terminal in
-- order: its stack registers are saved and those of the next one restored, the kernel stack is
-- that of the next program, and printing goes to the next terminal; a terminal that never ran
-- starts its shell.
pub pit_interrupt_handler-Turn :
    (esp ebp : ℕ) (m : Machine)
    → m.sched.cur_sched_term < sched_size
    → m.sched.prev_sched_term ≢ minus_one
    → let t = m.sched.cur_sched_term in
      let r = pit_interrupt_handler esp ebp m in Turn m t (next t) esp ebp r.0 r.1
unfolding pit_interrupt_handler switch_process after_switch next_term
pit_interrupt_handler-Turn esp ebp m h started =
    let t = m.sched.cur_sched_term in
    let on : (m.sched.prev_sched_term == minus_one) ≡ false = ground arith in
    let (turn, other) = next_lem t h in
    elim (Bool-cases ((m.sched.sched_arr (next t)).esp == minus_one)) [
      | inl fresh ↦
          rw (on, turn, other, fresh)
            (record {
              transfer = rw fresh refl;
              left = refl;
              turn = refl;
              rows = refl;
              stack = refl;
              prints = refl;
              viewed = refl;
              pages = refl;
            })
      | inr ran ↦
          rw (on, turn, other, ran)
            (record {
              transfer = rw ran refl;
              left = refl;
              turn = refl;
              rows = refl;
              stack = refl;
              prints = refl;
              viewed = refl;
              pages = refl;
            })
    ]

abbrev pub turn : ℕ × ℕ → Machine → Machine
turn r m = (pit_interrupt_handler r.0 r.1 m).1

-- Once the schedule has started, a program that the timer interrupts is resumed at the third
-- interrupt, in its own turn and on the stack it was interrupted on, whatever the stack
-- registers of the other two interrupts are. Its stack register is not -1, the mark of a
-- terminal that never ran.
pub three_turns :
    (m : Machine) (r0 r1 r2 : ℕ × ℕ)
    → m.sched.cur_sched_term < sched_size
    → m.sched.prev_sched_term ≢ minus_one
    → r0.0 ≢ minus_one
    → let last = pit_interrupt_handler r2.0 r2.1 (turn r1 (turn r0 m)) in
      (last.0 ≡ resumes r0.0 r0.1) × (last.1.sched.cur_sched_term ≡ m.sched.cur_sched_term)
three_turns m r0 r1 r2 h started ran =
    let t = m.sched.cur_sched_term in
    let m1 = turn r0 m in
    let m2 = turn r1 m1 in
    let a = pit_interrupt_handler-Turn r0.0 r0.1 m h started in
    let b =
      pit_interrupt_handler-Turn r1.0 r1.1 m1 (ground (arith, a.turn)) (ground (arith, a.left)) in
    let c =
      pit_interrupt_handler-Turn r2.0 r2.1 m2 (ground (arith, b.turn, a.turn))
        (ground (arith, b.left, a.turn)) in
    let back : next m2.sched.cur_sched_term ≡ t = ground (arith, b.turn, a.turn) in
    let first : m1.sched.sched_arr t ≡ saved (m.sched.sched_arr t) r0.0 r0.1 =
      ap (λ f. f t) a.rows ∙ rw (==_refl t) refl in
    let apart : (t == m1.sched.cur_sched_term) ≡ false = ground (arith, a.turn) in
    let second : m2.sched.sched_arr t ≡ m1.sched.sched_arr t =
      ap (λ f. f t) b.rows ∙ rw apart refl in
    (
      c.transfer ∙ ap (λ u. go_on (m2.sched.sched_arr u)) back ∙ ap go_on (second ∙ first) ∙ kept,
      c.turn ∙ back,
    )
  where
    kept : go_on (saved (m.sched.sched_arr m.sched.cur_sched_term) r0.0 r0.1) ≡ resumes r0.0 r0.1
    kept = ground (arith, ran)

-- The saved screens are where `pit_init` puts them.
abbrev pub IsLaidOut : Sched → Type 0
IsLaidOut s =
    (t : ℕ) → t < sched_size → (s.sched_arr t).video_buffer ≡ video_mem_addr + (t + 1) * page_size

-- The physical page that terminal `t` prints to, and shows to a program that uses video memory.
abbrev pub screen_of : ℕ → ℕ → ℕ
screen_of t viewed = if t == viewed then video_mem_addr else video_mem_addr + (t + 1) * page_size

unfoldable pub user_frame : Paging → ℕ
user_frame p = p.second_page_table (table_index user_video_mem) / page_size * page_size

pub without_flags :
    (t : ℕ)
    → t < sched_size
    → bit_or (video_mem_addr + (t + 1) * page_size) user_mode / page_size * page_size
      ≡ video_mem_addr + (t + 1) * page_size
unfolding every
without_flags t h = (==_iff _ _).0 (
    every_lem sched_size
      (λ t.
        bit_or (video_mem_addr + (t + 1) * page_size) user_mode / page_size * page_size
        == video_mem_addr + (t + 1) * page_size)
      t refl h)

video_of_lem :
    (s : Sched) (viewed : ℕ)
    → IsLaidOut s
    → s.cur_sched_term < sched_size
    → bit_or (video_of s viewed) user_mode / page_size * page_size
      ≡ screen_of s.cur_sched_term viewed
unfolding video_of
video_of_lem s viewed laid h = elim (Bool-cases (s.cur_sched_term == viewed)) [
  | inl shown ↦ rw shown refl
  | inr hidden ↦ rw (hidden, laid s.cur_sched_term h) (without_flags s.cur_sched_term h)
]

map_video_lem :
    (s : Sched) (viewed : ℕ) (p : Paging)
    → IsLaidOut s
    → s.cur_sched_term < sched_size
    → (frame (map_video s viewed p) ≡ screen_of s.cur_sched_term viewed)
      × (user_frame (map_video s viewed p)
          ≡ (if (current s).vid_map == 1 then screen_of s.cur_sched_term viewed else user_frame p))
unfolding map_video frame user_frame set_page_table1_entry set_page_table2_entry
map_video_lem s viewed p laid h = (
  video_of_lem s viewed laid h,
  elim (Bool-cases ((current s).vid_map == 1)) [
    | inl uses ↦ rw uses (video_of_lem s viewed laid h)
    | inr not_used ↦ rw not_used refl
  ],
)

untouched : (p : Paging) (v f : ℕ) → user_frame (set_page_dir_entry p v f) ≡ user_frame p
unfolding user_frame set_page_dir_entry
untouched p v f = refl

-- After the timer's interrupt, video memory is the screen if the terminal whose turn it is is
-- the one viewed, and else the saved screen of that terminal; so is the page that `vidmap`
-- gives, for a program that uses it, and else that page is as before. The schedule has started,
-- and its rows name the saved screens as `pit_init` sets them, which stays so.
pub pit_interrupt_handler-frame :
    (esp ebp : ℕ) (m : Machine)
    → m.sched.cur_sched_term < sched_size
    → m.sched.prev_sched_term ≢ minus_one
    → IsLaidOut m.sched
    → let m' = (pit_interrupt_handler esp ebp m).1 in
      let t = m'.sched.cur_sched_term in
      (frame m'.console.paging ≡ screen_of t m'.console.cur_terminal)
      × (user_frame m'.console.paging ≡ (
          if (m.sched.sched_arr t).vid_map == 1
          then screen_of t m'.console.cur_terminal
          else user_frame m.console.paging))
      × IsLaidOut m'.sched
      × (t < sched_size)
pit_interrupt_handler-frame esp ebp m h started laid =
    let t = m.sched.cur_sched_term in
    let m' = (pit_interrupt_handler esp ebp m).1 in
    let c = m.console in
    let a = pit_interrupt_handler-Turn esp ebp m h started in
    let (video, user) =
      map_video_lem (moved m.sched t (next t)) c.cur_terminal
        (set_page_dir_entry c.paging user_prog
          (program_of (m.sched.sched_arr (next t)).process_num))
        laid (ground arith) in
    let row : (j : ℕ)
        → m'.sched.sched_arr j
          ≡ update m.sched.sched_arr t (saved (m.sched.sched_arr t) esp ebp) j =
      λ j. ap (λ f. f j) a.rows in
    rw (a.turn, a.viewed, a.pages)
      (
        video,
        user ∙ rw (untouched c.paging user_prog _) refl,
        λ j lt. ground (arith, row j, laid j),
        ground arith,
      )
