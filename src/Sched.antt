-- ===== src/Sched.antt =====
-- student-distrib/pit.c: the scheduler, which on every interrupt of the timer goes on with the
-- program of the next terminal. What the inline assembly does to the stack registers is the result
-- `Transfer`.
pub mod RoundRobin
use ece391os.Prelude.{
  ℕ, zero, suc, ◌+◌, ◌-◌, ◌*◌, ◌/◌, ◌%◌, ◌^◌, ◌≤◌, ◌<◌, ◌≡◌, ◌≢◌, ◌↔◌, ◌⊎◌, inl, inr, refl, sym, ap,
  ◌∙◌, arith, Bool, true, false, ◌&&◌, ◌||◌, not, Option, none, some, if◌then◌else◌, ltb, leb, ◌==◌,
  ==_iff, ==_refl, Bool-cases, lt→ltb, le→ltb, ltb→lt, ltb→le, lt→leb, le→leb, leb→le, u8, u32,
  bit_and, bit_or, update, minus_one, signed_lt, sub32, length, get_or, set, List, [], ◌∷◌, ◌++◌,
}
use ece391os.Paging.{
  Paging, video_mem_addr, user_video_mem, user_prog, first_shell, second_shell, third_shell,
  set_page_dir_entry, set_page_table1_entry, set_page_table2_entry,
}
use ece391os.Pic.{Pic, outb, enable_irq, disable_irq, send_eoi}
use ece391os.Console.{Console, signed_mod}

-- `sched_node`; the numbers are `int32_t`.
pub record SchedNode : Type 0 where
  pub process_num : ℕ
  pub video_buffer : ℕ
  pub vid_map : ℕ
  pub esp : ℕ
  pub ebp : ℕ

-- `esp0` is that of the task state segment.
pub record Sched : Type 0 where
  pub prev_sched_term : ℕ
  pub cur_sched_term : ℕ
  pub sched_arr : ℕ → SchedNode
  pub esp0 : ℕ

pub record Machine : Type 0 where
  pub pic : Pic
  pub console : Console
  pub sched : Sched

abbrev pub sched_size : ℕ
sched_size = 3

abbrev pub eight_kb : ℕ
eight_kb = 0x2000

abbrev pub four_mb : ℕ
four_mb = 0x40_0000

abbrev pub eight_mb : ℕ
eight_mb = 0x80_0000

abbrev pub pit_irq_num : ℕ
pit_irq_num = 0

-- 1193182 / 100.
abbrev pub divisor : ℕ
divisor = 1193182 / 100

abbrev pub current : Sched → SchedNode
current s = s.sched_arr s.cur_sched_term

-- The initial rows of `sched_arr`.
abbrev pub first_node : ℕ → ℕ → ℕ → SchedNode
first_node process_num video_buffer stack = record {
  process_num = process_num;
  video_buffer = video_buffer;
  vid_map = 0;
  esp = stack;
  ebp = stack;
}

unfoldable pub pit_init : Machine → Machine
pit_init m =
    let a0 = update m.sched.sched_arr 0 (first_node 1 first_shell eight_mb) in
    let a1 = update a0 1 (first_node 2 second_shell minus_one) in
    let a2 = update a1 2 (first_node 3 third_shell minus_one) in
    let out =
      outb (divisor / 2 ^ 8 % 2 ^ 8) 0x40
        (outb (divisor % 2 ^ 8) 0x40 (outb 0x36 0x43 m.pic.out)) in
    record {
      pic = enable_irq pit_irq_num (let p = m.pic in record p { out = out });
      console = m.console;
      sched = let s = m.sched in record s { sched_arr = a2 };
    }

-- The kernel stack of process `n` starts here.
unfoldable pub stack_of : ℕ → ℕ
stack_of n = sub32 eight_mb (u32 (sub32 n 1 * eight_kb))

-- Its program is in the four megabytes from here on.
unfoldable pub program_of : ℕ → ℕ
program_of n = u32 (eight_mb + u32 (sub32 n 1 * four_mb))

-- Where the program that is scheduled prints: the screen if its terminal is viewed.
unfoldable pub video_of : Sched → ℕ → ℕ
video_of s cur_terminal =
    if s.cur_sched_term == cur_terminal then video_mem_addr else (current s).video_buffer

unfoldable pub map_video : Sched → ℕ → Paging → Paging
map_video s cur_terminal p =
    let p1 =
      if (current s).vid_map == 1
      then set_page_table2_entry p user_video_mem (video_of s cur_terminal)
      else p in
    set_page_table1_entry p1 video_mem_addr (video_of s cur_terminal)

-- How the processor goes on: in the caller, at the first instruction of a program, or on the stack
-- of another program.
pub data Transfer : Type 0 where
  returns : Transfer
  starts : Transfer
  resumes : (esp ebp : ℕ) → Transfer

-- `esp` and `ebp` are the registers when the function saves them.
unfoldable pub switch_process : ℕ → ℕ → Machine → Transfer × Machine
switch_process esp ebp m =
    let s = m.sched in
    let c = m.console in
    let p1 = set_page_dir_entry c.paging user_prog (program_of (current s).process_num) in
    let c1 = record c {
      paging = map_video s c.cur_terminal p1;
      print_terminal = s.cur_sched_term;
    } in
    let saved = let n = s.sched_arr s.prev_sched_term in record n { esp = esp; ebp = ebp } in
    let s1 = record s {
      sched_arr = update s.sched_arr s.prev_sched_term saved;
      esp0 = stack_of (current s).process_num;
    } in
    if (current s1).esp == minus_one
    then (starts, record { pic = enable_irq pit_irq_num m.pic; console = c1; sched = s1 })
    else (
      resumes (current s1).esp (current s1).ebp,
      record { pic = m.pic; console = c1; sched = s1 },
    )

abbrev pub unmask : Machine → Machine
unmask m = record m { pic = enable_irq pit_irq_num m.pic }

-- A program that starts does not come back to the handler; one that is resumed does, in its own
-- call.
unfoldable pub after_switch : Transfer × Machine → Transfer × Machine
after_switch (returns, m) = (returns, unmask m)
after_switch (starts, m) = (starts, m)
after_switch (resumes esp ebp, m) = (resumes esp ebp, unmask m)

unfoldable pub next_term : Sched → Sched
next_term s = record s {
  prev_sched_term = s.cur_sched_term;
  cur_sched_term = signed_mod (u32 (s.cur_sched_term + 1)) sched_size;
}

unfoldable pub pit_interrupt_handler : ℕ → ℕ → Machine → Transfer × Machine
pit_interrupt_handler esp ebp m =
    let m1 = record m { pic = send_eoi pit_irq_num (disable_irq pit_irq_num m.pic) } in
    if m.sched.prev_sched_term == minus_one
    then (returns, unmask m1)
    else after_switch (switch_process esp ebp (record m1 { sched = next_term m.sched }))
