-- ===== src/Interrupts/Exception.antt =====
-- How a program that raises an exception ends.
use ece391os.Prelude.{ℕ, ◌+◌}
use ece391os.Memory.{Mem, store32}
use ece391os.Console.{Console}
use ece391os.Sched.{Sched}
use ece391os.Process.{Sys}

-- Memory once the second argument of `printf` is pushed.
abbrev pub pushed : ℕ → ℕ → Sys → Mem
pushed frame msg s = store32 s.mem (frame + 4) msg
