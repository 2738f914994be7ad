-- ===== src/Kernel/Run.antt =====
-- From `launch` of student-distrib/syscalls.c on.
use ece391os.Prelude.{sym}
use mathlib.Core.Path.{subst}
use ece391os.Sched.{Machine}
use ece391os.Syscalls.Execute.{Frame}
use ece391os.Kernel.{Board, Reached, launched, steps}
use ece391os.Kernel.Boot.{IsRunning, IsUp, IsPoweredOn, initialize-IsUp}
use ece391os.Kernel.Launch.{Begun, launch-Begun, SameMachine-IsRunning}
use ece391os.Kernel.{Step, timer, key, clock, writes, reads, takes}
use ece391os.Kernel.Interrupts.{timer-IsRunning, key-IsRunning, clock-IsRunning}
use ece391os.Kernel.Calls.{RunsOn, writes-IsRunning, reads-RunsOn, takes-IsRunning}

step-IsRunning : (m m' : Machine) → IsRunning m → Step m m' → IsRunning m'
step-IsRunning m m' r (timer k esp ebp) = timer-IsRunning k esp ebp r
step-IsRunning m m' r (key k scan_code) = key-IsRunning k scan_code r
step-IsRunning m m' r (clock k rtc) = clock-IsRunning k rtc r
step-IsRunning m m' r (writes k view fd buf nbytes) = writes-IsRunning k view fd buf nbytes r
step-IsRunning m m' r (reads k buf nbytes c room run) =
    subst (RunsOn k) run (reads-RunsOn k buf nbytes r room)
step-IsRunning m m' r (takes k nbytes) = takes-IsRunning k nbytes r

-- In every state that the kernel reaches from the start of the first shell by interrupts of the
-- timer, the keyboard and the clock and by the programs' calls on their terminal, in any order:
-- each terminal's line fits its buffer and its cursor the screen; printing goes to the terminal
-- that is scheduled, and reaches the screen exactly if that terminal is viewed, or else its own
-- saved page; of the sixteen lines the timer, the keyboard, the second controller and the clock
-- are let through and no other, and both controllers hold these masks. A read starts on a line
-- that is not full, and the machine is powered on with the initial values that the source gives.
pub Reached-IsRunning :
    (b : Board) (m0 : Machine) (f : Frame) (m : Machine)
    → IsPoweredOn m0
    → Reached b m0 f m
    → IsRunning m
Reached-IsRunning b m0 f m on (launched s s' addr init run) =
    let begun = subst (Begun s) run (launch-Begun f s) in
    SameMachine-IsRunning s s' (subst IsUp (sym init) (initialize-IsUp b m0 on)) begun.0 begun.1
Reached-IsRunning b m0 f m on (steps k m' before st) =
    step-IsRunning k m' (Reached-IsRunning b m0 f k on before) st
