-- ===== src/Tests/Pong.antt =====
-- A picture of syscalls/ece391pingpong.c.
use ece391os.Prelude.{◌≡◌, refl, arith, ◌||◌, if◌then◌else◌, ◌==◌}
use ece391os.Memory.{Mem}
use ece391os.Console.{putc_from}
use ece391os.Process.{Sys}
use ece391os.User.Program.{done}
use ece391os.User.Pingpong
use ece391os.User.Pingpong.Pictures
use ece391os.Tests.Syserr.{start}

abbrev pong_layout : Pingpong.Layout
pong_layout = record { rtc_name = 50000; rate = 62000; garbage = 63000; buf = 60000; frame = 40000 }

abbrev framed : Mem
framed a =
    if a == 60080
    then 0
    else if a == 60079
    then 10
    else if (a == 60001) || (a == 60078)
    then b'|'
    else b' '

abbrev pong : Sys
pong = record start { mem = framed }

pong-CanDraw : Pictures.CanDraw pong_layout pong
pong-CanDraw = record {
  terminal = record { table = refl; used = refl };
  has_walls = record { left = (refl, refl); right = (refl, refl, refl) };
  there = omega arith;
}

draw-CanDraw_example :
    (s' : Sys) × (Pingpong.draw pong_layout b'A' 2 pong ≡ done tt s')
    × Pictures.CanDraw pong_layout s'
    × (s'.machine.console ≡ putc_from 80 (Pictures.picture b'A' 2) 0 pong.machine.console)
draw-CanDraw_example =
    Pictures.draw-CanDraw pong_layout b'A' 2 pong pong-CanDraw (omega arith) (omega arith)
      (omega arith)
