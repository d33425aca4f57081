-- ===== src/Tests/Clock.antt =====
-- The interrupt of the interval timer while processes wait for the clock.
use patrick_landon_os.Base.{refl, [], ◌∷◌, arith, word_mod, ◌*◌, ◌%◌}
use patrick_landon_os.Const.{iv_tim_int, interval}
use patrick_landon_os.Layout.{Layout}
use patrick_landon_os.Machine.Memory.{get, live, upd}
use patrick_landon_os.Interrupts.{handle_line}
use patrick_landon_os.Interrupts.Rouse.{CanRouse, Roused}
use patrick_landon_os.Interrupts.Clock.{handle_line-Roused}
use patrick_landon_os.Tests.Kernel.{some_layout}
use patrick_landon_os.Tests.Spare.{spare}
use patrick_landon_os.Tests.Waiting.{
  both_wait, one_entry, both_wait-IsTable, both_wait-IsQueue_ready,
}

-- The semaphore that the two processes of `both_wait` wait on is that of the clock.
abbrev clock_layout : Layout
clock_layout = record some_layout { sem_dev_array = 0x840 }

both_wait-CanRouse :
    CanRouse both_wait 0x900 0x600 0x630
      (0x200 ∷ 0x300 ∷ [])
      (0x400 ∷ [])
      one_entry
      (spare 0x3000 19)
unfolding live get
both_wait-CanRouse = record {
  table = both_wait-IsTable;
  low = omega arith;
  high = omega arith;
  line = refl;
  queue = both_wait-IsQueue_ready;
  idle = λ a i. ground arith;
}

handle_line-Roused_example :
    Roused
      (handle_line clock_layout 0 iv_tim_int)
      both_wait
      0x900
      0x600
      0x630
      (0x200 ∷ 0x300 ∷ [])
      (0x400 ∷ [])
      one_entry
      (upd both_wait.ints 0x900 (λ v. 0))
      ((interval * both_wait.timescale) % word_mod)
unfolding live
handle_line-Roused_example =
    handle_line-Roused clock_layout both_wait 0x600 0x630 (0x200 ∷ 0x300 ∷ []) (0x400 ∷ [])
      one_entry (spare 0x3000 19) 0 (omega arith) refl both_wait-CanRouse
