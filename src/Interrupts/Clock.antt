-- ===== src/Interrupts/Clock.antt =====
-- The interrupt of the interval timer, which is the clock that processes wait for.
use patrick_landon_os.Base.{
  ◌≡◌, ◌∙◌, ap, refl, true, List, Word, arith, length, ◌≤◌, ◌*◌, ◌%◌, ◌+◌, word_mod,
}
use patrick_landon_os.Const.{max_proc, iv_tim_int, interval}
use patrick_landon_os.Machine.{Machine}
use patrick_landon_os.Machine.Memory.{Ptr, live, upd}
use patrick_landon_os.Asl.Entries.{Entry}
use patrick_landon_os.Asl.Apart.{IsTable-Apart, Apart-same}
use patrick_landon_os.Layout.{Layout}
use patrick_landon_os.Machine.Lemmas.{modify_int-ok}
use patrick_landon_os.Interrupts.{tick_clock, handle_line, clock_addr}
use patrick_landon_os.Interrupts.Rouse.{CanRouse, Roused, wake_loop-Roused}

module _ (l : Layout) (m : Machine) (lo hi : Ptr) (zs xs : List Ptr) (es : List Entry)
    (ds : List Ptr) where
  -- The interrupt of the interval timer, where at most `MAXPROC` processes wait for the clock and no
  -- ready process is blocked: it ends; the processes that waited for the clock follow the ready ones, in
  -- their order, and each counts no more as blocked; none waits for the clock, whose semaphore is 0, and
  -- the timer is loaded with the interval; the waiting processes of every other semaphore are as before,
  -- and the descriptors are again all on the active list, in the order of their addresses, or on the
  -- free list.
  pub handle_line-Roused :
      (time_start : Word)
      → length zs ≤ max_proc
      → live m.ints (clock_addr l) ≡ true
      → CanRouse m (clock_addr l) lo hi zs xs es ds
      → Roused
          (handle_line l time_start iv_tim_int)
          m
          (clock_addr l)
          lo
          hi
          zs
          xs
          es
          (upd m.ints (clock_addr l) (λ v. 0))
          ((interval * m.timescale) % word_mod)
  unfolding handle_line tick_clock
  handle_line-Roused time_start few alive c =
      let s =
        wake_loop-Roused (max_proc + 1) m (clock_addr l) lo hi zs xs es ds (omega (arith, few)) c in
      let cleared = record s.last {
        ints = upd s.last.ints (clock_addr l) (λ v. 0);
        interval_timer = (interval * s.last.timescale) % word_mod;
      } in
      record {
        last = cleared;
        runs =
            rw
              (
                s.runs,
                modify_int-ok s.last (clock_addr l)
                    (ap (λ h. live h (clock_addr l)) s.values ∙ alive) (λ v. 0),
              )
              refl;
        values = ap (λ h. upd h (clock_addr l) (λ v. 0)) s.values;
        interval = ap (λ t. (interval * t) % word_mod) s.scale;
        scale = s.scale;
        count = s.count;
        line = s.line;
        rest = s.rest;
        table = IsTable-Apart s.last cleared refl refl refl (Apart-same s.last.pcbs) s.table;
        waiters = s.waiters;
        others = s.others;
        ready = s.ready;
      }
