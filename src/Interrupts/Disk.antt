-- ===== src/Interrupts/Disk.antt =====
-- The interrupt of a device that is not a terminal, from the pending bits to the process that is woken.
use patrick_landon_os.Base.{ℕ, ◌≡◌, ◌≢◌, refl, true, false, List, some, Word, ◌-◌, get_or, ==_ne}
use patrick_landon_os.Const.{term_int, ploc_int, iv_tim_int, dev_int_offset, ack}
use patrick_landon_os.Machine.{Machine, ok}
use patrick_landon_os.Machine.Memory.{Ptr, live, get, upd}
use patrick_landon_os.Layout.{Layout, sem_dev_addr}
use patrick_landon_os.Asl.Entries.{Entry}
use patrick_landon_os.Asl.Apart.{IsTable-Apart, Apart-same}
use patrick_landon_os.Interrupts.Lines.{find_dev_no, device_reg}
use patrick_landon_os.Interrupts.{
  no_device, device_interrupt, device_index, acknowledge, handle_line, load_device, modify_device,
  answer_device,
}
use patrick_landon_os.Interrupts.Signal.{CanSignal, Signalled, signal_device-Signalled}

-- A device `dev` of the line `line_no` is the one to answer, and its registers are there.
pub record Interrupts (m : Machine) (line_no dev : ℕ) : Type 0 where
  pub pending : find_dev_no (get_or m.interrupt_dev (line_no - dev_int_offset) 0) ≡ some dev
  pub alive : live m.devices (device_reg line_no dev) ≡ true
  pub no_terminal : line_no ≢ term_int
  pub no_timer : line_no ≢ ploc_int
  pub no_clock : line_no ≢ iv_tim_int

abbrev pub status_of : Machine → ℕ → ℕ → Word
status_of m line_no dev = (get no_device m.devices (device_reg line_no dev)).d_status

module _ (l : Layout) (m : Machine) (line_no dev lo hi x : Ptr) (zs xs : List Ptr) (es : List Entry)
    (ds : List Ptr) (t : Interrupts m line_no dev)
    (c : CanSignal m (sem_dev_addr l (device_index line_no dev false)) lo hi x zs xs es ds) where
  abbrev sem : Ptr
  sem = sem_dev_addr l (device_index line_no dev false)

  abbrev acknowledged : Machine
  acknowledged = record m {
    devices = upd m.devices (device_reg line_no dev) (λ d. record d { d_command = ack });
  }

  acknowledged-CanSignal : CanSignal acknowledged sem lo hi x zs xs es ds
  acknowledged-CanSignal = record {
    sem = c.sem;
    waited = c.waited;
    table = IsTable-Apart m acknowledged refl refl refl (Apart-same m.pcbs) c.table;
    low = c.low;
    high = c.high;
    line = c.line;
    queue = c.queue;
    idle = c.idle;
    apart = c.apart;
  }

  acknowledge-runs :
      acknowledge line_no (device_reg line_no dev) m
      ≡ ok (status_of m line_no dev, false) acknowledged
  unfolding acknowledge load_device modify_device
  acknowledge-runs = rw (t.alive, ==_ne line_no term_int t.no_terminal, t.alive) refl

  -- The interrupt of a device that is not a terminal, on whose semaphore, which stays at 0 or below,
  -- processes wait, where no ready process is blocked: the device is acknowledged and the semaphore is
  -- one more; the first of the processes that wait goes to the end of the ready queue, behind the others
  -- in their order, with the status of the device in its `v0`, and counts no more as blocked; the rest
  -- still wait in their order, the waiting processes of every other semaphore are as before, and the
  -- descriptors are again all on the active list, in the order of their addresses, or on the free list.
  pub handle_line-Signalled :
      (time_start : Word)
      → Signalled
          (handle_line l time_start line_no)
          m
          sem
          lo
          hi
          x
          (status_of m line_no dev)
          zs
          xs
          es
          acknowledged.devices
  unfolding handle_line device_interrupt answer_device
  handle_line-Signalled time_start =
      let s =
        signal_device-Signalled acknowledged sem lo hi x (status_of m line_no dev) zs xs es ds
          acknowledged-CanSignal in
      record {
        last = s.last;
        runs =
            rw
              (
                ==_ne line_no ploc_int t.no_timer,
                ==_ne line_no iv_tim_int t.no_clock,
                t.pending,
                acknowledge-runs,
              )
              s.runs;
        registers = s.registers;
        value = s.value;
        count = s.count;
        still = s.still;
        scale = s.scale;
        freed = s.freed;
        answer = s.answer;
        line = s.line;
        rest = s.rest;
        table = s.table;
        waiters = s.waiters;
        others = s.others;
        ready = s.ready;
      }
