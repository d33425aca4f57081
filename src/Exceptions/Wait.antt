-- ===== src/Exceptions/Wait.antt =====
-- System calls 4, 7 and 8 where the caller has to wait.
use patrick_landon_os.Layout.{Layout, clock_addr, sem_dev_addr}
use patrick_landon_os.Exceptions.Wait.Park.{
  CanPark, Parked, last, last-Parked, block_on-runs, scheduler-runs,
}
pub mod Stop
pub mod Park
use patrick_landon_os.Base.{
  ◌≡◌, ◌≢◌, ◌∙◌, ap, refl, suc, true, false, List, [], ◌∷◌, ◌++◌, has, ◌+w◌, ◌-w◌, is_neg, arith,
  ==_ne, ==_self, ◌<◌, length, ◌==◌, if◌then◌else◌, eq_of_==, Word, ltb,
}
use patrick_landon_os.Const.{max_int, state_reg_num, quantum, min_int, disk_int}
use patrick_landon_os.Types.{blank_pcb, Pcb, reg, s_a1, s_a2, s_a3}
use patrick_landon_os.Machine.Memory.{
  Ptr, Store, null, live, get, upd, get-upd_self, get-upd, live-upd,
}
use patrick_landon_os.Machine.{Machine, exit, ldst, Cmd}
use patrick_landon_os.Machine.Lemmas.{load_int-ok, modify_int-ok, load_state-ok, modify_pcb-ok}
use patrick_landon_os.CopyState.{copy_state}
use patrick_landon_os.CopyState.Equal.{copy_state-eq}
use patrick_landon_os.Pcb.Queue.Links.{IsQueue, IsQueue-same}
use patrick_landon_os.Scheduler.Dispatch.{clock_now, stck-ok, Dispatched, scheduler-first}
use patrick_landon_os.Asl.Entries.{Entry, IsAsl, waiting_on, update, sem_at}
use patrick_landon_os.Asl.Insert.{HasRoom, insert_blocked_lem}
use patrick_landon_os.Asl.Enter.{Enlisted}
use patrick_landon_os.Asl.Apart.{Used, Used-update, IsAsl-Apart, IsTable-Apart, Apart-same}
use patrick_landon_os.Exceptions.Semaphores.{caller, sem_of, resumes}
use patrick_landon_os.Exceptions.Calls.{P, block_on, charge, wait_index, waitforclock, waitio}
use patrick_landon_os.Exceptions.Wait.Stop.{stopped}
use patrick_landon_os.Asl.Table.{IsTable}

-- What a system call `op` leaves behind when its caller waits on the semaphore `i` and `y` runs, `n` of
-- the processes counting as blocked on a device.
pub record Waited (op : Cmd (Unit {0})) (m : Machine) (state i lo hi y : Ptr) (ys : List Ptr)
    (es : List Entry) (n : Word) : Type 0 where
  pub last : Machine
  pub runs : op m ≡ exit (ldst (get blank_pcb m.pcbs y).p_s) last
  pub value : get 0 last.ints i ≡ (get 0 m.ints i -w 1)
  pub parked : Parked (resumes m state i (λ v. v -w 1)) last state i lo hi y ys es n

-- The semaphore `i` falls below 0.
pub record Falls (m : Machine) (i : Ptr) : Type 0 where
  pub sem : live m.ints i ≡ true
  pub below : is_neg (get 0 m.ints i -w 1) ≡ true

module _ (m : Machine) (state i lo hi y : Ptr) (ys : List Ptr) (es : List Entry) (ds : List Ptr)
    (w : CanPark m state i lo hi y ys es ds) (f : Falls m i) where
  abbrev lowered : Machine
  lowered = resumes m state i (λ v. v -w 1)

  lowered-CanPark : CanPark lowered state i lo hi y ys es ds
  lowered-CanPark = record {
    saved = w.saved;
    table = IsTable-Apart m lowered refl refl refl (Apart-same m.pcbs) w.table;
    low = w.low;
    high = w.high;
    room = w.room;
    lc = w.lc;
    free = w.free;
    queue = w.queue;
    idle = w.idle;
    apart = w.apart;
    scale = w.scale;
    regs = w.regs;
    kept_regs = w.kept_regs;
  }

  waits :
      (op : Cmd (Unit {0})) (n : Word)
      → op m
        ≡ exit
            (ldst (get blank_pcb m.pcbs y).p_s)
            (last lowered state i lo hi y ys es ds lowered-CanPark n)
      → Waited op m state i lo hi y ys es n
  waits op n e =
      let p = last-Parked lowered state i lo hi y ys es ds lowered-CanPark n in
      record {
        last = last lowered state i lo hi y ys es ds lowered-CanPark n;
        runs = e;
        value = ap (λ h. get 0 h i) p.ints ∙ get-upd_self 0 m.ints i (λ v. v -w 1) f.sem;
        parked = p;
      }

-- System call 4 on a semaphore that falls below 0, of a process that is blocked on nothing, where a
-- descriptor is free if no process waits on the semaphore, no ready process is blocked and there are
-- some: the semaphore is one less; the caller is the last of the processes that wait on it, with the
-- state of its call saved; the waiting processes of every other semaphore are as before, and the
-- descriptors are again all on the active list, in the order of their addresses, or on the free list;
-- the first of the ready processes goes on from its saved state, and the others are ready in their
-- order; the count of the processes blocked on devices is as before.
pub P-Waited :
    (m : Machine) (state lo hi y : Ptr) (ys : List Ptr) (es : List Entry) (ds : List Ptr)
    → CanPark m state (sem_of m state) lo hi y ys es ds
    → Falls m (sem_of m state)
    → Waited (P state) m state (sem_of m state) lo hi y ys es m.sft_blk_cnt
unfolding P
P-Waited m state lo hi y ys es ds w f =
    let i = sem_of m state in
    let low = lowered m state i lo hi y ys es ds w f in
    let v = lowered-CanPark m state i lo hi y ys es ds w f in
    waits m state i lo hi y ys es ds w f (P state) m.sft_blk_cnt (
      rw
        (
          load_state-ok m state w.saved,
          modify_int-ok m i f.sem,
          load_int-ok low i (simp live-upd f.sem),
          get-upd_self 0 m.ints i (λ v. v -w 1) f.sem,
          f.below,
          block_on-runs low state i lo hi y ys es ds v,
          scheduler-runs low state i lo hi y ys es ds v m.sft_blk_cnt,
        )
        refl)

-- System call 7 where the semaphore of the clock falls below 0, under the same conditions: the caller
-- waits on that semaphore in the same way, and counts as blocked on a device.
pub waitforclock-Waited :
    (l : Layout) (m : Machine) (state lo hi y : Ptr) (ys : List Ptr) (es : List Entry)
    (ds : List Ptr)
    → CanPark m state (clock_addr l) lo hi y ys es ds
    → Falls m (clock_addr l)
    → Waited (waitforclock l state) m state (clock_addr l) lo hi y ys es (m.sft_blk_cnt +w 1)
unfolding waitforclock
waitforclock-Waited l m state lo hi y ys es ds w f =
    let i = clock_addr l in
    let low = lowered m state i lo hi y ys es ds w f in
    let v = lowered-CanPark m state i lo hi y ys es ds w f in
    waits m state i lo hi y ys es ds w f (waitforclock l state) (m.sft_blk_cnt +w 1) (
      rw
        (
          modify_int-ok m i f.sem,
          load_int-ok low i (simp live-upd f.sem),
          get-upd_self 0 m.ints i (λ v. v -w 1) f.sem,
          f.below,
          block_on-runs low state i lo hi y ys es ds v,
          scheduler-runs low state i lo hi y ys es ds v (m.sft_blk_cnt +w 1),
        )
        refl)

-- The semaphore of the device that system call 8 names.
abbrev pub device_sem : Layout → Machine → Ptr → Ptr
device_sem l m state =
    let s = caller m state in sem_dev_addr l (wait_index (reg s_a1 s) (reg s_a2 s) (reg s_a3 s))

-- System call 8 for a device on a line from the disks on, where the semaphore of the device falls below
-- 0, under the same conditions: the caller waits on that semaphore in the same way, and counts as
-- blocked on a device.
pub waitio-Waited :
    (l : Layout) (m : Machine) (state lo hi y : Ptr) (ys : List Ptr) (es : List Entry)
    (ds : List Ptr)
    → CanPark m state (device_sem l m state) lo hi y ys es ds
    → Falls m (device_sem l m state)
    → ltb (sem_of m state) disk_int ≡ false
    → Waited (waitio l state) m state (device_sem l m state) lo hi y ys es (m.sft_blk_cnt +w 1)
unfolding waitio
waitio-Waited l m state lo hi y ys es ds w f line =
    let i = device_sem l m state in
    let low = lowered m state i lo hi y ys es ds w f in
    let v = lowered-CanPark m state i lo hi y ys es ds w f in
    waits m state i lo hi y ys es ds w f (waitio l state) (m.sft_blk_cnt +w 1) (
      rw
        (
          load_state-ok m state w.saved,
          line,
          modify_int-ok m i f.sem,
          load_int-ok low i (simp live-upd f.sem),
          get-upd_self 0 m.ints i (λ v. v -w 1) f.sem,
          f.below,
          block_on-runs low state i lo hi y ys es ds v,
          scheduler-runs low state i lo hi y ys es ds v (m.sft_blk_cnt +w 1),
        )
        refl)
