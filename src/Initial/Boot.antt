-- ===== src/Initial/Boot.antt =====
-- `main`, from the start of the machine to the first process.
use patrick_landon_os.Base.{
  ℕ, suc, ◌-w◌, ◌≡◌, ◌≢◌, ◌<◌, refl, true, false, [], ◌∷◌, arith, ◌∙◌, ap, ◌+w◌, has, ne_of_has,
  ==_ne,
}
use patrick_landon_os.Const.{
  max_proc, device_cnt, syscall_new, prog_trap_new, tlb_mgmt_new, inter_new, quantum,
}
use patrick_landon_os.Machine.{Machine, exit, ldst}
use patrick_landon_os.Machine.Memory.{Ptr, get, live-upd, get-upd_self, get-upd}
use patrick_landon_os.Layout.{Layout, sem_dev_addr}
use patrick_landon_os.Types.{State, Pcb, zero_state, blank_pcb, reg, s_t9, s_sp}
use patrick_landon_os.Pcb.FreeList.Chain.{IsFreeList, Chain-same}
use patrick_landon_os.Pcb.FreeList.Init.{blocks}
use patrick_landon_os.Pcb.Queue.Links.{IsQueue}
use patrick_landon_os.Asl.Init.{lo_addr, hi_addr}
use patrick_landon_os.Asl.Init.Loop.{descriptors}
use patrick_landon_os.Asl.Table.{IsTable}
use patrick_landon_os.Scheduler.Dispatch.{clock_now, Dispatched, scheduler-first}
use patrick_landon_os.Initial.{main, first_state}
use patrick_landon_os.Initial.Areas.{
  ramtop, areas-syscall, areas-prog_trap, areas-tlb_mgmt, areas-inter,
}
use patrick_landon_os.Initial.Stages.{
  CanBoot, first_proc, pcbs_made, asl-IsTable, cleared, taken, started, queued, m₈, first-live,
  set_up-runs,
}

module _ (l : Layout) (m : Machine) (c : CanBoot l m) where
  next : Dispatched (m₈ l m c) (first_proc l) []
  next = scheduler-first (m₈ l m c) (first_proc l) [] (queued l m c).queue c.scale

  first-cell :
      (get blank_pcb (queued l m c).heap (first_proc l)).p_s
      ≡ first_state l.test (ramtop l m c.areas) zero_state
  first-cell =
      ap (λ (d : Pcb). d.p_s) ((queued l m c).frame.same_core (first_proc l))
      ∙ ap (λ (d : Pcb). d.p_s)
          (get-upd_self blank_pcb (taken l m c).heap (first_proc l) (started l m c)
            (first-live l m c))
      ∙ ap (λ (d : Pcb). first_state l.test (ramtop l m c.areas) d.p_s) (taken l m c).cell

  last : Machine
  last = record (m₈ l m c) {
    waiting = false;
    io_proc_time = 0;
    pcbs = next.heap;
    ready_que = next.tail;
    current_proc = first_proc l;
    timer = quantum;
    start_tod = clock_now (m₈ l m c);
    readings = suc (m₈ l m c).readings;
  }

  main-runs : main l m ≡ exit (ldst (first_state l.test (ramtop l m c.areas) zero_state)) last
  unfolding main last
  main-runs = rw ((set_up-runs l m c), next.runs) (ap (λ s. exit (ldst s) last) first-cell)

  rest-same :
      (a : Ptr)
      → has a (blocks l.pcb_arr 19) ≡ true
      → get blank_pcb next.heap a ≡ get blank_pcb (taken l m c).heap a
  rest-same a mem =
      let ne : a ≢ first_proc l =
        ne_of_has a (first_proc l) (blocks l.pcb_arr 19) mem (pcbs_made l m c).list.distinct.0 in
      let out : has a (first_proc l ∷ []) ≡ false = ground (arith, ne) in
      next.frame.outside a out
      ∙ (queued l m c).frame.outside a out
      ∙ (get-upd blank_pcb (taken l m c).heap (first_proc l) (started l m c) a (first-live l m c)
          ∙ rw (==_ne a (first_proc l) ne) refl)

  last-IsFreeList : IsFreeList last (blocks l.pcb_arr 19)
  unfolding last
  last-IsFreeList = record {
    chain =
        Chain-same (taken l m c).heap next.heap (taken l m c).head (blocks l.pcb_arr 19) rest-same
          (λ a.
            next.frame.same_live a
            ∙ (queued l m c).frame.same_live a
            ∙ live-upd (taken l m c).heap (first_proc l) (started l m c) a)
          (taken l m c).list.chain;
    distinct = (taken l m c).list.distinct;
  }

  last-IsTable :
      IsTable last (lo_addr l.semd_arr) (hi_addr l.semd_arr) [] (descriptors l.semd_arr max_proc)
  unfolding last
  last-IsTable =
      let t = (asl-IsTable l m c) in
      record {
        asl = record {
          starts = t.asl.starts;
          lo_live = t.asl.lo_live;
          hi_live = t.asl.hi_live;
          hi_key = t.asl.hi_key;
          descs = t.asl.descs;
          rises = tt;
          waits = tt;
          few = t.asl.few;
        };
        free = record { chain = t.free.chain; distinct = t.free.distinct };
        lo_key = t.lo_key;
        above = t.above;
        apart = t.apart;
        idle = t.idle;
        total = t.total;
      }

-- What `main` leaves behind when the first process starts, with the state `start`. In its status the
-- bits 27 (the local timer), 2 (interrupts) and 8 to 15 (their mask) are set, and no other: it runs in
-- kernel mode with virtual memory off.
pub record Booted (l : Layout) (m : Machine) : Type 0 where
  pub last : Machine
  pub start : State
  pub runs : main l m ≡ exit (ldst start) last
  pub program : (start.s_pc ≡ l.test) × (reg s_t9 start ≡ l.test)
  pub stack : reg s_sp start ≡ ((m.rambase +w m.ramsize) -w 0x1000)
  pub status : start.s_status ≡ 0x0800FF04
  pub current : last.current_proc ≡ first_proc l
  pub ready : IsQueue last.pcbs last.ready_que []
  pub free : IsFreeList last (blocks l.pcb_arr 19)
  pub table :
      IsTable last (lo_addr l.semd_arr) (hi_addr l.semd_arr) [] (descriptors l.semd_arr max_proc)
  pub sems : (j : ℕ) → j < device_cnt → get 0 last.ints (sem_dev_addr l j) ≡ 0
  pub counts : (last.proc_cnt ≡ 1) × (last.sft_blk_cnt ≡ 0)
  pub handlers :
      ((get zero_state last.states syscall_new).s_pc ≡ l.sys_call_handler)
      × ((get zero_state last.states prog_trap_new).s_pc ≡ l.prog_trap_handler)
      × ((get zero_state last.states tlb_mgmt_new).s_pc ≡ l.tlb_trap_handler)
      × ((get zero_state last.states inter_new).s_pc ≡ l.io_trap_handler)

-- `main` on a machine whose memory holds the static arrays and the new areas: control leaves for the
-- program `test`, in kernel mode with interrupts on, virtual memory off and its stack a page below the
-- top of memory, as the current process and the only one; nothing
-- is ready; the other 19 blocks are on the free list; no process waits on a semaphore, and the
-- descriptors are all free; the semaphores of the devices are 0; the new areas lead to the four
-- handlers.
pub main-Booted : (l : Layout) (m : Machine) → CanBoot l m → Booted l m
unfolding last
main-Booted l m c = record {
  last = last l m c;
  start = first_state l.test (m.rambase +w m.ramsize) zero_state;
  runs = main-runs l m c;
  program = (refl, refl);
  stack = refl;
  status = refl;
  current = refl;
  ready = (next l m c).queue;
  free = last-IsFreeList l m c;
  table = last-IsTable l m c;
  sems = λ j h. (cleared l m c).zeros j (omega arith) (omega (arith, h));
  counts = (refl, refl);
  handlers = (
    ap (λ (s : State). s.s_pc) (areas-syscall l m c.areas),
    ap (λ (s : State). s.s_pc) (areas-prog_trap l m c.areas),
    ap (λ (s : State). s.s_pc) (areas-tlb_mgmt l m c.areas),
    ap (λ (s : State). s.s_pc) (areas-inter l m c.areas),
  );
}
