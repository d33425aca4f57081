-- ===== src/Tests/Semaphores.antt =====
-- The theorems on the active semaphore list, on a list of two semaphores.
use patrick_landon_os.Tests.Spare.{
  with_spare, spare, Frees-spare, Distinct-spare, not-mem-spare, key_at-spare,
}
use patrick_landon_os.Asl.Enter.{Enlisted}
use patrick_landon_os.Asl.Retire.{Withdrawn}
use patrick_landon_os.Asl.Init.{Initialised, init_asl-IsAsl}
use patrick_landon_os.Base.{
  ◌≡◌, refl, [], ◌∷◌, arith, true, ℕ, List, subst, sym, eq_of_==, ◌<◌, ◌+◌,
}
use patrick_landon_os.Machine.Memory.{get, live, Store}
use patrick_landon_os.Asl.{semd_addr, remove_blocked}
use patrick_landon_os.Machine.{Machine}
use patrick_landon_os.Asl.Entries.{Entry, IsAsl}
use patrick_landon_os.Tests.Machines.{empty_machine, cells, semd_array_machine}
use patrick_landon_os.Pcb.Queue.Links.{IsQueue, Lives}
use patrick_landon_os.Types.{blank_pcb, blank_semd, Semd}
use patrick_landon_os.Const.{max_int, max_proc}
use patrick_landon_os.Asl.Table.{IsTable}
use patrick_landon_os.Asl.Remove.{remove_blocked_lem}
use patrick_landon_os.Asl.Insert.{insert_blocked_lem}

abbrev two_active : Store Semd
two_active = cells (
    (0x600, record blank_semd { s_next = 0x610; s_sem_add = 0 })
    ∷ (0x610, record blank_semd { s_next = 0x620; s_sem_add = 0x900; s_proc_q = 0x200 })
    ∷ (0x620, record blank_semd { s_next = 0x630; s_sem_add = 0xA00; s_proc_q = 0x300 })
    ∷ (0x630, record blank_semd { s_sem_add = max_int })
    ∷ [])

-- The process at `0x200` waits on the semaphore at `0x900`, the one at `0x300` on that at `0xA00`,
-- the one at `0x400` on none.
abbrev pub two_wait : Machine
two_wait = record empty_machine {
  pcbs = cells (
      (0x200, record blank_pcb { p_next = 0x200; p_prev = 0x200; p_sem_add = 0x900 })
      ∷ (0x300, record blank_pcb { p_next = 0x300; p_prev = 0x300; p_sem_add = 0xA00 })
      ∷ (0x400, blank_pcb)
      ∷ []);
  semds = with_spare 0x3120 two_active;
  semd_active_h = 0x600;
  semd_free_h = 0x3000;
}

abbrev pub two_entries : List Entry
two_entries =
    (record { key = 0x900; desc = 0x610; procs = 0x200 ∷ [] })
    ∷ (record { key = 0xA00; desc = 0x620; procs = 0x300 ∷ [] })
    ∷ []

single_Lives : (x : ℕ) → live two_wait.pcbs x ≡ true → Lives two_wait.pcbs (x ∷ [])
single_Lives x l a i =
    subst (λ b. live two_wait.pcbs b ≡ true) (sym (ground (arith, i, eq_of_== a x))) l

first_IsQueue : IsQueue two_wait.pcbs 0x200 (0x200 ∷ [])
unfolding get live
first_IsQueue = record {
  tail = refl;
  links = (refl, refl, tt);
  distinct = (refl, tt);
  lives = single_Lives 0x200 refl;
}

second_IsQueue : IsQueue two_wait.pcbs 0x300 (0x300 ∷ [])
unfolding get live
second_IsQueue = record {
  tail = refl;
  links = (refl, refl, tt);
  distinct = (refl, tt);
  lives = single_Lives 0x300 refl;
}

two_wait-IsAsl : IsAsl two_wait 0x600 0x630 two_entries
unfolding live get
two_wait-IsAsl = record {
  starts = refl;
  lo_live = refl;
  hi_live = refl;
  hi_key = refl;
  descs = (refl, refl, refl, (refl, refl, refl, refl));
  rises = (omega arith, omega arith);
  waits = (
    (first_IsQueue, λ e. cc, λ a i. ground arith),
    ((second_IsQueue, λ e. cc, λ a i. ground arith), tt),
  );
  few = omega arith;
}

-- A machine whose static array of descriptors lies at `0x2000`.
semd_array_live :
    (j : ℕ) → j < max_proc + 2 → live (semd_array_machine 0x2000).semds (semd_addr 0x2000 j) ≡ true
unfolding live
semd_array_live j h = ground arith

init_asl-IsAsl_example : Initialised (semd_array_machine 0x2000) 0x2000
init_asl-IsAsl_example = init_asl-IsAsl (semd_array_machine 0x2000) 0x2000 semd_array_live

two_wait-IsTable : IsTable two_wait 0x600 0x630 two_entries (spare 0x3000 18)
unfolding live get
two_wait-IsTable = record {
  asl = two_wait-IsAsl;
  free = record {
    chain = Frees-spare 0x3120 (omega arith) two_active 0x3000 18 (omega arith) refl;
    distinct = Distinct-spare 0x3000 18;
  };
  lo_key = refl;
  above = (omega arith, (omega arith, omega arith));
  apart = not-mem-spare 0x630 0x3000 18 (omega arith);
  idle = λ a mem. key_at-spare 0x3120 (omega arith) two_active a 0x3000 18 (omega arith) refl mem;
  total = refl;
}

insert_blocked_lem_example : Enlisted two_wait 0x600 0x630 0x980 0x400 two_entries (spare 0x3000 18)
unfolding live get
insert_blocked_lem_example =
    insert_blocked_lem two_wait 0x600 0x630 0x980 0x400 two_entries (spare 0x3000 18)
      two_wait-IsTable (omega arith) (omega arith) (λ e q. cc) refl refl

remove_blocked_lem_example :
    Withdrawn (remove_blocked 0xA00) two_wait 0x600 0x630 0xA00 0x300 [] two_entries
remove_blocked_lem_example =
    remove_blocked_lem two_wait 0x600 0x630 0xA00 two_entries (spare 0x3000 18) two_wait-IsTable
      (omega arith) (omega arith) 0x300 [] refl
