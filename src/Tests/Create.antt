-- ===== src/Tests/Create.antt =====
-- A call of system call 1.
use patrick_landon_os.Base.{refl, [], ◌∷◌, arith}
use patrick_landon_os.Machine.{Machine}
use patrick_landon_os.Machine.Memory.{live, get}
use patrick_landon_os.Types.{blank_pcb, zero_state, set_reg, s_a1}
use patrick_landon_os.Pcb.FreeList.Chain.{IsFreeList, HasRegs}
use patrick_landon_os.Pcb.Tree.Family.{IsFamily}
use patrick_landon_os.Pcb.Queue.Links.{IsQueue, Lives}
use patrick_landon_os.Exceptions.Create.{CanCreate, Created, createprocess-Created}
use patrick_landon_os.Tests.Machines.{empty_machine, cells}

-- The process at `0x200` runs and has a child at `0x300`; the one at `0x400` is ready; the blocks at
-- `0x500` and `0x580` are free; the state at `0x700` is that of the call, and leads to that at `0x780`.
abbrev creator : Machine
creator = record empty_machine {
  pcbs = cells (
      (0x200, record blank_pcb { p_child = 0x300 })
      ∷ (0x300, record blank_pcb { p_prnt = 0x200 })
      ∷ (0x400, record blank_pcb { p_next = 0x400; p_prev = 0x400 })
      ∷ (0x500, record blank_pcb { p_next = 0x580 })
      ∷ (0x580, blank_pcb)
      ∷ []);
  pcb_free_h = 0x500;
  ready_que = 0x400;
  current_proc = 0x200;
  proc_cnt = 3;
  states = cells (
      (0x700, set_reg s_a1 0x780 zero_state)
      ∷ (0x780, record zero_state { s_pc = 0x20004000 })
      ∷ []);
}

creator-IsFreeList : IsFreeList creator (0x500 ∷ 0x580 ∷ [])
unfolding live get
creator-IsFreeList = record {
  chain = (refl, refl, (refl, refl, refl));
  distinct = (refl, (refl, tt));
}

creator-HasRegs : HasRegs creator.pcbs
unfolding get
creator-HasRegs a = ground arith

creator-IsFamily : IsFamily creator.pcbs 0x200 (0x300 ∷ [])
unfolding live get
creator-IsFamily = record {
  alive = refl;
  sibs = (refl, refl, refl, refl);
  distinct = (refl, tt);
  proper = refl;
}

creator-Lives : Lives creator.pcbs (0x400 ∷ [])
unfolding live
creator-Lives a i = ground arith

creator-IsQueue : IsQueue creator.pcbs 0x400 (0x400 ∷ [])
unfolding get
creator-IsQueue = record {
  tail = refl;
  links = (refl, refl, tt);
  distinct = (refl, tt);
  lives = creator-Lives;
}

creator-CanCreate : CanCreate creator 0x700 0x500 (0x580 ∷ []) (0x300 ∷ []) (0x400 ∷ [])
unfolding live get
creator-CanCreate = record {
  saved = refl;
  start = refl;
  start_regs = refl;
  free = creator-IsFreeList;
  regs = creator-HasRegs;
  family = creator-IsFamily;
  fresh = refl;
  queue = creator-IsQueue;
  running = refl;
  new = refl;
  apart = λ a mem. ground arith;
}

createprocess-Created_example : Created creator 0x700 0x500 (0x580 ∷ []) (0x300 ∷ []) (0x400 ∷ [])
createprocess-Created_example =
    createprocess-Created creator 0x700 0x500 (0x580 ∷ []) (0x300 ∷ []) (0x400 ∷ [])
      creator-CanCreate
