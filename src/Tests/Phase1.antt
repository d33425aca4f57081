-- ===== src/Tests/Phase1.antt =====
-- The test program of phase 1 on a terminal that takes each character at once.
use patrick_landon_os.Base.{ℕ, ◌≡◌, ◌<◌, refl, true, [], arith}
use patrick_landon_os.Const.{max_proc}
use patrick_landon_os.Machine.Memory.{null, live, get}
use patrick_landon_os.Pcb.FreeList.{pcb_addr}
use patrick_landon_os.Pcb.FreeList.Chain.{HasRegs}
use patrick_landon_os.P1test.{Test, Places}
use patrick_landon_os.P1test.Fails.Free.{CanRun}
use patrick_landon_os.P1test.Fails.{Panicked, main-Panicked}
use patrick_landon_os.Tests.Machines.{array_machine}

abbrev some_places : Places
some_places = record {
  pcb_arr = 0x1000;
  semd_arr = 0x8000;
  sem = 0x9000;
  onesem = 0x9100;
  patience = 1;
}

abbrev some_test : Test
some_test = record {
  kernel = array_machine 0x1000;
  okbuf = [];
  errbuf = [];
  procp = λ i. null;
  p = null;
  qa = null;
  q = null;
  firstproc = null;
  lastproc = null;
  midproc = null;
  stat = λ n. 5;
  stat_reads = 0;
  sent = [];
}

some_pcbs : (j : ℕ) → j < max_proc → live some_test.kernel.pcbs (pcb_addr 0x1000 j) ≡ true
unfolding live
some_pcbs j h = ground arith

some_HasRegs : HasRegs some_test.kernel.pcbs
unfolding get
some_HasRegs a = ground arith

some_CanRun : CanRun some_places some_test
some_CanRun = record {
  pcbs = some_pcbs;
  regs = some_HasRegs;
  responsive = λ n. (0, omega arith, refl);
  room = omega arith;
}

main-Panicked_example : Panicked some_places some_test
main-Panicked_example = main-Panicked some_places some_test some_CanRun
