-- ===== src/Tests/Boot.antt =====
-- A machine that starts: its static arrays, its new areas and the semaphores of the devices.
use patrick_landon_os.Base.{
  ℕ, ◌+◌, ◌*◌, ◌≡◌, ◌<◌, refl, true, none, some, if◌then◌else◌, leb, ltb, ◌&&◌, ◌||◌, ◌==◌, arith,
}
use patrick_landon_os.Const.{
  max_proc, device_cnt, sizeof_pcb, sizeof_semd, syscall_new, prog_trap_new, tlb_mgmt_new,
  inter_new,
}
use patrick_landon_os.Machine.{Machine}
use patrick_landon_os.Machine.Memory.{live, get}
use patrick_landon_os.Layout.{Layout, sem_dev_addr}
use patrick_landon_os.Types.{blank_pcb, blank_semd, zero_state}
use patrick_landon_os.Pcb.FreeList.{pcb_addr}
use patrick_landon_os.Pcb.FreeList.Chain.{HasRegs}
use patrick_landon_os.Asl.{semd_addr}
use patrick_landon_os.Initial.Stages.{CanBoot}
use patrick_landon_os.Initial.Boot.{Booted, main-Booted}
use patrick_landon_os.Tests.Machines.{empty_machine}

abbrev pub boot_layout : Layout
boot_layout = record {
  pcb_arr = 0x20008000;
  semd_arr = 0x2000C000;
  sem_dev_array = 0x2000E000;
  sys_call_handler = 0x20001000;
  prog_trap_handler = 0x20001100;
  tlb_trap_handler = 0x20001200;
  io_trap_handler = 0x20001300;
  test = 0x20001400;
}

abbrev pub boot_machine : Machine
boot_machine = record empty_machine {
  pcbs = λ a.
      if leb 0x20008000 a && ltb a (0x20008000 + sizeof_pcb * max_proc)
      then some blank_pcb
      else none;
  semds = λ a.
      if leb 0x2000C000 a && ltb a (0x2000C000 + sizeof_semd * (max_proc + 2))
      then some blank_semd
      else none;
  ints = λ a. if leb 0x2000E000 a && ltb a 0x2000E100 then some 7 else none;
  states = λ a.
      if a == syscall_new || a == prog_trap_new || a == tlb_mgmt_new || a == inter_new
      then some zero_state
      else none;
  rambase = 0x20000000;
  ramsize = 0x00100000;
}

boot_pcbs : (j : ℕ) → j < max_proc → live boot_machine.pcbs (pcb_addr 0x20008000 j) ≡ true
unfolding live
boot_pcbs j h = ground arith

boot_HasRegs : HasRegs boot_machine.pcbs
unfolding get
boot_HasRegs a = ground arith

boot_semds : (j : ℕ) → j < max_proc + 2 → live boot_machine.semds (semd_addr 0x2000C000 j) ≡ true
unfolding live
boot_semds j h = ground arith

boot_sems : (j : ℕ) → j < device_cnt → live boot_machine.ints (sem_dev_addr boot_layout j) ≡ true
unfolding live
boot_sems j h = ground arith

boot_CanBoot : CanBoot boot_layout boot_machine
unfolding live
boot_CanBoot = record {
  areas = record { syscall = refl; prog_trap = refl; tlb_mgmt = refl; inter = refl };
  pcbs = boot_pcbs;
  regs = boot_HasRegs;
  semds = boot_semds;
  sems = boot_sems;
  scale = λ e. absurd (omega (arith, e));
}

main-Booted_example : Booted boot_layout boot_machine
main-Booted_example = main-Booted boot_layout boot_machine boot_CanBoot
