-- ===== src/Exceptions/Wait/Stop.antt =====
-- The process that waits is charged and its state is saved.
use patrick_landon_os.Base.{
  ◌≡◌, ◌≢◌, ◌∙◌, refl, suc, true, ◌+w◌, ◌-w◌, ==_ne, ==_self, ◌==◌, if◌then◌else◌,
}
use patrick_landon_os.Types.{blank_pcb, Pcb}
use patrick_landon_os.Machine.Memory.{Ptr, Store, live, get, upd, live-upd_twice, get-upd_twice}
use patrick_landon_os.Machine.{Machine}
use patrick_landon_os.CopyState.{copy_state}
use patrick_landon_os.Scheduler.Dispatch.{clock_now}
use patrick_landon_os.Exceptions.Semaphores.{caller}

-- The process that runs, charged, with the state of its call.
module _ (m : Machine) (state : Ptr) where
  abbrev pub charged : Pcb → Pcb
  charged c = record c { p_time = c.p_time +w ((clock_now m -w m.start_tod) -w m.io_proc_time) }

  abbrev pub kept : Pcb → Pcb
  kept c = record c { p_s = copy_state (caller m state) c.p_s }

  abbrev pub charged_heap : Store Pcb
  charged_heap = upd m.pcbs m.current_proc charged

  abbrev pub kept_heap : Store Pcb
  kept_heap = upd charged_heap m.current_proc kept

  abbrev pub stopped : Machine
  stopped = record m { readings = suc m.readings; pcbs = kept_heap }

  module _ (lc : live m.pcbs m.current_proc ≡ true) where
    pub live-kept : (a : Ptr) → live kept_heap a ≡ live m.pcbs a
    live-kept a = live-upd_twice m.pcbs m.current_proc charged kept a

    get-kept :
        (a : Ptr)
        → get blank_pcb kept_heap a ≡ (
            if a == m.current_proc
            then kept (charged (get blank_pcb m.pcbs a))
            else get blank_pcb m.pcbs a)
    get-kept a = get-upd_twice blank_pcb m.pcbs m.current_proc charged kept a lc

    pub kept-current :
        get blank_pcb kept_heap m.current_proc
        ≡ kept (charged (get blank_pcb m.pcbs m.current_proc))
    kept-current = get-kept m.current_proc ∙ rw (==_self m.current_proc) refl

    pub kept-other :
        (a : Ptr) → a ≢ m.current_proc → get blank_pcb kept_heap a ≡ get blank_pcb m.pcbs a
    kept-other a ne = get-kept a ∙ rw (==_ne a m.current_proc ne) refl
