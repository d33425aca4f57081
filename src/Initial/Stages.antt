-- ===== src/Initial/Stages.antt =====
-- The machine after each part of `main`, up to the call of the scheduler.
use patrick_landon_os.Base.{
  ℕ, suc, ◌+◌, ◌*◌, ◌%◌, ◌≡◌, ◌≢◌, ◌<◌, refl, true, [], arith, ◌∙◌, ap, word_mod, subst,
}
use patrick_landon_os.Const.{max_proc, device_cnt, interval}
use patrick_landon_os.Machine.{Machine, ok}
use patrick_landon_os.Machine.Memory.{Ptr, null, live, upd, live-upd}
use patrick_landon_os.Layout.{Layout, sem_dev_addr}
use patrick_landon_os.Types.{Pcb}
use patrick_landon_os.Pcb.FreeList
use patrick_landon_os.Asl
use patrick_landon_os.Pcb.FreeList.{pcb_addr}
use patrick_landon_os.Pcb.FreeList.Chain.{HasRegs, Allocated, alloc_pcb-cons}
use patrick_landon_os.Pcb.FreeList.Init.{blocks, init_pcbs-blocks}
use patrick_landon_os.Pcb.Queue.Links.{IsQueue}
use patrick_landon_os.Pcb.Queue.Insert.{Inserted, insert_proc_q-append}
use patrick_landon_os.Asl.{semd_addr, init_asl}
use patrick_landon_os.Asl.Init.{lo_addr, hi_addr, init_asl-IsAsl, init_asl-IsTable}
use patrick_landon_os.Asl.Init.Loop.{descriptors}
use patrick_landon_os.Asl.Table.{IsTable}
use patrick_landon_os.Scheduler.Dispatch.{clock_now, stck-ok}
use patrick_landon_os.Initial.{set_up, first_state}
use patrick_landon_os.Initial.Areas.{HasAreas, ramtop, areas, fill₁, fill₂, fill₃, fill₄}
use patrick_landon_os.Initial.Clear.{Cleared, clear_sems-Cleared}
use patrick_landon_os.Machine.Lemmas.{modify_pcb-ok}

-- A machine whose memory holds the static arrays and the new areas.
pub record CanBoot (l : Layout) (m : Machine) : Type 0 where
  pub areas : HasAreas m
  pub pcbs : (j : ℕ) → j < max_proc → live m.pcbs (pcb_addr l.pcb_arr j) ≡ true
  pub regs : HasRegs m.pcbs
  pub semds : (j : ℕ) → j < max_proc + 2 → live m.semds (semd_addr l.semd_arr j) ≡ true
  pub sems : (j : ℕ) → j < device_cnt → live m.ints (sem_dev_addr l j) ≡ true
  pub scale : m.timescale ≢ 0

-- The block of the first process.
abbrev pub first_proc : Layout → Ptr
first_proc l = pcb_addr l.pcb_arr 19

module _ (l : Layout) (m : Machine) (c : CanBoot l m) where
  abbrev pub m₁ : Machine
  m₁ = record m { states = areas l m c.areas }

  pub pcbs_made : FreeList.Init.Initialised m₁ l.pcb_arr
  pcbs_made = init_pcbs-blocks m₁ l.pcb_arr c.regs c.pcbs

  abbrev pub m₂ : Machine
  m₂ = record m₁ { pcbs = pcbs_made.heap; pcb_free_h = pcbs_made.head }

  pub asl_made : Asl.Init.Initialised m₂ l.semd_arr
  asl_made = init_asl-IsAsl m₂ l.semd_arr c.semds

  abbrev pub m₃ : Machine
  m₃ = record m₂ {
    semds = asl_made.last.semds;
    semd_free_h = asl_made.last.semd_free_h;
    semd_active_h = asl_made.last.semd_active_h;
  }

  pub asl_runs : init_asl l.semd_arr m₂ ≡ ok tt m₃
  asl_runs = asl_made.runs ∙ ap (ok tt) asl_made.same

  pub asl-IsTable :
      IsTable m₃ (lo_addr l.semd_arr) (hi_addr l.semd_arr) [] (descriptors l.semd_arr max_proc)
  asl-IsTable =
      subst
        (λ x.
          IsTable x (lo_addr l.semd_arr) (hi_addr l.semd_arr) [] (descriptors l.semd_arr max_proc))
        asl_made.same (init_asl-IsTable asl_made)

  abbrev pub m₄ : Machine
  m₄ = record m₃ {
    proc_cnt = 0;
    sft_blk_cnt = 0;
    ready_que = null;
    current_proc = null;
    io_proc_time = 0;
  }

  pub cleared : Cleared l m₄ device_cnt 0
  cleared = clear_sems-Cleared l device_cnt 0 m₄ (λ j h. c.sems j (omega (arith, h)))

  abbrev pub m₅ : Machine
  m₅ = record m₄ { ints = cleared.heap }

  pub taken : Allocated m₅ (first_proc l) (blocks l.pcb_arr 19)
  taken =
      alloc_pcb-cons m₅ (first_proc l) (blocks l.pcb_arr 19)
        (record { chain = pcbs_made.list.chain; distinct = pcbs_made.list.distinct }) pcbs_made.regs

  abbrev pub started : Pcb → Pcb
  started d = record d { p_s = first_state l.test (ramtop l m c.areas) d.p_s }

  abbrev pub m₆ : Machine
  m₆ = record m₅ { pcbs = upd taken.heap (first_proc l) started; pcb_free_h = taken.head }

  pub first-live : live taken.heap (first_proc l) ≡ true
  first-live = taken.frame.same_live (first_proc l) ∙ pcbs_made.list.chain.1

  pub first-live₆ : live m₆.pcbs (first_proc l) ≡ true
  first-live₆ = simp live-upd first-live

  pub blank : IsQueue m₆.pcbs null []
  blank = record { tail = refl; links = tt; distinct = tt; lives = λ a mem. cc }

  pub queued : Inserted m₆ null (first_proc l) []
  queued = insert_proc_q-append m₆ null (first_proc l) [] blank first-live₆ refl

  abbrev pub m₇ : Machine
  m₇ = record m₆ {
    pcbs = queued.heap;
    ready_que = first_proc l;
    proc_cnt = 1;
    interval_timer = (interval * m.timescale) % word_mod;
  }

  abbrev pub m₈ : Machine
  m₈ = record m₇ { readings = suc m.readings; start_tod = clock_now m }

  pub set_up-runs : set_up l m ≡ ok tt m₈
  unfolding set_up
  set_up-runs =
      rw
        (
          fill₁ l m c.areas,
          fill₂ l m c.areas,
          fill₃ l m c.areas,
          fill₄ l m c.areas,
          pcbs_made.runs,
          asl_runs,
          cleared.runs,
          taken.runs,
          modify_pcb-ok (record m₅ { pcbs = taken.heap; pcb_free_h = taken.head }) (first_proc l)
              first-live started,
          queued.runs,
          stck-ok m₇ c.scale,
        )
        refl
