-- ===== src/Support/Pager/Evict.antt =====
-- Emptying a frame for another page.
use patrick_landon_os.Support.Terminate.{no_asid}
use patrick_landon_os.Base.{
  ℕ, suc, ◌<◌, ◌≡◌, ◌≢◌, refl, ap, ◌∙◌, Bool, List, ◌∷◌, Word, arith, digit, ◌-w◌, ◌==◌, ==_ne,
  Bool-cases, inl, inr, eq_of_==, ne_of_==, ◌&&◌,
}
use patrick_landon_os.Const.{pool_size, write_blk}
use patrick_landon_os.Support.Tables.{UProc}
use patrick_landon_os.Support.Vm.{Vm, Places, Event, tlb_clear, ok}
use patrick_landon_os.Support.Vm.Arrays.{load_swap-ok}
use patrick_landon_os.Support.Disk.{disable_ints, disk0_sem}
use patrick_landon_os.Support.Disk.Runs.{AlwaysReady, ints_on, ints_off, after_io, disk_io-ready}
use patrick_landon_os.Support.Pager.{clamp_page, absent, evict}
use patrick_landon_os.Support.Pool.{
  IsMapped, In, lo_in, with_entry, lo_in-with_entry, traps-with_entry, modify_lo-ok,
}
use patrick_landon_os.Support.Pool.Entries.{absent-invalid}

-- What `pager` leaves behind once the frame `f` is free to be filled.
pub record Evicted (l : Places) (f loc : Word) (m : Vm) : Type 0 where
  pub status : Word
  pub answered : ℕ
  pub events : List Event
  pub procs : ℕ → UProc
  pub runs :
      evict l f loc m
      ≡ ok tt
          (record m { cp0_status = status; answered = answered; trace = events; u_procs = procs })
  pub out : (a b : ℕ) → In m.swap_pool a b f → digit (lo_in procs a b) 9 ≡ 0
  pub kept : (a b : ℕ) → ¬ In m.swap_pool a b f → lo_in procs a b ≡ lo_in m.u_procs a b
  pub traps : (a : ℕ) → (procs a).u_old_trap ≡ (m.u_procs a).u_old_trap

module _ (l : Places) (f addr : Word) (m : Vm) (range : f < pool_size) where
  evict-free : (m.swap_pool f).sp_asid ≡ no_asid → Evicted l f addr m
  unfolding evict
  evict-free e = record {
    status = m.cp0_status;
    answered = m.answered;
    events = m.trace;
    procs = m.u_procs;
    runs = rw (load_swap-ok m f range, ap (λ a. a == no_asid) e) refl;
    out = λ a b i. absurd (i.taken e);
    kept = λ a b n. refl;
    traps = λ a. refl;
  }

  module _ {alive : ℕ → Bool} {loc : ℕ → Word}
      (mapped : IsMapped alive m.swap_pool (lo_in m.u_procs) loc)
      (taken : (m.swap_pool f).sp_asid ≢ no_asid) (all_ready : AlwaysReady m) where
    proc : ℕ
    proc = (m.swap_pool f).sp_asid -w 1

    page : ℕ
    page = clamp_page (m.swap_pool f).sp_page_no

    dropped : Vm
    dropped = record m {
      cp0_status = ints_on (ints_off m.cp0_status);
      u_procs = with_entry m.u_procs proc page absent;
      trace = tlb_clear (ints_off m.cp0_status) ∷ m.trace;
    }

    done : Vm
    done = after_io proc page 0 (disk0_sem l) 0 addr write_blk dropped

    evict-held-runs : evict l f addr m ≡ ok tt done
    unfolding evict disable_ints done dropped proc page
    evict-held-runs =
        let h = mapped.sound f range taken in
        rw
          (
            load_swap-ok m f range,
            ==_ne (m.swap_pool f).sp_asid no_asid taken,
            h.entry,
            modify_lo-ok (record m { cp0_status = ints_off m.cp0_status }) proc page absent
                h.proc_range h.page_range,
            disk_io-ready proc page 0 (disk0_sem l) 0 addr write_blk l dropped
                (all_ready (suc m.answered)) (all_ready (suc (suc m.answered))),
          )
          refl

    others :
        (a b : ℕ)
        → ¬ In m.swap_pool a b f
        → lo_in (with_entry m.u_procs proc page absent) a b ≡ lo_in m.u_procs a b
    unfolding proc page
    others a b n = elim (Bool-cases (a == proc && b == page)) [
      | inl same ↦
          absurd
            (n (record { range = range; taken = taken; proc = ground arith; page = ground arith }))
      | inr o ↦ lo_in-with_entry m.u_procs proc page absent a b ∙ rw o refl
    ]

    evict-held : Evicted l f addr m
    unfolding done dropped proc page
    evict-held = record {
      status = done.cp0_status;
      answered = done.answered;
      events = done.trace;
      procs = with_entry m.u_procs proc page absent;
      runs = evict-held-runs;
      out = λ a b i. ground (
        arith,
        lo_in-with_entry m.u_procs proc page absent a b,
        i.proc,
        i.page,
        absent-invalid (lo_in m.u_procs proc page),
      );
      kept = others;
      traps = traps-with_entry m.u_procs proc page absent;
    }

  pub evict-Evicted :
      {alive : ℕ → Bool} {loc : ℕ → Word}
      → IsMapped alive m.swap_pool (lo_in m.u_procs) loc
      → AlwaysReady m
      → Evicted l f addr m
  evict-Evicted mapped all_ready = elim (Bool-cases ((m.swap_pool f).sp_asid == no_asid)) [
    | inl e ↦ evict-free (eq_of_== _ no_asid e)
    | inr ne ↦ evict-held mapped (ne_of_== _ no_asid ne) all_ready
  ]
