-- ===== src/Support/Pager/Run.antt =====
-- The steps of `pager` from the grant of the swap pool's semaphore to the return to the user's program.
use patrick_landon_os.Support.Vm.Pool.{take_pool-ok, granted_pool}
use patrick_landon_os.Support.Terminate.{no_asid}
use patrick_landon_os.Base.{
  ℕ, suc, ◌<◌, ◌≡◌, ◌≢◌, ◌⊎◌, refl, sym, ap, ◌∙◌, subst, Bool, true, false, not, ◌&&◌, ◌∷◌, Word,
  arith, digit, ◌-w◌, shr, ◌==◌, ==_self, Bool-cases, inl, inr, if◌then◌else◌,
}
use patrick_landon_os.Const.{
  pool_size, max_uproc, kuseg_pte_size, read_blk, passeren, verhogen, tlb_trap, tlb_inv_lw,
  tlb_inv_sw, kuseg3_no,
}
use patrick_landon_os.Types.{State}
use patrick_landon_os.Support.Tables.{SwapEntry, u_entry}
use patrick_landon_os.Support.Vm.{
  Vm, Places, call, tlb_clear, ok, gone, ldst, give_pool, put, syscall, continue,
}
use patrick_landon_os.Support.Vm.Arrays.{load_uproc-ok, modify_swap-ok}
use patrick_landon_os.Support.Disk.{disable_ints, disk0_sem}
use patrick_landon_os.Support.Disk.Runs.{AlwaysReady, ints_on, ints_off, after_io, disk_io-ready}
use patrick_landon_os.Support.Pager.{
  clamp_page, page_of, exc_code, asid_of, frame_addr, present, pager, install, back_to_user,
}
use patrick_landon_os.Support.Pager.Frame.{next_frame, get_frame-next_frame}
use patrick_landon_os.Support.Pager.Evict.{Evicted, evict-Evicted}
use patrick_landon_os.Support.Pool.{
  IsMapped, In, lo_in, with_entry, lo_in-with_entry, traps-with_entry, modify_lo-ok,
}
use patrick_landon_os.Support.Pool.Entries.{present-valid, present-frame}
use patrick_landon_os.Support.Pool.Replace.{IsMapped-replace}

-- The process that runs, the state that its trap saved, and the place of the page in its table.
abbrev pub current_proc : Vm → ℕ
current_proc m = asid_of m.entry_hi -w 1

abbrev pub trap_state : Vm → State
trap_state m = (m.u_procs (current_proc m)).u_old_trap tlb_trap

abbrev pub trap_page : Vm → ℕ
trap_page m = clamp_page (page_of (trap_state m))

-- A TLB trap for a page that is in no frame, of a user process that does not hold the semaphore of the
-- pool, in the segment kUseg2, which is the process's own.
pub record IsTrap (alive : ℕ → Bool) (m : Vm) : Type 0 where
  pub known : current_proc m < max_uproc
  pub running : alive (current_proc m) ≡ true
  pub cause :
      (exc_code (trap_state m).s_cause ≡ tlb_inv_lw)
      ⊎ (exc_code (trap_state m).s_cause ≡ tlb_inv_sw)
  pub private : shr (trap_state m).s_asid 30 ≡ 2
  pub free : m.pool_held ≡ false
  pub missing : digit (lo_in m.u_procs (current_proc m) (trap_page m)) 9 ≡ 0

-- It meets a pool whose frames are given in turn.
pub record IsFault (alive : ℕ → Bool) (m : Vm) : Type 0 where
  pub trap : IsTrap alive m
  pub frame_range : m.frame_no < pool_size

module _ {alive : ℕ → Bool} (m : Vm) (fault : IsFault alive m) where
  pub not_shared : (shr (trap_state m).s_asid 30 == kuseg3_no) ≡ false
  not_shared = rw fault.trap.private refl

  pub right_cause :
      (not (exc_code (trap_state m).s_cause == tlb_inv_lw)
        && not (exc_code (trap_state m).s_cause == tlb_inv_sw))
      ≡ false
  right_cause = elim fault.trap.cause [ inl e ↦ rw e refl | inr e ↦ rw e refl ]

module _ {alive : ℕ → Bool} (l : Places) (m : Vm) (fault : IsFault alive m)
    (mapped : IsMapped alive m.swap_pool (lo_in m.u_procs) (frame_addr m))
    (all_ready : AlwaysReady m) where
  abbrev f : ℕ
  f = next_frame m

  abbrev p : ℕ
  p = current_proc m

  abbrev q : ℕ
  q = trap_page m

  abbrev addr : Word
  addr = frame_addr m f

  unfoldable pub granted : Vm
  granted = record m {
    answered = suc m.answered;
    trace = call passeren l.swap_pool_sem_addr 0 0 ∷ m.trace;
    frame_no = f;
    pool_held = true;
  }

  range : f < pool_size
  range = omega arith

  pub ev : Evicted l f addr granted
  unfolding granted
  ev = evict-Evicted l f addr granted range mapped all_ready

  unfoldable pub emptied : Vm
  emptied = record granted {
    cp0_status = ev.status;
    answered = ev.answered;
    trace = ev.events;
    u_procs = ev.procs;
  }

  unfoldable pub loaded : Vm
  loaded = after_io p q 0 (disk0_sem l) 0 addr read_blk emptied

  abbrev entry : SwapEntry
  entry = record {
    sp_asid = asid_of m.entry_hi;
    sp_seg_no = shr (trap_state m).s_asid 30;
    sp_page_no = page_of (trap_state m);
    sp_pte_entry = u_entry p q;
  }

  unfoldable pub filled : Vm
  filled = record loaded {
    cp0_status = ints_on (ints_off loaded.cp0_status);
    swap_pool = put m.swap_pool f entry;
    u_procs = with_entry ev.procs p q (λ lo. present addr);
    trace = tlb_clear (ints_off loaded.cp0_status) ∷ loaded.trace;
  }

  unfoldable pub final : Vm
  final = record filled {
    answered = suc filled.answered;
    trace = call verhogen l.swap_pool_sem_addr 0 0 ∷ filled.trace;
    pool_held = false;
    left_pool = filled.swap_pool;
    left_procs = filled.u_procs;
  }

  q_range : q < kuseg_pte_size
  q_range = ground arith

  install-runs :
      install
        (asid_of m.entry_hi)
        (shr (trap_state m).s_asid 30)
        (page_of (trap_state m))
        q
        f
        addr
        loaded
      ≡ ok tt filled
  unfolding install disable_ints filled loaded emptied granted
  install-runs =
      rw
        (
          modify_swap-ok (record loaded { cp0_status = ints_off loaded.cp0_status }) f (λ e. entry)
              range,
          modify_lo-ok
              (record loaded {
                cp0_status = ints_off loaded.cp0_status;
                swap_pool = put m.swap_pool f entry;
              })
              p q (λ lo. present addr) fault.trap.known q_range,
        )
        refl

  back-runs : back_to_user l (asid_of m.entry_hi) filled ≡ gone (ldst (trap_state m)) final
  unfolding back_to_user final filled loaded emptied granted give_pool syscall
  back-runs = rw (load_uproc-ok final p fault.trap.known) (
      ap (λ (t : ℕ → State). gone (ldst (t tlb_trap)) final)
        (traps-with_entry ev.procs p q (λ lo. present addr) p ∙ ev.traps p))

  pub pager-runs : pager l m ≡ gone (ldst (trap_state m)) final
  unfolding pager syscall emptied granted loaded
  pager-runs =
      rw
        (
          take_pool-ok l m fault.trap.free,
          load_uproc-ok (granted_pool l m) p fault.trap.known,
          right_cause m fault,
          not_shared m fault,
          get_frame-next_frame (granted_pool l m) fault.frame_range,
          ev.runs,
          disk_io-ready p q 0 (disk0_sem l) 0 addr read_blk l emptied (all_ready (suc ev.answered))
              (all_ready (suc (suc ev.answered))),
        )
        (ap (λ r. continue r (λ _. back_to_user l (asid_of m.entry_hi))) install-runs ∙ back-runs)

  pool-final : (g : ℕ) → final.swap_pool g ≡ (if g == f then entry else m.swap_pool g)
  unfolding final filled
  pool-final g = refl

  new_taken : entry.sp_asid ≢ no_asid
  new_taken e = absurd (omega (arith, e))

  at_f : final.swap_pool f ≡ entry
  at_f = pool-final f ∙ rw (==_self f) refl

  pub In-frame : In final.swap_pool p q f
  In-frame = record {
    range = range;
    taken = subst (λ (e : SwapEntry). e.sp_asid ≢ no_asid) (sym at_f) new_taken;
    proc = ap (λ (e : SwapEntry). e.sp_asid -w 1) at_f;
    page = ap (λ (e : SwapEntry). clamp_page e.sp_page_no) at_f;
  }

  lo-final :
      (a b : ℕ)
      → lo_in final.u_procs a b ≡ (if a == p && b == q then present addr else lo_in ev.procs a b)
  unfolding final filled
  lo-final a b = lo_in-with_entry ev.procs p q (λ lo. present addr) a b

  lo-here : lo_in final.u_procs p q ≡ present addr
  lo-here = lo-final p q ∙ rw (==_self p, ==_self q) refl

  lo-there : (a b : ℕ) → (a ≡ p → b ≢ q) → lo_in final.u_procs a b ≡ lo_in ev.procs a b
  lo-there a b apart = elim (Bool-cases (a == p && b == q)) [
    | inl same ↦ absurd (apart (ground arith) (ground arith))
    | inr o ↦ lo-final a b ∙ rw o refl
  ]

  pub IsMapped-final : IsMapped alive final.swap_pool (lo_in final.u_procs) (frame_addr m)
  unfolding granted
  IsMapped-final =
      IsMapped-replace mapped f p q entry range fault.trap.known q_range fault.trap.running
        fault.trap.missing (omega arith) new_taken refl refl refl pool-final
        (ap (λ w. digit w 9) lo-here ∙ present-valid addr)
        (ap (λ w. shr w 12) lo-here ∙ present-frame addr (omega arith))
        (λ a b apart i. ap (λ w. digit w 9) (lo-there a b apart) ∙ ev.out a b i)
        (λ a b apart n. lo-there a b apart ∙ ev.kept a b n)
