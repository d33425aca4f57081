-- ===== src/Support/Pager/Stuck.antt =====
-- `pager` when the disk fails.
use patrick_landon_os.Support.Vm.Pool.{take_pool-ok}
use patrick_landon_os.Support.Terminate.{no_asid}
use patrick_landon_os.Base.{
  [], ◌+◌, ℕ, suc, ◌<◌, ◌≡◌, ◌≢◌, refl, arith, Bool, true, false, List, ◌∷◌, Word, ◌==◌, ◌&&◌, ◌-w◌,
  if◌then◌else◌, Bool-cases, inl, inr, ==_ne, eq_of_==, ne_of_==, ap, ◌⊎◌, ==_self,
}
use patrick_landon_os.Const.{passeren, verhogen, ready, terminate, pool_size, write_blk, read_blk}
use patrick_landon_os.Machine.Memory.{Ptr}
use patrick_landon_os.Support.Vm.{
  Vm, Event, Places, call, create, store, tlb_clear, gone, blocked, ok, syscall,
}
use patrick_landon_os.Support.Vm.Arrays.{load_uproc-ok, load_swap-ok}
use patrick_landon_os.Support.Disk.{disable_ints, disk0_sem, disk_io}
use patrick_landon_os.Support.Disk.Runs.{disk_io-bad_seek, after_bad_seek, ints_on, ints_off}
use patrick_landon_os.Support.Pager.{pager, evict, absent, clamp_page, frame_addr, asid_of}
use patrick_landon_os.Support.Pager.Frame.{next_frame, get_frame-next_frame}
use patrick_landon_os.Support.Pager.Run.{IsFault, current_proc, trap_page, right_cause, not_shared}
use patrick_landon_os.Support.Pool.{IsMapped, lo_in, with_entry, modify_lo-ok}

-- Whether the last call on the semaphore took it.
unfoldable pub is_held : Ptr → List Event → Bool
is_held sem [] = false
is_held sem (call number a1 a2 a3 ∷ t) =
    if number == passeren && a1 == sem
    then true
    else if number == verhogen && a1 == sem
    then false
    else is_held sem t
is_held sem (create s ∷ t) = is_held sem t
is_held sem (store register value ∷ t) = is_held sem t
is_held sem (tlb_clear status ∷ t) = is_held sem t

held-both :
    (sem other : Ptr) (t : List Event)
    → is_held sem (call passeren other 0 0 ∷ call passeren sem 0 0 ∷ t) ≡ true
unfolding is_held
held-both sem other t = elim (Bool-cases (other == sem)) [
  | inl e ↦ rw e refl
  | inr e ↦ rw (e, ==_self sem) refl
]

module _ {alive : ℕ → Bool} (l : Places) (m : Vm) (fault : IsFault alive m)
    (mapped : IsMapped alive m.swap_pool (lo_in m.u_procs) (frame_addr m))
    (failed : m.answers (suc (suc m.answered)) ≢ ready) where
  abbrev f : ℕ
  f = next_frame m

  abbrev addr : Word
  addr = frame_addr m f

  abbrev asked : Vm
  asked = record m {
    answered = suc m.answered;
    trace = call passeren l.swap_pool_sem_addr 0 0 ∷ m.trace;
    pool_held = true;
  }

  abbrev granted : Vm
  granted = record asked { frame_no = f }

  range : f < pool_size
  range = omega arith

  abbrev owner : ℕ
  owner = (m.swap_pool f).sp_asid -w 1

  abbrev owned : ℕ
  owned = clamp_page (m.swap_pool f).sp_page_no

  abbrev dropped : Vm
  dropped = record granted {
    cp0_status = ints_on (ints_off m.cp0_status);
    u_procs = with_entry m.u_procs owner owned absent;
    trace = tlb_clear (ints_off m.cp0_status) ∷ granted.trace;
  }

  evict-free : (m.swap_pool f).sp_asid ≡ no_asid → evict l f addr granted ≡ ok tt granted
  unfolding evict
  evict-free e = rw (load_swap-ok granted f range, ap (λ a. a == no_asid) e) refl

  evict-failed :
      (m.swap_pool f).sp_asid ≢ no_asid
      → evict l f addr granted
        ≡ gone
            (blocked l.swap_pool_sem_addr)
            (after_bad_seek owner owned 0 (disk0_sem l) 0 addr write_blk l dropped)
  unfolding evict disable_ints
  evict-failed taken =
      let h = mapped.sound f range taken in
      rw
        (
          load_swap-ok granted f range,
          ==_ne (m.swap_pool f).sp_asid no_asid taken,
          h.entry,
          modify_lo-ok (record granted { cp0_status = ints_off m.cp0_status }) owner owned absent
              h.proc_range h.page_range,
          disk_io-bad_seek owner owned 0 (disk0_sem l) 0 addr write_blk l dropped refl failed,
        )
        refl

  pager-to_disk :
      (last : Vm)
      → (evict l f addr granted ≡ gone (blocked l.swap_pool_sem_addr) last)
        ⊎ ((evict l f addr granted ≡ ok tt granted)
            × (disk_io l
                  (asid_of m.entry_hi -w 1)
                  (trap_page m)
                  0
                  (disk0_sem l)
                  0
                  addr
                  read_blk
                  granted
                ≡ gone (blocked l.swap_pool_sem_addr) last))
      → pager l m ≡ gone (blocked l.swap_pool_sem_addr) last
  unfolding pager syscall
  pager-to_disk last e =
      rw
        (
          take_pool-ok l m fault.trap.free,
          load_uproc-ok asked (current_proc m) fault.trap.known,
          right_cause m fault,
          not_shared m fault,
          get_frame-next_frame asked fault.frame_range,
        )
        (elim e [ inl bad ↦ rw bad refl | inr both ↦ rw (both.0, both.1) refl ])

-- What `pager` leaves behind when its process waits for itself.
pub record Stuck (l : Places) (m : Vm) : Type 0 where
  pub last : Vm
  pub runs : pager l m ≡ gone (blocked l.swap_pool_sem_addr) last
  pub held : last.pool_held ≡ true
  pub before : List Event
  pub events : last.trace ≡ call passeren l.swap_pool_sem_addr 0 0 ∷ call terminate 0 0 0 ∷ before
  pub pool : is_held l.swap_pool_sem_addr before ≡ true
  pub disk : is_held (l.dev_sem_array_addr + 0) before ≡ true

-- `pager`, on a TLB trap of a user process for a page of its own segment kUseg2 that is in no frame,
-- where it does not hold the pool's semaphore, the pool and the page tables agree and the first seek of
-- the disk does not return READY: it makes the call TERMINATE while it holds the semaphores of the pool
-- and of the first disk, and is blocked by its next call, a P of the pool's semaphore, with none of the
-- two given up.
pub pager-Stuck :
    (l : Places) (alive : ℕ → Bool) (m : Vm)
    → IsFault alive m
    → IsMapped alive m.swap_pool (lo_in m.u_procs) (frame_addr m)
    → m.answers (suc (suc m.answered)) ≢ ready
    → Stuck l m
unfolding is_held
pager-Stuck l alive m fault mapped failed =
    elim (Bool-cases ((m.swap_pool (next_frame m)).sp_asid == no_asid)) [
      | inl e ↦ record {
        last =
            after_bad_seek (current_proc m) (trap_page m) 0 (disk0_sem l) 0
              (addr l m fault mapped failed) read_blk l (granted l m fault mapped failed);
        runs = pager-to_disk l m fault mapped failed _ (
            inr (
              evict-free l m fault mapped failed (eq_of_== _ no_asid e),
              disk_io-bad_seek (current_proc m) (trap_page m) 0 (disk0_sem l) 0
                  (addr l m fault mapped failed) read_blk l (granted l m fault mapped failed) refl
                  failed,
            ));
        held = refl;
        before = _;
        events = refl;
        pool = held-both l.swap_pool_sem_addr (disk0_sem l) m.trace;
        disk = rw (==_self (disk0_sem l)) refl;
      }
      | inr ne ↦ record {
        last =
            after_bad_seek (owner l m fault mapped failed) (owned l m fault mapped failed) 0
              (disk0_sem l) 0 (addr l m fault mapped failed) write_blk l
              (dropped l m fault mapped failed);
        runs =
            pager-to_disk l m fault mapped failed _
              (inl (evict-failed l m fault mapped failed (ne_of_== _ no_asid ne)));
        held = refl;
        before = _;
        events = refl;
        pool = held-both l.swap_pool_sem_addr (disk0_sem l) m.trace;
        disk = rw (==_self (disk0_sem l)) refl;
      }
    ]
