-- ===== src/Support/Pager/Resolve.antt =====
-- What a TLB trap leaves behind.
use patrick_landon_os.Base.{ℕ, ◌≡◌, ◌≢◌, refl, Bool, false, ==_ne, ==_self}
use patrick_landon_os.Support.Vm.{Vm, Places, gone, ldst}
use patrick_landon_os.Support.Pager.{frame_addr, pager}
use patrick_landon_os.Support.Pager.Frame.{next_frame}
use patrick_landon_os.Support.Disk.Runs.{AlwaysReady}
use patrick_landon_os.Support.Pool.{IsMapped, In, lo_in}
use patrick_landon_os.Support.Pager.Run.{
  trap_state, trap_page, current_proc, IsFault, final, filled, loaded, emptied, granted, pager-runs,
  In-frame, IsMapped-final,
}

-- What `pager` leaves behind when it brings in the page `q` of the process `p`.
pub record Resolved (l : Places) (alive : ℕ → Bool) (m : Vm) : Type 0 where
  pub last : Vm
  pub runs : pager l m ≡ gone (ldst (trap_state m)) last
  pub agrees : IsMapped alive last.swap_pool (lo_in last.u_procs) (frame_addr last)
  pub brought : In last.swap_pool (current_proc m) (trap_page m) (next_frame m)
  pub turn : last.frame_no ≡ next_frame m
  pub given_up : last.pool_held ≡ false
  pub left : (last.left_pool ≡ last.swap_pool) × (last.left_procs ≡ last.u_procs)
  pub segment : (last.swap_pool (next_frame m)).sp_seg_no ≡ 2
  pub others : (g : ℕ) → g ≢ next_frame m → last.swap_pool g ≡ m.swap_pool g

pub pager-IsMapped :
    (l : Places) (alive : ℕ → Bool) (m : Vm)
    → IsFault alive m
    → IsMapped alive m.swap_pool (lo_in m.u_procs) (frame_addr m)
    → AlwaysReady m
    → Resolved l alive m
unfolding final filled loaded emptied granted
pager-IsMapped l alive m fault mapped all_ready = record {
  last = final l m fault mapped all_ready;
  runs = pager-runs l m fault mapped all_ready;
  agrees = IsMapped-final l m fault mapped all_ready;
  brought = In-frame l m fault mapped all_ready;
  turn = refl;
  given_up = refl;
  left = (refl, refl);
  segment = rw (==_self (next_frame m)) fault.trap.private;
  others = λ g ne. rw (==_ne g (next_frame m) ne) refl;
}
