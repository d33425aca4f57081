-- ===== src/Support/Reach.antt =====
-- The critical sections of the user processes, one after the other, from the end of `test` on.
use patrick_landon_os.Support.Terminate.{terminate_user_proc, asid_int_of, no_asid}
use patrick_landon_os.Base.{
  ℕ, ◌<◌, ◌≡◌, sym, subst, arith, Bool, true, false, ◌-w◌, Word, ◌-◌, ◌+w◌, ◌*w◌,
}
use patrick_landon_os.Const.{pool_size, terminate_process, success, page_size}
use patrick_landon_os.Support.Vm.{Vm, Places, Leave, gone, ended, gone-injective}
use patrick_landon_os.Support.Disk.Runs.{AlwaysReady}
use patrick_landon_os.Support.Init.{test}
use patrick_landon_os.Support.Init.Start.{test-IsMapped}
use patrick_landon_os.Support.Pager.{pager, frame_addr}
use patrick_landon_os.Support.Pager.Run.{IsTrap}
use patrick_landon_os.Support.Pager.Resolve.{pager-IsMapped}
use patrick_landon_os.Support.Pool.{IsMapped, lo_in}
use patrick_landon_os.Support.Pool.Free.{all_but}
use patrick_landon_os.Support.Calls.Release.{terminate_user_proc-IsMapped}

-- What may have happened before the next process is granted the semaphore of the pool: anything that
-- leaves alone what the semaphore guards.
pub record Elsewhere (m m' : Vm) : Type 0 where
  pub pool : m'.swap_pool ≡ m.swap_pool
  pub tables : lo_in m'.u_procs ≡ lo_in m.u_procs
  pub turn : m'.frame_no ≡ m.frame_no
  pub base : m'.rambase ≡ m.rambase
  pub size : m'.ramsize ≡ m.ramsize

-- What the next process finds: the pool and the tables as they were at the V of the pool's semaphore.
abbrev pub handed : Vm → Vm
handed m = record m { swap_pool = m.left_pool; u_procs = m.left_procs }

-- The states between two critical sections, with the processes that have not ended. The sections come
-- one after the other, since each is between a P and a V of the semaphore; a trap is for a page of the
-- segment kUseg2 of its process.
pub data Reachable (l : Places) : (ℕ → Bool) → Vm → Type 0 where
  started :
      {m' : Vm} (m : Vm)
      → m.frame_no ≡ pool_size - 1
      → ((k : ℕ) → m.answers k ≡ success)
      → test l m ≡ gone (ended terminate_process) m'
      → Reachable l (λ p. true) m'
  elsewhere :
      {alive : ℕ → Bool} {m m' : Vm} → Reachable l alive m → Elsewhere m m' → Reachable l alive m'
  page_in :
      {alive : ℕ → Bool} {m m' : Vm} {e : Leave}
      → Reachable l alive m
      → IsTrap alive m
      → AlwaysReady m
      → pager l m ≡ gone e m'
      → Reachable l alive (handed m')
  gives_up :
      {alive : ℕ → Bool} {m m' : Vm} {e : Leave}
      → Reachable l alive m
      → m.pool_held ≡ false
      → asid_int_of m.entry_hi < no_asid
      → terminate_user_proc l m ≡ gone e m'
      → Reachable l (all_but (asid_int_of m.entry_hi -w 1) alive) (handed m')

-- The pool and the page tables agree, and the frames are given in turn.
pub record IsSound (alive : ℕ → Bool) (m : Vm) : Type 0 where
  pub mapped : IsMapped alive m.swap_pool (lo_in m.u_procs) (frame_addr m)
  pub range : m.frame_no < pool_size

IsSound-Elsewhere :
    {alive : ℕ → Bool} {m m' : Vm} → IsSound alive m → Elsewhere m m' → IsSound alive m'
IsSound-Elsewhere {alive} {m} {m'} s e = record {
  mapped =
      subst (λ pool. IsMapped alive pool (lo_in m'.u_procs) (frame_addr m')) (sym e.pool)
        (subst (λ lo. IsMapped alive m.swap_pool lo (frame_addr m')) (sym e.tables)
          (subst
            (λ (b : Word).
              IsMapped alive m.swap_pool (lo_in m.u_procs)
                (λ f. ((b +w m'.ramsize) -w 4 *w page_size) -w f *w page_size))
            (sym e.base)
            (subst
              (λ (z : Word).
                IsMapped alive m.swap_pool (lo_in m.u_procs)
                  (λ f. ((m.rambase +w z) -w 4 *w page_size) -w f *w page_size))
              (sym e.size) s.mapped)));
  range = subst (λ (f : ℕ). f < pool_size) (sym e.turn) s.range;
}

IsMapped-left :
    {alive : ℕ → Bool} (m : Vm)
    → (m.left_pool ≡ m.swap_pool) × (m.left_procs ≡ m.u_procs)
    → IsMapped alive m.swap_pool (lo_in m.u_procs) (frame_addr m)
    → IsMapped alive m.left_pool (lo_in m.left_procs) (frame_addr m)
IsMapped-left {alive} m left agrees =
    subst (λ pool. IsMapped alive pool (lo_in m.left_procs) (frame_addr m)) (sym left.0)
      (subst (λ procs. IsMapped alive m.swap_pool (lo_in procs) (frame_addr m)) (sym left.1) agrees)

-- In each state that the first process and the user processes can reach by one critical section after
-- the other, in any order, as long as the devices return READY and the traps are for pages of kUseg2, the
-- segment that a process has of its own, whose entries are not valid: the pool and the page tables of the
-- processes that have not ended agree, so that no frame holds two pages and no page is in two frames.
pub Reachable-IsSound :
    {l : Places} {alive : ℕ → Bool} {m : Vm} → Reachable l alive m → IsSound alive m
Reachable-IsSound {l} (started m turn made runs) =
    let s = test-IsMapped l m made in
    subst (λ n. IsSound (λ p. true) n) (gone-injective s.runs runs)
      (record { mapped = s.agrees; range = omega (arith, s.turn, turn) })
Reachable-IsSound (elsewhere r e) = IsSound-Elsewhere (Reachable-IsSound r) e
Reachable-IsSound {l} {alive} (page_in {m} {m'} r trap answers runs) =
    let s = Reachable-IsSound r in
    let p =
      pager-IsMapped l alive m (record { trap = trap; frame_range = s.range }) s.mapped answers in
    subst (λ n. IsSound alive (handed n)) (gone-injective p.runs runs)
      (record { mapped = IsMapped-left p.last p.left p.agrees; range = omega (arith, p.turn) })
Reachable-IsSound {l} (gives_up {alive} {m} {m'} r free known runs) =
    let s = Reachable-IsSound r in
    let p = terminate_user_proc-IsMapped l alive m free known s.mapped in
    subst (λ n. IsSound (all_but (asid_int_of m.entry_hi -w 1) alive) (handed n))
      (gone-injective p.runs runs)
      (record {
        mapped = IsMapped-left p.last p.left p.agrees;
        range = omega (arith, p.turn, s.range);
      })
