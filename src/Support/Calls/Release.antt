-- ===== src/Support/Calls/Release.antt =====
-- `terminateUserProc`: the frames of the process, and its end.
use patrick_landon_os.Support.Vm.Pool.{take_pool-ok, take_pool-blocked}
use patrick_landon_os.Support.Terminate.{release_loop, terminate_user_proc, asid_int_of, no_asid}
use patrick_landon_os.Base.{
  ℕ, zero, suc, ◌+◌, ◌≤◌, ◌<◌, ◌≡◌, ◌≢◌, refl, sym, ap, ◌∙◌, subst, Bool, true, false, ◌∷◌, Word,
  arith, ◌-w◌, ◌==◌, ==_ne, Bool-cases, inl, inr, eq_of_==, ne_of_==, if◌then◌else◌, ==_self,
}
use patrick_landon_os.Const.{pool_size, passeren, verhogen, terminate_process}
use patrick_landon_os.Support.Tables.{SwapEntry}
use patrick_landon_os.Support.Vm.{
  Vm, Places, call, tlb_clear, ok, gone, ended, put, syscall, end_with, Leave, blocked, give_pool,
}
use patrick_landon_os.Support.Pager.{frame_addr}
use patrick_landon_os.Support.Pool.Free.{freed_frame, free_if, all_but, IsMapped-free}
use patrick_landon_os.Support.Pool.{IsMapped, lo_in}
use patrick_landon_os.Support.Vm.Arrays.{load_swap-ok, modify_swap-ok}

record Released (asid : Word) (n i : ℕ) (m : Vm) : Type 0 where
  pool : ℕ → SwapEntry
  runs : release_loop asid n i m ≡ ok tt (record m { swap_pool = pool })
  inside : (k : ℕ) → i ≤ k → k < i + n → pool k ≡ free_if asid (m.swap_pool k)
  below : (k : ℕ) → k < i → pool k ≡ m.swap_pool k

release_loop-Released : (asid : Word) (n i : ℕ) (m : Vm) → i + n ≤ pool_size → Released asid n i m
unfolding release_loop
release_loop-Released asid zero i m h = record {
  pool = m.swap_pool;
  runs = refl;
  inside = λ k a b. absurd (omega arith);
  below = λ k a. refl;
}
release_loop-Released asid (suc n) i m h = elim (Bool-cases ((m.swap_pool i).sp_asid == asid)) [
  | inl e ↦
      let r =
        release_loop-Released asid n (i + 1)
          (record m { swap_pool = put m.swap_pool i (freed_frame (m.swap_pool i)) })
          (omega arith) in
      record {
        pool = r.pool;
        runs =
            rw (load_swap-ok m i (omega arith), e, modify_swap-ok m i freed_frame (omega arith))
              r.runs;
        inside = λ k a b. elim (Bool-cases (k == i)) [
          | inl same ↦
              r.below k (ground arith)
              ∙ subst
                  (λ (j : ℕ).
                    put m.swap_pool i (freed_frame (m.swap_pool i)) j
                    ≡ free_if asid (m.swap_pool j))
                  (sym (eq_of_== k i same)) (rw (==_self i, e) refl)
          | inr ne ↦ r.inside k (ground arith) (omega arith) ∙ rw ne refl
        ];
        below = λ k a. r.below k (omega arith) ∙ rw (==_ne k i (λ q. absurd (omega arith))) refl;
      }
  | inr e ↦
      let r = release_loop-Released asid n (i + 1) m (omega arith) in
      record {
        pool = r.pool;
        runs = rw (load_swap-ok m i (omega arith), e) r.runs;
        inside = λ k a b. elim (Bool-cases (k == i)) [
          | inl same ↦
              r.below k (ground arith)
              ∙ subst (λ (j : ℕ). m.swap_pool j ≡ free_if asid (m.swap_pool j))
                  (sym (eq_of_== k i same)) (rw e refl)
          | inr ne ↦ r.inside k (ground arith) (omega arith)
        ];
        below = λ k a. r.below k (omega arith);
      }
]

-- What `terminateUserProc` leaves behind, in the process with this ASID.
pub record GaveUp (l : Places) (alive : ℕ → Bool) (asid : Word) (m : Vm) : Type 0 where
  pub last : Vm
  pub runs : terminate_user_proc l m ≡ gone (ended terminate_process) last
  pub agrees :
      IsMapped (all_but (asid -w 1) alive) last.swap_pool (lo_in last.u_procs) (frame_addr last)
  pub none : (f : ℕ) → f < pool_size → (last.swap_pool f).sp_asid ≢ asid
  pub others :
      (f : ℕ) → f < pool_size → (m.swap_pool f).sp_asid ≢ asid → last.swap_pool f ≡ m.swap_pool f
  pub tables : last.u_procs ≡ m.u_procs
  pub turn : last.frame_no ≡ m.frame_no
  pub given_up : last.pool_held ≡ false
  pub left : (last.left_pool ≡ last.swap_pool) × (last.left_procs ≡ last.u_procs)
  pub events :
      last.trace
      ≡ call terminate_process 0 0 0
        ∷ call verhogen l.master_sem_addr 0 0
        ∷ call verhogen l.swap_pool_sem_addr 0 0
        ∷ tlb_clear m.cp0_status
        ∷ call passeren l.swap_pool_sem_addr 0 0
        ∷ m.trace

free_if-other : (asid : Word) (e : SwapEntry) → asid < no_asid → (free_if asid e).sp_asid ≢ asid
free_if-other asid e h = go (e.sp_asid == asid) refl
  where
    go : (b : Bool) → e.sp_asid == asid ≡ b → (if b then freed_frame e else e).sp_asid ≢ asid
    go true same q = absurd (omega (arith, h, q))
    go false ne q = ne_of_== e.sp_asid asid ne q

module _ (l : Places) (m : Vm) where
  abbrev granted : Vm
  granted = record m {
    answered = suc m.answered;
    trace = call passeren l.swap_pool_sem_addr 0 0 ∷ m.trace;
    pool_held = true;
  }

  abbrev over : (ℕ → SwapEntry) → Vm
  over pool = record granted {
    swap_pool = pool;
    answered = suc (suc (suc m.answered));
    trace =
        call terminate_process 0 0 0
        ∷ call verhogen l.master_sem_addr 0 0
        ∷ call verhogen l.swap_pool_sem_addr 0 0
        ∷ tlb_clear m.cp0_status
        ∷ granted.trace;
    pool_held = false;
    left_pool = pool;
    left_procs = m.u_procs;
  }

  released : Released (asid_int_of m.entry_hi) pool_size 0 granted
  released = release_loop-Released (asid_int_of m.entry_hi) pool_size 0 granted (omega arith)

  terminate-runs :
      m.pool_held ≡ false
      → terminate_user_proc l m ≡ gone (ended terminate_process) (over released.pool)
  unfolding terminate_user_proc give_pool syscall end_with
  terminate-runs free = rw (take_pool-ok l m free, released.runs) refl

  -- A process that holds the semaphore of the pool waits for itself.
  terminate-waits :
      m.pool_held ≡ true
      → terminate_user_proc l m
        ≡ gone
            (blocked l.swap_pool_sem_addr)
            (record m { trace = call passeren l.swap_pool_sem_addr 0 0 ∷ m.trace })
  unfolding terminate_user_proc
  terminate-waits held = rw (take_pool-blocked l m held) refl

-- `terminateUserProc` does not come back, whatever the pool holds.
pub terminate_user_proc-gone :
    (l : Places) (m : Vm) → (e : Leave) × (last : Vm) × (terminate_user_proc l m ≡ gone e last)
terminate_user_proc-gone l m = elim (Bool-cases m.pool_held) [
  | inl held ↦ (_, _, terminate-waits l m held)
  | inr free ↦ (_, _, terminate-runs l m free)
]

pub terminate_user_proc-IsMapped :
    (l : Places) (alive : ℕ → Bool) (m : Vm)
    → m.pool_held ≡ false
    → asid_int_of m.entry_hi < no_asid
    → IsMapped alive m.swap_pool (lo_in m.u_procs) (frame_addr m)
    → GaveUp l alive (asid_int_of m.entry_hi) m
terminate_user_proc-IsMapped l alive m free known mapped =
    let asid : Word = asid_int_of m.entry_hi in
    let r = released l m in
    let frames : ((k : ℕ) → k < pool_size → r.pool k ≡ free_if asid (m.swap_pool k)) =
      λ k h. r.inside k (omega arith) (omega arith) in
    record {
      last = over l m r.pool;
      runs = terminate-runs l m free;
      agrees = IsMapped-free mapped asid (omega arith) frames;
      none = λ f h e.
          free_if-other asid (m.swap_pool f) known
            (ap (λ (e : SwapEntry). e.sp_asid) (sym (frames f h)) ∙ e);
      others = λ f h ne. frames f h ∙ rw (==_ne (m.swap_pool f).sp_asid asid ne) refl;
      tables = refl;
      turn = refl;
      given_up = refl;
      left = (refl, refl);
      events = refl;
    }
