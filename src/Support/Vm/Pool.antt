-- ===== src/Support/Vm/Pool.antt =====
-- The semaphore of the swap pool, taken by a process that does not hold it and by one that does.
use patrick_landon_os.Base.{◌≡◌, refl, true, false, suc, ◌∷◌}
use patrick_landon_os.Const.{passeren}
use patrick_landon_os.Support.Vm.{Vm, Places, call, ok, gone, blocked, take_pool, syscall}

module _ (l : Places) (m : Vm) where
  abbrev pub granted_pool : Vm
  granted_pool = record m {
    answered = suc m.answered;
    trace = call passeren l.swap_pool_sem_addr 0 0 ∷ m.trace;
    pool_held = true;
  }

  pub take_pool-ok : m.pool_held ≡ false → take_pool l m ≡ ok tt granted_pool
  unfolding take_pool syscall
  take_pool-ok free = rw free refl

  pub take_pool-blocked :
      m.pool_held ≡ true
      → take_pool l m
        ≡ gone
            (blocked l.swap_pool_sem_addr)
            (record m { trace = call passeren l.swap_pool_sem_addr 0 0 ∷ m.trace })
  unfolding take_pool
  take_pool-blocked held = rw held refl
