-- ===== src/Support/Vm/Arrays.antt =====
-- The arrays of phase 3 at an index that is in range.
use patrick_landon_os.Base.{ℕ, ◌<◌, ◌≡◌, refl, lt→ltb}
use patrick_landon_os.Const.{max_uproc, pool_size}
use patrick_landon_os.Support.Tables.{SwapEntry, UProc}
use patrick_landon_os.Support.Vm.{Vm, ok, put, load_uproc, modify_uproc, load_swap, modify_swap}

pub load_swap-ok : (m : Vm) (f : ℕ) → f < pool_size → load_swap f m ≡ ok (m.swap_pool f) m
unfolding load_swap
load_swap-ok m f h = rw (lt→ltb f pool_size h) refl

pub modify_uproc-ok :
    (m : Vm) (p : ℕ) (g : UProc → UProc)
    → p < max_uproc
    → modify_uproc p g m ≡ ok tt (record m { u_procs = put m.u_procs p (g (m.u_procs p)) })
unfolding modify_uproc
modify_uproc-ok m p g h = rw (lt→ltb p max_uproc h) refl

pub load_uproc-ok : (m : Vm) (p : ℕ) → p < max_uproc → load_uproc p m ≡ ok (m.u_procs p) m
unfolding load_uproc
load_uproc-ok m p h = rw (lt→ltb p max_uproc h) refl

pub modify_swap-ok :
    (m : Vm) (f : ℕ) (g : SwapEntry → SwapEntry)
    → f < pool_size
    → modify_swap f g m ≡ ok tt (record m { swap_pool = put m.swap_pool f (g (m.swap_pool f)) })
unfolding modify_swap
modify_swap-ok m f g h = rw (lt→ltb f pool_size h) refl
