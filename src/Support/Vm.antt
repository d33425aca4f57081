-- ===== src/Support/Vm.antt =====
-- The state of phase 3 as one user-level process sees it, and the commands on it.
pub mod Arrays
pub mod Pool
use patrick_landon_os.Base.{
  ℕ, suc, ◌+◌, ◌*◌, Bool, true, false, List, ◌∷◌, Word, ltb, ◌==◌, if◌then◌else◌, ◌≡◌, ap, sym, ◌∙◌,
}
use patrick_landon_os.Machine.Memory.{Ptr}
use patrick_landon_os.Const.{sizeof_int, max_uproc, kuseg_pte_size, pool_size, passeren, verhogen}
use patrick_landon_os.Types.{State}
use patrick_landon_os.Support.Tables.{
  PageTable, SegTable, UProc, SwapEntry, PteRef, null_entry, u_entry,
}

-- What a process asks of the kernel and of the devices, in the order in which it does.
pub data Event : Type 0 where
  call : (number a1 a2 a3 : Word) → Event  -- SYSCALL
  create : State → Event  -- SYSCALL 1, with the state that is pointed to
  store : (register value : Word) → Event  -- a device register is written
  tlb_clear : (status : Word) → Event  -- TLBCLR, with the status register at that time

-- The variables of initProc.c and vmIOsupport.c; the registers that they read; and what the world
-- answers.
pub record Vm : Type 0 where
  pub entry_hi : Word
  pub cp0_status : Word
  pub frame_no : Word
  pub swap_pool : ℕ → SwapEntry
  pub u_procs : ℕ → UProc
  pub kuseg3 : PageTable
  pub kseg_os : PageTable
  pub seg_tables : Ptr → SegTable
  pub swap_pool_sem : Word
  pub master_sem : Word
  pub dev_sem_array : ℕ → Word
  pub rambase : Word
  pub ramsize : Word
  pub chars : Ptr → Word  -- a `char` in memory, as the `int` that it is promoted to
  pub marks : ℕ → Word  -- `d_data1` of the tape, after so many blocks were read
  pub blocks_read : ℕ
  pub answers : ℕ → Word  -- what the successive calls of SYSCALL return
  pub answered : ℕ
  pub uninit : Word  -- what a local variable holds that is not set
  pub uninit_state : State
  pub trace : List Event  -- the latest event first
  pub pool_held : Bool  -- the process is between its P and its V of the pool's semaphore
  pub left_pool : ℕ → SwapEntry  -- the pool at the latest V of its semaphore
  pub left_procs : ℕ → UProc  -- `uProcs` at the latest V of the pool's semaphore

-- The addresses that the linker chooses.
pub record Places : Type 0 where
  pub swap_pool_sem_addr : Ptr
  pub master_sem_addr : Ptr
  pub dev_sem_array_addr : Ptr
  pub new_trap_addr : (proc type : ℕ) → Ptr
  pub old_trap_addr : (proc type : ℕ) → Ptr
  pub pager_addr : Ptr
  pub user_prog_trap_handler_addr : Ptr
  pub user_syscall_handler_addr : Ptr
  pub u_proc_init_addr : Ptr

abbrev pub dev_sem : Places → ℕ → Ptr
dev_sem l index = l.dev_sem_array_addr + sizeof_int * index

-- A way by which control does not come back to the caller: LDST, a call that ends the process, or a P
-- that blocks it for ever.
pub data Leave : Type 0 where
  ldst : State → Leave
  ended : (number : Word) → Leave
  blocked : (sem : Ptr) → Leave

pub data Outcome (A : Type 0) : Type 0 where
  ok : A → Vm → Outcome A
  gone : Leave → Vm → Outcome A
  fault : Outcome A  -- an access past the end of an array, or through NULL
  out_of_fuel : Outcome A

abbrev pub Act : Type 0 → Type 0
Act A = Vm → Outcome A

abbrev pub pure : {A : Type 0} → A → Act A
pure a m = ok a m

abbrev value : {A : Type 0} → A → Outcome A → A
value x (ok a m) = a
value x (gone e m) = x
value x fault = x
value x out_of_fuel = x

abbrev state_of : {A : Type 0} → Vm → Outcome A → Vm
state_of x (ok a m) = m
state_of x (gone e m) = m
state_of x fault = x
state_of x out_of_fuel = x

pub gone-injective :
    {r : Outcome (Unit {0})} {e e' : Leave} {m m' : Vm} → r ≡ gone e m → r ≡ gone e' m' → m ≡ m'
gone-injective {m} q q' = ap (state_of m) (sym q ∙ q')

pub ok-injective : {A : Type 0} {a b : A} {m m' : Vm} → ok a m ≡ ok b m' → a ≡ b
ok-injective {a} e = ap (value a) e

module _ {A B : Type 0} where
  abbrev pub continue : Outcome A → (A → Act B) → Outcome B
  continue (ok a m) k = k a m
  continue (gone e m) k = gone e m
  continue fault k = fault
  continue out_of_fuel k = out_of_fuel

  infixl 5 ◌>>=◌ ◌>>◌
  abbrev pub ◌>>=◌ : Act A → (A → Act B) → Act B
  (c >>= k) m = continue (c m) k

  abbrev pub ◌>>◌ : Act A → Act B → Act B
  (c >> d) m = continue (c m) λ _. d

abbrev pub read : {A : Type 0} → (Vm → A) → Act A
read f m = ok (f m) m

abbrev pub change : (Vm → Vm) → Act (Unit {0})
change f m = ok tt (f m)

abbrev pub when : Bool → Act (Unit {0}) → Act (Unit {0})
when b c m = if b then c m else ok tt m

abbrev pub leave : Leave → Act (Unit {0})
leave e m = gone e m

abbrev pub log : Event → Vm → Vm
log e m = record m { trace = e ∷ m.trace }

-- `SYSCALL(number, a1, a2, a3)`, where it comes back.
unfoldable pub syscall : (number a1 a2 a3 : Word) → Act Word
syscall number a1 a2 a3 m =
    ok (m.answers m.answered) (record (log (call number a1 a2 a3) m) { answered = suc m.answered })

abbrev pub starve : {A : Type 0} → Act A
starve m = out_of_fuel

-- A call that ends the process.
unfoldable pub end_with : Word → Act (Unit {0})
end_with number m = gone (ended number) (log (call number 0 0 0) m)

-- `SYSCALL(PASSEREN, (int) &swapPoolSem, 0, 0)`: a process that holds the semaphore waits for itself;
-- where another holds it, the call comes back once that one has given it up.
unfoldable pub take_pool : Places → Act (Unit {0})
unfolding syscall
take_pool l m =
    if m.pool_held
    then gone (blocked l.swap_pool_sem_addr) (log (call passeren l.swap_pool_sem_addr 0 0) m)
    else continue (syscall passeren l.swap_pool_sem_addr 0 0 m)
        (λ _ n. ok tt (record n { pool_held = true }))

-- `SYSCALL(VERHOGEN, (int) &swapPoolSem, 0, 0)`: what the pool and the tables are is left to the next.
unfoldable pub give_pool : Places → Act (Unit {0})
unfolding syscall
give_pool l m =
    continue (syscall verhogen l.swap_pool_sem_addr 0 0 m) (λ _ n.
      ok tt (record n { pool_held = false; left_pool = n.swap_pool; left_procs = n.u_procs }))

-- `*register = value`
abbrev pub write_register : (register value : Word) → Act (Unit {0})
write_register register value = change (log (store register value))

abbrev pub tlbclr : Act (Unit {0})
tlbclr = change (λ m. log (tlb_clear m.cp0_status) m)

-- Arrays: an index past the end is a fault.
abbrev pub put {ℓ} : {A : Type ℓ} → (ℕ → A) → ℕ → A → ℕ → A
put g i a k = if k == i then a else g k

unfoldable pub load_uproc : ℕ → Act UProc
load_uproc i m = if ltb i max_uproc then ok (m.u_procs i) m else fault

unfoldable pub modify_uproc : ℕ → (UProc → UProc) → Act (Unit {0})
modify_uproc i f m =
    if ltb i max_uproc
    then ok tt (record m { u_procs = put m.u_procs i (f (m.u_procs i)) })
    else fault

unfoldable pub load_swap : ℕ → Act SwapEntry
load_swap i m = if ltb i pool_size then ok (m.swap_pool i) m else fault

unfoldable pub modify_swap : ℕ → (SwapEntry → SwapEntry) → Act (Unit {0})
modify_swap i f m =
    if ltb i pool_size
    then ok tt (record m { swap_pool = put m.swap_pool i (f (m.swap_pool i)) })
    else fault

-- The entry `page` of a page table with another low word.
abbrev pub with_lo : ℕ → (Word → Word) → PageTable → PageTable
with_lo page f t = record t {
  pte_table =
      put t.pte_table page
        (record (t.pte_table page) { pte_entry_lo = f (t.pte_table page).pte_entry_lo });
}

-- `entry->pte_entryLo = f(entry->pte_entryLo)`
unfoldable pub modify_lo : PteRef → (Word → Word) → Act (Unit {0})
unfolding modify_uproc
modify_lo null_entry f m = fault
modify_lo (u_entry proc page) f m =
    if ltb page kuseg_pte_size
    then modify_uproc proc (λ u. record u { u_pte = with_lo page f u.u_pte }) m
    else fault
