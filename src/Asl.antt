-- ===== src/Asl.antt =====
-- phase1/asl.c: the semaphore descriptors in use, sorted by the semaphore's address between two
-- dummy descriptors, and the free ones.
pub mod Entries
pub mod Find
pub mod Head
pub mod FreeList
pub mod Init
pub mod Update
pub mod Requeue
pub mod Block
pub mod Unblock
pub mod Apart
pub mod Order
pub mod Splice
pub mod Table
pub mod Link
pub mod Enter
pub mod Insert
pub mod Unlink
pub mod Leave
pub mod Withdraw
pub mod Retire
pub mod Remove
pub mod Out
use patrick_landon_os.Base.{ℕ, zero, suc, ◌+◌, ◌*◌, Bool, true, false, ltb, ◌==◌, if◌then◌else◌}
use patrick_landon_os.Machine.Memory.{Ptr, null}
use patrick_landon_os.Types.{Pcb, Semd}
use patrick_landon_os.Const.{max_proc, min_int, max_int, sizeof_semd}
use patrick_landon_os.Machine.{
  Cmd, pure, starve, read, change, when, ◌>>=◌, ◌>>◌, load_pcb, modify_pcb, load_semd, modify_semd,
}
use patrick_landon_os.Pcb.Queue.{
  mk_empty_proc_q, empty_proc_q, insert_proc_q, remove_proc_q, out_proc_q, head_proc_q,
}

abbrev pub with_s_next : Ptr → Semd → Semd
with_s_next q s = record s { s_next = q }

abbrev pub with_proc_q : Ptr → Semd → Semd
with_proc_q q s = record s { s_proc_q = q }

abbrev pub with_sem_add : Ptr → Pcb → Pcb
with_sem_add a c = record c { p_sem_add = a }

unfoldable pub free_semd : Ptr → Cmd (Unit {0})
free_semd s = do
  head ← read (λ m. m.semd_free_h)
  modify_semd s (λ d. record d { s_sem_add = null; s_proc_q = mk_empty_proc_q; s_next = head })
  change (λ m. record m { semd_free_h = s })

unfoldable pub alloc_semd : Ptr → Cmd Ptr
alloc_semd i = do
  s_ret ← read (λ m. m.semd_free_h)
  if s_ret == null then pure null else do
    d ← load_semd s_ret
    change (λ m. record m { semd_free_h = d.s_next })
    modify_semd s_ret (λ d. record d { s_next = null; s_proc_q = mk_empty_proc_q; s_sem_add = i })
    pure s_ret

-- while(s_current->s_next->s_semAdd < i) s_current = s_current->s_next;
unfoldable pub find_loop : ℕ → (i s_current : Ptr) → Cmd Ptr
find_loop zero i s_current = starve
find_loop (suc k) i s_current = do
  current ← load_semd s_current
  after ← load_semd current.s_next
  if ltb after.s_sem_add i then find_loop k i current.s_next else pure s_current

-- The rounds given are one more than there are descriptors.
abbrev pub find_fuel : ℕ
find_fuel = max_proc + 3

unfoldable pub find_a_semd : Ptr → Cmd Ptr
find_a_semd i = do active ← read (λ m. m.semd_active_h); find_loop find_fuel i active

-- `insertProcQ(&(s->s_procQ), p)`
abbrev pub insert_at : Ptr → Ptr → Cmd (Unit {0})
insert_at s p = do
  d ← load_semd s
  tail ← insert_proc_q d.s_proc_q p
  modify_semd s (with_proc_q tail)

-- True: there is no descriptor left for the semaphore.
unfoldable pub insert_blocked : Ptr → Ptr → Cmd Bool
insert_blocked sem_add p = do
  s_prev ← find_a_semd sem_add
  prev ← load_semd s_prev
  if p == null then pure true else do
    current ← load_semd prev.s_next
    if sem_add == current.s_sem_add
        then (do modify_pcb p (with_sem_add sem_add); insert_at prev.s_next p; pure false)
        else (do
          free ← read (λ m. m.semd_free_h)
          if free == null then pure true else do
            modify_pcb p (with_sem_add sem_add)
            s_insert ← alloc_semd sem_add
            modify_semd s_insert (with_s_next prev.s_next)
            modify_semd s_prev (with_s_next s_insert)
            modify_semd s_insert (with_proc_q mk_empty_proc_q)
            insert_at s_insert p
            pure false)

-- Takes a descriptor whose queue is empty off the list.
abbrev pub retire_if_empty : (s_prev s_current : Ptr) → Cmd (Unit {0})
retire_if_empty s_prev s_current = do
  d ← load_semd s_current
  when (empty_proc_q d.s_proc_q) (do modify_semd s_prev (with_s_next d.s_next); free_semd s_current)

unfoldable pub remove_blocked : Ptr → Cmd Ptr
remove_blocked sem_add = do
  s_prev ← find_a_semd sem_add
  prev ← load_semd s_prev
  current ← load_semd prev.s_next
  if current.s_sem_add == sem_add
      then (do
        (p_return, tail) ← remove_proc_q current.s_proc_q
        modify_semd prev.s_next (with_proc_q tail)
        retire_if_empty s_prev prev.s_next
        modify_pcb p_return (with_sem_add null)
        pure p_return)
      else pure null

unfoldable pub out_blocked : Ptr → Cmd Ptr
out_blocked p = do
  c ← load_pcb p
  if c.p_sem_add == null then pure null else do
    s_prev ← find_a_semd c.p_sem_add
    prev ← load_semd s_prev
    current ← load_semd prev.s_next
    if current.s_sem_add == c.p_sem_add
        then (do
          (p_return, tail) ← out_proc_q current.s_proc_q p
          modify_semd prev.s_next (with_proc_q tail)
          retire_if_empty s_prev prev.s_next
          modify_pcb p_return (with_sem_add null)
          pure p_return)
        else pure null

unfoldable pub head_blocked : Ptr → Cmd Ptr
head_blocked sem_add = do
  s_prev ← find_a_semd sem_add
  prev ← load_semd s_prev
  current ← load_semd prev.s_next
  if sem_add == current.s_sem_add then head_proc_q current.s_proc_q else pure null

-- The address of `semdArr[i]`, for the array at `semd_arr`.
abbrev pub semd_addr : Ptr → ℕ → Ptr
semd_addr semd_arr i = semd_arr + sizeof_semd * i

unfoldable pub init_asl_loop : Ptr → ℕ → ℕ → Cmd (Unit {0})
init_asl_loop semd_arr zero i = pure tt
init_asl_loop semd_arr (suc n) i = do
  free_semd (semd_addr semd_arr i)
  init_asl_loop semd_arr n (i + 1)

unfoldable pub init_asl : Ptr → Cmd (Unit {0})
unfolding init_asl_loop
init_asl semd_arr = do
  change (λ m. record m { semd_free_h = null })
  init_asl_loop semd_arr (max_proc + 2) 0
  active ← alloc_semd min_int
  change (λ m. record m { semd_active_h = active })
  last ← alloc_semd max_int
  modify_semd active (with_s_next last)
