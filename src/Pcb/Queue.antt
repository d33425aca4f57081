-- ===== src/Pcb/Queue.antt =====
-- phase1/pcb.c, the process queues: circular, doubly linked, and known by a pointer to their tail.
-- A parameter `pcb_PTR *tp` is the tail pointer's value here, and the new value is returned.
pub mod Links
pub mod Detach
pub mod Insert
pub mod Remove
pub mod Out
use patrick_landon_os.Base.{ℕ, zero, suc, Bool, ◌&&◌, not, ◌==◌, if◌then◌else◌}
use patrick_landon_os.Machine.Memory.{Ptr, null}
use patrick_landon_os.Types.{Pcb}
use patrick_landon_os.Const.{max_proc}
use patrick_landon_os.Machine.{Cmd, pure, starve, ◌>>=◌, ◌>>◌, load_pcb, modify_pcb}

-- `p->p_next = q` and `p->p_prev = q`.
abbrev pub with_next : Ptr → Pcb → Pcb
with_next q c = record c { p_next = q }

abbrev pub with_prev : Ptr → Pcb → Pcb
with_prev q c = record c { p_prev = q }

abbrev pub set_next : Ptr → Ptr → Cmd (Unit {0})
set_next p q = modify_pcb p (with_next q)

abbrev pub set_prev : Ptr → Ptr → Cmd (Unit {0})
set_prev p q = modify_pcb p (with_prev q)

abbrev pub mk_empty_proc_q : Ptr
mk_empty_proc_q = null

abbrev pub empty_proc_q : Ptr → Bool
empty_proc_q tp = tp == null

unfoldable pub insert_proc_q : Ptr → Ptr → Cmd Ptr
insert_proc_q tp p = if empty_proc_q tp then (do set_next p p; set_prev p p; pure p) else (do
  tail ← load_pcb tp
  set_next p tail.p_next
  set_next tp p
  set_prev p tp
  new ← load_pcb p
  set_prev new.p_next p
  pure p)

-- The last assignments of both branches.
abbrev detach : Ptr → Cmd (Unit {0})
detach p = do set_next p null; set_prev p null

-- The block removed, NULL if there was none, and the new tail pointer.
unfoldable pub remove_proc_q : Ptr → Cmd (Ptr × Ptr)
remove_proc_q tp = if empty_proc_q tp then pure (null, tp) else do
  tail ← load_pcb tp
  if tail.p_next == tp then (do detach tp; pure (tp, null)) else (do
    head ← load_pcb tail.p_next
    set_next tp head.p_next
    tail' ← load_pcb tp
    set_prev tail'.p_next tp
    detach tail.p_next
    pure (tail.p_next, tp))

-- The search, `current` going along `p_next`. The caller's tail pointer does not change here.
unfoldable pub out_loop : ℕ → (tp p current : Ptr) → Cmd Ptr
out_loop zero tp p current = starve
out_loop (suc k) tp p current =
    if current == null
    then pure null
    else if current == p
    then (do
      c ← load_pcb current
      set_prev c.p_next c.p_prev
      c' ← load_pcb current
      set_next c'.p_prev c'.p_next
      detach current
      pure current)
    else if current == tp
    then pure null
    else (do c ← load_pcb current; out_loop k tp p c.p_next)

-- The block taken out, NULL if it was not found, and the new tail pointer.
unfoldable pub out_proc_q : Ptr → Ptr → Cmd (Ptr × Ptr)
unfolding out_loop
out_proc_q tp p =
    if empty_proc_q tp then pure (null, tp) else if p == null then pure (null, tp) else do
      tail ← load_pcb tp
      if tp == p && tp == tail.p_next
          then (do detach tp; pure (tp, null))
          else if tp == p && not (tp == tail.p_next)
          then (do
            set_next tail.p_prev tail.p_next
            set_prev tail.p_next tail.p_prev
            tail' ← load_pcb tp
            detach tp
            pure (tp, tail'.p_prev))
          else (do found ← out_loop max_proc tp p tp; pure (found, tp))

unfoldable pub head_proc_q : Ptr → Cmd Ptr
head_proc_q tp =
    if empty_proc_q tp
    then pure null
    else do tail ← load_pcb tp; if tail.p_next == tp then pure tp else pure tail.p_next
