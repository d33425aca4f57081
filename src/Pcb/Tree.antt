-- ===== src/Pcb/Tree.antt =====
-- phase1/pcb.c, the process tree: `p_child` leads to the first child, `p_sib` from child to child.
pub mod Family
pub mod Insert
pub mod Remove
pub mod Elder
pub mod Out
use patrick_landon_os.Base.{ℕ, zero, suc, Bool, true, false, not, ◌==◌, if◌then◌else◌}
use patrick_landon_os.Machine.Memory.{Ptr, null}
use patrick_landon_os.Types.{Pcb}
use patrick_landon_os.Const.{max_proc}
use patrick_landon_os.Machine.{Cmd, pure, starve, ◌>>=◌, ◌>>◌, load_pcb, modify_pcb}

-- `p->p_child = q`, `p->p_sib = q` and `p->p_prnt = q`.
abbrev pub with_child : Ptr → Pcb → Pcb
with_child q c = record c { p_child = q }

abbrev pub with_sib : Ptr → Pcb → Pcb
with_sib q c = record c { p_sib = q }

abbrev pub with_prnt : Ptr → Pcb → Pcb
with_prnt q c = record c { p_prnt = q }

unfoldable pub empty_child : Ptr → Cmd Bool
empty_child p = do c ← load_pcb p; if c.p_child == null then pure true else pure false

unfoldable pub insert_child : Ptr → Ptr → Cmd (Unit {0})
insert_child prnt p = if prnt == null then pure tt else do
  parent ← load_pcb prnt
  if not (parent.p_child == null)
      then (do
        modify_pcb p (with_sib parent.p_child)
        modify_pcb prnt (with_child p)
        modify_pcb p (with_prnt prnt))
      else (do modify_pcb prnt (with_child p); modify_pcb p (with_prnt prnt))

unfoldable pub remove_child : Ptr → Cmd Ptr
remove_child p = do
  parent ← load_pcb p
  if parent.p_child == null then pure null else do
    child ← load_pcb parent.p_child
    if not (child.p_sib == null)
        then modify_pcb p (with_child child.p_sib)
        else modify_pcb p (with_child null)
    modify_pcb parent.p_child (with_prnt null)
    pure parent.p_child

-- while(current->p_sib != p) current = current->p_sib;
unfoldable pub elder_loop : ℕ → (p current : Ptr) → Cmd Ptr
elder_loop zero p current = starve
elder_loop (suc k) p current = do
  c ← load_pcb current
  if c.p_sib == p then pure current else elder_loop k p c.p_sib

unfoldable pub out_child : Ptr → Cmd Ptr
unfolding elder_loop
out_child p = do
  c ← load_pcb p
  if c.p_prnt == null then pure null else do
    parent ← load_pcb c.p_prnt
    if parent.p_child == p
        then (do
          if c.p_sib == null
              then modify_pcb c.p_prnt (with_child null)
              else modify_pcb c.p_prnt (with_child c.p_sib)
          modify_pcb p (with_prnt null)
          pure p)
        else (do
          elder ← elder_loop max_proc p parent.p_child
          if not (c.p_sib == null)
              then modify_pcb elder (with_sib c.p_sib)
              else modify_pcb elder (with_sib null)
          modify_pcb p (with_prnt null)
          pure p)
