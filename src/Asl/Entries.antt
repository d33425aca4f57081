-- ===== src/Asl/Entries.antt =====
-- What the active semaphore list stands for: the semaphores in use, in the order of their addresses,
-- each with its descriptor and the processes that wait on it.
use patrick_landon_os.Base.{
  ◌≡◌, ◌≢◌, ◌<◌, ◌≤◌, true, List, [], ◌∷◌, ltb, ◌==◌, if◌then◌else◌, length, has,
}
use patrick_landon_os.Const.{max_int, max_proc}
use patrick_landon_os.Machine.Memory.{Ptr, Store, live, get}
use patrick_landon_os.Machine.{Machine}
use patrick_landon_os.Types.{Pcb, Semd, blank_semd, blank_pcb}
use patrick_landon_os.Pcb.Queue.Links.{IsQueue}

pub record Entry : Type 0 where
  pub key : Ptr
  pub desc : Ptr
  pub procs : List Ptr

abbrev pub after : Store Semd → Ptr → Ptr
after h s = (get blank_semd h s).s_next

abbrev pub key_at : Store Semd → Ptr → Ptr
key_at h s = (get blank_semd h s).s_sem_add

abbrev pub queue_at : Store Semd → Ptr → Ptr
queue_at h s = (get blank_semd h s).s_proc_q

-- From `a` the descriptors of the entries lead to the dummy descriptor `hi`.
abbrev pub Descs : Store Semd → (hi a : Ptr) → List Entry → Type 0
Descs h hi a [] = a ≡ hi
Descs h hi a (e ∷ es) =
    (a ≡ e.desc)
    × (live h e.desc ≡ true)
    × (key_at h e.desc ≡ e.key)
    × Descs h hi (after h e.desc) es

-- The addresses rise, and stay below the dummy's.
abbrev pub Rises : List Entry → Type 0
Rises [] = Unit
Rises (e ∷ []) = e.key < max_int
Rises (e ∷ f ∷ es) = (e.key < f.key) × Rises (f ∷ es)

abbrev pub sem_at : Store Pcb → Ptr → Ptr
sem_at k a = (get blank_pcb k a).p_sem_add

-- An entry has a queue of processes, never an empty one, and each of them names the semaphore as the
-- one that it is blocked on.
abbrev pub Waiting : Store Semd → Store Pcb → Entry → Type 0
Waiting h k e =
    IsQueue k (queue_at h e.desc) e.procs
    × (e.procs ≢ [])
    × ((a : Ptr) → has a e.procs ≡ true → sem_at k a ≡ e.key)

abbrev pub Waits : Store Semd → Store Pcb → List Entry → Type 0
Waits h k [] = Unit
Waits h k (e ∷ es) = Waiting h k e × Waits h k es

-- The active semaphore list of a machine, between the dummy descriptors `lo` and `hi`.
pub record IsAsl (m : Machine) (lo hi : Ptr) (es : List Entry) : Type 0 where
  pub starts : m.semd_active_h ≡ lo
  pub lo_live : live m.semds lo ≡ true
  pub hi_live : live m.semds hi ≡ true
  pub hi_key : key_at m.semds hi ≡ max_int
  pub descs : Descs m.semds hi (after m.semds lo) es
  pub rises : Rises es
  pub waits : Waits m.semds m.pcbs es
  pub few : length es ≤ max_proc

-- The descriptor before the place of the semaphore `i`, and the one at that place.
abbrev pub place_before : (lo i : Ptr) → List Entry → Ptr
place_before lo i [] = lo
place_before lo i (e ∷ es) = let rest = place_before e.desc i es in if ltb e.key i then rest else lo

abbrev pub place : (hi i : Ptr) → List Entry → Ptr
place hi i [] = hi
place hi i (e ∷ es) = let rest = place hi i es in if ltb e.key i then rest else e.desc

-- The processes that wait on the semaphore `i`.
abbrev pub waiting_on : Ptr → List Entry → List Ptr
waiting_on i [] = []
waiting_on i (e ∷ es) = let rest = waiting_on i es in if e.key == i then e.procs else rest

-- The list of entries, but that the processes `zs` wait on the semaphore `i`.
abbrev pub with_procs : Ptr → List Ptr → Entry → Entry
with_procs i zs e = record e { procs = (if e.key == i then zs else e.procs) }

abbrev pub update : Ptr → List Ptr → List Entry → List Entry
update i zs [] = []
update i zs (e ∷ es) = with_procs i zs e ∷ update i zs es
