-- ===== src/Asl/Insert.antt =====
-- `insertBlocked`: what it does for every semaphore.
use patrick_landon_os.Base.{
  ◌≡◌, ◌≢◌, ◌<◌, ◌++◌, refl, true, List, [], ◌∷◌, arith, ◌==◌, ◌∙◌, inl, inr, subst, Bool-cases,
  ltb, ==_ne, if◌then◌else◌, sym, ==_self,
}
use patrick_landon_os.Const.{max_int, min_int}
use patrick_landon_os.Types.{Semd, Pcb}
use patrick_landon_os.Machine.{Machine, ok}
use patrick_landon_os.Machine.Memory.{Ptr, Store, null, live}
use patrick_landon_os.Asl.{insert_blocked, ltb}
use patrick_landon_os.Asl.Entries.{
  Entry, place, sem_at, key_at, waiting_on, update, after, Descs, Waits, place_before,
}
use patrick_landon_os.Asl.Table.{IsTable, IsTable-requeue}
use patrick_landon_os.Asl.Head.{place-Found, Found}
use patrick_landon_os.Asl.Block.{Enqueued, insert_blocked-append}
use patrick_landon_os.Asl.Enter.{Enlisted, enter-Enlisted}
use patrick_landon_os.Asl.Find.{after-place_before, find_a_semd-place_before}
use patrick_landon_os.Asl.FreeList.{Frees}
use patrick_landon_os.Machine.Lemmas.{load_semd-ok}

-- A semaphore that processes wait on has a descriptor; for another one, one is free.
abbrev pub HasRoom : Ptr → List Entry → List Ptr → Type 0
HasRoom i es ds = waiting_on i es ≡ [] → ds ≢ []

Enqueued-Enlisted :
    (m : Machine) (lo hi i p : Ptr) (es : List Entry) (ds : List Ptr)
    → IsTable m lo hi es ds
    → live m.semds (place hi i es) ≡ true
    → key_at m.semds (place hi i es) ≡ i
    → i < max_int
    → Enqueued m lo hi i p es
    → Enlisted m lo hi i p es ds
Enqueued-Enlisted m lo hi i p es ds t lc kc high e = record {
  heap = e.heap;
  table = e.table;
  head = m.semd_free_h;
  line = update i (waiting_on i es ++ p ∷ []) es;
  rest = ds;
  runs = e.runs;
  state =
      IsTable-requeue m lo hi i p (waiting_on i es ++ p ∷ []) es ds e.heap e.table t lc kc high
        e.same_table e.asl;
  waiters = e.waiters;
  others = e.others;
  same_live = e.same_live;
  outside = e.outside;
  same_state = e.same_state;
}

new-Enlisted :
    (m : Machine) (lo hi i p : Ptr) (es : List Entry) (ds : List Ptr)
    → IsTable m lo hi es ds
    → min_int < i
    → i < max_int
    → live m.semds (place hi i es) ≡ true
    → key_at m.semds (place hi i es) ≢ i
    → ds ≢ []
    → live m.pcbs p ≡ true
    → sem_at m.pcbs p ≡ null
    → Enlisted m lo hi i p es ds
new-Enlisted m lo hi i p es [] t low high lc absent room lp fp = absurd (room refl)
new-Enlisted m lo hi i p es (s ∷ ds) t low high lc absent room lp fp =
    enter-Enlisted m lo hi i p s ds es t low high lc absent lp fp

-- A semaphore with a descriptor at its place is one that processes wait on.
pub place-waiting_on :
    (h : Store Semd) (k : Store Pcb) (hi i a : Ptr) (es : List Entry)
    → key_at h hi ≡ max_int
    → i < max_int
    → Descs h hi a es
    → Waits h k es
    → key_at h (place hi i es) ≡ i
    → waiting_on i es ≢ []
place-waiting_on h k hi i a [] kh high d w q = absurd (omega (arith, kh, q, high))
place-waiting_on h k hi i a (e ∷ es) kh high d w q = elim (Bool-cases (ltb e.key i)) [
  | inl lt ↦ rw (==_ne e.key i (λ x. absurd (ground arith))) (
      place-waiting_on h k hi i (after h e.desc) es kh high d.3 w.1
        (subst (λ z. key_at h (if z then place hi i es else e.desc) ≡ i) lt q))
  | inr ge ↦
      let at : key_at h e.desc ≡ i =
        subst (λ z. key_at h (if z then place hi i es else e.desc) ≡ i) ge q in
      rw (sym d.2 ∙ at, ==_self i) (w.0.1)
]

module _ (m : Machine) (lo hi i p : Ptr) (es : List Entry) (ds : List Ptr)
    (t : IsTable m lo hi es ds) (low : min_int < i) (high : i < max_int) where
  found : Found m.semds m.pcbs i (place hi i es) (waiting_on i es)
  found =
      place-Found m.semds m.pcbs hi i t.asl.hi_live t.asl.hi_key high (after m.semds lo) es
        t.asl.descs t.asl.rises t.asl.waits

  occupied : key_at m.semds (place hi i es) ≡ i → waiting_on i es ≢ []
  occupied =
      place-waiting_on m.semds m.pcbs hi i (after m.semds lo) es t.asl.hi_key high t.asl.descs
        t.asl.waits

  -- `insertBlocked` of a process that is blocked on nothing, for a semaphore that processes wait on, or
  -- any other one while a descriptor is free: it returns False; the process is then the last of those
  -- that wait on the semaphore, the waiting processes of every other semaphore are as before, and the
  -- descriptors are again all on the active list, in the order of their addresses, or on the free list.
  pub insert_blocked_lem :
      HasRoom i es ds → live m.pcbs p ≡ true → sem_at m.pcbs p ≡ null → Enlisted m lo hi i p es ds
  insert_blocked_lem room lp fp = elim found.1 [
    | inl e ↦
        Enqueued-Enlisted m lo hi i p es ds t found.0 e.0 high
          (insert_blocked-append m lo hi i p es t.asl high (occupied e.0) lp fp)
    | inr e ↦ new-Enlisted m lo hi i p es ds t low high found.0 e.0 (room e.1) lp fp
  ]

  -- `insertBlocked` for a semaphore that no process waits on, when no descriptor is free: it returns
  -- True and changes nothing.
  pub insert_blocked-full : waiting_on i es ≡ [] → ds ≡ [] → insert_blocked i p m ≡ ok true m
  unfolding insert_blocked
  insert_blocked-full none full =
      let before =
        after-place_before m hi i t.asl.hi_live t.asl.hi_key (omega arith) lo es t.asl.lo_live
          t.asl.descs in
      let empty : m.semd_free_h ≡ null =
        subst (λ xs. Frees m.semds m.semd_free_h xs) full t.free.chain in
      rw
        (
          find_a_semd-place_before m lo hi i es t.asl (omega arith),
          load_semd-ok m (place_before lo i es) before.0,
          before.1,
        )
        (elim (Bool-cases (p == null)) [
          | inl y ↦ rw y refl
          | inr n ↦
              rw
                (
                  n,
                  load_semd-ok m (place hi i es) found.0,
                  ==_ne i (key_at m.semds (place hi i es)) (λ q. occupied (sym q) none),
                  subst (λ x. (m.semd_free_h == x) ≡ true) empty (==_self m.semd_free_h),
                )
                refl
        ])
