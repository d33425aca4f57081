-- ===== src/Asl/Remove.antt =====
-- `removeBlocked`: what it does for every semaphore.
use patrick_landon_os.Base.{
  ◌≡◌, ◌<◌, refl, true, List, [], ◌∷◌, arith, subst, inr, inl, ==_self, ==_ne,
}
use patrick_landon_os.Const.{max_int, min_int}
use patrick_landon_os.Machine.{Machine, ok}
use patrick_landon_os.Machine.Memory.{Ptr, null, live}
use patrick_landon_os.Asl.{remove_blocked}
use patrick_landon_os.Asl.Entries.{Entry, place, place_before, key_at, waiting_on, queue_at, after}
use patrick_landon_os.Asl.Table.{IsTable}
use patrick_landon_os.Asl.Head.{place-Found, Found}
use patrick_landon_os.Asl.Insert.{place-waiting_on}
use patrick_landon_os.Machine.Lemmas.{load_semd-ok}
use patrick_landon_os.Asl.Find.{after-place_before, find_a_semd-place_before}
use patrick_landon_os.Pcb.Queue.Remove.{remove_proc_q-cons}
use patrick_landon_os.Asl.Unblock.{Removed-Taken}
use patrick_landon_os.Asl.Retire.{Withdrawn, Withdrawn-op, withdraw-Withdrawn}

module _ (m : Machine) (lo hi i : Ptr) (es : List Entry) (ds : List Ptr) (t : IsTable m lo hi es ds)
    (low : min_int < i) (high : i < max_int) where
  abbrev pub s : Ptr
  s = place hi i es

  pub before :
      (live m.semds (place_before lo i es) ≡ true) × (after m.semds (place_before lo i es) ≡ s)
  before =
      after-place_before m hi i t.asl.hi_live t.asl.hi_key (omega (arith, high)) lo es t.asl.lo_live
        t.asl.descs

  pub found : (zs : List Ptr) → waiting_on i es ≡ zs → Found m.semds m.pcbs i s zs
  found zs line =
      subst (λ xs. Found m.semds m.pcbs i s xs) line
        (place-Found m.semds m.pcbs hi i t.asl.hi_live t.asl.hi_key high (after m.semds lo) es
          t.asl.descs t.asl.rises t.asl.waits)

  -- `removeBlocked` for a semaphore that processes wait on: it returns the first of them, which is then
  -- blocked on nothing; the others still wait, in their order, the waiting processes of every other
  -- semaphore are as before, and the descriptors are again all on the active list, in the order of
  -- their addresses, or on the free list.
  pub remove_blocked_lem :
      (x : Ptr) (zs : List Ptr)
      → waiting_on i es ≡ (x ∷ zs)
      → Withdrawn (remove_blocked i) m lo hi i x zs es
  unfolding remove_blocked
  remove_blocked_lem x zs line = elim (found (x ∷ zs) line).1 [
    | inr e ↦ cc
    | inl e ↦
        let gone = remove_proc_q-cons m (queue_at m.semds s) x zs e.1 in
        Withdrawn-op {c = remove_blocked i}
          (rw
            (
              find_a_semd-place_before m lo hi i es t.asl (omega arith),
              load_semd-ok m (place_before lo i es) before.0,
              before.1,
              load_semd-ok m s (found (x ∷ zs) line).0,
              e.0,
              ==_self i,
              gone.runs,
            )
            refl)
          (withdraw-Withdrawn m lo hi i x gone.tail gone.heap es ds t low high
            (found (x ∷ zs) line).0 e.0 zs (Removed-Taken i e.1 e.2 gone))
  ]

  -- `removeBlocked` for a semaphore that no process waits on: it returns NULL and changes nothing.
  pub remove_blocked-none : waiting_on i es ≡ [] → remove_blocked i m ≡ ok null m
  unfolding remove_blocked
  remove_blocked-none none = elim (found [] none).1 [
    | inl e ↦ absurd (
        place-waiting_on m.semds m.pcbs hi i (after m.semds lo) es t.asl.hi_key high t.asl.descs
          t.asl.waits e.0 none)
    | inr e ↦
        rw
          (
            find_a_semd-place_before m lo hi i es t.asl (omega arith),
            load_semd-ok m (place_before lo i es) before.0,
            before.1,
            load_semd-ok m s (found [] none).0,
            ==_ne (key_at m.semds s) i e.0,
          )
          refl
  ]
