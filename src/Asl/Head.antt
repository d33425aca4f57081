-- ===== src/Asl/Head.antt =====
-- `headBlocked` looks at the first process that waits on a semaphore.
use patrick_landon_os.Asl.Entries.{
  Entry, Rises, waiting_on, key_at, queue_at, Descs, Waits, place, after, IsAsl, place_before,
  sem_at,
}
use patrick_landon_os.Machine.Memory.{Store, Ptr, live}
use patrick_landon_os.Base.{
  inr, inl, refl, List, ◌∷◌, ◌<◌, ◌≡◌, true, [], ==_ne, arith, ◌⊎◌, ◌≢◌, inr, Bool-cases, ltb, ◌==◌,
  ◌∙◌, eq_of_==, ne_of_==, ==_self, sym, has,
}
use patrick_landon_os.Types.{Semd, Pcb}
use patrick_landon_os.Pcb.Queue.Links.{IsQueue}
use patrick_landon_os.Const.{max_int}
use patrick_landon_os.Asl.{head_blocked}
use patrick_landon_os.Machine.{Machine, ok}
use patrick_landon_os.Pcb.Queue.Remove.{first, head_proc_q-first}
use patrick_landon_os.Asl.Find.{after-place_before, find_a_semd-place_before}
use patrick_landon_os.Machine.Lemmas.{load_semd-ok}

-- The addresses rise, so a semaphore below the first address has no entry.
waiting_on-none :
    (i : Ptr) (e : Entry) (es : List Entry)
    → Rises (e ∷ es)
    → i < e.key
    → waiting_on i (e ∷ es) ≡ []
waiting_on-none i e [] r h = rw (==_ne e.key i (λ p. absurd (omega arith))) refl
waiting_on-none i e (f ∷ es) r h =
    rw (==_ne e.key i (λ p. absurd (omega arith))) (waiting_on-none i f es r.1 (omega arith))

pub Rises-tail : (e : Entry) (es : List Entry) → Rises (e ∷ es) → Rises es
Rises-tail e [] r = tt
Rises-tail e (f ∷ es) r = r.1

-- What is found at the place of a semaphore: its descriptor, or that of a higher one.
abbrev pub Found : Store Semd → Store Pcb → (i s : Ptr) → List Ptr → Type 0
Found h k i s xs =
    (live h s ≡ true)
    × (((key_at h s ≡ i)
          × IsQueue k (queue_at h s) xs
          × ((a : Ptr) → has a xs ≡ true → sem_at k a ≡ i))
        ⊎ ((key_at h s ≢ i) × (xs ≡ [])))

module _ (h : Store Semd) (k : Store Pcb) (hi i : Ptr) (hi_live : live h hi ≡ true)
    (hi_key : key_at h hi ≡ max_int) (in_range : i < max_int) where
  pub place-Found :
      (a : Ptr) (es : List Entry)
      → Descs h hi a es
      → Rises es
      → Waits h k es
      → Found h k i (place hi i es) (waiting_on i es)
  place-Found a [] d r w = (hi_live, inr ((λ e. absurd (omega arith)), refl))
  place-Found a (e ∷ es) d r w = elim (Bool-cases (ltb e.key i)) [
    | inl lt ↦
        rw (lt, ==_ne e.key i (ground arith))
          (place-Found (after h e.desc) es d.3 (Rises-tail e es r) w.1)
    | inr ge ↦ rw ge (elim (Bool-cases (e.key == i)) [
      | inl eq ↦
          rw eq (d.1, inl (d.2 ∙ eq_of_== e.key i eq, w.0.0, rw (sym (eq_of_== e.key i eq)) w.0.2))
      | inr ne ↦ (
        d.1,
        inr (
          λ q. ne_of_== e.key i ne (sym d.2 ∙ q),
          waiting_on-none i e es r (ground (arith, ne_of_== e.key i ne)),
        ),
      )
    ])
  ]

-- `headBlocked` returns the first of the processes that wait on the semaphore, NULL if there is none,
-- and changes nothing.
pub head_blocked-first :
    (m : Machine) (lo hi i : Ptr) (es : List Entry)
    → IsAsl m lo hi es
    → i < max_int
    → head_blocked i m ≡ ok (first (waiting_on i es)) m
unfolding head_blocked
head_blocked-first m lo hi i es l h =
    let before =
      after-place_before m hi i l.hi_live l.hi_key (omega arith) lo es l.lo_live l.descs in
    let found =
      place-Found m.semds m.pcbs hi i l.hi_live l.hi_key h (after m.semds lo) es l.descs l.rises
        l.waits in
    rw
      (
        find_a_semd-place_before m lo hi i es l (omega arith),
        load_semd-ok m (place_before lo i es) before.0,
        before.1,
        load_semd-ok m (place hi i es) found.0,
      )
      (elim found.1 [
        | inl e ↦
            rw (e.0, ==_self i)
              (head_proc_q-first m (queue_at m.semds (place hi i es)) (waiting_on i es) e.1)
        | inr e ↦ rw (==_ne i (key_at m.semds (place hi i es)) (λ q. e.0 (sym q)), e.1) refl
      ])
