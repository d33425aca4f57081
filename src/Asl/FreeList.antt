-- ===== src/Asl/FreeList.antt =====
-- The free semaphore descriptors as a list; `freeSemd` and `allocSemd` push to it and pop from it.
use patrick_landon_os.Base.{
  ◌≡◌, ◌≢◌, refl, sym, ap, ◌∙◌, true, false, List, [], ◌∷◌, has, Distinct, arith, ==_ne, subst,
  ne_of_has,
}
use patrick_landon_os.Asl.{free_semd, alloc_semd, Ptr, Semd, null, mk_empty_proc_q}
use patrick_landon_os.Machine.Memory.{
  Store, Ptr, upd, live, null, live-upd, get, get-upd_self, get-upd, live-ne,
}
use patrick_landon_os.Machine.{Machine, ok}
use patrick_landon_os.Types.{Semd, blank_semd}
use patrick_landon_os.Asl.Entries.{after}
use patrick_landon_os.Machine.Lemmas.{modify_semd-ok, load_semd-ok}
use patrick_landon_os.Pcb.Queue.{mk_empty_proc_q}

-- From `a` the pointers lead through the descriptors of the list to NULL.
abbrev pub Frees : Store Semd → Ptr → List Ptr → Type 0
Frees h a [] = a ≡ null
Frees h a (b ∷ bs) = (a ≡ b) × (live h b ≡ true) × Frees h (after h b) bs

-- `semdFree_h` lists the distinct descriptors `ds`.
pub record IsFree (m : Machine) (ds : List Ptr) : Type 0 where
  pub chain : Frees m.semds m.semd_free_h ds
  pub distinct : Distinct ds

pub Frees-same :
    (h g : Store Semd) (a : Ptr) (ds : List Ptr)
    → ((x : Ptr) → has x ds ≡ true → get blank_semd g x ≡ get blank_semd h x)
    → ((x : Ptr) → live g x ≡ live h x)
    → Frees h a ds
    → Frees g a ds
Frees-same h g a [] same alive c = c
Frees-same h g a (b ∷ bs) same alive c = (
  c.0,
  alive b ∙ c.1,
  subst (λ n. Frees g n bs) (sym (ap (λ (d : Semd). d.s_next) (same b (ground arith))))
      (Frees-same h g (after h b) bs (λ x i. same x (ground arith)) alive c.2),
)

module _ (m : Machine) (s : Ptr) (ls : live m.semds s ≡ true) (f : Semd → Semd) where
  pub others_same :
      (a : Ptr) → a ≢ s → get blank_semd (upd m.semds s f) a ≡ get blank_semd m.semds a
  others_same a ne = ground (arith, get-upd blank_semd m.semds s f a ls)

  pub Frees-upd :
      (a : Ptr) (ds : List Ptr)
      → has s ds ≡ false
      → Frees m.semds a ds
      → Frees (upd m.semds s f) a ds
  Frees-upd a ds new c =
      Frees-same m.semds (upd m.semds s f) a ds (λ x i. others_same x (ne_of_has x s ds i new))
        (live-upd m.semds s f) c

-- The descriptor that `freeSemd` makes, and the one that `allocSemd` makes.
abbrev pub emptied : Ptr → Semd → Semd
emptied head d = record d { s_sem_add = null; s_proc_q = mk_empty_proc_q; s_next = head }

abbrev pub filled : Ptr → Semd → Semd
filled i d = record d { s_next = null; s_proc_q = mk_empty_proc_q; s_sem_add = i }

abbrev pub with_freed : Ptr → Machine → Machine
with_freed s m = record m { semds = upd m.semds s (emptied m.semd_free_h); semd_free_h = s }

abbrev pub with_allocated : (i s : Ptr) → Machine → Machine
with_allocated i s m = record m { semds = upd m.semds s (filled i); semd_free_h = after m.semds s }

-- `freeSemd` of a descriptor that is in memory and not on the free list: it returns, and the
-- descriptor is now the first of the list.
pub free_semd-cons :
    (m : Machine) (s : Ptr) (ds : List Ptr)
    → IsFree m ds
    → live m.semds s ≡ true
    → has s ds ≡ false
    → (free_semd s m ≡ ok tt (with_freed s m)) × IsFree (with_freed s m) (s ∷ ds)
unfolding free_semd
free_semd-cons m s ds l ls new = (
  rw (modify_semd-ok m s ls) refl,
  record {
    chain = (
      refl,
      simp live-upd ls,
      subst (λ n. Frees (with_freed s m).semds n ds)
          (sym (
            ap (λ (d : Semd). d.s_next)
              (get-upd_self blank_semd m.semds s (emptied m.semd_free_h) ls)))
          (Frees-upd m s ls (emptied m.semd_free_h) m.semd_free_h ds new l.chain),
    );
    distinct = (new, l.distinct);
  },
)

alloc-runs :
    (m : Machine) (i : Ptr)
    → live m.semds m.semd_free_h ≡ true
    → alloc_semd i m ≡ ok m.semd_free_h (with_allocated i m.semd_free_h m)
unfolding alloc_semd
alloc-runs m i e =
    rw
      (
        ==_ne m.semd_free_h null (live-ne m.semds m.semd_free_h e),
        load_semd-ok m m.semd_free_h e,
        modify_semd-ok (record m { semd_free_h = after m.semds m.semd_free_h }) m.semd_free_h e,
      )
      refl

-- `allocSemd` on a free list that is not empty: it returns the first descriptor, made over to the
-- semaphore, and the list then holds the others.
pub alloc_semd-cons :
    (m : Machine) (i s : Ptr) (ds : List Ptr)
    → IsFree m (s ∷ ds)
    → (alloc_semd i m ≡ ok s (with_allocated i s m)) × IsFree (with_allocated i s m) ds
alloc_semd-cons m i s ds l = (
  subst (λ a. alloc_semd i m ≡ ok a (with_allocated i a m)) l.chain.0
      (alloc-runs m i (rw l.chain.0 l.chain.1)),
  record {
    chain = Frees-upd m s l.chain.1 (filled i) (after m.semds s) ds l.distinct.0 l.chain.2;
    distinct = l.distinct.1;
  },
)
