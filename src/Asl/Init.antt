-- ===== src/Asl/Init.antt =====
-- `initASL` makes an active list of the two dummy descriptors, and frees all the others.
pub mod Loop
use patrick_landon_os.Base.{
  ℕ, zero, suc, ◌+◌, ◌≤◌, ◌<◌, ◌≡◌, refl, ◌∙◌, true, false, List, [], ◌∷◌, has, arith, subst,
  add-one, ◌≢◌, ap, sym, ne_of_has,
}
use patrick_landon_os.Asl.{
  semd_addr, init_asl_loop, Ptr, Semd, max_proc, init_asl, max_int, with_s_next, min_int, null,
  alloc_semd,
}
use patrick_landon_os.Machine.{Machine, ok}
use patrick_landon_os.Machine.Memory.{Ptr, Store, live, live-upd, get, upd, get-upd_self, null}
use patrick_landon_os.Asl.FreeList.{
  IsFree, free_semd-cons, with_freed, emptied, filled, with_allocated, alloc_semd-cons, Frees-upd,
  others_same,
}
use patrick_landon_os.Types.{Semd, blank_semd}
use patrick_landon_os.Const.{max_proc, max_int, min_int}
use patrick_landon_os.Asl.Entries.{IsAsl, key_at}
use patrick_landon_os.Machine.Lemmas.{modify_semd-ok}
use patrick_landon_os.Asl.Init.Loop.{
  descriptors, Looped, init_asl_loop-descriptors, length-descriptors, not-mem-descriptors,
}
use patrick_landon_os.Asl.Table.{IsTable}

abbrev pub lo_addr : Ptr → Ptr
lo_addr base = semd_addr base (max_proc + 1)

abbrev pub hi_addr : Ptr → Ptr
hi_addr base = semd_addr base max_proc

-- The tables of semaphores at the start.
pub record Initialised (m : Machine) (base : Ptr) : Type 0 where
  pub last : Machine
  pub runs : init_asl base m ≡ ok tt last
  pub asl : IsAsl last (lo_addr base) (hi_addr base) []
  pub lo_key : key_at last.semds (lo_addr base) ≡ min_int
  pub free : IsFree last (descriptors base max_proc)
  pub idle : (a : Ptr) → has a (descriptors base max_proc) ≡ true → key_at last.semds a ≡ null
  pub same : last ≡ record m {
    semds = last.semds;
    semd_free_h = last.semd_free_h;
    semd_active_h = last.semd_active_h;
  }
  pub same_pcbs : last.pcbs ≡ m.pcbs

-- The two dummies, taken from the front of the free list and linked.
module _ (m : Machine) (lo hi : Ptr) (ds : List Ptr) (l : IsFree m (lo ∷ hi ∷ ds)) where
  active : Machine
  active = record (with_allocated min_int lo m) { semd_active_h = lo }

  active-IsFree : IsFree active (hi ∷ ds)
  unfolding active
  active-IsFree =
      let f = (alloc_semd-cons m min_int lo (hi ∷ ds) l).1 in
      record { chain = f.chain; distinct = f.distinct }

  ended : Machine
  ended = with_allocated max_int hi active

  joined : Machine
  joined = record ended { semds = upd ended.semds lo (with_s_next hi) }

  ended-live : (a : Ptr) → live ended.semds a ≡ live m.semds a
  unfolding ended active
  ended-live a =
      live-upd active.semds hi (filled max_int) a ∙ live-upd m.semds lo (filled min_int) a

  lo-ne-hi : lo ≢ hi
  lo-ne-hi = ground (arith, l.distinct)

  joined-hi : get blank_semd joined.semds hi ≡ filled max_int (get blank_semd m.semds hi)
  unfolding joined ended active
  joined-hi =
      others_same ended lo (ended-live lo ∙ l.chain.1) (with_s_next hi) hi (λ e. lo-ne-hi (sym e))
      ∙ get-upd_self blank_semd active.semds hi (filled max_int) (simp live-upd l.chain.2.1)
      ∙ ap (filled max_int) (others_same m lo l.chain.1 (filled min_int) hi (λ e. lo-ne-hi (sym e)))

  joined-lo :
      get blank_semd joined.semds lo ≡ with_s_next hi (filled min_int (get blank_semd m.semds lo))
  unfolding joined ended active
  joined-lo =
      get-upd_self blank_semd ended.semds lo (with_s_next hi) (ended-live lo ∙ l.chain.1)
      ∙ ap (with_s_next hi) (
          others_same active hi (simp live-upd l.chain.2.1) (filled max_int) lo lo-ne-hi
          ∙ get-upd_self blank_semd m.semds lo (filled min_int) l.chain.1)

  joined-IsAsl : IsAsl joined lo hi []
  unfolding joined ended active
  joined-IsAsl = record {
    starts = refl;
    lo_live = simp live-upd l.chain.1;
    hi_live = simp live-upd l.chain.2.1;
    hi_key = ap (λ (d : Semd). d.s_sem_add) joined-hi;
    descs = ap (λ (d : Semd). d.s_next) joined-lo;
    rises = tt;
    waits = tt;
    few = omega arith;
  }

  joined-IsFree : IsFree joined ds
  unfolding joined ended
  joined-IsFree =
      let f = (alloc_semd-cons active max_int hi ds active-IsFree).1 in
      record {
        chain =
            Frees-upd ended lo (ended-live lo ∙ l.chain.1) (with_s_next hi) ended.semd_free_h ds
              (ground (arith, l.distinct)) f.chain;
        distinct = f.distinct;
      }

  joined-idle :
      (a : Ptr)
      → has a ds ≡ true
      → ((b : Ptr) → has b (lo ∷ hi ∷ ds) ≡ true → key_at m.semds b ≡ null)
      → key_at joined.semds a ≡ null
  unfolding joined ended active
  joined-idle a mem keys =
      let ne-lo : a ≢ lo = λ q. absurd (ground (arith, q, mem, l.distinct.0)) in
      let ne-hi : a ≢ hi = ne_of_has a hi ds mem l.distinct.1.0 in
      let key = λ (d : Semd). d.s_sem_add in
      ap key (others_same ended lo (ended-live lo ∙ l.chain.1) (with_s_next hi) a ne-lo)
      ∙ ap key (others_same active hi (simp live-upd l.chain.2.1) (filled max_int) a ne-hi)
      ∙ ap key (others_same m lo l.chain.1 (filled min_int) a ne-lo)
      ∙ keys a (ground (arith, mem))

-- `initASL`, where its array lies in memory: it returns; the active list then has the two dummies, the
-- last two descriptors of the array, with the lowest and the highest address as theirs, and no
-- semaphore between them; the free list holds the other `MAXPROC` descriptors, each once; no process
-- block has changed.
pub init_asl-IsAsl :
    (m : Machine) (base : Ptr)
    → ((j : ℕ) → j < max_proc + 2 → live m.semds (semd_addr base j) ≡ true)
    → Initialised m base
unfolding init_asl ended active joined
init_asl-IsAsl m base alive = record {
  last = joined n lo hi rest r.list;
  runs =
      rw
        (
          r.runs,
          a.0,
          b.0,
          modify_semd-ok (ended n lo hi rest r.list) lo
              (ended-live n lo hi rest r.list lo ∙ r.list.chain.1),
        )
        refl;
  asl = joined-IsAsl n lo hi rest r.list;
  lo_key = ap (λ (d : Semd). d.s_sem_add) (joined-lo n lo hi rest r.list);
  free = joined-IsFree n lo hi rest r.list;
  idle = λ a mem. joined-idle n lo hi rest r.list a mem (λ b i. r.idle b (ground (arith, i)));
  same = refl;
  same_pcbs = refl;
}
  where
    lo : Ptr
    lo = lo_addr base

    hi : Ptr
    hi = hi_addr base

    rest : List Ptr
    rest = descriptors base max_proc

    r : Looped (record m { semd_free_h = null }) base (max_proc + 2) 0 (max_proc + 2)
    r =
        init_asl_loop-descriptors base (max_proc + 2) 0 (max_proc + 2)
          (record m { semd_free_h = null }) (omega arith) (record { chain = refl; distinct = tt })
          (λ a mem. cc) alive

    n : Machine
    n = record m { semds = r.heap; semd_free_h = r.head }

    a :
        (alloc_semd min_int n ≡ ok lo (with_allocated min_int lo n))
        × IsFree (with_allocated min_int lo n) (hi ∷ rest)
    a = alloc_semd-cons n min_int lo (hi ∷ rest) r.list

    b :
        (alloc_semd max_int (active n lo hi rest r.list) ≡ ok hi (ended n lo hi rest r.list))
        × IsFree (ended n lo hi rest r.list) rest
    b =
        alloc_semd-cons (active n lo hi rest r.list) max_int hi rest
          (active-IsFree n lo hi rest r.list)

-- Every descriptor is then active or free.
pub init_asl-IsTable :
    {m : Machine} {base : Ptr}
    → (r : Initialised m base)
    → IsTable r.last (lo_addr base) (hi_addr base) [] (descriptors base max_proc)
init_asl-IsTable {base} r = record {
  asl = r.asl;
  free = r.free;
  lo_key = r.lo_key;
  above = omega arith;
  apart = not-mem-descriptors base max_proc max_proc (omega arith);
  idle = r.idle;
  total = length-descriptors base max_proc;
}
