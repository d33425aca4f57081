-- ===== src/Asl/Init/Loop.antt =====
-- The loop of `initASL` frees every descriptor of the array.
use patrick_landon_os.Base.{
  ℕ, zero, suc, ◌+◌, ◌≤◌, ◌<◌, ◌≡◌, refl, ◌∙◌, true, false, List, [], ◌∷◌, has, arith, subst,
  add-one, ap, length,
}
use patrick_landon_os.Asl.{semd_addr, init_asl_loop, Ptr, Semd, null}
use patrick_landon_os.Machine.{Machine, ok}
use patrick_landon_os.Machine.Memory.{Ptr, Store, live, live-upd, null, get-upd}
use patrick_landon_os.Asl.FreeList.{IsFree, free_semd-cons, with_freed, emptied}
use patrick_landon_os.Types.{Semd, blank_semd}
use patrick_landon_os.Asl.Entries.{key_at}

-- The addresses of the first `n` descriptors of the array, the last one first.
abbrev pub descriptors : Ptr → ℕ → List Ptr
descriptors base zero = []
descriptors base (suc n) = semd_addr base n ∷ descriptors base n

pub not-mem-descriptors :
    (base n j : ℕ) → n ≤ j → has (semd_addr base j) (descriptors base n) ≡ false
not-mem-descriptors base zero j h = refl
not-mem-descriptors base (suc n) j h = ground (arith, not-mem-descriptors base n j)

-- What the loop leaves behind, once `k` descriptors are on the list.
pub record Looped (m : Machine) (base n i k : ℕ) : Type 0 where
  pub heap : Store Semd
  pub head : Ptr
  pub runs : init_asl_loop base n i m ≡ ok tt (record m { semds = heap; semd_free_h = head })
  pub list : IsFree (record m { semds = heap; semd_free_h = head }) (descriptors base k)
  pub idle : (a : Ptr) → has a (descriptors base k) ≡ true → key_at heap a ≡ null

freed_idle :
    (m : Machine) (s : Ptr) (ds : List Ptr)
    → live m.semds s ≡ true
    → ((a : Ptr) → has a ds ≡ true → key_at m.semds a ≡ null)
    → (a : Ptr) → has a (s ∷ ds) ≡ true
    → key_at (with_freed s m).semds a ≡ null
freed_idle m s ds ls keys a mem =
    ground (arith, mem, keys a, get-upd blank_semd m.semds s (emptied m.semd_free_h) a ls)

pub length-descriptors : (base n : ℕ) → length (descriptors base n) ≡ n
length-descriptors base zero = refl
length-descriptors base (suc n) = ap suc (length-descriptors base n)

pub init_asl_loop-descriptors :
    (base n i k : ℕ) (m : Machine)
    → n + i ≡ k
    → IsFree m (descriptors base i)
    → ((a : Ptr) → has a (descriptors base i) ≡ true → key_at m.semds a ≡ null)
    → ((j : ℕ) → j < k → live m.semds (semd_addr base j) ≡ true)
    → Looped m base n i k
unfolding init_asl_loop
init_asl_loop-descriptors base zero i k m e l keys alive = record {
  heap = m.semds;
  head = m.semd_free_h;
  runs = refl;
  list = subst (λ j. IsFree m (descriptors base j)) (omega arith) l;
  idle =
      subst (λ j. (a : Ptr) → has a (descriptors base j) ≡ true → key_at m.semds a ≡ null)
        (omega arith) keys;
}
init_asl_loop-descriptors base (suc n) i k m e l keys alive =
    let s = semd_addr base i in
    let f =
      free_semd-cons m s (descriptors base i) l (alive i (omega arith))
        (not-mem-descriptors base i i (omega arith)) in
    let rest =
      init_asl_loop-descriptors base n (suc i) k (with_freed s m) (omega arith) f.1
        (freed_idle m s (descriptors base i) (alive i (omega arith)) keys)
        (λ j h. live-upd m.semds s (emptied m.semd_free_h) (semd_addr base j) ∙ alive j h) in
    record {
      heap = rest.heap;
      head = rest.head;
      runs = rw (f.0, add-one) rest.runs;
      list = rest.list;
      idle = rest.idle;
    }
