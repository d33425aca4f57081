-- ===== src/Asl/Leave.antt =====
-- The active semaphore list where the last process of a semaphore leaves: its descriptor is freed.
use patrick_landon_os.Asl.FreeList.{with_freed, IsFree, Frees-same, free_semd-cons}
use patrick_landon_os.Base.{
  ◌≡◌, ◌≢◌, ◌<◌, refl, true, false, List, [], ◌∷◌, has, arith, ◌==◌, ◌∙◌, Bool-cases, ap, ne_of_has,
  inl, inr, eq_of_==, ne_of_==, subst, sym, ==_self,
}
use patrick_landon_os.Const.{max_int, min_int}
use patrick_landon_os.Types.{Semd, Pcb}
use patrick_landon_os.Machine.{Machine, ok}
use patrick_landon_os.Machine.Memory.{Ptr, Store, null, live, upd, live-upd}
use patrick_landon_os.Asl.{retire_if_empty, free_semd, with_proc_q}
use patrick_landon_os.Asl.Entries.{Entry, place, place_before, key_at, after, waiting_on, IsAsl}
use patrick_landon_os.Asl.Table.{IsTable, Keeps, Waits-without}
use patrick_landon_os.Asl.Unlink.{
  bypassed, unlinked, bypassed-other, unlinked-Spliced, live-bypassed, unlinked-skip, unlinked-idle,
  drained-empty,
}
use patrick_landon_os.Asl.Order.{without, Above-without, length-without, Above-Rises}
use patrick_landon_os.Asl.Find.{after-place_before}
use patrick_landon_os.Asl.Splice.{key_at-place_before, Spliced, Descs-without}
use patrick_landon_os.Machine.Lemmas.{load_semd-ok, modify_semd-ok}

module _ (m : Machine) (lo hi i : Ptr) (ds : List Ptr) (es : List Entry) (t : IsTable m lo hi es ds)
    (low : min_int < i) (high : i < max_int) (ls : live m.semds (place hi i es) ≡ true)
    (ks : key_at m.semds (place hi i es) ≡ i) (q : Ptr) (drains : q ≡ null)
    (some : waiting_on i es ≢ []) where
  abbrev s : Ptr
  s = place hi i es

  abbrev prev : Ptr
  prev = place_before lo i es

  abbrev h : Store Semd
  h = m.semds

  abbrev g : Store Semd
  g = unlinked h s prev q m.semd_free_h

  at_prev : (live h prev ≡ true) × (after h prev ≡ s)
  at_prev =
      after-place_before m hi i t.asl.hi_live t.asl.hi_key (omega (arith, high)) lo es t.asl.lo_live
        t.asl.descs

  prev-low : key_at h prev < i
  prev-low = (key_at-place_before h hi i lo min_int es t.lo_key t.above t.asl.descs low).1

  prev-ne : prev ≢ s
  prev-ne e = absurd (omega (arith, prev-low, ks, ap (key_at h) e))

  sp : Spliced h g s prev
  sp = unlinked-Spliced h s prev q m.semd_free_h ls at_prev.0 prev-ne

  new : has s ds ≡ false
  new = elim (Bool-cases (has s ds)) [
    | inl mem ↦ absurd (omega (arith, t.idle s mem, ks, high))
    | inr n ↦ n
  ]

  free-ne-prev : (a : Ptr) → has a ds ≡ true → a ≢ prev
  free-ne-prev a mem e = absurd (omega (arith, prev-low, high, t.idle a mem, ap (key_at h) e))

  -- The machine before the descriptor is freed, with any process blocks.
  abbrev passed : Store Pcb → Machine
  passed k = record m { pcbs = k; semds = bypassed h s prev q m.semd_free_h }

  passed-IsFree : (k : Store Pcb) → IsFree (passed k) ds
  passed-IsFree k = record {
    chain =
        Frees-same h (passed k).semds m.semd_free_h ds
          (λ a mem.
            bypassed-other h s prev q m.semd_free_h ls at_prev.0 prev-ne a
              (ne_of_has a s ds mem new) (free-ne-prev a mem))
          (live-bypassed h s prev q m.semd_free_h) t.free.chain;
    distinct = t.free.distinct;
  }

  freeing :
      (k : Store Pcb)
      → (free_semd s (passed k) ≡ ok tt (with_freed s (passed k)))
        × IsFree (with_freed s (passed k)) (s ∷ ds)
  freeing k =
      free_semd-cons (passed k) s ds (passed-IsFree k)
        (live-bypassed h s prev q m.semd_free_h s ∙ ls) new

  pub leave-runs :
      (k : Store Pcb)
      → retire_if_empty prev s (record m { pcbs = k; semds = upd h s (with_proc_q q) })
        ≡ ok tt (record m { pcbs = k; semds = g; semd_free_h = s })
  leave-runs k =
      let n = record m { pcbs = k; semds = upd h s (with_proc_q q) } in
      rw
        (
          load_semd-ok n s (simp live-upd ls),
          drained-empty h s prev q m.semd_free_h ls at_prev.0 prev-ne,
          subst (λ x. (x == null) ≡ true) (sym drains) (==_self null),
          modify_semd-ok n prev (simp live-upd at_prev.0),
          (freeing k).0,
        )
        refl

  far : (b : Ptr) → key_at h b ≢ i → key_at h b < max_int → b ≢ s
  far b n u e = n (ap (key_at h) e ∙ ks)

  hi-ne : hi ≢ s
  hi-ne e = absurd (omega (arith, t.asl.hi_key, ks, high, ap (key_at h) e))

  lo-ne : lo ≢ s
  lo-ne e = absurd (omega (arith, t.lo_key, ks, low, ap (key_at h) e))

  abbrev left : Store Pcb → Machine
  left k = record m { pcbs = k; semds = g; semd_free_h = s }

  leave-IsAsl : (k : Store Pcb) → Keeps m.pcbs k i → IsAsl (left k) lo hi (without i es)
  leave-IsAsl k c = record {
    starts = t.asl.starts;
    lo_live = sp.same_live lo ∙ t.asl.lo_live;
    hi_live = sp.same_live hi ∙ t.asl.hi_live;
    hi_key = sp.same_key hi hi-ne ∙ t.asl.hi_key;
    descs =
        Descs-without h g hi s prev i sp high
          (unlinked-skip h s prev q m.semd_free_h ls at_prev.0 prev-ne) t.asl.hi_key ks lo min_int
          es t.lo_key t.above t.asl.descs low refl refl;
    rises = Above-Rises min_int (without i es) (Above-without min_int i es t.above);
    waits =
        Waits-without h g m.pcbs k i c s prev hi sp far min_int (after h lo) es t.above t.asl.descs
          t.asl.waits;
    few = omega (arith, t.asl.few, length-without i es some);
  }

  idle-left : (a : Ptr) → has a (s ∷ ds) ≡ true → key_at g a ≡ null
  idle-left a mem = elim (Bool-cases (a == s)) [
    | inl e ↦
        ap (key_at g) (eq_of_== a s e) ∙ unlinked-idle h s prev q m.semd_free_h ls at_prev.0 prev-ne
    | inr n ↦ sp.same_key a (ne_of_== a s n) ∙ t.idle a (ground (arith, mem, n))
  ]

  pub leave-IsTable :
      (k : Store Pcb) → Keeps m.pcbs k i → IsTable (left k) lo hi (without i es) (s ∷ ds)
  leave-IsTable k c = record {
    asl = leave-IsAsl k c;
    free = record { chain = (freeing k).1.chain; distinct = (freeing k).1.distinct };
    lo_key = sp.same_key lo lo-ne ∙ t.lo_key;
    above = Above-without min_int i es t.above;
    apart = ground (arith, t.apart, hi-ne);
    idle = idle-left;
    total = omega (arith, t.total, length-without i es some);
  }
