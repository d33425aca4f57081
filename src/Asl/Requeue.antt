-- ===== src/Asl/Requeue.antt =====
-- The active semaphore list of a machine, where the queue of one semaphore changes.
use patrick_landon_os.Base.{
  ◌≡◌, ◌≢◌, refl, sym, ◌∙◌, true, List, [], ◌∷◌, arith, ◌==◌, subst, Bool-cases, inl, inr, ◌≤◌,
}
use patrick_landon_os.Asl.{with_proc_q, Ptr, Pcb, max_proc}
use patrick_landon_os.Asl.Update.{
  Requeued, after-with_proc_q, key_at-with_proc_q, Descs-update, Rises-update, Waits-update,
  place-Owns, length-update,
}
use patrick_landon_os.Machine.{Machine}
use patrick_landon_os.Machine.Memory.{Ptr, Store, live, upd, live-upd}
use patrick_landon_os.Asl.Entries.{after, Entry, waiting_on, update, IsAsl, place, key_at, Descs}
use patrick_landon_os.Types.{Pcb}
use patrick_landon_os.Const.{max_proc}

pub IsAsl-update :
    (m : Machine) (lo hi i t : Ptr) (zs : List Ptr) (es : List Entry) (g : Store Pcb)
    → IsAsl m lo hi es
    → live m.semds (place hi i es) ≡ true
    → key_at m.semds (place hi i es) ≡ i
    → Requeued m.pcbs g i t zs
    → IsAsl
        (record m { pcbs = g; semds = upd m.semds (place hi i es) (with_proc_q t) })
        lo
        hi
        (update i zs es)
IsAsl-update m lo hi i t zs es g l ls ks c =
    let s = place hi i es in
    record {
      starts = l.starts;
      lo_live = simp live-upd l.lo_live;
      hi_live = simp live-upd l.hi_live;
      hi_key = key_at-with_proc_q m.semds s t ls hi ∙ l.hi_key;
      descs =
          subst (λ n. Descs (upd m.semds s (with_proc_q t)) hi n (update i zs es))
            (sym (after-with_proc_q m.semds s t ls lo))
            (Descs-update m.semds s t ls hi i (after m.semds lo) zs es l.descs);
      rises = Rises-update i zs es l.rises;
      waits =
          Waits-update m.semds s i t ls ks m.pcbs g zs c hi (after m.semds lo) es l.descs l.rises
            (place-Owns hi i es l.rises) l.waits;
      few = subst (λ n. n ≤ max_proc) (sym (length-update i zs es)) l.few;
    }

pub waiting_on-update :
    (i : Ptr) (zs : List Ptr) (es : List Entry)
    → waiting_on i es ≢ []
    → waiting_on i (update i zs es) ≡ zs
waiting_on-update i zs [] ne = absurd (ne refl)
waiting_on-update i zs (e ∷ es) ne = elim (Bool-cases (e.key == i)) [
  | inl eq ↦ rw eq refl
  | inr n ↦ rw n (waiting_on-update i zs es (λ q. ne (rw n q)))
]

pub waiting_on-update_other :
    (i j : Ptr) (zs : List Ptr) (es : List Entry)
    → j ≢ i
    → waiting_on j (update i zs es) ≡ waiting_on j es
waiting_on-update_other i j zs [] ne = refl
waiting_on-update_other i j zs (e ∷ es) ne =
    ground (arith, waiting_on-update_other i j zs es ne, ne)
