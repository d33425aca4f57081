-- ===== src/Asl/Retire.antt =====
-- The end of `removeBlocked` and of `outBlocked`: the descriptor is freed if its queue is empty.
use patrick_landon_os.Base.{◌≡◌, ◌≢◌, ◌<◌, refl, true, false, List, [], ◌∷◌, has, ◌∙◌, sym, ==_ne}
use patrick_landon_os.Const.{max_int, min_int}
use patrick_landon_os.Types.{Semd, Pcb, blank_pcb, blank_semd}
use patrick_landon_os.Machine.{Machine, Cmd, ok, pure, ◌>>◌, modify_semd, modify_pcb, set_pcbs}
use patrick_landon_os.Machine.Memory.{
  Ptr, Store, null, live, get, upd, live-upd, get-upd_self, live-ne,
}
use patrick_landon_os.Asl.{retire_if_empty, with_proc_q, with_sem_add}
use patrick_landon_os.Asl.Entries.{
  Entry, place, place_before, sem_at, key_at, waiting_on, update, after,
}
use patrick_landon_os.Asl.Table.{IsTable, IsTable-requeue}
use patrick_landon_os.Asl.Withdraw.{
  Taken, freed, lx, freed-Keeps, freed-none, freed-live, freed-outside, freed-state, freed-Requeued,
}
use patrick_landon_os.Asl.Insert.{place-waiting_on}
use patrick_landon_os.Asl.Unlink.{unlinked}
use patrick_landon_os.Asl.Order.{without, waiting_on-without, waiting_on-without_other}
use patrick_landon_os.Machine.Lemmas.{modify_semd-ok, modify_pcb-ok, load_semd-ok}
use patrick_landon_os.Asl.Leave.{leave-runs, leave-IsTable}
use patrick_landon_os.Pcb.Queue.Links.{tail-live}
use patrick_landon_os.Asl.Requeue.{IsAsl-update, waiting_on-update, waiting_on-update_other}

-- What is done once `x` is out of the queue of the descriptor `s`.
abbrev pub withdraw : (s prev tail x : Ptr) → Cmd Ptr
withdraw s prev tail x = do
  modify_semd s (with_proc_q tail)
  retire_if_empty prev s
  modify_pcb x (with_sem_add null)
  pure x

-- What this leaves behind, when `zs` still wait on the semaphore `i`; `op` is run in `m`.
pub record Withdrawn (op : Cmd Ptr) (m : Machine) (lo hi i x : Ptr) (zs : List Ptr)
    (es : List Entry) : Type 0 where
  pub heap : Store Pcb
  pub table : Store Semd
  pub head : Ptr
  pub line : List Entry
  pub rest : List Ptr
  pub runs : op m ≡ ok x (record m { pcbs = heap; semds = table; semd_free_h = head })
  pub state : IsTable (record m { pcbs = heap; semds = table; semd_free_h = head }) lo hi line rest
  pub waiters : waiting_on i line ≡ zs
  pub others : (j : Ptr) → j ≢ i → waiting_on j line ≡ waiting_on j es
  pub no_sem : sem_at heap x ≡ null
  pub alive : live heap x ≡ true
  pub same_live : (a : Ptr) → live heap a ≡ live m.pcbs a
  pub outside : (a : Ptr) → has a (x ∷ zs) ≡ false → get blank_pcb heap a ≡ get blank_pcb m.pcbs a
  pub same_state : (a : Ptr) → (get blank_pcb heap a).p_s ≡ (get blank_pcb m.pcbs a).p_s

module _ (m : Machine) (lo hi i x tail : Ptr) (k : Store Pcb) (es : List Entry) (ds : List Ptr)
    (t : IsTable m lo hi es ds) (low : min_int < i) (high : i < max_int)
    (ls : live m.semds (place hi i es) ≡ true) (ks : key_at m.semds (place hi i es) ≡ i) where
  abbrev tail_part : Cmd Ptr
  tail_part n = withdraw (place hi i es) (place_before lo i es) tail x (set_pcbs k n)

  some : waiting_on i es ≢ []
  some =
      place-waiting_on m.semds m.pcbs hi i (after m.semds lo) es t.asl.hi_key high t.asl.descs
        t.asl.waits ks

  pub withdraw-Withdrawn :
      (zs : List Ptr) → Taken m.pcbs k i x tail zs → Withdrawn tail_part m lo hi i x zs es
  withdraw-Withdrawn [] c =
      let empty : tail ≡ null = sym c.queue.tail in
      let n = record m {
        pcbs = k;
        semds = unlinked m.semds (place hi i es) (place_before lo i es) tail m.semd_free_h;
        semd_free_h = place hi i es;
      } in
      record {
        heap = freed c;
        table = n.semds;
        head = place hi i es;
        line = without i es;
        rest = place hi i es ∷ ds;
        runs =
            rw
              (
                modify_semd-ok (set_pcbs k m) (place hi i es) ls,
                leave-runs m lo hi i ds es t low high ls ks tail empty some k,
                modify_pcb-ok n x (lx c),
              )
              refl;
        state =
            leave-IsTable m lo hi i ds es t low high ls ks tail empty some (freed c)
              (freed-Keeps c);
        waiters = waiting_on-without min_int i es t.above;
        others = λ j ne. waiting_on-without_other i j es ne;
        no_sem = freed-none c;
        alive = freed-live c x ∙ c.alive;
        same_live = freed-live c;
        outside = freed-outside c;
        same_state = freed-state c;
      }
  withdraw-Withdrawn (z ∷ zs) c =
      let s = place hi i es in
      let n = record m { pcbs = k; semds = upd m.semds s (with_proc_q tail) } in
      record {
        heap = freed c;
        table = n.semds;
        head = m.semd_free_h;
        line = update i (z ∷ zs) es;
        rest = ds;
        runs =
            rw
              (
                modify_semd-ok (set_pcbs k m) s ls,
                load_semd-ok n s (simp live-upd ls),
                get-upd_self blank_semd m.semds s (with_proc_q tail) ls,
                ==_ne tail null (live-ne k tail (tail-live c.queue)),
                modify_pcb-ok n x (lx c),
              )
              refl;
        state = IsTable-requeue m lo hi i tail (z ∷ zs) es ds (freed c) n.semds t ls ks high refl (
            IsAsl-update m lo hi i tail (z ∷ zs) es (freed c) t.asl ls ks
              (freed-Requeued c (λ q. cc)));
        waiters = waiting_on-update i (z ∷ zs) es some;
        others = λ j ne. waiting_on-update_other i j (z ∷ zs) es ne;
        no_sem = freed-none c;
        alive = freed-live c x ∙ c.alive;
        same_live = freed-live c;
        outside = freed-outside c;
        same_state = freed-state c;
      }

-- Another command that does the same.
pub Withdrawn-op :
    {op c : Cmd Ptr} {m : Machine} {lo hi i x : Ptr} {zs : List Ptr} {es : List Entry}
    → c m ≡ op m
    → Withdrawn op m lo hi i x zs es
    → Withdrawn c m lo hi i x zs es
Withdrawn-op e w = record {
  heap = w.heap;
  table = w.table;
  head = w.head;
  line = w.line;
  rest = w.rest;
  runs = e ∙ w.runs;
  state = w.state;
  waiters = w.waiters;
  others = w.others;
  no_sem = w.no_sem;
  alive = w.alive;
  same_live = w.same_live;
  outside = w.outside;
  same_state = w.same_state;
}
