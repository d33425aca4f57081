-- ===== src/Asl/Enter.antt =====
-- `insertBlocked` on a semaphore that no process waits on: a free descriptor comes in.
use patrick_landon_os.Base.{
  ◌≡◌, ◌≢◌, ◌<◌, List, [], ◌∷◌, arith, ◌∙◌, true, ap, sym, false, ==_ne, has, ◌++◌, ne_of_has,
  subst, refl,
}
use patrick_landon_os.Const.{max_int, min_int}
use patrick_landon_os.Types.{Semd, Pcb, blank_semd, blank_pcb}
use patrick_landon_os.Machine.{Machine, set_pcbs, ok, continue, pure}
use patrick_landon_os.Machine.Memory.{Ptr, Store, null, live, live-ne, upd, live-upd, get}
use patrick_landon_os.Asl.Entries.{
  Entry, place, place_before, sem_at, key_at, after, queue_at, IsAsl, waiting_on,
}
use patrick_landon_os.Asl.Table.{IsTable, place-Absent, Keeps, Waits-enter}
use patrick_landon_os.Asl.Link.{
  entered, live-linked, linked, entered-Spliced, linked-queue, made, live-made, live-before,
  entered-other, entered-linked, entered-on, entered-named, entered-queue,
}
use patrick_landon_os.Pcb.Queue.Links.{IsQueue}
use patrick_landon_os.Asl.Order.{
  Absent, enter, waiting_on-enter, Above, Above-enter, length-enter, waiting_on-Absent,
  waiting_on-enter_other, Above-Rises,
}
use patrick_landon_os.Asl.Splice.{key_at-place_before, Spliced, Descs-enter}
use patrick_landon_os.Asl.Find.{after-place_before, find_a_semd-place_before}
use patrick_landon_os.Asl.FreeList.{IsFree, alloc_semd-cons, filled, Frees-same}
use patrick_landon_os.Pcb.Queue.Insert.{Inserted}
use patrick_landon_os.Asl.{insert_blocked, with_sem_add, false, with_s_next, pure, Pcb}
use patrick_landon_os.Asl.Update.{Requeued}
use patrick_landon_os.Asl.Block.{named-Requeued, ins, insert_at-runs, outside_line, state-ins}
use patrick_landon_os.Machine.Lemmas.{load_semd-ok, modify_pcb-ok, modify_semd-ok}

-- What `insertBlocked` leaves behind.
pub record Enlisted (m : Machine) (lo hi i p : Ptr) (es : List Entry) (ds : List Ptr) : Type 0 where
  pub heap : Store Pcb
  pub table : Store Semd
  pub head : Ptr
  pub line : List Entry
  pub rest : List Ptr
  pub runs :
      insert_blocked i p m ≡ ok false (record m { pcbs = heap; semds = table; semd_free_h = head })
  pub state : IsTable (record m { pcbs = heap; semds = table; semd_free_h = head }) lo hi line rest
  pub waiters : waiting_on i line ≡ waiting_on i es ++ p ∷ []
  pub others : (j : Ptr) → j ≢ i → waiting_on j line ≡ waiting_on j es
  pub same_live : (a : Ptr) → live heap a ≡ live m.pcbs a
  pub outside :
      (a : Ptr)
      → has a (p ∷ waiting_on i es) ≡ false
      → get blank_pcb heap a ≡ get blank_pcb m.pcbs a
  pub same_state : (a : Ptr) → (get blank_pcb heap a).p_s ≡ (get blank_pcb m.pcbs a).p_s

module _ (m : Machine) (lo hi i p s : Ptr) (ds : List Ptr) (es : List Entry)
    (t : IsTable m lo hi es (s ∷ ds)) (low : min_int < i) (high : i < max_int)
    (lc : live m.semds (place hi i es) ≡ true) (absent : key_at m.semds (place hi i es) ≢ i)
    (lp : live m.pcbs p ≡ true) (fp : sem_at m.pcbs p ≡ null) where
  abbrev prev : Ptr
  prev = place_before lo i es

  abbrev cur : Ptr
  cur = place hi i es

  abbrev h : Store Semd
  h = m.semds

  ls : live h s ≡ true
  ls = t.free.chain.1

  at_prev : (live h prev ≡ true) × (after h prev ≡ cur)
  at_prev =
      after-place_before m hi i t.asl.hi_live t.asl.hi_key (omega (arith, high)) lo es t.asl.lo_live
        t.asl.descs

  spare : key_at h s ≡ max_int
  spare = t.idle s (ground arith)

  prev-ne : prev ≢ s
  prev-ne q =
      let r = key_at-place_before h hi i lo min_int es t.lo_key t.above t.asl.descs low in
      absurd (omega (arith, r.1, high, spare, ap (key_at h) q))

  out : Absent i es
  out = place-Absent h hi i min_int (after h lo) es t.above t.asl.descs absent

  -- The machine where the descriptor is linked in, with an empty queue.
  abbrev ready : Machine
  ready = record m { semds = linked h s prev cur i; semd_free_h = after h s }

  sp : Spliced h (entered h s prev cur i p) s prev
  sp = entered-Spliced h s prev cur i ls at_prev.0 prev-ne p

  blank : IsQueue m.pcbs (queue_at (linked h s prev cur i) s) []
  blank = record {
    tail = sym (linked-queue h s prev cur i ls at_prev.0 prev-ne);
    links = tt;
    distinct = tt;
    lives = λ a mem. cc;
  }

  ready-live : live ready.semds s ≡ true
  ready-live = live-linked h s prev cur i s ∙ ls

  added : Inserted (set_pcbs (upd m.pcbs p (with_sem_add i)) ready) (queue_at ready.semds s) p []
  added = ins ready s i p [] ready-live blank (λ a mem. cc) high lp fp

  requeued : Requeued m.pcbs added.heap i p (p ∷ [])
  unfolding added
  requeued = named-Requeued ready s i p [] ready-live blank (λ a mem. cc) high lp fp

  after_enter : Machine
  unfolding added
  after_enter = record m {
    pcbs = added.heap;
    semds = entered h s prev cur i p;
    semd_free_h = after h s;
  }

  list : IsFree (set_pcbs (upd m.pcbs p (with_sem_add i)) m) (s ∷ ds)
  list = record { chain = t.free.chain; distinct = t.free.distinct }

  abbrev x0 : Machine
  x0 = set_pcbs (upd m.pcbs p (with_sem_add i)) m

  abbrev x1 : Machine
  x1 = record x0 { semds = upd h s (filled i); semd_free_h = after h s }

  abbrev x2 : Machine
  x2 = record x1 { semds = made h s prev cur i }

  abbrev x3 : Machine
  x3 = record x2 { semds = upd (made h s prev cur i) prev (with_s_next s) }

  enter-runs : insert_blocked i p m ≡ ok false after_enter
  unfolding insert_blocked after_enter added
  enter-runs =
      rw
        (
          find_a_semd-place_before m lo hi i es t.asl (omega (arith, high)),
          load_semd-ok m prev at_prev.0,
          ==_ne p null (live-ne m.pcbs p lp),
          at_prev.1,
          load_semd-ok m cur lc,
          ==_ne i (key_at h cur) (λ q. absent (sym q)),
          ==_ne m.semd_free_h null (λ q. live-ne h s ls (sym t.free.chain.0 ∙ q)),
          modify_pcb-ok m p lp,
          (alloc_semd-cons (set_pcbs (upd m.pcbs p (with_sem_add i)) m) i s ds list).0,
          modify_semd-ok x1 s (simp live-upd ls),
          modify_semd-ok x2 prev (live-made h s prev cur i prev ∙ at_prev.0),
          modify_semd-ok x3 s (live-before h s prev cur i s ∙ ls),
        )
        (ap (λ r. continue r (λ _. pure false))
          (insert_at-runs ready s i p [] ready-live blank (λ a mem. cc) high lp fp))

  held : Keeps m.pcbs added.heap i
  held = record { same_live = requeued.same_live; outside = requeued.outside }

  far : (b : Ptr) → key_at h b ≢ i → key_at h b < max_int → b ≢ s
  far b n u q = absurd (omega (arith, u, spare, ap (key_at h) q))

  free-same :
      (a : Ptr) → has a ds ≡ true → get blank_semd (entered h s prev cur i p) a ≡ get blank_semd h a
  free-same a mem =
      let r = key_at-place_before h hi i lo min_int es t.lo_key t.above t.asl.descs low in
      entered-other h s prev cur i ls at_prev.0 prev-ne p a (ne_of_has a s ds mem t.free.distinct.0)
        (λ q. absurd (omega (arith, r.1, high, t.idle a (ground (arith, mem)), ap (key_at h) q)))

  hi-ne : hi ≢ s
  hi-ne q = absurd (ground (arith, q, t.apart))

  lo-ne : lo ≢ s
  lo-ne q = absurd (omega (arith, t.lo_key, spare, ap (key_at h) q))

  enter-IsAsl : IsAsl after_enter lo hi (enter i s (p ∷ []) es)
  unfolding after_enter
  enter-IsAsl = record {
    starts = t.asl.starts;
    lo_live = sp.same_live lo ∙ t.asl.lo_live;
    hi_live = sp.same_live hi ∙ t.asl.hi_live;
    hi_key = sp.same_key hi hi-ne ∙ t.asl.hi_key;
    descs =
        Descs-enter h (entered h s prev cur i p) hi s prev i sp high cur (p ∷ []) spare
          (entered-linked h s prev cur i ls at_prev.0 prev-ne p)
          (entered-on h s prev cur i ls at_prev.0 prev-ne p)
          (entered-named h s prev cur i ls at_prev.0 prev-ne p) lo min_int es t.lo_key t.above
          t.asl.descs low ls refl refl;
    rises = Above-Rises min_int (enter i s (p ∷ []) es) now_above;
    waits =
        Waits-enter h (entered h s prev cur i p) m.pcbs added.heap i held s prev hi sp far min_int
          (after h lo) (p ∷ []) es t.above out t.asl.descs t.asl.waits
          (
            subst (λ q. IsQueue added.heap q (p ∷ []))
                (sym (entered-queue h s prev cur i ls at_prev.0 prev-ne p)) requeued.queue,
            requeued.some,
            requeued.owned,
          );
    few = omega (arith, t.total, length-enter i s (p ∷ []) es);
  }
    where
      now_above : Above min_int (enter i s (p ∷ []) es)
      now_above = Above-enter min_int i s (p ∷ []) es low high out t.above

  enter-IsTable : IsTable after_enter lo hi (enter i s (p ∷ []) es) ds
  unfolding after_enter
  enter-IsTable = record {
    asl = enter-IsAsl;
    free = record {
      chain =
          Frees-same h (entered h s prev cur i p) (after h s) ds free-same sp.same_live
            t.free.chain.2;
      distinct = t.free.distinct.1;
    };
    lo_key = sp.same_key lo lo-ne ∙ t.lo_key;
    above = Above-enter min_int i s (p ∷ []) es low high out t.above;
    apart = ground (arith, t.apart);
    idle =
        λ a mem. ap (λ (d : Semd). d.s_sem_add) (free-same a mem) ∙ t.idle a (ground (arith, mem));
    total = omega (arith, t.total, length-enter i s (p ∷ []) es);
  }

  pub enter-Enlisted : Enlisted m lo hi i p es (s ∷ ds)
  unfolding added after_enter
  enter-Enlisted = record {
    heap = added.heap;
    table = entered h s prev cur i p;
    head = after h s;
    line = enter i s (p ∷ []) es;
    rest = ds;
    runs = enter-runs;
    state = enter-IsTable;
    waiters =
        waiting_on-enter i s (p ∷ []) es out
        ∙ ap (λ zs. zs ++ p ∷ []) (sym (waiting_on-Absent i es out));
    others = λ j ne. waiting_on-enter_other i j s (p ∷ []) es ne;
    same_live = requeued.same_live;
    outside = λ a n.
        outside_line ready s i p [] ready-live blank (λ b mem. cc) high lp fp a (ground (arith, n));
    same_state = state-ins ready s i p [] ready-live blank (λ b mem. cc) high lp fp;
  }
