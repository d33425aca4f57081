-- ===== src/Asl/Link.antt =====
-- A free descriptor that is made over to a semaphore and linked into the active semaphore list.
use patrick_landon_os.Asl.FreeList.{filled}
use patrick_landon_os.Base.{◌≡◌, ◌≢◌, arith, ◌==◌, if◌then◌else◌, ◌∙◌, true, ap}
use patrick_landon_os.Types.{Semd, blank_semd}
use patrick_landon_os.Machine.Memory.{
  Ptr, Store, null, live, get, upd, live-upd, get-upd_twice, get-upd, live-upd_twice, get-upd_self,
}
use patrick_landon_os.Pcb.Queue.{mk_empty_proc_q}
use patrick_landon_os.Asl.{with_s_next, with_proc_q, true}
use patrick_landon_os.Asl.Entries.{key_at, queue_at, after}
use patrick_landon_os.Asl.Splice.{Spliced}

-- The descriptor `s`, made over to `i`, linked in between `prev` and `cur`.
module _ (h : Store Semd) (s prev cur i : Ptr) where
  abbrev pub made : Store Semd
  made = upd (upd h s (filled i)) s (with_s_next cur)

  abbrev pub linked : Store Semd
  linked = upd (upd made prev (with_s_next s)) s (with_proc_q mk_empty_proc_q)

  abbrev pub entered : Ptr → Store Semd
  entered q = upd linked s (with_proc_q q)

  pub live-made : (a : Ptr) → live made a ≡ live h a
  live-made a = live-upd_twice h s (filled i) (with_s_next cur) a

  pub live-before : (a : Ptr) → live (upd made prev (with_s_next s)) a ≡ live h a
  live-before a = live-upd made prev (with_s_next s) a ∙ live-made a

  pub live-linked : (a : Ptr) → live linked a ≡ live h a
  live-linked a =
      live-upd (upd made prev (with_s_next s)) s (with_proc_q mk_empty_proc_q) a ∙ live-before a

  module _ (ls : live h s ≡ true) (lp : live h prev ≡ true) (ne : prev ≢ s) where
    get-made :
        (a : Ptr)
        → get blank_semd made a
          ≡ (if a == s then with_s_next cur (filled i (get blank_semd h a)) else get blank_semd h a)
    get-made a = get-upd_twice blank_semd h s (filled i) (with_s_next cur) a ls

    get-before :
        (a : Ptr)
        → get blank_semd (upd made prev (with_s_next s)) a
          ≡ (if a == prev then with_s_next s (get blank_semd made a) else get blank_semd made a)
    get-before a = get-upd blank_semd made prev (with_s_next s) a (live-made prev ∙ lp)

    module _ (q : Ptr) where
      get-entered :
          (a : Ptr)
          → get blank_semd (entered q) a ≡ (
              if a == s
              then with_proc_q q
                  (with_proc_q mk_empty_proc_q (get blank_semd (upd made prev (with_s_next s)) a))
              else get blank_semd (upd made prev (with_s_next s)) a)
      get-entered a =
          get-upd_twice blank_semd (upd made prev (with_s_next s)) s (with_proc_q mk_empty_proc_q)
            (with_proc_q q) a (live-before s ∙ ls)

      pub entered-Spliced : Spliced h (entered q) s prev
      entered-Spliced = record {
        same_live = λ a. live-upd linked s (with_proc_q q) a ∙ live-linked a;
        same_key = λ a n. ground (arith, n, get-entered a, get-before a, get-made a);
        same_queue = λ a n. ground (arith, n, get-entered a, get-before a, get-made a);
        same_after = λ a n k. ground (arith, n, k, get-entered a, get-before a, get-made a);
      }

      pub entered-linked : after (entered q) prev ≡ s
      entered-linked = ground (arith, ne, get-entered prev, get-before prev, get-made prev)

      pub entered-on : after (entered q) s ≡ cur
      entered-on = ground (arith, ne, get-entered s, get-before s, get-made s)

      pub entered-named : key_at (entered q) s ≡ i
      entered-named = ground (arith, ne, get-entered s, get-before s, get-made s)

      pub entered-queue : queue_at (entered q) s ≡ q
      entered-queue = ground (arith, ne, get-entered s, get-before s, get-made s)

      pub entered-other :
          (a : Ptr) → a ≢ s → a ≢ prev → get blank_semd (entered q) a ≡ get blank_semd h a
      entered-other a n k = ground (arith, n, k, get-entered a, get-before a, get-made a)

    pub linked-queue : queue_at linked s ≡ null
    linked-queue =
        ap (λ (d : Semd). d.s_proc_q)
          (get-upd_self blank_semd (upd made prev (with_s_next s)) s (with_proc_q mk_empty_proc_q)
            (live-before s ∙ ls))
