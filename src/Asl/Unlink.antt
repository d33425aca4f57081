-- ===== src/Asl/Unlink.antt =====
-- The descriptor of a semaphore that is unlinked from the active semaphore list and freed.
use patrick_landon_os.Base.{◌≡◌, ◌≢◌, true, arith, ◌==◌, if◌then◌else◌, ◌∙◌}
use patrick_landon_os.Types.{Semd, blank_semd}
use patrick_landon_os.Machine.Memory.{Ptr, Store, null, live, get, upd, live-upd, get-upd}
use patrick_landon_os.Asl.{with_s_next, with_proc_q}
use patrick_landon_os.Asl.FreeList.{emptied}
use patrick_landon_os.Asl.Entries.{after, key_at, queue_at}
use patrick_landon_os.Asl.Splice.{Spliced}

-- The queue of `s` is set to `q`, `prev` points past `s`, and `s` comes before `head`.
module _ (h : Store Semd) (s prev q head : Ptr) where
  abbrev pub drained : Store Semd
  drained = upd h s (with_proc_q q)

  abbrev pub bypassed : Store Semd
  bypassed = upd drained prev (with_s_next (after drained s))

  abbrev pub unlinked : Store Semd
  unlinked = upd bypassed s (emptied head)

  pub live-bypassed : (a : Ptr) → live bypassed a ≡ live h a
  live-bypassed a =
      live-upd drained prev (with_s_next (after drained s)) a ∙ live-upd h s (with_proc_q q) a

  pub live-unlinked : (a : Ptr) → live unlinked a ≡ live h a
  live-unlinked a = live-upd bypassed s (emptied head) a ∙ live-bypassed a

  module _ (ls : live h s ≡ true) (lp : live h prev ≡ true) (ne : prev ≢ s) where
    get-drained :
        (a : Ptr)
        → get blank_semd drained a
          ≡ (if a == s then with_proc_q q (get blank_semd h a) else get blank_semd h a)
    get-drained a = get-upd blank_semd h s (with_proc_q q) a ls

    get-bypassed :
        (a : Ptr)
        → get blank_semd bypassed a ≡ (
            if a == prev
            then with_s_next (after drained s) (get blank_semd drained a)
            else get blank_semd drained a)
    get-bypassed a =
        get-upd blank_semd drained prev (with_s_next (after drained s)) a
          (live-upd h s (with_proc_q q) prev ∙ lp)

    get-unlinked :
        (a : Ptr)
        → get blank_semd unlinked a
          ≡ (if a == s then emptied head (get blank_semd bypassed a) else get blank_semd bypassed a)
    get-unlinked a = get-upd blank_semd bypassed s (emptied head) a (live-bypassed s ∙ ls)

    pub unlinked-Spliced : Spliced h unlinked s prev
    unlinked-Spliced = record {
      same_live = live-unlinked;
      same_key = λ a n. ground (arith, n, get-unlinked a, get-bypassed a, get-drained a);
      same_queue = λ a n. ground (arith, n, get-unlinked a, get-bypassed a, get-drained a);
      same_after = λ a n k. ground (arith, n, k, get-unlinked a, get-bypassed a, get-drained a);
    }

    pub unlinked-skip : after unlinked prev ≡ after h s
    unlinked-skip =
        ground (arith, ne, get-unlinked prev, get-bypassed prev, get-drained prev, get-drained s)

    pub unlinked-idle : key_at unlinked s ≡ null
    unlinked-idle = ground (arith, get-unlinked s)

    pub bypassed-other :
        (a : Ptr) → a ≢ s → a ≢ prev → get blank_semd bypassed a ≡ get blank_semd h a
    bypassed-other a n k = ground (arith, n, k, get-bypassed a, get-drained a)

    pub unlinked-other :
        (a : Ptr) → a ≢ s → a ≢ prev → get blank_semd unlinked a ≡ get blank_semd h a
    unlinked-other a n k = ground (arith, n, k, get-unlinked a, get-bypassed a, get-drained a)

    pub drained-empty : queue_at drained s ≡ q
    drained-empty = ground (arith, get-drained s)
