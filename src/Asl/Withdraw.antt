-- ===== src/Asl/Withdraw.antt =====
-- A process that is taken out of the queue of its semaphore is then blocked on nothing.
use patrick_landon_os.Base.{
  ◌≡◌, ◌≢◌, true, false, List, [], ◌∷◌, has, arith, ◌∙◌, ap, Bool-cases, inl, inr, ne_of_has,
}
use patrick_landon_os.Types.{Pcb, blank_pcb}
use patrick_landon_os.Machine.Memory.{
  Ptr, Store, null, live, get, upd, get-upd, live-upd, get-upd_self,
}
use patrick_landon_os.Pcb.Queue.Links.{IsQueue, IsQueue-same, Relinked}
use patrick_landon_os.Asl.{with_sem_add}
use patrick_landon_os.Asl.Entries.{sem_at}
use patrick_landon_os.Asl.Update.{Requeued}
use patrick_landon_os.Asl.Table.{Keeps}

-- The queue of `x` and `zs`, processes of the semaphore `i`, is relinked to hold `zs` alone.
pub record Taken (h k : Store Pcb) (i x tail : Ptr) (zs : List Ptr) : Type 0 where
  pub queue : IsQueue k tail zs
  pub frame : Relinked (x ∷ zs) h k
  pub alive : live h x ≡ true
  pub new : has x zs ≡ false
  pub own : (a : Ptr) → has a (x ∷ zs) ≡ true → sem_at h a ≡ i

module _ {h k : Store Pcb} {i x tail : Ptr} {zs : List Ptr} (c : Taken h k i x tail zs) where
  abbrev pub freed : Store Pcb
  freed = upd k x (with_sem_add null)

  pub lx : live k x ≡ true
  lx = c.frame.same_live x ∙ c.alive

  get-freed : (a : Ptr) → a ≢ x → get blank_pcb freed a ≡ get blank_pcb k a
  get-freed a ne = ground (arith, get-upd blank_pcb k x (with_sem_add null) a lx)

  apart : (a : Ptr) → has a zs ≡ true → a ≢ x
  apart a mem = ne_of_has a x zs mem c.new

  pub freed-live : (a : Ptr) → live freed a ≡ live h a
  freed-live a = live-upd k x (with_sem_add null) a ∙ c.frame.same_live a

  pub freed-outside : (a : Ptr) → has a (x ∷ zs) ≡ false → get blank_pcb freed a ≡ get blank_pcb h a
  freed-outside a n = get-freed a (λ q. absurd (ground (arith, n, q))) ∙ c.frame.outside a n

  pub freed-Keeps : Keeps h freed i
  freed-Keeps = record {
    same_live = freed-live;
    outside = λ a ni nn. elim (Bool-cases (has a (x ∷ zs))) [
      | inl mem ↦ absurd (ni (c.own a mem))
      | inr n ↦ freed-outside a n
    ];
  }

  pub freed-Requeued : zs ≢ [] → Requeued h freed i tail zs
  freed-Requeued some = record {
    queue =
        IsQueue-same zs (λ a mem. get-freed a (apart a mem)) (live-upd k x (with_sem_add null))
          c.queue;
    some = some;
    same_live = freed-live;
    outside = freed-Keeps.outside;
    owned = λ a mem.
        ap (λ (d : Pcb). d.p_sem_add) (get-freed a (apart a mem))
        ∙ ap (λ (d : Pcb). d.p_sem_add) (c.frame.same_core a)
        ∙ c.own a (ground (arith, mem));
  }

  pub freed-none : sem_at freed x ≡ null
  freed-none = ap (λ (d : Pcb). d.p_sem_add) (get-upd_self blank_pcb k x (with_sem_add null) lx)

  pub freed-state : (a : Ptr) → (get blank_pcb freed a).p_s ≡ (get blank_pcb h a).p_s
  freed-state a = state-freed ∙ ap (λ (d : Pcb). d.p_s) (c.frame.same_core a)
    where
      state-freed : (get blank_pcb freed a).p_s ≡ (get blank_pcb k a).p_s
      state-freed = ground (arith, get-upd blank_pcb k x (with_sem_add null) a lx)
