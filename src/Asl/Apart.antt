-- ===== src/Asl/Apart.antt =====
-- The active semaphore list while blocks that wait on nothing are linked elsewhere.
use patrick_landon_os.Base.{
  ◌≡◌, ◌≢◌, ap, ◌∙◌, sym, true, false, List, [], ◌∷◌, has, Bool-cases, inl, inr, subst, refl, arith,
}
use patrick_landon_os.Machine.Memory.{Ptr, Store, null, live, get}
use patrick_landon_os.Machine.{Machine}
use patrick_landon_os.Types.{Pcb, Semd, blank_pcb}
use patrick_landon_os.Pcb.Queue.Links.{IsQueue-same}
use patrick_landon_os.Asl.Entries.{Entry, IsAsl, Waits, sem_at, update, key_at, Descs, after}
use patrick_landon_os.Asl.Table.{IsTable}
use patrick_landon_os.Asl.Order.{Above, Above-below}
use patrick_landon_os.Const.{min_int}
use patrick_landon_os.Asl.FreeList.{Frees}

-- No entry is that of the address NULL.
abbrev pub Used : List Entry → Type 0
Used [] = Unit
Used (e ∷ es) = (e.key ≢ null) × Used es

pub Used-update : (i : Ptr) (zs : List Ptr) (es : List Entry) → Used es → Used (update i zs es)
Used-update i zs [] u = tt
Used-update i zs (e ∷ es) u = (u.0, Used-update i zs es u.1)

-- `g` is `k` but for the blocks `ys`, which wait on nothing in `k`.
pub record Apart (ys : List Ptr) (k g : Store Pcb) : Type 0 where
  pub same_live : (a : Ptr) → live g a ≡ live k a
  pub outside : (a : Ptr) → has a ys ≡ false → get blank_pcb g a ≡ get blank_pcb k a
  pub idle : (a : Ptr) → has a ys ≡ true → sem_at k a ≡ null

module _ {ys : List Ptr} {k g : Store Pcb} (r : Apart ys k g) where
  Waits-Apart : (h : Store Semd) (es : List Entry) → Used es → Waits h k es → Waits h g es
  Waits-Apart h [] u w = tt
  Waits-Apart h (e ∷ es) u w =
      let (q, some, own) = w.0 in
      let apart : ((a : Ptr) → has a e.procs ≡ true → has a ys ≡ false) = λ a mem.
        elim (Bool-cases (has a ys)) [
          | inl other ↦ absurd (u.0 (sym (own a mem) ∙ r.idle a other))
          | inr no_mem ↦ no_mem
        ] in
      (
        (
          IsQueue-same e.procs (λ a mem. r.outside a (apart a mem)) r.same_live q,
          some,
          λ a mem. ap (λ (c : Pcb). c.p_sem_add) (r.outside a (apart a mem)) ∙ own a mem,
        ),
        Waits-Apart h es u.1 w.1,
      )

-- The list is that of `m` in every machine `n` with the same descriptors.
pub IsAsl-Apart :
    {ys : List Ptr} {lo hi : Ptr} {es : List Entry} (m n : Machine)
    → n.semd_active_h ≡ m.semd_active_h
    → n.semds ≡ m.semds
    → Apart ys m.pcbs n.pcbs
    → Used es
    → IsAsl m lo hi es
    → IsAsl n lo hi es
IsAsl-Apart {lo} {hi} {es} m n start same r u l = record {
  starts = start ∙ l.starts;
  lo_live = ap (λ h. live h lo) same ∙ l.lo_live;
  hi_live = ap (λ h. live h hi) same ∙ l.hi_live;
  hi_key = ap (λ h. key_at h hi) same ∙ l.hi_key;
  descs = subst (λ h. Descs h hi (after h lo) es) (sym same) l.descs;
  rises = l.rises;
  waits = subst (λ h. Waits h n.pcbs es) (sym same) (Waits-Apart r m.semds es u l.waits);
  few = l.few;
}

pub Apart-same : (k : Store Pcb) → Apart [] k k
Apart-same k = record { same_live = λ a. refl; outside = λ a n. refl; idle = λ a i. cc }

Above-Used : (k : Ptr) (es : List Entry) → Above k es → Used es
Above-Used k [] b = tt
Above-Used k (e ∷ es) b =
    ((λ q. absurd (omega (arith, q, Above-below e.key es b.1))), Above-Used e.key es b.1)

-- The same of all the descriptors, where the free ones are the same.
pub IsTable-Apart :
    {ys : List Ptr} {lo hi : Ptr} {es : List Entry} {ds : List Ptr} (m n : Machine)
    → n.semd_active_h ≡ m.semd_active_h
    → n.semd_free_h ≡ m.semd_free_h
    → n.semds ≡ m.semds
    → Apart ys m.pcbs n.pcbs
    → IsTable m lo hi es ds
    → IsTable n lo hi es ds
IsTable-Apart {lo} {hi} {es} {ds} m n start head same r t = record {
  asl = IsAsl-Apart m n start same r (Above-Used min_int es t.above) t.asl;
  free = record {
    chain =
        subst (λ h. Frees h n.semd_free_h ds) (sym same)
          (subst (λ a. Frees m.semds a ds) (sym head) t.free.chain);
    distinct = t.free.distinct;
  };
  lo_key = ap (λ h. key_at h lo) same ∙ t.lo_key;
  above = t.above;
  apart = t.apart;
  idle = λ a mem. ap (λ h. key_at h a) same ∙ t.idle a mem;
  total = t.total;
}
