-- ===== src/Pcb/Queue/Detach.antt =====
-- Two blocks joined over the one between them, and the end of every removal: `p_next = NULL; p_prev = NULL` in the block taken out.
use patrick_landon_os.Base.{◌≡◌, ◌∙◌, true, ◌==◌, if◌then◌else◌, List, has, arith}
use patrick_landon_os.Machine.Memory.{Ptr, null, Store, live, upd, live-upd}
use patrick_landon_os.Types.{Pcb}
use patrick_landon_os.Machine.{Machine, ok, set_pcbs}
use patrick_landon_os.Machine.Lemmas.{modify_pcb-ok}
use patrick_landon_os.Pcb.Queue.{with_next, with_prev, detach}
use patrick_landon_os.Pcb.Queue.Links.{
  next, prev, Relinked, next-with_next, prev-with_next, next-with_prev, prev-with_prev,
  Relinked-with_next, Relinked-with_prev, Relinked-trans,
}

pub detached : Store Pcb → Ptr → Store Pcb
detached h x = upd (upd h x (with_next null)) x (with_prev null)

module _ (h : Store Pcb) (x : Ptr) (e : live h x ≡ true) where
  pub next-detached : (a : Ptr) → next (detached h x) a ≡ (if a == x then null else next h a)
  unfolding detached
  next-detached a =
      next-with_prev (upd h x (with_next null)) x null (simp live-upd e) a
      ∙ next-with_next h x null e a

  pub prev-detached : (a : Ptr) → prev (detached h x) a ≡ (if a == x then null else prev h a)
  unfolding detached
  prev-detached a = ground (
    arith,
    prev-with_prev (upd h x (with_next null)) x null (simp live-upd e) a,
    prev-with_next h x null e a,
  )

  pub Relinked-detached : (ys : List Ptr) → has x ys ≡ true → Relinked ys h (detached h x)
  unfolding detached
  Relinked-detached ys i =
      Relinked-trans (Relinked-with_next h x null e ys i)
        (Relinked-with_prev (upd h x (with_next null)) x null (simp live-upd e) ys i)

  pub detach-ok : (m : Machine) → detach x (set_pcbs h m) ≡ ok tt (set_pcbs (detached h x) m)
  unfolding detached
  detach-ok m = rw (
    modify_pcb-ok (set_pcbs h m) x e,
    modify_pcb-ok (set_pcbs (upd h x (with_next null)) m) x (simp live-upd e),
  )

-- The block between `t` and `y` is taken out of the chain.
abbrev pub skipped₁ : Store Pcb → (t y : Ptr) → Store Pcb
skipped₁ h t y = upd h t (with_next y)

unfoldable pub skipped : Store Pcb → (t y : Ptr) → Store Pcb
skipped h t y = upd (skipped₁ h t y) y (with_prev t)

module _ (h : Store Pcb) (t y : Ptr) (lt : live h t ≡ true) (ly : live h y ≡ true) where
  pub next-skipped : (a : Ptr) → next (skipped h t y) a ≡ (if a == t then y else next h a)
  unfolding skipped
  next-skipped a =
      next-with_prev (skipped₁ h t y) y t (simp live-upd ly) a ∙ next-with_next h t y lt a

  pub prev-skipped : (a : Ptr) → prev (skipped h t y) a ≡ (if a == y then t else prev h a)
  unfolding skipped
  prev-skipped a =
      ground
        (arith, prev-with_prev (skipped₁ h t y) y t (simp live-upd ly) a, prev-with_next h t y lt a)

  pub Relinked-skipped :
      (ys : List Ptr) → has t ys ≡ true → has y ys ≡ true → Relinked ys h (skipped h t y)
  unfolding skipped
  Relinked-skipped ys it iy =
      Relinked-trans (Relinked-with_next h t y lt ys it)
        (Relinked-with_prev (skipped₁ h t y) y t (simp live-upd ly) ys iy)

  pub live-skipped : (a : Ptr) → live (skipped h t y) a ≡ live h a
  unfolding skipped
  live-skipped a = simp live-upd
