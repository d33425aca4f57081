-- ===== src/Asl/Splice.antt =====
-- The descriptors of the active semaphore list where one is linked in behind another, or unlinked.
use patrick_landon_os.Base.{
  ◌≡◌, ◌≢◌, ◌<◌, ◌≤◌, List, [], ◌∷◌, arith, ltb, Bool-cases, inl, inr, ap, true, ◌∙◌, subst,
  if◌then◌else◌, sym, ==_ne, ==_self,
}
use patrick_landon_os.Const.{max_int}
use patrick_landon_os.Types.{Semd}
use patrick_landon_os.Machine.Memory.{Ptr, Store, live}
use patrick_landon_os.Asl.Entries.{Entry, after, key_at, queue_at, Descs, place_before, place}
use patrick_landon_os.Asl.Order.{Above, enter, without, Above-below}

-- `g` is `h` but for the descriptor `s` and the pointer of `prev`.
pub record Spliced (h g : Store Semd) (s prev : Ptr) : Type 0 where
  pub same_live : (a : Ptr) → live g a ≡ live h a
  pub same_key : (a : Ptr) → a ≢ s → key_at g a ≡ key_at h a
  pub same_queue : (a : Ptr) → a ≢ s → queue_at g a ≡ queue_at h a
  pub same_after : (a : Ptr) → a ≢ s → a ≢ prev → after g a ≡ after h a

module _ (h g : Store Semd) (hi : Ptr) (same_live : (a : Ptr) → live g a ≡ live h a) where
  pub Descs-same :
      (k a : Ptr) (es : List Entry)
      → ((b : Ptr) → k < key_at h b → key_at h b < max_int → after g b ≡ after h b)
      → ((b : Ptr) → k < key_at h b → key_at h b < max_int → key_at g b ≡ key_at h b)
      → Above k es
      → Descs h hi a es
      → Descs g hi a es
  Descs-same k a [] sa sk b d = d
  Descs-same k a (e ∷ es) sa sk b d =
      let low = Above-below e.key es b.1 in
      let kd : (k < key_at h e.desc) = omega (arith, b.0, d.2) in
      let dm : (key_at h e.desc < max_int) = omega (arith, low, d.2) in
      (
        d.0,
        same_live e.desc ∙ d.1,
        sk e.desc kd dm ∙ d.2,
        subst (λ n. Descs g hi n es) (sym (sa e.desc kd dm))
            (Descs-same e.key (after h e.desc) es (λ c l u. sa c (omega (arith, l, b.0)) u)
              (λ c l u. sk c (omega (arith, l, b.0)) u) b.1 d.3),
      )

-- The address of the descriptor before the place of `i` is not below those before it.
pub key_at-place_before :
    (h : Store Semd) (hi i b k : Ptr) (es : List Entry)
    → key_at h b ≡ k
    → Above k es
    → Descs h hi (after h b) es
    → k < i
    → (k ≤ key_at h (place_before b i es)) × (key_at h (place_before b i es) < i)
key_at-place_before h hi i b k [] kb ab d lt = (omega (arith, kb), omega (arith, kb))
key_at-place_before h hi i b k (e ∷ es) kb ab d lt = elim (Bool-cases (ltb e.key i)) [
  | inl l ↦
      let r = key_at-place_before h hi i e.desc e.key es d.2 ab.1 d.3 (ground arith) in
      rw l (omega (arith, r.0, ab.0), r.1)
  | inr g ↦ rw g (omega (arith, kb), omega (arith, kb))
]

module _ (h g : Store Semd) (hi s prev i : Ptr) (c : Spliced h g s prev) (low : i < max_int) where
  -- The descriptor `s`, of no semaphore, comes in behind `prev`.
  module _ (cur : Ptr) (zs : List Ptr) (idle : key_at h s ≡ max_int) (linked : after g prev ≡ s)
      (on : after g s ≡ cur) (named : key_at g s ≡ i) where
    pub Descs-enter :
        (b k : Ptr) (es : List Entry)
        → key_at h b ≡ k
        → Above k es
        → Descs h hi (after h b) es
        → k < i
        → live h s ≡ true
        → place_before b i es ≡ prev
        → place hi i es ≡ cur
        → Descs g hi (after g b) (enter i s zs es)
    Descs-enter b k [] kb ab d lt ls pb pc =
        (ap (after g) pb ∙ linked, c.same_live s ∙ ls, named, on ∙ sym pc)
    Descs-enter b k (e ∷ es) kb ab d lt ls pb pc = elim (Bool-cases (ltb e.key i)) [
      | inl l ↦
          let r = key_at-place_before h hi i e.desc e.key es d.2 ab.1 d.3 (ground arith) in
          let pb' : place_before e.desc i es ≡ prev =
            subst (λ z. (if z then place_before e.desc i es else b) ≡ prev) l pb in
          let pc' : place hi i es ≡ cur =
            subst (λ z. (if z then place hi i es else e.desc) ≡ cur) l pc in
          let far : b ≢ s = λ q. absurd (omega (arith, kb, idle, ap (key_at h) q)) in
          let other : b ≢ prev =
            λ q. absurd (omega (arith, kb, ab.0, r.0, ap (key_at h) (q ∙ sym pb'))) in
          let mine : e.desc ≢ s = λ q. absurd (ground (arith, d.2, idle, ap (key_at h) q)) in
          rw l (
            c.same_after b far other ∙ d.0,
            c.same_live e.desc ∙ d.1,
            c.same_key e.desc mine ∙ d.2,
            Descs-enter e.desc e.key es d.2 ab.1 d.3 (ground arith) ls pb' pc',
          )
      | inr n ↦
          let pb' : b ≡ prev =
            subst (λ z. (if z then place_before e.desc i es else b) ≡ prev) n pb in
          let pc' : e.desc ≡ cur = subst (λ z. (if z then place hi i es else e.desc) ≡ cur) n pc in
          rw n (
            ap (after g) pb' ∙ linked,
            c.same_live s ∙ ls,
            named,
            subst (λ x. Descs g hi x (e ∷ es)) (pc' ∙ sym on)
                (subst (λ x. Descs g hi x (e ∷ es)) d.0
                  (Descs-same h g hi c.same_live k (after h b) (e ∷ es)
                    (λ x l u.
                      c.same_after x (λ q. absurd (omega (arith, u, idle, ap (key_at h) q)))
                        (λ q. absurd (omega (arith, l, kb, ap (key_at h) (q ∙ sym pb')))))
                    (λ x l u. c.same_key x (λ q. absurd (omega (arith, u, idle, ap (key_at h) q))))
                    ab d)),
          )
    ]

  -- The descriptor `s` of the semaphore, behind `prev`, goes out.
  module _ (skip : after g prev ≡ after h s) (hi_key : key_at h hi ≡ max_int)
      (named : key_at h s ≡ i) where
    pub Descs-without :
        (b k : Ptr) (es : List Entry)
        → key_at h b ≡ k
        → Above k es
        → Descs h hi (after h b) es
        → k < i
        → place_before b i es ≡ prev
        → place hi i es ≡ s
        → Descs g hi (after g b) (without i es)
    Descs-without b k [] kb ab d lt pb ps = absurd (omega (arith, named, hi_key, ap (key_at h) ps))
    Descs-without b k (e ∷ es) kb ab d lt pb ps = elim (Bool-cases (ltb e.key i)) [
      | inl l ↦
          let r = key_at-place_before h hi i e.desc e.key es d.2 ab.1 d.3 (ground arith) in
          let pb' : place_before e.desc i es ≡ prev =
            subst (λ z. (if z then place_before e.desc i es else b) ≡ prev) l pb in
          let ps' : place hi i es ≡ s =
            subst (λ z. (if z then place hi i es else e.desc) ≡ s) l ps in
          let far : b ≢ s = λ q. absurd (omega (arith, kb, lt, named, ap (key_at h) q)) in
          let other : b ≢ prev =
            λ q. absurd (omega (arith, kb, ab.0, r.0, ap (key_at h) (q ∙ sym pb'))) in
          let mine : e.desc ≢ s = λ q. absurd (ground (arith, d.2, named, ap (key_at h) q)) in
          rw (==_ne e.key i (λ q. absurd (ground arith))) (
            c.same_after b far other ∙ d.0,
            c.same_live e.desc ∙ d.1,
            c.same_key e.desc mine ∙ d.2,
            Descs-without e.desc e.key es d.2 ab.1 d.3 (ground arith) pb' ps',
          )
      | inr n ↦
          let pb' : b ≡ prev =
            subst (λ z. (if z then place_before e.desc i es else b) ≡ prev) n pb in
          let ps' : e.desc ≡ s = subst (λ z. (if z then place hi i es else e.desc) ≡ s) n ps in
          let at : e.key ≡ i = sym d.2 ∙ ap (key_at h) ps' ∙ named in
          rw (at, ==_self i)
            (subst (λ x. Descs g hi x es) (ap (after h) ps' ∙ sym skip ∙ ap (after g) (sym pb'))
              (Descs-same h g hi c.same_live e.key (after h e.desc) es
                (λ x l u.
                  c.same_after x (λ q. absurd (omega (arith, l, d.2, ap (key_at h) (q ∙ sym ps'))))
                    (λ q. absurd (omega (arith, l, kb, lt, at, ap (key_at h) (q ∙ sym pb')))))
                (λ x l u.
                  c.same_key x (λ q. absurd (omega (arith, l, d.2, ap (key_at h) (q ∙ sym ps')))))
                ab.1 d.3))
    ]
