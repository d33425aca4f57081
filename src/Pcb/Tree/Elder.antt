-- ===== src/Pcb/Tree/Elder.antt =====
-- A child within the list of children, and the sibling before it.
use patrick_landon_os.Base.{
  ℕ, zero, suc, ◌<◌, ◌≡◌, ◌≢◌, sym, ◌∙◌, true, false, List, [], ◌∷◌, ◌++◌, has, Distinct, ne_of_has,
  arith, ==_ne, ==_self, subst, last_or, length, has-append, has-last_or,
}
use patrick_landon_os.Machine.Memory.{Ptr, Store, live}
use patrick_landon_os.Types.{Pcb}
use patrick_landon_os.Machine.{Machine, ok}
use patrick_landon_os.Machine.Lemmas.{load_pcb-ok}
use patrick_landon_os.Pcb.Tree.{elder_loop}
use patrick_landon_os.Pcb.Tree.Family.{sib, prnt, Sibs, Sibs-same}

-- A child within the list.
pub record Within (h : Store Pcb) (q p : Ptr) (post : List Ptr) : Type 0 where
  pub alive : live h p ≡ true
  pub parent : prnt h p ≡ q
  pub rest : Sibs h q (sib h p) post

pub Sibs-Within :
    (h : Store Pcb) (q a : Ptr) (pre : List Ptr) (p : Ptr) (post : List Ptr)
    → Sibs h q a (pre ++ p ∷ post)
    → Within h q p post
Sibs-Within h q a [] p post s = record { alive = s.1; parent = s.2; rest = s.3 }
Sibs-Within h q a (b ∷ bs) p post s = Sibs-Within h q (sib h b) bs p post s.3

-- The search stops at the sibling before `p`.
pub elder_loop-last_or :
    (m : Machine) (q p a : Ptr) (xs post : List Ptr) (k : ℕ) {b : Ptr}
    → Sibs m.pcbs q b (a ∷ xs ++ p ∷ post)
    → has p xs ≡ false
    → length xs < k
    → elder_loop k p a m ≡ ok (last_or a xs) m
unfolding elder_loop
elder_loop-last_or m q p a xs post zero s new h = absurd (omega arith)
elder_loop-last_or m q p a [] post (suc k) s new h = rw (load_pcb-ok m a s.1, s.3.0, ==_self p)
elder_loop-last_or m q p a (b ∷ bs) post (suc k) s new h =
    rw (load_pcb-ok m a s.1, s.3.0, ==_ne b p (λ e. ground (arith, e)))
      (elder_loop-last_or m q p b bs post k s.3 (ground arith) (omega arith))

pub last_or-alive :
    (h : Store Pcb) (q b a : Ptr) (xs post : List Ptr)
    → Sibs h q b (a ∷ xs ++ post)
    → live h (last_or a xs) ≡ true
last_or-alive h q b a [] post s = s.1
last_or-alive h q b a (x ∷ xs) post s = last_or-alive h q (sib h a) x xs post s.3

-- The list without `p`, once the sibling before it points past it.
pub Sibs-skip :
    (h g : Store Pcb) (q p a : Ptr) (xs post : List Ptr) {b : Ptr}
    → Sibs h q b (a ∷ xs ++ p ∷ post)
    → Distinct (a ∷ xs ++ post)
    → ((x : Ptr) → live g x ≡ live h x)
    → ((x : Ptr) → has x (a ∷ xs ++ post) ≡ true → prnt g x ≡ prnt h x)
    → ((x : Ptr) → has x (a ∷ xs ++ post) ≡ true → x ≢ last_or a xs → sib g x ≡ sib h x)
    → sib g (last_or a xs) ≡ sib h p
    → Sibs g q b (a ∷ xs ++ post)
Sibs-skip h g q p a [] post s d alive prnts keep join = (
  s.0,
  alive a ∙ s.1,
  prnts a (ground arith) ∙ s.2,
  subst (λ n. Sibs g q n post) (sym join)
      (Sibs-same h g q (sib h p) post
        (λ x i. (prnts x (ground arith), keep x (ground arith) (ne_of_has x a post i d.0))) alive
        s.3.3),
)
Sibs-skip h g q p a (x ∷ xs) post s d alive prnts keep join = (
  s.0,
  alive a ∙ s.1,
  prnts a (ground arith) ∙ s.2,
  subst (λ n. Sibs g q n (x ∷ xs ++ post))
      (sym (
        keep a (ground arith)
          (λ e. ground (arith, has-last_or x xs, has-append a (x ∷ xs) post, e))))
      (Sibs-skip h g q p x xs post s.3 d.1 alive (λ y i. prnts y (ground arith))
        (λ y i. keep y (ground arith)) join),
)
