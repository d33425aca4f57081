-- ===== src/Pcb/Tree/Family.antt =====
-- The children of a process as a list, and assignments to the fields of the process tree.
use patrick_landon_os.Base.{
  ◌≡◌, ◌∙◌, refl, true, false, List, [], ◌∷◌, has, Distinct, arith, ◌==◌, if◌then◌else◌, subst, sym,
}
use patrick_landon_os.Machine.Memory.{Ptr, null, Store, live, get, upd, get-upd}
use patrick_landon_os.Machine.Frame.{Touched, Touched-upd}
use patrick_landon_os.Types.{Pcb, blank_pcb}
use patrick_landon_os.Pcb.Tree.{with_child, with_sib, with_prnt}

abbrev pub child : Store Pcb → Ptr → Ptr
child h a = (get blank_pcb h a).p_child

abbrev pub sib : Store Pcb → Ptr → Ptr
sib h a = (get blank_pcb h a).p_sib

abbrev pub prnt : Store Pcb → Ptr → Ptr
prnt h a = (get blank_pcb h a).p_prnt

-- From `a` the sibling pointers lead through children of `p` to NULL.
abbrev pub Sibs : Store Pcb → Ptr → Ptr → List Ptr → Type 0
Sibs h p a [] = a ≡ null
Sibs h p a (b ∷ bs) = (a ≡ b) × (live h b ≡ true) × (prnt h b ≡ p) × Sibs h p (sib h b) bs

-- The children of `p` are the distinct blocks `cs`, the first child first.
pub record IsFamily (h : Store Pcb) (p : Ptr) (cs : List Ptr) : Type 0 where
  pub alive : live h p ≡ true
  pub sibs : Sibs h p (child h p) cs
  pub distinct : Distinct cs
  pub proper : has p cs ≡ false

-- A block but for its place in the tree.
abbrev pub treeless : Pcb → Pcb
treeless c = record c { p_prnt = null; p_child = null; p_sib = null }

abbrev pub Grafted : List Ptr → Store Pcb → Store Pcb → Type 0
Grafted = Touched blank_pcb treeless

module _ (h : Store Pcb) (p q : Ptr) (e : live h p ≡ true) (a : Ptr) where
  pub get-with_child :
      get blank_pcb (upd h p (with_child q)) a
      ≡ (if a == p then with_child q (get blank_pcb h a) else get blank_pcb h a)
  get-with_child = get-upd blank_pcb h p (with_child q) a e

  pub get-with_sib :
      get blank_pcb (upd h p (with_sib q)) a
      ≡ (if a == p then with_sib q (get blank_pcb h a) else get blank_pcb h a)
  get-with_sib = get-upd blank_pcb h p (with_sib q) a e

  pub get-with_prnt :
      get blank_pcb (upd h p (with_prnt q)) a
      ≡ (if a == p then with_prnt q (get blank_pcb h a) else get blank_pcb h a)
  get-with_prnt = get-upd blank_pcb h p (with_prnt q) a e

pub Grafted-with_child :
    {ys : List Ptr} (h : Store Pcb) (p q : Ptr)
    → live h p ≡ true
    → has p ys ≡ true
    → Grafted ys h (upd h p (with_child q))
Grafted-with_child h p q e i = Touched-upd h p (with_child q) e i (λ c. refl)

pub Grafted-with_sib :
    {ys : List Ptr} (h : Store Pcb) (p q : Ptr)
    → live h p ≡ true
    → has p ys ≡ true
    → Grafted ys h (upd h p (with_sib q))
Grafted-with_sib h p q e i = Touched-upd h p (with_sib q) e i (λ c. refl)

pub Grafted-with_prnt :
    {ys : List Ptr} (h : Store Pcb) (p q : Ptr)
    → live h p ≡ true
    → has p ys ≡ true
    → Grafted ys h (upd h p (with_prnt q))
Grafted-with_prnt h p q e i = Touched-upd h p (with_prnt q) e i (λ c. refl)

-- The list of siblings reads the parent and sibling pointers of its own blocks only.
pub Sibs-same :
    (h g : Store Pcb) (p a : Ptr) (cs : List Ptr)
    → ((x : Ptr) → has x cs ≡ true → (prnt g x ≡ prnt h x) × (sib g x ≡ sib h x))
    → ((x : Ptr) → live g x ≡ live h x)
    → Sibs h p a cs
    → Sibs g p a cs
Sibs-same h g p a [] same alive s = s
Sibs-same h g p a (b ∷ bs) same alive s = (
  s.0,
  alive b ∙ s.1,
  (same b (ground arith)).0 ∙ s.2,
  subst (λ n. Sibs g p n bs) (sym (same b (ground arith)).1)
      (Sibs-same h g p (sib h b) bs (λ x i. same x (ground arith)) alive s.3),
)
