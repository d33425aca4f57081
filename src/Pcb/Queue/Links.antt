-- ===== src/Pcb/Queue/Links.antt =====
-- What a process queue stands for: the blocks from head to tail, and what may change outside it.
use patrick_landon_os.Base.{
  ◌≡◌, ◌≢◌, sym, ◌∙◌, true, false, ◌==◌, if◌then◌else◌, List, [], ◌∷◌, ◌++◌, has, Distinct, last_or,
  has-last_or, arith, subst, Bool-cases, has-eq, eq_of_==, has-append, inl, inr,
}
use patrick_landon_os.Machine.Memory.{Ptr, null, Store, live, get, upd, live-upd, get-upd}
use patrick_landon_os.Types.{Pcb, blank_pcb}
use patrick_landon_os.Pcb.Queue.{with_next, with_prev}

abbrev pub next : Store Pcb → Ptr → Ptr
next h a = (get blank_pcb h a).p_next

abbrev pub prev : Store Pcb → Ptr → Ptr
prev h a = (get blank_pcb h a).p_prev

-- From `a` the forward pointers lead through `xs`, and the backward pointers lead back.
abbrev pub Links : Store Pcb → Ptr → List Ptr → Type 0
Links h a [] = Unit
Links h a (b ∷ bs) = (next h a ≡ b) × (prev h b ≡ a) × Links h b bs

abbrev pub Lives : Store Pcb → List Ptr → Type 0
Lives h xs = (a : Ptr) → has a xs ≡ true → live h a ≡ true

-- The queue with tail pointer `t` holds the distinct blocks `xs`, the head first. It is circular:
-- the links start at the tail.
pub record IsQueue (h : Store Pcb) (t : Ptr) (xs : List Ptr) : Type 0 where
  pub tail : last_or null xs ≡ t
  pub links : Links h t xs
  pub distinct : Distinct xs
  pub lives : Lives h xs

-- A block but for its place in a queue.
abbrev pub core : Pcb → Pcb
core c = record c { p_next = null; p_prev = null }

-- `g` is `h` with other links in the blocks of `ys`.
pub record Relinked (ys : List Ptr) (h g : Store Pcb) : Type 0 where
  pub same_live : (a : Ptr) → live g a ≡ live h a
  pub same_core : (a : Ptr) → core (get blank_pcb g a) ≡ core (get blank_pcb h a)
  pub outside : (a : Ptr) → has a ys ≡ false → get blank_pcb g a ≡ get blank_pcb h a

module _ (h : Store Pcb) (p q : Ptr) (e : live h p ≡ true) where
  pub next-with_next : (a : Ptr) → next (upd h p (with_next q)) a ≡ (if a == p then q else next h a)
  next-with_next a = ground (arith, get-upd blank_pcb h p (with_next q) a e)

  pub prev-with_next : (a : Ptr) → prev (upd h p (with_next q)) a ≡ prev h a
  prev-with_next a = ground (arith, get-upd blank_pcb h p (with_next q) a e)

  pub next-with_prev : (a : Ptr) → next (upd h p (with_prev q)) a ≡ next h a
  next-with_prev a = ground (arith, get-upd blank_pcb h p (with_prev q) a e)

  pub prev-with_prev : (a : Ptr) → prev (upd h p (with_prev q)) a ≡ (if a == p then q else prev h a)
  prev-with_prev a = ground (arith, get-upd blank_pcb h p (with_prev q) a e)

  pub Relinked-with_next : (ys : List Ptr) → has p ys ≡ true → Relinked ys h (upd h p (with_next q))
  Relinked-with_next ys i = record {
    same_live = live-upd h p (with_next q);
    same_core = λ a. ground (arith, get-upd blank_pcb h p (with_next q) a e);
    outside = λ a o. ground (arith, get-upd blank_pcb h p (with_next q) a e);
  }

  pub Relinked-with_prev : (ys : List Ptr) → has p ys ≡ true → Relinked ys h (upd h p (with_prev q))
  Relinked-with_prev ys i = record {
    same_live = live-upd h p (with_prev q);
    same_core = λ a. ground (arith, get-upd blank_pcb h p (with_prev q) a e);
    outside = λ a o. ground (arith, get-upd blank_pcb h p (with_prev q) a e);
  }

pub Relinked-trans :
    {ys : List Ptr} {h g k : Store Pcb} → Relinked ys h g → Relinked ys g k → Relinked ys h k
Relinked-trans r s = record {
  same_live = λ a. s.same_live a ∙ r.same_live a;
  same_core = λ a. s.same_core a ∙ r.same_core a;
  outside = λ a o. s.outside a o ∙ r.outside a o;
}

module _ (h g : Store Pcb) where
  -- The last block's forward pointer, and the first one's backward pointer, are free to change.
  pub Links-frame :
      (a : Ptr) (xs : List Ptr)
      → Distinct (a ∷ xs)
      → Links h a xs
      → ((x : Ptr) → has x (a ∷ xs) ≡ true → x ≢ last_or a xs → next g x ≡ next h x)
      → ((x : Ptr) → has x xs ≡ true → prev g x ≡ prev h x)
      → Links g a xs
  Links-frame a [] d l fwd bwd = tt
  Links-frame a (b ∷ bs) d l fwd bwd = (
    fwd a (ground arith) (λ e. ground (arith, has-last_or b bs, e)) ∙ l.0,
    bwd b (ground arith) ∙ l.1,
    Links-frame b bs d.1 l.2 (λ x i. fwd x (ground arith)) (λ x i. bwd x (ground arith)),
  )

module _ (h : Store Pcb) where
  pub Links-append :
      (a : Ptr) (xs ys : List Ptr) → Links h a xs → Links h (last_or a xs) ys → Links h a (xs ++ ys)
  Links-append a [] ys l k = k
  Links-append a (b ∷ bs) ys l k = (l.0, l.1, Links-append b bs ys l.2 k)

  pub Links-split :
      (a : Ptr) (xs ys : List Ptr) → Links h a (xs ++ ys) → Links h a xs × Links h (last_or a xs) ys
  Links-split a [] ys l = (tt, l)
  Links-split a (b ∷ bs) ys l =
      let (front, back) = Links-split b bs ys l.2 in ((l.0, l.1, front), back)

pub Lives-append_one :
    (h : Store Pcb) (xs : List Ptr) (p : Ptr)
    → Lives h xs
    → live h p ≡ true
    → Lives h (xs ++ p ∷ [])
Lives-append_one h xs p l e a i = elim (Bool-cases (a == p)) [
  | inl eq ↦ subst (λ b. live h b ≡ true) (sym (eq_of_== a p eq)) e
  | inr ne ↦ l a (ground (arith, has-append a xs (p ∷ [])))
]

pub Lives-Relinked :
    {ys : List Ptr} {h g : Store Pcb} (xs : List Ptr) → Relinked ys h g → Lives h xs → Lives g xs
Lives-Relinked xs r l a i = r.same_live a ∙ l a i

-- Where no block of the queue changes, it is the same queue.
Links-same :
    (h g : Store Pcb) (a : Ptr) (xs : List Ptr)
    → ((x : Ptr) → has x (a ∷ xs) ≡ true → get blank_pcb g x ≡ get blank_pcb h x)
    → Links h a xs
    → Links g a xs
Links-same h g a [] same l = tt
Links-same h g a (b ∷ bs) same l = (
  ground (arith, same a),
  ground (arith, same b),
  Links-same h g b bs (λ x i. same x (ground arith)) l.2,
)

pub tail-mem :
    {h : Store Pcb} {t x : Ptr} {xs : List Ptr} → IsQueue h t (x ∷ xs) → has t (x ∷ xs) ≡ true
tail-mem {x} {xs} q = subst (λ a. has a (x ∷ xs) ≡ true) q.tail (has-last_or x xs)

pub tail-live : {h : Store Pcb} {t x : Ptr} {xs : List Ptr} → IsQueue h t (x ∷ xs) → live h t ≡ true
tail-live q = q.lives _ (tail-mem q)

pub IsQueue-same :
    {h g : Store Pcb} {t : Ptr} (xs : List Ptr)
    → ((x : Ptr) → has x xs ≡ true → get blank_pcb g x ≡ get blank_pcb h x)
    → ((x : Ptr) → live g x ≡ live h x)
    → IsQueue h t xs
    → IsQueue g t xs
IsQueue-same [] same alive q = record {
  tail = q.tail;
  links = tt;
  distinct = tt;
  lives = λ a i. cc;
}
IsQueue-same {h} {g} {t} (x ∷ xs) same alive q = record {
  tail = q.tail;
  links =
      Links-same h g t (x ∷ xs)
        (λ a i. same a (elim (Bool-cases (a == t)) [
          | inl e ↦ has-eq a t (x ∷ xs) e (tail-mem q)
          | inr e ↦ ground arith
        ]))
        q.links;
  distinct = q.distinct;
  lives = λ a i. alive a ∙ q.lives a i;
}

-- A queue is not disturbed by changes of links outside it.
pub IsQueue-Relinked :
    {ys : List Ptr} {h g : Store Pcb} {t : Ptr} (xs : List Ptr)
    → Relinked ys h g
    → ((a : Ptr) → has a xs ≡ true → has a ys ≡ false)
    → IsQueue h t xs
    → IsQueue g t xs
IsQueue-Relinked xs r apart q = IsQueue-same xs (λ a i. r.outside a (apart a i)) r.same_live q
