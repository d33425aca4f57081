-- ===== src/Asl/Order.antt =====
-- The active semaphore list where an entry comes in or goes out, kept in the order of the addresses.
use patrick_landon_os.Base.{
  ◌≡◌, ◌≢◌, ◌<◌, refl, List, [], ◌∷◌, arith, ltb, ◌==◌, Bool-cases, inl, inr, subst, ==_self,
  if◌then◌else◌, length, suc, ==_ne, eq_of_==, sym, ap, ◌∙◌,
}
use patrick_landon_os.Const.{max_int}
use patrick_landon_os.Machine.Memory.{Ptr}
use patrick_landon_os.Asl.Entries.{Entry, Rises, waiting_on}

-- The addresses rise from `k` on, and stay below the second dummy's.
abbrev pub Above : Ptr → List Entry → Type 0
Above k [] = k < max_int
Above k (e ∷ es) = (k < e.key) × Above e.key es

pub Above-Rises : (k : Ptr) (es : List Entry) → Above k es → Rises es
Above-Rises k [] b = tt
Above-Rises k (e ∷ []) b = b.1
Above-Rises k (e ∷ f ∷ es) b = (b.1.0, Above-Rises e.key (f ∷ es) b.1)

pub Above-below : (k : Ptr) (es : List Entry) → Above k es → k < max_int
Above-below k [] b = b
Above-below k (e ∷ es) b = omega (arith, b.0, Above-below e.key es b.1)

pub Above-lower : (j k : Ptr) (es : List Entry) → j < k → Above k es → Above j es
Above-lower j k [] h b = omega (arith, b)
Above-lower j k (e ∷ es) h b = (omega (arith, b.0), b.1)

-- No entry is that of the semaphore `i`.
abbrev pub Absent : Ptr → List Entry → Type 0
Absent i [] = Unit
Absent i (e ∷ es) = (e.key ≢ i) × Absent i es

pub Above-Absent : (i : Ptr) (es : List Entry) → Above i es → Absent i es
Above-Absent i [] b = tt
Above-Absent i (e ∷ es) b =
    ((λ q. absurd (omega (arith, b.0))), Above-Absent i es (Above-lower i e.key es b.0 b.1))

-- The list with a new entry for the semaphore `i`, in the descriptor `s`.
abbrev pub enter : (i s : Ptr) → List Ptr → List Entry → List Entry
enter i s zs [] = (record { key = i; desc = s; procs = zs }) ∷ []
enter i s zs (e ∷ es) =
    let rest = enter i s zs es in
    if ltb e.key i then e ∷ rest else (record { key = i; desc = s; procs = zs }) ∷ e ∷ es

-- The list without the entry for the semaphore `i`.
abbrev pub without : Ptr → List Entry → List Entry
without i [] = []
without i (e ∷ es) = let rest = without i es in if e.key == i then es else e ∷ rest

pub Above-enter :
    (k i s : Ptr) (zs : List Ptr) (es : List Entry)
    → k < i
    → i < max_int
    → Absent i es
    → Above k es
    → Above k (enter i s zs es)
Above-enter k i s zs [] h low out b = (h, low)
Above-enter k i s zs (e ∷ es) h low out b = elim (Bool-cases (ltb e.key i)) [
  | inl lt ↦ rw lt (b.0, Above-enter e.key i s zs es (ground arith) low out.1 b.1)
  | inr ge ↦ rw ge (h, (ground (arith, out.0), b.1))
]

pub Above-without : (k i : Ptr) (es : List Entry) → Above k es → Above k (without i es)
Above-without k i [] b = b
Above-without k i (e ∷ es) b = elim (Bool-cases (e.key == i)) [
  | inl eq ↦ rw eq (Above-lower k e.key es b.0 b.1)
  | inr ne ↦ rw ne (b.0, Above-without e.key i es b.1)
]

pub waiting_on-Absent : (i : Ptr) (es : List Entry) → Absent i es → waiting_on i es ≡ []
waiting_on-Absent i [] out = refl
waiting_on-Absent i (e ∷ es) out = rw (==_ne e.key i out.0) (waiting_on-Absent i es out.1)

pub waiting_on-enter :
    (i s : Ptr) (zs : List Ptr) (es : List Entry)
    → Absent i es
    → waiting_on i (enter i s zs es) ≡ zs
waiting_on-enter i s zs [] out = rw (==_self i) refl
waiting_on-enter i s zs (e ∷ es) out = elim (Bool-cases (ltb e.key i)) [
  | inl lt ↦ rw (lt, ==_ne e.key i out.0) (waiting_on-enter i s zs es out.1)
  | inr ge ↦ rw (ge, ==_self i) refl
]

pub waiting_on-enter_other :
    (i j s : Ptr) (zs : List Ptr) (es : List Entry)
    → j ≢ i
    → waiting_on j (enter i s zs es) ≡ waiting_on j es
waiting_on-enter_other i j s zs [] ne = rw (==_ne i j (λ q. ne (sym q))) refl
waiting_on-enter_other i j s zs (e ∷ es) ne = elim (Bool-cases (ltb e.key i)) [
  | inl lt ↦ rw (lt, waiting_on-enter_other i j s zs es ne) refl
  | inr ge ↦ rw (ge, ==_ne i j (λ q. ne (sym q))) refl
]

pub waiting_on-without :
    (k i : Ptr) (es : List Entry) → Above k es → waiting_on i (without i es) ≡ []
waiting_on-without k i [] b = refl
waiting_on-without k i (e ∷ es) b = elim (Bool-cases (e.key == i)) [
  | inl eq ↦ rw eq (
      waiting_on-Absent i es
        (Above-Absent i es (subst (λ a. Above a es) (eq_of_== e.key i eq) b.1)))
  | inr ne ↦ rw (ne, ne) (waiting_on-without e.key i es b.1)
]

pub waiting_on-without_other :
    (i j : Ptr) (es : List Entry) → j ≢ i → waiting_on j (without i es) ≡ waiting_on j es
waiting_on-without_other i j [] ne = refl
waiting_on-without_other i j (e ∷ es) ne = elim (Bool-cases (e.key == i)) [
  | inl eq ↦ rw (eq, ==_ne e.key j (λ q. ne (sym q ∙ eq_of_== e.key i eq))) refl
  | inr n ↦ rw (n, waiting_on-without_other i j es ne) refl
]

pub length-enter :
    (i s : Ptr) (zs : List Ptr) (es : List Entry) → length (enter i s zs es) ≡ suc (length es)
length-enter i s zs [] = refl
length-enter i s zs (e ∷ es) = ground (arith, length-enter i s zs es)

pub length-without :
    (i : Ptr) (es : List Entry) → waiting_on i es ≢ [] → suc (length (without i es)) ≡ length es
length-without i [] some = absurd (some refl)
length-without i (e ∷ es) some = elim (Bool-cases (e.key == i)) [
  | inl eq ↦ rw eq refl
  | inr ne ↦ rw ne (ap suc (length-without i es (λ q. some (rw ne q))))
]
