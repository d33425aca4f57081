-- ===== src/Support/Pool/Replace.antt =====
-- The pool when one frame gets another page.
use patrick_landon_os.Support.Terminate.{no_asid}
use patrick_landon_os.Base.{
  ℕ, ◌<◌, ◌≡◌, ◌≢◌, refl, sym, ap, ◌∙◌, subst, Bool, true, Word, digit, shr, ◌-w◌, arith, ◌==◌,
  Bool-cases, inl, inr, eq_of_==, ne_of_==, if◌then◌else◌, ==_self, ==_ne, ◌&&◌, word_mod,
}
use patrick_landon_os.Const.{pool_size, max_uproc, kuseg_pte_size}
use patrick_landon_os.Support.Tables.{SwapEntry}
use patrick_landon_os.Support.Pager.{clamp_page}
use patrick_landon_os.Support.Pool.{IsMapped, Holds, In, entry_of}

-- A page that is in a frame has a valid entry.
pub In-valid :
    {alive : ℕ → Bool} {pool : ℕ → SwapEntry} {lo : ℕ → ℕ → Word} {loc : ℕ → Word}
    → IsMapped alive pool lo loc
    → (p q g : ℕ) → In pool p q g
    → digit (lo p q) 9 ≡ 1
In-valid {pool} {lo} m p q g i =
    let h = m.sound g i.range i.taken in
    ap (λ a. digit (lo a q) 9) (sym i.proc)
    ∙ ap (λ b. digit (lo ((pool g).sp_asid -w 1) b) 9) (sym i.page)
    ∙ h.valid

module _ {alive : ℕ → Bool} {pool pool' : ℕ → SwapEntry} {lo lo' : ℕ → ℕ → Word} {loc : ℕ → Word}
    (m : IsMapped alive pool lo loc) (f p q : ℕ) (e : SwapEntry) where
  module _ (f_range : f < pool_size) (p_range : p < max_uproc) (q_range : q < kuseg_pte_size)
      (running : alive p ≡ true) (missing : digit (lo p q) 9 ≡ 0) (word : e.sp_asid < word_mod)
      (taken : e.sp_asid ≢ no_asid) (proc : (e.sp_asid -w 1) ≡ p)
      (page : clamp_page e.sp_page_no ≡ q) (entry : e.sp_pte_entry ≡ entry_of e)
      (filled : (g : ℕ) → pool' g ≡ (if g == f then e else pool g)) (valid : digit (lo' p q) 9 ≡ 1)
      (frame : shr (lo' p q) 12 ≡ shr (loc f) 12)
      (out : (a b : ℕ) → (a ≡ p → b ≢ q) → In pool a b f → digit (lo' a b) 9 ≡ 0)
      (kept : (a b : ℕ) → (a ≡ p → b ≢ q) → ¬ In pool a b f → lo' a b ≡ lo a b) where
    at_f : pool' f ≡ e
    at_f = filled f ∙ rw (==_self f) refl

    off_f : (g : ℕ) → g ≢ f → pool' g ≡ pool g
    off_f g ne = filled g ∙ rw (==_ne g f ne) refl

    In-old : (a b g : ℕ) → g ≢ f → In pool' a b g → In pool a b g
    In-old a b g ne i = record {
      range = i.range;
      taken = subst (λ (s : SwapEntry). s.sp_asid ≢ no_asid) (off_f g ne) i.taken;
      proc = subst (λ (s : SwapEntry). (s.sp_asid -w 1) ≡ a) (off_f g ne) i.proc;
      page = subst (λ (s : SwapEntry). clamp_page s.sp_page_no ≡ b) (off_f g ne) i.page;
    }

    In-new : (a b g : ℕ) → g ≢ f → In pool a b g → In pool' a b g
    In-new a b g ne i = record {
      range = i.range;
      taken = subst (λ (s : SwapEntry). s.sp_asid ≢ no_asid) (sym (off_f g ne)) i.taken;
      proc = subst (λ (s : SwapEntry). (s.sp_asid -w 1) ≡ a) (sym (off_f g ne)) i.proc;
      page = subst (λ (s : SwapEntry). clamp_page s.sp_page_no ≡ b) (sym (off_f g ne)) i.page;
    }

    In-f : In pool' p q f
    In-f = record {
      range = f_range;
      taken = subst (λ (s : SwapEntry). s.sp_asid ≢ no_asid) (sym at_f) taken;
      proc = ap (λ (s : SwapEntry). s.sp_asid -w 1) at_f ∙ proc;
      page = ap (λ (s : SwapEntry). clamp_page s.sp_page_no) at_f ∙ page;
    }

    -- Only the new page is in the frame.
    only_f : (a b : ℕ) → In pool' a b f → (a ≡ p) × (b ≡ q)
    only_f a b i = (sym i.proc ∙ In-f.proc, sym i.page ∙ In-f.page)

    -- The new page was in no frame.
    nowhere : (g : ℕ) → ¬ In pool p q g
    nowhere g i = absurd (omega (arith, In-valid m p q g i, missing))

    -- A page that is in the frame is in no other.
    alone : (a b y : ℕ) → In pool' a b f → y ≢ f → ¬ In pool' a b y
    alone a b y i ne j =
        let (ea, eb) = only_f a b i in
        nowhere y
          (subst (λ t. In pool p t y) eb (subst (λ s. In pool s b y) ea (In-old a b y ne j)))

    new-once : (a b x y : ℕ) → In pool' a b x → In pool' a b y → x ≡ y
    new-once a b x y i j = elim (Bool-cases (x == f)) [
      | inl ex ↦ elim (Bool-cases (y == f)) [
        | inl ey ↦ eq_of_== x f ex ∙ sym (eq_of_== y f ey)
        | inr ny ↦
            absurd
              (alone a b y (subst (λ t. In pool' a b t) (eq_of_== x f ex) i) (ne_of_== y f ny) j)
      ]
      | inr nx ↦ elim (Bool-cases (y == f)) [
        | inl ey ↦
            absurd
              (alone a b x (subst (λ t. In pool' a b t) (eq_of_== y f ey) j) (ne_of_== x f nx) i)
        | inr ny ↦
            m.once a b x y (In-old a b x (ne_of_== x f nx) i) (In-old a b y (ne_of_== y f ny) j)
      ]
    ]

    -- A page that was in another frame is not the new one, and its entry is as it was.
    lo-kept : (a b g : ℕ) → g ≢ f → In pool a b g → lo' a b ≡ lo a b
    lo-kept a b g ne i =
        kept a b
          (λ ea eb. nowhere g (subst (λ t. In pool p t g) eb (subst (λ s. In pool s b g) ea i)))
          (λ j. ne (m.once a b g f i j))

    new_complete :
        (a b : ℕ)
        → a < max_uproc
        → b < kuseg_pte_size
        → alive a ≡ true
        → digit (lo' a b) 9 ≡ 1
        → (g : ℕ) × In pool' a b g
    new_complete a b ra rb live v = elim (Bool-cases (a == p && b == q)) [
      | inl same ↦
          let ea : a ≡ p = ground arith in
          let eb : b ≡ q = ground arith in
          (f, subst (λ s. In pool' s b f) (sym ea) (subst (λ t. In pool' p t f) (sym eb) In-f))
      | inr other ↦
          let apart : (a ≡ p → b ≢ q) = λ ea eb. absurd (ground arith) in
          let not_f : ¬ In pool a b f = λ i. absurd (omega (arith, out a b apart i, v)) in
          let (g, i) =
            m.complete a b ra rb live (ap (λ w. digit w 9) (sym (kept a b apart not_f)) ∙ v) in
          (g, In-new a b g (λ eg. not_f (subst (λ t. In pool a b t) eg i)) i)
    ]

    new-Holds : Holds alive lo' (loc f) e
    new-Holds = record {
      entry = entry;
      asid_word = word;
      proc_range = rw proc p_range;
      page_range = rw page q_range;
      running = ap alive proc ∙ running;
      valid = rw (proc, page) valid;
      frame = rw (proc, page) frame;
    }

    new_sound :
        (g : ℕ) → g < pool_size → (pool' g).sp_asid ≢ no_asid → Holds alive lo' (loc g) (pool' g)
    new_sound g range t = elim (Bool-cases (g == f)) [
      | inl eq ↦
          subst (λ t. Holds alive lo' (loc t) (pool' t)) (sym (eq_of_== g f eq))
            (subst (λ s. Holds alive lo' (loc f) s) (sym at_f) new-Holds)
      | inr ne ↦
          subst (λ s. Holds alive lo' (loc g) s) (sym (off_f g (ne_of_== g f ne)))
            (let old : (pool g).sp_asid ≢ no_asid =
                subst (λ (s : SwapEntry). s.sp_asid ≢ no_asid) (off_f g (ne_of_== g f ne)) t in
              let h = m.sound g range old in
              let k =
                lo-kept ((pool g).sp_asid -w 1) (clamp_page (pool g).sp_page_no) g (ne_of_== g f ne)
                  (record { range = range; taken = old; proc = refl; page = refl }) in
              record {
                entry = h.entry;
                asid_word = h.asid_word;
                proc_range = h.proc_range;
                page_range = h.page_range;
                running = h.running;
                valid = ap (λ w. digit w 9) k ∙ h.valid;
                frame = ap (λ w. shr w 12) k ∙ h.frame;
              })
    ]

    -- The frame `f` gets the page `q` of the process `p`, whose entry was not valid; the entry of the
    -- page that was there becomes invalid, and all else stays.
    pub IsMapped-replace : IsMapped alive pool' lo' loc
    IsMapped-replace = record { sound = new_sound; complete = new_complete; once = new-once }
