-- ===== src/Support/Pool/Free.antt =====
-- The pool when the frames of one process are given up.
use patrick_landon_os.Support.Terminate.{no_asid}
use patrick_landon_os.Base.{
  ℕ, ◌<◌, ◌≡◌, ◌≢◌, refl, sym, ap, ◌∙◌, subst, Bool, true, not, ◌&&◌, Word, digit, ◌-w◌, arith,
  ◌==◌, Bool-cases, inl, inr, ne_of_==, if◌then◌else◌, ==_ne, word_mod,
}
use patrick_landon_os.Const.{pool_size, max_uproc, kuseg_pte_size}
use patrick_landon_os.Support.Tables.{SwapEntry, null_entry}
use patrick_landon_os.Support.Pager.{clamp_page}
use patrick_landon_os.Support.Pool.{IsMapped, Holds, In}

abbrev pub freed_frame : SwapEntry → SwapEntry
freed_frame e = record e {
  sp_asid = no_asid;
  sp_page_no = 0;
  sp_seg_no = 0;
  sp_pte_entry = null_entry;
}

-- A frame after the loop.
abbrev pub free_if : Word → SwapEntry → SwapEntry
free_if asid e = if e.sp_asid == asid then freed_frame e else e

-- The processes that are left.
abbrev pub all_but : ℕ → (ℕ → Bool) → ℕ → Bool
all_but p alive a = alive a && not (a == p)

In-along :
    {pool pool' : ℕ → SwapEntry} → (p q f : ℕ) → pool f ≡ pool' f → In pool p q f → In pool' p q f
In-along p q f same i = record {
  range = i.range;
  taken = subst (λ (e : SwapEntry). e.sp_asid ≢ no_asid) same i.taken;
  proc = subst (λ (e : SwapEntry). (e.sp_asid -w 1) ≡ p) same i.proc;
  page = subst (λ (e : SwapEntry). clamp_page e.sp_page_no ≡ q) same i.page;
}

module _ {alive : ℕ → Bool} {old new : ℕ → SwapEntry} {lo : (proc page : ℕ) → Word} {loc : ℕ → Word}
    (mapped : IsMapped alive old lo loc) (asid : Word) (a_range : asid < word_mod)
    (frames : (k : ℕ) → k < pool_size → new k ≡ free_if asid (old k)) where
  taken-old :
      (f : ℕ)
      → f < pool_size
      → (new f).sp_asid ≢ no_asid
      → (new f ≡ old f) × ((old f).sp_asid ≢ asid)
  taken-old f h t = elim (Bool-cases ((old f).sp_asid == asid)) [
    | inl same ↦ absurd (t (ap (λ (e : SwapEntry). e.sp_asid) (frames f h) ∙ rw same refl))
    | inr ne ↦ (frames f h ∙ rw ne refl, ne_of_== (old f).sp_asid asid ne)
  ]

  In-old : (p q f : ℕ) → In new p q f → In old p q f
  In-old p q f i = let (same, ne) = taken-old f i.range i.taken in In-along p q f same i

  left : (f : ℕ) → f < pool_size → (old f).sp_asid ≢ asid → new f ≡ old f
  left f h ne = frames f h ∙ rw (==_ne (old f).sp_asid asid ne) refl

  left-alive :
      (e : SwapEntry)
      → e.sp_asid < word_mod
      → e.sp_asid ≢ asid
      → alive (e.sp_asid -w 1) ≡ true
      → all_but (asid -w 1) alive (e.sp_asid -w 1) ≡ true
  left-alive e h ne on =
      rw (on, ==_ne (e.sp_asid -w 1) (asid -w 1) (λ q. ne (omega (arith, q, h, a_range)))) refl

  free_sound :
      (f : ℕ)
      → f < pool_size
      → (new f).sp_asid ≢ no_asid
      → Holds (all_but (asid -w 1) alive) lo (loc f) (new f)
  free_sound f h t =
      let (same, ne) = taken-old f h t in
      let o = mapped.sound f h (subst (λ (e : SwapEntry). e.sp_asid ≢ no_asid) same t) in
      subst (λ e. Holds (all_but (asid -w 1) alive) lo (loc f) e) (sym same)
        (record {
          entry = o.entry;
          asid_word = o.asid_word;
          proc_range = o.proc_range;
          page_range = o.page_range;
          running = left-alive (old f) o.asid_word ne o.running;
          valid = o.valid;
          frame = o.frame;
        })

  free_complete :
      (p q : ℕ)
      → p < max_uproc
      → q < kuseg_pte_size
      → all_but (asid -w 1) alive p ≡ true
      → digit (lo p q) 9 ≡ 1
      → (f : ℕ) × In new p q f
  free_complete p q hp hq on v =
      let (f, i) = mapped.complete p q hp hq (ground (arith, on)) v in
      (f, In-along p q f (sym (left f i.range (λ e. absurd (ground (arith, on, e, i.proc))))) i)

  pub IsMapped-free : IsMapped (all_but (asid -w 1) alive) new lo loc
  IsMapped-free = record {
    sound = free_sound;
    complete = free_complete;
    once = λ p q f g i j. mapped.once p q f g (In-old p q f i) (In-old p q g j);
  }
