-- ===== src/Tests/Spare.antt =====
-- Free semaphore descriptors at `0x3000` and up, 16 bytes apart.
use patrick_landon_os.Base.{
  ℕ, zero, suc, ◌+◌, ◌*◌, ◌≤◌, ◌<◌, ◌≡◌, refl, true, false, List, [], ◌∷◌, has, length, Distinct,
  some, if◌then◌else◌, leb, ltb, ◌&&◌, arith, Bool-cases, ◌==◌, subst, inl, inr, ap,
}
use patrick_landon_os.Machine.Memory.{Ptr, Store, null, live, get}
use patrick_landon_os.Types.{Semd, blank_semd}
use patrick_landon_os.Asl.Entries.{key_at}
use patrick_landon_os.Asl.FreeList.{Frees}

abbrev pub spare : Ptr → ℕ → List Ptr
spare a zero = []
spare a (suc n) = a ∷ spare (a + 16) n

-- The descriptors below `last`, and at other addresses those of `h`.
abbrev pub with_spare : Ptr → Store Semd → Store Semd
with_spare last h a =
    if leb 0x3000 a && ltb a last
    then some
        (record blank_semd { s_next = (if a + 16 == last then null else a + 16); s_sem_add = null })
    else h a

has-spare : (a b : Ptr) (n : ℕ) → has a (spare b n) ≡ true → (b ≤ a) × (a < b + 16 * n)
has-spare a b zero mem = absurd (ground (arith, mem))
has-spare a b (suc n) mem = elim (Bool-cases (a == b)) [
  | inl e ↦ (ground arith, ground arith)
  | inr ne ↦
      let r = has-spare a (b + 16) n (ground (arith, mem, ne)) in
      (omega (arith, r), omega (arith, r))
]

pub not-mem-spare : (a b : Ptr) (n : ℕ) → a < b → has a (spare b n) ≡ false
not-mem-spare a b zero lt = refl
not-mem-spare a b (suc n) lt = ground (arith, not-mem-spare a (b + 16) n (omega (arith, lt)))

pub Distinct-spare : (b : Ptr) (n : ℕ) → Distinct (spare b n)
Distinct-spare b zero = tt
Distinct-spare b (suc n) = (not-mem-spare b (b + 16) n (omega arith), Distinct-spare (b + 16) n)

module _ (last : Ptr) (small : last < 0x10000) (h : Store Semd) where
  -- From `b` the free descriptors go on up to `last`.
  pub Frees-spare :
      (b : Ptr) (n : ℕ)
      → 0x3000 ≤ b
      → b + 16 * n ≡ last
      → Frees (with_spare last h) (if b == last then null else b) (spare b n)
  unfolding live get
  Frees-spare b zero low e = ground arith
  Frees-spare b (suc n) low e = (
    ground arith,
    ground arith,
    subst (λ x. Frees (with_spare last h) x (spare (b + 16) n)) (ground (arith, low, e))
        (Frees-spare (b + 16) n (omega arith) (omega arith)),
  )

  pub key_at-spare :
      (a b : Ptr) (n : ℕ)
      → 0x3000 ≤ b
      → b + 16 * n ≡ last
      → has a (spare b n) ≡ true
      → key_at (with_spare last h) a ≡ null
  unfolding get
  key_at-spare a b n low e mem = ground (arith, has-spare a b n mem)

pub length-spare : (b : Ptr) (n : ℕ) → length (spare b n) ≡ n
length-spare b zero = refl
length-spare b (suc n) = ap suc (length-spare (b + 16) n)
