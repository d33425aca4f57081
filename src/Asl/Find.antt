-- ===== src/Asl/Find.antt =====
-- `findASemd` finds the descriptor before the place of a semaphore.
use patrick_landon_os.Base.{
  ℕ, zero, suc, ◌≡◌, ◌<◌, ◌≤◌, true, List, [], ◌∷◌, ltb, length, arith, le→ltb, Bool-cases, inl,
  inr, subst, sym,
}
use patrick_landon_os.Const.{max_int, max_proc}
use patrick_landon_os.Machine.Memory.{Ptr, live}
use patrick_landon_os.Machine.{Machine, ok}
use patrick_landon_os.Machine.Lemmas.{load_semd-ok}
use patrick_landon_os.Asl.{find_loop, find_a_semd, find_fuel}
use patrick_landon_os.Asl.Entries.{Entry, IsAsl, Descs, after, key_at, place_before, place}

module _ (m : Machine) (hi i : Ptr) (hi_live : live m.semds hi ≡ true)
    (hi_key : key_at m.semds hi ≡ max_int) (in_range : i ≤ max_int) where
  -- The descriptor found is in memory, and the one after it is at the semaphore's place.
  pub after-place_before :
      (s : Ptr) (es : List Entry)
      → live m.semds s ≡ true
      → Descs m.semds hi (after m.semds s) es
      → (live m.semds (place_before s i es) ≡ true)
        × (after m.semds (place_before s i es) ≡ place hi i es)
  after-place_before s [] ls d = (ls, d)
  after-place_before s (e ∷ es) ls d = elim (Bool-cases (ltb e.key i)) [
    | inl lt ↦ rw lt (after-place_before e.desc es d.1 d.3)
    | inr ge ↦ rw ge (ls, d.0)
  ]

  find_loop-place_before :
      (k : ℕ) (s : Ptr) (es : List Entry)
      → live m.semds s ≡ true
      → Descs m.semds hi (after m.semds s) es
      → length es < k
      → find_loop k i s m ≡ ok (place_before s i es) m
  unfolding find_loop
  find_loop-place_before zero s es ls d h = absurd (omega arith)
  find_loop-place_before (suc k) s [] ls d h =
      rw (load_semd-ok m s ls, d, load_semd-ok m hi hi_live, hi_key, le→ltb max_int i in_range)
  find_loop-place_before (suc k) s (e ∷ es) ls d h = elim (Bool-cases (ltb e.key i)) [
    | inl lt ↦
        rw (load_semd-ok m s ls, d.0, load_semd-ok m e.desc d.1, d.2, lt)
          (find_loop-place_before k e.desc es d.1 d.3 (omega arith))
    | inr ge ↦ rw (load_semd-ok m s ls, d.0, load_semd-ok m e.desc d.1, d.2, ge)
  ]

find_fuel-few : {n : ℕ} → n ≤ max_proc → n < find_fuel
find_fuel-few h = omega arith

-- `findASemd` ends on the active semaphore list and returns the descriptor behind which the semaphore
-- belongs: the last one with a lower address, the dummy `lo` if there is none; nothing changes.
pub find_a_semd-place_before :
    (m : Machine) (lo hi i : Ptr) (es : List Entry)
    → IsAsl m lo hi es
    → i ≤ max_int
    → find_a_semd i m ≡ ok (place_before lo i es) m
unfolding find_a_semd
find_a_semd-place_before m lo hi i es l h =
    subst (λ a. find_loop find_fuel i a m ≡ ok (place_before lo i es) m) (sym l.starts)
      (find_loop-place_before m hi i l.hi_live l.hi_key h find_fuel lo es l.lo_live l.descs
        (find_fuel-few l.few))
