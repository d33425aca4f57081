-- ===== src/Initial/Clear.antt =====
-- The loop of `main` that sets the semaphores of the devices to 0.
use patrick_landon_os.Base.{
  ℕ, zero, suc, ◌+◌, ◌≡◌, ◌<◌, ◌≤◌, refl, true, arith, add-one, Word, ◌∙◌, Bool-cases, ◌==◌, inl,
  eq_of_==, inr,
}
use patrick_landon_os.Machine.{Machine, ok}
use patrick_landon_os.Machine.Memory.{Ptr, Store, live, get, upd, live-upd, get-upd, get-upd_self}
use patrick_landon_os.Layout.{Layout, sem_dev_addr}
use patrick_landon_os.Initial.{clear_sems}
use patrick_landon_os.Machine.Lemmas.{modify_int-ok}

-- What the `n` rounds from `i` on leave behind.
pub record Cleared (l : Layout) (m : Machine) (n i : ℕ) : Type 0 where
  pub heap : Store Word
  pub runs : clear_sems l n i m ≡ ok tt (record m { ints = heap })
  pub zeros : (j : ℕ) → i ≤ j → j < n + i → get 0 heap (sem_dev_addr l j) ≡ 0
  pub kept : (a : Ptr) → get 0 m.ints a ≡ 0 → get 0 heap a ≡ 0
  pub same_live : (a : Ptr) → live heap a ≡ live m.ints a

zeroed :
    (m : Machine) (p a : Ptr)
    → live m.ints p ≡ true
    → get 0 m.ints a ≡ 0
    → get 0 (upd m.ints p (λ v. 0)) a ≡ 0
zeroed m p a lp e = ground (arith, get-upd 0 m.ints p (λ v. 0) a lp, e)

pub clear_sems-Cleared :
    (l : Layout) (n i : ℕ) (m : Machine)
    → ((j : ℕ) → j < n + i → live m.ints (sem_dev_addr l j) ≡ true)
    → Cleared l m n i
unfolding clear_sems
clear_sems-Cleared l zero i m alive = record {
  heap = m.ints;
  runs = refl;
  zeros = λ j low high. absurd (omega arith);
  kept = λ a e. e;
  same_live = λ a. refl;
}
clear_sems-Cleared l (suc n) i m alive =
    let p = sem_dev_addr l i in
    let lp : live m.ints p ≡ true = alive i (omega arith) in
    let next = record m { ints = upd m.ints p (λ v. 0) } in
    let rest =
      clear_sems-Cleared l n (suc i) next
        (λ j h. live-upd m.ints p (λ v. 0) (sem_dev_addr l j) ∙ alive j (omega (arith, h))) in
    record {
      heap = rest.heap;
      runs = rw (modify_int-ok m p lp, add-one) rest.runs;
      zeros = λ j low high. elim (Bool-cases (j == i)) [
        | inl e ↦ rw (eq_of_== j i e) (rest.kept p (get-upd_self 0 m.ints p (λ v. 0) lp))
        | inr ne ↦ rest.zeros j (ground (arith, low, ne)) (omega (arith, high))
      ];
      kept = λ a e. rest.kept a (zeroed m p a lp e);
      same_live = λ a. rest.same_live a ∙ live-upd m.ints p (λ v. 0) a;
    }
