-- ===== src/Support/Init/Fill.antt =====
-- The loops of `test` that set the elements of an array.
use patrick_landon_os.Base.{
  ℕ, zero, suc, ◌+◌, ◌≤◌, ◌<◌, ◌≡◌, refl, sym, ap, ◌∙◌, ◌==◌, arith, ==_ne, Bool-cases, inl, inr,
  eq_of_==,
}
use patrick_landon_os.Const.{pool_size}
use patrick_landon_os.Support.Vm.{Vm, ok, put}
use patrick_landon_os.Support.Init.{init_dev_sems, init_swap_pool, fill_entries, empty_frame}
use patrick_landon_os.Support.Vm.Arrays.{modify_swap-ok}

module _ {ℓ} {A : Type ℓ} where
  pub fill_entries-below :
      (f : ℕ → A) (n i : ℕ) (t : ℕ → A) (k : ℕ) → k < i → fill_entries f n i t k ≡ t k
  unfolding fill_entries
  fill_entries-below f zero i t k h = refl
  fill_entries-below f (suc n) i t k h =
      fill_entries-below f n (i + 1) (put t i (f i)) k (omega arith)
      ∙ rw (==_ne k i (λ e. absurd (omega arith))) refl

  pub fill_entries-inside :
      (f : ℕ → A) (n i : ℕ) (t : ℕ → A) (k : ℕ) → i ≤ k → k < i + n → fill_entries f n i t k ≡ f k
  unfolding fill_entries
  fill_entries-inside f zero i t k a b = absurd (omega arith)
  fill_entries-inside f (suc n) i t k a b = elim (Bool-cases (k == i)) [
    | inl e ↦
        fill_entries-below f n (i + 1) (put t i (f i)) k (ground arith)
        ∙ rw e (ap f (sym (eq_of_== k i e)))
    | inr ne ↦ fill_entries-inside f n (i + 1) (put t i (f i)) k (ground arith) (omega arith)
  ]

pub init_dev_sems-fill :
    (n i : ℕ) (m : Vm)
    → init_dev_sems n i m
      ≡ ok tt (record m { dev_sem_array = fill_entries (λ j. 1) n i m.dev_sem_array })
unfolding init_dev_sems fill_entries
init_dev_sems-fill zero i m = refl
init_dev_sems-fill (suc n) i m =
    init_dev_sems-fill n (i + 1) (record m { dev_sem_array = put m.dev_sem_array i 1 })

pub init_swap_pool-fill :
    (n i : ℕ) (m : Vm)
    → i + n ≤ pool_size
    → init_swap_pool n i m
      ≡ ok tt (record m { swap_pool = fill_entries (λ j. empty_frame) n i m.swap_pool })
unfolding init_swap_pool fill_entries
init_swap_pool-fill zero i m h = refl
init_swap_pool-fill (suc n) i m h = rw (modify_swap-ok m i (λ e. empty_frame) (omega arith)) (
    init_swap_pool-fill n (i + 1) (record m { swap_pool = put m.swap_pool i empty_frame })
      (omega arith))
