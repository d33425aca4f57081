-- ===== src/Exceptions/Semaphores.antt =====
-- System calls 3, 4 and 7 where no process has to wait and none is woken.
use patrick_landon_os.Base.{
  ◌≡◌, true, false, Word, ◌+w◌, ◌-w◌, is_neg, is_npos, ◌<◌, ◌^◌, arith, ◌+◌,
}
use patrick_landon_os.Machine.Memory.{Ptr, live, get, upd, get-upd_self, live-upd, get-upd}
use patrick_landon_os.Machine.{Machine, exit, ldst}
use patrick_landon_os.Machine.Lemmas.{load_int-ok, modify_int-ok, load_state-ok}
use patrick_landon_os.Types.{State, zero_state, reg, s_a1}
use patrick_landon_os.Exceptions.Calls.{P, V}

-- The state saved at an address, and the semaphore that it passes in `a1`.
abbrev pub caller : Machine → Ptr → State
caller m state = get zero_state m.states state

abbrev pub sem_of : Machine → Ptr → Ptr
sem_of m state = reg s_a1 (caller m state)

abbrev pub resumes : Machine → Ptr → Ptr → (Word → Word) → Machine
resumes m state sem f = record m { ints = upd m.ints sem f }

module _ (m : Machine) (state : Ptr) (saved : live m.states state ≡ true) where
  module _ (sem : live m.ints (sem_of m state) ≡ true) where
    -- `P` on a semaphore that stays at 0 or above: the semaphore is one less, nothing else changes,
    -- and the caller goes on.
    pub P-resumes :
        is_neg (get 0 m.ints (sem_of m state) -w 1) ≡ false
        → P state m ≡ exit (ldst (caller m state)) (resumes m state (sem_of m state) (λ v. v -w 1))
    unfolding P
    P-resumes h = rw (
      load_state-ok m state saved,
      modify_int-ok m (sem_of m state) sem,
      load_int-ok (resumes m state (sem_of m state) (λ v. v -w 1)) (sem_of m state)
          (simp live-upd sem),
      get-upd_self 0 m.ints (sem_of m state) (λ v. v -w 1) sem,
      h,
      load_state-ok (resumes m state (sem_of m state) (λ v. v -w 1)) state saved,
    )

    -- `V` on a semaphore that rises above 0, so that none waits on it: the semaphore is one more,
    -- nothing else changes, and the caller goes on.
    pub V-resumes :
        is_npos (get 0 m.ints (sem_of m state) +w 1) ≡ false
        → V state m ≡ exit (ldst (caller m state)) (resumes m state (sem_of m state) (λ v. v +w 1))
    unfolding V
    V-resumes h = rw (
      load_state-ok m state saved,
      modify_int-ok m (sem_of m state) sem,
      load_int-ok (resumes m state (sem_of m state) (λ v. v +w 1)) (sem_of m state)
          (simp live-upd sem),
      get-upd_self 0 m.ints (sem_of m state) (λ v. v +w 1) sem,
      h,
      load_state-ok (resumes m state (sem_of m state) (λ v. v +w 1)) state saved,
    )

module _ (v : Word) (above : 0 < v) (below : v < 2 ^ 31) where
  less_one : (v -w 1) + 1 ≡ v
  less_one = omega (arith, above, below)

  less_one_back : ((v -w 1) +w 1) ≡ v
  less_one_back = omega (arith, above, below)

  not_neg : is_neg (v -w 1) ≡ false
  not_neg = ground (arith, less_one, above, below)

  not_npos : is_npos ((v -w 1) +w 1) ≡ false
  not_npos = rw less_one_back (ground (arith, above, below))

-- A semaphore above 0 is taken by `P` and given back by `V`, of the same caller: both go on with the
-- caller, and afterwards every semaphore has the value that it had.
pub V-P :
    (m : Machine) (state : Ptr)
    → live m.states state ≡ true
    → live m.ints (sem_of m state) ≡ true
    → 0 < get 0 m.ints (sem_of m state)
    → get 0 m.ints (sem_of m state) < 2 ^ 31
    → let n = resumes m state (sem_of m state) (λ v. v -w 1) in
      let back = resumes n state (sem_of m state) (λ v. v +w 1) in
      (P state m ≡ exit (ldst (caller m state)) n)
      × (V state n ≡ exit (ldst (caller m state)) back)
      × ((a : Ptr) → get 0 back.ints a ≡ get 0 m.ints a)
V-P m state saved sem' above below =
    let sem = sem_of m state in
    let n = resumes m state sem (λ v. v -w 1) in
    let now = get-upd_self 0 m.ints sem (λ v. v -w 1) sem' in
    (
      P-resumes m state saved sem' (not_neg (get 0 m.ints sem) above below),
      V-resumes n state saved (simp live-upd sem')
          (rw now (not_npos (get 0 m.ints sem) above below)),
      λ a. ground (
        arith,
        get-upd 0 n.ints sem (λ v. v +w 1) a (simp live-upd sem'),
        get-upd 0 m.ints sem (λ v. v -w 1) a sem',
        less_one_back (get 0 m.ints sem) above below,
      ),
    )
