-- ===== src/Support/Calls/Write.antt =====
-- `writeToTerminal` when the terminal takes all the characters, and when it refuses one.
use patrick_landon_os.Support.Terminate.{asid_int_of}
use patrick_landon_os.Base.{
  ℕ, suc, ◌+◌, ◌<◌, ◌≡◌, ◌≢◌, arith, ◌∷◌, Word, ◌-w◌, ◌+w◌, ◌*w◌, ◌*◌, sym, ap, is_neg, ◌≤◌, ◌||◌,
  ltb, false, ==_self, subst,
}
use patrick_landon_os.Const.{char_transmd, max_uproc, passeren, sys_trap, verhogen, kseg_os_end}
use patrick_landon_os.Support.Vm.{Vm, call, ok, syscall, Places, put, gone}
use patrick_landon_os.Support.Calls.{
  write_loop, Places, write_to_terminal, reg, put, s_a1, s_a2, set_reg, ldst, s_v0,
}
use patrick_landon_os.Types.{State, reg, s_a2, s_a1, set_reg, s_v0}
use patrick_landon_os.Support.Vm.Arrays.{load_uproc-ok, modify_uproc-ok}
use patrick_landon_os.Support.Tables.{UProc}
use patrick_landon_os.Support.Calls.Chars.{
  write_loop-AllSent, write_loop-refused, Looped, text_events,
}

-- The semaphore for writing to the terminal of a process: the terminals begin at the index 32, with 3
-- semaphores each, of 4 bytes.
abbrev pub writer_sem : Places → Word → Word
writer_sem l asid = l.dev_sem_array_addr + 4 * (32 +w 3 *w (asid -w 1))

-- The request that the process made.
abbrev pub caller : Vm → ℕ
caller m = asid_int_of m.entry_hi -w 1

abbrev pub request : Vm → State
request m = (m.u_procs (caller m)).u_old_trap sys_trap

-- A request of a process for at most 128 characters of its own memory.
pub record IsWrite (m : Vm) : Type 0 where
  pub known : caller m < max_uproc
  pub len : reg s_a2 (request m) ≤ 128
  pub own : kseg_os_end ≤ reg s_a1 (request m)

-- What `writeToTerminal` leaves behind: the process goes on with `status` in v0, and `n` characters
-- were given to its terminal.
pub record Written (l : Places) (m : Vm) (n : ℕ) (status : Word) : Type 0 where
  pub last : Vm
  pub runs : write_to_terminal l m ≡ gone (ldst (set_reg s_v0 status (request m))) last
  pub events :
      last.trace
      ≡ call verhogen (writer_sem l (asid_int_of m.entry_hi)) 0 0
        ∷ text_events
            (asid_int_of m.entry_hi)
            (reg s_a1 (request m))
            m.chars
            n
            0
            (call passeren (writer_sem l (asid_int_of m.entry_hi)) 0 0 ∷ m.trace)

module _ (l : Places) (m : Vm) (w : IsWrite m) where
  abbrev asid : Word
  asid = asid_int_of m.entry_hi

  abbrev sem : Word
  sem = writer_sem l asid

  abbrev granted : Vm
  granted = record m { answered = suc m.answered; trace = call passeren sem 0 0 ∷ m.trace }

  abbrev finished : Word → Vm → Vm
  finished status m' = record m' {
    answered = suc m'.answered;
    trace = call verhogen sem 0 0 ∷ m'.trace;
    u_procs = put m'.u_procs (caller m) (record (m'.u_procs (caller m)) {
      u_old_trap =
          put (m'.u_procs (caller m)).u_old_trap sys_trap
            (set_reg s_v0 status ((m'.u_procs (caller m)).u_old_trap sys_trap));
    });
  }

  not_refused :
      (is_neg (reg s_a2 (request m))
        || ltb 128 (reg s_a2 (request m))
        || ltb (reg s_a1 (request m)) kseg_os_end)
      ≡ false
  not_refused = ground (arith, w.len, w.own)

  finish-runs :
      (status : Word) (m' : Vm)
      → write_loop asid (reg s_a1 (request m)) (reg s_a2 (request m)) 0 m.uninit granted
        ≡ ok status m'
      → m'.u_procs ≡ m.u_procs
      → write_to_terminal l m ≡ gone (ldst (set_reg s_v0 status (request m))) (finished status m')
  unfolding write_to_terminal syscall
  finish-runs status m' e same =
      rw
        (
          load_uproc-ok m (caller m) w.known,
          not_refused,
          e,
          modify_uproc-ok
              (record m' { answered = suc m'.answered; trace = call verhogen sem 0 0 ∷ m'.trace })
              (caller m)
              (λ u. record u {
                u_old_trap =
                    put u.u_old_trap sys_trap (set_reg s_v0 status (u.u_old_trap sys_trap));
              })
              w.known,
          load_uproc-ok (finished status m') (caller m) w.known,
        )
        (rw (==_self (caller m)) (
          ap
            (λ (procs : ℕ → UProc).
              gone (ldst (set_reg s_v0 status ((procs (caller m)).u_old_trap sys_trap)))
                (finished status m'))
            same))

  written :
      (n : ℕ) (status : Word)
      → Looped asid (reg s_a1 (request m)) (reg s_a2 (request m)) n status m.uninit granted
      → Written l m n status
  written n status r = record {
    last = finished status r.last;
    runs = finish-runs status r.last r.runs r.procs;
    events = ap (λ t. call verhogen sem 0 0 ∷ t) r.events;
  }

-- `writeToTerminal` on a request of a process for between 1 and 128 characters of its own memory,
-- each of which the terminal takes: the characters are given to the terminal of the process in
-- order, between taking its semaphore and releasing it, and the process goes on with the length
-- less 1 in v0.
pub write_to_terminal-AllSent :
    (l : Places) (m : Vm) (n : ℕ)
    → IsWrite m
    → reg s_a2 (request m) ≡ suc n
    → ((j : ℕ) → j < suc n → m.answers (suc m.answered + j) ≡ char_transmd)
    → Written l m (suc n) n
write_to_terminal-AllSent l m n w e all =
    let r =
      write_loop-AllSent (asid_int_of m.entry_hi) (reg s_a1 (request m)) n m.uninit (granted l m w)
        (omega (arith, w.len, e)) all in
    written l m w (suc n) n (
      subst
        (λ len.
          Looped (asid_int_of m.entry_hi) (reg s_a1 (request m)) len (suc n) n m.uninit
            (granted l m w))
        (sym e) r)

-- `writeToTerminal` on a request of a process for at most 128 characters of its own memory, of
-- which the terminal takes `n` and refuses the next: that one is the last that is given to the
-- terminal of the process, its semaphore is released, and the process goes on with the negated status
-- in v0.
pub write_to_terminal-refused :
    (l : Places) (m : Vm) (n : ℕ)
    → IsWrite m
    → n < reg s_a2 (request m)
    → ((j : ℕ) → j < n → m.answers (suc m.answered + j) ≡ char_transmd)
    → m.answers (suc m.answered + n) ≢ char_transmd
    → Written l m (suc n) (0 -w m.answers (suc m.answered + n))
write_to_terminal-refused l m n w h all refused = written l m w (suc n) _ (
    write_loop-refused (asid_int_of m.entry_hi) (reg s_a1 (request m)) (reg s_a2 (request m)) n
      m.uninit (granted l m w) h (omega (arith, w.len)) all refused)
