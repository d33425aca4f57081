-- ===== src/Support/Calls/Chars.antt =====
-- The loop of `writeToTerminal`.
use patrick_landon_os.Base.{
  ℕ, zero, suc, ◌+◌, ◌<◌, ◌≡◌, ◌≢◌, refl, arith, List, ◌∷◌, Word, word_mod, ◌+w◌, ◌-w◌, ◌*w◌, ◌∙◌,
  sym, ap, ==_ne, bit_or, shl, ◌-◌,
}
use patrick_landon_os.Const.{wait_io, term_int, transm_char, char_transmd}
use patrick_landon_os.Support.Vm.{Vm, Event, call, store, ok, syscall}
use patrick_landon_os.Support.Disk.{disable_ints}
use patrick_landon_os.Support.Disk.Runs.{ints_on, ints_off}
use patrick_landon_os.Support.Calls.{write_loop}

module _ (asid virt_addr : Word) where
  -- The register of the process's own terminal that takes a character: those of the terminals begin at
  -- 0x10000250, one every 0x10 bytes, and this is the last of the four words.
  abbrev pub transmitter : Word
  transmitter = (0x10000250 +w (asid -w 1) *w 0x10) + 12

  -- The character at `i` is given to the process's own terminal, and awaited.
  abbrev pub char_events : (ℕ → Word) → Word → List Event → List Event
  char_events chars i t =
      call wait_io term_int (asid -w 1) 0
      ∷ store transmitter (bit_or (shl (chars (virt_addr +w i)) 8) transm_char)
      ∷ t

  abbrev after_char : Word → Vm → Vm
  after_char i m = record m {
    cp0_status = ints_on (ints_off m.cp0_status);
    answered = suc m.answered;
    trace = char_events m.chars i m.trace;
  }

  after_chars : ℕ → Word → Vm → Vm
  after_chars zero i m = m
  after_chars (suc n) i m = after_chars n (i + 1) (after_char i m)

  -- The characters from `i` on, `n` of them, one after the other.
  unfoldable pub text_events : (ℕ → Word) → ℕ → Word → List Event → List Event
  text_events chars zero i t = t
  text_events chars (suc n) i t = text_events chars n (i + 1) (char_events chars i t)

  index_after : ℕ → Word → Word → Word
  index_after zero i status = status
  index_after (suc n) i status = i + n

  -- The next `n` calls return "character transmitted".
  abbrev pub AllSent : ℕ → Vm → Type 0
  AllSent n m = (j : ℕ) → j < n → m.answers (m.answered + j) ≡ char_transmd

  index-next : (n : ℕ) (i : Word) → index_after n (i + 1) i ≡ i + n
  unfolding index_after
  index-next zero i = omega arith
  index-next (suc n) i = omega arith

  sent_one :
      (k : ℕ) (i status : Word) (m : Vm)
      → i + 1 < word_mod
      → m.answers m.answered ≡ char_transmd
      → write_loop asid virt_addr (suc k) i status m
        ≡ write_loop asid virt_addr k (i + 1) i (after_char i m)
  unfolding write_loop syscall disable_ints
  sent_one k i status m h a = let next : i +w 1 ≡ i + 1 = omega arith in rw (a, next) refl

  loop-sent :
      (n k : ℕ) (i status : Word) (m : Vm)
      → i + n + k < word_mod
      → AllSent n m
      → write_loop asid virt_addr (n + k) i status m
        ≡ write_loop asid virt_addr k (i + n) (index_after n i status) (after_chars n i m)
  unfolding after_chars index_after
  loop-sent zero k i status m h a =
      let z : i + 0 ≡ i = omega arith in let zk : 0 + k ≡ k = omega arith in rw (z, zk) refl
  loop-sent (suc n) k i status m h a =
      let first : m.answered + 0 ≡ m.answered = omega arith in
      let more : suc n + k ≡ suc (n + k) = omega arith in
      let place : i + 1 + n ≡ i + suc n = omega arith in
      ap (λ t. write_loop asid virt_addr t i status m) more
      ∙ sent_one (n + k) i status m (omega arith) (ap m.answers (sym first) ∙ a 0 (omega arith))
      ∙ loop-sent n k (i + 1) i (after_char i m) (omega arith) (λ j hj.
        let here : m.answered + suc j ≡ suc m.answered + j = omega arith in
        ap m.answers (sym here) ∙ a (suc j) (omega arith))
      ∙ rw (place, index-next n i) refl

  loop-refused :
      (k : ℕ) (i status : Word) (m : Vm)
      → m.answers m.answered ≢ char_transmd
      → write_loop asid virt_addr (suc k) i status m
        ≡ ok (0 -w m.answers m.answered) (after_char i m)
  unfolding write_loop syscall disable_ints
  loop-refused k i status m h = rw (==_ne (m.answers m.answered) char_transmd h) refl

  trace-chars :
      (n : ℕ) (i : Word) (m : Vm) → (after_chars n i m).trace ≡ text_events m.chars n i m.trace
  unfolding after_chars text_events
  trace-chars zero i m = refl
  trace-chars (suc n) i m = trace-chars n (i + 1) (after_char i m)

  procs-chars : (n : ℕ) (i : Word) (m : Vm) → (after_chars n i m).u_procs ≡ m.u_procs
  unfolding after_chars
  procs-chars zero i m = refl
  procs-chars (suc n) i m = procs-chars n (i + 1) (after_char i m)

  answers-chars :
      (n : ℕ) (i : Word) (m : Vm)
      → (after_chars n i m).answers (after_chars n i m).answered ≡ m.answers (m.answered + n)
  unfolding after_chars
  answers-chars zero i m = let z : m.answered + 0 ≡ m.answered = omega arith in ap m.answers (sym z)
  answers-chars (suc n) i m =
      let next : suc m.answered + n ≡ m.answered + suc n = omega arith in
      answers-chars n (i + 1) (after_char i m) ∙ ap m.answers next

  chars-kept : (n : ℕ) (i : Word) (m : Vm) → (after_chars n i m).chars ≡ m.chars
  unfolding after_chars
  chars-kept zero i m = refl
  chars-kept (suc n) i m = chars-kept n (i + 1) (after_char i m)

  text-last :
      (chars : ℕ → Word) (n : ℕ) (i : Word) (t : List Event)
      → char_events chars (i + n) (text_events chars n i t) ≡ text_events chars (suc n) i t
  unfolding text_events
  text-last chars zero i t = let z : i + 0 ≡ i = omega arith in rw z refl
  text-last chars (suc n) i t =
      let place : i + suc n ≡ i + 1 + n = omega arith in
      rw place (text-last chars n (i + 1) (char_events chars i t))

  -- The loop on `len` characters from `m` on: it has given `n` of them to the terminal.
  pub record Looped (len n : ℕ) (status start : Word) (m : Vm) : Type 0 where
    pub last : Vm
    pub runs : write_loop asid virt_addr len 0 start m ≡ ok status last
    pub events : last.trace ≡ text_events m.chars n 0 m.trace
    pub procs : last.u_procs ≡ m.u_procs

  pub write_loop-AllSent :
      (n : ℕ) (start : Word) (m : Vm)
      → suc n < word_mod
      → AllSent (suc n) m
      → Looped (suc n) (suc n) n start m
  unfolding index_after write_loop
  write_loop-AllSent n start m h all =
      let more : suc n ≡ suc n + 0 = omega arith in
      let none : 0 + n ≡ n = omega arith in
      record {
        last = after_chars (suc n) 0 m;
        runs =
            ap (λ t. write_loop asid virt_addr t 0 start m) more
            ∙ loop-sent (suc n) 0 0 start m (omega arith) all
            ∙ ap (λ t. ok t (after_chars (suc n) 0 m)) none;
        events = trace-chars (suc n) 0 m;
        procs = procs-chars (suc n) 0 m;
      }

  pub write_loop-refused :
      (len n : ℕ) (start : Word) (m : Vm)
      → n < len
      → len < word_mod
      → AllSent n m
      → m.answers (m.answered + n) ≢ char_transmd
      → Looped len (suc n) (0 -w m.answers (m.answered + n)) start m
  write_loop-refused len n start m h word all refused =
      let k : ℕ = len - suc n in
      let split : len ≡ n + suc k = omega arith in
      let m' : Vm = after_chars n 0 m in
      record {
        last = after_char (0 + n) m';
        runs =
            ap (λ t. write_loop asid virt_addr t 0 start m) split
            ∙ loop-sent n (suc k) 0 start m (omega arith) all
            ∙ loop-refused k (0 + n) (index_after n 0 start) m'
                (λ e. refused (sym (answers-chars n 0 m) ∙ e))
            ∙ ap (λ t. ok (0 -w t) (after_char (0 + n) m')) (answers-chars n 0 m);
        events =
            ap (λ c. char_events c (0 + n) m'.trace) (chars-kept n 0 m)
            ∙ ap (λ t. char_events m.chars (0 + n) t) (trace-chars n 0 m)
            ∙ text-last m.chars n 0 m.trace;
        procs = procs-chars n 0 m;
      }
