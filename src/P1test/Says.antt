-- ===== src/P1test/Says.antt =====
-- A message of phase1/p1test.c: where the terminal is at last ready, it is printed or given up.
use patrick_landon_os.Base.{
  ℕ, zero, suc, ◌+◌, ◌<◌, ◌≡◌, refl, true, false, not, List, [], ◌∷◌, ◌++◌, length, Word, ◌==◌,
  ◌||◌, bit_and, arith, Bool-cases, inr, inl, lt→ltb, bit_or, subst, shl, ◌*◌,
}
use patrick_landon_os.Const.{busy, status_mask, devreg_size, tran_command, devreg_len, ready}
use patrick_landon_os.Machine
use patrick_landon_os.P1test.{
  Test, Places, done, stopped, termstat, busy_loop, print_loop, termprint, addokbuf, adderrbuf,
  Step, term0addr, charoffset, printchr, transmitted,
}

-- After any number of readings, one of the next `patience` ones has the terminal not busy.
abbrev pub IsResponsive : Places → (ℕ → Word) → Type 0
IsResponsive l stat =
    (n : ℕ) → (k : ℕ) × (k < l.patience) × ((bit_and (stat (n + k)) status_mask == busy) ≡ false)

-- What printing changes.
abbrev pub heard : ℕ → List (Word × Word) → Test → Test
heard reads sent t = record t { stat_reads = reads; sent = sent }

-- A step that returns, having changed no more than that.
pub record Heard {A : Type 0} (c : Step A) (t : Test) : Type 0 where
  pub result : A
  pub reads : ℕ
  pub sent : List (Word × Word)
  pub runs : c t ≡ done result (heard reads sent t)

busy_loop-Heard :
    (rounds k : ℕ) (t : Test)
    → k < rounds
    → (bit_and (t.stat (t.stat_reads + k)) status_mask == busy) ≡ false
    → Heard (busy_loop rounds) t
unfolding busy_loop termstat
busy_loop-Heard zero k t lt free = absurd (omega (arith, lt))
busy_loop-Heard (suc rounds) zero t lt free =
    let at : t.stat_reads + 0 ≡ t.stat_reads = omega arith in
    record {
      result = bit_and (t.stat t.stat_reads) status_mask;
      reads = suc t.stat_reads;
      sent = t.sent;
      runs = rw (subst (λ n. (bit_and (t.stat n) status_mask == busy) ≡ false) at free) refl;
    }
busy_loop-Heard (suc rounds) (suc k) t lt free =
    let now = bit_and (t.stat t.stat_reads) status_mask in
    let next = record t { stat_reads = suc t.stat_reads } in
    let later : t.stat_reads + suc k ≡ suc t.stat_reads + k = omega arith in
    elim (Bool-cases (now == busy)) [
      | inr free_now ↦ record {
        result = now;
        reads = suc t.stat_reads;
        sent = t.sent;
        runs = rw free_now refl;
      }
      | inl waits ↦
          let r =
            busy_loop-Heard rounds k next (omega (arith, lt))
              (subst (λ n. (bit_and (t.stat n) status_mask == busy) ≡ false) later free) in
          record { result = r.result; reads = r.reads; sent = r.sent; runs = rw waits r.runs }
    ]

module _ (l : Places) where
  print_loop-Heard :
      (commandp : Word) (str : List ℕ) (t : Test)
      → IsResponsive l t.stat
      → Heard (print_loop l commandp str) t
  unfolding print_loop
  print_loop-Heard commandp [] t r = record {
    result = false;
    reads = t.stat_reads;
    sent = t.sent;
    runs = refl;
  }
  print_loop-Heard commandp (c ∷ str) t r =
      let told = heard t.stat_reads ((commandp, bit_or (shl c charoffset) printchr) ∷ t.sent) t in
      let (k, lt, free) = r t.stat_reads in
      let b = busy_loop-Heard l.patience k told lt free in
      let rest = print_loop-Heard commandp str (heard b.reads b.sent t) r in
      elim (Bool-cases (b.result == transmitted)) [
        | inl sent ↦ record {
          result = rest.result;
          reads = rest.reads;
          sent = rest.sent;
          runs = rw (b.runs, sent) rest.runs;
        }
        | inr failed ↦ record {
          result = true;
          reads = b.reads;
          sent = b.sent;
          runs = rw (b.runs, failed) refl;
        }
      ]

  termprint-Heard : (str : List ℕ) (t : Test) → IsResponsive l t.stat → Heard (termprint l str 0) t
  unfolding termprint termstat
  termprint-Heard str t r =
      let now = bit_and (t.stat t.stat_reads) status_mask in
      let next = heard (suc t.stat_reads) t.sent t in
      let loop =
        print_loop-Heard (term0addr + 0 * devreg_size + tran_command * devreg_len) str next r in
      elim (Bool-cases (now == ready || now == transmitted)) [
        | inl available ↦ record {
          result = not loop.result;
          reads = loop.reads;
          sent = loop.sent;
          runs = rw (available, loop.runs) refl;
        }
        | inr other ↦ record {
          result = false;
          reads = suc t.stat_reads;
          sent = t.sent;
          runs = rw other refl;
        }
      ]

  -- `addokbuf` of a text that still fits: it returns, and the text is behind what was there.
  pub record Said (str : List ℕ) (t : Test) : Type 0 where
    pub reads : ℕ
    pub sent : List (Word × Word)
    pub runs :
        addokbuf l str t
        ≡ done tt (record t { okbuf = t.okbuf ++ str; stat_reads = reads; sent = sent })

  pub addokbuf-Said :
      (str : List ℕ) (t : Test)
      → IsResponsive l t.stat
      → length t.okbuf + length str < 2048
      → Said str t
  unfolding addokbuf
  addokbuf-Said str t r fits =
      let p = termprint-Heard str (record t { okbuf = t.okbuf ++ str }) r in
      record {
        reads = p.reads;
        sent = p.sent;
        runs = rw (lt→ltb (length t.okbuf + length str) 2048 fits, p.runs) refl;
      }

  -- `adderrbuf` of a text that fits: the machine stops, with the text in `errbuf`.
  pub record Complained (str : List ℕ) (t : Test) : Type 0 where
    pub reads : ℕ
    pub sent : List (Word × Word)
    pub runs :
        adderrbuf l str t
        ≡ stopped Machine.panic (record t { errbuf = str; stat_reads = reads; sent = sent })

  pub adderrbuf-Complained :
      (str : List ℕ) (t : Test) → IsResponsive l t.stat → length str < 128 → Complained str t
  unfolding adderrbuf
  adderrbuf-Complained str t r fits =
      let p = termprint-Heard str (record t { errbuf = str }) r in
      record {
        reads = p.reads;
        sent = p.sent;
        runs = rw (lt→ltb (length str) 128 fits, p.runs) refl;
      }
