-- ===== src/P1test.antt =====
-- phase1/p1test.c: the test program of phase 1, with the terminal that it prints on. `main` stands in
-- P1test.Main.
pub mod Queues
pub mod Trees
pub mod Blocked
pub mod Main
pub mod Says
pub mod Alloc
pub mod Insert
pub mod Fails
use patrick_landon_os.Base.{
  ℕ, zero, suc, ◌+◌, ◌*◌, Bool, true, false, not, List, [], ◌∷◌, ◌++◌, length, Word, ltb, ◌==◌,
  ◌||◌, bit_and, bit_or, shl, if◌then◌else◌,
}
use patrick_landon_os.Const.{ready, busy, status_mask, devreg_size, tran_command, devreg_len}
use patrick_landon_os.Machine.Memory.{Ptr, null}
use patrick_landon_os.Machine
use Prim.Native.Char.{code}
use Prim.Native.String.{String}

-- The variables of the program, and what the terminal does: `stat` gives the successive readings of its
-- status register, `stat_reads` says how many were made, and `sent` has the writes to its command
-- register, the last one first, each with the address.
pub record Test : Type 0 where
  pub kernel : Machine.Machine
  pub okbuf : List ℕ  -- the characters before `mp`
  pub errbuf : List ℕ
  pub procp : ℕ → Ptr
  pub p : Ptr
  pub qa : Ptr
  pub q : Ptr
  pub firstproc : Ptr
  pub lastproc : Ptr
  pub midproc : Ptr
  pub stat : ℕ → Word
  pub stat_reads : ℕ
  pub sent : List (Word × Word)

-- What the linker chooses, and the rounds that the program is given while the terminal is busy.
pub record Places : Type 0 where
  pub pcb_arr : Ptr
  pub semd_arr : Ptr
  pub sem : Ptr
  pub onesem : Ptr
  pub patience : ℕ

pub data Outcome (A : Type 0) : Type 0 where
  done : A → Test → Outcome A
  stopped : Machine.Exit → Test → Outcome A
  broken : Outcome A  -- an access where no object is, or past the end of a buffer
  starved : Outcome A

abbrev pub Step : Type 0 → Type 0
Step A = Test → Outcome A

abbrev pub pure : {A : Type 0} → A → Step A
pure a t = done a t

module _ {A B : Type 0} where
  abbrev pub continue : Outcome A → (A → Step B) → Outcome B
  continue (done a t) k = k a t
  continue (stopped e t) k = stopped e t
  continue broken k = broken
  continue starved k = starved

  infixl 5 ◌>>=◌ ◌>>◌
  abbrev pub ◌>>=◌ : Step A → (A → Step B) → Step B
  (c >>= k) t = continue (c t) k

  abbrev pub ◌>>◌ : Step A → Step B → Step B
  (c >> d) t = continue (c t) λ _. d

abbrev pub read : {A : Type 0} → (Test → A) → Step A
read f t = done (f t) t

abbrev pub change : (Test → Test) → Step (Unit {0})
change f t = done tt (f t)

abbrev pub when : Bool → Step (Unit {0}) → Step (Unit {0})
when b c t = if b then c t else done tt t

-- A call of a function of the kernel.
abbrev pub returned : {A : Type 0} → Test → Machine.Run A → Outcome A
returned t (Machine.ok a m) = done a (record t { kernel = m })
returned t (Machine.exit e m) = stopped e (record t { kernel = m })
returned t Machine.fault = broken
returned t Machine.out_of_fuel = starved

abbrev pub call : {A : Type 0} → Machine.Cmd A → Step A
call c t = returned t (c t.kernel)

abbrev pub codes : String → List ℕ
codes String.[] = []
codes (String.◌∷◌ c s) = code c ∷ codes s

abbrev pub transmitted : Word
transmitted = 5

abbrev pub printchr : Word
printchr = 2

abbrev pub charoffset : ℕ
charoffset = 8

abbrev pub term0addr : Word
term0addr = 0x10000250

abbrev pub dev_per_int : ℕ
dev_per_int = 8

unfoldable pub termstat : Step Word
termstat t =
    done (bit_and (t.stat t.stat_reads) status_mask) (record t { stat_reads = suc t.stat_reads })

-- The loop that waits until the terminal is not busy; the status that it ends with.
unfoldable pub busy_loop : ℕ → Step Word
unfolding termstat
busy_loop zero t = starved
busy_loop (suc k) t = (do stat ← termstat; if stat == busy then busy_loop k else pure stat) t

-- The loop over the characters; whether it ends with an error.
unfoldable pub print_loop : Places → (commandp : Word) → List ℕ → Step Bool
unfolding busy_loop
print_loop l commandp [] = pure false
print_loop l commandp (c ∷ str) = do
  change (λ t. record t { sent = (commandp, bit_or (shl c charoffset) printchr) ∷ t.sent })
  stat ← busy_loop l.patience
  if not (stat == transmitted) then pure true else print_loop l commandp str

unfoldable pub termprint : Places → List ℕ → ℕ → Step Bool
unfolding print_loop termstat
termprint l str term = if not (ltb term dev_per_int) then pure false else do
  stat ← termstat
  if not (stat == ready || stat == transmitted) then pure false else do
    error ← print_loop l (term0addr + term * devreg_size + tran_command * devreg_len) str
    pure (not error)

-- A text and its end fit in `okbuf`, from `mp` on.
unfoldable pub addokbuf : Places → List ℕ → Step (Unit {0})
unfolding termprint
addokbuf l strp = do
  before ← read (λ t. t.okbuf)
  if not (ltb (length before + length strp) 2048)
      then (λ t. broken)
      else do change (λ t. record t { okbuf = before ++ strp }); termprint l strp 0; pure tt

unfoldable pub adderrbuf : Places → List ℕ → Step (Unit {0})
unfolding termprint
adderrbuf l strp = if not (ltb (length strp) 128) then (λ t. broken) else do
  change (λ t. record t { errbuf = strp })
  termprint l strp 0
  λ t. stopped Machine.panic t
