-- ===== src/Machine.antt =====
-- The state that the functions of the kernel share, and the commands that read and write it.
pub mod Memory
pub mod Frame
pub mod Lemmas
use patrick_landon_os.Base.{
  ℕ, suc, ◌≡◌, Bool, true, false, List, Option, none, some, Word, if◌then◌else◌, ◌==◌, ◌%◌, ◌*◌,
  sdiv, word_mod,
}
use patrick_landon_os.Machine.Memory.{Ptr, null, Store, live, get, upd}
use patrick_landon_os.Types.{State, Pcb, Semd, Device, zero_state, blank_pcb, blank_semd}

-- The variables of pcb.c, asl.c, initial.c and scheduler.c, the memory that they point into, and
-- the registers of the machine that the kernel reads or sets.
pub record Machine : Type 0 where
  pub pcb_free_h : Ptr
  pub semd_active_h : Ptr
  pub semd_free_h : Ptr
  pub proc_cnt : Word
  pub sft_blk_cnt : Word
  pub ready_que : Ptr
  pub current_proc : Ptr
  pub start_tod : Word
  pub io_proc_time : Word
  pub waiting : Bool
  pub pcbs : Store Pcb
  pub semds : Store Semd
  pub ints : Store Word  -- semaphores
  pub states : Store State  -- processor states outside a process block
  pub devices : Store Device
  pub interrupt_dev : List Word  -- the pending devices of each line
  pub rambase : Word
  pub ramsize : Word
  pub tod : ℕ → Word  -- the successive readings of the time-of-day register
  pub readings : ℕ  -- how many were made
  pub timescale : Word
  pub timer : Word  -- the processor's local timer
  pub interval_timer : Word
  pub cp0_status : Word  -- the status register

-- A way by which control leaves the kernel and does not come back to the caller.
pub data Exit : Type 0 where
  ldst : State → Exit
  halt : Exit
  panic : Exit
  wait : Exit

pub data Run (A : Type 0) : Type 0 where
  ok : A → Machine → Run A
  exit : Exit → Machine → Run A
  fault : Run A  -- an access where no object is
  out_of_fuel : Run A

abbrev pub Cmd : Type 0 → Type 0
Cmd A = Machine → Run A

abbrev pub pure : {A : Type 0} → A → Cmd A
pure a m = ok a m

abbrev pub leave : {A : Type 0} → Exit → Cmd A
leave e m = exit e m

abbrev pub crash : {A : Type 0} → Cmd A
crash m = fault

abbrev pub starve : {A : Type 0} → Cmd A
starve m = out_of_fuel

module _ {A B : Type 0} where
  abbrev pub continue : Run A → (A → Cmd B) → Run B
  continue (ok a m) k = k a m
  continue (exit e m) k = exit e m
  continue fault k = fault
  continue out_of_fuel k = out_of_fuel

  infixl 5 ◌>>=◌ ◌>>◌
  abbrev pub ◌>>=◌ : Cmd A → (A → Cmd B) → Cmd B
  (c >>= k) m = continue (c m) k

  abbrev pub ◌>>◌ : Cmd A → Cmd B → Cmd B
  (c >> d) m = continue (c m) λ _. d

-- Reads a variable, and changes the variables.
abbrev pub read : {A : Type 0} → (Machine → A) → Cmd A
read f m = ok (f m) m

abbrev pub change : (Machine → Machine) → Cmd (Unit {0})
change f m = ok tt (f m)

abbrev pub when : Bool → Cmd (Unit {0}) → Cmd (Unit {0})
when b c m = if b then c m else ok tt m

abbrev pub set_pcbs : Store Pcb → Machine → Machine
set_pcbs h m = record m { pcbs = h }

-- `*p`, for a pointer into each kind of object.
unfoldable pub load_pcb : Ptr → Cmd Pcb
load_pcb p m = if live m.pcbs p then ok (get blank_pcb m.pcbs p) m else fault

unfoldable pub load_semd : Ptr → Cmd Semd
load_semd p m = if live m.semds p then ok (get blank_semd m.semds p) m else fault

unfoldable pub load_int : Ptr → Cmd Word
load_int p m = if live m.ints p then ok (get 0 m.ints p) m else fault

unfoldable pub load_state : Ptr → Cmd State
load_state p m = if live m.states p then ok (get zero_state m.states p) m else fault

-- Assignments to fields of `*p`.
unfoldable pub modify_pcb : Ptr → (Pcb → Pcb) → Cmd (Unit {0})
modify_pcb p f m = if live m.pcbs p then ok tt (record m { pcbs = upd m.pcbs p f }) else fault

unfoldable pub modify_semd : Ptr → (Semd → Semd) → Cmd (Unit {0})
modify_semd p f m = if live m.semds p then ok tt (record m { semds = upd m.semds p f }) else fault

unfoldable pub modify_int : Ptr → (Word → Word) → Cmd (Unit {0})
modify_int p f m = if live m.ints p then ok tt (record m { ints = upd m.ints p f }) else fault

unfoldable pub modify_state : Ptr → (State → State) → Cmd (Unit {0})
modify_state p f m =
    if live m.states p then ok tt (record m { states = upd m.states p f }) else fault
