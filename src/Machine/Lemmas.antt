-- ===== src/Machine/Lemmas.antt =====
-- What a read and a write do at a pointer that may be dereferenced, and at one that may not.
use patrick_landon_os.Base.{◌≡◌, refl, true, Word}
use patrick_landon_os.Machine.Memory.{Ptr, null, live, get, upd}
use patrick_landon_os.Types.{State, Pcb, Semd, zero_state, blank_pcb, blank_semd}
use patrick_landon_os.Machine.{
  Machine, ok, fault, load_pcb, load_semd, load_int, load_state, modify_state, modify_pcb,
  modify_semd, modify_int,
}

module _ (m : Machine) (p : Ptr) (e : live m.pcbs p ≡ true) where
  pub load_pcb-ok : load_pcb p m ≡ ok (get blank_pcb m.pcbs p) m
  unfolding load_pcb
  load_pcb-ok = rw e

  pub modify_pcb-ok :
      (f : Pcb → Pcb) → modify_pcb p f m ≡ ok tt (record m { pcbs = upd m.pcbs p f })
  unfolding modify_pcb
  modify_pcb-ok f = rw e

module _ (m : Machine) (p : Ptr) (e : live m.semds p ≡ true) where
  pub load_semd-ok : load_semd p m ≡ ok (get blank_semd m.semds p) m
  unfolding load_semd
  load_semd-ok = rw e

  pub modify_semd-ok :
      (f : Semd → Semd) → modify_semd p f m ≡ ok tt (record m { semds = upd m.semds p f })
  unfolding modify_semd
  modify_semd-ok f = rw e

module _ (m : Machine) (p : Ptr) (e : live m.ints p ≡ true) where
  pub load_int-ok : load_int p m ≡ ok (get 0 m.ints p) m
  unfolding load_int
  load_int-ok = rw e

  pub modify_int-ok :
      (f : Word → Word) → modify_int p f m ≡ ok tt (record m { ints = upd m.ints p f })
  unfolding modify_int
  modify_int-ok f = rw e

module _ (m : Machine) (p : Ptr) (e : live m.states p ≡ true) where
  pub load_state-ok : load_state p m ≡ ok (get zero_state m.states p) m
  unfolding load_state
  load_state-ok = rw e

  pub modify_state-ok :
      (f : State → State) → modify_state p f m ≡ ok tt (record m { states = upd m.states p f })
  unfolding modify_state
  modify_state-ok f = rw e

-- A store through NULL.
pub modify_pcb-null : (m : Machine) (f : Pcb → Pcb) → modify_pcb null f m ≡ fault
unfolding modify_pcb live
modify_pcb-null m f = refl
