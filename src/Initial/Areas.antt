-- ===== src/Initial/Areas.antt =====
-- The new areas that `main` fills in, one for each kind of exception.
use patrick_landon_os.Base.{◌≡◌, true, Word, ◌+w◌, ◌∙◌, if◌then◌else◌, ap, ◌==◌}
use patrick_landon_os.Machine.{Machine, ok, modify_state}
use patrick_landon_os.Machine.Memory.{Ptr, Store, live, get, upd, live-upd, get-upd}
use patrick_landon_os.Types.{State, zero_state}
use patrick_landon_os.Const.{syscall_new, prog_trap_new, tlb_mgmt_new, inter_new}
use patrick_landon_os.Layout.{Layout}
use patrick_landon_os.Initial.{handler_state}
use patrick_landon_os.Machine.Lemmas.{modify_state-ok}

-- The four areas are in memory.
pub record HasAreas (m : Machine) : Type 0 where
  pub syscall : live m.states syscall_new ≡ true
  pub prog_trap : live m.states prog_trap_new ≡ true
  pub tlb_mgmt : live m.states tlb_mgmt_new ≡ true
  pub inter : live m.states inter_new ≡ true

module _ (l : Layout) (m : Machine) (ar : HasAreas m) where
  abbrev pub ramtop : Word
  ramtop = m.rambase +w m.ramsize

  abbrev area₁ : Store State
  area₁ = upd m.states syscall_new (handler_state l.sys_call_handler ramtop)

  abbrev area₂ : Store State
  area₂ = upd area₁ prog_trap_new (handler_state l.prog_trap_handler ramtop)

  abbrev area₃ : Store State
  area₃ = upd area₂ tlb_mgmt_new (handler_state l.tlb_trap_handler ramtop)

  abbrev pub areas : Store State
  areas = upd area₃ inter_new (handler_state l.io_trap_handler ramtop)

  live₁ : (a : Ptr) → live area₁ a ≡ live m.states a
  live₁ a = live-upd m.states syscall_new (handler_state l.sys_call_handler ramtop) a

  live₂ : (a : Ptr) → live area₂ a ≡ live m.states a
  live₂ a = live-upd area₁ prog_trap_new (handler_state l.prog_trap_handler ramtop) a ∙ live₁ a

  live₃ : (a : Ptr) → live area₃ a ≡ live m.states a
  live₃ a = live-upd area₂ tlb_mgmt_new (handler_state l.tlb_trap_handler ramtop) a ∙ live₂ a

  pub fill₁ :
      modify_state syscall_new (handler_state l.sys_call_handler ramtop) m
      ≡ ok tt (record m { states = area₁ })
  fill₁ = modify_state-ok m syscall_new ar.syscall (handler_state l.sys_call_handler ramtop)

  pub fill₂ :
      modify_state prog_trap_new
        (handler_state l.prog_trap_handler ramtop)
        (record m { states = area₁ })
      ≡ ok tt (record m { states = area₂ })
  fill₂ =
      modify_state-ok (record m { states = area₁ }) prog_trap_new
        (live₁ prog_trap_new ∙ ar.prog_trap) (handler_state l.prog_trap_handler ramtop)

  pub fill₃ :
      modify_state tlb_mgmt_new
        (handler_state l.tlb_trap_handler ramtop)
        (record m { states = area₂ })
      ≡ ok tt (record m { states = area₃ })
  fill₃ =
      modify_state-ok (record m { states = area₂ }) tlb_mgmt_new (live₂ tlb_mgmt_new ∙ ar.tlb_mgmt)
        (handler_state l.tlb_trap_handler ramtop)

  pub fill₄ :
      modify_state inter_new (handler_state l.io_trap_handler ramtop) (record m { states = area₃ })
      ≡ ok tt (record m { states = areas })
  fill₄ =
      modify_state-ok (record m { states = area₃ }) inter_new (live₃ inter_new ∙ ar.inter)
        (handler_state l.io_trap_handler ramtop)

  get₁ :
      (a : Ptr)
      → get zero_state area₁ a ≡ (
          if a == syscall_new
          then handler_state l.sys_call_handler ramtop (get zero_state m.states a)
          else get zero_state m.states a)
  get₁ a =
      get-upd zero_state m.states syscall_new (handler_state l.sys_call_handler ramtop) a ar.syscall

  get₂ :
      (a : Ptr)
      → get zero_state area₂ a ≡ (
          if a == prog_trap_new
          then handler_state l.prog_trap_handler ramtop (get zero_state area₁ a)
          else get zero_state area₁ a)
  get₂ a =
      get-upd zero_state area₁ prog_trap_new (handler_state l.prog_trap_handler ramtop) a
        (live₁ prog_trap_new ∙ ar.prog_trap)

  get₃ :
      (a : Ptr)
      → get zero_state area₃ a ≡ (
          if a == tlb_mgmt_new
          then handler_state l.tlb_trap_handler ramtop (get zero_state area₂ a)
          else get zero_state area₂ a)
  get₃ a =
      get-upd zero_state area₂ tlb_mgmt_new (handler_state l.tlb_trap_handler ramtop) a
        (live₂ tlb_mgmt_new ∙ ar.tlb_mgmt)

  get₄ :
      (a : Ptr)
      → get zero_state areas a ≡ (
          if a == inter_new
          then handler_state l.io_trap_handler ramtop (get zero_state area₃ a)
          else get zero_state area₃ a)
  get₄ a =
      get-upd zero_state area₃ inter_new (handler_state l.io_trap_handler ramtop) a
        (live₃ inter_new ∙ ar.inter)

  -- Each area has the state that starts its handler.
  pub areas-syscall :
      get zero_state areas syscall_new
      ≡ handler_state l.sys_call_handler ramtop (get zero_state m.states syscall_new)
  areas-syscall = get₄ syscall_new ∙ get₃ syscall_new ∙ get₂ syscall_new ∙ get₁ syscall_new

  pub areas-prog_trap :
      get zero_state areas prog_trap_new
      ≡ handler_state l.prog_trap_handler ramtop (get zero_state m.states prog_trap_new)
  areas-prog_trap =
      get₄ prog_trap_new
      ∙ get₃ prog_trap_new
      ∙ get₂ prog_trap_new
      ∙ ap (handler_state l.prog_trap_handler ramtop) (get₁ prog_trap_new)

  pub areas-tlb_mgmt :
      get zero_state areas tlb_mgmt_new
      ≡ handler_state l.tlb_trap_handler ramtop (get zero_state m.states tlb_mgmt_new)
  areas-tlb_mgmt =
      get₄ tlb_mgmt_new
      ∙ get₃ tlb_mgmt_new
      ∙ ap (handler_state l.tlb_trap_handler ramtop) (get₂ tlb_mgmt_new ∙ get₁ tlb_mgmt_new)

  pub areas-inter :
      get zero_state areas inter_new
      ≡ handler_state l.io_trap_handler ramtop (get zero_state m.states inter_new)
  areas-inter =
      get₄ inter_new
      ∙ ap (handler_state l.io_trap_handler ramtop)
          (get₃ inter_new ∙ get₂ inter_new ∙ get₁ inter_new)
