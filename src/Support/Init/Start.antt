-- ===== src/Support/Init/Start.antt =====
-- `test` from its first statement to its end.
use patrick_landon_os.Support.Terminate.{no_asid}
use patrick_landon_os.Base.{
  ℕ, zero, suc, ◌+◌, ◌*◌, ◌<◌, ◌≡◌, refl, ap, true, List, ◌∷◌, arith, digit, ◌==◌, Bool-cases, inl,
  inr, ◌-◌,
}
use patrick_landon_os.Const.{
  pool_size, max_uproc, kuseg_pte_size, max_pages, device_cnt, kseg_os_pte_size, success,
  terminate_process, passeren, seg_table_start,
}
use patrick_landon_os.Types.{State}
use patrick_landon_os.Support.Tables.{
  kseg_os_table, kuseg3_table, u_table, SegTable, UProc, PteEntry, SwapEntry,
}
use patrick_landon_os.Support.Vm.{
  Vm, Places, Event, create, call, gone, ended, put, modify_uproc, syscall, end_with,
}
use patrick_landon_os.Support.Pager.{frame_addr, asid_of}
use patrick_landon_os.Support.Pool.{IsMapped, lo_in}
use patrick_landon_os.Support.Init.{
  test, create_loop, wait_loop, create_proc, init_u_proc, start_state, fill_entries, empty_frame,
  user_entry, table_header, kseg_os_entry, kuseg3_entry,
}
use patrick_landon_os.Support.Init.Fill.{
  fill_entries-inside, init_dev_sems-fill, init_swap_pool-fill,
}

-- The segment table of the process `p`.
abbrev pub segments : ℕ → SegTable
segments p = record { st_kseg_os = kseg_os_table; st_kuseg2 = u_table p; st_kuseg3 = kuseg3_table }

-- The calls of `test`, the latest first.
abbrev pub test_events : Places → State → List Event → List Event
test_events l s t =
    call terminate_process 0 0 0
    ∷ call passeren l.master_sem_addr 0 0
    ∷ call passeren l.master_sem_addr 0 0
    ∷ create (start_state l 2 (start_state l 1 s))
    ∷ create (start_state l 1 s)
    ∷ t

-- What `test` leaves behind.
pub record Started (l : Places) (m : Vm) : Type 0 where
  pub last : Vm
  pub runs : test l m ≡ gone (ended terminate_process) last
  pub agrees : IsMapped (λ p. true) last.swap_pool (lo_in last.u_procs) (frame_addr last)
  pub empty : (f : ℕ) → f < pool_size → (last.swap_pool f).sp_asid ≡ no_asid
  pub invalid :
      (p q : ℕ) → p < max_uproc → q < kuseg_pte_size → digit (lo_in last.u_procs p q) 9 ≡ 0
  pub calls : last.trace ≡ test_events l m.uninit_state m.trace
  pub tables : (p : ℕ) → p < max_uproc → last.seg_tables (seg_table_start + suc p * 12) ≡ segments p
  pub mutexes : (k : ℕ) → k < device_cnt → last.dev_sem_array k ≡ 1
  pub swap_mutex : last.swap_pool_sem ≡ 1
  pub master : last.master_sem ≡ 0
  pub turn : last.frame_no ≡ m.frame_no
  pub asids : (p : ℕ) (s : State) → p < max_uproc → asid_of (start_state l (suc p) s).s_asid ≡ suc p

module _ (l : Places) (m : Vm) (made : (k : ℕ) → m.answers k ≡ success) where
  abbrev pub procs : ℕ → UProc
  procs =
      let one = put m.u_procs 0 (init_u_proc 1 (m.u_procs 0)) in put one 1 (init_u_proc 2 (one 1))

  unfoldable pub final : Vm
  final = record m {
    master_sem = 0;
    swap_pool_sem = 1;
    dev_sem_array = fill_entries (λ j. 1) device_cnt 0 m.dev_sem_array;
    swap_pool = fill_entries (λ j. empty_frame) pool_size 0 m.swap_pool;
    u_procs = procs;
    kseg_os = record {
      header = table_header kseg_os_pte_size;
      pte_table = fill_entries kseg_os_entry kseg_os_pte_size 0 m.kseg_os.pte_table;
    };
    kuseg3 = record {
      header = table_header kuseg_pte_size;
      pte_table = fill_entries kuseg3_entry kuseg_pte_size 0 m.kuseg3.pte_table;
    };
    seg_tables =
        put (put m.seg_tables (seg_table_start + 12) (segments 0)) (seg_table_start + 24)
          (segments 1);
    answered = suc (suc (suc (suc m.answered)));
    trace = test_events l m.uninit_state m.trace;
  }

  pub test-runs : test l m ≡ gone (ended terminate_process) final
  unfolding test final create_loop create_proc wait_loop modify_uproc syscall end_with
  test-runs =
      rw
        (
          init_dev_sems-fill device_cnt 0 (record m { master_sem = 0; swap_pool_sem = 1 }),
          init_swap_pool-fill pool_size 0
              (record m {
                master_sem = 0;
                swap_pool_sem = 1;
                dev_sem_array = fill_entries (λ j. 1) device_cnt 0 m.dev_sem_array;
              })
              (omega arith),
          made m.answered,
          made (suc m.answered),
        )
        refl

  free_frame : (f : ℕ) → f < pool_size → final.swap_pool f ≡ empty_frame
  unfolding final
  free_frame f h = fill_entries-inside (λ j. empty_frame) pool_size 0 m.swap_pool f (omega arith) h

  -- The low words of the entries of a process.
  invalid_entry :
      (i q : ℕ) (u : UProc)
      → q < kuseg_pte_size
      → ((init_u_proc i u).u_pte.pte_table q).pte_entry_lo ≡ 0x400
  unfolding init_u_proc
  invalid_entry i q u h = elim (Bool-cases (q == max_pages - 1)) [
    | inl e ↦ rw e (
        ap (λ (x : PteEntry). x.pte_entry_lo)
          (fill_entries-inside (user_entry i) max_pages 0 u.u_pte.pte_table 31 (omega arith)
            (omega arith)))
    | inr ne ↦ rw ne (
        ap (λ (x : PteEntry). x.pte_entry_lo)
          (fill_entries-inside (user_entry i) max_pages 0 u.u_pte.pte_table q (omega arith)
            (omega arith)))
  ]

  invalid : (p q : ℕ) → p < max_uproc → q < kuseg_pte_size → lo_in procs p q ≡ 0x400
  invalid zero q hp hq = invalid_entry 1 q (m.u_procs 0) hq
  invalid (suc zero) q hp hq = invalid_entry 2 q (m.u_procs 1) hq
  invalid (suc (suc p)) q hp hq = absurd (omega arith)

  started-IsMapped : IsMapped (λ p. true) final.swap_pool (lo_in final.u_procs) (frame_addr final)
  unfolding final
  started-IsMapped = record {
    sound = λ f h taken. absurd (taken (ap (λ (e : SwapEntry). e.sp_asid) (free_frame f h)));
    complete =
        λ p q hp hq alive v. absurd (omega (arith, v, ap (λ w. digit w 9) (invalid p q hp hq)));
    once =
        λ p q f g i j. absurd (i.taken (ap (λ (e : SwapEntry). e.sp_asid) (free_frame f i.range)));
  }

  segments_at :
      (p : ℕ) → p < max_uproc → final.seg_tables (seg_table_start + suc p * 12) ≡ segments p
  unfolding final
  segments_at zero h = refl
  segments_at (suc zero) h = refl
  segments_at (suc (suc p)) h = absurd (omega arith)

  asid_at : (p : ℕ) (s : State) → p < max_uproc → asid_of (start_state l (suc p) s).s_asid ≡ suc p
  asid_at p s h = omega arith

-- `test`, where every process is created: it ends the first process; it has called for the creation
-- of the two user processes, each with a state of its own address space identifier, and then waited
-- twice for the end of one; the swap pool is empty and agrees with the page tables, whose entries are
-- invalid; each segment table has the page table of its process between the two that are shared; the
-- semaphores of the pool and of the devices are 1, that of the master is 0.
pub test-IsMapped : (l : Places) (m : Vm) → ((k : ℕ) → m.answers k ≡ success) → Started l m
unfolding final
test-IsMapped l m made = record {
  last = final l m made;
  runs = test-runs l m made;
  agrees = started-IsMapped l m made;
  empty = λ f h. ap (λ (e : SwapEntry). e.sp_asid) (free_frame l m made f h);
  invalid = λ p q hp hq. ap (λ w. digit w 9) (invalid l m made p q hp hq);
  calls = refl;
  tables = segments_at l m made;
  mutexes = λ k h. fill_entries-inside (λ j. 1) device_cnt 0 m.dev_sem_array k (omega arith) h;
  swap_mutex = refl;
  master = refl;
  turn = refl;
  asids = asid_at l m made;
}
