-- ===== src/Tests/Paging.antt =====
-- The theorems on virtual memory at a small machine.
use patrick_landon_os.Support.Terminate.{no_asid}
use patrick_landon_os.Base.{
  ℕ, ◌==◌, ◌&&◌, if◌then◌else◌, ◌≢◌, Bool, ◌≡◌, arith, true, Bool-cases, subst, inl, sym, eq_of_==,
  inr, ◌∙◌, refl, digit, ap, false,
}
use patrick_landon_os.Support.Vm.{Vm}
use patrick_landon_os.Support.Pager.{present, frame_addr}
use patrick_landon_os.Support.Pool.{IsMapped, In, Holds}
use patrick_landon_os.Support.Pager.Resolve.{Resolved, pager-IsMapped}
use patrick_landon_os.Support.Pager.Run.{IsFault, IsTrap}
use patrick_landon_os.Support.Init.Start.{Started, test-IsMapped, final, test-runs}
use patrick_landon_os.Support.Pager.Frame.{OneTurn, get_frame-OneTurn}
use patrick_landon_os.Support.Calls.Release.{GaveUp, terminate_user_proc-IsMapped}
use patrick_landon_os.Support.Pager.Stuck.{Stuck, pager-Stuck}
use patrick_landon_os.Support.Reach.{
  IsSound, Reachable, Reachable-IsSound, handed, elsewhere, started, page_in, gives_up,
}
use patrick_landon_os.Support.Init.{init_u_proc, fill_entries}
use patrick_landon_os.Support.Pool.Free.{all_but}
use patrick_landon_os.Tests.Vms.{places, trapped, one_page, one_frame, machine}

abbrev all_run : ℕ → Bool
all_run p = true

only_one : (f : ℕ) → (one_frame f).sp_asid ≢ no_asid → f ≡ 1
only_one f taken = elim (Bool-cases (f == 1)) [
  | inl e ↦ eq_of_== f 1 e
  | inr ne ↦ absurd (taken (rw ne refl))
]

In-one : In one_frame 0 3 1
In-one = record {
  range = omega arith;
  taken = λ e. absurd (omega (arith, e));
  proc = refl;
  page = refl;
}

invalid : (p q : ℕ) → (p == 0 && q == 3) ≡ false → digit (one_page p q) 9 ≢ 1
invalid p q e v =
    let z : digit (one_page p q) 9 ≡ 0 =
      ap (λ (b : Bool). digit (if b then present 0x1FB000 else 0) 9) e in
    absurd (omega (arith, z, v))

one_page-IsMapped : IsMapped all_run one_frame one_page (frame_addr machine)
one_page-IsMapped = record {
  sound = λ f h taken.
      subst (λ (g : ℕ). Holds all_run one_page (frame_addr machine g) (one_frame g))
        (sym (only_one f taken))
        (record {
          entry = refl;
          asid_word = omega arith;
          proc_range = omega arith;
          page_range = omega arith;
          running = refl;
          valid = refl;
          frame = refl;
        });
  complete = λ p q hp hq on v. elim (Bool-cases (p == 0 && q == 3)) [
    | inl same ↦ (
      1,
      subst (λ (a : ℕ). In one_frame a q 1) (sym (ground arith))
          (subst (λ (b : ℕ). In one_frame 0 b 1) (sym (ground arith)) In-one),
    )
    | inr other ↦ absurd (invalid p q other v)
  ];
  once = λ p q f g i j. only_one f i.taken ∙ sym (only_one g j.taken);
}

get_frame-OneTurn_example : OneTurn machine 3
get_frame-OneTurn_example = get_frame-OneTurn machine 3 (omega arith) (omega arith)

-- The first seek of the disk fails.
abbrev no_disk : Vm
no_disk = record machine { answers = λ k. if k == 2 then 0x104 else 1 }

no_disk-IsTrap : IsTrap all_run no_disk
no_disk-IsTrap = record {
  known = omega arith;
  running = refl;
  cause = inl refl;
  private = refl;
  free = refl;
  missing = refl;
}

no_disk-IsFault : IsFault all_run no_disk
no_disk-IsFault = record { trap = no_disk-IsTrap; frame_range = omega arith }

pager-Stuck_example : Stuck places no_disk
pager-Stuck_example =
    pager-Stuck places all_run no_disk no_disk-IsFault one_page-IsMapped
      (λ e. absurd (omega (arith, e)))

-- The first process ends.
abbrev first : Vm
first = record machine { entry_hi = 0x40 }

abbrev fresh : Vm
fresh = record machine { answers = λ k. 0; frame_no = 3 }

test-IsMapped_example : Started places fresh
test-IsMapped_example = test-IsMapped places fresh (λ k. refl)

-- After `test` the second process takes a page in, and the first ends.
abbrev begun : Vm
begun = final places fresh (λ k. refl)

abbrev waiting : Vm
waiting = record begun {
  answers = λ k. 1;
  entry_hi = 0x80;
  u_procs = λ p. record (begun.u_procs p) { u_old_trap = trapped };
}

waiting-IsTrap : IsTrap all_run waiting
unfolding final init_u_proc fill_entries
waiting-IsTrap = record {
  known = omega arith;
  running = refl;
  cause = inl refl;
  private = refl;
  free = refl;
  missing = refl;
}

waiting-IsFault : IsFault all_run waiting
unfolding final
waiting-IsFault = record { trap = waiting-IsTrap; frame_range = omega arith }

waiting-Reachable : Reachable places all_run waiting
unfolding final
waiting-Reachable =
    elsewhere (started fresh refl (λ k. refl) (test-runs places fresh (λ k. refl)))
      (record { pool = refl; tables = refl; turn = refl; base = refl; size = refl })

abbrev served : Resolved places all_run waiting
served =
    pager-IsMapped places all_run waiting waiting-IsFault
      (Reachable-IsSound waiting-Reachable).mapped (λ k. refl)

abbrev ending : Vm
ending = record (handed served.last) { entry_hi = 0x40 }

ending-Reachable : Reachable places all_run ending
ending-Reachable =
    elsewhere (page_in waiting-Reachable waiting-IsTrap (λ k. refl) served.runs)
      (record { pool = refl; tables = refl; turn = refl; base = refl; size = refl })

abbrev gave_up : GaveUp places all_run 1 ending
gave_up =
    terminate_user_proc-IsMapped places all_run ending served.given_up (omega arith)
      (Reachable-IsSound ending-Reachable).mapped

Reachable-IsSound_example : IsSound (all_but 0 all_run) (handed gave_up.last)
Reachable-IsSound_example =
    Reachable-IsSound (gives_up ending-Reachable served.given_up (omega arith) gave_up.runs)
