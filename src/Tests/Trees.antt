-- ===== src/Tests/Trees.antt =====
-- The theorems on the process tree and on the semaphore list, on small machines.
use patrick_landon_os.Base.{◌≡◌, refl, [], ◌∷◌, arith}
use patrick_landon_os.Machine.{Machine, ok, set_pcbs}
use patrick_landon_os.Machine.Memory.{get, live}
use patrick_landon_os.Pcb.Tree.Remove.{Orphaned, remove_child-cons}
use patrick_landon_os.Pcb.Tree.Out.{Outcast, out_child-append}
use patrick_landon_os.Pcb.Tree.Family.{IsFamily, child, sib}
use patrick_landon_os.Tests.Machines.{empty_machine, cells}
use patrick_landon_os.Pcb.Tree.Insert.{Adopted, insert_child-cons, grafted, insert_child-stale}
use patrick_landon_os.Pcb.Tree.{insert_child}
use patrick_landon_os.Types.{blank_pcb}

-- The process at `0x200` with the children at `0x300` and `0x400`, and one at `0x500` outside.
abbrev pub two_children : Machine
two_children = record empty_machine {
  pcbs = cells (
      (0x200, record blank_pcb { p_child = 0x300 })
      ∷ (0x300, record blank_pcb { p_prnt = 0x200; p_sib = 0x400 })
      ∷ (0x400, record blank_pcb { p_prnt = 0x200 })
      ∷ (0x500, blank_pcb)
      ∷ []);
}

two_children-IsFamily : IsFamily two_children.pcbs 0x200 (0x300 ∷ 0x400 ∷ [])
unfolding get live
two_children-IsFamily = record {
  alive = refl;
  sibs = (refl, refl, refl, (refl, refl, refl, refl));
  distinct = (refl, (refl, tt));
  proper = refl;
}

-- The children's siblings: `0x300` points to `0x400`, and no child is under `0x500`.
no_child-IsFamily : IsFamily two_children.pcbs 0x500 []
unfolding get live
no_child-IsFamily = record { alive = refl; sibs = refl; distinct = tt; proper = refl }

insert_child-cons_example : Adopted two_children 0x200 0x500 (0x300 ∷ 0x400 ∷ [])
unfolding get live
insert_child-cons_example =
    insert_child-cons two_children 0x200 0x500 (0x300 ∷ 0x400 ∷ []) two_children-IsFamily refl refl
      refl

-- The process at `0x300`, with its sibling pointer, goes under the childless one at `0x500`.
insert_child-stale_example :
    (insert_child 0x500 0x300 two_children
      ≡ ok tt (set_pcbs (grafted two_children.pcbs 0x500 0x300) two_children))
    × (child (grafted two_children.pcbs 0x500 0x300) 0x500 ≡ 0x300)
    × (sib (grafted two_children.pcbs 0x500 0x300) 0x300 ≡ sib two_children.pcbs 0x300)
unfolding live
insert_child-stale_example =
    insert_child-stale two_children 0x500 0x300 no_child-IsFamily refl (λ e. absurd (omega arith))

remove_child-cons_example : Orphaned two_children 0x200 0x300 (0x400 ∷ [])
remove_child-cons_example =
    remove_child-cons two_children 0x200 0x300 (0x400 ∷ []) two_children-IsFamily

out_child-append_example : Outcast two_children 0x200 0x400 (0x300 ∷ [])
out_child-append_example =
    out_child-append two_children 0x200 0x400 (0x300 ∷ []) [] two_children-IsFamily (omega arith)
