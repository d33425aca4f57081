-- ===== src/P1test/Main.antt =====
-- `main` of phase1/p1test.c, in the order of its parts.
use patrick_landon_os.P1test.{Places, Step, ◌>>◌}
use patrick_landon_os.P1test.Queues.{check_alloc, fill_queue, check_out, check_remove}
use patrick_landon_os.P1test.Trees.{check_tree}
use patrick_landon_os.P1test.Blocked.{check_blocked, check_head}

unfoldable pub main : Places → Step (Unit {0})
main l = do
  check_alloc l
  fill_queue l
  check_out l
  check_remove l
  check_tree l
  check_blocked l
  check_head l
