-- ===== src/Kernel/Process/Entering.antt =====
-- What sys_execute leaves when it enters a program.
use illinix_os.Prelude.{ℕ, ◌+◌, ◌<◌, ◌≡◌}
use illinix_os.FileSys.Image.{Image}
use illinix_os.Kernel.{Kernel}
use illinix_os.Kernel.Process.{claim_slot, load}
use illinix_os.Kernel.Process.Halting.{user_prog_lem}

module _ (k : Kernel) (pid inode ebp esp : ℕ) (slot : pid < 6) where
  abbrev entered : Kernel
  entered = load (claim_slot k pid) inode pid ebp esp

  page : (claim_slot k pid).user_page ≡ pid + 2
  unfolding claim_slot
  page = user_prog_lem k.user_page pid slot
