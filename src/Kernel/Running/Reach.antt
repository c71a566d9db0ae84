-- ===== src/Kernel/Running/Reach.antt =====
-- The states that the kernel reaches by the entries into it: timer and keyboard interrupts, and system
-- calls of the running process, one after the other.
use illinix_os.Prelude.{
  ℕ, ◌≤◌, ◌<◌, ◌^◌, ◌≡◌, ◌≢◌, sym, ◌∙◌, subst, inl, some, arith, if◌then◌else◌, ◌==◌, ℕ_discrete,
}
use illinix_os.Prelude.Word.{failure}
use illinix_os.FileSys.Data.{Buffer}
use illinix_os.Kernel.{Kernel, current}
use illinix_os.Kernel.Syscalls.{returned, fault, Arrivals, sys_close, sys_read}
use illinix_os.Kernel.Syscalls.Table.{TableAfter, sys_close-IsTable}
use illinix_os.Kernel.Syscalls.NoFault.{ReadAfter, sys_read-IsTable}
use illinix_os.Kernel.Process.{resumed, sys_halt}
use illinix_os.Kernel.Process.Forest.{IsForest}
use illinix_os.Kernel.Process.Slots.{AreSlots, total, standard_fds_sound}
use illinix_os.Kernel.Process.System.{parents, running, IsSystem}
use illinix_os.Kernel.Process.Ending.{own-IsTable, own_live, halt-resumes, halt-root}
use illinix_os.Kernel.Scheduling.{enter, pit_handler}
use illinix_os.Kernel.Running.Ticks.{start-IsSystem}
use illinix_os.Kernel.Running.Steps.{Step, halted, Step-IsSystem}

-- Before the first timer interrupt: no shell has been started, no slot is active, and the block of no
-- slot has a descriptor in use.
pub record IsFresh (k : Kernel) : Type 0 where
  pub no_shell : k.shell_count ≡ 0
  pub no_process : (i : ℕ) → i < 6 → k.processes_active i ≡ 0
  pub none_counted : k.num_active_processes ≡ 0
  pub unused : (i j : ℕ) → i < 6 → 2 ≤ j → j < 8 → ((k.pcbs i).fd_entry j).flags ≡ 0

-- The first shell starts from a fresh state.
pub data Reach (k0 : Kernel) : Kernel → Type 0 where
  first : {k : Kernel} (ebp esp address : ℕ) → pit_handler ebp esp k0 ≡ enter address k → Reach k0 k
  next : {k k' : Kernel} → Reach k0 k → Step k k' → Reach k0 k'

module _ (k0 : Kernel) (fresh : IsFresh k0) where
  fresh-forest : IsForest k0.shell_count k0.processes_active (parents k0) (running k0)
  fresh-forest = record {
    slot = λ t h. absurd (omega (arith, fresh.no_shell));
    live = λ t h a. omega (arith, fresh.no_shell);
    apart = λ t u h l ne e. omega (arith, fresh.no_shell);
    rooted = λ i h a. absurd (a (fresh.no_process i h));
    waits = λ i t h a l e. omega (arith, fresh.no_shell);
    single = λ i j h l a. absurd (a (fresh.no_process i h));
  }

  no_total : total 6 k0.processes_active ≡ 0
  unfolding total
  no_total = omega (
    arith,
    fresh.no_process 0,
    fresh.no_process 1,
    fresh.no_process 2,
    fresh.no_process 3,
    fresh.no_process 4,
    fresh.no_process 5,
  )

  fresh-slots : AreSlots k0.processes_active k0.pcbs k0.num_active_processes
  fresh-slots = record {
    named = λ i h a. absurd (a (fresh.no_process i h));
    sound = λ i h a. absurd (a (fresh.no_process i h));
    ready = λ i h.
        standard_fds_sound (k0.pcbs i).fd_entry (λ j low high. inl (fresh.unused i j h low high));
    flag = λ i h. omega (arith, fresh.no_process i h);
    counted = omega (arith, fresh.none_counted, no_total);
  }

  -- From a fresh state on, however interrupts of the timer and the clock, keys, system calls and
  -- reads that wait follow one another, the invariant holds: the terminals that have a shell run
  -- different live processes; the running process is the one of the scheduled terminal, and the
  -- program page and the kernel stack in force are its own; every live process names its slot, has
  -- a sound descriptor table, and has no parent or a live parent that waits for it alone; and the
  -- count of processes is right. A start of a shell that fails, a turn that is given before all
  -- terminals have a shell, and a halt of a shell that finds no shell to start again are not among
  -- the steps.
  pub Reach-IsSystem : {k : Kernel} → Reach k0 k → IsSystem k
  Reach-IsSystem (first {k} ebp esp address h) =
      start-IsSystem k0 k ebp esp address (omega (arith, fresh.no_shell)) fresh-forest fresh-slots h
  Reach-IsSystem (next {k} {k'} r s) = Step-IsSystem k k' (Reach-IsSystem r) s

  module _ {k : Kernel} (r : Reach k0 k) where
    -- In a reachable state, the running process, if it has a parent, can halt: sys_halt goes to the
    -- frame that the process's start saved, and leaves a state, reachable in turn, in which the parent
    -- runs and is live.
    pub Reach-halts :
        (bl ebp esp : ℕ)
        → (current k).parent_pid ≢ failure
        → (k' : Kernel) × (sys_halt k bl ebp esp
            ≡ returned (resumed (current k).ebp (if k.exception_flag == 1 then 256 else bl) k'))
          × (k'.current_process_idx ≡ (current k).parent_pid)
          × (k'.processes_active (current k).parent_pid ≢ 0)
          × Reach k0 k'
    Reach-halts bl ebp esp child =
        let (k', e, at, w) = halt-resumes k (Reach-IsSystem r) bl ebp esp child in
        (
          k',
          e,
          at,
          subst (λ i. k'.processes_active i ≢ 0) at (own_live k' w),
          next r (halted bl ebp esp (current k).ebp (if k.exception_flag == 1 then 256 else bl) e),
        )

    -- In a reachable state sys_halt, sys_close of any word for a descriptor, and sys_read of any such
    -- word into a buffer that is not null, do not call through a null function pointer of a
    -- descriptor. A page fault at an address that a program gives is another matter.
    pub Reach-ne-fault :
        (fd : ℕ)
        → fd < 2 ^ 32
        → (sys_close k fd ≢ fault)
          × ((a : Arrivals) (buf : Buffer) (nbytes : ℕ) → sys_read a k fd (some buf) nbytes ≢ fault)
          × ((bl ebp esp : ℕ) → sys_halt k bl ebp esp ≢ fault)
    Reach-ne-fault fd w =
        let v = Reach-IsSystem r in
        (
          λ h. subst TableAfter h (sys_close-IsTable k fd w (own-IsTable k v)),
          λ a buf nbytes h.
              subst ReadAfter h (sys_read-IsTable a k fd buf nbytes w (own-IsTable k v)),
          λ bl ebp esp h. elim (ℕ_discrete (current k).parent_pid failure) [
            | yes root ↦ let same = sym (halt-root k bl ebp esp root) ∙ h in cc
            | no child ↦
                let (k1, e, at, u) = halt-resumes k v bl ebp esp child in let same = sym e ∙ h in cc
          ],
        )
