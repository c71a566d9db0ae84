-- ===== src/Kernel/Process/Ending.antt =====
-- sys_halt keeps the invariant of the processes: with a parent, and for a shell without one.
use illinix_os.Prelude.{
  ℕ, ◌<◌, ◌≡◌, ◌≢◌, refl, sym, ap, ◌∙◌, subst, fun_ext, inl, inr, some, arith, update, update_self,
  update_ne, ℕ_discrete, ◌==◌, if◌then◌else◌, eq_true,
}
use illinix_os.Prelude.Word.{failure}
use illinix_os.Kernel.{Descriptor, Pcb, TerminalInfo, Kernel, current}
use illinix_os.Kernel.Syscalls.{returned}
use illinix_os.Kernel.Syscalls.Table.{IsTable}
use illinix_os.Kernel.Process.{
  sys_execute, leave, back_to, resumed, restarted, shell_name, sys_halt,
}
use illinix_os.Kernel.Process.Closing.{with_table}
use illinix_os.Kernel.Process.Halting.{freed, sys_halt-closes}
use illinix_os.Kernel.Process.Forest.{IsForest, IsForest-subst, finish, replant}
use illinix_os.Kernel.Process.Slots.{AreSlots-stop}
use illinix_os.Kernel.Process.Restart.{ended}
use illinix_os.Kernel.Process.System.{
  parents, running, IsSystem, Started, field-update, sys_execute-Started, launched-IsSystem,
}

module _ (k : Kernel) (v : IsSystem k) where
  pub own_slot : k.current_process_idx < 6
  own_slot = rw v.runs (v.forest.slot k.scheduled_terminal v.scheduled)

  pub own_live : k.processes_active k.current_process_idx ≢ 0
  own_live = rw v.runs (v.forest.live k.scheduled_terminal v.scheduled)

  pub own-IsTable : IsTable (current k).fd_entry
  own-IsTable = v.slots.sound k.current_process_idx own_slot own_live

  -- The state of sys_halt when the files are closed.
  abbrev emptied : (ℕ → Descriptor) → Kernel
  emptied f = with_table (freed k) f

  emptied_pcb :
      (f : ℕ → Descriptor)
      → (emptied f).pcbs k.current_process_idx ≡ record (current k) { fd_entry = f }
  unfolding with_table
  emptied_pcb f = update_self k.pcbs k.current_process_idx _

  emptied_other :
      (f : ℕ → Descriptor) (j : ℕ) → j ≢ k.current_process_idx → (emptied f).pcbs j ≡ k.pcbs j
  unfolding with_table
  emptied_other f j ne = update_ne k.pcbs k.current_process_idx j _ ne

  emptied_parent : (f : ℕ → Descriptor) (j : ℕ) → parents (emptied f) j ≡ parents k j
  emptied_parent f j = elim (ℕ_discrete j k.current_process_idx) [
    | yes e ↦
        subst (λ i. parents (emptied f) i ≡ parents k i) (sym e)
          (ap (λ (q : Pcb). q.parent_pid) (emptied_pcb f))
    | no ne ↦ ap (λ (q : Pcb). q.parent_pid) (emptied_other f j ne)
  ]

  -- The state that sys_halt leaves for the parent.
  abbrev resumed_in : (ℕ → Descriptor) → Kernel
  resumed_in f = back_to (emptied f) (parents k k.current_process_idx)

  parent_low : parents k k.current_process_idx ≢ failure → parents k k.current_process_idx < 6
  parent_low child = elim (v.forest.rooted k.current_process_idx own_slot own_live) [
    | inl none_there ↦ absurd (child none_there)
    | inr (low, live) ↦ low
  ]

  resumed-forest :
      (f : ℕ → Descriptor)
      → parents k k.current_process_idx ≢ failure
      → IsForest k.shell_count
          (resumed_in f).processes_active
          (parents (resumed_in f))
          (running (resumed_in f))
  unfolding back_to with_table
  resumed-forest f child =
      let p : ℕ = parents k k.current_process_idx in
      let s : ℕ = k.scheduled_terminal in
      let t = record (k.terminal_processes s) { active_process_pid = p; cursor_x = 7; togx = 7 } in
      let gone =
        subst
          (λ c.
            IsForest k.shell_count (update k.processes_active c 0) (parents k)
              (update (running k) s (parents k c)))
          (sym v.runs)
          (finish v.forest s v.scheduled (subst (λ c. parents k c ≢ failure) v.runs child)) in
      IsForest-subst refl (fun_ext λ j. sym (emptied_parent f j))
        (field-update (λ (i : TerminalInfo). i.active_process_pid) k.terminal_processes
          (resumed_in f).terminal_processes s t (update_self k.terminal_processes s t)
          (λ j ne. update_ne k.terminal_processes s j t ne))
        gone

  -- The value in %eax when a process goes back to its parent.
  abbrev halt_value : ℕ → ℕ
  halt_value bl = if k.exception_flag == 1 then 256 else bl

  leave-emptied :
      (f : ℕ → Descriptor) (bl : ℕ)
      → leave (emptied f) bl ≡ resumed (current k).ebp (halt_value bl) (resumed_in f)
  unfolding leave with_table
  leave-emptied f bl =
      ap (λ (q : Pcb). resumed q.ebp (halt_value bl) (back_to (emptied f) q.parent_pid))
        (emptied_pcb f)

  pub resumed-IsSystem :
      (f : ℕ → Descriptor)
      → IsTable f
      → parents k k.current_process_idx ≢ failure
      → IsSystem (resumed_in f)
  unfolding back_to with_table
  resumed-IsSystem f table child =
      let p : ℕ = parents k k.current_process_idx in
      record {
        terminals = v.terminals;
        scheduled = v.scheduled;
        forest = resumed-forest f child;
        slots =
            AreSlots-stop v.slots k.current_process_idx own_slot (emptied f).pcbs (emptied_other f)
              own_live (subst IsTable (sym (ap (λ (q : Pcb). q.fd_entry) (emptied_pcb f))) table);
        runs =
            ap (λ (i : TerminalInfo). i.active_process_pid)
              (sym (
                update_self k.terminal_processes k.scheduled_terminal
                  (record (k.terminal_processes k.scheduled_terminal) {
                    active_process_pid = p;
                    cursor_x = 7;
                    togx = 7;
                  })));
        page = omega (arith, parent_low child);
        stack = refl;
        has_parent = v.has_parent;
      }

  -- A process with a parent ends.
  pub halt-resumes :
      (bl ebp esp : ℕ)
      → parents k k.current_process_idx ≢ failure
      → (k' : Kernel) × (sys_halt k bl ebp esp
          ≡ returned (resumed (current k).ebp (halt_value bl) k'))
        × (k'.current_process_idx ≡ parents k k.current_process_idx)
        × IsSystem k'
  unfolding leave
  halt-resumes bl ebp esp child =
      let (f, e, c) = sys_halt-closes k bl ebp esp child own-IsTable in
      let value : ℕ = halt_value bl in
      (resumed_in f, e ∙ ap returned (leave-emptied f bl), refl, resumed-IsSystem f c.sound child)

-- What sys_halt of a shell without a parent does.
pub halt-root :
    (k : Kernel) (bl ebp esp : ℕ)
    → (current k).parent_pid ≡ failure
    → sys_halt k bl ebp esp
      ≡ returned (
          restarted
            (sys_execute (ended k) shell_name ebp esp).0
            (sys_execute (ended k) shell_name ebp esp).2)
unfolding sys_halt
halt-root k bl ebp esp root = rw (eq_true root) refl

-- The new shell runs on the terminal of the old one.
restarted-IsSystem :
    (k k' : Kernel) (ebp esp : ℕ)
    → IsSystem k
    → (current k).parent_pid ≡ failure
    → Started (ended k) ebp esp k'
    → IsSystem k'
restarted-IsSystem k k' ebp esp v root (inode, pid, low, free, e) =
    let c : ℕ = k.current_process_idx in
    let forest =
      replant v.forest k.scheduled_terminal v.scheduled pid low
        (subst (λ x. update k.processes_active x 0 pid ≡ 0) v.runs free) in
    subst IsSystem (sym e) (
      launched-IsSystem (ended k) inode pid ebp esp low free v.terminals v.scheduled
        (AreSlots-stop v.slots c (own_slot k v) k.pcbs (λ j ne. refl) (own_live k v)
          (own-IsTable k v))
        (subst
          (λ x.
            IsForest k.shell_count (update (update k.processes_active x 0) pid 1)
              (update (parents k) pid failure) (update (running k) k.scheduled_terminal pid))
          (sym v.runs) forest))

pub halt-restarts :
    (k k' : Kernel) (bl ebp esp eip : ℕ)
    → IsSystem k
    → (current k).parent_pid ≡ failure
    → sys_halt k bl ebp esp ≡ returned (restarted (some eip) k')
    → IsSystem k'
halt-restarts k k' bl ebp esp eip v root h =
    let r = sys_execute (ended k) shell_name ebp esp in
    let same : returned (restarted r.0 r.2) ≡ returned (restarted (some eip) k') =
      sym (halt-root k bl ebp esp root) ∙ h in
    let entered : r.0 ≡ some eip = cc in
    let left : r.2 ≡ k' = cc in
    subst IsSystem left (
      restarted-IsSystem k r.2 ebp esp v root
        (sys_execute-Started (ended k) shell_name ebp esp eip entered))
