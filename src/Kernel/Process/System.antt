-- ===== src/Kernel/Process/System.antt =====
-- The invariant of the processes and terminals, and what sys_execute does to it.
use illinix_os.Prelude.{
  ℕ, zero, suc, ◌+◌, ◌≤◌, ◌<◌, ◌≡◌, ◌≢◌, refl, sym, ap, ◌∙◌, subst, fun_ext, inl, inr, Option, none,
  some, List, arith, update, update_self, update_ne, ℕ_discrete, ◌==◌, if_intro, Option-cases,
  if◌then◌else◌, eq_true,
}
use illinix_os.Prelude.Word.{failure}
use illinix_os.Kernel.{Pcb, TerminalInfo, Kernel}
use illinix_os.FileSys.Dentry.{read_dentry_by_name}
use illinix_os.FileSys.Data.{read_data}
use illinix_os.Kernel.Files.{local_dentry}
use illinix_os.Kernel.Process.{
  mag_num_buf, has_magic, find_slot, claim_slot, load, start_pcb, stack_top, execute_checked,
  sys_execute,
}
use illinix_os.Kernel.Process.Halting.{user_prog_lem}
use illinix_os.Kernel.Process.Forest.{IsForest, IsForest-subst, spawn}
use illinix_os.Kernel.Process.Slots.{AreSlots, AreSlots-start}

abbrev pub parents : Kernel → ℕ → ℕ
parents k i = (k.pcbs i).parent_pid

abbrev pub running : Kernel → ℕ → ℕ
running k t = (k.terminal_processes t).active_process_pid

-- The terminals whose shell has been started run processes of a forest, the process of the scheduled
-- one is the running process, and the page and the kernel stack in force are its own.
pub record IsSystem (k : Kernel) : Type 0 where
  pub terminals : k.shell_count ≤ 3
  pub scheduled : k.scheduled_terminal < k.shell_count
  pub forest : IsForest k.shell_count k.processes_active (parents k) (running k)
  pub slots : AreSlots k.processes_active k.pcbs k.num_active_processes
  pub runs : k.current_process_idx ≡ running k k.scheduled_terminal
  pub page : k.user_page ≡ k.current_process_idx + 2
  pub stack : k.esp0 ≡ stack_top k.current_process_idx
  pub has_parent : k.no_parent_shell_flag ≡ 0

-- A field of the values of an array with one of them changed.
pub field-update {ℓ} :
    {A : Type ℓ} (field : A → ℕ) (f g : ℕ → A) (k : ℕ) (x : A)
    → g k ≡ x
    → ((j : ℕ) → j ≢ k → g j ≡ f j)
    → update (λ j. field (f j)) k (field x) ≡ (λ j. field (g j))
field-update field f g k x here others = fun_ext λ j. elim (ℕ_discrete j k) [
  | yes e ↦
      subst (λ i. update (λ j. field (f j)) k (field x) i ≡ field (g i)) (sym e)
        (update_self (λ j. field (f j)) k (field x) ∙ ap field (sym here))
  | no ne ↦ update_ne (λ j. field (f j)) k j (field x) ne ∙ ap field (sym (others j ne))
]

-- What sys_execute leaves when it enters a program.
abbrev pub Started : Kernel → ℕ → ℕ → Kernel → Type 0
Started k ebp esp k' =
    (inode : ℕ) × (pid : ℕ) × (pid < 6)
    × (k.processes_active pid ≡ 0)
    × (k' ≡ load (claim_slot k pid) inode pid ebp esp)

find_slot-free :
    (active : ℕ → ℕ) (n i pid : ℕ)
    → find_slot active n i ≡ some pid
    → (pid < i + n) × (active pid ≡ 0)
unfolding find_slot
find_slot-free active zero i pid h = ground arith
find_slot-free active (suc n) i pid h = ground (arith, find_slot-free active n (suc i) pid)

pub refused : {eip : ℕ} → ◌≢◌ {A = Option ℕ} none (some eip)
refused h = cc

execute_checked-Started :
    (k : Kernel) (inode : ℕ) (header : ℕ → ℕ) (ebp esp eip : ℕ)
    → (execute_checked k inode header ebp esp).0 ≡ some eip
    → Started k ebp esp (execute_checked k inode header ebp esp).1
unfolding execute_checked
execute_checked-Started k inode header ebp esp eip h =
    elim (Option-cases (find_slot k.processes_active 6 0)) [
      | inl e ↦ absurd (refused (rw (e, execute_checked) at h))
      | inr (pid, e) ↦ (
        inode,
        pid,
        (find_slot-free k.processes_active 6 0 pid e).0,
        (find_slot-free k.processes_active 6 0 pid e).1,
        rw (e, execute_checked) refl,
      )
    ]

-- A call of sys_execute that enters a program has taken a free slot.
pub sys_execute-Started :
    (k : Kernel) (command : List ℕ) (ebp esp eip : ℕ)
    → (sys_execute k command ebp esp).0 ≡ some eip
    → Started k ebp esp (sys_execute k command ebp esp).2
unfolding sys_execute
sys_execute-Started k command ebp esp eip =
    let (found_file, dentry) = read_dentry_by_name k.image command local_dentry in
    let (mag_num_check, header) = read_data k.image dentry.inode_number 0 mag_num_buf 30 in
    if_intro Starts (found_file == failure) (λ _ h. absurd (refused h))
      (λ _.
        if_intro Starts (mag_num_check == failure) (λ _ h. absurd (refused h))
          (λ _.
            if_intro Starts (has_magic header)
              (λ _. execute_checked-Started k dentry.inode_number header ebp esp eip)
              (λ _ h. absurd (refused h))))
  where
    Starts : Option ℕ × List ℕ × Kernel → Type 0
    Starts r = r.0 ≡ some eip → Started k ebp esp r.2

module _ (k : Kernel) (inode pid ebp esp : ℕ) where
  -- The state in which the program starts.
  abbrev launched : Kernel
  launched = load (claim_slot k pid) inode pid ebp esp

  launched_pcb :
      launched.pcbs pid
      ≡ start_pcb
          (record (k.pcbs pid) {
            parent_pid = if k.no_parent_shell_flag == 0 then k.current_process_idx else failure;
          })
          pid
          ebp
          esp
  unfolding load claim_slot
  launched_pcb =
      update_self _ pid _ ∙ ap (λ (q : Pcb). start_pcb q pid ebp esp) (update_self k.pcbs pid _)

  launched_other : (j : ℕ) → j ≢ pid → launched.pcbs j ≡ k.pcbs j
  unfolding load claim_slot
  launched_other j ne = update_ne _ pid j _ ne ∙ update_ne k.pcbs pid j _ ne

  abbrev pub parent_of : ℕ
  parent_of = if k.no_parent_shell_flag == 0 then k.current_process_idx else failure

  launched-parents : update (parents k) pid parent_of ≡ parents launched
  unfolding start_pcb
  launched-parents =
      field-update (λ (q : Pcb). q.parent_pid) k.pcbs launched.pcbs pid _ launched_pcb
        launched_other

  launched-running : update (running k) k.scheduled_terminal pid ≡ running launched
  unfolding load claim_slot
  launched-running =
      let t = record (k.terminal_processes k.scheduled_terminal) { active_process_pid = pid } in
      field-update (λ (i : TerminalInfo). i.active_process_pid) k.terminal_processes
        launched.terminal_processes k.scheduled_terminal t
        (update_self k.terminal_processes k.scheduled_terminal t)
        (λ j ne. update_ne k.terminal_processes k.scheduled_terminal j t ne)

  pub launched-IsSystem :
      pid < 6
      → k.processes_active pid ≡ 0
      → k.shell_count ≤ 3
      → k.scheduled_terminal < k.shell_count
      → AreSlots k.processes_active k.pcbs k.num_active_processes
      → IsForest k.shell_count
          (update k.processes_active pid 1)
          (update (parents k) pid parent_of)
          (update (running k) k.scheduled_terminal pid)
      → IsSystem launched
  unfolding load claim_slot start_pcb
  launched-IsSystem low free few small slots forest = record {
    terminals = few;
    scheduled = small;
    forest = IsForest-subst refl launched-parents launched-running forest;
    slots =
        AreSlots-start slots pid low launched.pcbs launched_other free
          (ap (λ (q : Pcb). q.pid) launched_pcb) (ap (λ (q : Pcb). q.fd_entry) launched_pcb);
    runs =
        sym (update_self (running k) k.scheduled_terminal pid)
        ∙ ap (λ r. r k.scheduled_terminal) launched-running;
    page = user_prog_lem k.user_page pid low;
    stack = refl;
    has_parent = refl;
  }

-- A process that runs starts a child.
pub execute-IsSystem :
    (k k' : Kernel) (ebp esp : ℕ) → IsSystem k → Started k ebp esp k' → IsSystem k'
execute-IsSystem k k' ebp esp v (inode, pid, low, free, e) =
    let caller : k.current_process_idx ≡ parent_of k inode pid ebp esp =
      sym (rw (eq_true v.has_parent) refl) in
    let forest =
      IsForest-subst refl (ap (update (parents k) pid) (sym v.runs ∙ caller)) refl
        (spawn v.forest pid low free k.scheduled_terminal v.scheduled) in
    subst IsSystem (sym e)
      (launched-IsSystem k inode pid ebp esp low free v.terminals v.scheduled v.slots forest)
