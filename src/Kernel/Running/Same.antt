-- ===== src/Kernel/Running/Same.antt =====
-- Changes that leave the processes and terminals as they are, but for the descriptor table of the
-- running process.
use illinix_os.Prelude.{
  ℕ, ◌+◌, ◌≡◌, ◌≢◌, ◌≤◌, ◌<◌, refl, sym, ap, ◌∙◌, subst, fun_ext, ℕ_discrete, update, update_self,
  update_ne,
}
use illinix_os.Kernel.{Descriptor, Pcb, Kernel, current, set_descriptor}
use illinix_os.Kernel.Syscalls.Table.{IsTable}
use illinix_os.Kernel.Process.{stack_top}
use illinix_os.Kernel.Process.Forest.{IsForest, IsForest-subst}
use illinix_os.Kernel.Process.Slots.{AreSlots, AreSlots-table}
use illinix_os.Kernel.Process.System.{parents, running, IsSystem}
use illinix_os.Kernel.Process.Ending.{own_slot, own-IsTable}

pub record Keeps (k k' : Kernel) : Type 0 where
  pub shell_count : k'.shell_count ≡ k.shell_count
  pub scheduled : k'.scheduled_terminal ≡ k.scheduled_terminal
  pub active : k'.processes_active ≡ k.processes_active
  pub count : k'.num_active_processes ≡ k.num_active_processes
  pub runs : k'.current_process_idx ≡ k.current_process_idx
  pub page : k'.user_page ≡ k.user_page
  pub stack : k'.esp0 ≡ k.esp0
  pub has_parent : k'.no_parent_shell_flag ≡ k.no_parent_shell_flag
  pub terminals : (t : ℕ) → running k' t ≡ running k t
  pub others : (j : ℕ) → j ≢ k.current_process_idx → k'.pcbs j ≡ k.pcbs j
  pub own_pid : (k'.pcbs k.current_process_idx).pid ≡ (current k).pid
  pub own_parent : (k'.pcbs k.current_process_idx).parent_pid ≡ (current k).parent_pid

pub set_descriptor-Keeps : (k : Kernel) (fd : ℕ) (e : Descriptor) → Keeps k (set_descriptor k fd e)
unfolding set_descriptor
set_descriptor-Keeps k fd e =
    let own =
      update_self k.pcbs k.current_process_idx
        (record (current k) { fd_entry = update (current k).fd_entry fd e }) in
    record {
      shell_count = refl;
      scheduled = refl;
      active = refl;
      count = refl;
      runs = refl;
      page = refl;
      stack = refl;
      has_parent = refl;
      terminals = λ t. refl;
      others = λ j ne. update_ne k.pcbs k.current_process_idx j _ ne;
      own_pid = ap (λ (p : Pcb). p.pid) own;
      own_parent = ap (λ (p : Pcb). p.parent_pid) own;
    }

module _ {k k' : Kernel} (s : Keeps k k') where
  kept-parents : (j : ℕ) → parents k j ≡ parents k' j
  kept-parents j = elim (ℕ_discrete j k.current_process_idx) [
    | yes e ↦ subst (λ i. parents k i ≡ parents k' i) (sym e) (sym s.own_parent)
    | no ne ↦ ap (λ (p : Pcb). p.parent_pid) (sym (s.others j ne))
  ]

  pub Keeps-IsSystem : IsTable (current k').fd_entry → IsSystem k → IsSystem k'
  Keeps-IsSystem table v =
      let own =
        AreSlots-table v.slots k.current_process_idx (own_slot k v) k'.pcbs s.others s.own_pid
          (subst (λ c. IsTable (k'.pcbs c).fd_entry) s.runs table) in
      record {
        terminals = subst (λ n. n ≤ 3) (sym s.shell_count) v.terminals;
        scheduled =
            subst (λ n. k'.scheduled_terminal < n) (sym s.shell_count)
              (subst (λ t. t < k.shell_count) (sym s.scheduled) v.scheduled);
        forest =
            subst (λ n. IsForest n k'.processes_active (parents k') (running k'))
              (sym s.shell_count)
              (IsForest-subst (sym s.active) (fun_ext kept-parents)
                (fun_ext λ t. sym (s.terminals t)) v.forest);
        slots =
            subst (λ a. AreSlots a k'.pcbs k'.num_active_processes) (sym s.active)
              (subst (λ n. AreSlots k.processes_active k'.pcbs n) (sym s.count) own);
        runs =
            s.runs
            ∙ v.runs
            ∙ sym (s.terminals k.scheduled_terminal)
            ∙ ap (running k') (sym s.scheduled);
        page = s.page ∙ v.page ∙ ap (λ c. c + 2) (sym s.runs);
        stack = s.stack ∙ v.stack ∙ ap stack_top (sym s.runs);
        has_parent = s.has_parent ∙ v.has_parent;
      }

-- A change elsewhere in the state.
pub same_processes :
    (k k' : Kernel)
    → k'.shell_count ≡ k.shell_count
    → k'.scheduled_terminal ≡ k.scheduled_terminal
    → k'.processes_active ≡ k.processes_active
    → k'.num_active_processes ≡ k.num_active_processes
    → k'.current_process_idx ≡ k.current_process_idx
    → k'.user_page ≡ k.user_page
    → k'.esp0 ≡ k.esp0
    → k'.no_parent_shell_flag ≡ k.no_parent_shell_flag
    → ((t : ℕ) → running k' t ≡ running k t)
    → k'.pcbs ≡ k.pcbs
    → Keeps k k'
same_processes k k' shells scheduled active count runs page stack flag terminals pcbs = record {
  shell_count = shells;
  scheduled = scheduled;
  active = active;
  count = count;
  runs = runs;
  page = page;
  stack = stack;
  has_parent = flag;
  terminals = terminals;
  others = λ j ne. ap (λ ps. ps j) pcbs;
  own_pid = ap (λ ps. (ps k.current_process_idx).pid) pcbs;
  own_parent = ap (λ ps. (ps k.current_process_idx).parent_pid) pcbs;
}

pub Keeps-refl : (k : Kernel) → Keeps k k
Keeps-refl k = same_processes k k refl refl refl refl refl refl refl refl (λ t. refl) refl

-- A change that keeps the processes and the blocks.
pub still : (k k' : Kernel) → IsSystem k → Keeps k k' → k'.pcbs ≡ k.pcbs → IsSystem k'
still k k' v s same =
    Keeps-IsSystem s
      (subst (λ ps. IsTable (ps k'.current_process_idx).fd_entry) (sym same)
        (subst (λ c. IsTable (k.pcbs c).fd_entry) (sym s.runs) (own-IsTable k v)))
      v
