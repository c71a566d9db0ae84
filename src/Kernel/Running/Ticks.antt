-- ===== src/Kernel/Running/Ticks.antt =====
-- Timer interrupts: the start of a shell, the turn of the next terminal, and the switch of the
-- display.
use illinix_os.Prelude.{
  ℕ, suc, ◌+◌, ◌%◌, ◌≤◌, ◌<◌, ◌≡◌, ◌≢◌, refl, sym, ap, ◌∙◌, subst, fun_ext, true, not, Option, none,
  some, List, arith, ◌==◌, ==_iff, if_intro, if◌then◌else◌, update,
}
use illinix_os.Prelude.Word.{failure, add32, slt}
use illinix_os.Kernel.{TerminalInfo, Kernel}
use illinix_os.Kernel.Process.{stack_top, shell_name, sys_execute}
use illinix_os.Kernel.Process.Forest.{IsForest, IsForest-subst, plant}
use illinix_os.Kernel.Process.Slots.{AreSlots}
use illinix_os.Kernel.Process.System.{
  parents, running, IsSystem, Started, sys_execute-Started, launched-IsSystem,
}
use illinix_os.Kernel.Scheduling.{
  Tick, back, halt, resume, enter, switch_display, next_terminal, context_switch, print_quote,
  save_cursor, schedule, save_frame, claim_terminal, after_execute, pit_handler,
}
use illinix_os.Kernel.Running.Same.{Keeps, still, same_processes}

-- What a tick leaves: whichever way it ends, what it hands on satisfies the property.
abbrev pub OnTick : (Kernel → Type 0) → Tick → Type 0
OnTick P (back k) = P k
OnTick P (halt k) = P k
OnTick P (resume frame k) = P k
OnTick P (enter address k) = P k

-- A field that a change to one terminal leaves as it is.
same_running :
    (f : ℕ → TerminalInfo) (s : ℕ) (i : TerminalInfo)
    → i.active_process_pid ≡ (f s).active_process_pid
    → (t : ℕ) → (update f s i t).active_process_pid ≡ (f t).active_process_pid
unfolding update
same_running f s i e t =
    if_intro (λ (x : TerminalInfo). x.active_process_pid ≡ (f t).active_process_pid) (t == s)
      (λ here. e ∙ ap (λ j. (f j).active_process_pid) (sym ((==_iff t s).0 here))) (λ _. refl)

save_frame-Keeps : (ebp : ℕ) (k : Kernel) → Keeps k (save_frame ebp k)
unfolding save_frame
save_frame-Keeps ebp k =
    same_processes k _ refl refl refl refl refl refl refl refl
      (same_running k.terminal_processes k.scheduled_terminal _ refl) refl

switch_display-Keeps : (t : ℕ) (k : Kernel) → Keeps k (switch_display t k)
unfolding switch_display save_cursor
switch_display-Keeps t k =
    same_processes k _ refl refl refl refl refl refl refl refl
      (λ u.
        same_running (update k.terminal_processes k.displayed_terminal (save_cursor k)) t _ refl u
        ∙ same_running k.terminal_processes k.displayed_terminal (save_cursor k) refl u)
      refl

next_terminal-IsSystem : (k : Kernel) → k.shell_count ≡ 3 → IsSystem k → IsSystem (next_terminal k)
unfolding next_terminal
next_terminal-IsSystem k all v =
    let t : ℕ = (k.scheduled_terminal + 1) % 3 in
    let small : t < k.shell_count = omega (arith, all) in
    let low = v.forest.slot t small in
    let same : (k.pcbs (running k t)).pid ≡ running k t =
      v.slots.named (running k t) low (v.forest.live t small) in
    record {
      terminals = v.terminals;
      scheduled = small;
      forest = v.forest;
      slots = v.slots;
      runs = refl;
      page = omega (arith, low, same);
      stack = ap stack_top same;
      has_parent = v.has_parent;
    }

counted-Keeps : (k : Kernel) (n : ℕ) → Keeps k (record k { rng = n })
counted-Keeps k n = same_processes k _ refl refl refl refl refl refl refl refl (λ t. refl) refl

print_quote-IsSystem : (k : Kernel) → IsSystem k → IsSystem (print_quote k)
unfolding print_quote
print_quote-IsSystem k v =
    if_intro IsSystem (k.severance_quote_flag k.scheduled_terminal == 1)
      (λ _.
        still k _ v (same_processes k _ refl refl refl refl refl refl refl refl (λ t. refl) refl)
          refl)
      (λ _. v)

print_quote-shells : (k : Kernel) → (print_quote k).shell_count ≡ k.shell_count
unfolding print_quote
print_quote-shells k =
    if_intro (λ (x : Kernel). x.shell_count ≡ k.shell_count)
      (k.severance_quote_flag k.scheduled_terminal == 1) (λ _. refl) (λ _. refl)

context_switch-IsSystem :
    (k : Kernel) → k.shell_count ≡ 3 → IsSystem k → OnTick IsSystem (context_switch k)
unfolding context_switch
context_switch-IsSystem k all v = next_terminal-IsSystem k all v

switch_display-IsSystem : (t : ℕ) (k : Kernel) → IsSystem k → IsSystem (switch_display t k)
unfolding switch_display
switch_display-IsSystem t k v = still k _ v (switch_display-Keeps t k) refl

-- With the three shells started, the scheduler keeps the invariant on every branch.
schedule-IsSystem : (k : Kernel) → k.shell_count ≡ 3 → IsSystem k → OnTick IsSystem (schedule k)
unfolding schedule
schedule-IsSystem k all v =
    let k1 : Kernel = record k { rng = if slt (add32 k.rng 1) 5 then add32 k.rng 1 else 0 } in
    let v1 : IsSystem k1 = still k k1 v (counted-Keeps k _) refl in
    if_intro (OnTick IsSystem) (not (k.switch_flag 0 == 0)) (λ _. switch_display-IsSystem 0 k1 v1)
      (λ _.
        if_intro (OnTick IsSystem) (not (k.switch_flag 1 == 0))
          (λ _. switch_display-IsSystem 1 k1 v1)
          (λ _.
            if_intro (OnTick IsSystem) (not (k.switch_flag 2 == 0))
              (λ _. switch_display-IsSystem 2 k1 v1)
              (λ _.
                if_intro (OnTick IsSystem) (k.sigquit_flag k.scheduled_terminal == 1)
                  (λ _.
                    still k1 _ v1
                      (same_processes k1 _ refl refl refl refl refl refl refl refl (λ t. refl) refl)
                      refl)
                  (λ _.
                    context_switch-IsSystem (print_quote k1) (print_quote-shells k1 ∙ all)
                      (print_quote-IsSystem k1 v1)))))

-- The scheduler does not start programs.
schedule-ne-enter : (k : Kernel) (address : ℕ) (k' : Kernel) → schedule k ≢ enter address k'
unfolding schedule context_switch
schedule-ne-enter k address k' =
    let Other = λ (r : Tick). r ≢ enter address k' in
    if_intro Other (not (k.switch_flag 0 == 0)) (λ _ h. cc)
      (λ _.
        if_intro Other (not (k.switch_flag 1 == 0)) (λ _ h. cc)
          (λ _.
            if_intro Other (not (k.switch_flag 2 == 0)) (λ _ h. cc)
              (λ _.
                if_intro Other (k.sigquit_flag k.scheduled_terminal == 1) (λ _ h. cc) (λ _ h. cc))))

after_execute-enter :
    (ebp : ℕ) (r : Option ℕ × List ℕ × Kernel) (address : ℕ) (k' : Kernel)
    → after_execute ebp r ≡ enter address k'
    → (r.0 ≡ some address) × (r.2 ≡ k')
unfolding after_execute
after_execute-enter ebp (none, command, k) address k' h =
    absurd (schedule-ne-enter (save_frame ebp k) address k' h)
after_execute-enter ebp (some a, command, k) address k' h = (cc, cc)

claim_terminal-running : (k : Kernel) (t : ℕ) → running (claim_terminal k) t ≡ running k t
unfolding claim_terminal
claim_terminal-running k t =
    same_running k.terminal_processes k.shell_count
      (record (k.terminal_processes k.shell_count) { cursor_x = 7; cursor_y = 1 }) refl t

claimed-IsSystem :
    (k k' : Kernel) (ebp esp : ℕ)
    → k.shell_count < 3
    → IsForest k.shell_count k.processes_active (parents k) (running k)
    → AreSlots k.processes_active k.pcbs k.num_active_processes
    → Started (claim_terminal (save_frame ebp k)) ebp esp k'
    → IsSystem k'
unfolding claim_terminal save_frame
claimed-IsSystem k k' ebp esp few forest slots (inode, pid, low, free, e) =
    let n : ℕ = k.shell_count in
    let s0 : Kernel = claim_terminal (save_frame ebp k) in
    let next : suc n ≡ add32 n 1 = omega (arith, few) in
    let same : (t : ℕ) → running k t ≡ running s0 t = λ t.
      sym (claim_terminal-running (save_frame ebp k) t ∙ (save_frame-Keeps ebp k).terminals t) in
    let grown =
      IsForest-subst refl refl (ap (λ r. update r n pid) (fun_ext same))
        (plant forest pid low free) in
    subst IsSystem (sym e) (
      launched-IsSystem s0 inode pid ebp esp low free (omega (arith, few)) (omega (arith, few))
        slots
        (subst
          (λ m.
            IsForest m (update k.processes_active pid 1) (update (parents k) pid failure)
              (update (running s0) n pid))
          next grown))

slt_three : (n : ℕ) → n ≤ 3 → slt n 3 ≡ true → n < 3
slt_three n h b = ground arith

saved_shells : (ebp : ℕ) (k : Kernel) → (save_frame ebp k).shell_count ≡ k.shell_count
unfolding save_frame
saved_shells ebp k = refl

saved_blocks : (ebp : ℕ) (k : Kernel) → (save_frame ebp k).pcbs ≡ k.pcbs
unfolding save_frame
saved_blocks ebp k = refl

-- A shell starts on the next terminal, whether there are others or not.
pub start-IsSystem :
    (k k' : Kernel) (ebp esp address : ℕ)
    → k.shell_count ≤ 3
    → IsForest k.shell_count k.processes_active (parents k) (running k)
    → AreSlots k.processes_active k.pcbs k.num_active_processes
    → pit_handler ebp esp k ≡ enter address k'
    → IsSystem k'
unfolding pit_handler
start-IsSystem k k' ebp esp address few forest slots =
    let Leaves = λ (r : Tick). r ≡ enter address k' → IsSystem k' in
    let s0 : Kernel = claim_terminal (save_frame ebp k) in
    if_intro Leaves (slt k.shell_count 3)
      (λ more h.
        let (entered, left) =
          after_execute-enter ebp (sys_execute s0 shell_name ebp esp) address k' h in
        claimed-IsSystem k k' ebp esp (slt_three k.shell_count few more) forest slots (
          subst (Started s0 ebp esp) left
            (sys_execute-Started s0 shell_name ebp esp address entered)))
      (λ _ h. absurd (schedule-ne-enter (save_frame ebp k) address k' h))

-- With the three shells started, a timer interrupt keeps the invariant however it ends.
pub pit_handler-IsSystem :
    (k : Kernel) (ebp esp : ℕ)
    → k.shell_count ≡ 3
    → IsSystem k
    → OnTick IsSystem (pit_handler ebp esp k)
unfolding pit_handler
pit_handler-IsSystem k ebp esp all v =
    if_intro (OnTick IsSystem) (slt k.shell_count 3) (λ more. absurd (ground (arith, all)))
      (λ _.
        schedule-IsSystem (save_frame ebp k) (saved_shells ebp k ∙ all)
          (still k _ v (save_frame-Keeps ebp k) (saved_blocks ebp k)))
