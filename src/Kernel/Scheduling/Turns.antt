-- ===== src/Kernel/Scheduling/Turns.antt =====
-- The three terminals take turns, and each finds its process set up when its turn comes.
use illinix_os.Prelude.{
  ℕ, ◌+◌, ◌%◌, ◌<◌, ◌^◌, ◌≡◌, ◌≢◌, refl, ap, ◌∙◌, arith, ◌==◌, if◌then◌else◌, if_intro, eq_true,
  eq_false, sym, subst, update_self, update_ne, ℕ_discrete,
}
use illinix_os.Prelude.Word.{add32, slt}
use illinix_os.Kernel.{Kernel, TerminalInfo}
use illinix_os.Kernel.Process.{stack_top}
use illinix_os.Kernel.Process.Halting.{IsRunning}
use illinix_os.Kernel.Scheduling.{
  resume, next_terminal, context_switch, print_quote, schedule, save_frame, pit_handler,
}

-- No terminal switch is asked for and no quit signal is pending.
pub record IsQuiet (k : Kernel) : Type 0 where
  pub switch0 : k.switch_flag 0 ≡ 0
  pub switch1 : k.switch_flag 1 ≡ 0
  pub switch2 : k.switch_flag 2 ≡ 0
  pub sigquit : k.sigquit_flag k.scheduled_terminal ≢ 1

-- Each terminal has an active process in a slot, whose block names the slot; and the counters of
-- processes are sound.
pub record IsAssigned (k : Kernel) : Type 0 where
  pub slot : (t : ℕ) → t < 3 → (k.terminal_processes t).active_process_pid < 6
  pub active : (t : ℕ) → t < 3 → k.processes_active (k.terminal_processes t).active_process_pid ≢ 0
  pub named :
      (t : ℕ)
      → t < 3
      → (k.pcbs (k.terminal_processes t).active_process_pid).pid
        ≡ (k.terminal_processes t).active_process_pid
  pub counted : k.num_active_processes < 2 ^ 32
  pub has_parent : k.no_parent_shell_flag ≡ 0

abbrev pub next : Kernel → ℕ
next k = (k.scheduled_terminal + 1) % 3

next_terminal-IsRunning : (k : Kernel) → IsAssigned k → IsRunning (next_terminal k)
unfolding next_terminal
next_terminal-IsRunning k v =
    let t : ℕ = (k.scheduled_terminal + 1) % 3 in
    let low : t < 3 = omega arith in
    let p : ℕ = (k.terminal_processes t).active_process_pid in
    let small : p < 6 = v.slot t low in
    let same : (k.pcbs p).pid ≡ p = v.named t low in
    record {
      slot = small;
      active = v.active t low;
      page = rw same (omega arith);
      stack = ap stack_top same;
      shown = refl;
      counted = v.counted;
      has_parent = v.has_parent;
    }

-- What printing a quote and counting up the quote to print leave alone.
abbrev pub stepped : Kernel → Kernel
stepped k = print_quote (record k { rng = if slt (add32 k.rng 1) 5 then add32 k.rng 1 else 0 })

print_quote-IsAssigned : (k : Kernel) → IsAssigned k → IsAssigned (print_quote k)
unfolding print_quote
print_quote-IsAssigned k v =
    if_intro IsAssigned (k.severance_quote_flag k.scheduled_terminal == 1)
      (λ _. record {
        slot = v.slot;
        active = v.active;
        named = v.named;
        counted = v.counted;
        has_parent = v.has_parent;
      })
      (λ _. v)

pub print_quote-at :
    (k : Kernel)
    → ((print_quote k).scheduled_terminal ≡ k.scheduled_terminal)
      × ((print_quote k).terminal_processes ≡ k.terminal_processes)
unfolding print_quote
print_quote-at k =
    if_intro
      (λ (k' : Kernel).
        (k'.scheduled_terminal ≡ k.scheduled_terminal)
        × (k'.terminal_processes ≡ k.terminal_processes))
      (k.severance_quote_flag k.scheduled_terminal == 1) (λ _. (refl, refl)) (λ _. (refl, refl))

pub schedule-switches : (k : Kernel) → IsQuiet k → schedule k ≡ context_switch (stepped k)
unfolding schedule
schedule-switches k q =
    rw (eq_true q.switch0, eq_true q.switch1, eq_true q.switch2, eq_false q.sigquit) refl

pub context_switch-resumes :
    (k : Kernel)
    → context_switch k ≡ resume (k.terminal_processes (next k)).ebp_save (next_terminal k)
unfolding context_switch next_terminal
context_switch-resumes k = refl

pub next_terminal-at :
    (k : Kernel)
    → ((next_terminal k).scheduled_terminal ≡ next k)
      × ((next_terminal k).terminal_processes ≡ k.terminal_processes)
unfolding next_terminal
next_terminal-at k = (refl, refl)

-- The call of the scheduler.
schedule-IsRunning :
    (k : Kernel)
    → IsQuiet k
    → IsAssigned k
    → (k' : Kernel) × (schedule k
        ≡ resume (k.terminal_processes ((k.scheduled_terminal + 1) % 3)).ebp_save k')
      × (k'.scheduled_terminal ≡ (k.scheduled_terminal + 1) % 3)
      × (k'.terminal_processes ≡ k.terminal_processes)
      × IsRunning k'
schedule-IsRunning k q v =
    let same = print_quote-at _ in
    let k1 : Kernel = stepped k in
    (
      next_terminal k1,
      schedule-switches k q ∙ context_switch-resumes k1 ∙ rw (same.0, same.1) refl,
      (next_terminal-at k1).0 ∙ ap (λ s. (s + 1) % 3) same.0,
      (next_terminal-at k1).1 ∙ same.1,
      next_terminal-IsRunning k1 (
          print_quote-IsAssigned _ (record {
            slot = v.slot;
            active = v.active;
            named = v.named;
            counted = v.counted;
            has_parent = v.has_parent;
          })),
    )

module _ (ebp : ℕ) (k : Kernel) where
  saved-pid :
      (t : ℕ)
      → ((save_frame ebp k).terminal_processes t).active_process_pid
        ≡ (k.terminal_processes t).active_process_pid
  unfolding save_frame
  saved-pid t = elim (ℕ_discrete t k.scheduled_terminal) [
    | yes same ↦ rw same (
        ap (λ (i : TerminalInfo). i.active_process_pid)
          (update_self k.terminal_processes k.scheduled_terminal _))
    | no other ↦
        ap (λ (i : TerminalInfo). i.active_process_pid)
          (update_ne k.terminal_processes k.scheduled_terminal t _ other)
  ]

  pub save_frame-IsAssigned : IsAssigned k → IsAssigned (save_frame ebp k)
  unfolding save_frame
  save_frame-IsAssigned v = record {
    slot = λ t h. subst (λ p. p < 6) (sym (saved-pid t)) (v.slot t h);
    active = λ t h. subst (λ p. k.processes_active p ≢ 0) (sym (saved-pid t)) (v.active t h);
    named = λ t h. subst (λ p. (k.pcbs p).pid ≡ p) (sym (saved-pid t)) (v.named t h);
    counted = v.counted;
    has_parent = v.has_parent;
  }

  pub save_frame-IsQuiet : IsQuiet k → IsQuiet (save_frame ebp k)
  unfolding save_frame
  save_frame-IsQuiet q = record {
    switch0 = q.switch0;
    switch1 = q.switch1;
    switch2 = q.switch2;
    sigquit = q.sigquit;
  }

  pub pit_handler-schedule :
      (esp : ℕ) → k.shell_count ≡ 3 → pit_handler ebp esp k ≡ schedule (save_frame ebp k)
  unfolding pit_handler
  pit_handler-schedule esp all = rw all refl

  other_frame :
      ((save_frame ebp k).terminal_processes (next k)).ebp_save
      ≡ (k.terminal_processes (next k)).ebp_save
  unfolding save_frame
  other_frame =
      ap (λ (i : TerminalInfo). i.ebp_save)
        (update_ne k.terminal_processes k.scheduled_terminal (next k) _ (omega arith))

  own_frame : ((save_frame ebp k).terminal_processes k.scheduled_terminal).ebp_save ≡ ebp
  unfolding save_frame
  own_frame =
      ap (λ (i : TerminalInfo). i.ebp_save)
        (update_self k.terminal_processes k.scheduled_terminal _)

-- Once three shells have been started, while no request to switch the display is pending, nor one
-- to quit for the scheduled terminal, every terminal has an active process in a slot whose block
-- names it, the flag for a shell without a parent is down and fewer than 2 ^ 32 processes are
-- counted, a timer interrupt gives the turn to the next of the three terminals: the frame of the
-- interrupted one is saved, control goes to the frame saved for the next, its active process is the
-- running one, and the program page and the kernel stack in force are that process's.
pub pit_handler-IsRunning :
    (ebp esp : ℕ) (k : Kernel)
    → k.shell_count ≡ 3
    → IsQuiet k
    → IsAssigned k
    → (k' : Kernel) × (pit_handler ebp esp k
        ≡ resume (k.terminal_processes ((k.scheduled_terminal + 1) % 3)).ebp_save k')
      × (k'.scheduled_terminal ≡ (k.scheduled_terminal + 1) % 3)
      × ((k'.terminal_processes k.scheduled_terminal).ebp_save ≡ ebp)
      × IsRunning k'
unfolding save_frame
pit_handler-IsRunning ebp esp k all q v =
    let saved : Kernel = save_frame ebp k in
    let (k', switches, at, kept, runs) =
      schedule-IsRunning saved (save_frame-IsQuiet ebp k q) (save_frame-IsAssigned ebp k v) in
    (
      k',
      pit_handler-schedule ebp k esp all ∙ (switches ∙ ap (λ f. resume f k') (other_frame ebp k)),
      at,
      ap (λ p. (p k.scheduled_terminal).ebp_save) kept ∙ own_frame ebp k,
      runs,
    )
