-- ===== src/Kernel/Scheduling/Rounds.antt =====
-- Any number of timer interrupts: the terminals take turns.
use illinix_os.Prelude.{
  ℕ, zero, suc, ◌+◌, ◌%◌, ◌<◌, ◌≡◌, ◌≢◌, refl, ap, ◌∙◌, Option, none, some, arith, ◌==◌, if_intro,
}
use illinix_os.Kernel.{Kernel}
use illinix_os.Kernel.Scheduling.{
  back, halt, resume, enter, next_terminal, print_quote, save_frame, pit_handler,
}
use illinix_os.Kernel.Scheduling.Turns.{
  IsQuiet, IsAssigned, stepped, print_quote-at, schedule-switches, context_switch-resumes,
  next_terminal-at, save_frame-IsAssigned, save_frame-IsQuiet, pit_handler-schedule,
}

-- The three shells have been started, and no request is pending for any terminal.
pub record IsCalm (k : Kernel) : Type 0 where
  pub all_started : k.shell_count ≡ 3
  pub flags : (t : ℕ) → t < 3 → k.switch_flag t ≡ 0
  pub sigquits : (t : ℕ) → t < 3 → k.sigquit_flag t ≢ 1
  pub scheduled : k.scheduled_terminal < 3
  pub assigned : IsAssigned k

calm-IsQuiet : (k : Kernel) → IsCalm k → IsQuiet k
calm-IsQuiet k c = record {
  switch0 = c.flags 0 (omega arith);
  switch1 = c.flags 1 (omega arith);
  switch2 = c.flags 2 (omega arith);
  sigquit = c.sigquits k.scheduled_terminal c.scheduled;
}

print_quote-IsCalm : (k : Kernel) → IsCalm k → IsCalm (print_quote k)
unfolding print_quote
print_quote-IsCalm k c =
    if_intro IsCalm (k.severance_quote_flag k.scheduled_terminal == 1)
      (λ _. record {
        all_started = c.all_started;
        flags = c.flags;
        sigquits = c.sigquits;
        scheduled = c.scheduled;
        assigned = record {
          slot = c.assigned.slot;
          active = c.assigned.active;
          named = c.assigned.named;
          counted = c.assigned.counted;
          has_parent = c.assigned.has_parent;
        };
      })
      (λ _. c)

next_terminal-IsCalm : (k : Kernel) → IsCalm k → IsCalm (next_terminal k)
unfolding next_terminal
next_terminal-IsCalm k c = record {
  all_started = c.all_started;
  flags = c.flags;
  sigquits = c.sigquits;
  scheduled = omega arith;
  assigned = record {
    slot = c.assigned.slot;
    active = c.assigned.active;
    named = c.assigned.named;
    counted = c.assigned.counted;
    has_parent = c.assigned.has_parent;
  };
}

save_frame-IsCalm : (ebp : ℕ) (k : Kernel) → IsCalm k → IsCalm (save_frame ebp k)
unfolding save_frame
save_frame-IsCalm ebp k c = record {
  all_started = c.all_started;
  flags = c.flags;
  sigquits = c.sigquits;
  scheduled = c.scheduled;
  assigned = save_frame-IsAssigned ebp k c.assigned;
}

-- The state in which the next terminal has its turn.
abbrev turn : ℕ → Kernel → Kernel
turn ebp k = next_terminal (stepped (save_frame ebp k))

turn-IsCalm : (ebp : ℕ) (k : Kernel) → IsCalm k → IsCalm (turn ebp k)
turn-IsCalm ebp k calm =
    let c = save_frame-IsCalm ebp k calm in
    next_terminal-IsCalm (stepped (save_frame ebp k)) (
      print_quote-IsCalm _ (record {
        all_started = c.all_started;
        flags = c.flags;
        sigquits = c.sigquits;
        scheduled = c.scheduled;
        assigned = record {
          slot = c.assigned.slot;
          active = c.assigned.active;
          named = c.assigned.named;
          counted = c.assigned.counted;
          has_parent = c.assigned.has_parent;
        };
      }))

-- The state that `n` timer interrupts leave, if each goes to a saved frame. The registers at each are
-- those of `frames`, the last one's at 0.
unfoldable pub after_ticks : ℕ → (ℕ → ℕ × ℕ) → Kernel → Option Kernel
after_ticks zero frames k = some k
after_ticks (suc n) frames k = elim (pit_handler (frames n).0 (frames n).1 k) [
  | resume ebp k' ↦ after_ticks n frames k'
  | back k' ↦ none
  | halt k' ↦ none
  | enter address k' ↦ none
]

after_ticks-turn :
    (n : ℕ) (frames : ℕ → ℕ × ℕ) (k : Kernel)
    → IsCalm k
    → after_ticks (suc n) frames k ≡ after_ticks n frames (turn (frames n).0 k)
unfolding after_ticks
after_ticks-turn n frames k c =
    let saved : Kernel = save_frame (frames n).0 k in
    rw
      (
        pit_handler-schedule (frames n).0 k (frames n).1 c.all_started,
        schedule-switches saved (save_frame-IsQuiet (frames n).0 k (calm-IsQuiet k c)),
        context_switch-resumes (stepped saved),
        after_ticks,
      )
      refl

turn-at : (ebp : ℕ) (k : Kernel) → (turn ebp k).scheduled_terminal ≡ (k.scheduled_terminal + 1) % 3
unfolding save_frame
turn-at ebp k =
    (next_terminal-at (stepped (save_frame ebp k))).0 ∙ ap (λ s. (s + 1) % 3) (print_quote-at _).0

-- Once three shells have been started, while no request is pending for any of the three terminals, one
-- of which is scheduled, every terminal has an active process in a slot whose block names it, the flag
-- for a shell without a parent is down and fewer than 2 ^ 32 processes are counted, the terminals take
-- turns: any number of timer interrupts, whatever the registers at each, go to saved frames, after `n`
-- of them the scheduled terminal is the one `n` places further of the three, and the conditions hold
-- again.
pub after_ticks-scheduled :
    (n : ℕ) (frames : ℕ → ℕ × ℕ) (k : Kernel)
    → IsCalm k
    → (k' : Kernel) × (after_ticks n frames k ≡ some k')
      × (k'.scheduled_terminal ≡ (k.scheduled_terminal + n) % 3)
      × IsCalm k'
unfolding after_ticks
after_ticks-scheduled zero frames k c =
    let small : k.scheduled_terminal < 3 = c.scheduled in (k, refl, omega arith, c)
after_ticks-scheduled (suc n) frames k c =
    let ebp : ℕ = (frames n).0 in
    let (k', e, at, calm) = after_ticks-scheduled n frames (turn ebp k) (turn-IsCalm ebp k c) in
    let first = turn-at ebp k in
    (k', after_ticks-turn n frames k c ∙ e, further _ _ n _ first at, calm)
  where
    further : (s s1 n s' : ℕ) → s1 ≡ (s + 1) % 3 → s' ≡ (s1 + n) % 3 → s' ≡ (s + suc n) % 3
    further s s1 n s' e e' = omega arith
