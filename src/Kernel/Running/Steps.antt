-- ===== src/Kernel/Running/Steps.antt =====
-- One entry into the kernel as a step of a relation on its state: timer, clock and keyboard interrupts,
-- and the system calls of the running process.
use illinix_os.Terminal.{sys_getargs}
use illinix_os.Rtc.Interrupt.{rtc_interrupt}
use illinix_os.Prelude.{
  refl, if_intro, update, ◌++◌, none, not, ◌||◌, ℕ, ◌<◌, ◌^◌, ◌≡◌, sym, ◌∙◌, subst, Option, some,
  List, ◌==◌, ℕ_discrete,
}
use illinix_os.Prelude.Word.{slt, failure}
use illinix_os.FileSys.Data.{Buffer}
use illinix_os.Kernel.{Kernel, current}
use illinix_os.Kernel.Syscalls.{
  no_buffer, returned, Arrivals, sys_open, sys_close, sys_read, sys_write,
}
use illinix_os.Kernel.Syscalls.Table.{TableAfter, sys_close-IsTable}
use illinix_os.Kernel.Syscalls.NoFault.{sys_read-null, ReadAfter, sys_read-IsTable}
use illinix_os.Kernel.Syscalls.Open.{sys_open-IsTable}
use illinix_os.Kernel.Process.{resumed, restarted, sys_execute, sys_halt}
use illinix_os.Kernel.Process.System.{IsSystem, sys_execute-Started, execute-IsSystem}
use illinix_os.Kernel.Process.Ending.{own-IsTable, halt-resumes, halt-restarts, halt-root}
use illinix_os.Kernel.Scheduling.{sys_vidmap, back, halt, resume, enter, pit_handler}
use illinix_os.Kernel.Typing.Handler.{kb_handler}
use illinix_os.Kernel.Running.Same.{Keeps, same_processes, Keeps-refl, Keeps-IsSystem, still}
use illinix_os.Kernel.Running.Keys.{kb_handler-Keeps}
use illinix_os.Kernel.Running.Calls.{
  sys_open-Keeps, KeepsCall, sys_close-Keeps, KeepsData, sys_read-Keeps, KeepsWrite,
  sys_write-Keeps,
}
use illinix_os.Kernel.Running.Ticks.{start-IsSystem, pit_handler-IsSystem, OnTick}

-- One entry into the kernel, as it changes the state: `started`, `switched`, `displayed` and `quit` are
-- the ways in which a timer interrupt ends, the last one on its way to sys_halt; a start that fails is
-- left out, and so are turns that terminals take before all have a shell, and a halt that finds no
-- shell to start again. `waits_line` and `waits_clock` are what t_read and rtc_read change before they
-- wait; the read that goes on when what it waits for has come is a `read` from there. `ticked` is an
-- interrupt of the clock.
pub data Step (k k' : Kernel) : Type 0 where
  executed :
      (command : List ℕ) (ebp esp eip : ℕ)
      → (sys_execute k command ebp esp).0 ≡ some eip
      → k' ≡ (sys_execute k command ebp esp).2
      → Step k k'
  halted :
      (bl ebp esp frame value : ℕ)
      → sys_halt k bl ebp esp ≡ returned (resumed frame value k')
      → Step k k'
  renewed :
      (bl ebp esp eip : ℕ) → sys_halt k bl ebp esp ≡ returned (restarted (some eip) k') → Step k k'
  started : (ebp esp address : ℕ) → pit_handler ebp esp k ≡ enter address k' → Step k k'
  switched :
      (ebp esp frame : ℕ) → k.shell_count ≡ 3 → pit_handler ebp esp k ≡ resume frame k' → Step k k'
  displayed : (ebp esp : ℕ) → k.shell_count ≡ 3 → pit_handler ebp esp k ≡ back k' → Step k k'
  quit : (ebp esp : ℕ) → k.shell_count ≡ 3 → pit_handler ebp esp k ≡ halt k' → Step k k'
  opened : (filename : List ℕ) → k' ≡ (sys_open k filename).1 → Step k k'
  closed_one : (fd ret : ℕ) → fd < 2 ^ 32 → sys_close k fd ≡ returned (ret, k') → Step k k'
  read :
      (a : Arrivals) (fd : ℕ) (buf : Option Buffer) (nbytes ret : ℕ) (buf' : Buffer)
      → fd < 2 ^ 32
      → sys_read a k fd buf nbytes ≡ returned (ret, buf', k')
      → Step k k'
  wrote :
      (fd : ℕ) (buf : Option Buffer) (nbytes ret : ℕ)
      → sys_write k fd buf nbytes ≡ returned (ret, k')
      → Step k k'
  waits_line :
      k' ≡ record k { terminal_read_flag = update k.terminal_read_flag k.scheduled_terminal 1 }
      → Step k k'
  waits_clock :
      k' ≡ record k { rtc = record k.rtc { rtc_int = update k.rtc.rtc_int k.scheduled_terminal 0 } }
      → Step k k'
  ticked :
      k' ≡ record k {
        rtc = (rtc_interrupt k.rtc k.pic).0;
        pic = (rtc_interrupt k.rtc k.pic).1;
        port_log = k.port_log ++ (rtc_interrupt k.rtc k.pic).2;
      }
      → Step k k'
  got_args :
      (buf : Option Buffer) (nbytes : ℕ)
      → k' ≡ record k { get_args_buf = (sys_getargs buf nbytes k.get_args_buf).2 }
      → Step k k'
  mapped : (screen_start old : ℕ) → k' ≡ (sys_vidmap screen_start old k).2 → Step k k'
  pressed : (beyond key : ℕ) → k' ≡ kb_handler beyond key k → Step k k'

halted-IsSystem :
    (k k' : Kernel) (bl ebp esp frame value : ℕ)
    → IsSystem k
    → sys_halt k bl ebp esp ≡ returned (resumed frame value k')
    → IsSystem k'
halted-IsSystem k k' bl ebp esp frame value v h = elim (ℕ_discrete (current k).parent_pid failure) [
  | yes root ↦ let same = sym (halt-root k bl ebp esp root) ∙ h in absurd (cc)
  | no child ↦
      let (k1, e, at, w) = halt-resumes k v bl ebp esp child in
      let same : returned (resumed (current k).ebp _ k1) ≡ returned (resumed frame value k') =
        sym e ∙ h in
      subst IsSystem (cc) w
]

-- The state that a call leaves, if the call is known to return it.
close-IsSystem :
    (k k' : Kernel) (fd ret : ℕ)
    → IsSystem k
    → fd < 2 ^ 32
    → sys_close k fd ≡ returned (ret, k')
    → IsSystem k'
close-IsSystem k k' fd ret v w h =
    Keeps-IsSystem (subst (KeepsCall k) h (sys_close-Keeps k fd))
      (subst TableAfter h (sys_close-IsTable k fd w (own-IsTable k v))) v

read_some-IsSystem :
    (k k' : Kernel) (a : Arrivals) (fd : ℕ) (buf : Buffer) (nbytes ret : ℕ) (buf' : Buffer)
    → IsSystem k
    → fd < 2 ^ 32
    → sys_read a k fd (some buf) nbytes ≡ returned (ret, buf', k')
    → IsSystem k'
read_some-IsSystem k k' a fd buf nbytes ret buf' v w h =
    Keeps-IsSystem (subst (KeepsData k) h (sys_read-Keeps k a fd buf nbytes))
      (subst ReadAfter h (sys_read-IsTable a k fd buf nbytes w (own-IsTable k v))) v

read-IsSystem :
    (k k' : Kernel) (a : Arrivals) (fd : ℕ) (buf : Option Buffer) (nbytes ret : ℕ) (buf' : Buffer)
    → IsSystem k
    → fd < 2 ^ 32
    → sys_read a k fd buf nbytes ≡ returned (ret, buf', k')
    → IsSystem k'
read-IsSystem k k' a fd none nbytes ret buf' v w h =
    read_some-IsSystem k k' a fd no_buffer nbytes ret buf' v w (sys_read-null _ a k fd nbytes h)
read-IsSystem k k' a fd (some buf) nbytes ret buf' v w h =
    read_some-IsSystem k k' a fd buf nbytes ret buf' v w h

write-IsSystem :
    (k k' : Kernel) (fd : ℕ) (buf : Option Buffer) (nbytes ret : ℕ)
    → IsSystem k
    → sys_write k fd buf nbytes ≡ returned (ret, k')
    → IsSystem k'
write-IsSystem k k' fd buf nbytes ret v h =
    let (s, blocks) = subst (KeepsWrite k) h (sys_write-Keeps k fd buf nbytes) in
    still k k' v s blocks

-- A change to what the processes do not use.
unused-IsSystem :
    (k k' k1 : Kernel) → IsSystem k → Keeps k k1 × (k1.pcbs ≡ k.pcbs) → k' ≡ k1 → IsSystem k'
unused-IsSystem k k' k1 v (s, blocks) e = subst IsSystem (sym e) (still k k1 v s blocks)

sys_vidmap-Keeps :
    (screen_start old : ℕ) (k : Kernel)
    → Keeps k (sys_vidmap screen_start old k).2 × ((sys_vidmap screen_start old k).2.pcbs ≡ k.pcbs)
unfolding sys_vidmap
sys_vidmap-Keeps screen_start old k =
    let Same = λ (r : ℕ × Option ℕ × Kernel). Keeps k r.2 × (r.2.pcbs ≡ k.pcbs) in
    if_intro Same
      (screen_start == 0 || (slt screen_start 0x08000000 || not (slt screen_start 0x08400000)))
      (λ _. (Keeps-refl k, refl))
      (λ _.
        if_intro Same (slt 0x08048000 screen_start)
          (λ _. (same_processes k _ refl refl refl refl refl refl refl refl (λ t. refl) refl, refl))
          (λ _. (Keeps-refl k, refl)))

pub Step-IsSystem : (k k' : Kernel) → IsSystem k → Step k k' → IsSystem k'
Step-IsSystem k k' v (executed command ebp esp eip h e) =
    execute-IsSystem k k' ebp esp v (rw e (sys_execute-Started k command ebp esp eip h))
Step-IsSystem k k' v (halted bl ebp esp frame value h) =
    halted-IsSystem k k' bl ebp esp frame value v h
Step-IsSystem k k' v (renewed bl ebp esp eip h) = elim (ℕ_discrete (current k).parent_pid failure) [
  | yes root ↦ halt-restarts k k' bl ebp esp eip v root h
  | no child ↦
      let (k1, e, at, w) = halt-resumes k v bl ebp esp child in let same = sym e ∙ h in absurd (cc)
]
Step-IsSystem k k' v (started ebp esp address h) =
    start-IsSystem k k' ebp esp address v.terminals v.forest v.slots h
Step-IsSystem k k' v (switched ebp esp frame all h) =
    subst (OnTick IsSystem) h (pit_handler-IsSystem k ebp esp all v)
Step-IsSystem k k' v (displayed ebp esp all h) =
    subst (OnTick IsSystem) h (pit_handler-IsSystem k ebp esp all v)
Step-IsSystem k k' v (quit ebp esp all h) =
    subst (OnTick IsSystem) h (pit_handler-IsSystem k ebp esp all v)
Step-IsSystem k k' v (opened filename e) =
    subst IsSystem (sym e)
      (Keeps-IsSystem (sys_open-Keeps k filename) (sys_open-IsTable k filename (own-IsTable k v)) v)
Step-IsSystem k k' v (closed_one fd ret w h) = close-IsSystem k k' fd ret v w h
Step-IsSystem k k' v (read a fd buf nbytes ret buf' w h) =
    read-IsSystem k k' a fd buf nbytes ret buf' v w h
Step-IsSystem k k' v (wrote fd buf nbytes ret h) = write-IsSystem k k' fd buf nbytes ret v h
Step-IsSystem k k' v (waits_line e) =
    unused-IsSystem k k' _ v
      (same_processes k _ refl refl refl refl refl refl refl refl (λ t. refl) refl, refl) e
Step-IsSystem k k' v (waits_clock e) =
    unused-IsSystem k k' _ v
      (same_processes k _ refl refl refl refl refl refl refl refl (λ t. refl) refl, refl) e
Step-IsSystem k k' v (ticked e) =
    unused-IsSystem k k' _ v
      (same_processes k _ refl refl refl refl refl refl refl refl (λ t. refl) refl, refl) e
Step-IsSystem k k' v (got_args buf nbytes e) =
    unused-IsSystem k k' _ v
      (same_processes k _ refl refl refl refl refl refl refl refl (λ t. refl) refl, refl) e
Step-IsSystem k k' v (mapped screen_start old e) =
    unused-IsSystem k k' _ v (sys_vidmap-Keeps screen_start old k) e
Step-IsSystem k k' v (pressed beyond key e) =
    let (s, blocks) = kb_handler-Keeps beyond key k in subst IsSystem (sym e) (still k _ v s blocks)
