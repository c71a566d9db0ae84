-- ===== src/Programs/Listing/Main.antt =====
-- ls opens the directory and writes its names.
use illinix_os.Prelude.{
  ℕ, ◌+◌, ◌≤◌, ◌<◌, ◌≡◌, ◌∙◌, refl, ap, length, arith, ◌==◌, if◌then◌else◌, if_intro,
}
use illinix_os.Prelude.Text.{bytes_of}
use illinix_os.Prelude.Word.{failure}
use illinix_os.FileSys.Image.{entry_type}
use illinix_os.FileSys.Data.{Buffer}
use illinix_os.Kernel.{Kernel, Descriptor, set_descriptor}
use illinix_os.Kernel.Syscalls.{Arrivals, driver_of}
use illinix_os.Kernel.Syscalls.Open.{Names, LowestFree, opened_as}
use illinix_os.Kernel.Syscalls.OpenClose.{sys_open-eq}
use illinix_os.Programs.{Run, finished, complain}
use illinix_os.Programs.Output.{HasOutput, descriptor-set_descriptor, set_descriptor-HasOutput}
use illinix_os.Programs.Printing.{write_text}
use illinix_os.Programs.Listing.{ls_loop, ls}
use illinix_os.Programs.Listing.Loop.{IsListing, entry_text, listing, ls_loop-lists}

opened-IsListing :
    (k : Kernel) (i fd : ℕ)
    → 2 ≤ fd
    → fd < 8
    → entry_type k.image i ≡ 1
    → IsListing (set_descriptor k fd (opened_as k.image i)) fd 0
unfolding opened_as
opened-IsListing k i fd low high type =
    let at = descriptor-set_descriptor k fd (opened_as k.image i) in
    record {
      from_two = low;
      to_seven = high;
      used = λ e. absurd (omega (arith, ap (λ (q : Descriptor). q.flags) at, e));
      reads = ap (λ (q : Descriptor). q.ops.read_op) at ∙ ap driver_of type;
      position = ap (λ (q : Descriptor). q.file_position) at;
    }

-- With a free descriptor, standard output open, and a directory whose first entry with the name "." is
-- of type 1, ls ends with the value 0 if the first `n` of the 63 entries have names and the next one
-- has none. It has then written to the terminal these names, in order, each with a newline. Its loop
-- needs `n + 1` rounds.
pub ls-lists :
    (n m : ℕ) (a : Arrivals) (i fd : ℕ) (buf : Buffer) (k : Kernel)
    → Names k.image (bytes_of ".") i
    → LowestFree k fd
    → entry_type k.image i ≡ 1
    → HasOutput k
    → n < 63
    → n < m
    → ((j : ℕ) → j < n → 0 < length (entry_text k.image j))
    → length (entry_text k.image n) ≡ 0
    → (k' : Kernel) × (ls m a buf k ≡ finished 0 k')
      × (k'.screen
          ≡ write_text k.displayed_terminal k.scheduled_terminal (listing k.image n 0) k.screen)
unfolding ls set_descriptor
ls-lists n m a i fd buf k named free type o low room names empty =
    let opens =
      sys_open-eq k (bytes_of ".") i fd named free (omega (arith, type))
        (λ e. absurd (omega (arith, type, e))) in
    let is_low = free.low in
    let is_high = free.high in
    let k1 : Kernel = set_descriptor k fd (opened_as k.image i) in
    let count : 0 + n ≡ n = omega arith in
    let (k', ends, screen) =
      ls_loop-lists n m a fd 0 buf k1 (opened-IsListing k i fd is_low is_high type)
        (set_descriptor-HasOutput k fd _ is_low o) (omega arith) room
        (λ j above below. names j (omega arith))
        (ap (λ q. length (entry_text k.image q)) count ∙ empty) in
    (
      k',
      ap
            (λ (r : ℕ × Kernel).
              if r.0 == failure
              then complain (bytes_of "directory open failed\n") 2 r.1
              else ls_loop m a r.0 buf r.1)
            opens
          ∙ (if_intro (λ (r : Run). r ≡ ls_loop m a fd buf k1) (fd == failure)
                (λ t. absurd (ground arith)) (λ _. refl)
              ∙ ends),
      screen,
    )
