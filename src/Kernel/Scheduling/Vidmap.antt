-- ===== src/Kernel/Scheduling/Vidmap.antt =====
-- The page that sys_vidmap gives a program.
use illinix_os.Prelude.{
  ℕ, ◌+◌, ◌*◌, ◌≤◌, ◌<◌, ◌^◌, ◌≡◌, ◌⊎◌, refl, ap, ◌∙◌, true, false, ◌||◌, not, none, some, arith,
  ◌==◌, if◌then◌else◌, update, update_self,
}
use illinix_os.Prelude.Word.{failure, slt}
use illinix_os.Kernel.{Kernel}
use illinix_os.Kernel.Scheduling.{video, saved_page, sys_vidmap}

page_index : (s : ℕ) → s < 3 → (if s == 0 then 0 else if s == 1 then 1 else 2) ≡ s
page_index s h = ground arith

page_base :
    (s d : ℕ)
    → 4096 * (if s == d then 0xB8 else 0xBA + s) ≡ (if s == d then video else saved_page s)
page_base s d = ground arith

-- A pointer above the start of the program's code, in the program's 4 MB, gets the address of the
-- page at 132 MB that belongs to the scheduled terminal. The page maps to video memory if that
-- terminal is displayed, and to the memory where its screen is kept if not.
pub sys_vidmap-maps :
    (k : Kernel) (screen_start old : ℕ)
    → k.scheduled_terminal < 3
    → 0x08048000 < screen_start
    → screen_start < 0x08400000
    → (k' : Kernel) × (sys_vidmap screen_start old k ≡ (
      0x08400000 + k.scheduled_terminal * 4096,
      some (0x08400000 + k.scheduled_terminal * 4096),
      k',
    ))
      × (4096 * k'.vmem_page k.scheduled_terminal ≡ (
          if k.scheduled_terminal == k.displayed_terminal
          then video
          else saved_page k.scheduled_terminal))
unfolding sys_vidmap
sys_vidmap-maps k screen_start old low above below = (
  record k {
    vmem_page = update k.vmem_page k.scheduled_terminal (
        if k.scheduled_terminal == k.displayed_terminal then 0xB8 else 0xBA + k.scheduled_terminal);
  },
  rw (good, inside, page_index k.scheduled_terminal low) refl,
  ap (λ p. 4096 * p) (update_self k.vmem_page k.scheduled_terminal _)
      ∙ page_base k.scheduled_terminal k.displayed_terminal,
)
  where
    good :
        (screen_start == 0 || (slt screen_start 0x08000000 || not (slt screen_start 0x08400000)))
        ≡ false
    good = ground arith

    inside : slt 0x08048000 screen_start ≡ true
    inside = ground arith

-- A null pointer and a pointer outside the program's 4 MB are refused, and nothing changes.
pub sys_vidmap-refuses :
    (k : Kernel) (screen_start old : ℕ)
    → screen_start < 2 ^ 32
    → (screen_start < 0x08000000) ⊎ (0x08400000 ≤ screen_start)
    → sys_vidmap screen_start old k ≡ (failure, none, k)
unfolding sys_vidmap
sys_vidmap-refuses k screen_start old w bad = rw bad_pointer refl
  where
    bad_pointer :
        (screen_start == 0 || (slt screen_start 0x08000000 || not (slt screen_start 0x08400000)))
        ≡ true
    bad_pointer = ground arith
