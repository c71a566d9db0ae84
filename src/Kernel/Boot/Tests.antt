-- ===== src/Kernel/Boot/Tests.antt =====
-- A machine that starts with its tables zeroed.
use illinix_os.Prelude.{◌≡◌, refl, [], ◌∷◌, arith}
use illinix_os.Prelude.Word.{failure}
use illinix_os.FileSys.Tests.{image}
use illinix_os.Pic.Masks.{masked}
use illinix_os.Idt.Tests.{wrappers, empty}
use illinix_os.Paging.Tests.{zeroed}
use illinix_os.Kernel.Syscalls.{closed}
use illinix_os.Kernel.Tests.{machine}
use illinix_os.Kernel.Typing.Bounds.{IsKeyboard}
use illinix_os.Kernel.Typing.Typed.{press_all}
use illinix_os.Kernel.Boot.Keyboard.{IsZeroed, entry-press_all}
use illinix_os.Segments.{SegDesc}
use illinix_os.Kernel.Boot.{Placed, Machine, entry, vector_of, entry-delivers}

abbrev placed : Placed
placed = record {
  ldt = 0x401000;
  ldt_size = 31;
  tss = 0x402000;
  tss_size = 103;
  wrappers = wrappers;
  first_page_table_at = 0x500000;
  vmem_page_table_at = 0x501000;
}

abbrev no_segment : SegDesc
no_segment = record {
  seg_lim_15_00 = 0;
  base_15_00 = 0;
  base_23_16 = 0;
  type = 0;
  sys = 0;
  dpl = 0;
  present = 0;
  seg_lim_19_16 = 0;
  avail = 0;
  reserved = 0;
  opsize = 0;
  granularity = 0;
  base_31_24 = 0;
}

abbrev fresh : Machine
fresh = record {
  kernel = machine (image 2 1) failure closed;
  idt = empty;
  tables = zeroed;
  ldt_desc_ptr = no_segment;
  tss_desc_ptr = no_segment;
  ldt_segment_selector = 0;
  ss0 = 0;
}

entry-delivers_example :
    (masked (entry placed (λ i. 0x5A) fresh).kernel.pic 8 ≡ 0)
    × (((entry placed (λ i. 0x5A) fresh).idt
          (vector_of (entry placed (λ i. 0x5A) fresh).kernel.pic.sent 8)).present
        ≡ 1)
    × (((entry placed (λ i. 0x5A) fresh).kernel.displayed_terminal ≡ 0)
        × ((entry placed (λ i. 0x5A) fresh).kernel.scheduled_terminal ≡ 0))
    × ((entry placed (λ i. 0x5A) fresh).kernel.rtc.rtc_int 2 ≡ 0)
entry-delivers_example = entry-delivers placed (λ i. 0x5A) fresh 8 2 (omega arith) (omega arith)

fresh-IsZeroed : IsZeroed fresh.kernel
fresh-IsZeroed = record {
  line = λ t. refl;
  cursors = λ t. (refl, refl);
  starts = λ t. (refl, refl);
  counts = λ t. refl;
  others = λ t n h. (0, omega arith, refl);
}

-- The letters a and b, the enter key and the up arrow.
entry-press_all_example :
    IsKeyboard
      (press_all 0 (0x1E ∷ 0x30 ∷ 0x1C ∷ 0x48 ∷ []) (entry placed (λ i. 0x5A) fresh).kernel)
entry-press_all_example =
    entry-press_all placed (λ i. 0x5A) fresh 0 (0x1E ∷ 0x30 ∷ 0x1C ∷ 0x48 ∷ []) fresh-IsZeroed
