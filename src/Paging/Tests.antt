-- ===== src/Paging/Tests.antt =====
-- Addresses that the kernel and programs use, looked up.
use illinix_os.Prelude.{◌≡◌, refl, true, false, none, some, arith}
use illinix_os.Paging.{Tables, paging_init}
use illinix_os.Paging.Walk.{walk, walk-first}

abbrev pub zeroed : Tables
zeroed = record {
  page_directory =
      λ i. record { p = 0; rw = 0; us = 0; ps = 0; pt_base_addr = 0; page_base_addr = 0 };
  first_page_table = λ i. record { p = 0; rw = 0; us = 0; p_base_addr = 0 };
  vmem_page_table = λ i. record { p = 0; rw = 0; us = 0; p_base_addr = 0 };
}

walk-first_example :
    (walk 0x500000 0x501000 false 0xB8010 (paging_init 0x500000 0x501000 zeroed) ≡ some 0xB8010)
    × (walk 0x500000 0x501000 true 0xB8010 (paging_init 0x500000 0x501000 zeroed) ≡ none)
walk-first_example = walk-first 0x500000 0x501000 0xB8010 zeroed (omega arith) refl
