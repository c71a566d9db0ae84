-- ===== src/Paging.antt =====
-- student-distrib/paging.c: the page directory and the two page tables. The fields of an entry that
-- the code never sets are left out, and loading the directory into the processor is assembly.
pub mod Walk
pub mod Tests
use illinix_os.Prelude.{ℕ, zero, suc, ◌+◌, ◌*◌, ◌/◌, ◌%◌, update}

-- `paging_dir_entry_t`: a 4 KB view with the base of a page table, and a 4 MB view with the base of a
-- page.
pub record DirEntry : Type 0 where
  pub p : ℕ
  pub rw : ℕ
  pub us : ℕ
  pub ps : ℕ
  pub pt_base_addr : ℕ
  pub page_base_addr : ℕ

-- `paging_table_t`
pub record TableEntry : Type 0 where
  pub p : ℕ
  pub rw : ℕ
  pub us : ℕ
  pub p_base_addr : ℕ

pub record Tables : Type 0 where
  pub page_directory : ℕ → DirEntry
  pub first_page_table : ℕ → TableEntry
  pub vmem_page_table : ℕ → TableEntry

-- `for (i = 0; i < 1024; i++)` over the directory and over a table, with `n` rounds left.
unfoldable pub clear_directory : ℕ → ℕ → (ℕ → DirEntry) → ℕ → DirEntry
unfolding update
clear_directory zero i d = d
clear_directory (suc n) i d =
    clear_directory n (suc i) (update d i (record (d i) { rw = 1; p = 0 }))

unfoldable pub clear_table : ℕ → ℕ → (ℕ → TableEntry) → ℕ → TableEntry
unfolding update
clear_table zero i t = t
clear_table (suc n) i t = clear_table n (suc i) (update t i (record (t i) { p = 0; rw = 1 }))

unfoldable pub map_page : ℕ → ℕ → ℕ → (ℕ → TableEntry) → ℕ → TableEntry
unfolding update
map_page i us base t = update t i (record (t i) { us = us; p = 1; p_base_addr = base })

-- A page of `vmem_page_table`, whose base is set later.
unfoldable pub add_user_page : ℕ → (ℕ → TableEntry) → ℕ → TableEntry
unfolding update
add_user_page i t = update t i (record (t i) { us = 1; p = 1 })

unfoldable pub init_directory : ℕ → ℕ → (ℕ → DirEntry) → ℕ → DirEntry
init_directory first vmem d =
    let d0 = clear_directory 1024 0 d in
    let d1 = update d0 0 (record (d0 0) { pt_base_addr = first / 4096; ps = 0; us = 0; p = 1 }) in
    let d2 = update d1 1 (record (d1 1) { rw = 1; us = 0; p = 1; ps = 1; page_base_addr = 1 }) in
    let d3 = update d2 32 (record (d2 32) { rw = 1; us = 1; p = 1; ps = 1 }) in
    update d3 33 (record (d3 33) { pt_base_addr = vmem / 4096; ps = 0; us = 1; p = 1 })

unfoldable pub init_first_table : (ℕ → TableEntry) → ℕ → TableEntry
init_first_table t =
    map_page 0xBC 0 0xBC
      (map_page 0xBB 0 0xBB (map_page 0xBA 0 0xBA (map_page 0xB8 0 0xB8 (clear_table 1024 0 t))))

unfoldable pub init_vmem_table : (ℕ → TableEntry) → ℕ → TableEntry
init_vmem_table t = add_user_page 2 (add_user_page 1 (add_user_page 0 (clear_table 1024 0 t)))

-- `first` and `vmem` are the addresses at which the linker puts the two tables.
unfoldable pub paging_init : ℕ → ℕ → Tables → Tables
paging_init first vmem t = record {
  page_directory = init_directory first vmem t.page_directory;
  first_page_table = init_first_table t.first_page_table;
  vmem_page_table = init_vmem_table t.vmem_page_table;
}
