-- ===== src/Kernel/Process/Refusing.antt =====
-- Where sys_execute refuses.
use illinix_os.Prelude.{
  ℕ, ◌^◌, ◌/◌, ◌≤◌, ◌<◌, ◌≡◌, ◌≢◌, ◌⊎◌, inl, inr, refl, ap, ◌∙◌, true, false, Option, none, List,
  arith, ◌==◌, if_intro, sym, subst,
}
use illinix_os.Prelude.Word.{failure}
use illinix_os.FileSys.Image.{
  Image, entry_inode, entry_name, length_in_bytes, data_block, number_of_data_blocks,
}
use illinix_os.FileSys.Dentry.{strlen, fill_dentry}
use illinix_os.FileSys.Dentry.Names.{name_of, read_dentry_by_name-first, read_dentry_by_name-fails}
use illinix_os.FileSys.Data.{Buffer, read_data}
use illinix_os.FileSys.Data.Refusals.{read_data_refuses}
use illinix_os.FileSys.Data.Contents.{IsFile, file_byte, filled, read_data_lem}
use illinix_os.Kernel.{Kernel}
use illinix_os.Kernel.Files.{local_dentry}
use illinix_os.Kernel.Syscalls.Open.{Names}
use illinix_os.Kernel.Process.{mag_num_buf, has_magic, sys_execute}
use illinix_os.Kernel.Process.Launch.{IsExecutable, sys_execute-full}

-- A file whose first block has a number that the image does not have.
pub record IsBroken (img : Image) (inode : ℕ) : Type 0 where
  pub some_byte : 0 < length_in_bytes img inode
  pub size : length_in_bytes img inode < 2 ^ 31
  pub no_block : number_of_data_blocks img ≤ data_block img inode 0

-- A sound file one of whose first four bytes is not that of the ELF format.
pub record IsForeign (img : Image) (inode : ℕ) : Type 0 where
  pub file : IsFile img inode
  pub four : 4 ≤ length_in_bytes img inode
  pub differs :
      (file_byte img inode 0 ≢ 127)
      ⊎ ((file_byte img inode 1 ≢ 69)
          ⊎ ((file_byte img inode 2 ≢ 76) ⊎ (file_byte img inode 3 ≢ 70)))

module _ (img : Image) (inode : ℕ) where
  abbrev header : ℕ × Buffer
  header = read_data img inode 0 mag_num_buf 30

  broken_header : IsBroken img inode → (header.0 == failure) ≡ true
  broken_header b =
      let first : 0 / 4096 ≡ 0 = omega arith in
      ap (λ (r : ℕ × Buffer). r.0 == failure)
        (read_data_refuses img inode 0 mag_num_buf 30 b.some_byte b.size (omega arith) (omega arith)
          (subst (λ n. number_of_data_blocks img ≤ data_block img inode n) (sym first)
            b.no_block)).1

  foreign_byte : IsForeign img inode → (j : ℕ) → j < 4 → header.1 j ≡ file_byte img inode j
  unfolding filled
  foreign_byte f j h =
      ap (λ (r : ℕ × Buffer). r.1 j)
        (read_data_lem img inode 0 f.file mag_num_buf 30 (omega arith) (omega arith) (omega arith))
      ∙ ground (arith, f.four)

  foreign_header : IsForeign img inode → has_magic header.1 ≡ false
  unfolding has_magic
  foreign_header f =
      rw
        (
          foreign_byte f 0 (omega arith),
          foreign_byte f 1 (omega arith),
          foreign_byte f 2 (omega arith),
          foreign_byte f 3 (omega arith),
        )
        (ground (arith, f.differs))

-- sys_execute returns -1 and changes nothing but the command if the name is empty or longer than 32
-- characters, if none of the 63 entries bears it, if the file has from one to 2 ^ 31 - 1 bytes but its
-- first block is not one of the image's, if the file is sound and has at least four bytes but the
-- first four are not those of the ELF format, and if the file is executable but all six process slots
-- are taken.
pub sys_execute-refuses :
    (k : Kernel) (command : List ℕ) (ebp esp : ℕ)
    → (strlen command ≡ 0)
      ⊎ ((32 < strlen command)
          ⊎ (((m : ℕ) → m < 63 → name_of command ≢ name_of (entry_name k.image m))
              ⊎ ((i : ℕ) × Names k.image command i
                  × (IsBroken k.image (entry_inode k.image i)
                      ⊎ (IsForeign k.image (entry_inode k.image i)
                          ⊎ (IsExecutable k.image (entry_inode k.image i)
                              × ((j : ℕ) → j < 6 → k.processes_active j ≢ 0)))))))
    → ((sys_execute k command ebp esp).0 ≡ none) × ((sys_execute k command ebp esp).2 ≡ k)
unfolding sys_execute fill_dentry
sys_execute-refuses k command ebp esp (inl empty) =
    rw (read_dentry_by_name-fails k.image command local_dentry (inl empty)) (refl, refl)
sys_execute-refuses k command ebp esp (inr (inl long)) =
    rw (read_dentry_by_name-fails k.image command local_dentry (inr (inl long))) (refl, refl)
sys_execute-refuses k command ebp esp (inr (inr (inl others))) =
    rw (read_dentry_by_name-fails k.image command local_dentry (inr (inr others))) (refl, refl)
sys_execute-refuses k command ebp esp (inr (inr (inr (i, named, inl broken)))) =
    rw
      (
        read_dentry_by_name-first k.image command local_dentry i named.nonempty named.short
            named.entry named.same named.first,
        broken_header k.image (entry_inode k.image i) broken,
      )
      (refl, refl)
sys_execute-refuses k command ebp esp (inr (inr (inr (i, named, inr (inl foreign))))) =
    rw
      (
        read_dentry_by_name-first k.image command local_dentry i named.nonempty named.short
            named.entry named.same named.first,
        foreign_header k.image (entry_inode k.image i) foreign,
      )
      (if_intro (λ (r : Option ℕ × List ℕ × Kernel). (r.0 ≡ none) × (r.2 ≡ k))
        ((header k.image (entry_inode k.image i)).0 == failure) (λ _. (refl, refl))
        (λ _. (refl, refl)))
sys_execute-refuses k command ebp esp (inr (inr (inr (i, named, inr (inr (exe, used)))))) =
    let full = sys_execute-full k command ebp esp i named exe used in
    (
      ap (λ (r : Option ℕ × List ℕ × Kernel). r.0) full,
      ap (λ (r : Option ℕ × List ℕ × Kernel). r.2) full,
    )
