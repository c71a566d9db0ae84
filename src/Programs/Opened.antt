-- ===== src/Programs/Opened.antt =====
-- cat on a file that it opens by its name.
use illinix_os.Prelude.{
  ℕ, ◌+◌, ◌-◌, ◌*◌, ◌≤◌, ◌<◌, ◌≡◌, ◌∙◌, refl, ap, ap₂, sym, subst, arith, ◌==◌, if◌then◌else◌,
  if_intro,
}
use illinix_os.Prelude.Text.{bytes_of}
use illinix_os.Prelude.Word.{failure}
use illinix_os.FileSys.Image.{entry_type, entry_inode, length_in_bytes}
use illinix_os.FileSys.Data.{Buffer}
use illinix_os.FileSys.Data.Contents.{IsFile, file_byte}
use illinix_os.Strings.{array_bytes}
use illinix_os.Terminal.{write_chars}
use illinix_os.Kernel.{Kernel, Descriptor, descriptor, set_descriptor}
use illinix_os.Kernel.Syscalls.{Arrivals, driver_of}
use illinix_os.Kernel.Syscalls.Open.{Names, LowestFree, opened_as}
use illinix_os.Kernel.Syscalls.OpenClose.{sys_open-eq}
use illinix_os.Programs.{Run, finished, complain, cat_loop, cat_file}
use illinix_os.Programs.Output.{HasOutput, descriptor-set_descriptor, set_descriptor-HasOutput}
use illinix_os.Programs.Round.{IsSource, left, ahead}
use illinix_os.Programs.Printing.{write_chars-same}
use illinix_os.Programs.Copies.{cat_loop-writes}

module _ (k : Kernel) (i fd : ℕ) (low : 2 ≤ fd) (type : entry_type k.image i ≡ 2) where
  abbrev opened : Kernel
  opened = set_descriptor k fd (opened_as k.image i)

  at_fd : descriptor opened fd ≡ opened_as k.image i
  at_fd = descriptor-set_descriptor k fd (opened_as k.image i)

  inode : (descriptor opened fd).inode ≡ entry_inode k.image i
  unfolding opened_as
  inode =
      ap (λ (q : Descriptor). q.inode) at_fd
      ∙ ap (λ t. if t == 2 then entry_inode k.image i else 0) type

  position : (descriptor opened fd).file_position ≡ 0
  unfolding opened_as
  position = ap (λ (q : Descriptor). q.file_position) at_fd

  opened-IsSource :
      fd < 8
      → entry_inode k.image i ≤ 64
      → IsFile k.image (entry_inode k.image i)
      → IsSource opened fd
  unfolding opened_as set_descriptor
  opened-IsSource high known sound = record {
    from_two = low;
    to_seven = high;
    used = λ e. absurd (omega (arith, ap (λ (q : Descriptor). q.flags) at_fd, e));
    reads = ap (λ (q : Descriptor). q.ops.read_op) at_fd ∙ ap driver_of type;
    file = record {
      inode = omega (arith, inode, known);
      file = subst (IsFile k.image) (sym inode) sound;
      inside = omega (arith, position);
    };
  }

  left-opened : left opened fd ≡ length_in_bytes k.image (entry_inode k.image i)
  unfolding set_descriptor
  left-opened = ap₂ (λ n p. length_in_bytes k.image n - p) inode position ∙ omega arith

  ahead-opened : (j : ℕ) → ahead opened fd j ≡ file_byte k.image (entry_inode k.image i) j
  unfolding set_descriptor
  ahead-opened j =
      let sum : 0 + j ≡ j = omega arith in
      ap₂ (λ n p. file_byte k.image n (p + j)) inode position
      ∙ ap (file_byte k.image (entry_inode k.image i)) sum

-- cat, with the name of a regular file as its argument in the buffer, with a free descriptor and
-- standard output open, ends with the value 0, and has written to the terminal the whole file, byte by
-- byte, whatever its length. The name is the first such entry of the directory, and its inode is one of
-- the first 65 and sound. The loop needs a round for each block of 1024 bytes, and one more.
pub cat_file-writes :
    (n : ℕ) (a : Arrivals) (i fd : ℕ) (buf : Buffer) (k : Kernel)
    → Names k.image (array_bytes 1024 0 buf) i
    → LowestFree k fd
    → entry_type k.image i ≡ 2
    → entry_inode k.image i ≤ 64
    → IsFile k.image (entry_inode k.image i)
    → HasOutput k
    → length_in_bytes k.image (entry_inode k.image i) + 1023 < 1024 * n
    → (k' : Kernel) × (cat_file n a buf k ≡ finished 0 k')
      × (k'.screen
          ≡ write_chars
              (length_in_bytes k.image (entry_inode k.image i))
              0
              k.displayed_terminal
              k.scheduled_terminal
              (file_byte k.image (entry_inode k.image i))
              k.screen)
unfolding cat_file set_descriptor
cat_file-writes n a i fd buf k named free type known sound o room =
    let is_low = free.low in
    let is_high = free.high in
    let d : ℕ = k.displayed_terminal in
    let t : ℕ = k.scheduled_terminal in
    let k1 : Kernel = set_descriptor k fd (opened_as k.image i) in
    let inode_number : ℕ = entry_inode k.image i in
    let size : left k1 fd ≡ length_in_bytes k.image inode_number = left-opened k i fd is_low type in
    let opens =
      sys_open-eq k (array_bytes 1024 0 buf) i fd named free (omega (arith, type))
        (λ e. absurd (omega (arith, type, e))) in
    let (k', ends, screen) =
      cat_loop-writes n a fd buf k1 (opened-IsSource k i fd is_low type is_high known sound)
        (set_descriptor-HasOutput k fd _ is_low o) (omega (arith, size, room)) in
    (
      k',
      ap
            (λ (r : ℕ × Kernel).
              if r.0 == failure
              then complain (bytes_of "file not found\n") 2 r.1
              else cat_loop n a r.0 buf r.1)
            opens
          ∙ (if_intro (λ (r : Run). r ≡ cat_loop n a fd buf k1) (fd == failure)
                (λ t. absurd (ground arith)) (λ _. refl)
              ∙ ends),
      screen
          ∙ (ap (λ c. write_chars c 0 d t (ahead k1 fd) k.screen) size
              ∙ write_chars-same (length_in_bytes k.image inode_number) 0 0 d t (ahead k1 fd)
                  (file_byte k.image inode_number) k.screen
                  (λ j h. ahead-opened k i fd is_low type (0 + j))),
    )
