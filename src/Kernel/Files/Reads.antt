-- ===== src/Kernel/Files/Reads.antt =====
-- Reading an open file through its descriptor.
use illinix_os.Prelude.{
  ℕ, ◌+◌, ◌-◌, ◌≤◌, ◌<◌, ◌^◌, min, ◌≡◌, refl, false, ◌||◌, arith, ◌==◌, eq_false,
}
use illinix_os.Prelude.Word.{failure, add32, slt}
use illinix_os.FileSys.Image.{Image, length_in_bytes}
use illinix_os.FileSys.Data.{Buffer}
use illinix_os.FileSys.Data.Contents.{IsFile, filled, read_data_lem}
use illinix_os.Kernel.{Kernel, Descriptor, descriptor, set_descriptor}
use illinix_os.Kernel.Files.{file_read}

-- How many bytes a read delivers.
abbrev pub delivered : Image → Descriptor → ℕ → ℕ
delivered img e nbytes = min nbytes (length_in_bytes img e.inode - e.file_position)

-- An open descriptor of a sound file, at a position inside the file or at its end.
pub record IsOpenFile (img : Image) (e : Descriptor) : Type 0 where
  pub inode : e.inode ≤ 64
  pub file : IsFile img e.inode
  pub inside : e.file_position ≤ length_in_bytes img e.inode

module _ (k : Kernel) (fd : ℕ) (buf : Buffer) (nbytes : ℕ)
    (open_file : IsOpenFile k.image (descriptor k fd)) where
  abbrev advanced : Descriptor
  advanced = record (descriptor k fd) {
    file_position = (descriptor k fd).file_position + delivered k.image (descriptor k fd) nbytes;
  }

  -- A read of at least one byte from an open descriptor of a sound file with an inode number of 64 at
  -- most, at a position that is inside the file or at its end and adds up with the byte count to less
  -- than 2 ^ 32, returns the number of bytes that it delivers (not the 0 of the code's
  -- comment): it delivers the bytes from the position on, as many as are left
  -- and asked for, and moves the position behind them, where it is still inside the file or at its
  -- end.
  pub file_read_lem :
      0 < nbytes
      → (descriptor k fd).file_position + nbytes < 2 ^ 32
      → (file_read k fd buf nbytes ≡ (
        delivered k.image (descriptor k fd) nbytes,
        filled k.image
            (descriptor k fd).inode
            (descriptor k fd).file_position
            (delivered k.image (descriptor k fd) nbytes)
            (descriptor k fd).file_position
            buf,
        set_descriptor k fd advanced,
      ))
        × IsOpenFile k.image advanced
  unfolding file_read
  file_read_lem pos small = (
    rw
        (
          read_data_lem k.image (descriptor k fd).inode (descriptor k fd).file_position
              open_file.file buf nbytes open_file.inside pos small,
          valid,
          eq_false {a = nbytes} {b = 0} (omega arith),
          not_failure,
          sum,
        )
        refl,
    record {
      inode = open_file.inode;
      file = open_file.file;
      inside = ground (arith, open_file.inside);
    },
  )
    where
      valid : (slt (descriptor k fd).inode 0 || slt 64 (descriptor k fd).inode) ≡ false
      valid = ground (arith, open_file.inode)

      not_failure : (delivered k.image (descriptor k fd) nbytes == failure) ≡ false
      not_failure = ground (arith, open_file.file.size)

      sum :
          add32 (descriptor k fd).file_position (delivered k.image (descriptor k fd) nbytes)
          ≡ (descriptor k fd).file_position + delivered k.image (descriptor k fd) nbytes
      sum = omega arith
