-- ===== src/Programs/Round.antt =====
-- One round of cat: the next piece of the file is read and written.
use illinix_os.Prelude.{
  ℕ, suc, ◌+◌, ◌-◌, ◌*◌, ◌≤◌, ◌<◌, min, ◌≡◌, ◌≢◌, ◌∙◌, refl, ap, sym, subst, some, arith, ◌==◌,
  if◌then◌else◌, if_intro, eq_false,
}
use illinix_os.Prelude.Word.{failure, lt-bad_fd}
use illinix_os.FileSys.Image.{length_in_bytes}
use illinix_os.FileSys.Data.{Buffer}
use illinix_os.FileSys.Data.Contents.{file_byte, filled}
use illinix_os.Terminal.{write_chars}
use illinix_os.Kernel.{Kernel, Descriptor, file, descriptor, set_descriptor}
use illinix_os.Kernel.Files.{file_read}
use illinix_os.Kernel.Files.Reads.{IsOpenFile, delivered, file_read_lem}
use illinix_os.Kernel.Syscalls.{read_into, returned, Arrivals, sys_read, sys_write, call_read}
use illinix_os.Programs.{Run, finished, after, after_read, cat_round, cat_loop}
use illinix_os.Programs.Output.{
  HasOutput, descriptor-set_descriptor, set_descriptor-HasOutput, sys_write-output,
}
use illinix_os.Programs.Printing.{write_chars-same, write_chars-append}

-- The descriptor that cat reads: open, of a regular file that is sound.
pub record IsSource (k : Kernel) (fd : ℕ) : Type 0 where
  pub from_two : 2 ≤ fd
  pub to_seven : fd < 8
  pub used : (descriptor k fd).flags ≢ 0
  pub reads : (descriptor k fd).ops.read_op ≡ file
  pub file : IsOpenFile k.image (descriptor k fd)

sys_read-file :
    (a : Arrivals) (k : Kernel) (fd : ℕ) (buf : Buffer) (nbytes : ℕ)
    → IsSource k fd
    → sys_read a k fd (some buf) nbytes ≡ returned (file_read k fd buf nbytes)
unfolding sys_read read_into call_read
sys_read-file a k fd buf nbytes v =
    let from_two = v.from_two in
    rw
      (
        eq_false {a = fd} {b = 1} (omega (arith, from_two)),
        lt-bad_fd fd v.to_seven,
        eq_false v.used,
        v.reads,
      )
      refl

-- How many bytes of the file are left.
abbrev pub left : Kernel → ℕ → ℕ
left k fd = length_in_bytes k.image (descriptor k fd).inode - (descriptor k fd).file_position

-- The bytes from the descriptor's position on.
abbrev pub ahead : Kernel → ℕ → Buffer
ahead k fd i = file_byte k.image (descriptor k fd).inode ((descriptor k fd).file_position + i)

next_room : (n l p : ℕ) → l + 1023 < 1024 * suc n → 0 < l → p ≡ min 1024 l → l - p + 1023 < 1024 * n
next_room n l p room more e = omega arith

module _ (k : Kernel) (fd : ℕ) (buf : Buffer) (source : IsSource k fd) (output : HasOutput k) where
  pub piece : ℕ
  piece = delivered k.image (descriptor k fd) 1024

  abbrev pub next_descriptor : Descriptor
  next_descriptor = record (descriptor k fd) {
    file_position = (descriptor k fd).file_position + delivered k.image (descriptor k fd) 1024;
  }

  abbrev pub read_state : Kernel
  read_state = set_descriptor k fd next_descriptor

  -- The buffer after the read.
  pub piece_buf : Buffer
  piece_buf =
      filled k.image (descriptor k fd).inode (descriptor k fd).file_position piece
        (descriptor k fd).file_position buf

  reads_piece :
      (a : Arrivals) → sys_read a k fd (some buf) 1024 ≡ returned (piece, piece_buf, read_state)
  unfolding piece piece_buf
  reads_piece a =
      let inside = source.file.inside in
      let size = source.file.file.size in
      sys_read-file a k fd buf 1024 source
      ∙ ap returned (file_read_lem k fd buf 1024 source.file (omega arith) (omega arith)).0

  piece_file : IsOpenFile k.image next_descriptor
  piece_file =
      let inside = source.file.inside in
      let size = source.file.file.size in
      (file_read_lem k fd buf 1024 source.file (omega arith) (omega arith)).1

  pub read_state-HasOutput : HasOutput read_state
  read_state-HasOutput = set_descriptor-HasOutput k fd next_descriptor source.from_two output

  at_fd : descriptor read_state fd ≡ next_descriptor
  at_fd = descriptor-set_descriptor k fd next_descriptor

  pub read_state-IsSource : IsSource read_state fd
  unfolding set_descriptor
  read_state-IsSource = record {
    from_two = source.from_two;
    to_seven = source.to_seven;
    used = λ e. source.used (ap (λ (q : Descriptor). q.flags) (sym at_fd) ∙ e);
    reads = ap (λ (q : Descriptor). q.ops.read_op) at_fd ∙ source.reads;
    file = subst (IsOpenFile k.image) (sym at_fd) piece_file;
  }

  -- The state after a piece has been written.
  abbrev pub written : Kernel
  written = record read_state {
    screen = write_chars piece 0 k.displayed_terminal k.scheduled_terminal piece_buf k.screen;
  }

  writes_piece : sys_write read_state 1 (some piece_buf) piece ≡ returned (piece, written)
  unfolding set_descriptor piece
  writes_piece = sys_write-output read_state piece_buf piece read_state-HasOutput (omega arith)

  pub cat_loop-round :
      (n : ℕ) (a : Arrivals)
      → 0 < left k fd
      → cat_loop (suc n) a fd buf k ≡ cat_loop n a fd piece_buf written
  unfolding cat_loop after_read cat_round after piece
  cat_loop-round n a more =
      let rest = λ (k' : Kernel). cat_loop n a fd piece_buf k' in
      let goal = cat_loop n a fd piece_buf written in
      ap (λ c. after_read c (λ buf' k'. cat_loop n a fd buf' k')) (reads_piece a)
      ∙ if_intro (λ (r : Run). r ≡ goal) (piece == 0) (λ t. absurd (ground arith))
          (λ _.
            if_intro (λ (r : Run). r ≡ goal) (piece == failure) (λ t. absurd (ground arith))
              (λ _.
                ap (λ c. after c (λ ret k'. if ret == failure then finished 3 k' else rest k'))
                  writes_piece
                ∙ if_intro (λ (r : Run). r ≡ goal) (piece == failure) (λ t. absurd (ground arith))
                    (λ _. refl)))

  pub cat_loop-end :
      (n : ℕ) (a : Arrivals) → left k fd ≡ 0 → cat_loop (suc n) a fd buf k ≡ finished 0 read_state
  unfolding cat_loop after_read piece
  cat_loop-end n a none_left =
      ap (λ c. after_read c (λ buf' k'. cat_loop n a fd buf' k')) (reads_piece a)
      ∙ if_intro (λ (r : Run). r ≡ finished 0 read_state) (piece == 0) (λ _. refl)
          (λ t. absurd (ground arith))

  piece_size : piece ≡ min 1024 (left k fd)
  unfolding piece
  piece_size = refl

  left_after : left written fd ≡ left k fd - piece
  unfolding piece set_descriptor
  left_after =
      let at = ap (λ (q : Descriptor). length_in_bytes k.image q.inode - q.file_position) at_fd in
      omega (arith, at)

  pub shorter :
      (n : ℕ) → left k fd + 1023 < 1024 * suc n → 0 < left k fd → left written fd + 1023 < 1024 * n
  shorter n room more =
      subst (λ x. x + 1023 < 1024 * n) (sym left_after)
        (next_room n (left k fd) piece room more piece_size)

  ahead_after : (i : ℕ) → ahead written fd i ≡ ahead k fd (piece + i)
  unfolding piece set_descriptor
  ahead_after i =
      let sum : next_descriptor.file_position + i
          ≡ (descriptor k fd).file_position + (delivered k.image (descriptor k fd) 1024 + i) =
        omega arith in
      let at : file_byte k.image (descriptor written fd).inode
            ((descriptor written fd).file_position + i)
          ≡ file_byte k.image next_descriptor.inode (next_descriptor.file_position + i) =
        ap (λ (q : Descriptor). file_byte k.image q.inode (q.file_position + i)) at_fd in
      at ∙ ap (file_byte k.image (descriptor k fd).inode) sum

  piece_is : (i : ℕ) → i < piece → piece_buf i ≡ ahead k fd i
  unfolding piece_buf filled
  piece_is i h = ground arith

  -- Writing the rest of the file after the piece is writing all of it.
  pub screen_after :
      write_chars
        (left written fd)
        0
        k.displayed_terminal
        k.scheduled_terminal
        (ahead written fd)
        written.screen
      ≡ write_chars (left k fd) 0 k.displayed_terminal k.scheduled_terminal (ahead k fd) k.screen
  unfolding piece
  screen_after =
      let d : ℕ = k.displayed_terminal in
      let t : ℕ = k.scheduled_terminal in
      let first : write_chars piece 0 d t piece_buf k.screen
          ≡ write_chars piece 0 d t (ahead k fd) k.screen =
        write_chars-same piece 0 0 d t piece_buf (ahead k fd) k.screen (λ i h.
          let at : 0 + i ≡ i = omega arith in
          ap piece_buf at ∙ (piece_is i h ∙ ap (ahead k fd) (sym at))) in
      let sum : piece + left written fd ≡ left k fd = omega (arith, left_after) in
      ap (write_chars (left written fd) 0 d t (ahead written fd)) first
      ∙ (write_chars-same (left written fd) 0 (0 + piece) d t (ahead written fd) (ahead k fd)
            (write_chars piece 0 d t (ahead k fd) k.screen)
            (λ i h.
              let at : 0 + i ≡ i = omega arith in
              let to : piece + i ≡ 0 + piece + i = omega arith in
              ap (ahead written fd) at ∙ (ahead_after i ∙ ap (ahead k fd) to))
          ∙ (sym (write_chars-append piece (left written fd) 0 d t (ahead k fd) k.screen)
              ∙ ap (λ n. write_chars n 0 d t (ahead k fd) k.screen) sum))
