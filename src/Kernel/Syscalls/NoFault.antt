-- ===== src/Kernel/Syscalls/NoFault.antt =====
-- sys_read with a sound descriptor table.
use illinix_os.Prelude.{
  Bool, true, none, some, List, [], ◌∷◌, if◌then◌else◌, ℕ, ◌≤◌, ◌<◌, ◌^◌, ◌≡◌, inl, inr, false,
  ◌||◌, arith, ◌==◌, Option-cases, ℕ_discrete, if_intro,
}
use illinix_os.Prelude.Word.{failure, slt, bad_fd, bad_fd-lt}
use illinix_os.Rtc.{rtc_read}
use illinix_os.Terminal.{pass_rounds, t_read}
use illinix_os.FileSys.Data.{Buffer, read_data}
use illinix_os.FileSys.Dentry.{read_dentry_by_index}
use illinix_os.Kernel.{
  Driver, null, terminal, rtc, directory, file, Descriptor, Kernel, current, descriptor,
  set_descriptor,
}
use illinix_os.Kernel.Files.{local_dentry, file_read, directory_read}
use illinix_os.Kernel.Syscalls.{
  read_into, null_line, read_null, stores_byte, no_buffer, Call, returned, waiting, fault, Arrivals,
  read_rtc, read_line, call_read, sys_read,
}
use illinix_os.Kernel.Syscalls.Table.{IsFileDriver, IsSound, IsTable, set_descriptor-IsTable}

-- The table of the state that a read leaves, if it returns; a read that waits has changed no table.
abbrev pub ReadAfter : Call (ℕ × Buffer × Kernel) → Type 0
ReadAfter (returned (ret, buf, k)) = IsTable (current k).fd_entry
ReadAfter waiting = Unit {0}
ReadAfter fault = ⊥

read_rtc-IsTable :
    (a : Arrivals) (k : Kernel) (buf : Buffer)
    → IsTable (current k).fd_entry
    → ReadAfter (read_rtc a k buf)
unfolding read_rtc
read_rtc-IsTable a k buf v = elim (Option-cases (rtc_read a.ticks k.scheduled_terminal k.rtc)) [
  | inl e ↦ rw (e, read_rtc) tt
  | inr ((ret, r), e) ↦ rw (e, read_rtc) v
]

read_line-IsTable :
    (a : Arrivals) (k : Kernel) (buf : Buffer) (nbytes : ℕ)
    → IsTable (current k).fd_entry
    → ReadAfter (read_line a k buf nbytes)
unfolding read_line
read_line-IsTable a k buf nbytes v =
    elim (Option-cases (t_read a.lines nbytes buf k.get_args_buf)) [
      | inl e ↦ rw (e, read_line) tt
      | inr (r, e) ↦ rw (e, read_line) v
    ]

KeepsTable : ℕ × Buffer × Kernel → Type 0
KeepsTable r = IsTable (current r.2).fd_entry

keeps :
    (ret : ℕ) (buf : Buffer) (k : Kernel) → IsTable (current k).fd_entry → KeepsTable (ret, buf, k)
unfolding KeepsTable
keeps ret buf k v = v

kept : (r : ℕ × Buffer × Kernel) → KeepsTable r → IsTable (current r.2).fd_entry
unfolding KeepsTable
kept r v = v

-- A descriptor that only moves its position stays sound.
moved-IsSound : (e : Descriptor) (p : ℕ) → IsSound e → IsSound (record e { file_position = p })
moved-IsSound e p (inl free) = inl free
moved-IsSound e p (inr s) = inr s

module _ (k : Kernel) (fd : ℕ) (v : IsTable (current k).fd_entry) (from_two : 2 ≤ fd)
    (sound : IsSound (descriptor k fd)) where
  moved_keeps :
      (ret : ℕ) (buf : Buffer) (p : ℕ)
      → KeepsTable (ret, buf, set_descriptor k fd (record (descriptor k fd) { file_position = p }))
  moved_keeps ret buf p =
      keeps ret buf _
        (set_descriptor-IsTable k fd _ v from_two (moved-IsSound (descriptor k fd) p sound))

  file_read-IsTable :
      (buf : Buffer) (nbytes : ℕ) → IsTable (current (file_read k fd buf nbytes).2).fd_entry
  unfolding file_read
  file_read-IsTable buf nbytes =
      let e = descriptor k fd in
      kept (file_read k fd buf nbytes) (
        if_intro KeepsTable (slt e.inode 0 || slt 64 e.inode) (λ _. keeps _ _ k v)
          λ _.
            if_intro KeepsTable (nbytes == 0) (λ _. keeps _ _ k v)
              λ _.
                if_intro KeepsTable
                  ((read_data k.image e.inode e.file_position buf nbytes).0 == failure)
                  (λ _. keeps _ _ k v) λ _. moved_keeps _ _ _)

  directory_read-IsTable :
      (buf : Buffer) (nbytes : ℕ) → IsTable (current (directory_read k fd buf nbytes).2).fd_entry
  unfolding directory_read
  directory_read-IsTable buf nbytes =
      let found = read_dentry_by_index k.image (descriptor k fd).file_position local_dentry in
      kept (directory_read k fd buf nbytes)
        (if_intro KeepsTable (found.0 == failure) (λ _. keeps _ _ k v) λ _. moved_keeps _ _ _)

  call_read-IsTable :
      (d : Driver) (a : Arrivals) (buf : Buffer) (nbytes : ℕ)
      → IsFileDriver d
      → ReadAfter (call_read d a k fd buf nbytes)
  unfolding call_read
  call_read-IsTable rtc a buf nbytes h = read_rtc-IsTable a k buf v
  call_read-IsTable directory a buf nbytes h = directory_read-IsTable buf nbytes
  call_read-IsTable file a buf nbytes h = file_read-IsTable buf nbytes
  call_read-IsTable null a buf nbytes h = ground arith
  call_read-IsTable terminal a buf nbytes h = read_line-IsTable a k buf nbytes v

-- The driver of an open descriptor from 2 to 7.
read_sound :
    (k : Kernel) (fd : ℕ) (a : Arrivals) (buf : Buffer) (nbytes : ℕ)
    → IsTable (current k).fd_entry
    → 2 ≤ fd
    → IsSound (descriptor k fd)
    → ((descriptor k fd).flags == 0) ≡ false
    → ReadAfter (call_read (descriptor k fd).ops.read_op a k fd buf nbytes)
read_sound k fd a buf nbytes v h (inl free) used = absurd (ground arith)
read_sound k fd a buf nbytes v h (inr (d, is, ops)) used =
    rw ops (call_read-IsTable k fd v h (inr (d, is, ops)) d a buf nbytes is)

read_stdin :
    (k : Kernel) (fd : ℕ) (a : Arrivals) (buf : Buffer) (nbytes : ℕ)
    → IsTable (current k).fd_entry
    → fd ≡ 0
    → ReadAfter (call_read (descriptor k fd).ops.read_op a k fd buf nbytes)
unfolding call_read
read_stdin k fd a buf nbytes v e = rw (e, v.stdin) (read_line-IsTable a k buf nbytes v)

-- With a sound table sys_read into a buffer never faults, whatever the word that it is given as a
-- descriptor: it returns, or waits for the clock or the keyboard; and it keeps the table sound.
pub sys_read-IsTable :
    (a : Arrivals) (k : Kernel) (fd : ℕ) (buf : Buffer) (nbytes : ℕ)
    → fd < 2 ^ 32
    → IsTable (current k).fd_entry
    → ReadAfter (sys_read a k fd (some buf) nbytes)
unfolding sys_read read_into
sys_read-IsTable a k fd buf nbytes w v =
    if_intro ReadAfter (fd == 1) (λ _. v)
      λ not_out.
        if_intro ReadAfter (bad_fd fd) (λ _. v)
          λ good.
            if_intro ReadAfter ((descriptor k fd).flags == 0) (λ _. v)
              λ used. elim (ℕ_discrete fd 0) [
                | yes stdin ↦ read_stdin k fd a buf nbytes v stdin
                | no other ↦
                    let from_two : 2 ≤ fd = ground arith in
                    read_sound k fd a buf nbytes v from_two
                      (v.files fd from_two (bad_fd-lt fd w good)) used
              ]

-- A call with a null pointer that returns does what the same call does with a buffer.
module _ (r : ℕ × Buffer × Kernel) where
  abbrev Returns : Call (ℕ × Buffer × Kernel) → Type 0
  Returns c = c ≡ returned r

  no_line : (lines : List (Buffer × ℕ)) (nbytes : ℕ) → Returns (null_line lines nbytes) → ⊥
  unfolding null_line
  no_line [] nbytes e = cc
  no_line (line ∷ later) nbytes e =
      if_intro (λ c. Returns c → ⊥) (pass_rounds nbytes == 0) (λ _ f. cc) (λ _ f. cc) e

  read_null-call_read :
      (d : Driver) (a : Arrivals) (k : Kernel) (fd nbytes : ℕ)
      → Returns (read_null d a k fd nbytes)
      → Returns (call_read d a k fd no_buffer nbytes)
  unfolding read_null call_read
  read_null-call_read null a k fd nbytes e = absurd (cc)
  read_null-call_read terminal a k fd nbytes e = absurd (no_line a.lines nbytes e)
  read_null-call_read rtc a k fd nbytes e = e
  read_null-call_read directory a k fd nbytes e =
      let d = directory_read k fd no_buffer nbytes in
      if_intro (λ c. Returns c → Returns (returned d)) (d.0 == failure || d.0 == 0) (λ _ f. f)
        (λ _ f. absurd (cc)) e
  read_null-call_read file a k fd nbytes e =
      if_intro (λ c. Returns c → Returns (returned (file_read k fd no_buffer nbytes)))
        (stores_byte k fd nbytes) (λ _ f. absurd (cc)) (λ _ f. f) e

  same_guard :
      (b : Bool) (x y z : Call (ℕ × Buffer × Kernel))
      → (Returns y → Returns z)
      → Returns (if b then x else y)
      → Returns (if b then x else z)
  same_guard true x y z f e = e
  same_guard false x y z f e = f e

  pub sys_read-null :
      (a : Arrivals) (k : Kernel) (fd nbytes : ℕ)
      → Returns (sys_read a k fd none nbytes)
      → Returns (sys_read a k fd (some no_buffer) nbytes)
  unfolding sys_read read_into
  sys_read-null a k fd nbytes e =
      same_guard (fd == 1) _ _ _
        (same_guard (bad_fd fd) _ _ _ (
          same_guard ((descriptor k fd).flags == 0) _ _ _
            (read_null-call_read (descriptor k fd).ops.read_op a k fd nbytes)))
        e
