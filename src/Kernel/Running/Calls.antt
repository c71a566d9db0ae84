-- ===== src/Kernel/Running/Calls.antt =====
-- The descriptor calls leave the processes and terminals as they are.
use illinix_os.Prelude.{
  ℕ, ◌≡◌, refl, Bool, true, false, ◌||◌, Option, none, some, List, ltb, ◌==◌, if_intro,
  Option-cases, inl, inr, if◌then◌else◌,
}
use illinix_os.Prelude.Word.{failure, slt, bad_fd}
use illinix_os.FileSys.Dentry.{strlen, read_dentry_by_name, read_dentry_by_index}
use illinix_os.FileSys.Data.{Buffer, read_data}
use illinix_os.Rtc.{rtc_read, rtc_write}
use illinix_os.Terminal.{t_read}
use illinix_os.Kernel.{
  Driver, null, terminal, rtc, directory, file, Descriptor, Kernel, descriptor, set_descriptor,
}
use illinix_os.Kernel.Files.{local_dentry, file_read, directory_read}
use illinix_os.Kernel.Syscalls.{
  read_into, Call, returned, waiting, fault, closed, Arrivals, find_free, driver_of, call_open,
  open_at, sys_open, call_close, sys_close, read_rtc, read_line, call_read, sys_read, write_rtc,
  call_write, sys_write, first_word,
}
use illinix_os.Kernel.Running.Same.{Keeps, set_descriptor-Keeps, same_processes, Keeps-refl}

module _ (k : Kernel) where
  abbrev KeepsOpen : ℕ × Kernel → Type 0
  KeepsOpen r = Keeps k r.1

  -- The clock's ports are written before the descriptor is.
  logged-Keeps :
      (log : List (ℕ × ℕ)) (fd : ℕ) (e : Descriptor)
      → Keeps k (set_descriptor (record k { port_log = log }) fd e)
  logged-Keeps log fd e =
      let s = set_descriptor-Keeps (record k { port_log = log }) fd e in
      record {
        shell_count = s.shell_count;
        scheduled = s.scheduled;
        active = s.active;
        count = s.count;
        runs = s.runs;
        page = s.page;
        stack = s.stack;
        has_parent = s.has_parent;
        terminals = s.terminals;
        others = s.others;
        own_pid = s.own_pid;
        own_parent = s.own_parent;
      }

  opened-Keeps :
      (clock : Bool) (log : List (ℕ × ℕ)) (fd : ℕ) (e : Descriptor)
      → Keeps k (set_descriptor (if clock then record k { port_log = log } else k) fd e)
  opened-Keeps true log fd e = logged-Keeps log fd e
  opened-Keeps false log fd e = set_descriptor-Keeps k fd e

  open_at-Keeps : (filename : List ℕ) (fd : ℕ) → KeepsOpen (open_at k filename fd)
  unfolding open_at
  open_at-Keeps filename fd =
      let (retval, found) = read_dentry_by_name k.image filename local_dentry in
      if_intro KeepsOpen (retval == failure) (λ _. set_descriptor-Keeps k fd _)
        (λ _.
          if_intro KeepsOpen (call_open (driver_of found.file_type) k filename == failure)
            (λ _. set_descriptor-Keeps k fd _) (λ _. opened-Keeps (found.file_type == 0) _ fd _))

  pub sys_open-Keeps : (filename : List ℕ) → Keeps k (sys_open k filename).1
  unfolding sys_open
  sys_open-Keeps filename =
      if_intro KeepsOpen (ltb 32 (strlen filename)) (λ _. Keeps-refl k)
        (λ _.
          if_intro KeepsOpen (strlen filename == 0) (λ _. Keeps-refl k)
            (λ _. elim (Option-cases (find_free (k.pcbs k.current_process_idx).fd_entry 6 2)) [
              | inl e ↦ rw (e, sys_open) (Keeps-refl k)
              | inr (fd, e) ↦ rw (e, sys_open) (open_at-Keeps filename fd)
            ]))

  -- If the call returns.
  abbrev pub KeepsCall : Call (ℕ × Kernel) → Type 0
  KeepsCall (returned (ret, k')) = Keeps k k'
  KeepsCall waiting = Unit {0}
  KeepsCall fault = Unit {0}

  pub sys_close-Keeps : (fd : ℕ) → KeepsCall (sys_close k fd)
  unfolding sys_close
  sys_close-Keeps fd =
      if_intro KeepsCall (fd == 0 || fd == 1) (λ _. Keeps-refl k)
        (λ _.
          if_intro KeepsCall (bad_fd fd) (λ _. Keeps-refl k)
            (λ _.
              if_intro KeepsCall ((descriptor k fd).flags == 0) (λ _. Keeps-refl k)
                (λ _. elim (Option-cases (call_close (descriptor k fd).ops.close_op fd)) [
                  | inl e ↦ rw (e, sys_close) tt
                  | inr (ret, e) ↦
                      rw (e, sys_close)
                        (if_intro KeepsCall (ret == failure) (λ _. Keeps-refl k)
                          (λ _. set_descriptor-Keeps k fd closed))
                ])))

  abbrev pub KeepsData : Call (ℕ × Buffer × Kernel) → Type 0
  KeepsData (returned (ret, buf, k')) = Keeps k k'
  KeepsData waiting = Unit {0}
  KeepsData fault = Unit {0}

  abbrev KeepsRead : ℕ × Buffer × Kernel → Type 0
  KeepsRead r = Keeps k r.2

  file_read-Keeps : (fd : ℕ) (buf : Buffer) (nbytes : ℕ) → KeepsRead (file_read k fd buf nbytes)
  unfolding file_read
  file_read-Keeps fd buf nbytes =
      let e = descriptor k fd in
      if_intro KeepsRead (slt e.inode 0 || slt 64 e.inode) (λ _. Keeps-refl k)
        (λ _.
          if_intro KeepsRead (nbytes == 0) (λ _. Keeps-refl k)
            (λ _.
              if_intro KeepsRead
                ((read_data k.image e.inode e.file_position buf nbytes).0 == failure)
                (λ _. Keeps-refl k) (λ _. set_descriptor-Keeps k fd _)))

  directory_read-Keeps :
      (fd : ℕ) (buf : Buffer) (nbytes : ℕ) → KeepsRead (directory_read k fd buf nbytes)
  unfolding directory_read
  directory_read-Keeps fd buf nbytes =
      if_intro KeepsRead
        ((read_dentry_by_index k.image (descriptor k fd).file_position local_dentry).0 == failure)
        (λ _. Keeps-refl k) (λ _. set_descriptor-Keeps k fd _)

  read_rtc-Keeps : (a : Arrivals) (buf : Buffer) → KeepsData (read_rtc a k buf)
  unfolding read_rtc
  read_rtc-Keeps a buf = elim (Option-cases (rtc_read a.ticks k.scheduled_terminal k.rtc)) [
    | inl e ↦ rw (e, read_rtc) tt
    | inr ((ret, r), e) ↦
        rw (e, read_rtc)
          (same_processes k _ refl refl refl refl refl refl refl refl (λ t. refl) refl)
  ]

  read_line-Keeps :
      (a : Arrivals) (buf : Buffer) (nbytes : ℕ) → KeepsData (read_line a k buf nbytes)
  unfolding read_line
  read_line-Keeps a buf nbytes = elim (Option-cases (t_read a.lines nbytes buf k.get_args_buf)) [
    | inl e ↦ rw (e, read_line) tt
    | inr (r, e) ↦
        rw (e, read_line)
          (same_processes k _ refl refl refl refl refl refl refl refl (λ t. refl) refl)
  ]

  call_read-Keeps :
      (d : Driver) (a : Arrivals) (fd : ℕ) (buf : Buffer) (nbytes : ℕ)
      → KeepsData (call_read d a k fd buf nbytes)
  unfolding call_read
  call_read-Keeps null a fd buf nbytes = tt
  call_read-Keeps terminal a fd buf nbytes = read_line-Keeps a buf nbytes
  call_read-Keeps rtc a fd buf nbytes = read_rtc-Keeps a buf
  call_read-Keeps directory a fd buf nbytes = directory_read-Keeps fd buf nbytes
  call_read-Keeps file a fd buf nbytes = file_read-Keeps fd buf nbytes

  pub sys_read-Keeps :
      (a : Arrivals) (fd : ℕ) (buf : Buffer) (nbytes : ℕ)
      → KeepsData (sys_read a k fd (some buf) nbytes)
  unfolding sys_read read_into
  sys_read-Keeps a fd buf nbytes =
      if_intro KeepsData (fd == 1) (λ _. Keeps-refl k)
        (λ _.
          if_intro KeepsData (bad_fd fd) (λ _. Keeps-refl k)
            (λ _.
              if_intro KeepsData ((descriptor k fd).flags == 0) (λ _. Keeps-refl k)
                (λ _. call_read-Keeps (descriptor k fd).ops.read_op a fd buf nbytes)))

  -- A write leaves the blocks alone as well.
  abbrev pub KeepsWrite : Call (ℕ × Kernel) → Type 0
  KeepsWrite (returned (ret, k')) = Keeps k k' × (k'.pcbs ≡ k.pcbs)
  KeepsWrite waiting = Unit {0}
  KeepsWrite fault = Unit {0}

  unwritten : Keeps k k × (k.pcbs ≡ k.pcbs)
  unwritten = (Keeps-refl k, refl)

  call_write-Keeps :
      (d : Driver) (buf : Option Buffer) (nbytes : ℕ) → KeepsWrite (call_write d k buf nbytes)
  unfolding call_write write_rtc
  call_write-Keeps null buf nbytes = tt
  call_write-Keeps terminal buf nbytes =
      (same_processes k _ refl refl refl refl refl refl refl refl (λ t. refl) refl, refl)
  call_write-Keeps rtc none nbytes = if_intro KeepsWrite (nbytes == 4) (λ _. tt) (λ _. unwritten)
  call_write-Keeps rtc (some buf) nbytes =
      elim (Option-cases (rtc_write k.scheduled_terminal (first_word buf) nbytes k.rtc)) [
        | inl e ↦ rw (e, write_rtc) tt
        | inr ((ret, r), e) ↦
            rw (e, write_rtc)
              (same_processes k _ refl refl refl refl refl refl refl refl (λ t. refl) refl, refl)
      ]
  call_write-Keeps directory buf nbytes = unwritten
  call_write-Keeps file buf nbytes = unwritten

  pub sys_write-Keeps :
      (fd : ℕ) (buf : Option Buffer) (nbytes : ℕ) → KeepsWrite (sys_write k fd buf nbytes)
  unfolding sys_write
  sys_write-Keeps fd buf nbytes =
      if_intro KeepsWrite (bad_fd fd) (λ _. unwritten)
        (λ _.
          if_intro KeepsWrite (fd == 0) (λ _. unwritten)
            (λ _.
              if_intro KeepsWrite ((descriptor k fd).flags == 0) (λ _. unwritten)
                (λ _. call_write-Keeps (descriptor k fd).ops.write_op buf nbytes)))
