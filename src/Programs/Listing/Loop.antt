-- ===== src/Programs/Listing/Loop.antt =====
-- ls writes the names of the directory.
use illinix_os.Prelude.{
  ℕ, zero, suc, ◌+◌, ◌≤◌, ◌<◌, ◌≡◌, ◌≢◌, ◌∙◌, refl, ap, sym, subst, some, List, [], ◌∷◌, ◌++◌,
  length, length-append, arith, ◌==◌, if◌then◌else◌, if_intro, update, eq_false,
}
use illinix_os.Prelude.Word.{failure, add32, lt-bad_fd}
use illinix_os.FileSys.Image.{Image, entry_name}
use illinix_os.FileSys.Data.{Buffer}
use illinix_os.FileSys.Dentry.{char_at}
use illinix_os.FileSys.Dentry.Names.{name_of}
use illinix_os.Terminal.{write_chars}
use illinix_os.Kernel.{Kernel, Descriptor, directory, descriptor, set_descriptor}
use illinix_os.Kernel.Files.{directory_read}
use illinix_os.Kernel.Syscalls.{read_into, returned, Arrivals, sys_read, sys_write, call_read}
use illinix_os.Programs.{Run, finished, after}
use illinix_os.Programs.Output.{
  HasOutput, sys_write-output, with_screen-HasOutput, descriptor-set_descriptor,
  set_descriptor-HasOutput,
}
use illinix_os.Programs.Printing.{
  write_chars-same, char_at-left, char_at-right, write_text, write_text-append,
}
use illinix_os.Programs.Listing.{ls_round, after_entry, ls_loop}
use illinix_os.Programs.Listing.Entry.{
  next_entry, length-name_of, entry_buf, directory_read-entry, entry_buf-name,
}

-- The descriptor that ls reads: open, of the directory, at entry `p`.
pub record IsListing (k : Kernel) (fd p : ℕ) : Type 0 where
  pub from_two : 2 ≤ fd
  pub to_seven : fd < 8
  pub used : (descriptor k fd).flags ≢ 0
  pub reads : (descriptor k fd).ops.read_op ≡ directory
  pub position : (descriptor k fd).file_position ≡ p

abbrev pub entry_text : Image → ℕ → List ℕ
entry_text img p = name_of (entry_name img p)

-- The names of `n` entries from entry `p` on, each on a line.
unfoldable pub listing : Image → ℕ → ℕ → List ℕ
listing img zero p = []
listing img (suc n) p = (entry_text img p ++ 10 ∷ []) ++ listing img n (suc p)

sys_read-directory :
    (a : Arrivals) (k : Kernel) (fd p : ℕ) (buf : Buffer)
    → IsListing k fd p
    → sys_read a k fd (some buf) 32 ≡ returned (directory_read k fd buf 32)
unfolding sys_read read_into call_read
sys_read-directory a k fd p buf v =
    let from_two = v.from_two in
    rw
      (
        eq_false {a = fd} {b = 1} (omega (arith, from_two)),
        lt-bad_fd fd v.to_seven,
        eq_false v.used,
        v.reads,
      )
      refl

module _ (k : Kernel) (fd p : ℕ) (buf : Buffer) (v : IsListing k fd p) (low : p < 63) where
  inside : (descriptor k fd).file_position < 63
  inside = let position = v.position in omega (arith, position)

  abbrev name : List ℕ
  name = entry_text k.image p

  abbrev after_name : Buffer
  after_name = entry_buf k fd buf inside

  abbrev line : Buffer
  line = update (entry_buf k fd buf inside) (length (entry_text k.image p)) 10

  reads_entry :
      (a : Arrivals)
      → sys_read a k fd (some buf) 32 ≡ returned (length name, after_name, next_entry k fd)
  reads_entry a =
      sys_read-directory a k fd p buf v
      ∙ ap returned (
          directory_read-entry k fd buf inside
          ∙ ap (λ q. (length (entry_text k.image q), after_name, next_entry k fd)) v.position)

  pub next_entry-HasOutput : HasOutput k → HasOutput (next_entry k fd)
  next_entry-HasOutput o = set_descriptor-HasOutput k fd _ v.from_two o

  entry_name_at : (j : ℕ) → j < length name → after_name j ≡ char_at name j
  entry_name_at j h =
      subst
        (λ q. j < length (entry_text k.image q) → after_name j ≡ char_at (entry_text k.image q) j)
        v.position (entry_buf-name k fd buf inside j) h

  line_text : (j : ℕ) → j < suc (length name) → line j ≡ char_at (name ++ 10 ∷ []) j
  unfolding update
  line_text j h =
      if_intro (λ (c : ℕ). c ≡ char_at (name ++ 10 ∷ []) j) (j == length name)
        (λ t.
          let at : j ≡ length name + 0 = ground arith in
          sym (ap (char_at (name ++ 10 ∷ [])) at ∙ char_at-right name (10 ∷ []) 0))
        (λ t.
          let early : j < length name = ground arith in
          entry_name_at j early ∙ sym (char_at-left name (10 ∷ []) j early))

  -- The state after the line has been written.
  abbrev pub written : Kernel
  written = record (next_entry k fd) {
    screen =
        write_text k.displayed_terminal k.scheduled_terminal (entry_text k.image p ++ 10 ∷ [])
          k.screen;
  }

  writes_line :
      HasOutput k
      → sys_write (next_entry k fd) 1 (some line) (suc (length name))
        ≡ returned (suc (length name), written)
  unfolding set_descriptor write_text
  writes_line o =
      let d : ℕ = k.displayed_terminal in
      let t : ℕ = k.scheduled_terminal in
      let short : length name ≤ 32 = length-name_of (entry_name k.image p) in
      let count : length (name ++ 10 ∷ []) ≡ suc (length name) =
        length-append name (10 ∷ []) ∙ omega arith in
      let same : write_chars (suc (length name)) 0 d t line k.screen
          ≡ write_chars (length (name ++ 10 ∷ [])) 0 d t (char_at (name ++ 10 ∷ [])) k.screen =
        write_chars-same (suc (length name)) 0 0 d t line (char_at (name ++ 10 ∷ [])) k.screen
          (λ j h. line_text (0 + j) (omega (arith, h)))
        ∙ ap (λ n. write_chars n 0 d t (char_at (name ++ 10 ∷ [])) k.screen) (sym count) in
      sys_write-output (next_entry k fd) line (suc (length name)) (next_entry-HasOutput o)
        (omega (arith, short))
      ∙ ap (λ s. returned (suc (length name), record (next_entry k fd) { screen = s })) same

  ls_loop-round :
      (n : ℕ) (a : Arrivals)
      → HasOutput k
      → 0 < length name
      → ls_loop (suc n) a fd buf k ≡ ls_loop n a fd line written
  unfolding ls_loop after_entry ls_round after
  ls_loop-round n a o more =
      let short : length name ≤ 32 = length-name_of (entry_name k.image p) in
      let goal = ls_loop n a fd line written in
      let next : add32 (length name) 1 ≡ suc (length name) = omega (arith, short) in
      ap (λ c. after_entry c (λ buf' k'. ls_loop n a fd buf' k')) (reads_entry a)
      ∙ if_intro (λ (r : Run). r ≡ goal) (length name == 0) (λ t. absurd (ground arith))
          (λ _.
            if_intro (λ (r : Run). r ≡ goal) (length name == failure) (λ t. absurd (ground arith))
              (λ _.
                ap
                  (λ c.
                    after (sys_write (next_entry k fd) 1 (some line) c)
                      (λ ret k'. if ret == failure then finished 3 k' else ls_loop n a fd line k'))
                  next
                ∙ (ap
                      (λ c. after c (λ ret k'.
                        if ret == failure then finished 3 k' else ls_loop n a fd line k'))
                      (writes_line o)
                    ∙ if_intro (λ (r : Run). r ≡ goal) (suc (length name) == failure)
                        (λ t. absurd (ground arith)) (λ _. refl))))

  ls_loop-end :
      (n : ℕ) (a : Arrivals)
      → length name ≡ 0
      → ls_loop (suc n) a fd buf k ≡ finished 0 (next_entry k fd)
  unfolding ls_loop after_entry
  ls_loop-end n a empty =
      ap (λ c. after_entry c (λ buf' k'. ls_loop n a fd buf' k')) (reads_entry a)
      ∙ if_intro (λ (r : Run). r ≡ finished 0 (next_entry k fd)) (length name == 0) (λ _. refl)
          (λ t. absurd (ground arith))

  at_fd :
      descriptor (next_entry k fd) fd
      ≡ record (descriptor k fd) { file_position = add32 (descriptor k fd).file_position 1 }
  at_fd = descriptor-set_descriptor k fd _

  written-IsListing : IsListing written fd (suc p)
  unfolding set_descriptor
  written-IsListing =
      let position = v.position in
      record {
        from_two = v.from_two;
        to_seven = v.to_seven;
        used = λ e. v.used (ap (λ (q : Descriptor). q.flags) (sym at_fd) ∙ e);
        reads = ap (λ (q : Descriptor). q.ops.read_op) at_fd ∙ v.reads;
        position = ap (λ (q : Descriptor). q.file_position) at_fd ∙ omega (arith, position, low);
      }

-- The loop of ls, on an open descriptor of the directory at entry `p` and with standard output open,
-- ends with the value 0 if `n` entries with a name are followed by an entry without one, within the 63
-- of the directory, in as many rounds as there are names, and one more. It has then written to the
-- terminal, in order, the names of these entries, each with a newline, whatever was in its buffer.
pub ls_loop-lists :
    (n m : ℕ) (a : Arrivals) (fd p : ℕ) (buf : Buffer) (k : Kernel)
    → IsListing k fd p
    → HasOutput k
    → p + n < 63
    → n < m
    → ((i : ℕ) → p ≤ i → i < p + n → 0 < length (entry_text k.image i))
    → length (entry_text k.image (p + n)) ≡ 0
    → (k' : Kernel) × (ls_loop m a fd buf k ≡ finished 0 k')
      × (k'.screen
          ≡ write_text k.displayed_terminal k.scheduled_terminal (listing k.image n p) k.screen)
unfolding listing write_text write_chars set_descriptor
ls_loop-lists n zero a fd p buf k v o low room names empty = absurd (omega arith)
ls_loop-lists zero (suc m) a fd p buf k v o low room names empty =
    let at : p + 0 ≡ p = omega arith in
    (
      next_entry k fd,
      ls_loop-end k fd p buf v (omega arith) m a
          (sym (ap (λ q. length (entry_text k.image q)) at) ∙ empty),
      refl,
    )
ls_loop-lists (suc n) (suc m) a fd p buf k v o low room names empty =
    let inside : p < 63 = omega arith in
    let at : suc p + n ≡ p + suc n = omega arith in
    let (k', ends, screen) =
      ls_loop-lists n m a fd (suc p) (line k fd p buf v inside) (written k fd p buf v inside)
        (written-IsListing k fd p buf v inside)
        (with_screen-HasOutput (next_entry k fd) _ (next_entry-HasOutput k fd p buf v inside o))
        (omega arith) (omega arith) (λ i above below. names i (omega arith) (omega arith))
        (ap (λ q. length (entry_text k.image q)) at ∙ empty) in
    (
      k',
      ls_loop-round k fd p buf v inside m a o (names p (omega arith) (omega arith)) ∙ ends,
      screen
          ∙ sym (
              write_text-append k.displayed_terminal k.scheduled_terminal
                (entry_text k.image p ++ 10 ∷ []) (listing k.image n (suc p)) k.screen),
    )
