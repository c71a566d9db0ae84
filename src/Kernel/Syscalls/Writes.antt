-- ===== src/Kernel/Syscalls/Writes.antt =====
-- sys_write with a sound descriptor table, and where it faults.
use illinix_os.Prelude.{
  ℕ, ◌≤◌, ◌<◌, ◌^◌, ◌≡◌, ◌≢◌, ◌⊎◌, inl, inr, refl, false, Option, none, some, arith, ◌==◌,
  Bool-cases, ℕ_discrete, if_intro, eq_false, eq_true, eq_true,
}
use illinix_os.Prelude.Word.{bad_fd, bad_fd-lt, lt-bad_fd}
use illinix_os.Rtc.{Rtc, rtc_write}
use illinix_os.FileSys.Data.{Buffer}
use illinix_os.Kernel.{Driver, null, terminal, rtc, directory, file, Kernel, current, descriptor}
use illinix_os.Kernel.Syscalls.{fault, all_ops, write_rtc, call_write, sys_write, first_word}
use illinix_os.Kernel.Syscalls.Table.{IsFileDriver, IsSound, IsTable, TableAfter}

-- What rtc_write needs of a request that reaches it: not 4 bytes, or a word that is not 0.
abbrev pub IsWritable : Option Buffer → ℕ → Type 0
IsWritable buf nbytes = (nbytes ≢ 4) ⊎ ((b : Buffer) × (buf ≡ some b) × (first_word b ≢ 0))

write_rtc-IsTable :
    (k : Kernel) (b : Buffer) (nbytes : ℕ)
    → IsTable (current k).fd_entry
    → (nbytes ≢ 4) ⊎ (first_word b ≢ 0)
    → TableAfter (write_rtc k b nbytes)
unfolding write_rtc rtc_write
write_rtc-IsTable k b nbytes v h = elim (Bool-cases (nbytes == 4)) [
  | inr other ↦ rw (other, write_rtc) v
  | inl four ↦ elim (Bool-cases (first_word b == 0)) [
    | inl zero_word ↦ absurd (ground arith)
    | inr word ↦ rw (four, word, write_rtc) v
  ]
]

writable_none : {nbytes : ℕ} → IsWritable none nbytes → nbytes ≢ 4
writable_none (inl other) = other
writable_none (inr (b, e, word)) = absurd (cc)

writable_some :
    (b : Buffer) {nbytes : ℕ} → IsWritable (some b) nbytes → (nbytes ≢ 4) ⊎ (first_word b ≢ 0)
writable_some b (inl other) = inl other
writable_some b (inr (b', e, word)) = let same : b ≡ b' = cc in inr (rw same word)

call_write-IsTable :
    (d : Driver) (k : Kernel) (buf : Option Buffer) (nbytes : ℕ)
    → IsTable (current k).fd_entry
    → IsFileDriver d ⊎ (d ≡ terminal)
    → IsWritable buf nbytes
    → TableAfter (call_write d k buf nbytes)
unfolding call_write
call_write-IsTable null k buf nbytes v h w = ground arith
call_write-IsTable terminal k buf nbytes v h w = v
call_write-IsTable rtc k none nbytes v h w = rw (eq_false (writable_none w)) v
call_write-IsTable rtc k (some b) nbytes v h w = write_rtc-IsTable k b nbytes v (writable_some b w)
call_write-IsTable directory k buf nbytes v h w = v
call_write-IsTable file k buf nbytes v h w = v

write_sound :
    (k : Kernel) (fd : ℕ) (buf : Option Buffer) (nbytes : ℕ)
    → IsTable (current k).fd_entry
    → IsSound (descriptor k fd)
    → ((descriptor k fd).flags == 0) ≡ false
    → IsWritable buf nbytes
    → TableAfter (call_write (descriptor k fd).ops.write_op k buf nbytes)
write_sound k fd buf nbytes v (inl free) used w = absurd (ground arith)
write_sound k fd buf nbytes v (inr (d, is, ops)) used w =
    rw ops (call_write-IsTable d k buf nbytes v (inl is) w)

write_stdout :
    (k : Kernel) (fd : ℕ) (buf : Option Buffer) (nbytes : ℕ)
    → IsTable (current k).fd_entry
    → fd ≡ 1
    → IsWritable buf nbytes
    → TableAfter (call_write (descriptor k fd).ops.write_op k buf nbytes)
write_stdout k fd buf nbytes v e w =
    rw (e, v.stdout) (call_write-IsTable terminal k buf nbytes v (inr refl) w)

-- With a sound table sys_write returns, whatever the word that it is given as a descriptor, and
-- keeps the table sound, unless the request is one of 4 bytes whose buffer is null or holds the
-- word 0.
pub sys_write-IsTable :
    (k : Kernel) (fd : ℕ) (buf : Option Buffer) (nbytes : ℕ)
    → fd < 2 ^ 32
    → IsTable (current k).fd_entry
    → IsWritable buf nbytes
    → TableAfter (sys_write k fd buf nbytes)
unfolding sys_write
sys_write-IsTable k fd buf nbytes w v ok =
    if_intro TableAfter (bad_fd fd) (λ _. v)
      λ good.
        if_intro TableAfter (fd == 0) (λ _. v)
          λ not_in.
            if_intro TableAfter ((descriptor k fd).flags == 0) (λ _. v)
              λ used. elim (ℕ_discrete fd 1) [
                | yes stdout ↦ write_stdout k fd buf nbytes v stdout ok
                | no other ↦
                    let from_two : 2 ≤ fd = ground arith in
                    write_sound k fd buf nbytes v (v.files fd from_two (bad_fd-lt fd w good)) used
                      ok
              ]

zero_write : (t w : ℕ) (r : Rtc) → w ≡ 0 → rtc_write t w 4 r ≡ none
unfolding rtc_write
zero_write t w r e = rw (eq_true e)

write_rtc-zero : (k : Kernel) (b : Buffer) → first_word b ≡ 0 → write_rtc k b 4 ≡ fault
unfolding write_rtc
write_rtc-zero k b e = rw (zero_write k.scheduled_terminal (first_word b) k.rtc e, write_rtc)

-- A program with an open clock faults the processor by writing the frequency 0 to it.
pub rtc_write_zero_faults :
    (k : Kernel) (fd : ℕ) (b : Buffer)
    → 2 ≤ fd
    → fd < 8
    → (descriptor k fd).flags ≢ 0
    → (descriptor k fd).ops ≡ all_ops rtc
    → first_word b ≡ 0
    → sys_write k fd (some b) 4 ≡ fault
unfolding sys_write call_write
rtc_write_zero_faults k fd b low high used ops e =
    rw (lt-bad_fd fd high, eq_false (from_two-ne fd low), eq_false used, ops) (write_rtc-zero k b e)
  where
    from_two-ne : (n : ℕ) → 2 ≤ n → n ≢ 0
    from_two-ne n h = omega arith
