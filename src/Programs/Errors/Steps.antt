-- ===== src/Programs/Errors/Steps.antt =====
-- Calls that the kernel refuses, and the states between the calls.
use illinix_os.Prelude.{
  ℕ, zero, suc, ◌+◌, ◌≤◌, ◌<◌, ◌≡◌, ◌≢◌, ◌∙◌, refl, ap, sym, ◌⊎◌, inl, inr, true, none, some, List,
  arith, update_ne, ℕ_discrete, subst, dec_lt,
}
use illinix_os.Prelude.Word.{failure, bad_fd}
use illinix_os.FileSys.Image.{Image}
use illinix_os.FileSys.Data.{Buffer}
use illinix_os.FileSys.Dentry.{char_at, strlen}
use illinix_os.Terminal.{write_chars}
use illinix_os.Kernel.{Kernel, Descriptor, descriptor, current, set_descriptor}
use illinix_os.Kernel.Syscalls.{returned, Arrivals, sys_close, sys_read, sys_write, find_free}
use illinix_os.Kernel.Syscalls.Table.{set_descriptor_lem}
use illinix_os.Programs.{Run, after, fdputs}
use illinix_os.Programs.Output.{
  HasOutput, sys_write-output, with_screen-HasOutput, descriptor-set_descriptor,
  set_descriptor-HasOutput,
}

-- A word that is no descriptor, or one that is not open.
abbrev pub IsRefused : Kernel → ℕ → Type 0
IsRefused k fd = (bad_fd fd ≡ true) ⊎ ((descriptor k fd).flags ≡ 0)

pub sys_read-refuses :
    (a : Arrivals) (k : Kernel) (fd : ℕ) (buf : Buffer) (nbytes : ℕ)
    → (fd ≡ 1) ⊎ IsRefused k fd
    → sys_read a k fd (some buf) nbytes ≡ returned (failure, buf, k)
unfolding sys_read
sys_read-refuses a k fd buf nbytes (inl one) = ground arith
sys_read-refuses a k fd buf nbytes (inr (inl bad)) = ground arith
sys_read-refuses a k fd buf nbytes (inr (inr free)) = ground arith

pub sys_write-refuses :
    (k : Kernel) (fd : ℕ) (buf : Buffer) (nbytes : ℕ)
    → (fd ≡ 0) ⊎ IsRefused k fd
    → sys_write k fd (some buf) nbytes ≡ returned (failure, k)
unfolding sys_write
sys_write-refuses k fd buf nbytes (inl zeroth) = ground arith
sys_write-refuses k fd buf nbytes (inr (inl bad)) = ground arith
sys_write-refuses k fd buf nbytes (inr (inr free)) = ground arith

pub sys_close-refuses :
    (k : Kernel) (fd : ℕ) → (fd < 2) ⊎ IsRefused k fd → sys_close k fd ≡ returned (failure, k)
unfolding sys_close
sys_close-refuses k fd (inl low) = ground arith
sys_close-refuses k fd (inr (inl bad)) = ground arith
sys_close-refuses k fd (inr (inr free)) = ground arith

pub find_free-full :
    (fds : ℕ → Descriptor) (n i : ℕ)
    → ((j : ℕ) → i ≤ j → j < i + n → (fds j).flags ≢ 0)
    → find_free fds n i ≡ none
unfolding find_free
find_free-full fds zero i used = refl
find_free-full fds (suc n) i used = ground (
  arith,
  used i (omega arith) (omega arith),
  find_free-full fds n (suc i) (λ j low high. used j (omega arith) (omega arith)),
)

-- Standard output is open, the descriptors from 2 to `j` have one property and those from `j` to 8
-- another.
pub record IsSplit (img : Image) (A B : Descriptor → Type 0) (j : ℕ) (k : Kernel) : Type 0 where
  pub disk : k.image ≡ img
  pub output : HasOutput k
  pub below : (i : ℕ) → 2 ≤ i → i < j → A (descriptor k i)
  pub above : (i : ℕ) → j ≤ i → i < 8 → B (descriptor k i)

abbrev pub IsFree : Descriptor → Type 0
IsFree e = e.flags ≡ 0

-- All of them are free.
abbrev pub IsFresh : Image → Kernel → Type 0
IsFresh img k = IsSplit img IsFree IsFree 8 k

other_descriptor :
    (k : Kernel) (fd : ℕ) (e : Descriptor) (i : ℕ)
    → i ≢ fd
    → descriptor (set_descriptor k fd e) i ≡ descriptor k i
other_descriptor k fd e i ne =
    ap (λ f. f i) (set_descriptor_lem k fd e) ∙ update_ne (current k).fd_entry fd i e ne

module _ {img : Image} {A B : Descriptor → Type 0} where
  -- The border moves past a descriptor that has been set.
  pub set_descriptor-IsSplit :
      {j : ℕ} {k : Kernel} (e : Descriptor)
      → 2 ≤ j
      → A e
      → IsSplit img A B j k
      → IsSplit img A B (suc j) (set_descriptor k j e)
  unfolding set_descriptor
  set_descriptor-IsSplit {j} {k} e low is v = record {
    disk = v.disk;
    output = set_descriptor-HasOutput k j e low v.output;
    below = λ i from to. elim (ℕ_discrete i j) [
      | yes at ↦
          subst A
            (sym (ap (descriptor (set_descriptor k j e)) at ∙ descriptor-set_descriptor k j e)) is
      | no ne ↦ subst A (sym (other_descriptor k j e i ne)) (v.below i from (omega arith))
    ];
    above = λ i from to.
        subst B (sym (other_descriptor k j e i (omega arith))) (v.above i (omega arith) to);
  }

  -- A message changes the screen only.
  pub fdputs-IsSplit :
      {j : ℕ} {k : Kernel} (s : List ℕ)
      → strlen s < 100
      → IsSplit img A B j k
      → (k' : Kernel) × IsSplit img A B j k' × ((next : Kernel → Run) → fdputs s k next ≡ next k')
  unfolding fdputs after
  fdputs-IsSplit {j} {k} s short v =
      let k' : Kernel = record k {
        screen =
            write_chars (strlen s) 0 k.displayed_terminal k.scheduled_terminal (λ i. char_at s i)
              k.screen;
      } in
      (
        k',
        record {
          disk = v.disk;
          output = with_screen-HasOutput k _ v.output;
          below = v.below;
          above = v.above;
        },
        λ next.
            ap (λ c. after c (λ ret k2. next k2))
              (sys_write-output k (λ i. char_at s i) (strlen s) v.output (omega (arith, short))),
      )

-- With the same property on both sides the border does not matter.
pub no_border :
    {img : Image} {A : Descriptor → Type 0} {j : ℕ} {k : Kernel}
    → IsSplit img A A j k
    → IsSplit img A A 8 k
no_border {img} {A} {j} {k} v = record {
  disk = v.disk;
  output = v.output;
  below = λ i from to. elim (dec_lt i j) [
    | yes before ↦ v.below i from before
    | no past ↦ v.above i (omega arith) to
  ];
  above = λ i from to. absurd (omega arith);
}

-- The border at the low end: only the property above it counts.
pub low_border :
    {img : Image} {A B C : Descriptor → Type 0} {k : Kernel}
    → IsSplit img A B 8 k
    → IsSplit img C A 2 k
low_border v = record {
  disk = v.disk;
  output = v.output;
  below = λ i from to. absurd (omega arith);
  above = v.below;
}
