-- ===== src/Kernel/Process/Closing.antt =====
-- The loop of sys_halt closes every descriptor of the process that ends.
use illinix_os.Prelude.{
  ℕ, zero, suc, ◌+◌, ◌≤◌, ◌<◌, ◌≡◌, ◌≢◌, inl, inr, refl, sym, ap, ◌∙◌, true, false, arith, ◌==◌,
  update, update_self, update_ne, update_again, update_same, Bool-cases, ℕ_discrete,
}
use illinix_os.Kernel.{Descriptor, Pcb, Kernel, current, descriptor, set_descriptor}
use illinix_os.Kernel.Syscalls.{returned, closed, sys_close}
use illinix_os.Kernel.Syscalls.Table.{
  IsTable, set_descriptor_lem, set_descriptor-IsTable, close_sound,
}
use illinix_os.Kernel.Syscalls.Open.{sys_close_lem}
use illinix_os.Kernel.Process.{close_all}

-- The state with another descriptor table for the running process.
unfoldable pub with_table : Kernel → (ℕ → Descriptor) → Kernel
unfolding update
with_table k f = record k {
  pcbs = update k.pcbs k.current_process_idx (record (current k) { fd_entry = f });
}

with_table-same : (k : Kernel) → with_table k (current k).fd_entry ≡ k
unfolding with_table
with_table-same k = ap (λ p. record k { pcbs = p }) (update_same k.pcbs k.current_process_idx)

set_descriptor-with_table :
    (k : Kernel) (fd : ℕ) (e : Descriptor)
    → set_descriptor k fd e ≡ with_table k (update (current k).fd_entry fd e)
unfolding set_descriptor with_table
set_descriptor-with_table k fd e = refl

with_table-again :
    (k : Kernel) (f g : ℕ → Descriptor) → with_table (with_table k f) g ≡ with_table k g
unfolding with_table
with_table-again k f g =
    let c : ℕ = k.current_process_idx in
    let p : Pcb = record (current k) { fd_entry = f } in
    ap (λ (q : Pcb). record k { pcbs = update (update k.pcbs c p) c (record q { fd_entry = g }) })
      (update_self k.pcbs c p)
    ∙ ap (λ ps. record k { pcbs = ps }) (update_again k.pcbs c p (record p { fd_entry = g }))

-- What the loop leaves: a sound table whose descriptors from `i` up to `i + n` are not in use, the
-- others being as they were.
pub record ClosedFrom (n i : ℕ) (fds f : ℕ → Descriptor) : Type 0 where
  pub sound : IsTable f
  pub unused : (j : ℕ) → i ≤ j → j < i + n → (f j).flags ≢ 1
  pub others : (j : ℕ) → j < i → f j ≡ fds j

abbrev pub Closes : ℕ → ℕ → Kernel → Type 0
Closes n i k =
    (f : ℕ → Descriptor) × (close_all n i k ≡ returned (with_table k f))
    × ClosedFrom n i (current k).fd_entry f

module _ (k : Kernel) (i : ℕ) (v : IsTable (current k).fd_entry) (low : 2 ≤ i) (high : i < 8)
    (used : ((descriptor k i).flags == 1) ≡ true) where
  flags-one : (descriptor k i).flags ≡ 1
  flags-one = ground arith

  closes : sys_close k i ≡ returned (0, set_descriptor k i closed)
  closes =
      sys_close_lem k i (descriptor k i) low high refl (rw flags-one (omega arith))
        (close_sound (descriptor k i) i (v.files i low high) (rw flags-one refl) high)

  close_all-used : (n : ℕ) → close_all (suc n) i k ≡ close_all n (suc i) (set_descriptor k i closed)
  unfolding close_all
  close_all-used n = rw (used, closes) refl

  next_table : (current (set_descriptor k i closed)).fd_entry ≡ update (current k).fd_entry i closed
  next_table = set_descriptor_lem k i closed

  below :
      (n : ℕ) (f : ℕ → Descriptor)
      → ClosedFrom n (suc i) (current (set_descriptor k i closed)).fd_entry f
      → (j : ℕ) → j < suc i
      → f j ≡ update (current k).fd_entry i closed j
  below n f c j p = c.others j p ∙ ap (λ t. t j) next_table

  here_unused :
      (n : ℕ) (f : ℕ → Descriptor)
      → ClosedFrom n (suc i) (current (set_descriptor k i closed)).fd_entry f
      → (f i).flags ≢ 1
  here_unused n f c =
      let freed : f i ≡ closed =
        below n f c i (omega arith) ∙ update_self (current k).fd_entry i closed in
      rw freed (omega arith)

  close_one : (n : ℕ) → Closes n (suc i) (set_descriptor k i closed) → Closes (suc n) i k
  close_one n (f, e, c) = (
    f,
    close_all-used n
        ∙ e
        ∙ ap (λ k'. returned (with_table k' f)) (set_descriptor-with_table k i closed)
        ∙ ap returned (with_table-again k _ f),
    record {
      sound = c.sound;
      unused = λ j p q. elim (ℕ_discrete j i) [
        | yes same ↦ rw same (here_unused n f c)
        | no other ↦ c.unused j (omega arith) (omega arith)
      ];
      others = λ j p.
          below n f c j (omega arith) ∙ update_ne (current k).fd_entry i j closed (omega arith);
    },
  )

skip_one :
    (n i : ℕ) (k : Kernel)
    → ((descriptor k i).flags == 1) ≡ false
    → Closes n (suc i) k
    → Closes (suc n) i k
unfolding close_all
skip_one n i k unused (f, e, c) = (
  f,
  rw unused e,
  record {
    sound = c.sound;
    unused = λ j p q. elim (ℕ_discrete j i) [
      | yes same ↦ rw (same, c.others i (omega arith)) (ground arith)
      | no other ↦ c.unused j (omega arith) (omega arith)
    ];
    others = λ j p. c.others j (omega arith);
  },
)

pub close_all_lem :
    (n i : ℕ) (k : Kernel) → 2 ≤ i → i + n ≤ 8 → IsTable (current k).fd_entry → Closes n i k
unfolding close_all
close_all_lem zero i k low high v = (
  (current k).fd_entry,
  ap returned (sym (with_table-same k)),
  record { sound = v; unused = λ j p q. absurd (omega arith); others = λ j p. refl },
)
close_all_lem (suc n) i k low high v = elim (Bool-cases ((descriptor k i).flags == 1)) [
  | inl used ↦ close_one k i v low (omega arith) used n (
      close_all_lem n (suc i) (set_descriptor k i closed) (omega arith) (omega arith)
        (set_descriptor-IsTable k i closed v low (inl refl)))
  | inr unused ↦ skip_one n i k unused (close_all_lem n (suc i) k (omega arith) (omega arith) v)
]
