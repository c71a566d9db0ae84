-- ===== src/Kernel/Process/Slots.antt =====
-- The process slots: the active flags, the blocks and the number of active processes, through the
-- changes that sys_execute, sys_halt and the descriptor calls make to them.
use illinix_os.Prelude.{
  ℕ, zero, suc, ◌+◌, ◌≤◌, ◌<◌, ◌≡◌, ◌≢◌, refl, sym, ◌∙◌, subst, arith, update, update_self,
  update_ne, ℕ_discrete,
}
use illinix_os.Prelude.Word.{add32, sub32}
use illinix_os.Kernel.{Descriptor, Pcb}
use illinix_os.Kernel.Syscalls.Table.{IsSound, IsTable}
use illinix_os.Kernel.Process.{standard_fds}

-- `f 0 + ... + f (n - 1)`
unfoldable pub total : ℕ → (ℕ → ℕ) → ℕ
total zero f = 0
total (suc n) f = total n f + f n

total-beyond : (n i v : ℕ) (f : ℕ → ℕ) → n ≤ i → total n (update f i v) ≡ total n f
unfolding total
total-beyond zero i v f h = refl
total-beyond (suc n) i v f h =
    omega (arith, total-beyond n i v f (omega arith), update_ne f i n v (omega arith))

total-update : (n i v : ℕ) (f : ℕ → ℕ) → i < n → total n (update f i v) + f i ≡ total n f + v
unfolding total
total-update zero i v f h = absurd (omega arith)
total-update (suc n) i v f h = elim (ℕ_discrete i n) [
  | yes e ↦
      subst (λ j. total n (update f j v) + update f j v n + f j ≡ total n f + f n + v) (sym e)
        (omega (arith, total-beyond n n v f (omega arith), update_self f n v))
  | no ne ↦ omega (arith, total-update n i v f (omega arith), update_ne f i n v (λ e. ne (sym e)))
]

total-le : (n : ℕ) (f : ℕ → ℕ) → ((i : ℕ) → i < n → f i ≤ 1) → total n f ≤ n
unfolding total
total-le zero f h = omega arith
total-le (suc n) f h = omega (arith, total-le n f (λ i p. h i (omega arith)), h n (omega arith))

-- The block of each active slot names the slot and has a sound table; the table of any slot is sound
-- once sys_execute has set its standard descriptors; a flag is 0 or 1, and the active ones are
-- counted.
pub record AreSlots (active : ℕ → ℕ) (pcbs : ℕ → Pcb) (count : ℕ) : Type 0 where
  pub named : (i : ℕ) → i < 6 → active i ≢ 0 → (pcbs i).pid ≡ i
  pub sound : (i : ℕ) → i < 6 → active i ≢ 0 → IsTable (pcbs i).fd_entry
  pub ready : (i : ℕ) → i < 6 → IsTable (standard_fds (pcbs i).fd_entry)
  pub flag : (i : ℕ) → i < 6 → active i ≤ 1
  pub counted : count ≡ total 6 active

standard_fds-files : (fds : ℕ → Descriptor) (i : ℕ) → 2 ≤ i → standard_fds fds i ≡ fds i
unfolding standard_fds
standard_fds-files fds i h = update_ne _ 1 i _ (omega arith) ∙ update_ne fds 0 i _ (omega arith)

-- Only the descriptors from 2 on matter, since it sets the functions of the others.
pub standard_fds_sound :
    (fds : ℕ → Descriptor)
    → ((i : ℕ) → 2 ≤ i → i < 8 → IsSound (fds i))
    → IsTable (standard_fds fds)
unfolding standard_fds update
standard_fds_sound fds files = record {
  stdin = refl;
  stdout = refl;
  files = λ i low high. subst IsSound (sym (standard_fds-files fds i low)) (files i low high);
}

standard_fds-IsTable : (fds : ℕ → Descriptor) → IsTable fds → IsTable (standard_fds fds)
standard_fds-IsTable fds v = standard_fds_sound fds v.files

-- The slot `i` changes, and the others stay as they are.
module _ {active : ℕ → ℕ} {pcbs : ℕ → Pcb} {count : ℕ} (v : AreSlots active pcbs count) (i : ℕ)
    (low : i < 6) (pcbs' : ℕ → Pcb) (others : (j : ℕ) → j ≢ i → pcbs' j ≡ pcbs j) where
  changed :
      (P : ℕ → Pcb → Type 0)
      → P i (pcbs' i)
      → ((j : ℕ) → j ≢ i → P j (pcbs j))
      → (j : ℕ) → P j (pcbs' j)
  changed P here there j = elim (ℕ_discrete j i) [
    | yes e ↦ subst (λ x. P x (pcbs' x)) (sym e) here
    | no ne ↦ subst (P j) (sym (others j ne)) (there j ne)
  ]

  few : total 6 active ≤ 6
  few = total-le 6 active v.flag

  IsTable-ready :
      IsTable (standard_fds (pcbs' i).fd_entry)
      → (j : ℕ) → j < 6
      → IsTable (standard_fds (pcbs' j).fd_entry)
  IsTable-ready table j h =
      changed (λ x p. x < 6 → IsTable (standard_fds p.fd_entry)) (λ _. table) (λ x _ l. v.ready x l)
        j h

  flags_after : (b : ℕ) → b ≤ 1 → (j : ℕ) → j < 6 → update active i b j ≤ 1
  unfolding update
  flags_after b small j h = ground (arith, v.flag j h)

  -- A process starts there.
  pub AreSlots-start :
      active i ≡ 0
      → (pcbs' i).pid ≡ i
      → (pcbs' i).fd_entry ≡ standard_fds (pcbs i).fd_entry
      → AreSlots (update active i 1) pcbs' (add32 count 1)
  AreSlots-start free own table =
      let sound : IsTable (pcbs' i).fd_entry = subst IsTable (sym table) (v.ready i low) in
      record {
        named = λ j h a.
            changed (λ x p. update active i 1 x ≢ 0 → x < 6 → p.pid ≡ x) (λ _ _. own)
              (λ x ne b l. v.named x l (λ z. b (update_ne active i x 1 ne ∙ z))) j a h;
        sound = λ j h a.
            changed (λ x p. update active i 1 x ≢ 0 → x < 6 → IsTable p.fd_entry) (λ _ _. sound)
              (λ x ne b l. v.sound x l (λ z. b (update_ne active i x 1 ne ∙ z))) j a h;
        ready = IsTable-ready (standard_fds-IsTable (pcbs' i).fd_entry sound);
        flag = flags_after 1 (omega arith);
        counted = omega (arith, v.counted, few, free, total-update 6 i 1 active low);
      }

  -- Its process ends, with a sound table.
  pub AreSlots-stop :
      active i ≢ 0 → IsTable (pcbs' i).fd_entry → AreSlots (update active i 0) pcbs' (sub32 count 1)
  AreSlots-stop used table = record {
    named = λ j h a.
        changed (λ x p. update active i 0 x ≢ 0 → x < 6 → p.pid ≡ x)
          (λ b _. absurd (b (update_self active i 0)))
          (λ x ne b l. v.named x l (λ z. b (update_ne active i x 0 ne ∙ z))) j a h;
    sound = λ j h a.
        changed (λ x p. update active i 0 x ≢ 0 → x < 6 → IsTable p.fd_entry) (λ _ _. table)
          (λ x ne b l. v.sound x l (λ z. b (update_ne active i x 0 ne ∙ z))) j a h;
    ready = IsTable-ready (standard_fds-IsTable (pcbs' i).fd_entry table);
    flag = flags_after 0 (omega arith);
    counted = omega (
      arith,
      v.counted,
      few,
      v.flag i low,
      total-update 6 i 0 active low,
      nonzero (active i) used,
    );
  }
    where
      nonzero : (a : ℕ) → a ≢ 0 → 0 < a
      nonzero a h = omega arith

  -- Its table changes.
  pub AreSlots-table :
      (pcbs' i).pid ≡ (pcbs i).pid → IsTable (pcbs' i).fd_entry → AreSlots active pcbs' count
  AreSlots-table own table = record {
    named = λ j h a.
        changed (λ x p. active x ≢ 0 → x < 6 → p.pid ≡ x) (λ b l. own ∙ v.named i l b)
          (λ x ne b l. v.named x l b) j a h;
    sound = λ j h a.
        changed (λ x p. active x ≢ 0 → x < 6 → IsTable p.fd_entry) (λ _ _. table)
          (λ x ne b l. v.sound x l b) j a h;
    ready = IsTable-ready (standard_fds-IsTable (pcbs' i).fd_entry table);
    flag = v.flag;
    counted = v.counted;
  }
