-- ===== src/Kernel/Process/Forest.antt =====
-- How the processes of the terminals hang together: the tables of active slots and of parents, and
-- the active process of each of the first `n` terminals, with the three changes that processes make.
use illinix_os.Prelude.{ℕ, suc, ◌<◌, ◌≡◌, ◌≢◌, ◌⊎◌, subst, arith, update}
use illinix_os.Prelude.Word.{failure}

-- The active processes of different terminals differ and are live; a live process has no parent, or a
-- live one that waits for it alone and that no terminal runs.
pub record IsForest (n : ℕ) (active parent running : ℕ → ℕ) : Type 0 where
  pub slot : (t : ℕ) → t < n → running t < 6
  pub live : (t : ℕ) → t < n → active (running t) ≢ 0
  pub apart : (t u : ℕ) → t < n → u < n → t ≢ u → running t ≢ running u
  pub rooted :
      (i : ℕ)
      → i < 6
      → active i ≢ 0
      → (parent i ≡ failure) ⊎ ((parent i < 6) × (active (parent i) ≢ 0))
  pub waits : (i t : ℕ) → i < 6 → active i ≢ 0 → t < n → parent i ≢ running t
  pub single :
      (i j : ℕ)
      → i < 6
      → j < 6
      → active i ≢ 0
      → active j ≢ 0
      → i ≢ j
      → parent i ≢ failure
      → parent i ≢ parent j

pub IsForest-subst :
    {n : ℕ} {active active' parent parent' running running' : ℕ → ℕ}
    → active ≡ active'
    → parent ≡ parent'
    → running ≡ running'
    → IsForest n active parent running
    → IsForest n active' parent' running'
IsForest-subst {n = n} {active = active} {parent = parent} {parent' = parent'} {running = running}
      {running' = running'} a p r v =
    subst (λ x. IsForest n x parent' running') a
      (subst (λ x. IsForest n active x running') p (subst (λ x. IsForest n active parent x) r v))

-- A new process takes a free slot.
module _ {n : ℕ} {active parent running : ℕ → ℕ} (v : IsForest n active parent running) (pid : ℕ)
    (low : pid < 6) (free : active pid ≡ 0) where
  -- It becomes the child of the process of terminal `s`, and runs in its place.
  pub spawn :
      (s : ℕ)
      → s < n
      → IsForest n (update active pid 1) (update parent pid (running s)) (update running s pid)
  unfolding update
  spawn s small = record {
    slot = λ t h. ground (arith, v.slot t h);
    live = λ t h. ground (arith, v.live t h);
    apart = λ t u h l ne. ground (arith, v.live t h, v.live u l, v.apart t u h l ne);
    rooted = λ i h a. ground (arith, v.rooted i h, v.live s small, v.slot s small);
    waits =
        λ i t h a l. ground (arith, v.waits i t h, v.rooted i h, v.apart s t small l, v.live t l);
    single = λ i j h l a b ne r. ground (arith, v.single i j h l, v.waits j s l, v.waits i s h);
  }

  -- It has no parent, and runs on a terminal that had no process.
  pub plant :
      IsForest (suc n) (update active pid 1) (update parent pid failure) (update running n pid)
  unfolding update
  plant = record {
    slot = λ t h. ground (arith, v.slot t);
    live = λ t h. ground (arith, v.live t);
    apart = λ t u h l ne. ground (arith, v.live t, v.live u, v.apart t u);
    rooted = λ i h a. ground (arith, v.rooted i h);
    waits = λ i t h a l. ground (arith, v.waits i t h, v.rooted i h, v.slot t);
    single = λ i j h l a b ne r. ground (arith, v.single i j h l);
  }

module _ {n : ℕ} {active parent running : ℕ → ℕ} (v : IsForest n active parent running) (s : ℕ)
    (small : s < n) where
  -- The process of terminal `s` ends, and its parent runs in its place.
  pub finish :
      parent (running s) ≢ failure
      → IsForest n (update active (running s) 0) parent (update running s (parent (running s)))
  unfolding update
  finish child =
      let c : ℕ = running s in
      let up = v.rooted c (v.slot s small) (v.live s small) in
      record {
        slot = λ t h. ground (arith, v.slot t h, up);
        live = λ t h.
            ground (arith, v.live t h, up, v.waits c s (v.slot s small), v.apart s t small h);
        apart = λ t u h l ne. ground (
          arith,
          v.apart t u h l ne,
          v.waits c t (v.slot s small),
          v.waits c u (v.slot s small),
          v.live s small,
        );
        rooted = λ i h a. ground (arith, v.rooted i h, v.waits i s h);
        waits = λ i t h a l.
            ground (arith, v.waits i t h, v.single i c h (v.slot s small), v.live s small);
        single = λ i j h l a b ne r. ground (arith, v.single i j h l);
      }

  -- The process of terminal `s` had no parent, and another one starts in the slot `pid`.
  pub replant :
      (pid : ℕ)
      → pid < 6
      → update active (running s) 0 pid ≡ 0
      → IsForest n
          (update (update active (running s) 0) pid 1)
          (update parent pid failure)
          (update running s pid)
  unfolding update
  replant pid low free = record {
    slot = λ t h. ground (arith, v.slot t h);
    live = λ t h. ground (arith, v.live t h, v.apart s t small h);
    apart = λ t u h l ne. ground (
      arith,
      v.live t h,
      v.live u l,
      v.apart t u h l ne,
      v.apart s t small h,
      v.apart s u small l,
    );
    rooted = λ i h a. ground (arith, v.rooted i h, v.waits i s h);
    waits = λ i t h a l. ground (arith, v.waits i t h, v.rooted i h, v.slot t l);
    single = λ i j h l a b ne r. ground (arith, v.single i j h l);
  }
