-- ===== src/Strings/Copies.antt =====
-- What memcpy leaves in memory.
use illinix_os.Prelude.{
  ℕ, zero, suc, ◌+◌, ◌-◌, ◌*◌, ◌/◌, ◌%◌, ◌^◌, ◌≤◌, ◌<◌, ◌≡◌, ◌∙◌, ap, ◌⊎◌, inl, inr, arith, ◌&&◌,
  leb, ltb, ◌==◌, if◌then◌else◌, update, if_intro,
}
use illinix_os.Prelude.Word.{add32}
use illinix_os.Strings.Memory.{Memory, store32, load32, movsl, memcpy_aligned, memcpy_top, memcpy}
use illinix_os.Strings.Moves.{copied, movsb_lem, load-store}

abbrev pub IsMemory : Memory → Type 0
IsMemory m = (i : ℕ) → m i < 256

copied-IsMemory :
    (n a b : ℕ) (m m' : Memory) → IsMemory m → ((i : ℕ) → m' i ≡ copied n a b m i) → IsMemory m'
copied-IsMemory n a b m m' bytes e i = ground (arith, e i, bytes i, bytes (a + (i - b)))

-- A copy of `k` bytes and then of the next `n`.
copied_again :
    (k n a b : ℕ) (m m' : Memory) (j : ℕ)
    → (b ≤ a) ⊎ (a + (k + n) ≤ b)
    → ((i : ℕ) → m' i ≡ copied k a b m i)
    → copied n (a + k) (b + k) m' j ≡ copied (k + n) a b m j
copied_again k n a b m m' j apart e = ground (arith, e j, e (a + k + (j - (b + k))))

-- Two ranges that a copy may go upwards in stay so after its first bytes.
still : (k n a b : ℕ) → (b ≤ a) ⊎ (a + (k + n) ≤ b) → (b + k ≤ a + k) ⊎ (a + k + n ≤ b + k)
still k n a b (inl h) = inl (omega arith)
still k n a b (inr h) = inr (omega arith)

movsl_lem :
    (n a b : ℕ) (m : Memory) (j : ℕ)
    → IsMemory m
    → a + 4 * n < 2 ^ 32
    → b + 4 * n < 2 ^ 32
    → (b ≤ a) ⊎ (a + 4 * n ≤ b)
    → movsl n a b m j ≡ copied (4 * n) a b m j
unfolding movsl
movsl_lem zero a b m j bytes p q apart = ground arith
movsl_lem (suc n) a b m j bytes p q apart =
    let m' : Memory = store32 b (load32 a m) m in
    let word : (i : ℕ) → m' i ≡ copied 4 a b m i =
      λ i. load-store a b m i bytes (omega arith) (omega arith) in
    let next_a : add32 a 4 ≡ a + 4 = omega arith in
    let next_b : add32 b 4 ≡ b + 4 = omega arith in
    let count : 4 * suc n ≡ 4 + 4 * n = omega arith in
    rw (next_a, next_b, count)
      (movsl_lem n (a + 4) (b + 4) m' j (copied-IsMemory 4 a b m m' bytes word) (omega arith)
          (omega arith) (still 4 (4 * n) a b (omega arith))
        ∙ copied_again 4 (4 * n) a b m m' j (omega arith) word)

memcpy_aligned_lem :
    (n a b : ℕ) (m : Memory) (j : ℕ)
    → IsMemory m
    → a + n < 2 ^ 32
    → b + n < 2 ^ 32
    → (b ≤ a) ⊎ (a + n ≤ b)
    → memcpy_aligned n a b m j ≡ copied n a b m j
unfolding memcpy_aligned
memcpy_aligned_lem n a b m j bytes p q apart =
    let words : ℕ = 4 * (n / 4) in
    let m' : Memory = movsl (n / 4) a b m in
    let moved : (i : ℕ) → m' i ≡ copied words a b m i =
      λ i. movsl_lem (n / 4) a b m i bytes (omega arith) (omega arith) (ground arith) in
    let next_a : add32 a words ≡ a + words = omega arith in
    let next_b : add32 b words ≡ b + words = omega arith in
    let count : words + n % 4 ≡ n = omega arith in
    rw (next_a, next_b)
      (movsb_lem (n % 4) (a + words) (b + words) m' j (omega arith) (omega arith)
          (still words (n % 4) a b (ground arith))
        ∙ copied_again words (n % 4) a b m m' j (ground arith) moved
        ∙ ap (λ k. copied k a b m j) count)

memcpy_top_lem :
    (n a b : ℕ) (m : Memory) (j : ℕ)
    → IsMemory m
    → a + n < 2 ^ 32
    → b + n < 2 ^ 32
    → (b ≤ a) ⊎ (a + n ≤ b)
    → memcpy_top n a b m j ≡ copied n a b m j
unfolding memcpy_top update
memcpy_top_lem zero a b m j bytes p q apart = ground arith
memcpy_top_lem (suc n) a b m j bytes p q apart =
    let m' : Memory = update m b (m a) in
    let byte : (i : ℕ) → m' i ≡ copied 1 a b m i = λ i. ground arith in
    let next_a : add32 a 1 ≡ a + 1 = omega arith in
    let next_b : add32 b 1 ≡ b + 1 = omega arith in
    let next : 1 + n ≡ suc n = omega arith in
    if_intro (λ (r : Memory). r j ≡ copied (suc n) a b m j) (b % 4 == 0)
      (λ _. memcpy_aligned_lem (suc n) a b m j bytes p q apart)
      (λ _.
        rw (next_a, next_b)
          (memcpy_top_lem n (a + 1) (b + 1) m' j (copied-IsMemory 1 a b m m' bytes byte)
              (omega arith) (omega arith) (still 1 n a b (omega arith))
            ∙ copied_again 1 n a b m m' j (omega arith) byte
            ∙ ap (λ k. copied k a b m j) next))

-- memcpy copies the `n` bytes from `src` on to `dest` and leaves all others as they are, when it does
-- not overwrite a byte that it has still to read: `dest` is at or below `src`, or the ranges are apart.
pub memcpy_lem :
    (dest src n : ℕ) (m : Memory) (j : ℕ)
    → IsMemory m
    → src + n < 2 ^ 32
    → dest + n < 2 ^ 32
    → (dest ≤ src) ⊎ (src + n ≤ dest)
    → memcpy dest src n m j ≡ (if leb dest j && ltb j (dest + n) then m (src + (j - dest)) else m j)
unfolding memcpy
memcpy_lem dest src n m j bytes p q apart = memcpy_top_lem n src dest m j bytes p q apart
