-- ===== src/Strings/Moves.antt =====
-- What memset and memmove leave in memory, for ranges that do not reach the end of the addresses.
use illinix_os.Prelude.{
  ℕ, zero, suc, ◌+◌, ◌-◌, ◌*◌, ◌/◌, ◌%◌, ◌^◌, ◌≤◌, ◌<◌, ◌≡◌, refl, ◌∙◌, ◌⊎◌, inl, true, ◌&&◌, arith,
  leb, ltb, ◌==◌, ==_iff, Bool, false, if_intro, if◌then◌else◌, update,
}
use illinix_os.Prelude.Word.{add32, sub32}
use illinix_os.Prelude.Bits.{passes, passes_lem}
use illinix_os.Strings.Memory.{
  Memory, store16, store32, load32, stosb, stosl, memset_aligned, memset_top, four_bytes, memset,
  movsb, movsb_down, memmove,
}

-- The byte `v` from `a` on, `n` times.
abbrev pub filled : ℕ → ℕ → ℕ → Memory → ℕ → ℕ
filled n a v m j = if leb a j && ltb j (a + n) then v else m j

stosb_lem :
    (n edi al : ℕ) (m : Memory) (j : ℕ)
    → edi + n < 2 ^ 32
    → stosb n edi al m j ≡ filled n edi (al % 256) m j
unfolding stosb update
stosb_lem zero edi al m j h = ground arith
stosb_lem (suc n) edi al m j h =
    ground (arith, stosb_lem n (add32 edi 1) al (update m edi (al % 256)) j)

-- Four equal bytes.
record IsByte (v eax : ℕ) : Type 0 where
  byte0 : eax % 256 ≡ v
  byte1 : eax / 256 % 256 ≡ v
  byte2 : eax / 65536 % 256 ≡ v
  byte3 : eax / 65536 / 256 % 256 ≡ v

store32_lem :
    (a v eax : ℕ) (m : Memory) (j : ℕ)
    → IsByte v eax
    → a + 4 < 2 ^ 32
    → store32 a eax m j ≡ filled 4 a v m j
unfolding store32 store16 update
store32_lem a v eax m j b h = ground (arith, b.byte0, b.byte1, b.byte2, b.byte3)

stosl_lem :
    (n edi v eax : ℕ) (m : Memory) (j : ℕ)
    → IsByte v eax
    → edi + 4 * n < 2 ^ 32
    → stosl n edi eax m j ≡ filled (4 * n) edi v m j
unfolding stosl
stosl_lem zero edi v eax m j b h = ground arith
stosl_lem (suc n) edi v eax m j b h =
    ground
      (arith, stosl_lem n (add32 edi 4) v eax (store32 edi eax m) j b, store32_lem edi v eax m j b)

memset_aligned_lem :
    (n edi v eax : ℕ) (m : Memory) (j : ℕ)
    → IsByte v eax
    → edi + n < 2 ^ 32
    → memset_aligned n edi eax m j ≡ filled n edi v m j
unfolding memset_aligned
memset_aligned_lem n edi v eax m j b h = ground (
  arith,
  b.byte0,
  stosb_lem (n % 4) (add32 edi (4 * (n / 4))) eax (stosl (n / 4) edi eax m) j,
  stosl_lem (n / 4) edi v eax m j b,
)

memset_top_lem :
    (n edi v eax : ℕ) (m : Memory) (j : ℕ)
    → IsByte v eax
    → edi + n < 2 ^ 32
    → memset_top n edi eax m j ≡ filled n edi v m j
unfolding memset_top update
memset_top_lem zero edi v eax m j b h = ground arith
memset_top_lem (suc n) edi v eax m j b h = ground (
  arith,
  b.byte0,
  memset_aligned_lem (suc n) edi v eax m j b,
  memset_top_lem n (add32 edi 1) v eax (update m edi (eax % 256)) j b,
)

byte_table :
    passes
      (λ c.
        four_bytes c % 256 == c
        && (four_bytes c / 256 % 256 == c
            && (four_bytes c / 65536 % 256 == c && four_bytes c / 65536 / 256 % 256 == c)))
      256
    ≡ true
unfolding passes
byte_table = refl

all_four :
    (a b c d : Bool)
    → (a && (b && (c && d))) ≡ true
    → (a ≡ true) × (b ≡ true) × (c ≡ true) × (d ≡ true)
all_four true true true true h = (refl, refl, refl, refl)
all_four true true true false h = cc
all_four true true false d h = cc
all_four true false c d h = cc
all_four false b c d h = cc

four_bytes-IsByte : (c : ℕ) → c < 256 → IsByte c (four_bytes c)
four_bytes-IsByte c h =
    let (zeroth, first, second, third) = all_four _ _ _ _ (passes_lem _ 256 c h byte_table) in
    record {
      byte0 = (==_iff _ _).0 zeroth;
      byte1 = (==_iff _ _).0 first;
      byte2 = (==_iff _ _).0 second;
      byte3 = (==_iff _ _).0 third;
    }

-- memset gives the low byte of `c` to the `n` bytes from `s` on, and leaves all others as they are,
-- however `s` is aligned.
pub memset_lem :
    (s c n : ℕ) (m : Memory) (j : ℕ)
    → s + n < 2 ^ 32
    → memset s c n m j ≡ (if leb s j && ltb j (s + n) then c % 256 else m j)
unfolding memset
memset_lem s c n m j h =
    memset_top_lem n s (c % 256) (four_bytes (c % 256)) m j
      (four_bytes-IsByte (c % 256) (omega arith)) h

-- What a copy of `n` bytes from `a` to `b` leaves.
abbrev pub copied : ℕ → ℕ → ℕ → Memory → ℕ → ℕ
copied n a b m j = if leb b j && ltb j (b + n) then m (a + (j - b)) else m j

-- A copy that goes upwards may not overwrite what it has still to read.
pub movsb_lem :
    (n a b : ℕ) (m : Memory) (j : ℕ)
    → a + n < 2 ^ 32
    → b + n < 2 ^ 32
    → (b ≤ a) ⊎ (a + n ≤ b)
    → movsb n a b m j ≡ copied n a b m j
unfolding movsb update
movsb_lem zero a b m j p q apart = ground arith
movsb_lem (suc n) a b m j p q apart =
    ground (arith, movsb_lem n (add32 a 1) (add32 b 1) (update m b (m a)) j)

movsb_down_lem :
    (n a b : ℕ) (m : Memory) (j : ℕ)
    → a + n < 2 ^ 32
    → b + n < 2 ^ 32
    → a ≤ b
    → movsb_down n (sub32 (add32 a n) 1) (sub32 (add32 b n) 1) m j ≡ copied n a b m j
unfolding movsb_down update
movsb_down_lem zero a b m j p q below = ground arith
movsb_down_lem (suc n) a b m j p q below =
    let m' : Memory = update m (add32 b n) (m (add32 a n)) in
    let top_a : sub32 (add32 a (suc n)) 1 ≡ add32 a n = omega arith in
    let top_b : sub32 (add32 b (suc n)) 1 ≡ add32 b n = omega arith in
    rw (top_a, top_b) (movsb_down_lem n a b m' j (omega arith) (omega arith) below ∙ ground arith)

-- memmove leaves at each place from `dest` on what stood at the same place from `src` on, and all
-- other bytes as they were, whether the two ranges overlap or not.
pub memmove_lem :
    (dest src n : ℕ) (m : Memory) (j : ℕ)
    → src + n < 2 ^ 32
    → dest + n < 2 ^ 32
    → memmove dest src n m j
      ≡ (if leb dest j && ltb j (dest + n) then m (src + (j - dest)) else m j)
unfolding memmove
memmove_lem dest src n m j p q =
    if_intro (λ (r : Memory). r j ≡ copied n src dest m j) (leb dest src)
      (λ up. movsb_lem n src dest m j p q (inl (ground arith)))
      (λ down. movsb_down_lem n src dest m j p q (ground arith))

-- Moving a word moves its four bytes.
pub load-store :
    (a b : ℕ) (m : Memory) (j : ℕ)
    → ((i : ℕ) → m i < 256)
    → a + 4 < 2 ^ 32
    → b + 4 < 2 ^ 32
    → store32 b (load32 a m) m j ≡ copied 4 a b m j
unfolding store32 store16 load32 update
load-store a b m j bytes p q =
    ground (arith, bytes a, bytes (add32 a 1), bytes (add32 a 2), bytes (add32 a 3))
