-- ===== src/Strings/Memory.antt =====
-- memset, memset_word, memset_dword, memcpy and memmove of student-distrib/lib.c, which are written in
-- assembly. The memory is the function from an address to its byte; the segments start at 0.
use illinix_os.Prelude.{ℕ, zero, suc, ◌+◌, ◌*◌, ◌/◌, ◌%◌, bit_or, leb, ◌==◌, if◌then◌else◌, update}
use illinix_os.Prelude.Word.{add32, sub32}

abbrev pub Memory : Type 0
Memory = ℕ → ℕ

-- The words at an address, of 2 and of 4 bytes.
unfoldable pub store16 : ℕ → ℕ → Memory → Memory
unfolding update
store16 a v m = update (update m a (v % 256)) (add32 a 1) (v / 256 % 256)

unfoldable pub store32 : ℕ → ℕ → Memory → Memory
unfolding store16
store32 a v m = store16 (add32 a 2) (v / 65536) (store16 a v m)

unfoldable pub load32 : ℕ → Memory → ℕ
load32 a m = m a + 256 * m (add32 a 1) + 65536 * m (add32 a 2) + 16777216 * m (add32 a 3)

-- `rep stosb`, `rep stosw` and `rep stosl`, upwards: `n` is %ecx and `edi` %edi. The first stands for
-- the loop of single bytes at `.memset_bottom` as well.
unfoldable pub stosb : ℕ → ℕ → ℕ → Memory → Memory
unfolding update
stosb zero edi al m = m
stosb (suc n) edi al m = stosb n (add32 edi 1) al (update m edi (al % 256))

unfoldable pub stosw : ℕ → ℕ → ℕ → Memory → Memory
unfolding store16
stosw zero edi eax m = m
stosw (suc n) edi eax m = stosw n (add32 edi 2) eax (store16 edi eax m)

unfoldable pub stosl : ℕ → ℕ → ℕ → Memory → Memory
unfolding store32
stosl zero edi eax m = m
stosl (suc n) edi eax m = stosl n (add32 edi 4) eax (store32 edi eax m)

-- From `.memset_aligned` on.
unfoldable pub memset_aligned : ℕ → ℕ → ℕ → Memory → Memory
unfolding stosb stosl
memset_aligned n edi eax m = stosb (n % 4) (add32 edi (4 * (n / 4))) eax (stosl (n / 4) edi eax m)

-- From `.memset_top` on.
unfoldable pub memset_top : ℕ → ℕ → ℕ → Memory → Memory
unfolding memset_aligned update
memset_top zero edi eax m = m
memset_top (suc n) edi eax m =
    let rest = memset_top n (add32 edi 1) eax (update m edi (eax % 256)) in
    if edi % 4 == 0 then memset_aligned (suc n) edi eax m else rest

-- `c << 24 | c << 16 | c << 8 | c`
abbrev pub four_bytes : ℕ → ℕ
four_bytes c = bit_or (bit_or (bit_or (c * 16777216) (c * 65536)) (c * 256)) c

unfoldable pub memset : ℕ → ℕ → ℕ → Memory → Memory
unfolding memset_top
memset s c n m = memset_top n s (four_bytes (c % 256)) m

unfoldable pub memset_word : ℕ → ℕ → ℕ → Memory → Memory
unfolding stosw
memset_word s c n m = stosw n s c m

unfoldable pub memset_dword : ℕ → ℕ → ℕ → Memory → Memory
unfolding stosl
memset_dword s c n m = stosl n s c m

-- `rep movsb` upwards and downwards, and `rep movsl` upwards.
unfoldable pub movsb : ℕ → ℕ → ℕ → Memory → Memory
unfolding update
movsb zero esi edi m = m
movsb (suc n) esi edi m = movsb n (add32 esi 1) (add32 edi 1) (update m edi (m esi))

unfoldable pub movsb_down : ℕ → ℕ → ℕ → Memory → Memory
unfolding update
movsb_down zero esi edi m = m
movsb_down (suc n) esi edi m = movsb_down n (sub32 esi 1) (sub32 edi 1) (update m edi (m esi))

unfoldable pub movsl : ℕ → ℕ → ℕ → Memory → Memory
unfolding store32 load32
movsl zero esi edi m = m
movsl (suc n) esi edi m = movsl n (add32 esi 4) (add32 edi 4) (store32 edi (load32 esi m) m)

-- From `.memcpy_aligned` on, and from `.memcpy_top` on.
unfoldable pub memcpy_aligned : ℕ → ℕ → ℕ → Memory → Memory
unfolding movsb movsl
memcpy_aligned n esi edi m =
    movsb (n % 4) (add32 esi (4 * (n / 4))) (add32 edi (4 * (n / 4))) (movsl (n / 4) esi edi m)

unfoldable pub memcpy_top : ℕ → ℕ → ℕ → Memory → Memory
unfolding memcpy_aligned update
memcpy_top zero esi edi m = m
memcpy_top (suc n) esi edi m =
    let rest = memcpy_top n (add32 esi 1) (add32 edi 1) (update m edi (m esi)) in
    if edi % 4 == 0 then memcpy_aligned (suc n) esi edi m else rest

unfoldable pub memcpy : ℕ → ℕ → ℕ → Memory → Memory
unfolding memcpy_top
memcpy dest src n m = memcpy_top n src dest m

unfoldable pub memmove : ℕ → ℕ → ℕ → Memory → Memory
unfolding movsb movsb_down
memmove dest src n m =
    if leb dest src
    then movsb n src dest m
    else movsb_down n (sub32 (add32 src n) 1) (sub32 (add32 dest n) 1) m
