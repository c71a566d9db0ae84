-- ===== src/Programs/Support.antt =====
-- The comparisons of strings in syscalls/ece391support.c, which programs use. A string is the list of
-- its bytes, followed by zeros.
use illinix_os.Prelude.{
  ℕ, zero, suc, ◌<◌, ◌≡◌, ◌↔◌, refl, List, [], ◌∷◌, take, arith, ◌==◌, if◌then◌else◌,
}
use illinix_os.Prelude.Word.{sub32}

unfoldable pub ece391_strcmp : List ℕ → List ℕ → ℕ
ece391_strcmp [] [] = 0
ece391_strcmp [] (d ∷ t) = if d == 0 then 0 else sub32 0 d
ece391_strcmp (c ∷ s) [] = if c == 0 then 0 else sub32 c 0
ece391_strcmp (c ∷ s) (d ∷ t) =
    let rest = ece391_strcmp s t in if c == d then if c == 0 then 0 else rest else sub32 c d

unfoldable pub ece391_strncmp : List ℕ → List ℕ → ℕ → ℕ
ece391_strncmp s t zero = 0
ece391_strncmp [] [] (suc n) = 0
ece391_strncmp [] (d ∷ t) (suc n) = if d == 0 then 0 else sub32 0 d
ece391_strncmp (c ∷ s) [] (suc n) = if c == 0 then 0 else sub32 c 0
ece391_strncmp (c ∷ s) (d ∷ t) (suc n) =
    let rest = ece391_strncmp s t n in
    if c == d then if c == 0 then 0 else if n == 0 then 0 else rest else sub32 c d

-- The bytes before the first NUL.
unfoldable pub text : List ℕ → List ℕ
text [] = []
text (c ∷ s) = if c == 0 then [] else c ∷ text s

unfoldable pub AreBytes : List ℕ → Type 0
AreBytes [] = 0 < 1
AreBytes (c ∷ s) = (c < 256) × AreBytes s

stops_at_zero :
    (s t : List ℕ) (n : ℕ) → (if n == 0 then 0 else ece391_strncmp s t n) ≡ ece391_strncmp s t n
unfolding ece391_strncmp
stops_at_zero s t zero = refl
stops_at_zero s t (suc n) = ground arith

-- ece391_strncmp compares as ece391_strcmp does on the first `n` bytes.
pub ece391_strncmp-take :
    (s t : List ℕ) (n : ℕ) → ece391_strncmp s t n ≡ ece391_strcmp (take n s) (take n t)
unfolding ece391_strncmp ece391_strcmp
ece391_strncmp-take s t zero = refl
ece391_strncmp-take [] [] (suc n) = refl
ece391_strncmp-take [] (d ∷ t) (suc n) = refl
ece391_strncmp-take (c ∷ s) [] (suc n) = refl
ece391_strncmp-take (c ∷ s) (d ∷ t) (suc n) =
    ground (arith, stops_at_zero s t n, ece391_strncmp-take s t n)

equal-text : (s t : List ℕ) → AreBytes s → AreBytes t → ece391_strcmp s t ≡ 0 → text s ≡ text t
unfolding ece391_strcmp text AreBytes
equal-text [] [] p q h = refl
equal-text [] (d ∷ t) p q h = ground (arith, q.0)
equal-text (c ∷ s) [] p q h = ground (arith, p.0)
equal-text (c ∷ s) (d ∷ t) p q h = ground (arith, p.0, q.0, equal-text s t p.1 q.1)

text-equal : (s t : List ℕ) → AreBytes s → AreBytes t → text s ≡ text t → ece391_strcmp s t ≡ 0
unfolding ece391_strcmp text AreBytes
text-equal [] [] p q h = refl
text-equal [] (d ∷ t) p q h = ground (arith, q.0)
text-equal (c ∷ s) [] p q h = ground (arith, p.0)
text-equal (c ∷ s) (d ∷ t) p q h = ground (arith, p.0, q.0, text-equal s t p.1 q.1)

-- Two strings of bytes compare as equal exactly if they are the same up to the first NUL.
pub ece391_strcmp_zero_iff :
    (s t : List ℕ) → AreBytes s → AreBytes t → (ece391_strcmp s t ≡ 0) ↔ (text s ≡ text t)
ece391_strcmp_zero_iff s t p q = (equal-text s t p q, text-equal s t p q)
