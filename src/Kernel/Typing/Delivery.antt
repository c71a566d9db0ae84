-- ===== src/Kernel/Typing/Delivery.antt =====
-- Where the characters of typed keys stand in the keyboard buffer, and what they can be.
use illinix_os.Prelude.{
  ℕ, zero, suc, ◌+◌, ◌<◌, ◌≡◌, ◌∙◌, refl, ap, subst, Bool, true, false, ◌&&◌, ◌||◌, not, some, List,
  [], ◌∷◌, ◌++◌, map, arith, ◌==◌, update, update_self, update_ne, length, get_elem?,
}
use illinix_os.Prelude.Bits.{passes, passes_lem}
use illinix_os.Terminal.Args.{IsPlain}
use illinix_os.Kernel.Typing.Handler.{table_at}
use illinix_os.Kernel.Typing.Characters.{with_modifiers, counterpart}
use illinix_os.Kernel.Typing.Text.{is_text_key, character, text_key_lem}
use illinix_os.Kernel.Typing.Typed.{all_types, put_text}

-- Where the characters of a text stand in the buffer.
put_text-before : (cs : List ℕ) (i : ℕ) (row : ℕ → ℕ) (j : ℕ) → j < i → put_text i cs row j ≡ row j
unfolding put_text
put_text-before [] i row j h = refl
put_text-before (c ∷ cs) i row j h =
    put_text-before cs (suc i) (update row i c) j (omega arith) ∙ update_ne row i j c (omega arith)

pub put_text-at :
    (cs : List ℕ) (i : ℕ) (row : ℕ → ℕ) (j c : ℕ)
    → get_elem? cs j ≡ some c
    → put_text i cs row (i + j) ≡ c
unfolding put_text
put_text-at [] i row j c h = absurd (ground arith)
put_text-at (b ∷ cs) i row zero c h =
    subst (λ x. put_text (suc i) cs (update row i b) x ≡ c) (omega arith)
      (put_text-before cs (suc i) (update row i b) i (omega arith)
        ∙ (update_self row i b ∙ ground arith))
put_text-at (b ∷ cs) i row (suc j) c h =
    subst (λ x. put_text (suc i) cs (update row i b) x ≡ c) (omega arith)
      (put_text-at cs (suc i) (update row i b) j c h)

pub get_elem?-map :
    (f : ℕ → ℕ) (xs : List ℕ) (j x : ℕ)
    → get_elem? xs j ≡ some x
    → get_elem? (map f xs) j ≡ some (f x)
get_elem?-map f [] j x h = absurd (ground arith)
get_elem?-map f (y ∷ xs) zero x h = ground arith
get_elem?-map f (y ∷ xs) (suc j) x h = get_elem?-map f xs j x h

pub get_elem?-left :
    (xs ys : List ℕ) (j x : ℕ) → get_elem? xs j ≡ some x → get_elem? (xs ++ ys) j ≡ some x
get_elem?-left [] ys j x h = absurd (ground arith)
get_elem?-left (y ∷ xs) ys zero x h = h
get_elem?-left (y ∷ xs) ys (suc j) x h = get_elem?-left xs ys j x h

pub get_elem?-right :
    (xs ys : List ℕ) (j : ℕ) → get_elem? (xs ++ ys) (length xs + j) ≡ get_elem? ys j
get_elem?-right [] ys j = let e : 0 + j ≡ j = omega arith in ap (get_elem? ys) e
get_elem?-right (x ∷ xs) ys j =
    let e : suc (length xs + j) ≡ suc (length xs) + j = omega arith in
    subst (λ n. get_elem? (x ∷ (xs ++ ys)) n ≡ get_elem? ys j) e (get_elem?-right xs ys j)

pub all_types-at :
    (test : ℕ → Bool) (xs : List ℕ) (j : ℕ)
    → all_types test xs ≡ true
    → j < length xs
    → (x : ℕ) × (get_elem? xs j ≡ some x) × (test x ≡ true)
unfolding all_types
all_types-at test [] j h low = absurd (omega arith)
all_types-at test (x ∷ xs) zero h low = (x, refl, ground arith)
all_types-at test (x ∷ xs) (suc j) h low = all_types-at test xs j (ground arith) (omega arith)

pub get_elem?-types :
    (test : ℕ → Bool) (xs : List ℕ) (j x : ℕ)
    → all_types test xs ≡ true
    → get_elem? xs j ≡ some x
    → (j < length xs) × (test x ≡ true)
unfolding all_types
get_elem?-types test [] j x h at = absurd (ground arith)
get_elem?-types test (y ∷ xs) zero x h at =
    let same : y ≡ x = ground arith in
    let passed : test y ≡ true = ground arith in
    (omega arith, subst (λ z. test z ≡ true) same passed)
get_elem?-types test (y ∷ xs) (suc j) x h at =
    let (low, passed) = get_elem?-types test xs j x (ground arith) at in (omega arith, passed)

-- The characters of the text keys: none ends a command, an argument or a line.
plain_char : ℕ → Bool
plain_char c = not (c == 0) && (not (c == 10) && not (c == 32))

IsPlain-parts : (c : ℕ) → plain_char c ≡ true → IsPlain c
unfolding plain_char
IsPlain-parts c h = (ground arith, ground arith, ground arith)

check_plain :
    (cap shift : Bool)
    → passes (λ key. not (is_text_key key) || plain_char (character cap shift key)) 54 ≡ true
unfolding passes is_text_key plain_char table_at with_modifiers counterpart
check_plain true true = refl
check_plain true false = refl
check_plain false true = refl
check_plain false false = refl

pub character-IsPlain :
    (cap shift : Bool) (key : ℕ) → is_text_key key ≡ true → IsPlain (character cap shift key)
character-IsPlain cap shift key h = IsPlain-parts _ (
    kept (is_text_key key) _ h (
      passes_lem (λ i. not (is_text_key i) || plain_char (character cap shift i)) 54 key
        (text_key_lem key h).0 (check_plain cap shift)))
  where
    kept : (a b : Bool) → a ≡ true → (not a || b) ≡ true → b ≡ true
    kept a b h g = ground arith
