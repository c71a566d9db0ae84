-- ===== src/Kernel/Typing/Characters.antt =====
-- Which character a key stands for, described without the table's second half.
use illinix_os.Prelude.{
  ℕ, ◌-◌, ◌<◌, ◌≡◌, refl, ap, Bool, true, false, ◌&&◌, not, Option, none, some, List, ◌∷◌, arith,
  leb, ◌==◌, if◌then◌else◌, ==_iff,
}
use illinix_os.Prelude.Bits.{passes, passes_lem}
use illinix_os.Prelude.Text.{bytes_of}
use illinix_os.Kernel.Typing.Handler.{table_at, is_symbol, pick}

-- The other character on a key that bears two.
unfoldable pub counterpart : List ℕ → List ℕ → ℕ → ℕ
counterpart (a ∷ lower) (b ∷ upper) c = if c == a then b else counterpart lower upper c
counterpart _ _ c = c

abbrev pub shifted : ℕ → ℕ
shifted c = counterpart (bytes_of "1234567890-=[]\\;',./") (bytes_of "!@#$%^&*()_+{}|:\"<>?") c

-- A letter, or the backquote, whose capital is the tilde.
abbrev pub is_cased : ℕ → Bool
is_cased c = leb 96 c && leb c 122

abbrev pub capital : ℕ → ℕ
capital c = if c == 96 then 126 else c - 32

abbrev pub differ : Bool → Bool → Bool
differ true b = not b
differ false b = b

-- What `c`, the plain character of a key, becomes.
unfoldable pub with_modifiers : Bool → Bool → ℕ → ℕ
unfolding counterpart
with_modifiers cap shift c =
    if is_cased c
    then (if differ cap shift then capital c else c)
    else if shift
    then shifted c
    else c

-- A key stands for nothing if it has no plain character.
unfoldable pub described : Bool → Bool → ℕ → Option ℕ
unfolding with_modifiers
described cap shift c = if c == 0 then none else some (with_modifiers cap shift c)

same_choice : Option ℕ → Option ℕ → Bool
same_choice none none = true
same_choice (some a) (some b) = a == b
same_choice _ _ = false

same_choice_lem : (a b : Option ℕ) → same_choice a b ≡ true → a ≡ b
unfolding same_choice
same_choice_lem none none h = refl
same_choice_lem none (some b) h = absurd (ground arith)
same_choice_lem (some a) none h = absurd (ground arith)
same_choice_lem (some a) (some b) h = ap some ((==_iff a b).0 h)

check_keys :
    (beyond : ℕ) (cap shift : Bool)
    → passes
        (λ key. same_choice (pick beyond cap shift key) (described cap shift (table_at 0 key)))
        54
      ≡ true
unfolding passes pick described same_choice table_at is_symbol
check_keys beyond true true = refl
check_keys beyond true false = refl
check_keys beyond false true = refl
check_keys beyond false false = refl

-- For the keys below 54, caps lock and shift choose the character as follows: caps lock or shift,
-- but not both, gives the capital of a letter, and the tilde for the backquote, which caps lock
-- thus changes although it is a symbol; for every other character shift alone decides; and a key
-- without a plain character gives none in any state.
pub pick_lem :
    (beyond key : ℕ) (cap shift : Bool)
    → key < 54
    → pick beyond cap shift key ≡ described cap shift (table_at 0 key)
pick_lem beyond key cap shift h = same_choice_lem _ _ (
    passes_lem (λ i. same_choice (pick beyond cap shift i) (described cap shift (table_at 0 i))) 54
      key h (check_keys beyond cap shift))
