-- ===== src/Kernel/Typing/Typed.antt =====
-- A line typed at the keyboard, from the scan codes to the program that reads it.
use illinix_os.Prelude.{
  ℕ, suc, ◌+◌, ◌≤◌, ◌≡◌, subst, Bool, true, ◌&&◌, List, [], ◌∷◌, map, arith, update, length,
}
use illinix_os.Kernel.{Kernel}
use illinix_os.Kernel.Typing.Handler.{kb_handler}
use illinix_os.Kernel.Typing.Reading.{Line}
use illinix_os.Kernel.Typing.Text.{line_char, is_line_key, typed_key-Line}

-- The keys of a list, one after the other.
unfoldable pub press_all : ℕ → List ℕ → Kernel → Kernel
press_all beyond [] k = k
press_all beyond (key ∷ keys) k = press_all beyond keys (kb_handler beyond key k)

-- Every key of the list passes the test.
unfoldable pub all_types : (ℕ → Bool) → List ℕ → Bool
all_types test [] = true
all_types test (key ∷ keys) = test key && all_types test keys

-- A buffer into which characters have been put from index `i` on.
unfoldable pub put_text : ℕ → List ℕ → (ℕ → ℕ) → ℕ → ℕ
put_text i [] row = row
put_text i (c ∷ cs) row = put_text (suc i) cs (update row i c)

-- Text keys put their characters into the line of the terminal that reads, in order.
pub press_all-Line :
    (beyond : ℕ) (keys : List ℕ) (d i : ℕ) (row : ℕ → ℕ) (cap shift : Bool) (k : Kernel)
    → all_types is_line_key keys ≡ true
    → i + length keys ≤ 127
    → Line d cap shift i row k
    → Line d cap shift
        (i + length keys)
        (put_text i (map (line_char cap shift) keys) row)
        (press_all beyond keys k)
unfolding press_all put_text all_types
press_all-Line beyond [] d i row cap shift k text room l =
    subst (λ n. Line d cap shift n row k) (omega arith) l
press_all-Line beyond (key ∷ keys) d i row cap shift k text room l =
    let first = typed_key-Line beyond key d i row cap shift k (ground arith) (omega arith) l in
    let rest =
      press_all-Line beyond keys d (suc i) _ cap shift _ (ground arith) (omega arith) first in
    subst
      (λ n.
        Line d cap shift n (put_text i (map (line_char cap shift) (key ∷ keys)) row)
          (press_all beyond (key ∷ keys) k))
      (omega arith) rest
