-- ===== src/Terminal/Args.antt =====
-- The argument that sys_getargs finds after t_read has taken a command line.
use illinix_os.Prelude.{
  ℕ, zero, suc, ◌+◌, ◌-◌, ◌^◌, ◌≤◌, ◌<◌, ◌≡◌, ◌≢◌, ◌⊎◌, inl, inr, ap, ◌∙◌, fun_ext, true, false,
  ◌&&◌, some, [], ◌∷◌, arith, ℕ_discrete, ltb, leb, ◌==◌, if◌then◌else◌, ◌||◌, update, fill,
  fill_lem,
}
use illinix_os.Prelude.Word.{rounds_to-eq}
use illinix_os.Terminal.{
  Buffer, find_args, copy_args, copy_out, pass_rounds, sys_getargs, LineRead, t_read,
}
use illinix_os.Terminal.Line.{rounds-lt, line_in, cut_space, t_read-line}

-- The first character that ends a command, at `e`, is a space or a NUL, and no newline comes first.
find_args-end :
    (d n i e : ℕ) (args : Buffer)
    → i + d ≡ e
    → d < n
    → args e ≡ 0
    → ((k : ℕ) → k < e → args k ≢ 0)
    → ((k : ℕ) → k < e → args k ≢ 10)
    → ((k : ℕ) → k < e → args k ≢ 32)
    → find_args n i args ≡ some (suc e)
unfolding find_args
find_args-end d zero i e args s h nul a b c = absurd (omega arith)
find_args-end zero (suc n) i e args s h nul a b c =
    let same : e ≡ i = omega arith in let stop : args i ≡ 0 = rw same at nul in rw (same, stop)
find_args-end (suc d) (suc n) i e args s h nul a b c =
    ground
      (arith, find_args-end d n (suc i) e args (omega arith) (omega arith) nul a b c, a i, b i, c i)

-- The caller's buffer, with the characters from `i` up to the end `q` of the argument copied.
unfoldable pub arg_in : ℕ → ℕ → ℕ → Buffer → Buffer → Buffer
arg_in i q start args buf k =
    if leb i (start + k) && ltb (start + k) q then args (start + k) else buf k

arg_in-end : (q start : ℕ) (args buf : Buffer) → arg_in q q start args buf ≡ buf
unfolding arg_in
arg_in-end q start args buf = fun_ext (λ k. ground arith)

arg_in-step :
    (i q start : ℕ) (args buf : Buffer)
    → start ≤ i
    → i < q
    → arg_in (suc i) q start args (update buf (i - start) (args i)) ≡ arg_in i q start args buf
unfolding arg_in update
arg_in-step i q start args buf h m = fun_ext (λ k. ground arith)

copy_args-lem :
    (d n i q start : ℕ) (args buf : Buffer)
    → i + d ≡ q
    → d < n
    → start ≤ i
    → (args q == 0 || args q == 10) ≡ true
    → ((k : ℕ) → start ≤ k → k < q → (args k == 0 || args k == 10) ≡ false)
    → copy_args n i start args buf ≡ arg_in i q start args buf
unfolding copy_args
copy_args-lem d zero i q start args buf s h le nl a = absurd (omega arith)
copy_args-lem zero (suc n) i q start args buf s h le nl a =
    let same : i ≡ q = omega arith in rw (same, nl, arg_in-end q start args buf)
copy_args-lem (suc d) (suc n) i q start args buf s h le nl a =
    rw (a i le (omega arith), ← arg_in-step i q start args buf le (omega arith))
      (copy_args-lem d n (suc i) q start args _ (omega arith) (omega arith) (omega arith) nl a)

first_char : (c : ℕ) → (c == 0 || c == 10) ≡ false → (c == 0) ≡ false
first_char c h = ground arith

arg_in-inside :
    (start q : ℕ) (args buf : Buffer) (k : ℕ)
    → start + k < q
    → arg_in start q start args buf k ≡ args (start + k)
unfolding arg_in
arg_in-inside start q args buf k h = ground arith

arg_in-outside :
    (start q : ℕ) (args buf : Buffer) (k : ℕ)
    → q ≤ start + k
    → arg_in start q start args buf k ≡ buf k
unfolding arg_in
arg_in-outside start q args buf k h = ground arith

-- A command that ends at index `e` and an argument, not empty, that ends at `q`, both within the 128
-- bytes and the caller's buffer: sys_getargs returns 0 and puts the argument at the front of the
-- buffer, followed by NULs up to `nbytes`, and clears the 128 bytes of `get_args_buf`.
pub sys_getargs-arg :
    (buf args : Buffer) (nbytes e q : ℕ)
    → nbytes < 2 ^ 31
    → q < nbytes
    → q < 128
    → suc e < q
    → args e ≡ 0
    → ((k : ℕ) → k < e → args k ≢ 0)
    → ((k : ℕ) → k < e → args k ≢ 10)
    → ((k : ℕ) → k < e → args k ≢ 32)
    → (args q == 0 || args q == 10) ≡ true
    → ((k : ℕ) → suc e ≤ k → k < q → (args k == 0 || args k == 10) ≡ false)
    → (buf' : Buffer) × (sys_getargs (some buf) nbytes args ≡ (0, some buf', fill 128 0 0 args))
      × ((k : ℕ) → k < q - suc e → buf' k ≡ args (suc e + k))
      × ((k : ℕ) → q - suc e ≤ k → k < nbytes → buf' k ≡ 0)
unfolding sys_getargs copy_out
sys_getargs-arg buf args nbytes e q w h room pos nul a b c stop inside =
    let n : ℕ = pass_rounds nbytes in
    let in_room : q < n = rounds-lt nbytes q w h room in
    let first : (args (suc e) == 0) ≡ false =
      first_char (args (suc e)) (inside (suc e) (omega arith) pos) in
    (
      arg_in (suc e) q (suc e) args (fill nbytes 0 0 buf),
      rw (
        find_args-end e n 0 e args (omega arith) (omega arith) nul a b c,
        rounds_to-eq nbytes w,
        first,
        sys_getargs,
        copy_args-lem (q - suc e) (n - suc e) (suc e) q (suc e) args (fill nbytes 0 0 buf)
            (omega arith) (omega arith) (omega arith) stop inside,
      ),
      λ k small. arg_in-inside (suc e) q args (fill nbytes 0 0 buf) k (omega arith),
      λ k large fits.
          arg_in-outside (suc e) q args (fill nbytes 0 0 buf) k (omega arith)
          ∙ rw (fill_lem nbytes 0 0 buf k) (ground arith),
    )

-- `get_args_buf` after t_read has taken a line that ends at `q`.
abbrev typed : ℕ → Buffer → Buffer → Buffer → Buffer
typed q row line args k = if ltb k 128 then line_in 0 q row line k else args k

typed-at :
    (q : ℕ) (row line args : Buffer) (k : ℕ)
    → k ≤ q
    → q < 128
    → typed q row line args k ≡ cut_space (row k)
unfolding line_in
typed-at q row line args k h room = ground arith

-- Neither a NUL, a newline nor a space.
abbrev pub IsPlain : ℕ → Type 0
IsPlain c = (c ≢ 0) × (c ≢ 10) × (c ≢ 32)

cut_plain : (c : ℕ) → IsPlain c → cut_space c ≡ c
unfolding cut_space
cut_plain c (a, b, d) = ground arith

cut_blank : (c : ℕ) → c ≡ 32 → cut_space c ≡ 0
unfolding cut_space
cut_blank c e = ground arith

cut_newline : (d c : ℕ) → c ≡ 10 → d ≡ cut_space c → (d == 0 || d == 10) ≡ true
unfolding cut_space
cut_newline d c e f = ground arith

plain_inside : (c : ℕ) → IsPlain c → (c == 0 || c == 10) ≡ false
plain_inside c (a, b, d) = ground arith

typed-plain :
    (q e : ℕ) (row line args : Buffer)
    → ((k : ℕ) → k < q → k ≢ e → IsPlain (row k))
    → (k : ℕ) → k < q
    → q < 128
    → k ≢ e
    → typed q row line args k ≡ row k
typed-plain q e row line args chars k small room other =
    typed-at q row line args k (omega arith) room ∙ cut_plain (row k) (chars k small other)

space_or_IsPlain :
    (k e : ℕ) (row : Buffer)
    → row e ≡ 32
    → (k ≢ e → IsPlain (row k))
    → (row k ≡ 32) ⊎ IsPlain (row k)
space_or_IsPlain k e row space chars = elim (ℕ_discrete k e) [
  | yes same ↦ inl (ap row same ∙ space)
  | no other ↦ inr (chars other)
]

not_newline : (c : ℕ) → (c ≡ 32) ⊎ IsPlain c → c ≢ 10
not_newline c (inl e) f = omega arith
not_newline c (inr (a, b, d)) f = b f

-- The line that a program's caller types reaches the program's sys_getargs: with a command of `e`
-- characters, one space, and an argument free of spaces up to the newline at `q`, the argument is
-- what comes back if the program's buffer is longer than the whole line, `q < nbytes < 2 ^ 31`,
-- though t_read has put NULs for the spaces.
pub typed_argument :
    (row line args : Buffer) (nbytes e q : ℕ) (buf : Buffer)
    → nbytes < 2 ^ 31
    → q < nbytes
    → q < 128
    → suc e < q
    → row e ≡ 32
    → row q ≡ 10
    → ((k : ℕ) → k < q → k ≢ e → IsPlain (row k))
    → (r : LineRead) × (buf' : Buffer) × (t_read ((row, 0) ∷ []) 128 line args ≡ some r)
      × ((sys_getargs (some buf) nbytes r.get_args_buf).0 ≡ 0)
      × ((sys_getargs (some buf) nbytes r.get_args_buf).1 ≡ some buf')
      × ((k : ℕ) → k < q - suc e → buf' k ≡ row (suc e + k))
      × (buf' (q - suc e) ≡ 0)
typed_argument row line args nbytes e q buf w h room pos space nl chars =
    let (buf', done, copied, ended) =
      sys_getargs-arg buf (typed q row line args) nbytes e q w h room pos
        (typed-at q row line args e (omega arith) room ∙ cut_blank (row e) space)
        (λ k small. (plain k (omega arith) (omega arith)).0)
        (λ k small. (plain k (omega arith) (omega arith)).1)
        (λ k small. (plain k (omega arith) (omega arith)).2)
        (cut_newline (typed q row line args q) (row q) nl
          (typed-at q row line args q (omega arith) room))
        (λ k big small. plain_inside (typed q row line args k) (plain k small (omega arith))) in
    (
      _,
      buf',
      t_read-line row line args [] 128 q (omega arith) (omega arith) room nl no_newline,
      ap (λ t. t.0) done,
      ap (λ t. t.1) done,
      λ k small.
          copied k small
          ∙ typed-plain q e row line args chars (suc e + k) (omega arith) room (omega arith),
      ended (q - suc e) (omega arith) (omega arith),
    )
  where
    plain : (k : ℕ) → k < q → k ≢ e → IsPlain (typed q row line args k)
    plain k small other =
        rw (typed-plain q e row line args chars k small room other) (chars k small other)

    no_newline : (k : ℕ) → k < q → row k ≢ 10
    no_newline k small = not_newline (row k) (space_or_IsPlain k e row space (chars k small))
