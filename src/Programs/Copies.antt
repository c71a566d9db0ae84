-- ===== src/Programs/Copies.antt =====
-- cat writes the whole file to the screen, and ends.
use illinix_os.Prelude.{ℕ, zero, suc, ◌+◌, ◌*◌, ◌<◌, ◌≡◌, ◌∙◌, ap, sym, arith, dec_lt}
use illinix_os.FileSys.Data.{Buffer}
use illinix_os.Screen.{Screen}
use illinix_os.Terminal.{write_chars}
use illinix_os.Kernel.{Kernel, set_descriptor}
use illinix_os.Kernel.Syscalls.{Arrivals}
use illinix_os.Programs.{finished, cat_loop}
use illinix_os.Programs.Output.{HasOutput, with_screen-HasOutput}
use illinix_os.Programs.Round.{
  IsSource, left, ahead, piece_buf, read_state-HasOutput, read_state-IsSource, cat_loop-round,
  cat_loop-end, shorter, screen_after, read_state, written,
}

with_screen-IsSource :
    (k : Kernel) (fd : ℕ) (s : Screen) → IsSource k fd → IsSource (record k { screen = s }) fd
with_screen-IsSource k fd s v = record {
  from_two = v.from_two;
  to_seven = v.to_seven;
  used = v.used;
  reads = v.reads;
  file = v.file;
}

-- The loop of cat, on an open descriptor of a sound file and with standard output open, ends with
-- the value 0 in as many rounds as the rest of the file has blocks of 1024 bytes, and one more. It
-- has then written to the terminal, in order, every byte of the file from the descriptor's position
-- to the end, whatever was in its buffer.
pub cat_loop-writes :
    (n : ℕ) (a : Arrivals) (fd : ℕ) (buf : Buffer) (k : Kernel)
    → IsSource k fd
    → HasOutput k
    → left k fd + 1023 < 1024 * n
    → (k' : Kernel) × (cat_loop n a fd buf k ≡ finished 0 k')
      × (k'.screen
          ≡ write_chars
              (left k fd)
              0
              k.displayed_terminal
              k.scheduled_terminal
              (ahead k fd)
              k.screen)
unfolding set_descriptor write_chars
cat_loop-writes zero a fd buf k source output room = absurd (omega arith)
cat_loop-writes (suc n) a fd buf k source output room = elim (dec_lt 0 (left k fd)) [
  | yes more ↦
      let k2 = written k fd buf source output in
      let (k', ends, screen) =
        cat_loop-writes n a fd (piece_buf k fd buf source output) k2
          (with_screen-IsSource (read_state k fd buf source output) fd k2.screen
            (read_state-IsSource k fd buf source output))
          (with_screen-HasOutput (read_state k fd buf source output) k2.screen
            (read_state-HasOutput k fd buf source output))
          (shorter k fd buf source output n room more) in
      (
        k',
        cat_loop-round k fd buf source output n a more ∙ ends,
        screen ∙ screen_after k fd buf source output,
      )
  | no none_left ↦
      let done : left k fd ≡ 0 = omega arith in
      (
        read_state k fd buf source output,
        cat_loop-end k fd buf source output n a done,
        ap (λ m. write_chars m 0 k.displayed_terminal k.scheduled_terminal (ahead k fd) k.screen)
            (sym done),
      )
]
