-- ===== src/Programs/Output.antt =====
-- A program whose standard output is open writes to the screen.
use illinix_os.Prelude.{
  ℕ, ◌≤◌, ◌<◌, ◌^◌, ◌≡◌, ◌≢◌, ◌∙◌, refl, ap, sym, some, arith, update_self, update_ne, eq_false,
}
use illinix_os.Prelude.Word.{rounds_to-eq}
use illinix_os.FileSys.Data.{Buffer}
use illinix_os.Screen.{Screen}
use illinix_os.Terminal.{write_chars, t_write}
use illinix_os.Kernel.{Kernel, Descriptor, terminal, descriptor, current, set_descriptor}
use illinix_os.Kernel.Syscalls.{returned, sys_write, call_write}
use illinix_os.Kernel.Syscalls.Table.{set_descriptor_lem}

-- Standard output.
pub record HasOutput (k : Kernel) : Type 0 where
  pub used : (descriptor k 1).flags ≢ 0
  pub writes : (descriptor k 1).ops.write_op ≡ terminal

pub sys_write-output :
    (k : Kernel) (buf : Buffer) (nbytes : ℕ)
    → HasOutput k
    → nbytes < 2 ^ 31
    → sys_write k 1 (some buf) nbytes
      ≡ returned (
        nbytes,
        record k {
          screen = write_chars nbytes 0 k.displayed_terminal k.scheduled_terminal buf k.screen;
        },
      )
unfolding sys_write call_write t_write
sys_write-output k buf nbytes v small =
    rw (eq_false v.used, v.writes, rounds_to-eq nbytes small) refl

pub with_screen-HasOutput :
    (k : Kernel) (s : Screen) → HasOutput k → HasOutput (record k { screen = s })
with_screen-HasOutput k s v = record { used = v.used; writes = v.writes }

pub descriptor-set_descriptor :
    (k : Kernel) (fd : ℕ) (e : Descriptor) → descriptor (set_descriptor k fd e) fd ≡ e
descriptor-set_descriptor k fd e =
    ap (λ f. f fd) (set_descriptor_lem k fd e) ∙ update_self (current k).fd_entry fd e

pub set_descriptor-HasOutput :
    (k : Kernel) (fd : ℕ) (e : Descriptor)
    → 2 ≤ fd
    → HasOutput k
    → HasOutput (set_descriptor k fd e)
set_descriptor-HasOutput k fd e from_two v =
    let other : descriptor (set_descriptor k fd e) 1 ≡ descriptor k 1 =
      ap (λ f. f 1) (set_descriptor_lem k fd e)
      ∙ update_ne (current k).fd_entry fd 1 e (omega (arith, from_two)) in
    record {
      used = λ h. v.used (ap (λ (q : Descriptor). q.flags) (sym other) ∙ h);
      writes = ap (λ (q : Descriptor). q.ops.write_op) other ∙ v.writes;
    }
