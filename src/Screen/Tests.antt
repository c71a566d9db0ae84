-- ===== src/Screen/Tests.antt =====
-- The screen on concrete characters.
use illinix_os.Prelude.{◌≡◌, arith}
use illinix_os.Screen.{Console, scroll, Screen, putc, putc_kb}
use illinix_os.Screen.Bounds.{IsScreen, putc-IsScreen}
use illinix_os.Prelude.{refl, false}
use illinix_os.Prelude.Text.{bytes_of}
use illinix_os.Screen.Print.{has_percent}
use illinix_os.Screen.Scroll.{moved, blanked, scroll_lem}

-- The cursor of each terminal at the end of the last row.
abbrev full : Screen
full = record {
  vmem = λ a. 0;
  screen_x = λ t. 79;
  screen_y = λ t. 24;
  og_x = λ t. 0;
  next_row_flag = λ t. 0;
  cursor = 0;
}

full-IsScreen : IsScreen full
full-IsScreen t = record { column = omega arith; row = omega arith }

putc-IsScreen_example : IsScreen (putc 0 1 65 full) × IsScreen (putc_kb 0 65 full)
putc-IsScreen_example = putc-IsScreen 0 1 65 full full-IsScreen

abbrev corner : Console
corner = record { mem = λ a. a; x = 79; y = 24 }

scroll_lem_example :
    scroll 0 corner ≡ record { mem = blanked 3840 160 (moved 0 3840 corner.mem); x = 0; y = 24 }
scroll_lem_example = scroll_lem 0 corner

plain_text : has_percent (bytes_of "hello") ≡ false
unfolding has_percent
plain_text = refl
