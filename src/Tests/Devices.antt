-- ===== src/Tests/Devices.antt =====
-- The theorems on the screen, on the printers of numbers and on the calls for the console, applied.
use zeos_soa.Prelude.{some, ℕ, ◌≡◌, refl, true, [], ◌∷◌, arith}
use zeos_soa.Prelude.Int.{ℤ, pos, ltb_ℤ}
use zeos_soa.Paging.{l_user_start}
use zeos_soa.Keyboard.{Keyboard}
use zeos_soa.Keyboard.Queue.{IsValid, contents}
use zeos_soa.Screen.{Screen, printk}
use zeos_soa.Screen.Cursor.{OnScreen, printk_safe}
use zeos_soa.Access.{access_ok}
use zeos_soa.Digits.{Chars}
use zeos_soa.Kernel.{Kernel}
use zeos_soa.Sched.Switch.{nodes}
use zeos_soa.Calls.{is_mapped}
use zeos_soa.Calls.Console.{can_copy, user_bytes, sys_write, sys_read, done, waits, set_user_bytes}
use zeos_soa.Calls.Console.Write.{printed, sys_write-printed, sys_write-refused}
use zeos_soa.Calls.Console.Read.{sys_read-delivers, CanWait, Asleep, sys_read-waits}
use zeos_soa.Tests.Kernels.{kernel, bob, carol, erin, shares_none_sound}

abbrev screen : Screen
screen = record kernel.screen { x = 79; y = 24 }

screen-OnScreen : OnScreen screen
screen-OnScreen = record { column = omega arith; row = omega arith }

printk_safe_example :
    OnScreen (printk screen (b'h' ∷ b'\n' ∷ b'i' ∷ []))
    × ((printk screen (b'h' ∷ b'\n' ∷ b'i' ∷ [])).cells 2000 ≡ screen.cells 2000)
printk_safe_example =
    printk_safe screen (b'h' ∷ b'\n' ∷ b'i' ∷ []) 2000 screen-OnScreen (omega arith)

abbrev blank : Chars
blank i = 0

-- The first byte of the user pages is readable and writable.
readable : (kind : ℕ) → access_ok kind l_user_start 2 ≡ true
unfolding access_ok
readable kind = ground arith

sys_write-printed_example :
    sys_write kernel (pos 1) l_user_start (pos 2)
    ≡ some (pos 2, printed kernel (user_bytes kernel l_user_start 2))
unfolding can_copy is_mapped
sys_write-printed_example = sys_write-printed kernel l_user_start 2 (omega arith) (readable 0)

sys_write-refused_example :
    (r : ℤ) × (sys_write kernel (pos 1) 0 (pos 2) ≡ some (r, kernel)) × (ltb_ℤ r (pos 0) ≡ true)
sys_write-refused_example = sys_write-refused kernel (pos 1) 0 (pos 2) refl

sys_read-delivers_example :
    (kb : Keyboard) × (sys_read kernel l_user_start (pos 2)
      ≡ done (pos 1) (set_user_bytes (record kernel { keyboard = kb }) l_user_start (b'k' ∷ [])))
    × (contents kb ≡ [])
    × IsValid kb
unfolding can_copy is_mapped
sys_read-delivers_example =
    sys_read-delivers kernel l_user_start 2 (omega arith) (omega arith) (readable 1)
      (record {
        head_in = omega arith;
        tail_in = omega arith;
        count_in = omega arith;
        behind = refl;
      })
      (λ e. ground (arith, e))

-- No character is there.
abbrev silent : Kernel
silent = record kernel { keyboard = record (kernel.keyboard) { head = 0; count = 0 } }

silent-CanWait : CanWait silent (erin ∷ []) bob (carol ∷ [])
silent-CanWait = record {
  waiting = record { seg = (refl, refl, (refl, refl)); distinct = (refl, (refl, tt)) };
  ready = record {
    seg = (refl, refl, (refl, refl, (refl, refl)));
    distinct = (refl, (refl, (refl, tt)));
  };
  detached = record { no_next = refl; no_prev = refl };
  head_given = omega arith;
  other_pid = refl;
  apart = shares_none_sound (100 ∷ nodes (bob ∷ carol ∷ [])) (300 ∷ nodes (erin ∷ [])) refl;
  out_waiting = refl;
  out_ready = refl;
}

sys_read-waits_example :
    (k' : Kernel) × (sys_read silent l_user_start (pos 2) ≡ waits 2 k')
    × Asleep silent 2 (erin ∷ []) bob (carol ∷ []) k'
sys_read-waits_example =
    sys_read-waits silent l_user_start 2 (erin ∷ []) bob (carol ∷ []) (omega arith) (omega arith)
      (readable 1)
      (record {
        head_in = omega arith;
        tail_in = omega arith;
        count_in = omega arith;
        behind = refl;
      })
      refl silent-CanWait
