-- ===== src/Keyboard.antt =====
-- zeos/devices.c: the circular buffer of the keyboard. Waking readers up is in `Sched`.
use Prim.Native.Nat.{bit_and}
use zeos_soa.Prelude.{
  ℕ, zero, suc, ◌+◌, ◌-◌, Bool, true, false, List, [], ◌∷◌, ◌==◌, leb, if◌then◌else◌, update,
}
pub mod Index
pub mod Queue

-- `KEYBOARD_BUF_SIZE`
abbrev pub keyboard_buf_size : ℕ
keyboard_buf_size = 256

-- `KBD_MASK`
abbrev pub kbd_mask : ℕ
kbd_mask = keyboard_buf_size - 1

-- The globals `kbd_buf`, `kbd_head`, `kbd_tail` and `kbd_count`. A character is its code.
pub record Keyboard : Type 0 where
  pub buf : ℕ → ℕ
  pub head : ℕ
  pub tail : ℕ
  pub count : ℕ

-- `(i + 1) & KBD_MASK`
unfoldable pub next_index : ℕ → ℕ
next_index i = bit_and (i + 1) kbd_mask

-- The first part of `kbd_buf_write`: whether the character was stored, and the buffer.
unfoldable pub store_char : Keyboard → ℕ → Bool × Keyboard
store_char k c = if leb keyboard_buf_size k.count then (false, k) else (
  true,
  record k { buf = update k.buf k.head c; head = next_index k.head; count = k.count + 1 },
)

-- The loop of `kbd_buf_read`, with the characters that `dst` still has room for.
unfoldable pub read_loop : (room : ℕ) → Keyboard → List ℕ × Keyboard
read_loop zero k = ([], k)
read_loop (suc n) k =
    let (cs, k') = read_loop n (record k { tail = next_index k.tail; count = k.count - 1 }) in
    if k.count == 0 then ([], k) else (k.buf k.tail ∷ cs, k')

-- The characters that `kbd_buf_read` copies to `dst`, whose number it returns.
unfoldable pub kbd_buf_read : Keyboard → ℕ → List ℕ × Keyboard
kbd_buf_read k n = read_loop n k

unfoldable pub kbd_buf_flush : Keyboard → Keyboard
kbd_buf_flush k = record k { head = 0; tail = 0; count = 0 }
