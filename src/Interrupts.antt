-- ===== src/Interrupts.antt =====
-- zeos/interrupt.c: the keyboard interrupt and the page fault. The clock interrupt is in `Sched`.
use Prim.Native.Nat.{bit_and}
use zeos_soa.Prelude.{ℕ, zero, suc, List, [], ◌∷◌, ◌==◌, if◌then◌else◌}
use zeos_soa.Prelude.{◌+◌}
use zeos_soa.Prelude.Int.{ℤ}
use zeos_soa.Screen.{Screen, printc, printk}
use zeos_soa.Digits.{Chars, itoa_hexadecimal}
use zeos_soa.Kernel.{Kernel}
use zeos_soa.Sched.{kbd_buf_write}

-- `char_map`: the character of each scan code. The four letters outside of ASCII are spelled with
-- three bytes each, of which a `char` keeps the last, 0xBD.
abbrev pub char_map : List ℕ
char_map =
    0 ∷ 0 ∷ b'1' ∷ b'2' ∷ b'3' ∷ b'4' ∷ b'5' ∷ b'6' ∷ b'7' ∷ b'8' ∷ b'9' ∷ b'0' ∷ 39 ∷ 0xBD ∷ 0 ∷ 0
    ∷ b'q' ∷ b'w' ∷ b'e' ∷ b'r' ∷ b't' ∷ b'y' ∷ b'u' ∷ b'i' ∷ b'o' ∷ b'p' ∷ b'`' ∷ b'+' ∷ 0 ∷ 0
    ∷ b'a' ∷ b's' ∷ b'd' ∷ b'f' ∷ b'g' ∷ b'h' ∷ b'j' ∷ b'k' ∷ b'l' ∷ 0xBD ∷ 0 ∷ 0xBD ∷ 0 ∷ 0xBD
    ∷ b'z' ∷ b'x' ∷ b'c' ∷ b'v' ∷ b'b' ∷ b'n' ∷ b'm' ∷ b',' ∷ b'.' ∷ b'-' ∷ 0 ∷ b'*' ∷ 0 ∷ 0 ∷ 0 ∷ 0
    ∷ 0 ∷ 0 ∷ 0 ∷ 0 ∷ 0 ∷ 0 ∷ 0 ∷ 0 ∷ 0 ∷ 0 ∷ 0 ∷ b'7' ∷ b'8' ∷ b'9' ∷ b'-' ∷ b'4' ∷ b'5' ∷ b'6'
    ∷ b'+' ∷ b'1' ∷ b'2' ∷ b'3' ∷ b'0' ∷ 0 ∷ 0 ∷ 0 ∷ b'<' ∷ 0 ∷ 0 ∷ 0 ∷ 0 ∷ 0 ∷ 0 ∷ 0 ∷ 0 ∷ 0 ∷ 0
    ∷ 0 ∷ []

-- The element at an index; `beyond` is what the memory behind the array holds.
unfoldable pub char_at : (beyond : ℕ → ℕ) → List ℕ → ℕ → ℕ
char_at beyond [] i = beyond i
char_at beyond (c ∷ cs) zero = c
char_at beyond (c ∷ cs) (suc i) = char_at beyond cs i

-- `pv` is the byte that `inb(0x60)` returns.
unfoldable pub keyboard_routine : (beyond : ℕ → ℕ) → Kernel → (pv : ℕ) → Kernel
keyboard_routine beyond k pv =
    let toprint = char_at beyond char_map (bit_and pv 0x7F) in
    if bit_and pv 0x80 == 0 then (if toprint == 0 then k else kbd_buf_write k toprint) else k

-- `printk` of an array of characters that ends with 0; an address has at most eight.
unfoldable pub print_chars : (rounds : ℕ) → Screen → Chars → (i : ℕ) → Screen
print_chars zero s b i = s
print_chars (suc n) s b i =
    let rest = print_chars n (printc s (b i)) b (i + 1) in if b i == 0 then s else rest

-- What is on the screen when `pagefault_routine` comes to its last loop, which does not end; `buff` is
-- what its array held before.
unfoldable pub pagefault_routine : (buff : Chars) → Screen → (eip : ℤ) → Screen
pagefault_routine buff s eip =
    let s = printk s (b'\n' ∷ []) in
    let s = printk s (
      b'P' ∷ b'r' ∷ b'o' ∷ b'c' ∷ b'e' ∷ b's' ∷ b's' ∷ b' ' ∷ b'g' ∷ b'e' ∷ b'n' ∷ b'e' ∷ b'r'
      ∷ b'a' ∷ b't' ∷ b'e' ∷ b's' ∷ b' ' ∷ b'a' ∷ b' ' ∷ b'P' ∷ b'A' ∷ b'G' ∷ b'E' ∷ b' ' ∷ b'F'
      ∷ b'A' ∷ b'U' ∷ b'L' ∷ b'T' ∷ b' ' ∷ b'e' ∷ b'x' ∷ b'c' ∷ b'e' ∷ b'p' ∷ b't' ∷ b'i' ∷ b'o'
      ∷ b'n' ∷ b' ' ∷ b'a' ∷ b't' ∷ b' ' ∷ b'E' ∷ b'I' ∷ b'P' ∷ b':' ∷ b' ' ∷ b'0' ∷ b'x' ∷ []) in
    let s = print_chars 10 s (itoa_hexadecimal eip buff) 0 in printk s (b'\n' ∷ [])
