-- ===== src/Digits.antt =====
-- `itoa`, `itoa_hex` and `strlen` of zeos/libc.c, and `itoa_hexadecimal` of zeos/utils.c.
-- A `char *` is a function from an index to a character code; the caller's buffer is the part of it
-- that is written.
use zeos_soa.Prelude.{ℕ, zero, suc, ◌+◌, ◌-◌, ◌*◌, ◌/◌, ◌%◌, ◌^◌, ◌==◌, ltb, if◌then◌else◌, update}
use zeos_soa.Prelude.Int.{ℤ, pos, negsuc}
use zeos_soa.Paging.{to_unsigned}
pub mod Loops
pub mod Numerals
pub mod Printers

abbrev pub Chars : Type 0
Chars = ℕ → ℕ

-- `while (a > 0) { b[i] = <digit of a % base>; a = a / base; i++; }`: the buffer and `i`. The number
-- falls in every round, so that as many rounds as it counts are enough.
unfoldable pub digit_loop :
    (fuel base : ℕ) → (digit : ℕ → ℕ) → (a : ℕ) → Chars → (i : ℕ) → Chars × ℕ
digit_loop zero base digit a b i = (b, i)
digit_loop (suc fuel) base digit a b i =
    let rest = digit_loop fuel base digit (a / base) (update b i (digit (a % base))) (i + 1) in
    if a == 0 then (b, i) else rest

-- The body of the second loop: `c = b[i1]; b[i1] = b[i - i1 - 1]; b[i - i1 - 1] = c;`
unfoldable pub swap_ends : Chars → (i i1 : ℕ) → Chars
swap_ends b i i1 = let c = b i1 in let b = update b i1 (b (i - i1 - 1)) in update b (i - i1 - 1) c

-- `for (; i1 < i / 2; i1++)`, with the rounds that are left.
unfoldable pub swap_loop : (rounds : ℕ) → Chars → (i i1 : ℕ) → Chars
swap_loop zero b i i1 = b
swap_loop (suc n) b i i1 = swap_loop n (swap_ends b i i1) i (i1 + 1)

-- What the three functions share: the digits, turned round, and a terminating 0.
unfoldable pub put_digits : (base : ℕ) → (digit : ℕ → ℕ) → (a : ℕ) → Chars → Chars
put_digits base digit a b =
    let (b, i) = digit_loop a base digit a b 0 in update (swap_loop (i / 2) b i 0) i 0

-- `b[0] = '0'; b[1] = 0;`
unfoldable pub put_zero : Chars → Chars
put_zero b = update (update b 0 b'0') 1 0

-- `(a % 10) + '0'`
abbrev pub decimal_digit : ℕ → ℕ
decimal_digit r = r + b'0'

-- The digit of `itoa_hexadecimal`, and the entry of the table of `itoa_hex`.
abbrev pub hex_digit : ℕ → ℕ
hex_digit r = if ltb r 10 then r + b'0' else r - 10 + b'A'

-- Below 0 the loop makes no round, and the text is empty.
unfoldable pub itoa : ℤ → Chars → Chars
itoa (pos a) b = if a == 0 then put_zero b else put_digits 10 decimal_digit a b
itoa (negsuc a) b = put_digits 10 decimal_digit 0 b

unfoldable pub itoa_hexadecimal : ℤ → Chars → Chars
itoa_hexadecimal (pos a) b = if a == 0 then put_zero b else put_digits 16 hex_digit a b
itoa_hexadecimal (negsuc a) b = put_digits 16 hex_digit 0 b

-- The number is converted to `unsigned int` first.
unfoldable pub itoa_hex : ℤ → Chars → Chars
itoa_hex (pos a) b = if a == 0 then put_zero b else put_digits 16 hex_digit (to_unsigned (pos a)) b
itoa_hex (negsuc a) b = put_digits 16 hex_digit (to_unsigned (negsuc a)) b

-- `while (a[i] != 0) i++;` from `i` on; a text has fewer characters than `fuel`.
unfoldable pub strlen_from : (fuel : ℕ) → Chars → (i : ℕ) → ℕ
strlen_from zero a i = i
strlen_from (suc fuel) a i = let rest = strlen_from fuel a (i + 1) in if a i == 0 then i else rest

unfoldable pub strlen : (fuel : ℕ) → Chars → ℕ
strlen fuel a = strlen_from fuel a 0
