-- ===== src/Screen.antt =====
-- zeos/io.c: the text screen of 80 columns and 25 rows, and `sys_write_console` of zeos/devices.c.
use Prim.Native.Nat.{bit_and, bit_or}
use zeos_soa.Prelude.{
  ℕ, zero, suc, ◌+◌, ◌-◌, ◌*◌, ◌%◌, ◌^◌, Bool, List, [], ◌∷◌, ◌++◌, ◌==◌, leb, ltb, ◌||◌,
  if◌then◌else◌, update,
}
use zeos_soa.Prelude.Int.{ℤ, pos, negsuc, ltb_ℤ, pos_part}
pub mod Cursor
pub mod Colors

abbrev pub num_columns : ℕ
num_columns = 80

abbrev pub num_rows : ℕ
num_rows = 25

-- The globals `x`, `y` and `current_color`, the words at 0xb8000 by index, and what `bochs_out`
-- has put out, latest last.
pub record Screen : Type 0 where
  pub x : ℕ
  pub y : ℕ
  pub current_color : ℕ
  pub cells : ℕ → ℕ
  pub log : List ℕ

-- `(Word)(c & 0x00FF) | ((Word)current_color << 8)`
unfoldable pub cell_of : (c color : ℕ) → ℕ
cell_of c color = bit_or (bit_and c 0x00FF) (color * 256 % 2 ^ 16)

-- `x = 0; y = (y + 1) % NUM_ROWS;`
unfoldable pub new_line : Screen → Screen
new_line s = record s { x = 0; y = (s.y + 1) % num_rows }

unfoldable pub printc : Screen → ℕ → Screen
unfolding new_line cell_of
printc s c =
    let s = record s { log = s.log ++ c ∷ [] } in
    if c == b'\n'
    then new_line s
    else let s = record s {
      cells = update s.cells (s.y * num_columns + s.x) (cell_of c s.current_color);
      x = (s.x + 1) % 256;
    } in
      if leb num_columns s.x then new_line s else s

unfoldable pub printc_xy : Screen → (mx my c : ℕ) → Screen
printc_xy s mx my c =
    let s' = printc (record s { x = mx; y = my }) c in record s' { x = s.x; y = s.y }

-- `printk` and `sys_write_console` print the characters of a text in turn.
unfoldable pub print_all : Screen → List ℕ → Screen
print_all s [] = s
print_all s (c ∷ cs) = print_all (printc s c) cs

-- The text without its terminating 0.
unfoldable pub printk : Screen → List ℕ → Screen
printk s string = print_all s string

-- -22 is `-EINVAL`.
unfoldable pub sys_gotoxy : Screen → (col row : ℤ) → ℤ × Screen
sys_gotoxy s col row =
    if ltb_ℤ col (pos 0) || leb num_columns (pos_part col)
    then (negsuc 21, s)
    else if ltb_ℤ row (pos 0) || leb num_rows (pos_part row)
    then (negsuc 21, s)
    else (pos 0, record s { x = pos_part col % 256; y = pos_part row % 256 })

-- `(Byte)((bg << 4) | (fg & 0x0F))`
unfoldable pub color_byte : (fg bg : ℕ) → ℕ
color_byte fg bg = bit_or (bg * 16) (bit_and fg 0x0F) % 256

unfoldable pub sys_set_color : Screen → (fg bg : ℤ) → ℤ × Screen
sys_set_color s fg bg =
    if ltb_ℤ fg (pos 0) || ltb 15 (pos_part fg)
    then (negsuc 21, s)
    else if ltb_ℤ bg (pos 0) || ltb 15 (pos_part bg)
    then (negsuc 21, s)
    else (pos 0, record s { current_color = color_byte (pos_part fg) (pos_part bg) })
