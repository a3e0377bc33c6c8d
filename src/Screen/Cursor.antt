-- ===== src/Screen/Cursor.antt =====
-- The cursor stays on the screen, and printing writes inside the screen.
use zeos_soa.Prelude.{
  ℕ, ◌+◌, ◌*◌, ◌%◌, ◌≤◌, ◌<◌, ◌≡◌, refl, false, List, [], ◌∷◌, ◌==◌, ◌∉◌, length, arith, ◌∙◌,
}
use zeos_soa.Prelude.Int.{ℤ}
use zeos_soa.Screen.{
  Screen, num_columns, num_rows, printc, printc_xy, print_all, printk, sys_gotoxy,
}

pub record OnScreen (s : Screen) : Type 0 where
  pub column : s.x < num_columns
  pub row : s.y < num_rows

-- The number of cells in front of the cursor.
abbrev pub offset : Screen → ℕ
offset s = s.y * num_columns + s.x

abbrev pub screen_size : ℕ
screen_size = num_rows * num_columns

printc-OnScreen : (s : Screen) (c : ℕ) → OnScreen s → OnScreen (printc s c)
unfolding printc
printc-OnScreen s c v = ground arith

print_all-OnScreen : (s : Screen) (cs : List ℕ) → OnScreen s → OnScreen (print_all s cs)
unfolding print_all
print_all-OnScreen s [] v = v
print_all-OnScreen s (c ∷ cs) v = print_all-OnScreen (printc s c) cs (printc-OnScreen s c v)

printc-cells :
    (s : Screen) (c a : ℕ) → OnScreen s → screen_size ≤ a → (printc s c).cells a ≡ s.cells a
unfolding printc
printc-cells s c a v h = ground arith

print_all-cells :
    (s : Screen) (cs : List ℕ) (a : ℕ)
    → OnScreen s
    → screen_size ≤ a
    → (print_all s cs).cells a ≡ s.cells a
unfolding print_all
print_all-cells s [] a v h = refl
print_all-cells s (c ∷ cs) a v h =
    print_all-cells (printc s c) cs a (printc-OnScreen s c v) h ∙ printc-cells s c a v h

-- Printing a text from a cursor on the screen keeps the cursor on the screen, and writes to no word
-- behind the screen's last.
pub printk_safe :
    (s : Screen) (cs : List ℕ) (a : ℕ)
    → OnScreen s
    → screen_size ≤ a
    → OnScreen (printk s cs) × ((printk s cs).cells a ≡ s.cells a)
unfolding printk
printk_safe s cs a v h = (print_all-OnScreen s cs v, print_all-cells s cs a v h)

printc-offset :
    (s : Screen) (c : ℕ)
    → OnScreen s
    → (c == b'\n') ≡ false
    → offset (printc s c) ≡ (offset s + 1) % screen_size
unfolding printc
printc-offset s c v h = ground arith

print_all-offset :
    (s : Screen) (cs : List ℕ)
    → OnScreen s
    → b'\n' ∉ cs
    → offset (print_all s cs) ≡ (offset s + length cs) % screen_size
unfolding print_all
print_all-offset s [] v h = omega arith
print_all-offset s (c ∷ cs) v h =
    ground (arith, printc-offset s c v, print_all-offset (printc s c) cs (printc-OnScreen s c v))

-- A text without line feeds moves a cursor on the screen on by its length, from the last cell to the
-- first.
pub printk-offset :
    (s : Screen) (cs : List ℕ)
    → OnScreen s
    → b'\n' ∉ cs
    → offset (printk s cs) ≡ (offset s + length cs) % screen_size
unfolding printk
printk-offset = print_all-offset

-- `printc_xy` puts the cursor back where it was.
pub printc_xy-cursor :
    (s : Screen) (mx my c : ℕ)
    → ((printc_xy s mx my c).x ≡ s.x)
      × ((printc_xy s mx my c).y ≡ s.y)
      × ((printc_xy s mx my c).current_color ≡ s.current_color)
unfolding printc_xy printc
printc_xy-cursor s mx my c = ground arith

-- Whatever its arguments, `sys_gotoxy` keeps the cursor on the screen.
pub sys_gotoxy-OnScreen :
    (s : Screen) (col row : ℤ) → OnScreen s → OnScreen (sys_gotoxy s col row).1
unfolding sys_gotoxy
sys_gotoxy-OnScreen s col row v = ground arith
