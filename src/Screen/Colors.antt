-- ===== src/Screen/Colors.antt =====
-- `sys_set_color` packs two colors into a byte.
use zeos_soa.Prelude.{
  ℕ, ◌+◌, ◌*◌, ◌/◌, ◌%◌, ◌<◌, ◌≡◌, refl, true, ◌==◌, passes_below, passes_below_at, ==_iff, arith,
}
use zeos_soa.Prelude.Int.{pos}
use zeos_soa.Screen.{Screen, color_byte, sys_set_color}

color_table : passes_below (λ i. color_byte (i % 16) (i / 16) == i) 256 ≡ true
unfolding passes_below color_byte
color_table = refl

color_byte_lem : (fg bg : ℕ) → fg < 16 → bg < 16 → color_byte fg bg ≡ bg * 16 + fg
color_byte_lem fg bg f b =
    let i : ℕ = bg * 16 + fg in
    let found =
      (==_iff _ _).0 (
        passes_below_at (λ i. color_byte (i % 16) (i / 16) == i) 256 i (omega arith) color_table) in
    let low : i % 16 ≡ fg = omega arith in
    let high : i / 16 ≡ bg = omega arith in rw (low, high) at found

-- For two colors below 16, `sys_set_color` returns 0 and sets a byte from whose halves both can be
-- read.
pub sys_set_color_lem :
    (s : Screen) (fg bg : ℕ)
    → fg < 16
    → bg < 16
    → let (r, s') = sys_set_color s (pos fg) (pos bg) in
      (r ≡ pos 0) × (s'.current_color % 16 ≡ fg) × (s'.current_color / 16 ≡ bg)
unfolding sys_set_color
sys_set_color_lem s fg bg f b = ground (arith, color_byte_lem fg bg f b)
