-- ===== src/Digits/Printers.antt =====
-- `itoa`, `itoa_hexadecimal` and `itoa_hex` print texts that read back as their numbers.
use zeos_soa.Prelude.{
  ℕ, ◌+◌, ◌-◌, ◌<◌, ◌≡◌, refl, ◌≢◌, ◌==◌, ltb, Bool-cases, inl, inr, if◌then◌else◌, arith,
}
use zeos_soa.Prelude.Int.{pos}
use zeos_soa.Digits.{Chars, put_zero, hex_digit, itoa_hexadecimal, strlen}
use zeos_soa.Digits.Loops.{strlen_lem}
use zeos_soa.Digits.Numerals.{numeral, Reads, put_digits-Reads}

-- The values of a decimal and of a hexadecimal digit.
abbrev pub decimal_value : ℕ → ℕ
decimal_value c = c - b'0'

abbrev pub hex_value : ℕ → ℕ
hex_value c = if ltb c b'A' then c - b'0' else c - b'A' + 10

hex_back : (r : ℕ) → r < 16 → (hex_value (hex_digit r) ≡ r) × (hex_digit r ≢ 0)
hex_back r h = ground arith

-- `strlen` and the reader meet the text where the printer ended it.
Reads-strlen :
    (base : ℕ) (value : ℕ → ℕ) (a : ℕ) (b : Chars) (n fuel : ℕ)
    → a + 1 < fuel
    → Reads base value a b n
    → numeral base value b (strlen fuel b) ≡ a
Reads-strlen base value a b n fuel f r =
    rw (strlen_lem fuel b n (omega (arith, r.short)) r.end r.inside) r.value

zero-Reads :
    (base : ℕ) (value : ℕ → ℕ) (b : Chars) → value b'0' ≡ 0 → Reads base value 0 (put_zero b) 1
unfolding put_zero numeral
zero-Reads base value b e = record {
  value = omega (arith, e);
  end = refl;
  inside = λ j lt. ground arith;
  short = omega arith;
}

-- The text that `itoa_hexadecimal` makes of a number that is not negative is its hexadecimal numeral.
pub itoa_hexadecimal-numeral :
    (a fuel : ℕ) (b : Chars)
    → a + 1 < fuel
    → numeral 16 hex_value (itoa_hexadecimal (pos a) b) (strlen fuel (itoa_hexadecimal (pos a) b))
      ≡ a
unfolding itoa_hexadecimal
itoa_hexadecimal-numeral a fuel b f = elim (Bool-cases (a == 0)) [
  | inl e ↦
      let none : a ≡ 0 = ground arith in
      rw none (
        Reads-strlen 16 hex_value 0 (put_zero b) 1 fuel (omega arith)
          (zero-Reads 16 hex_value b refl))
  | inr e ↦ rw e (
      Reads-strlen 16 hex_value a _ _ fuel f
        (put_digits-Reads 16 hex_digit hex_value (omega arith) hex_back a b))
]
