-- ===== src/Digits/Numerals.antt =====
-- The texts of the number printers read back as their numbers.
use zeos_soa.Prelude.{
  ℕ, zero, suc, ◌+◌, ◌-◌, ◌*◌, ◌/◌, ◌%◌, ◌≤◌, ◌<◌, ◌≡◌, refl, ◌≢◌, ◌==◌, Bool-cases, inl, inr,
  update, arith,
}
use native.Mathlib.Nat.{div-add-mod, mod-lt}
use zeos_soa.Digits.{Chars, digit_loop, swap_loop, put_digits}
use zeos_soa.Digits.Loops.{swap_loop-reverse}

-- The number that the first `n` characters stand for, the first of them counting most.
unfoldable pub numeral : (base : ℕ) → (undigit : ℕ → ℕ) → Chars → (n : ℕ) → ℕ
numeral base undigit b zero = 0
numeral base undigit b (suc n) = numeral base undigit b n * base + undigit (b n)

-- The same for `n` characters from `i` on, the last of them counting most.
upward : (base : ℕ) → (undigit : ℕ → ℕ) → Chars → (i n : ℕ) → ℕ
upward base undigit b i zero = 0
upward base undigit b i (suc n) = undigit (b i) + base * upward base undigit b (i + 1) n

-- What the first loop leaves: the number, written upwards in the characters from `i` on.
upward_of_ne_zero :
    (base : ℕ) (undigit : ℕ → ℕ) (b : Chars) (i n : ℕ)
    → n ≢ 0
    → upward base undigit b i n ≡ undigit (b i) + base * upward base undigit b (i + 1) (n - 1)
unfolding upward
upward_of_ne_zero base undigit b i zero h = absurd (h refl)
upward_of_ne_zero base undigit b i (suc n) h = ground arith

record Written (base : ℕ) (digit undigit : ℕ → ℕ) (a : ℕ) (b : Chars) (i : ℕ) (r : Chars × ℕ)
    : Type 0 where
  grows : i ≤ r.1
  few : r.1 ≤ i + a
  value : upward base undigit r.0 i (r.1 - i) ≡ a
  before : (j : ℕ) → j < i → r.0 j ≡ b j
  digits : (j : ℕ) → i ≤ j → j < r.1 → r.0 j ≢ 0

module _ (base : ℕ) (digit undigit : ℕ → ℕ) (big : 1 < base)
    (back : (r : ℕ) → r < base → (undigit (digit r) ≡ r) × (digit r ≢ 0)) where
  digit_loop-Written :
      (fuel a : ℕ) (b : Chars) (i : ℕ)
      → a ≤ fuel
      → Written base digit undigit a b i (digit_loop fuel base digit a b i)
  unfolding digit_loop upward
  digit_loop-Written zero a b i h = record {
    grows = omega arith;
    few = omega arith;
    value = let none : i - i ≡ 0 = omega arith in rw none (omega arith);
    before = λ j lt. refl;
    digits = λ j lo hi. absurd (omega arith);
  }
  digit_loop-Written (suc fuel) a b i h = elim (Bool-cases (a == 0)) [
    | inl e ↦ rw e (record {
      grows = omega arith;
      few = omega arith;
      value = let none : i - i ≡ 0 = omega arith in rw none (ground arith);
      before = λ j lt. refl;
      digits = λ j lo hi. absurd (omega arith);
    })
    | inr ne ↦
        let positive : 0 < a = ground arith in
        let less : a / base < a = grind arith in
        let b' = update b i (digit (a % base)) in
        let w : Written base digit undigit (a / base) b' (i + 1)
            (digit_loop fuel base digit (a / base) b' (i + 1)) =
          digit_loop-Written fuel (a / base) b' (i + 1) (omega arith) in
        let (c, n) = digit_loop fuel base digit (a / base) b' (i + 1) in
        let (read_back, not_end) = back (a % base) (mod-lt a (omega arith)) in
        let first : c i ≡ digit (a % base) = ground (arith, w.before i (omega arith)) in
        let step = upward_of_ne_zero base undigit c i (n - i) (omega (arith, w.grows)) in
        rw ne (record {
          grows = omega (arith, w.grows);
          few = omega (arith, w.few);
          value = ground (arith, step, w.value, div-add-mod a base);
          before = λ j lt. ground (arith, w.before j);
          digits = λ j lo hi. ground (arith, w.digits j);
        })
  ]

numeral-upward :
    (base : ℕ) (undigit : ℕ → ℕ) (b c : Chars) (i n : ℕ)
    → ((j : ℕ) → j < i → c j ≡ b (i - 1 - j))
    → n ≤ i
    → numeral base undigit c n ≡ upward base undigit b (i - n) n
unfolding numeral upward
numeral-upward base undigit b c i zero turned h = refl
numeral-upward base undigit b c i (suc n) turned h =
    let rest = numeral-upward base undigit b c i n turned (omega arith) in
    let at : i - 1 - n ≡ i - suc n = omega arith in
    let next : i - n ≡ i - suc n + 1 = omega arith in ground (arith, rest, turned n, at, next)

-- A text of `n` characters, none of them 0 and with a 0 behind them, that reads as the number `a`.
pub record Reads (base : ℕ) (undigit : ℕ → ℕ) (a : ℕ) (b : Chars) (n : ℕ) : Type 0 where
  pub value : numeral base undigit b n ≡ a
  pub end : b n ≡ 0
  pub inside : (j : ℕ) → j < n → b j ≢ 0
  pub short : n ≤ a + 1

module _ (base : ℕ) (digit undigit : ℕ → ℕ) (big : 1 < base)
    (back : (r : ℕ) → r < base → (undigit (digit r) ≡ r) × (digit r ≢ 0)) where
  pub put_digits-Reads :
      (a : ℕ) (b : Chars)
      → Reads base undigit a (put_digits base digit a b) (digit_loop a base digit a b 0).1
  unfolding put_digits
  put_digits-Reads a b =
      let w = digit_loop-Written base digit undigit big back a a b 0 (omega arith) in
      let (c, n) = digit_loop a base digit a b 0 in
      let d = update (swap_loop (n / 2) c n 0) n 0 in
      let turned : (j : ℕ) → j < n → d j ≡ c (n - 1 - j) =
        λ j lt. ground (arith, swap_loop-reverse c n j) in
      record {
        value = ground (arith, numeral-upward base undigit c d n n turned (omega arith), w.value);
        end = ground arith;
        inside = λ j lt. ground (arith, turned j, w.digits (n - 1 - j));
        short = omega (arith, w.few);
      }

-- Of 0 the loop writes nothing, and the text is empty.
pub put_digits-zero : (base : ℕ) (digit : ℕ → ℕ) (b : Chars) → put_digits base digit 0 b 0 ≡ 0
unfolding put_digits digit_loop
put_digits-zero base digit b = refl
