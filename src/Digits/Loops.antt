-- ===== src/Digits/Loops.antt =====
-- The three loops of the number printers, in any base.
use zeos_soa.Prelude.{
  ℕ, zero, suc, ◌+◌, ◌-◌, ◌/◌, ◌≤◌, ◌<◌, ◌≡◌, ◌≢◌, ap, ◌==◌, Bool-cases, inl, inr, if◌then◌else◌,
  arith, ltb, leb, ◌&&◌,
}
use zeos_soa.Digits.{Chars, swap_ends, swap_loop, strlen_from, strlen}

-- Where the second loop takes a character from.
swap_loop-get :
    (n : ℕ) (b : Chars) (i i1 j : ℕ)
    → i1 + n ≡ i / 2
    → swap_loop n b i i1 j ≡ (if leb i1 j && ltb j (i - i1) then b (i - 1 - j) else b j)
unfolding swap_loop swap_ends
swap_loop-get zero b i i1 j h = elim (Bool-cases (leb i1 j && ltb j (i - i1))) [
  | inl e ↦ let same : j ≡ i - 1 - j = ground arith in rw e (ap b same)
  | inr e ↦ rw e
]
swap_loop-get (suc n) b i i1 j h =
    ground (arith, swap_loop-get n (swap_ends b i i1) i (i1 + 1) j (omega arith))

-- The second loop turns the first `i` characters round, and leaves the others.
pub swap_loop-reverse :
    (b : Chars) (i j : ℕ) → swap_loop (i / 2) b i 0 j ≡ (if ltb j i then b (i - 1 - j) else b j)
swap_loop-reverse b i j = ground (arith, swap_loop-get (i / 2) b i 0 j (omega arith))

strlen_from-get :
    (fuel : ℕ) (a : Chars) (i n : ℕ)
    → i ≤ n
    → n < i + fuel
    → a n ≡ 0
    → ((j : ℕ) → j < n → a j ≢ 0)
    → strlen_from fuel a i ≡ n
unfolding strlen_from
strlen_from-get zero a i n h f z nz = absurd (omega arith)
strlen_from-get (suc fuel) a i n h f z nz = elim (Bool-cases (a i == 0)) [
  | inl e ↦ rw e (ground (arith, nz i))
  | inr e ↦
      let further : i ≢ n = λ same. ground arith in
      rw e (strlen_from-get fuel a (i + 1) n (omega arith) (omega arith) z nz)
]

-- `strlen` is the index of the first 0, given enough rounds to reach it.
pub strlen_lem :
    (fuel : ℕ) (a : Chars) (n : ℕ)
    → n < fuel
    → a n ≡ 0
    → ((j : ℕ) → j < n → a j ≢ 0)
    → strlen fuel a ≡ n
unfolding strlen
strlen_lem fuel a n f z nz = strlen_from-get fuel a 0 n (omega arith) (omega arith) z nz
