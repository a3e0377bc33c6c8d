-- ===== src/Access/Copies.antt =====
-- The copy loops move the bytes they are asked to.
use zeos_soa.Prelude.{
  ℕ, zero, suc, ◌+◌, ◌-◌, ◌≤◌, ◌<◌, ◌≡◌, refl, ◌⊎◌, leb, ltb, ◌&&◌, if◌then◌else◌, update, arith,
  Bool-cases, inl, inr,
}
use zeos_soa.Prelude.Int.{pos}
use zeos_soa.Access.{
  Memory, copy_word, copy_bytes, copy_words, copy_data, copy_from_user, copy_to_user,
}

-- The memory in which the `n` bytes from `dest` on are those from `start` on.
abbrev pub moved : Memory → (start dest n : ℕ) → Memory
moved m start dest n a = if leb dest a && ltb a (dest + n) then m (start + (a - dest)) else m a

-- Two ranges of `n` bytes that share none.
abbrev pub Apart : (start dest n : ℕ) → Type 0
Apart start dest n = (start + n ≤ dest) ⊎ (dest + n ≤ start)

copy_bytes-moved :
    (n : ℕ) (m : Memory) (p q a : ℕ) → Apart p q n → copy_bytes n m p q a ≡ moved m p q n a
unfolding copy_bytes
copy_bytes-moved zero m p q a h = ground arith
copy_bytes-moved (suc n) m p q a h =
    ground (arith, copy_bytes-moved n (update m q (m p)) (p + 1) (q + 1) a (omega arith))

copy_word-moved : (m : Memory) (p q a : ℕ) → Apart p q 4 → copy_word m p q a ≡ moved m p q 4 a
unfolding copy_word
copy_word-moved m p q a h = ground arith

copy_words-moved :
    (fuel n : ℕ) (m : Memory) (p q a : ℕ)
    → n ≤ fuel
    → Apart p q n
    → copy_words fuel n m p q a ≡ moved m p q n a
unfolding copy_words
copy_words-moved zero n m p q a f h = copy_bytes-moved n m p q a h
copy_words-moved (suc fuel) n m p q a f h = elim (Bool-cases (ltb 4 n)) [
  | inl more ↦
      let four : 4 < n = ground arith in
      let rest =
        copy_words-moved fuel (n - 4) (copy_word m p q) (p + 4) (q + 4) a (omega arith)
          (omega arith) in
      rw more (
        ground (
          arith,
          rest,
          copy_word-moved m p q a (omega arith),
          copy_word-moved m p q (p + 4 + (a - (q + 4))) (omega arith),
        ))
  | inr less ↦ rw less (copy_bytes-moved n m p q a h)
]

-- Between ranges that share no byte, `copy_data`, `copy_from_user` and `copy_to_user` move exactly
-- `size` bytes, and change nothing else; the two that return a value return 0.
pub copies-moved :
    (m : Memory) (start dest size a : ℕ)
    → Apart start dest size
    → (copy_data m start dest size a ≡ moved m start dest size a)
      × ((copy_from_user m start dest size).0 ≡ pos 0)
      × ((copy_from_user m start dest size).1 a ≡ moved m start dest size a)
      × ((copy_to_user m start dest size).0 ≡ pos 0)
      × ((copy_to_user m start dest size).1 a ≡ moved m start dest size a)
unfolding copy_data copy_from_user copy_to_user
copies-moved m start dest size a h =
    let copied = copy_words-moved size size m start dest a (omega arith) h in
    (copied, refl, copied, refl, copied)
