-- ===== src/Image/Disk.antt =====
-- What the builder relies on of the host: regular files that do not change meanwhile, and an output
-- that is a file too.
use zeos_soa.Prelude.{
  ap, append-nil, ℕ, zero, suc, ◌+◌, ◌-◌, ◌≤◌, ◌≡◌, refl, false, List, [], ◌∷◌, ◌++◌, Option, some,
  arith, length, take, drop,
}
use zeos_soa.Prelude.Int.{ℤ, pos, ltb_ℤ}
use zeos_soa.Image.{Host}

-- `bytes` written over `out` from `offset` on, which is at most its length.
abbrev pub splice : (out : List ℕ) → (offset : ℕ) → (bytes : List ℕ) → List ℕ
splice out offset bytes = take offset out ++ bytes ++ drop (offset + length bytes) out

-- Where a state of the host stands: the contents of the files by name, the bytes of an open file, all
-- of them and those behind its position, and the output with its position.
pub record View (S : Type 0) : Type 0 where
  pub contents : List ℕ → Option (List ℕ)
  pub whole : S → ℤ → List ℕ
  pub unread : S → ℤ → List ℕ
  pub output : S → List ℕ
  pub offset : S → ℕ

-- Two states with the same output.
pub record SameOutput {S : Type 0} (v : View S) (s s' : S) : Type 0 where
  pub output : v.output s' ≡ v.output s
  pub offset : v.offset s' ≡ v.offset s

pub record IsDisk {S : Type 0} (h : Host S) (v : View S) : Type 0 where
  pub open_law :
      (s : S) (name c : List ℕ)
      → v.contents name ≡ some c
      → let (fd, s') = h.open_read s name in
        (ltb_ℤ fd (pos 0) ≡ false) × (v.unread s' fd ≡ c) × (v.whole s' fd ≡ c) × SameOutput v s s'
  pub read_law :
      (s : S) (fd : ℤ) (n : ℕ)
      → let (r, bytes, s') = h.read s fd n in
        (r ≡ pos (length bytes))
        × (bytes ≡ take n (v.unread s fd))
        × (v.unread s' fd ≡ drop n (v.unread s fd))
        × SameOutput v s s'
  pub fstat_law :
      (s : S) (fd : ℤ)
      → let (r, size, s') = h.fstat s fd in
        (r ≡ pos 0)
        × (size ≡ length (v.whole s fd))
        × (v.unread s' fd ≡ v.unread s fd)
        × SameOutput v s s'
  pub close_law : (s : S) (fd : ℤ) → SameOutput v s (h.close s fd)
  pub write_law :
      (s : S) (bytes : List ℕ)
      → let (r, s') = h.write s bytes in
        (r ≡ pos (length bytes))
        × (v.output s' ≡ splice (v.output s) (v.offset s) bytes)
        × (v.offset s' ≡ v.offset s + length bytes)
        × ((fd : ℤ) → v.unread s' fd ≡ v.unread s fd)
  pub lseek_law :
      (s : S) (n : ℕ)
      → let (r, s') = h.lseek s n in (r ≡ pos n) × (v.output s' ≡ v.output s) × (v.offset s' ≡ n)

-- Lists measured and cut.
pub take-all : (xs : List ℕ) (n : ℕ) → length xs ≤ n → take n xs ≡ xs
take-all [] zero h = refl
take-all [] (suc n) h = refl
take-all (x ∷ xs) zero h = absurd (omega (arith, h))
take-all (x ∷ xs) (suc n) h = ap (λ r. x ∷ r) (take-all xs n (omega (arith, h)))

pub drop-all : (xs : List ℕ) (n : ℕ) → length xs ≤ n → drop n xs ≡ []
drop-all [] zero h = refl
drop-all [] (suc n) h = refl
drop-all (x ∷ xs) zero h = absurd (omega (arith, h))
drop-all (x ∷ xs) (suc n) h = drop-all xs n (omega (arith, h))

pub length-take : (n : ℕ) (xs : List ℕ) → n ≤ length xs → length (take n xs) ≡ n
length-take zero xs h = refl
length-take (suc n) [] h = absurd (omega (arith, h))
length-take (suc n) (x ∷ xs) h = omega (arith, length-take n xs (omega (arith, h)))

pub length-drop : (n : ℕ) (xs : List ℕ) → length (drop n xs) ≡ length xs - n
length-drop zero xs = omega arith
length-drop (suc n) [] = omega arith
length-drop (suc n) (x ∷ xs) = omega (arith, length-drop n xs)

pub take-drop : (n : ℕ) (xs : List ℕ) → take n xs ++ drop n xs ≡ xs
take-drop zero xs = refl
take-drop (suc n) [] = refl
take-drop (suc n) (x ∷ xs) = ap (λ r. x ∷ r) (take-drop n xs)

-- What is written at the end is put behind.
pub splice-end : (out bytes : List ℕ) → splice out (length out) bytes ≡ out ++ bytes
splice-end out bytes =
    rw
      (
        take-all out (length out) (omega arith),
        drop-all out (length out + length bytes) (omega arith),
      )
      (append-nil (out ++ bytes))
