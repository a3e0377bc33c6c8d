-- ===== src/Image/Buffer.antt =====
-- The buffer of the builder: what is stored is what is taken out.
use zeos_soa.Prelude.{
  ◌∙◌, ℕ, zero, suc, ◌+◌, ◌≤◌, ◌<◌, ◌≡◌, ◌⊎◌, inl, inr, refl, List, [], ◌∷◌, ◌++◌, arith, length,
  ◌==◌, if◌then◌else◌, update,
}
use zeos_soa.Image.{store, bytes_of}

store-before : (buf : ℕ → ℕ) (bs : List ℕ) (i j : ℕ) → j < i → store buf bs i j ≡ buf j
unfolding store
store-before buf [] i j h = refl
store-before buf (b ∷ bs) i j h =
    store-before (update buf i b) bs (i + 1) j (omega (arith, h)) ∙ ground (arith, h)

pub bytes_of-store :
    (buf : ℕ → ℕ) (bs : List ℕ) (i : ℕ) → bytes_of (length bs) (store buf bs i) i ≡ bs
unfolding store bytes_of
bytes_of-store buf [] i = refl
bytes_of-store buf (b ∷ bs) i =
    let first : store (update buf i b) bs (i + 1) i ≡ b =
      store-before (update buf i b) bs (i + 1) i (omega arith) ∙ ground arith in
    rw (first, bytes_of-store (update buf i b) bs (i + 1)) refl

-- A byte that is not taken out does not matter.
pub bytes_of-update :
    (n : ℕ) (buf : ℕ → ℕ) (i j v : ℕ)
    → (j < i) ⊎ (i + n ≤ j)
    → bytes_of n (update buf j v) i ≡ bytes_of n buf i
unfolding bytes_of
bytes_of-update zero buf i j v h = refl
bytes_of-update (suc n) buf i j v h =
    let rest =
      bytes_of-update n buf (i + 1) j v
        (elim h [ inl a ↦ inl (omega (arith, a)) | inr b ↦ inr (omega (arith, b)) ]) in
    let here : (if j == i then v else buf i) ≡ buf i = elim h [
      | inl a ↦ ground (arith, a)
      | inr b ↦ ground (arith, b)
    ] in
    rw (rest, here) refl

pub bytes_of-append :
    (a b : ℕ) (buf : ℕ → ℕ) (i : ℕ)
    → bytes_of (a + b) buf i ≡ bytes_of a buf i ++ bytes_of b buf (i + a)
unfolding bytes_of
bytes_of-append zero b buf i =
    let n : 0 + b ≡ b = omega arith in let at : i + 0 ≡ i = omega arith in rw (n, at) refl
bytes_of-append (suc a) b buf i =
    let n : suc a + b ≡ suc (a + b) = omega arith in
    let at : i + suc a ≡ i + 1 + a = omega arith in rw (n, at, bytes_of-append a b buf (i + 1)) refl

pub store-append :
    (buf : ℕ → ℕ) (xs ys : List ℕ) (i : ℕ)
    → store buf (xs ++ ys) i ≡ store (store buf xs i) ys (i + length xs)
unfolding store
store-append buf [] ys i = let at : i + 0 ≡ i = omega arith in rw at refl
store-append buf (x ∷ xs) ys i =
    let at : i + suc (length xs) ≡ i + 1 + length xs = omega arith in
    rw at (store-append (update buf i x) xs ys (i + 1))

-- What is stored behind the bytes does not matter.
pub bytes_of-store_behind :
    (n : ℕ) (buf : ℕ → ℕ) (bs : List ℕ) (i j : ℕ)
    → j + n ≤ i
    → bytes_of n (store buf bs i) j ≡ bytes_of n buf j
unfolding store
bytes_of-store_behind n buf [] i j h = refl
bytes_of-store_behind n buf (b ∷ bs) i j h =
    bytes_of-store_behind n (update buf i b) bs (i + 1) j (omega (arith, h))
    ∙ bytes_of-update n buf j i b (inr h)
