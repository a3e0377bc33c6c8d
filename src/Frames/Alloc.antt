-- ===== src/Frames/Alloc.antt =====
-- What `alloc_frame` hands out.
use zeos_soa.Prelude.{
  subst, ℕ, zero, suc, ◌+◌, ◌-◌, ◌≤◌, ◌<◌, ◌≡◌, refl, ◌≢◌, ◌⊎◌, inl, inr, Option, none, some, ◌==◌,
  arith, update, Bool-cases,
}
use zeos_soa.Prelude.Int.{pos, negsuc}
use zeos_soa.Frames.{Frames, total_pages, find_free, take_frame, alloc_frame}

-- The loop finds the first free page of its range.
find_free-some :
    (n : ℕ) (m : ℕ → ℕ) (i j : ℕ)
    → find_free n m i ≡ some j
    → (i ≤ j) × (j < i + n) × (m j ≡ 0) × ((p : ℕ) → i ≤ p → p < j → m p ≢ 0)
unfolding find_free
find_free-some zero m i j e = absurd (ground arith)
find_free-some (suc n) m i j e = elim (Bool-cases (m i == 0)) [
  | inl free ↦
      let here : i ≡ j = ground arith in
      (omega arith, omega arith, ground arith, λ p a b. absurd (omega arith))
  | inr used ↦
      let (a, b, c, d) = find_free-some n m (i + 1) j (ground arith) in
      (
        omega arith,
        omega arith,
        c,
        λ p x y. elim (ℕ_cases p i) [ inl same ↦ ground arith | inr other ↦ d p (omega arith) y ],
      )
]
  where
    ℕ_cases : (p q : ℕ) → (p ≡ q) ⊎ (p ≢ q)
    ℕ_cases p q = ground arith

find_free-none :
    (n : ℕ) (m : ℕ → ℕ) (i : ℕ) → find_free n m i ≡ none → (p : ℕ) → i ≤ p → p < i + n → m p ≢ 0
unfolding find_free
find_free-none zero m i e p a b = absurd (omega arith)
find_free-none (suc n) m i e p a b = ground (arith, find_free-none n m (i + 1) (ground arith) p)

-- What a successful `alloc_frame` says: the page is in range, was free, is the lowest free one behind
-- the kernel, and is the only one whose mark changes.
pub record Taken (f : Frames) (i : ℕ) (g : Frames) : Type 0 where
  pub above : f.last_kernel ≤ i
  pub below : i < total_pages
  pub was_free : f.phys_mem i ≡ 0
  pub lowest : (p : ℕ) → f.last_kernel ≤ p → p < i → f.phys_mem p ≢ 0
  pub marked : g ≡ record f { phys_mem = update f.phys_mem i 1 }

-- `alloc_frame` either takes the lowest free page behind the kernel, and marks no other, or returns
-- -1 with nothing changed, and then every page behind the kernel is in use.
pub alloc_frame_cases :
    (f : Frames)
    → ((i : ℕ) × (g : Frames) × (alloc_frame f ≡ (pos i, g)) × Taken f i g)
      ⊎ ((alloc_frame f ≡ (negsuc 0, f))
          × ((p : ℕ) → f.last_kernel ≤ p → p < total_pages → f.phys_mem p ≢ 0))
unfolding alloc_frame take_frame
alloc_frame_cases f = go (find_free (total_pages - f.last_kernel) f.phys_mem f.last_kernel) refl
  where
    go :
        (o : Option ℕ)
        → find_free (total_pages - f.last_kernel) f.phys_mem f.last_kernel ≡ o
        → ((i : ℕ) × (g : Frames) × (take_frame f o ≡ (pos i, g)) × Taken f i g)
          ⊎ ((take_frame f o ≡ (negsuc 0, f))
              × ((p : ℕ) → f.last_kernel ≤ p → p < total_pages → f.phys_mem p ≢ 0))
    go none e = inr (refl, λ p a b. find_free-none _ f.phys_mem f.last_kernel e p a (omega arith))
    go (some i) e =
        let (a, b, c, d) = find_free-some _ f.phys_mem f.last_kernel i e in
        inl (
          i,
          record f { phys_mem = update f.phys_mem i 1 },
          refl,
          record { above = a; below = omega arith; was_free = c; lowest = d; marked = refl },
        )

pub alloc_frame-Taken : (f g : Frames) (i : ℕ) → alloc_frame f ≡ (pos i, g) → Taken f i g
alloc_frame-Taken f g i e = elim (alloc_frame_cases f) [
  | inl (j, f', e', t) ↦
      let same_page : j ≡ i = ground arith in
      let same_map : f' ≡ g = ground arith in
      subst (λ x. Taken f x g) same_page (subst (Taken f j) same_map t)
  | inr (e', full) ↦ absurd (ground arith)
]
