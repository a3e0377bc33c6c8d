-- ===== src/Frames/Available.antt =====
-- The pages that `alloc_frame` can still hand out, and which it does.
use zeos_soa.Prelude.{
  ℕ, zero, suc, ◌+◌, ◌-◌, ◌≤◌, ◌<◌, ◌≡◌, refl, ◌≢◌, inl, inr, ◌==◌, arith, ltb, if◌then◌else◌,
  update, Bool-cases,
}
use zeos_soa.Prelude.Int.{pos}
use zeos_soa.Frames.{Frames, total_pages, alloc_frame}
use zeos_soa.Frames.Alloc.{Taken, alloc_frame_cases}

-- How many of the `n` pages from `i` on are marked as free.
unfoldable pub count_zero : (n : ℕ) → (ℕ → ℕ) → (i : ℕ) → ℕ
count_zero zero m i = 0
count_zero (suc n) m i = let rest = count_zero n m (i + 1) in if m i == 0 then suc rest else rest

-- The number of free pages behind the kernel and below `limit`.
abbrev pub available : (limit : ℕ) → Frames → ℕ
available limit f = count_zero (limit - f.last_kernel) f.phys_mem f.last_kernel

count_zero-out :
    (n : ℕ) (m : ℕ → ℕ) (i p : ℕ) → p < i → count_zero n (update m p 1) i ≡ count_zero n m i
unfolding count_zero
count_zero-out zero m i p h = refl
count_zero-out (suc n) m i p h = ground (arith, count_zero-out n m (i + 1) p (omega arith))

count_zero-take :
    (n : ℕ) (m : ℕ → ℕ) (i p : ℕ)
    → i ≤ p
    → p < i + n
    → m p ≡ 0
    → count_zero n (update m p 1) i + 1 ≡ count_zero n m i
unfolding count_zero
count_zero-take zero m i p a b z = absurd (omega arith)
count_zero-take (suc n) m i p a b z = elim (Bool-cases (p == i)) [
  | inl e ↦ ground (arith, count_zero-out n m (i + 1) p)
  | inr e ↦ ground (arith, count_zero-take n m (i + 1) p)
]

count_zero-full :
    (n : ℕ) (m : ℕ → ℕ) (i : ℕ) → ((p : ℕ) → i ≤ p → p < i + n → m p ≢ 0) → count_zero n m i ≡ 0
unfolding count_zero
count_zero-full zero m i h = refl
count_zero-full (suc n) m i h =
    let rest = count_zero-full n m (i + 1) (λ p a b. h p (omega (arith, a)) (omega (arith, b))) in
    ground (arith, rest, h i (omega arith) (omega arith))

-- While there are pages below `limit` the call succeeds with one of them, and there is one less.
pub alloc_frame-available :
    (limit : ℕ) (f : Frames) (n : ℕ)
    → limit ≤ total_pages
    → available limit f ≡ suc n
    → (i : ℕ) × (g : Frames) × (alloc_frame f ≡ (pos i, g))
      × Taken f i g
      × (i < limit)
      × (available limit g ≡ n)
alloc_frame-available limit f n small h = elim (alloc_frame_cases f) [
  | inr (e, full) ↦
      let no : available limit f ≡ 0 =
        count_zero-full (limit - f.last_kernel) f.phys_mem f.last_kernel
          (λ p a b. full p a (omega (arith, b, a, small))) in
      absurd (omega (arith, h, no))
  | inl (i, g, e, t) ↦
      let inside : i < limit = elim (Bool-cases (ltb i limit)) [
        | inl s ↦ ground arith
        | inr s ↦
            let no : available limit f ≡ 0 =
              count_zero-full (limit - f.last_kernel) f.phys_mem f.last_kernel
                (λ p a b. t.lowest p a (ground (arith, s, a, b))) in
            absurd (omega (arith, h, no))
      ] in
      let change =
        count_zero-take (limit - f.last_kernel) f.phys_mem f.last_kernel i t.above
          (omega (arith, inside, t.above)) t.was_free in
      (i, g, e, t, inside, rw t.marked (omega (arith, change, h)))
]

-- A page below `limit` that was free in `f`, and that is in use in `g`.
pub record Fresh (limit : ℕ) (f g : Frames) (q : ℕ) : Type 0 where
  pub above : f.last_kernel ≤ q
  pub below : q < limit
  pub was_free : f.phys_mem q ≡ 0
  pub in_use : g.phys_mem q ≡ 1
