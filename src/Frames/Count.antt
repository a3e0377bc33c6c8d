-- ===== src/Frames/Count.antt =====
-- `sys_get_stats(1)` (zeos/sys.c) against `alloc_frame` and `free_frame`.
use zeos_soa.Prelude.{
  ℕ, zero, suc, ◌+◌, ◌≤◌, ◌<◌, ◌≡◌, refl, ◌==◌, ltb, arith, if◌then◌else◌, update, Bool-cases, inl,
  inr,
}
use zeos_soa.Prelude.Int.{pos}
use zeos_soa.Frames.{Frames, total_pages, count_free, sys_get_stats, alloc_frame, free_frame}
use zeos_soa.Frames.Alloc.{alloc_frame-Taken}

-- One page counts for itself.
abbrev weight : ℕ → ℕ
weight mark = if mark == 1 then 0 else 1

count_free-update_out :
    (n : ℕ) (m : ℕ → ℕ) (i p v : ℕ) → p < i → count_free n (update m p v) i ≡ count_free n m i
unfolding count_free
count_free-update_out zero m i p v h = refl
count_free-update_out (suc n) m i p v h =
    ground (arith, count_free-update_out n m (i + 1) p v (omega arith))

count_free-update :
    (n : ℕ) (m : ℕ → ℕ) (i p v : ℕ)
    → i ≤ p
    → p < i + n
    → count_free n (update m p v) i + weight (m p) ≡ count_free n m i + weight v
unfolding count_free
count_free-update zero m i p v a b = absurd (omega arith)
count_free-update (suc n) m i p v a b = elim (Bool-cases (p == i)) [
  | inl e ↦ ground (arith, count_free-update_out n m (i + 1) p v)
  | inr e ↦ ground (arith, count_free-update n m (i + 1) p v)
]

-- The number that `sys_get_stats(1)` returns.
abbrev pub free_pages : Frames → ℕ
free_pages f = count_free total_pages f.phys_mem 0

-- A successful `alloc_frame` lowers the count of `sys_get_stats(1)` by one.
pub alloc_frame-free_pages :
    (f g : Frames) (i : ℕ)
    → alloc_frame f ≡ (pos i, g)
    → (sys_get_stats g (pos 1) ≡ pos (free_pages g)) × (free_pages g + 1 ≡ free_pages f)
unfolding sys_get_stats
alloc_frame-free_pages f g i e =
    let t = alloc_frame-Taken f g i e in
    let change =
      count_free-update total_pages f.phys_mem 0 i 1 (omega arith) (omega (arith, t.below)) in
    (refl, rw t.marked (omega (arith, rw t.was_free at change)))

-- `free_frame` of a page in use raises the count of free pages by one; of a page that is free, or
-- out of range, it leaves the count.
pub free_frame-free_pages :
    (f : Frames) (i : ℕ)
    → free_pages (free_frame f i) ≡ (
        if ltb i total_pages
        then (if f.phys_mem i == 1 then free_pages f + 1 else free_pages f)
        else free_pages f)
unfolding free_frame
free_frame-free_pages f i = elim (Bool-cases (ltb i total_pages)) [
  | inl e ↦ ground (arith, count_free-update total_pages f.phys_mem 0 i 0)
  | inr e ↦ rw e
]
