-- ===== src/Frames/Grows.antt =====
-- What several calls of `alloc_frame` keep: pages in use stay in use.
use zeos_soa.Prelude.{ℕ, ◌≡◌, ◌≢◌, refl, arith, ◌∙◌}
use zeos_soa.Frames.{Frames}
use zeos_soa.Frames.Alloc.{Taken}

-- Pages that are in use stay so, and the kernel's own are the same.
pub record Grows (f g : Frames) : Type 0 where
  pub used : (q : ℕ) → f.phys_mem q ≡ 1 → g.phys_mem q ≡ 1
  pub free : (q : ℕ) → g.phys_mem q ≡ 0 → f.phys_mem q ≡ 0
  pub last : g.last_kernel ≡ f.last_kernel

pub Grows-refl : (f : Frames) → Grows f f
Grows-refl f = record { used = λ q h. h; free = λ q h. h; last = refl }

pub Grows-then : (f g h : Frames) → Grows f g → Grows g h → Grows f h
Grows-then f g h a b = record {
  used = λ q u. b.used q (a.used q u);
  free = λ q u. a.free q (b.free q u);
  last = b.last ∙ a.last;
}

pub Taken-Grows : (f g : Frames) (i : ℕ) → Taken f i g → Grows f g
Taken-Grows f g i t =
    rw t.marked
      (record { used = λ q h. ground (arith, h); free = λ q h. ground (arith, h); last = refl })

pub Taken-used : (f g : Frames) (i : ℕ) → Taken f i g → g.phys_mem i ≡ 1
Taken-used f g i t = rw t.marked (ground arith)

-- A page that was taken is not one that is free later.
pub Taken-ne : (f g h : Frames) (i j : ℕ) → Taken f i g → Grows g h → h.phys_mem j ≡ 0 → i ≢ j
Taken-ne f g h i j t gr z same =
    let used : h.phys_mem i ≡ 1 = gr.used i (Taken-used f g i t) in ground (arith, used, z, same)
