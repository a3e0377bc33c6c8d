-- ===== src/Frames/Init.antt =====
-- Which pages `init_frames` keeps out of use.
use zeos_soa.Prelude.{
  ℕ, zero, suc, ◌+◌, ◌-◌, ◌<◌, ◌≡◌, refl, Bool, ◌==◌, ltb, leb, ◌&&◌, ◌||◌, arith, if◌then◌else◌,
  update,
}
use zeos_soa.Frames.{Frames, total_pages, fill, init_frames}

fill-get :
    (n from mark : ℕ) (m : ℕ → ℕ) (p : ℕ)
    → fill n from mark m p ≡ (if leb from p && ltb p (from + n) then mark else m p)
unfolding fill
fill-get zero from mark m p = ground arith
fill-get (suc n) from mark m p = ground (arith, fill-get n (from + 1) mark (update m from mark) p)

-- The kernel's own pages, the page of the GDT, and those of the screen and the BIOS.
abbrev pub reserved : Frames → ℕ → Bool
reserved f p =
    (leb f.first_kernel p && ltb p f.last_kernel) || (p == 0x90) || (leb 0xA0 p && ltb p 0x100)

-- After `init_frames` the pages of the kernel, of the GDT, the screen and the BIOS are in use, and
-- all others below `TOTAL_PAGES` are free.
pub init_frames-phys_mem :
    (f : Frames) (p : ℕ)
    → p < total_pages
    → (init_frames f).phys_mem p ≡ (if reserved f p then 1 else 0)
unfolding init_frames
init_frames-phys_mem f p h = rw fill-get (
    ground (
      arith,
      fill-get (f.last_kernel - f.first_kernel) f.first_kernel 1 (fill total_pages 0 0 f.phys_mem)
          p,
      fill-get total_pages 0 0 f.phys_mem p,
    ))

pub reserved-init_frames : (f : Frames) (p : ℕ) → reserved (init_frames f) p ≡ reserved f p
unfolding init_frames
reserved-init_frames f p = refl
