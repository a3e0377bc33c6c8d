-- ===== src/Frames.antt =====
-- zeos/mm.c: the byte map of physical pages, with `init_frames`, `alloc_frame` and `free_frame`.
use zeos_soa.Prelude.{ℕ, zero, suc, ◌+◌, ◌-◌, Option, none, some, ◌==◌, ltb, if◌then◌else◌, update}
use zeos_soa.Prelude.Int.{ℤ, pos, negsuc}
pub mod Alloc
pub mod Count
pub mod Init
pub mod Owners
pub mod Available
pub mod Grows

-- The page counts and addresses of zeos/include/mm_address.h.
abbrev pub total_pages : ℕ
total_pages = 2048

abbrev pub free_frame_mark : ℕ
free_frame_mark = 0

abbrev pub used_frame_mark : ℕ
used_frame_mark = 1

-- The globals `phys_mem`, `first_kernel` and `last_kernel`.
pub record Frames : Type 0 where
  pub phys_mem : ℕ → ℕ
  pub first_kernel : ℕ
  pub last_kernel : ℕ

-- `for (i = from; i < from + rounds; i++) phys_mem[i] = mark;`
unfoldable pub fill : (rounds from mark : ℕ) → (ℕ → ℕ) → ℕ → ℕ
fill zero from mark m = m
fill (suc n) from mark m = fill n (from + 1) mark (update m from mark)

unfoldable pub init_frames : Frames → Frames
init_frames f =
    let m = fill total_pages 0 free_frame_mark f.phys_mem in
    let m = fill (f.last_kernel - f.first_kernel) f.first_kernel used_frame_mark m in
    let m = update m 0x90 used_frame_mark in
    let m = fill (0x100 - 0xA0) 0xA0 used_frame_mark m in record f { phys_mem = m }

-- The search loop of `alloc_frame`, with the rounds that are left.
unfoldable pub find_free : (rounds : ℕ) → (ℕ → ℕ) → ℕ → Option ℕ
find_free zero m i = none
find_free (suc n) m i =
    let rest = find_free n m (i + 1) in if m i == free_frame_mark then some i else rest

-- What `alloc_frame` does with the result of its loop.
unfoldable pub take_frame : Frames → Option ℕ → ℤ × Frames
take_frame f none = (negsuc 0, f)
take_frame f (some i) = (pos i, record f { phys_mem = update f.phys_mem i used_frame_mark })

-- The frame number, or -1. The loop makes no round where `last_kernel` is `TOTAL_PAGES` or more.
unfoldable pub alloc_frame : Frames → ℤ × Frames
alloc_frame f = take_frame f (find_free (total_pages - f.last_kernel) f.phys_mem f.last_kernel)

unfoldable pub free_frame : Frames → ℕ → Frames
free_frame f frame =
    if ltb frame total_pages
    then record f { phys_mem = update f.phys_mem frame free_frame_mark }
    else f

-- The count of `sys_get_stats(1)` (zeos/sys.c): the pages from `i` on that are not in use.
unfoldable pub count_free : (rounds : ℕ) → (ℕ → ℕ) → ℕ → ℕ
count_free zero m i = 0
count_free (suc n) m i =
    let rest = count_free n m (i + 1) in if m i == used_frame_mark then rest else suc rest

-- `sys_get_stats` (zeos/sys.c); -22 is `-EINVAL`.
unfoldable pub sys_get_stats : Frames → ℤ → ℤ
sys_get_stats f (pos zero) = pos total_pages
sys_get_stats f (pos (suc zero)) = pos (count_free total_pages f.phys_mem 0)
sys_get_stats f _ = negsuc 21
