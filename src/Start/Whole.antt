-- ===== src/Start/Whole.antt =====
-- The state of the kernel behind `init_mm`, `init_sched`, `init_idle` and `init_task1`.
use zeos_soa.Prelude.{
  ℕ, zero, suc, ◌+◌, ◌-◌, ◌*◌, ◌/◌, ◌%◌, ◌^◌, ◌<◌, ◌≤◌, ◌≡◌, ◌≢◌, refl, true, false, arith, ◌∙◌,
}
use zeos_soa.Prelude.Int.{pos}
use zeos_soa.Lists.{null}
use zeos_soa.Frames.{Frames, init_frames}
use zeos_soa.Frames.Init.{reserved, init_frames-phys_mem}
use zeos_soa.Frames.Available.{available, count_zero}
use zeos_soa.Paging.{slot, page_size, num_pag_data, num_pag_code, l_user_start}
use zeos_soa.Paging.UserPages.{writable}
use zeos_soa.Paging.Mapped.{user_entry}
use zeos_soa.Kernel.{Kernel}
use zeos_soa.Sched.{init_sched}
use zeos_soa.Calls.{get_dir, user_table, translate}
use zeos_soa.Boot.{ShowPtRange, kernel_start, init_mm, init_idle}
use zeos_soa.Start.{init_kernel}
use zeos_soa.Boot.Cut.{is_kernel_page}
use zeos_soa.Boot.First.{init_task1-space}
use zeos_soa.Boot.Idle.{init_idle-IdleReady}

count_zero-split :
    (a b : ℕ) (m : ℕ → ℕ) (i : ℕ)
    → count_zero (a + b) m i ≡ count_zero a m i + count_zero b m (i + a)
unfolding count_zero
count_zero-split zero b m i =
    let n : 0 + b ≡ b = omega arith in let at : i + 0 ≡ i = omega arith in rw (n, at) (omega arith)
count_zero-split (suc a) b m i =
    let n : suc a + b ≡ suc (a + b) = omega arith in
    let at : i + suc a ≡ i + 1 + a = omega arith in
    rw (n, at) (ground (arith, count_zero-split a b m (i + 1)))

count_zero-free :
    (n : ℕ) (m : ℕ → ℕ) (i : ℕ) → ((p : ℕ) → i ≤ p → p < i + n → m p ≡ 0) → count_zero n m i ≡ n
unfolding count_zero
count_zero-free zero m i h = refl
count_zero-free (suc n) m i h =
    let rest = count_zero-free n m (i + 1) (λ p a b. h p (omega (arith, a)) (omega (arith, b))) in
    ground (arith, rest, h i (omega arith) (omega arith))

init_frames-last : (f : Frames) → (init_frames f).last_kernel ≡ f.last_kernel
unfolding init_frames
init_frames-last f = refl

-- A kernel whose pages end below 0x200 has 512 free pages behind it and below 1024.
init_frames-available : (f : Frames) → f.last_kernel ≤ 0x200 → 512 ≤ available 1024 (init_frames f)
init_frames-available f small =
    let m = (init_frames f).phys_mem in
    let last = f.last_kernel in
    let free = count_zero-free 512 m (last + (512 - last)) (λ p a b.
      init_frames-phys_mem f p (omega (arith, b, small))
      ∙ rw (out p (omega (arith, a, small))) refl) in
    let split = count_zero-split (512 - last) 512 m last in
    let n : 1024 - last ≡ 512 - last + 512 = omega (arith, small) in
    rw (init_frames-last f, n, split, free) (omega arith)
  where
    out : (p : ℕ) → 512 ≤ p → reserved f p ≡ false
    out p a = ground (arith, small, a)

pub init_mm-bounds :
    (sys_size usr_size : ℕ) (k : Kernel)
    → kernel_start + sys_size + usr_size < 0x20_0000
    → let k' = init_sched (init_mm sys_size usr_size k) in
      (k'.frames.last_kernel ≡ (kernel_start + sys_size + usr_size) / page_size + 1)
      × (k'.frames.first_kernel ≡ 0x10)
      × (k'.kernel_page_table ≡ k.kernel_page_table)
      × (512 ≤ available 1024 k'.frames)
unfolding init_mm init_sched init_frames
init_mm-bounds sys_size usr_size k small =
    let f = record (k.frames) {
      first_kernel = kernel_start / 4096;
      last_kernel = (kernel_start + sys_size + usr_size) % 2 ^ 32 / 4096 + 1;
    } in
    (omega (arith, small), refl, refl, init_frames-available f (omega (arith, small)))

is_kernel_page-image :
    (f : Frames) (page : ℕ)
    → f.first_kernel ≡ 0x10
    → 0x10 ≤ page
    → page < f.last_kernel
    → is_kernel_page f page ≡ true
is_kernel_page-image f page first a b = ground (arith, first, a, b)

-- Where there is no table of the kernel yet and the two images end below 2 MB, after `init_mm`,
-- `init_sched`, `init_idle` and `init_task1`: the frame of each of the 28 pages of the user is
-- behind the images, below 1024, marked as used and not that of another of these pages; the entry of
-- the user table is the one for this frame, writable for the data pages alone; the pages of the
-- images and the block of the initial process are found at their own numbers; CR3 holds the
-- directory of that process, which has PID 1.
pub init_kernel-space :
    (show : ShowPtRange) (cpu_idle sys_size usr_size : ℕ) (k : Kernel)
    (page other kernel_page o : ℕ)
    → k.kernel_page_table ≡ null
    → kernel_start + sys_size + usr_size < 0x20_0000
    → page < num_pag_data + num_pag_code
    → other < num_pag_data + num_pag_code
    → page ≢ other
    → 0x10 ≤ kernel_page
    → kernel_page ≤ (kernel_start + sys_size + usr_size) / page_size
    → o < page_size
    → let k' = init_kernel show cpu_idle sys_size usr_size k in
      let find = translate k'.entries k'.cpu.cr3 in
      let frame = find (l_user_start + page * page_size + o) in
      ((kernel_start + sys_size + usr_size) / page_size < frame)
      × (frame < 1024)
      × (k'.frames.phys_mem frame ≡ 1)
      × (k'.entries (slot (user_table k' k'.init_task) page) ≡ user_entry frame (writable page))
      × (frame ≢ find (l_user_start + other * page_size + o))
      × (find (kernel_page * page_size + o) ≡ kernel_page)
      × (find (k'.init_task + o) ≡ k'.init_task / page_size)
      × (k'.cpu.cr3 ≡ get_dir k' k'.init_task)
      × ((k'.tasks k'.init_task).pid ≡ pos 1)
unfolding init_kernel
init_kernel-space show cpu_idle sys_size usr_size k page other kernel_page o no_table small h ho ne
      a b off =
    let k1 = init_sched (init_mm sys_size usr_size k) in
    let (last, first, table, enough) = init_mm-bounds sys_size usr_size k small in
    let left = available 1024 k1.frames - 35 in
    let idle =
      init_idle-IdleReady cpu_idle k1 (33 + left) (table ∙ no_table) (omega (arith, enough))
        (omega (arith, last)) in
    let k2 = init_idle cpu_idle k1 in
    let first_2 = idle.8 ∙ first in
    let last_2 = idle.9 ∙ last in
    let space =
      init_task1-space show k2 left page other kernel_page o idle.0 idle.7 (omega (arith, last_2)) h
        ho ne (omega (arith, b, small))
        (is_kernel_page-image k2.frames kernel_page first_2 a (omega (arith, last_2, b))) off in
    let above = space.0.above in
    (
      omega (arith, above, last_2),
      space.0.below,
      space.0.in_use,
      space.1,
      space.2,
      space.3,
      space.5,
      space.7,
      space.9,
    )
