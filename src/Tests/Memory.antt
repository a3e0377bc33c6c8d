-- ===== src/Tests/Memory.antt =====
-- The theorems on pages, page tables, copies and shared pages, applied.
use zeos_soa.Prelude.{
  Bool-cases, inr, ℕ, ◌+◌, ◌≤◌, ◌<◌, ◌≡◌, ◌≢◌, ◌⊎◌, inl, refl, true, ◌&&◌, [], ◌∷◌, ◌==◌, leb, ltb,
  if◌then◌else◌, update, arith,
}
use zeos_soa.Prelude.Int.{pos, negsuc}
use zeos_soa.Frames.{
  Frames, total_pages, init_frames, alloc_frame, find_free, take_frame, free_frame, sys_get_stats,
}
use zeos_soa.Frames.Alloc.{Taken, alloc_frame_cases}
use zeos_soa.Frames.Count.{free_pages, alloc_frame-free_pages}
use zeos_soa.Frames.Init.{init_frames-phys_mem}
use zeos_soa.Frames.Owners.{Step, alloc, free, here, next, IsOwned, start, init_frames-IsOwned}
use zeos_soa.Paging.{zero_entry, slot, page_size, l_user_start}
use zeos_soa.Access.{
  Memory, access_ok, verify_read, verify_write, copy_data, copy_from_user, copy_to_user,
}
use zeos_soa.Access.Ranges.{user_end, access_ok-range, access_ok-verify_write, access_ok-past_end}
use zeos_soa.Access.Copies.{moved, copies-moved}
use zeos_soa.Calls.Shm.{sys_shmat, sys_shmdt, sys_shmrm}
use zeos_soa.Calls.Shm.Marks.{MarksOk, sys_shmrm-MarksOk}
use zeos_soa.Prelude.{◌*◌}
use zeos_soa.Lists.{null}
use zeos_soa.Paging.{free_user_pages}
use zeos_soa.Paging.Release.{free_user_pages-frees}
use zeos_soa.Kernel.{Kernel, task_list_of}
use zeos_soa.Calls.Process.{alloc_pcb, sys_exit}
use zeos_soa.Calls.Process.Create.{Created, alloc_pcb_cases}
use zeos_soa.Calls.Process.Uses.{uses, sys_exit-refs}
use zeos_soa.Calls.Shm.Detach.{CanDetach, UseDropped, is_last, sys_shmdt-drops}
use zeos_soa.Paging.{frame_address, get_frame}
use zeos_soa.Calls.{user_table}
use zeos_soa.Calls.Shm.{find_entry, is_shared_index, index_of}
use zeos_soa.Calls.Shm.Uses.{CanAttach, sys_shmdt-sys_shmat}
use zeos_soa.Tests.Kernels.{kernel, entry, alice, links_of, hops}

-- One page behind the kernel.
abbrev small : Frames
small = record { phys_mem = λ p. 0; first_kernel = 0x100; last_kernel = 2047 }

alloc_frame_cases_example :
    ((i : ℕ) × (g : Frames) × (alloc_frame small ≡ (pos i, g)) × Taken small i g)
    ⊎ ((alloc_frame small ≡ (negsuc 0, small))
        × ((p : ℕ) → 2047 ≤ p → p < total_pages → small.phys_mem p ≢ 0))
alloc_frame_cases_example = alloc_frame_cases small

-- The same with that page taken.
abbrev none_left : Frames
none_left = record small { phys_mem = update small.phys_mem 2047 1 }

small-taken : alloc_frame small ≡ (pos 2047, none_left)
unfolding alloc_frame find_free take_frame
small-taken = refl

alloc_frame-free_pages_example :
    (sys_get_stats none_left (pos 1) ≡ pos (free_pages none_left))
    × (free_pages none_left + 1 ≡ free_pages small)
alloc_frame-free_pages_example = alloc_frame-free_pages small none_left 2047 small-taken

-- Page 2047 is taken and given back.
first-Step : Step (start small) (record {
  map = record (init_frames small) { phys_mem = update (init_frames small).phys_mem 2047 1 };
  held = 2047 ∷ [];
})
unfolding init_frames alloc_frame find_free take_frame
first-Step =
    let empty : (init_frames small).phys_mem 2047 ≡ 0 =
      init_frames-phys_mem small 2047 (omega arith) in
    alloc 2047 _ (rw empty refl)

init_frames-IsOwned_example : IsOwned (record {
  map =
      free_frame
        (record (init_frames small) { phys_mem = update (init_frames small).phys_mem 2047 1 })
        2047;
  held = [];
})
unfolding init_frames
init_frames-IsOwned_example =
    init_frames-IsOwned small (next (next here first-Step) (free 2047 refl))

access_ok-range_example :
    access_ok verify_write l_user_start 100
    ≡ (leb l_user_start l_user_start && ltb (l_user_start + 100) (user_end + page_size))
access_ok-range_example = access_ok-range verify_write l_user_start 100 (omega arith) (omega arith)

access_ok-verify_write_example :
    access_ok verify_write l_user_start 100 ≡ access_ok verify_read l_user_start 100
access_ok-verify_write_example = access_ok-verify_write l_user_start 100

access_ok-past_end_example : access_ok verify_write user_end 100 ≡ true
access_ok-past_end_example =
    access_ok-past_end verify_write user_end 100 (omega arith) (omega arith)

abbrev bytes : Memory
bytes a = a

copies-moved_example :
    (copy_data bytes 100 200 7 206 ≡ moved bytes 100 200 7 206)
    × ((copy_from_user bytes 100 200 7).0 ≡ pos 0)
    × ((copy_from_user bytes 100 200 7).1 206 ≡ moved bytes 100 200 7 206)
    × ((copy_to_user bytes 100 200 7).0 ≡ pos 0)
    × ((copy_to_user bytes 100 200 7).1 206 ≡ moved bytes 100 200 7 206)
copies-moved_example = copies-moved bytes 100 200 7 206 (inl (omega arith))

kernel-MarksOk : MarksOk kernel.shared
kernel-MarksOk i lt = inl refl

-- The kernel with shared page 3 on frame 0x300 and mapped at entry 28 of the user table at 0x3000; the
-- page is marked for removal, and this is its last use.
abbrev last_use : Kernel
last_use = record kernel {
  entries = λ a.
      if a == alice + 0x1000 + 8 then entry 3 else if a == 0x3070 then entry 0x300 else zero_entry;
  shared = record {
    shared_frames = λ i. if i == 3 then pos 0x300 else negsuc 0;
    shared_refs = λ i. if i == 3 then pos 1 else pos 0;
    shared_marked_rm = λ i. if i == 3 then 1 else 0;
  };
}

last_use-MarksOk : MarksOk last_use.shared
last_use-MarksOk i lt = elim (Bool-cases (i == 3)) [
  | inl e ↦ rw e (inr (refl, refl, refl))
  | inr e ↦ rw e (inl refl)
]

sys_shmrm-MarksOk_example : MarksOk (sys_shmrm last_use (pos 3)).1.shared
sys_shmrm-MarksOk_example = sys_shmrm-MarksOk last_use (pos 3) last_use-MarksOk

last_use-CanDetach : CanDetach last_use 0x81_C000 3 0x300
unfolding is_shared_index index_of user_table frame_address get_frame
last_use-CanDetach = record {
  aligned = omega arith;
  inside = refl;
  present = omega arith;
  mapped = refl;
  id_in = omega arith;
  frame = refl;
  frame_in = omega arith;
  first = λ j lt. ground (arith, lt);
}

sys_shmdt-drops_example :
    let (r, k') = sys_shmdt last_use 0x81_C000 in
    (r ≡ pos 0)
    × UseDropped last_use.shared last_use.frames 3 0x300 k'.shared k'.frames
    × MarksOk k'.shared
sys_shmdt-drops_example =
    sys_shmdt-drops last_use 0x81_C000 3 0x300 last_use-CanDetach last_use-MarksOk

last_use-is_last : is_last last_use.shared 3 ≡ true
last_use-is_last = refl

-- The same page, not marked, with one use more by another process.
abbrev two_uses : Kernel
two_uses = record last_use {
  shared = record (last_use.shared) {
    shared_refs = λ i. if i == 3 then pos 2 else pos 0;
    shared_marked_rm = λ i. 0;
  };
}

sys_exit-refs_example : (sys_exit two_uses).shared.shared_refs 3 ≡ pos 1
unfolding uses user_table frame_address
sys_exit-refs_example =
    sys_exit-refs two_uses 3 0x300 1 (omega arith) refl (λ j lt. ground (arith, lt)) (λ j lt. refl)
      refl

free_user_pages-frees_example :
    let (f', e') = free_user_pages (kernel.frames, kernel.entries) 0x2000 in
    (e' (slot 0x2000 3) ≡ zero_entry)
    × (e' (slot 0x2000 23) ≡ entry 2)
    × (f'.phys_mem 2 ≡ 0)
    × (f'.phys_mem 7 ≡ 1)
free_user_pages-frees_example =
    free_user_pages-frees kernel.frames kernel.entries 0x2000 3 7 (omega arith) (omega arith)
      (λ p lt. omega arith)

-- The kernel with one process control block, on page 0x10, and with one page that is free.
abbrev one_process : Kernel
one_process = record kernel { links = links_of (hops 400 (task_list_of alice ∷ []) 400) }

fresh : (i : ℕ) → one_process.frames.phys_mem i ≡ 0 → i ≡ 0x300
fresh i h = ground arith

alloc_pcb_cases_example :
    ((i : ℕ) × (k' : Kernel) × (alloc_pcb one_process ≡ (i * page_size, k'))
      × Created one_process (task_list_of alice ∷ []) i k')
    ⊎ ((alloc_pcb one_process ≡ (null, one_process))
        × ((i : ℕ) → 0x200 ≤ i → i < total_pages → one_process.frames.phys_mem i ≢ 0))
alloc_pcb_cases_example =
    alloc_pcb_cases one_process (task_list_of alice ∷ [])
      (record { seg = (refl, refl, (refl, refl)); distinct = (refl, (refl, tt)) })
      (λ i h. ground (arith, fresh i h)) (λ i h. ground (arith, fresh i h))

-- The kernel with shared page 3 on frame 0x300, and with a table of user pages at 0x3000 that has
-- nothing behind the first 28 pages.
abbrev sharing : Kernel
sharing = record kernel {
  entries = λ a. if a == alice + 0x1000 + 8 then entry 3 else zero_entry;
  shared = record (kernel.shared) { shared_frames = λ i. if i == 3 then pos 0x300 else negsuc 0 };
}

sharing-CanAttach : CanAttach sharing 3 0x300 28
unfolding find_entry user_table frame_address
sharing-CanAttach = record {
  id_in = omega arith;
  frame = refl;
  frame_in = omega arith;
  first = λ j lt. ground (arith, lt);
  unmarked = refl;
  entry = refl;
  apart = omega arith;
}

sys_shmdt-sys_shmat_example :
    let (r, k1) = sys_shmat sharing (pos 3) 0 in
    let (r', k2) = sys_shmdt k1 0x81_C000 in
    (r ≡ pos 0x81_C000)
    × (r' ≡ pos 0)
    × (k2.shared.shared_refs 3 ≡ pos 0)
    × (k2.shared.shared_frames 3 ≡ pos 0x300)
    × (k2.entries (slot 0x3000 28) ≡ zero_entry)
unfolding user_table frame_address
sys_shmdt-sys_shmat_example = sys_shmdt-sys_shmat sharing 3 0x300 28 sharing-CanAttach
