-- ===== src/Tests/Forks.antt =====
-- The theorems on `sys_fork`, applied to a kernel with an idle process and one that forks.
use zeos_soa.Prelude.{
  ℕ, ◌*◌, ◌%◌, ◌≤◌, ◌≡◌, refl, false, ltb, [], ◌∷◌, ◌==◌, ◌∈◌, ◌∉◌, inl, inr, if◌then◌else◌, arith,
  Bool-cases,
}
use zeos_soa.Prelude.Int.{pos, ltb_ℤ, eq_ℤ}
use zeos_soa.Lists.{Ptr, init_list_head, list_add_tail, set_next, set_prev}
use zeos_soa.Frames.{alloc_frame, find_free, take_frame}
use zeos_soa.Kernel.{Kernel}
use zeos_soa.Boot.{init_children}
use zeos_soa.Calls.Process.{
  sys_fork, alloc_pcb, new_frame, enlist, map_frame, copy_task, allocate_dir, fork_with_table,
  alloc_data, fork_copied, copy_pages, inherit_shared, inherit_entry, copy_page, free_pcb,
}
use zeos_soa.Calls.{load_cr3}
use zeos_soa.Start.Places.{LaidOut, first_two, start_links, start-Held, idle-Free, init-Free}
use zeos_soa.Places.World.{Census, World, with_child, on_fork}
use zeos_soa.Places.Stands.{Stands}
use zeos_soa.Places.Fork.Child.{CanFork, sys_fork-Stands}
use zeos_soa.Tests.Kernels.{kernel, heads, links, task}

-- The pages 0x110 and 0x111 hold the two blocks, and those from 0x120 on are free.
abbrev idle : Ptr
idle = 0x110 * 4096

abbrev init : Ptr
init = 0x111 * 4096

abbrev two : Kernel
two = record kernel {
  links = start_links heads links idle init;
  tasks = λ t. record (task t) { pid = if t == idle then pos 0 else pos 1; parent = 0 };
  frames = record {
    phys_mem = λ p. if ltb p 0x120 then 1 else 0;
    first_kernel = 0x10;
    last_kernel = 0x100;
  };
  current = init;
  idle_task = idle;
  init_task = init;
}

abbrev census : Census
census = first_two idle init

abbrev world : World
world = record { at = λ x. []; running = init; left = pos 1 }

laid : (i : ℕ) → 0x100 ≤ i → LaidOut heads (i * 4096)
laid i h = record {
  tasks_low = omega arith;
  ready_low = omega arith;
  blocked_low = omega arith;
  readers_low = omega arith;
  ready_given = ground arith;
  blocked_given = ground arith;
  readers_given = ground arith;
  tasks_ready = ground arith;
  tasks_blocked = ground arith;
  tasks_readers = ground arith;
  ready_blocked = ground arith;
  ready_readers = ground arith;
  blocked_readers = ground arith;
}

two-Stands : Stands census two world
two-Stands = record {
  counts = record {
    idle = refl;
    idle_known = refl;
    current_known = refl;
    parents = λ t i. refl;
    pids = λ t i. refl;
    quanta = λ t i. refl;
    different = λ a b i j e. ground (arith, i, j, e);
    ready_given = ground arith;
    waiting_given = ground arith;
    readers_given = ground arith;
  };
  running = refl;
  left = refl;
  held =
      start-Held heads links 0x110 0x111 (laid 0x110 (omega arith)) (laid 0x111 (omega arith))
        (ground arith);
  running_free =
      init-Free heads links 0x110 0x111 (laid 0x110 (omega arith)) (laid 0x111 (omega arith))
        (ground arith);
  idle = inr (
      inr (
        idle-Free heads links 0x110 0x111 (laid 0x110 (omega arith)) (laid 0x111 (omega arith))
          (ground arith)));
  placed = λ t i. ground (arith, i);
  queued = λ t i. absurd (ground arith);
  families = record {
    blocked_are = λ p t i k. absurd (ground arith);
    unblocked_are = λ p t i k. absurd (ground arith);
    parent_known = λ t k h. absurd (h refl);
    blocked_there = λ t k h i. absurd (h refl);
    unblocked_there = λ t k h i. absurd (h refl);
  };
}

-- A process of this kernel.
of_two : (P : Ptr → Type 0) → P idle → P init → (t : Ptr) → t ∈ (idle ∷ init ∷ []) → P t
of_two P a b t i = elim (Bool-cases (t == idle)) [
  | inl e ↦ let same : t ≡ idle = ground arith in rw same a
  | inr e ↦ let same : t ≡ init = ground arith in rw same b
]

two-CanFork : CanFork census two
unfolding init_list_head list_add_tail set_next set_prev init_children
two-CanFork = record {
  room = λ f above free. record {
    laid = laid 0x100 (omega arith);
    above = omega (arith, above);
    aligned = of_two (λ t. t % 4096 ≡ 0) refl refl;
    behind = of_two (λ t. 0x100 * 4096 ≤ t) (omega arith) (omega arith);
    fresh = ground (arith, free, above);
    ends = inr (init, refl, refl);
  };
  fresh_pid = of_two (λ t. eq_ℤ (census.pid t) (pos 101) ≡ false) refl refl;
  fresh_pid' = of_two (λ t. eq_ℤ (pos 101) (census.pid t) ≡ false) refl refl;
}

forks : ltb_ℤ (sys_fork 0x1234 two).0 (pos 0) ≡ false
unfolding sys_fork alloc_pcb new_frame alloc_frame find_free take_frame enlist map_frame copy_task
    allocate_dir fork_with_table alloc_data fork_copied load_cr3 copy_pages inherit_shared
    inherit_entry copy_page free_pcb
forks = refl

sys_fork-Stands_example :
    let p = (alloc_pcb two).0 in
    ((sys_fork 0x1234 two).0 ≡ pos 101)
    × (p ∉ census.processes)
    × Stands (with_child census init p (pos 101)) (sys_fork 0x1234 two).1 (on_fork world p)
sys_fork-Stands_example = sys_fork-Stands 0x1234 census two world two-Stands two-CanFork forks
