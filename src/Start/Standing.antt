-- ===== src/Start/Standing.antt =====
-- The start leaves a kernel whose two processes stand where they should.
use zeos_soa.Prelude.{
  ℕ, ◌+◌, ◌*◌, ◌-◌, ◌<◌, ◌≤◌, ◌≡◌, refl, ◌≢◌, false, [], ◌∷◌, ◌==◌, ◌∈◌, arith, Bool-cases, inl,
  inr, ◌∙◌, sym, ap, subst,
}
use zeos_soa.Prelude.Int.{pos}
use zeos_soa.Lists.{Ptr, null}
use zeos_soa.Frames.{Frames}
use zeos_soa.Frames.Available.{available}
use zeos_soa.Frames.Grows.{Taken-Grows, Taken-used}
use zeos_soa.Paging.{page_size, Entries}
use zeos_soa.Screen.{Screen}
use zeos_soa.Kernel.{Kernel}
use zeos_soa.Boot.{
  ShowPtRange, Tables, kernel_start, init_mm, init_idle, install, init_block, finish_idle,
  idle_block,
}
use zeos_soa.Boot.Idle.{idle_with, idle_with-task, init_idle-taken, init_idle-IdleReady}
use zeos_soa.Boot.Init.{installed, with_block}
use zeos_soa.Boot.First.{init_task1-Built}
use zeos_soa.Sched.{init_sched, set_quantum}
use zeos_soa.Calls.Process.{enlist}
use zeos_soa.Start.{init_kernel}
use zeos_soa.Start.Whole.{init_mm-bounds}
use zeos_soa.Start.Places.{LaidOut, start_links, first_two, start-Held, idle-Free, init-Free}
use zeos_soa.Places.World.{Census, World}
use zeos_soa.Places.Stands.{Stands}

-- The kernel that the start comes to, with the pages of the two blocks.
module _ (cpu_idle : ℕ) (k : Kernel) (g h : Frames) (i j : ℕ) (g2 g' : Frames) (e : Entries)
    (s : Screen) (i2 : ℕ) (t : Tables) (ne : i ≢ i2) where
  abbrev idle_k : Kernel
  idle_k = idle_with cpu_idle (init_sched k) g i h j

  abbrev both : Kernel
  both = with_block idle_k g2 (i2 * page_size)

  abbrev last : Kernel
  last = installed both g' e s (i2 * page_size) t

  last-fields :
      (last.links ≡ start_links k.heads k.links (i * page_size) (i2 * page_size))
      × (last.heads ≡ k.heads)
      × (last.idle_task ≡ i * page_size)
      × (last.init_task ≡ i2 * page_size)
  unfolding install init_block enlist set_quantum finish_idle idle_block init_sched
  last-fields = (refl, refl, refl, refl)

  last-idle :
      ((last.tasks (i * page_size)).pid ≡ pos 0)
      × ((last.tasks (i * page_size)).parent ≡ null)
      × ((last.tasks (i * page_size)).quantum ≡ 10)
  unfolding install init_block set_quantum enlist
  last-idle =
      let r = idle_with-task cpu_idle (init_sched k) g h i j in
      let apart : (i2 * page_size == i * page_size) ≡ false = ground (arith, ne) in
      (rw apart r.0, rw apart r.2, rw apart r.1)

  last-init :
      ((last.tasks (i2 * page_size)).pid ≡ pos 1)
      × ((last.tasks (i2 * page_size)).parent ≡ null)
      × ((last.tasks (i2 * page_size)).quantum ≡ 10)
  unfolding install init_block set_quantum enlist
  last-init = (ground arith, ground arith, ground arith)

  -- A process is one of the two.
  one_of_two :
      (A : Ptr → Type 0)
      → A (i * page_size)
      → A (i2 * page_size)
      → (t : Ptr) → t ∈ (i * page_size ∷ i2 * page_size ∷ [])
      → A t
  one_of_two A x y t k = elim (Bool-cases (t == i * page_size)) [
    | inl e ↦ let same : t ≡ i * page_size = ground arith in subst A (sym same) x
    | inr e ↦ let same : t ≡ i2 * page_size = ground arith in subst A (sym same) y
  ]

  abbrev census : Census
  census = first_two (i * page_size) (i2 * page_size)

  -- The initial process runs from its first entry of the kernel on.
  abbrev runs : Kernel
  runs = record last { current = last.init_task }

  last-Stands :
      LaidOut k.heads (i * 4096)
      → LaidOut k.heads (i2 * 4096)
      → Stands
          (first_two (i * page_size) (i2 * page_size))
          runs
          (record { at = λ x. []; running = i2 * page_size; left = last.remaining_quantum })
  last-Stands low low2 =
      let (links, heads, idle, init) = last-fields in
      record {
        counts = record {
          idle = idle;
          idle_known = ground arith;
          current_known = rw init (ground arith);
          parents = one_of_two (λ t. (last.tasks t).parent ≡ null) last-idle.1 last-init.1;
          pids =
              one_of_two (λ t. (last.tasks t).pid ≡ census.pid t) (ground (arith, last-idle.0))
                (ground (arith, last-init.0, ne));
          quanta = one_of_two (λ t. (last.tasks t).quantum ≡ 10) last-idle.2 last-init.2;
          different = λ a b m n e. ground (arith, m, n, e);
          ready_given = rw heads low.ready_given;
          waiting_given = rw heads low.blocked_given;
          readers_given = rw heads low.readers_given;
        };
        running = init;
        left = refl;
        held = rw (links, heads) (start-Held k.heads k.links i i2 low low2 ne);
        running_free = rw (links, heads) (init-Free k.heads k.links i i2 low low2 ne);
        idle = inr (inr (rw (links, heads) (idle-Free k.heads k.links i i2 low low2 ne)));
        placed = λ t k. ground arith;
        queued = λ t k. absurd (ground arith);
        families = record {
          blocked_are = λ p t i k. absurd (ground arith);
          unblocked_are = λ p t i k. absurd (ground arith);
          parent_known = λ t k h. absurd (h refl);
          blocked_there = λ t k h i. absurd (h refl);
          unblocked_there = λ t k h i. absurd (h refl);
        };
      }

LaidOut-above :
    (k : Kernel) (low high : ℕ) → low ≤ high → LaidOut k.heads low → LaidOut k.heads high
LaidOut-above k low high le laid =
    let a = laid.tasks_low in
    let b = laid.ready_low in
    let c = laid.blocked_low in
    let d = laid.readers_low in
    record {
      tasks_low = omega (arith, a);
      ready_low = omega (arith, b);
      blocked_low = omega (arith, c);
      readers_low = omega (arith, d);
      ready_given = laid.ready_given;
      blocked_given = laid.blocked_given;
      readers_given = laid.readers_given;
      tasks_ready = laid.tasks_ready;
      tasks_blocked = laid.tasks_blocked;
      tasks_readers = laid.tasks_readers;
      ready_blocked = laid.ready_blocked;
      ready_readers = laid.ready_readers;
      blocked_readers = laid.blocked_readers;
    }

-- The kernel that `main` leaves to the initial process, when that enters it.
abbrev pub started : Kernel → Kernel
started k = record k { current = k.init_task }

-- Nobody waits, and nobody has children.
abbrev pub start_world : Kernel → World
start_world k = record { at = λ x. []; running = k.init_task; left = k.remaining_quantum }

pub init_kernel-Stands :
    (show : ShowPtRange) (cpu_idle sys_size usr_size : ℕ) (k : Kernel)
    → k.kernel_page_table ≡ null
    → kernel_start + sys_size + usr_size < 0x20_0000
    → LaidOut k.heads (kernel_start + sys_size + usr_size)
    → let k' = init_kernel show cpu_idle sys_size usr_size k in
      Stands (first_two k'.idle_task k'.init_task) (started k') (start_world k')
unfolding init_kernel init_mm install init_block enlist set_quantum finish_idle idle_block
    init_sched
init_kernel-Stands show cpu_idle sys_size usr_size k no_table small laid =
    let k0 = init_mm sys_size usr_size k in
    let k1 = init_sched k0 in
    let (last_1, first, table, enough) = init_mm-bounds sys_size usr_size k small in
    let left = available 1024 k1.frames - 35 in
    let (i, j, g, h, eq, t, i_high, u, j_high, rest) =
      init_idle-taken cpu_idle k1 (33 + left) (table ∙ no_table) (omega (arith, enough)) in
    let ready =
      init_idle-IdleReady cpu_idle k1 (33 + left) (table ∙ no_table) (omega (arith, enough))
        (omega (arith, last_1)) in
    let k2 = init_idle cpu_idle k1 in
    let last_2 = ready.9 ∙ last_1 in
    let (i2, g2, tb, g', e, s, eq2, taken, i2_high, built) =
      init_task1-Built show k2 left ready.0 ready.7 (omega (arith, last_2)) in
    let frames : k2.frames ≡ h = ap (λ x. x.frames) eq in
    let used : h.phys_mem i ≡ 1 = (Taken-Grows g h j u).used i (Taken-used k1.frames g i t) in
    let was_free : h.phys_mem i2 ≡ 0 = subst (λ x. x.phys_mem i2 ≡ 0) frames taken.was_free in
    let ne : i ≢ i2 = λ same. ground (arith, used, was_free, same) in
    let total =
      eq2 ∙ ap (λ x. installed (with_block x g2 (i2 * page_size)) g' e s (i2 * page_size) tb) eq in
    let above = t.above in
    let above2 = taken.above in
    subst (λ x. Stands (first_two x.idle_task x.init_task) (started x) (start_world x)) (sym total)
      (last-Stands cpu_idle k0 g h i j g2 g' e s i2 tb ne
        (LaidOut-above k (kernel_start + sys_size + usr_size) (i * 4096)
          (omega (arith, above, last_1)) laid)
        (LaidOut-above k (kernel_start + sys_size + usr_size) (i2 * 4096)
          (omega (arith, above2, last_2)) laid))
