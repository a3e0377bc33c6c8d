-- ===== src/Boot/Idle.antt =====
-- The idle process after `init_idle`, and the start of the whole kernel.
use zeos_soa.Prelude.{ap, ℕ, ◌+◌, ◌*◌, ◌<◌, ◌≤◌, ◌≡◌, refl, true, false, arith, ◌==◌, ◌∙◌}
use zeos_soa.Prelude.Int.{pos, ltb_ℤ}
use zeos_soa.Lists.{Ptr, null}
use zeos_soa.Frames.{Frames, alloc_frame}
use zeos_soa.Frames.Alloc.{Taken}
use zeos_soa.Frames.Available.{available, alloc_frame-available}
use zeos_soa.Paging.{page_size}
use zeos_soa.Kernel.{Kernel, Task, set_task}
use zeos_soa.Sched.{set_quantum}
use zeos_soa.Calls.{get_dir}
use zeos_soa.Calls.Process.{enlist, new_frame, map_frame, fill_dir, allocate_dir}
use zeos_soa.Boot.{init_idle, idle_block, finish_idle, idle_task_of}
use zeos_soa.Frames.Grows.{Taken-Grows, Taken-used}
use zeos_soa.Boot.Init.{IdleReady, alloc_pcb-early, set_task-same}

-- `allocate_DIR` before there is a table of the kernel.
abbrev pub with_dir : Kernel → (t : Ptr) → (g : Frames) → (i : ℕ) → Kernel
with_dir k t g i =
    let k1 = record k { frames = g } in
    let k2 = set_task k1 t (record (k1.tasks t) { dir_pages_base_addr = i * page_size }) in
    record k2 { entries = fill_dir k2.entries (i * page_size) (get_dir k2 k2.current) }

allocate_dir-early :
    (k : Kernel) (t : Ptr) (g : Frames) (i : ℕ)
    → k.kernel_page_table ≡ null
    → alloc_frame k.frames ≡ (pos i, g)
    → allocate_dir k t ≡ (pos 1, with_dir k t g i)
unfolding allocate_dir new_frame map_frame
allocate_dir-early k t g i no_table al =
    let positive : ltb_ℤ (pos i) (pos 0) ≡ false = ground arith in
    let none : k.kernel_page_table == null ≡ true = ground (arith, no_table) in
    rw (al, positive, none) refl

-- The kernel that `init_idle` makes with the pages `i` and `j`.
abbrev pub idle_with : ℕ → Kernel → (g : Frames) → (i : ℕ) → (h : Frames) → (j : ℕ) → Kernel
idle_with cpu_idle k g i h j =
    let p = i * page_size in
    finish_idle cpu_idle (with_dir (idle_block (enlist (record k { frames = g }) p) p) p h j) p

init_idle-cut :
    (cpu_idle : ℕ) (k : Kernel) (g h : Frames) (i j : ℕ)
    → k.kernel_page_table ≡ null
    → alloc_frame k.frames ≡ (pos i, g)
    → alloc_frame g ≡ (pos j, h)
    → init_idle cpu_idle k ≡ idle_with cpu_idle k g i h j
unfolding init_idle idle_block enlist
init_idle-cut cpu_idle k g h i j no_table a b =
    let p = i * page_size in
    let k1 = idle_block (enlist (record k { frames = g }) p) p in
    rw (alloc_pcb-early k g i no_table a)
      (ap (λ x. finish_idle cpu_idle x.1 p) (allocate_dir-early k1 p h j no_table b))

abbrev with_quantum : Task → Task
with_quantum t = record t { quantum = 10 }

abbrev with_base : ℕ → Task → Task
with_base dir t = record t { dir_pages_base_addr = dir }

-- The fields that the block ends up with, whatever it held before.
finish_idle-task :
    (cpu_idle : ℕ) (k : Kernel) (p : Ptr)
    → (finish_idle cpu_idle k p).tasks p
      ≡ record (idle_task_of cpu_idle p (k.tasks p)) { quantum = 10 }
unfolding finish_idle set_quantum
finish_idle-task cpu_idle k p =
    let t = idle_task_of cpu_idle p (k.tasks p) in
    set_task-same (set_task k p t) p _ ∙ ap with_quantum (set_task-same k p t)

idle_block-task :
    (k : Kernel) (p : Ptr)
    → (idle_block k p).tasks p ≡ record (k.tasks p) { parent = null; pending_unblocks = pos 0 }
unfolding idle_block
idle_block-task k p = set_task-same k p _

pub idle_with-task :
    (cpu_idle : ℕ) (k : Kernel) (g h : Frames) (i j : ℕ)
    → let p = i * page_size in
      let t = (idle_with cpu_idle k g i h j).tasks p in
      (t.pid ≡ pos 0)
      × (t.quantum ≡ 10)
      × (t.parent ≡ null)
      × (t.pending_unblocks ≡ pos 0)
      × (t.dir_pages_base_addr ≡ j * page_size)
      × (t.kernel_esp ≡ p + 4 * 1022)
      × (t.stack 1022 ≡ 0)
      × (t.stack 1023 ≡ cpu_idle)
unfolding idle_task_of
idle_with-task cpu_idle k g h i j =
    let p = i * page_size in
    let b = idle_block (enlist (record k { frames = g }) p) p in
    let before : (with_dir b p h j).tasks p
        ≡ record (record ((enlist (record k { frames = g }) p).tasks p) {
          parent = null;
          pending_unblocks = pos 0;
        }) { dir_pages_base_addr = j * page_size } =
      set_task-same (record b { frames = h }) p _
      ∙ ap (with_base (j * page_size)) (idle_block-task _ p) in
    let all =
      finish_idle-task cpu_idle (with_dir b p h j) p
      ∙ ap (λ x. with_quantum (idle_task_of cpu_idle p x)) before in
    (
      ap (λ x. x.pid) all,
      ap (λ x. x.quantum) all,
      ap (λ x. x.parent) all,
      ap (λ x. x.pending_unblocks) all,
      ap (λ x. x.dir_pages_base_addr) all,
      ap (λ x. x.kernel_esp) all,
      ap (λ x. x.stack 1022) all,
      ap (λ x. x.stack 1023) all,
    )

pub idle_with-rest :
    (cpu_idle : ℕ) (k : Kernel) (g h : Frames) (i j : ℕ)
    → let k' = idle_with cpu_idle k g i h j in
      (k'.frames ≡ h)
      × (k'.idle_task ≡ i * page_size)
      × (k'.kernel_page_table ≡ k.kernel_page_table)
unfolding finish_idle set_quantum idle_block enlist
idle_with-rest cpu_idle k g h i j = (refl, refl, refl)

-- `init_idle` on two pages that were free.
pub init_idle-taken :
    (cpu_idle : ℕ) (k : Kernel) (m : ℕ)
    → k.kernel_page_table ≡ null
    → available 1024 k.frames ≡ 2 + m
    → (i : ℕ) × (j : ℕ) × (g : Frames) × (h : Frames) × (init_idle cpu_idle k
        ≡ idle_with cpu_idle k g i h j)
      × Taken k.frames i g
      × (i < 1024)
      × Taken g j h
      × (j < 1024)
      × (available 1024 h ≡ m)
init_idle-taken cpu_idle k m no_table enough =
    let (i, g, a, t, i_high, left) =
      alloc_frame-available 1024 k.frames (1 + m) (omega arith) (omega (arith, enough)) in
    let (j, h, b, u, j_high, rest) =
      alloc_frame-available 1024 g m (omega arith) (omega (arith, left)) in
    (i, j, g, h, init_idle-cut cpu_idle k g h i j no_table a b, t, i_high, u, j_high, rest)

idle_with-IdleReady :
    (cpu_idle : ℕ) (k : Kernel) (g h : Frames) (i j : ℕ)
    → k.kernel_page_table ≡ null
    → 1 ≤ k.frames.last_kernel
    → Taken k.frames i g
    → i < 1024
    → Taken g j h
    → j < 1024
    → IdleReady (idle_with cpu_idle k g i h j)
idle_with-IdleReady cpu_idle k g h i j no_table low t i_high u j_high =
    let (frames, idle, table) = idle_with-rest cpu_idle k g h i j in
    let above = t.above in
    record {
      no_table = table ∙ no_table;
      block = i;
      block_at = idle;
      block_used = rw frames ((Taken-Grows g h j u).used i (Taken-used k.frames g i t));
      block_low = omega (arith, above, low);
      block_high = i_high;
      dir = j;
      dir_at = rw idle (idle_with-task cpu_idle k g h i j).4;
      dir_used = rw frames (Taken-used g h j u);
      dir_high = j_high;
    }

-- With at least two free pages behind the kernel and below 1024, the kernel ending behind page 0,
-- and before there is a table of the kernel, `init_idle` makes `idle_task` a block on a page in use,
-- with PID 0, a quantum of 10, no parent, and a directory on a page in use; its stack pointer is at
-- a word 0 for EBP, with the address of `cpu_idle` in the next word; there is still no table of the
-- kernel, two free pages fewer are left, and the bounds of the kernel stay as they are.
pub init_idle-IdleReady :
    (cpu_idle : ℕ) (k : Kernel) (m : ℕ)
    → k.kernel_page_table ≡ null
    → available 1024 k.frames ≡ 2 + m
    → 1 ≤ k.frames.last_kernel
    → let k' = init_idle cpu_idle k in
      let t = k'.tasks k'.idle_task in
      IdleReady k'
      × (t.pid ≡ pos 0)
      × (t.quantum ≡ 10)
      × (t.parent ≡ null)
      × (t.kernel_esp ≡ k'.idle_task + 4 * 1022)
      × (t.stack 1022 ≡ 0)
      × (t.stack 1023 ≡ cpu_idle)
      × (available 1024 k'.frames ≡ m)
      × (k'.frames.first_kernel ≡ k.frames.first_kernel)
      × (k'.frames.last_kernel ≡ k.frames.last_kernel)
unfolding finish_idle
init_idle-IdleReady cpu_idle k m no_table enough low =
    let (i, j, g, h, eq, t, i_high, u, j_high, left) =
      init_idle-taken cpu_idle k m no_table enough in
    let (pid, quantum, parent, _, _, esp, ebp, entry) = idle_with-task cpu_idle k g h i j in
    let (frames, idle, table) = idle_with-rest cpu_idle k g h i j in
    rw (eq, idle)
      (
        idle_with-IdleReady cpu_idle k g h i j no_table low t i_high u j_high,
        pid,
        quantum,
        parent,
        esp,
        ebp,
        entry,
        rw frames left,
        rw (frames, u.marked, t.marked) refl,
        rw (frames, u.marked, t.marked) refl,
      )
