-- ===== src/Boot/Init.antt =====
-- The first two processes: what `init_idle` and `init_task1` leave.
use zeos_soa.Prelude.{ap, ℕ, ◌*◌, ◌<◌, ◌≤◌, ◌≡◌, ◌≢◌, refl, sym, true, false, arith, ◌==◌, ◌∙◌}
use zeos_soa.Prelude.Int.{pos, ltb_ℤ}
use zeos_soa.Lists.{Ptr, null}
use zeos_soa.Frames.{Frames, alloc_frame}
use zeos_soa.Paging.{Entries, slot, page_size, frame_address}
use zeos_soa.Screen.{Screen}
use zeos_soa.Kernel.{Kernel, Task, set_task}
use zeos_soa.Sched.{kernel_esp_of}
use zeos_soa.Calls.{get_dir}
use zeos_soa.Calls.Process.{alloc_pcb, enlist, new_frame, map_frame}
use zeos_soa.Boot.{
  ShowPtRange, Tables, init_block, make_tables, map_tables, map_blocks, install, share_system,
  init_task1,
}
use zeos_soa.Boot.Space.{AreApart}
use zeos_soa.Boot.Slots.{slot-apart, frame_address_lem}

-- What `init_task1` finds: no table of the kernel yet, and the block and the directory of the idle
-- process on pages in use, which one table can map.
pub record IdleReady (k : Kernel) : Type 0 where
  pub no_table : k.kernel_page_table ≡ null
  pub block : ℕ
  pub block_at : k.idle_task ≡ block * 4096
  pub block_used : k.frames.phys_mem block ≡ 1
  pub block_low : 1 ≤ block
  pub block_high : block < 1024
  pub dir : ℕ
  pub dir_at : get_dir k k.idle_task ≡ dir * 4096
  pub dir_used : k.frames.phys_mem dir ≡ 1
  pub dir_high : dir < 1024

-- `alloc_pcb` before there is a table of the kernel.
pub alloc_pcb-early :
    (k : Kernel) (g : Frames) (i : ℕ)
    → k.kernel_page_table ≡ null
    → alloc_frame k.frames ≡ (pos i, g)
    → alloc_pcb k ≡ (i * page_size, enlist (record k { frames = g }) (i * page_size))
unfolding alloc_pcb new_frame map_frame
alloc_pcb-early k g i no_table al =
    let positive : ltb_ℤ (pos i) (pos 0) ≡ false = ground arith in
    let none : k.kernel_page_table == null ≡ true = ground (arith, no_table) in
    rw (al, positive, none) refl

-- The kernel when the tables are built: with the block `p`.
abbrev pub with_block : Kernel → (g : Frames) → (p : Ptr) → Kernel
with_block k g p = init_block (enlist (record k { frames = g }) p) p

pub with_block-frames : (k : Kernel) (g : Frames) (p : Ptr) → (with_block k g p).frames ≡ g
unfolding init_block enlist zeos_soa.Sched.set_quantum
with_block-frames k g p = refl

pub with_block-dir :
    (k : Kernel) (g : Frames) (p q : Ptr)
    → ((with_block k g p).idle_task ≡ k.idle_task) × (get_dir (with_block k g p) q ≡ get_dir k q)
unfolding init_block enlist zeos_soa.Sched.set_quantum
with_block-dir k g p q = (refl, ground arith)

abbrev pub installed : Kernel → (g : Frames) → (e : Entries) → (s : Screen) → Ptr → Tables → Kernel
installed k g e s p t =
    install
      (record k {
        frames = g;
        entries = map_blocks (map_tables e t) t k.idle_task p (get_dir k k.idle_task);
        screen = s;
      })
      p t

pub init_task1-cut :
    (show : ShowPtRange) (k : Kernel) (g g' : Frames) (i : ℕ) (t : Tables) (e : Entries)
    (s : Screen)
    → k.kernel_page_table ≡ null
    → alloc_frame k.frames ≡ (pos i, g)
    → make_tables show (with_block k g (i * page_size))
      ≡ (t, record (with_block k g (i * page_size)) { frames = g'; entries = e; screen = s })
    → init_task1 show k ≡ installed (with_block k g (i * page_size)) g' e s (i * page_size) t
unfolding init_task1
init_task1-cut show k g g' i t e s no_table al built =
    rw (alloc_pcb-early k g i no_table al, built) refl

pub set_task-dir_other :
    (k : Kernel) (p q : Ptr) (v : Task) → p ≢ q → get_dir (set_task k p v) q ≡ get_dir k q
set_task-dir_other k p q v ne = ground (arith, ne)

pub set_task-same : (k : Kernel) (p : Ptr) (v : Task) → (set_task k p v).tasks p ≡ v
set_task-same k p v = ground arith

-- What `install` leaves, where the idle process has its block `b` and its directory `j` on pages
-- apart from those of the new process and of its tables.
module _ (k : Kernel) (g : Frames) (e : Entries) (s : Screen) (i : ℕ) (t : Tables) (ok : AreApart t)
    (b j : ℕ) (idle : k.idle_task ≡ b * 4096) (idle_dir : get_dir k k.idle_task ≡ j * 4096)
    (b_low : 1 ≤ b) (b_high : b < 1024) (j_high : j < 1024) (i_high : i < 1024) (b_i : i ≢ b)
    (j_dir : j ≢ t.dir) (j_so : j ≢ t.so) (j_user : j ≢ t.user) where
  abbrev p : Ptr
  p = i * page_size

  abbrev mapped : Entries
  mapped = map_blocks (map_tables e t) t k.idle_task p (get_dir k k.idle_task)

  abbrev after : Kernel
  after = installed k g e s p t

  dir_slot : j * 4096 ≡ frame_address j
  dir_slot = sym (frame_address_lem j j_high)

  other : p ≢ k.idle_task
  other same = b_i (omega (arith, same, idle))

  abbrev loaded : Kernel
  loaded = set_task k p (record (k.tasks p) { dir_pages_base_addr = frame_address t.dir })

  idle_dir-loaded : get_dir loaded k.idle_task ≡ frame_address j
  idle_dir-loaded = set_task-dir_other k p k.idle_task _ other ∙ idle_dir ∙ dir_slot

  task-loaded : loaded.tasks p ≡ record (k.tasks p) { dir_pages_base_addr = frame_address t.dir }
  task-loaded = set_task-same k p _

  there : k.idle_task == null ≡ false
  there = ground (arith, idle, b_low)

  installed-shared : after.entries ≡ share_system mapped (frame_address t.dir) (frame_address j)
  unfolding install
  installed-shared = rw there (ap (share_system mapped (frame_address t.dir)) idle_dir-loaded)

  share_system-other :
      (d : Entries) (a : ℕ)
      → slot (frame_address j) 0 ≢ a
      → slot (frame_address j) 1 ≢ a
      → share_system d (frame_address t.dir) (frame_address j) a ≡ d a
  unfolding share_system
  share_system-other d a ne0 ne1 = ground (arith, ne0, ne1)

  share_system-idle :
      (d : Entries)
      → let d' = share_system d (frame_address t.dir) (frame_address j) in
        (d' (slot (frame_address j) 0) ≡ d (slot (frame_address t.dir) 0))
        × (d' (slot (frame_address j) 1) ≡ d (slot (frame_address t.dir) 1))
  unfolding share_system
  share_system-idle d =
      let ne = slot-apart j t.dir 0 1 j_dir j_high ok.dir_high (omega arith) (omega arith) in
      (ground arith, ground (arith, ne))

  installed-entries :
      (a : ℕ)
      → slot (frame_address j) 0 ≢ a
      → slot (frame_address j) 1 ≢ a
      → after.entries a ≡ mapped a
  installed-entries a ne0 ne1 = ap (λ d. d a) installed-shared ∙ share_system-other mapped a ne0 ne1

  pub installed-table :
      (x q : ℕ)
      → j ≢ x
      → x < 1024
      → q < 1024
      → after.entries (slot (frame_address x) q) ≡ mapped (slot (frame_address x) q)
  installed-table x q ne hx hq =
      installed-entries (slot (frame_address x) q)
        (slot-apart j x 0 q ne j_high hx (omega arith) hq)
        (slot-apart j x 1 q ne j_high hx (omega arith) hq)

  -- The idle process has the two tables of the system.
  pub installed-idle :
      (after.entries (slot (frame_address j) 0) ≡ mapped (slot (frame_address t.dir) 0))
      × (after.entries (slot (frame_address j) 1) ≡ mapped (slot (frame_address t.dir) 1))
  installed-idle =
      let (a, b) = share_system-idle mapped in
      (
        ap (λ d. d (slot (frame_address j) 0)) installed-shared ∙ a,
        ap (λ d. d (slot (frame_address j) 1)) installed-shared ∙ b,
      )

  pub installed-regs :
      (after.cpu.cr3 ≡ frame_address t.dir)
      × (after.cpu.esp0 ≡ kernel_esp_of p)
      × (after.cpu.sysenter_esp ≡ kernel_esp_of p)
      × (get_dir after p ≡ frame_address t.dir)
      × (after.init_task ≡ p)
      × (after.frames ≡ g)
      × ((after.tasks p).pid ≡ (k.tasks p).pid)
      × ((after.tasks p).quantum ≡ (k.tasks p).quantum)
  unfolding install
  installed-regs =
      let dir : get_dir loaded p ≡ frame_address t.dir =
        ap (λ x. x.dir_pages_base_addr) task-loaded in
      (
        dir,
        refl,
        refl,
        dir,
        refl,
        refl,
        ap (λ x. x.pid) task-loaded,
        ap (λ x. x.quantum) task-loaded,
      )

  pub installed-idle_dir : get_dir after k.idle_task ≡ frame_address j
  unfolding install
  installed-idle_dir = idle_dir-loaded
