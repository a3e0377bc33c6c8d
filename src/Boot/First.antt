-- ===== src/Boot/First.antt =====
-- The address space of the initial process after `init_task1`.
use zeos_soa.Prelude.{ℕ, ◌+◌, ◌*◌, ◌/◌, ◌<◌, ◌≤◌, ◌≡◌, ◌≢◌, refl, sym, true, arith, ◌∙◌, subst}
use zeos_soa.Prelude.Int.{pos}
use zeos_soa.Lists.{Ptr}
use zeos_soa.Frames.{Frames}
use zeos_soa.Frames.Alloc.{Taken}
use zeos_soa.Frames.Available.{available, alloc_frame-available, Fresh}
use zeos_soa.Paging.{Entries, slot, page_size, num_pag_data, num_pag_code, l_user_start}
use zeos_soa.Paging.Mapped.{user_entry}
use zeos_soa.Paging.UserPages.{writable}
use zeos_soa.Screen.{Screen}
use zeos_soa.Kernel.{Kernel}
use zeos_soa.Sched.{kernel_esp_of, set_quantum}
use zeos_soa.Calls.{get_dir, user_table, translate}
use zeos_soa.Boot.{ShowPtRange, Tables, init_block, init_task1}
use zeos_soa.Boot.Build.{Built, make_tables-Built}
use zeos_soa.Frames.Grows.{Grows, Taken-Grows}
use zeos_soa.Boot.Cut.{is_kernel_page}
use zeos_soa.Boot.Init.{
  IdleReady, with_block, with_block-frames, with_block-dir, installed, init_task1-cut,
}
use zeos_soa.Boot.Installed.{regs, space-user, space-kernel}

pub with_block-task :
    (k : Kernel) (g : Frames) (p : Ptr)
    → (((with_block k g p).tasks p).pid ≡ pos 1) × (((with_block k g p).tasks p).quantum ≡ 10)
unfolding init_block set_quantum
with_block-task k g p = (ground arith, ground arith)

-- What `init_task1` comes to, with what is known about its parts.
module _ (show : ShowPtRange) (k : Kernel) (m : ℕ) (ready : IdleReady k)
    (enough : available 1024 k.frames ≡ 33 + m) (low : 3 ≤ k.frames.last_kernel) where
  pub init_task1-Built :
      (i : ℕ) × (g : Frames) × (t : Tables) × (g' : Frames) × (e : Entries) × (s : Screen)
      × (init_task1 show k ≡ installed (with_block k g (i * page_size)) g' e s (i * page_size) t)
      × Taken k.frames i g
      × (i < 1024)
      × Built g t g' e m
  init_task1-Built =
      let (i, g, al, taken, i_high, left) =
        alloc_frame-available 1024 k.frames (32 + m) (omega arith) (omega (arith, enough)) in
      let b = with_block k g (i * page_size) in
      let frames = with_block-frames k g (i * page_size) in
      let last = (Taken-Grows k.frames g i taken).last in
      let (t, g', e, s, eq, built) =
        make_tables-Built show b m (rw frames left) (rw frames (omega (arith, last, low))) in
      (
        i,
        g,
        t,
        g',
        e,
        s,
        init_task1-cut show k g g' i t e s ready.no_table al eq,
        taken,
        i_high,
        subst (λ x. Built x t g' e m) frames built,
      )

pub Taken-kernel_page :
    (f g : Frames) (i page : ℕ) → Taken f i g → is_kernel_page g page ≡ is_kernel_page f page
Taken-kernel_page f g i page taken = rw taken.marked refl

Fresh-before :
    (limit : ℕ) (f g h : Frames) (q : ℕ) → Grows f g → Fresh limit g h q → Fresh limit f h q
Fresh-before limit f g h q grows fresh =
    let above = fresh.above in
    let last = grows.last in
    record {
      above = omega (arith, above, last);
      below = fresh.below;
      was_free = grows.free q fresh.was_free;
      in_use = fresh.in_use;
    }

space-installed :
    (show : ShowPtRange) (k : Kernel) (m : ℕ) (ready : IdleReady k) (page other kernel_page o : ℕ)
    → page < num_pag_data + num_pag_code
    → other < num_pag_data + num_pag_code
    → page ≢ other
    → kernel_page < 1024
    → is_kernel_page k.frames kernel_page ≡ true
    → o < page_size
    → (i : ℕ) (g : Frames) (t : Tables) (g' : Frames) (e : Entries) (s : Screen)
    → Taken k.frames i g
    → i < 1024
    → Built g t g' e m
    → let k' = installed (with_block k g (i * page_size)) g' e s (i * page_size) t in
      let find = translate k'.entries k'.cpu.cr3 in
      let frame = find (l_user_start + page * page_size + o) in
      Fresh 1024 k.frames k'.frames frame
      × (k'.entries (slot (user_table k' k'.init_task) page) ≡ user_entry frame (writable page))
      × (frame ≢ find (l_user_start + other * page_size + o))
      × (find (kernel_page * page_size + o) ≡ kernel_page)
      × (translate k'.entries (get_dir k' k.idle_task) (kernel_page * page_size + o) ≡ kernel_page)
      × (find (k'.init_task + o) ≡ k'.init_task / page_size)
      × (find (k.idle_task + o) ≡ k.idle_task / page_size)
      × (k'.cpu.cr3 ≡ get_dir k' k'.init_task)
      × (k'.cpu.esp0 ≡ kernel_esp_of k'.init_task)
      × ((k'.tasks k'.init_task).pid ≡ pos 1)
      × ((k'.tasks k'.init_task).quantum ≡ 10)
space-installed show k m ready page other kernel_page o h ho ne hk is off i g t g' e s taken i_high
      built =
    let p = i * page_size in
    let b = with_block k g p in
    let grows = Taken-Grows k.frames g i taken in
    let (idle, dir) = with_block-dir k g p k.idle_task in
    let at : b.idle_task ≡ ready.block * 4096 = idle ∙ ready.block_at in
    let dir_at : get_dir b b.idle_task ≡ ready.dir * 4096 = rw idle (dir ∙ ready.dir_at) in
    let was_free = taken.was_free in
    let block_used = ready.block_used in
    let apart : i ≢ ready.block = λ same. ground (arith, was_free, block_used, same) in
    let used = grows.used ready.dir ready.dir_used in
    let is' : is_kernel_page g kernel_page ≡ true =
      Taken-kernel_page k.frames g i kernel_page taken ∙ is in
    let user =
      space-user b g g' e s i t m built ready.block ready.dir at dir_at ready.block_low
        ready.block_high ready.dir_high i_high apart used page other kernel_page o h ho ne hk is'
        off in
    let kernel =
      space-kernel b g g' e s i t m built ready.block ready.dir at dir_at ready.block_low
        ready.block_high ready.dir_high i_high apart used page other kernel_page o h ho ne hk is'
        off in
    let r =
      regs b g g' e s i t m built ready.block ready.dir at dir_at ready.block_low ready.block_high
        ready.dir_high i_high apart used in
    let (pid, quantum) = with_block-task k g p in
    let frames = r.5 in
    let first = r.4 in
    let k' = installed b g' e s p t in
    (
      rw frames (Fresh-before 1024 k.frames g g' _ grows user.0),
      user.1,
      user.2,
      kernel.0,
      subst (λ x. translate k'.entries (get_dir k' x) (kernel_page * page_size + o) ≡ kernel_page)
          idle kernel.1,
      rw first kernel.2,
      subst (λ x. translate k'.entries k'.cpu.cr3 (x + o) ≡ x / page_size) idle kernel.3,
      rw first (r.0 ∙ sym r.3),
      rw first r.1,
      rw first (r.6 ∙ pid),
      rw first (r.7 ∙ quantum),
    )

-- With 33 free pages behind the kernel and below 1024, and an idle process on pages of its own,
-- `init_task1` leaves a process with PID 1 and a quantum of 10 whose directory, in CR3, maps the user's
-- pages on fresh frames, and the kernel's pages and the two blocks at their own numbers.
pub init_task1-space :
    (show : ShowPtRange) (k : Kernel) (m page other kernel_page o : ℕ)
    → IdleReady k
    → available 1024 k.frames ≡ 33 + m
    → 3 ≤ k.frames.last_kernel
    → page < num_pag_data + num_pag_code
    → other < num_pag_data + num_pag_code
    → page ≢ other
    → kernel_page < 1024
    → is_kernel_page k.frames kernel_page ≡ true
    → o < page_size
    → let k' = init_task1 show k in
      let find = translate k'.entries k'.cpu.cr3 in
      let frame = find (l_user_start + page * page_size + o) in
      Fresh 1024 k.frames k'.frames frame
      × (k'.entries (slot (user_table k' k'.init_task) page) ≡ user_entry frame (writable page))
      × (frame ≢ find (l_user_start + other * page_size + o))
      × (find (kernel_page * page_size + o) ≡ kernel_page)
      × (translate k'.entries (get_dir k' k.idle_task) (kernel_page * page_size + o) ≡ kernel_page)
      × (find (k'.init_task + o) ≡ k'.init_task / page_size)
      × (find (k.idle_task + o) ≡ k.idle_task / page_size)
      × (k'.cpu.cr3 ≡ get_dir k' k'.init_task)
      × (k'.cpu.esp0 ≡ kernel_esp_of k'.init_task)
      × ((k'.tasks k'.init_task).pid ≡ pos 1)
      × ((k'.tasks k'.init_task).quantum ≡ 10)
unfolding user_table
init_task1-space show k m page other kernel_page o ready enough low h ho ne hk is off =
    let (i, g, t, g', e, s, eq, taken, i_high, built) =
      init_task1-Built show k m ready enough low in
    rw eq (
      space-installed show k m ready page other kernel_page o h ho ne hk is off i g t g' e s taken
        i_high built)
