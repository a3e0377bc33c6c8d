-- ===== src/Boot.antt =====
-- The start of the kernel: `init_mm` of zeos/mm.c, `init_idle` and `init_task1` of zeos/sched.c.
use zeos_soa.Prelude.{ℕ, ◌+◌, ◌-◌, ◌*◌, ◌/◌, ◌%◌, ◌^◌, List, [], ◌∷◌, ◌==◌, if◌then◌else◌, update}
use zeos_soa.Prelude.Int.{pos}
use zeos_soa.Lists.{Ptr, null, Links, init_list_head}
use zeos_soa.Frames.{init_frames}
use zeos_soa.Paging.{
  Entries, slot, l_user_start, num_pag_data, num_pag_code, to_unsigned, frame_address, set_ss_pag,
  clear_page_table, set_kernel_pages, set_user_pages,
}
use zeos_soa.Screen.{Screen, printk}
use zeos_soa.Kernel.{Kernel, Task, set_task, sibling_of, children_blocked_of, children_unblocked_of}
use zeos_soa.Sched.{kernel_esp_of, set_quantum}
use zeos_soa.Calls.{get_dir}
use zeos_soa.Calls.Shm.{init_shared_pages}
use zeos_soa.Calls.Process.{alloc_pcb, allocate_dir, auto_map_kernel_frame, new_frame}
pub mod Slots
pub mod Space
pub mod Cut
pub mod Build
pub mod Init
pub mod Installed
pub mod First
pub mod Idle

-- `KERNEL_START`
abbrev pub kernel_start : ℕ
kernel_start = 0x1_0000

-- `USER_ESP`
abbrev pub user_esp : ℕ
user_esp = l_user_start + num_pag_data * 0x1000

-- `show_PT_range` of libzeos.a prints a part of a page table with a message: what is on the screen
-- after it, from the kernel, the table, its first page, the number of pages and the message.
abbrev pub ShowPtRange : Type 0
ShowPtRange = Kernel → (pt start numpages : ℕ) → (msg : List ℕ) → Screen

-- `printk`, on the kernel.
unfoldable pub print : Kernel → List ℕ → Kernel
print k text = record k { screen = printk k.screen text }

-- The sums are of 32 bits; `sys_size` and `usr_size` are the words that `p_sys_size` and `p_usr_size`
-- point to.
unfoldable pub init_mm : (sys_size usr_size : ℕ) → Kernel → Kernel
init_mm sys_size usr_size k =
    let f = record (k.frames) {
      first_kernel = kernel_start / 4096;
      last_kernel = (kernel_start + sys_size + usr_size) % 2 ^ 32 / 4096 + 1;
    } in
    record k { frames = init_frames f; shared = init_shared_pages k.shared }

-- The two lists of children of a process that has none.
unfoldable pub init_children : Links → Ptr → Links
init_children l p =
    init_list_head (init_list_head l (children_blocked_of p)) (children_unblocked_of p)

-- The stack of the idle process: the last word is the address of `cpu_idle`, and the one before it
-- the EBP that it starts with.
unfoldable pub idle_task_of : (cpu_idle : ℕ) → Ptr → Task → Task
idle_task_of cpu_idle p t = record t {
  stack = update (update t.stack (1024 - 1) cpu_idle) (1024 - 2) 0;
  kernel_esp = p + 4 * (1024 - 2);
  pid = pos 0;
}

-- The block of the idle process before it has a directory.
unfoldable pub idle_block : Kernel → Ptr → Kernel
idle_block k p =
    let k = record k { links = init_children k.links p } in
    set_task k p (record (k.tasks p) { parent = null; pending_unblocks = pos 0 })

-- The stack and the number of the idle process, and its quantum.
unfoldable pub finish_idle : (cpu_idle : ℕ) → Kernel → Ptr → Kernel
finish_idle cpu_idle k p =
    let k = set_task k p (idle_task_of cpu_idle p (k.tasks p)) in
    record (set_quantum k p 10) { idle_task = p }

-- The results of `alloc_pcb` and of `allocate_DIR` are not tested.
unfoldable pub init_idle : (cpu_idle : ℕ) → Kernel → Kernel
init_idle cpu_idle k =
    let (p, k) = alloc_pcb k in finish_idle cpu_idle (allocate_dir (idle_block k p) p).1 p

-- `int f = alloc_frame();` and a cleared table on the page `f`: the number as an unsigned one, and the
-- kernel.
unfoldable pub new_table : Kernel → ℕ × Kernel
new_table k =
    let (frame, k) = new_frame k in
    let f = to_unsigned frame in
    (f, record k { entries = clear_page_table k.entries (frame_address f) })

-- `set_kernel_pages`, with what it prints.
unfoldable pub add_kernel_pages : ShowPtRange → Kernel → (pt : ℕ) → Kernel
add_kernel_pages show k pt =
    let k = record k { entries = set_kernel_pages k.frames k.entries pt } in
    let k = print k (b'\n' ∷ []) in
    let first = k.frames.first_kernel in
    let k = record k {
      screen = show k pt first (k.frames.last_kernel - first + 1) (
          b' ' ∷ b'R' ∷ b'e' ∷ b's' ∷ b'e' ∷ b'r' ∷ b'v' ∷ b'e' ∷ b'd' ∷ b' ' ∷ b'f' ∷ b'o' ∷ b'r'
          ∷ b' ' ∷ b'k' ∷ b'e' ∷ b'r' ∷ b'n' ∷ b'e' ∷ b'l' ∷ b' ' ∷ b'm' ∷ b'e' ∷ b'm' ∷ b'o' ∷ b'r'
          ∷ b'y' ∷ b'\n' ∷ []);
    } in
    let k = record k {
      screen = show k pt 0x90 1 (
          b' ' ∷ b'R' ∷ b'e' ∷ b's' ∷ b'e' ∷ b'r' ∷ b'v' ∷ b'e' ∷ b'd' ∷ b' ' ∷ b'f' ∷ b'o' ∷ b'r'
          ∷ b' ' ∷ b'G' ∷ b'D' ∷ b'T' ∷ b'\n' ∷ []);
    } in
    record k {
      screen = show k pt 0xb8 1 (
          b' ' ∷ b'R' ∷ b'e' ∷ b's' ∷ b'e' ∷ b'r' ∷ b'v' ∷ b'e' ∷ b'd' ∷ b' ' ∷ b'f' ∷ b'o' ∷ b'r'
          ∷ b' ' ∷ b'S' ∷ b'c' ∷ b'r' ∷ b'e' ∷ b'e' ∷ b'n' ∷ b' ' ∷ b'b' ∷ b'u' ∷ b'f' ∷ b'f' ∷ b'e'
          ∷ b'r' ∷ b'\n' ∷ []);
    }

-- `set_user_pages`, with what it prints.
unfoldable pub add_user_pages_to : ShowPtRange → Kernel → (pt : ℕ) → Kernel
add_user_pages_to show k pt =
    let (f, e) = set_user_pages (k.frames, k.entries) pt in
    let k = record k { frames = f; entries = e } in
    record k {
      screen = show k pt 0 (num_pag_data + num_pag_code) (
          b' ' ∷ b'R' ∷ b'e' ∷ b's' ∷ b'e' ∷ b'r' ∷ b'v' ∷ b'e' ∷ b'd' ∷ b' ' ∷ b'f' ∷ b'o' ∷ b'r'
          ∷ b' ' ∷ b'U' ∷ b's' ∷ b'e' ∷ b'r' ∷ b' ' ∷ b'm' ∷ b'e' ∷ b'm' ∷ b'o' ∷ b'r' ∷ b'y'
          ∷ b'\n' ∷ []);
    }

-- The pages of the tables of `init_task1`: of the directory, of the two tables of the system and of
-- the table of the user.
pub record Tables : Type 0 where
  pub dir : ℕ
  pub so : ℕ
  pub so2 : ℕ
  pub user : ℕ

-- The four tables, with the pages of the kernel and of the user.
unfoldable pub make_tables : ShowPtRange → Kernel → Tables × Kernel
make_tables show k =
    let (dir, k) = new_table k in
    let (so, k) = new_table k in
    let k = add_kernel_pages show k (frame_address so) in
    let (so2, k) = new_table k in
    let (user, k) = new_table k in
    let k = add_user_pages_to show k (frame_address user) in
    (record { dir = dir; so = so; so2 = so2; user = user }, k)

-- The entries of the directory, and the entries for the tables themselves.
unfoldable pub map_tables : Entries → Tables → Entries
map_tables e t =
    let init_tp = frame_address t.dir in
    let so_tp = frame_address t.so in
    let e = set_ss_pag e init_tp 0 t.so 0 in
    let e = set_ss_pag e init_tp 1 t.so2 0 in
    let e = set_ss_pag e init_tp 2 t.user 1 in
    let e = set_ss_pag e init_tp t.dir t.dir 0 in
    let e = set_ss_pag e so_tp t.so t.so 0 in
    let e = set_ss_pag e so_tp t.so2 t.so2 0 in set_ss_pag e so_tp t.user t.user 1

-- The pages of the two processes and of their directories, mapped for the kernel.
unfoldable pub map_blocks : Entries → Tables → (idle pcb idle_dir : ℕ) → Entries
map_blocks e t idle pcb idle_dir =
    let tp1 = frame_address t.so in
    let tp2 = frame_address t.so2 in
    let e = auto_map_kernel_frame e (idle / 4096) tp1 tp2 in
    let e = auto_map_kernel_frame e (pcb / 4096) tp1 tp2 in
    let e = auto_map_kernel_frame e t.dir tp1 tp2 in
    auto_map_kernel_frame e (idle_dir / 4096) tp1 tp2

-- The fields and the lists of the block `p` of the initial process.
unfoldable pub init_block : Kernel → Ptr → Kernel
init_block k p =
    let k = set_quantum (set_task k p (record (k.tasks p) { pid = pos 1 })) p 10 in
    let k = set_task k p (record (k.tasks p) { parent = null; pending_unblocks = pos 0 }) in
    record k { links = init_list_head (init_children k.links p) (sibling_of p) }

-- `get_DIR(idle_task)[0] = init_TP[0]; get_DIR(idle_task)[1] = init_TP[1];`
unfoldable pub share_system : Entries → (init_tp idle_dir : ℕ) → Entries
share_system e init_tp idle_dir =
    let e = update e (slot idle_dir 0) (e (slot init_tp 0)) in
    update e (slot idle_dir 1) (e (slot init_tp 1))

-- The tables are in use from here on: by the kernel, by the initial process `p` with the registers
-- that are loaded for it, and by the idle process, which gets the two entries of the system.
unfoldable pub install : Kernel → Ptr → Tables → Kernel
install k p t =
    let init_tp = frame_address t.dir in
    let k = record k {
      kernel_page_table = frame_address t.so;
      kernel_page_table2 = frame_address t.so2;
    } in
    let k = set_task k p (record (k.tasks p) { dir_pages_base_addr = init_tp }) in
    let e = share_system k.entries init_tp (get_dir k k.idle_task) in
    let cpu = record (k.cpu) {
      cr3 = get_dir k p;
      esp0 = kernel_esp_of p;
      sysenter_esp = kernel_esp_of p;
    } in
    record k { entries = if k.idle_task == null then k.entries else e; cpu = cpu; init_task = p }

-- The processor runs on the page of `p`, whose stack it takes next. The result of `alloc_pcb` is not
-- tested.
unfoldable pub init_task1 : ShowPtRange → Kernel → Kernel
init_task1 show k =
    let (p, k) = alloc_pcb k in
    let (t, k) = make_tables show (init_block k p) in
    let e = map_tables k.entries t in
    install (record k { entries = map_blocks e t k.idle_task p (get_dir k k.idle_task) }) p t
