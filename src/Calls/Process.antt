-- ===== src/Calls/Process.antt =====
-- zeos/sched.c: `alloc_pcb`, `free_pcb`, `auto_map_kernel_frame` and `allocate_DIR`; zeos/sys.c:
-- `sys_fork` and `sys_exit`.
use zeos_soa.Prelude.{
  ℕ, zero, suc, ◌+◌, ◌-◌, ◌*◌, ◌/◌, Bool, not, List, [], ◌∷◌, ◌++◌, Option, none, some, ◌==◌, ltb,
  if◌then◌else◌, update,
}
use zeos_soa.Prelude.Int.{ℤ, pos, negsuc, neg, ltb_ℤ, pos_part, suc_ℤ}
use zeos_soa.Lists.{Ptr, null, Links, init_list_head, list_add_tail, list_del, set_next, set_prev}
use zeos_soa.Frames.{Frames, alloc_frame, free_frame}
use zeos_soa.Paging.{
  Entries, slot, pt_entries, page_size, num_pag_data, num_pag_code, l_user_start, to_unsigned,
  zero_entry, set_ss_pag, del_ss_pag, get_frame, clear_page_table, free_user_pages,
}
use zeos_soa.Kernel.{
  Kernel, Task, Shared, set_task, list_of, sibling_of, children_blocked_of, children_unblocked_of,
  task_list_of,
}
use zeos_soa.Sched.{sched_next_rr}
use zeos_soa.Calls.{eagain, enomem, get_dir, get_pt, user_table, load_cr3, translate}
use zeos_soa.Calls.Shm.{
  first_shared, num_shared_pages, temporary_page, set_refs, find_shared, drop_ref,
}
pub mod Exit
pub mod Uses
pub mod Create

unfoldable pub auto_map_kernel_frame : Entries → (frame tp1 tp2 : ℕ) → Entries
auto_map_kernel_frame e frame tp1 tp2 =
    if ltb frame 1024
    then set_ss_pag e tp1 frame frame 0
    else if not (tp2 == null)
    then set_ss_pag e tp2 (frame - 1024) frame 0
    else e

-- The mapping that follows each `alloc_frame` for the kernel, once there is a kernel page table.
unfoldable pub map_frame : Kernel → (frame : ℕ) → Kernel
map_frame k frame =
    let e = auto_map_kernel_frame k.entries frame k.kernel_page_table k.kernel_page_table2 in
    if k.kernel_page_table == null then k else record k { entries = e }

-- `alloc_frame`, on the kernel.
unfoldable pub new_frame : Kernel → ℤ × Kernel
new_frame k = let (frame, frames) = alloc_frame k.frames in (frame, record k { frames = frames })

-- The list heads of a new process control block.
unfoldable pub enlist : Kernel → Ptr → Kernel
enlist k p =
    let l = init_list_head k.links (task_list_of p) in
    let l = set_prev (set_next l (list_of p) null) (list_of p) null in
    record k { links = list_add_tail l (task_list_of p) k.heads.list_tasks }

unfoldable pub alloc_pcb : Kernel → Ptr × Kernel
alloc_pcb k =
    let (frame, k') = new_frame k in
    let p = pos_part frame * page_size in
    if ltb_ℤ frame (pos 0) then (null, k) else (p, enlist (map_frame k' (pos_part frame)) p)

unfoldable pub free_pcb : Kernel → Ptr → Kernel
free_pcb k p = record k {
  links = list_del k.links (task_list_of p);
  frames = free_frame k.frames (p / page_size);
}

-- A cleared directory with the first two entries of the current one.
unfoldable pub fill_dir : Entries → (dir from : ℕ) → Entries
fill_dir e dir from =
    let e = clear_page_table e dir in
    let e = update e (slot dir 0) (e (slot from 0)) in update e (slot dir 1) (e (slot from 1))

unfoldable pub allocate_dir : Kernel → Ptr → ℤ × Kernel
allocate_dir k t =
    let (frame, k1) = new_frame k in
    let k1 = map_frame k1 (pos_part frame) in
    let dir = pos_part frame * page_size in
    let k2 = set_task k1 t (record (k1.tasks t) { dir_pages_base_addr = dir }) in
    if ltb_ℤ frame (pos 0)
    then (negsuc 0, k)
    else (pos 1, record k2 { entries = fill_dir k2.entries dir (get_dir k2 k2.current) })

-- `copy_data(current(), child, sizeof(union task_union))`: the fields, the stack, and the links of
-- the five list heads, which still point to the neighbours of the parent.
unfoldable pub copy_links : Links → (from to : Ptr) → Links
copy_links l from to = set_prev (set_next l to (l.next from)) to (l.prev from)

unfoldable pub copy_task : Kernel → (child : Ptr) → Kernel
copy_task k child =
    let l = copy_links k.links (list_of k.current) (list_of child) in
    let l = copy_links l (children_blocked_of k.current) (children_blocked_of child) in
    let l = copy_links l (children_unblocked_of k.current) (children_unblocked_of child) in
    let l = copy_links l (sibling_of k.current) (sibling_of child) in
    let l = copy_links l (task_list_of k.current) (task_list_of child) in
    set_task (record k { links = l }) child (k.tasks k.current)

-- The loop that shares the code pages, over the pages from `i` on.
unfoldable pub share_code : (rounds : ℕ) → Entries → (parent_ut child_ut i : ℕ) → Entries
share_code zero e p c i = e
share_code (suc n) e p c i =
    share_code n (set_ss_pag e c (num_pag_data + i) (get_frame e p (num_pag_data + i)) 1) p c
      (i + 1)

-- The loop that allocates the data pages: whether it came to its end, the frames in order, and the
-- kernel.
unfoldable pub alloc_data : (rounds : ℕ) → Kernel → (child_ut i : ℕ) → Bool × List ℕ × Kernel
alloc_data zero k c i = (Bool.true, [], k)
alloc_data (suc n) k c i =
    let (frame, k1) = new_frame k in
    let f = pos_part frame in
    let (ok, fs, k2) =
      alloc_data n (record k1 { entries = set_ss_pag k1.entries c i f 1 }) c (i + 1) in
    if ltb_ℤ frame (pos 0) then (Bool.false, [], k) else (ok, f ∷ fs, k2)

unfoldable pub free_all : Frames → List ℕ → Frames
free_all m [] = m
free_all m (f ∷ fs) = free_all (free_frame m f) fs

-- A whole page is copied between two logical addresses of the current process.
unfoldable pub copy_page : Kernel → (start dest : ℕ) → Kernel
copy_page k start dest =
    let from = translate k.entries k.cpu.cr3 start in
    record k { pages = update k.pages (translate k.entries k.cpu.cr3 dest) (k.pages from) }

-- The loop that copies the data pages to the frames, through the page that is mapped for a while.
unfoldable pub copy_pages : Kernel → List ℕ → (i : ℕ) → Kernel
copy_pages k [] i = k
copy_pages k (f ∷ fs) i =
    let k1 =
      load_cr3
        (record k { entries = set_ss_pag k.entries (get_pt k k.current) temporary_page f 0 }) in
    let k2 =
      copy_page k1 ((l_user_start / page_size + i) * page_size) (temporary_page * page_size) in
    copy_pages (record k2 { entries = del_ss_pag k2.entries (get_pt k2 k2.current) temporary_page })
      fs (i + 1)

-- `shared_refs[i]++` for the shared page on `frame`, which the child has too.
unfoldable pub inherit_found : Kernel → (child_ut idx frame : ℕ) → Option ℕ → Kernel
inherit_found k c idx frame none = k
inherit_found k c idx frame (some i) = record k {
  entries = set_ss_pag k.entries c idx frame 1;
  shared = set_refs k.shared i (suc_ℤ (k.shared.shared_refs i));
}

unfoldable pub inherit_entry : Kernel → (parent_ut child_ut idx : ℕ) → Kernel
inherit_entry k p c idx =
    let frame = get_frame k.entries p idx in
    let found = find_shared num_shared_pages k.shared frame 0 in
    if (k.entries (slot p idx)).present == 0 then k else inherit_found k c idx frame found

unfoldable pub inherit_shared : (rounds : ℕ) → Kernel → (parent_ut child_ut idx : ℕ) → Kernel
inherit_shared zero k p c idx = k
inherit_shared (suc n) k p c idx = inherit_shared n (inherit_entry k p c idx) p c (idx + 1)

-- The last part of `sys_fork`: the fields of the child, its place in its parent's and in the ready
-- queue, and its stack. `ret_from_fork` is the address of that function.
unfoldable pub start_child : (ret_from_fork : ℕ) → Kernel → (child : Ptr) → Kernel
start_child ret_from_fork k child =
    let l = init_list_head k.links (children_blocked_of child) in
    let l = init_list_head l (children_unblocked_of child) in
    let l = list_add_tail l (sibling_of child) (children_unblocked_of k.current) in
    let l = list_add_tail l (list_of child) k.heads.readyqueue in
    let t = k.tasks child in
    let t' = record t {
      pid = suc_ℤ k.pid_global;
      quantum = 10;
      parent = k.current;
      pending_unblocks = pos 0;
      stack = update (update t.stack (1024 - 19) 0) (1024 - 18) ret_from_fork;
      kernel_esp = child + 4 * (1024 - 19);
    } in
    set_task (record k { links = l; pid_global = suc_ℤ k.pid_global }) child t'

-- `sys_fork` behind the allocation of the data pages.
unfoldable pub fork_copied :
    (ret_from_fork : ℕ)
    → (child : Ptr) → (ut_frame parent_ut : ℕ) → Bool × List ℕ × Kernel
    → ℤ × Kernel
fork_copied ret child ut_frame parent_ut (ok, fs, k) =
    let freed = record k { frames = free_frame (free_all k.frames fs) ut_frame } in
    let k1 = load_cr3 (copy_pages k fs 0) in
    let k2 =
      inherit_shared (pt_entries - first_shared) k1 parent_ut (ut_frame * page_size) first_shared in
    if ok
    then (suc_ℤ k.pid_global, start_child ret k2 child)
    else (neg eagain, free_pcb freed child)

-- `sys_fork` with the frame for the table of the child's user pages.
unfoldable pub fork_with_table :
    (ret_from_fork : ℕ) → Kernel → (child : Ptr) → (ut_frame : ℕ) → ℤ × Kernel
fork_with_table ret k child ut_frame =
    let k = map_frame k ut_frame in
    let ut = ut_frame * page_size in
    let e = set_ss_pag (clear_page_table k.entries ut) (get_dir k child) 2 ut_frame 1 in
    let parent_ut = user_table (record k { entries = e }) k.current in
    let e = share_code num_pag_code e parent_ut ut 0 in
    fork_copied ret child ut_frame parent_ut
      (alloc_data num_pag_data (record k { entries = e }) ut 0)

-- The result of `allocate_DIR` is not tested.
unfoldable pub sys_fork : (ret_from_fork : ℕ) → Kernel → ℤ × Kernel
sys_fork ret k =
    let (child, k1) = alloc_pcb k in
    let k2 = (allocate_dir (copy_task k1 child) child).1 in
    let (frame, k3) = new_frame k2 in
    if child == null
    then (neg enomem, k)
    else if ltb_ℤ frame (pos 0)
    then (neg eagain, free_pcb k2 child)
    else fork_with_table ret k3 child (pos_part frame)

-- One page of the loop of `sys_exit` over the shared pages.
unfoldable pub drop_found : Kernel → (ut idx : ℕ) → Option ℕ → Kernel
drop_found k ut idx none = k
drop_found k ut idx (some id) = drop_ref (record k { entries = del_ss_pag k.entries ut idx }) id

unfoldable pub drop_entry : Kernel → (ut idx : ℕ) → Kernel
drop_entry k ut idx =
    let found = find_shared num_shared_pages k.shared (get_frame k.entries ut idx) 0 in
    if (k.entries (slot ut idx)).present == 0 then k else drop_found k ut idx found

unfoldable pub drop_shared : (rounds : ℕ) → Kernel → (ut idx : ℕ) → Kernel
drop_shared zero k ut idx = k
drop_shared (suc n) k ut idx = drop_shared n (drop_entry k ut idx) ut (idx + 1)

-- The pages of the process that ends: its data pages, the table of its user pages, its directory and
-- its process control block.
unfoldable pub release_pages : Kernel → (ut : ℕ) → Kernel
release_pages k ut =
    let (f, e) = free_user_pages (k.frames, k.entries) ut in
    let dir = get_dir k k.current in
    let f = free_frame f (e (slot dir 2)).pbase_addr in
    let e = update e (slot dir 2) zero_entry in
    let f = free_frame f (dir / page_size) in
    free_pcb (record k { frames = f; entries = e }) k.current

unfoldable pub sys_exit : Kernel → Kernel
sys_exit k =
    let ut = user_table k k.current in
    let k = load_cr3 (drop_shared (pt_entries - first_shared) k ut first_shared) in
    sched_next_rr (release_pages k ut)
