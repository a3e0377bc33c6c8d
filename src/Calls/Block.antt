-- ===== src/Calls/Block.antt =====
-- zeos/sys.c: `sys_block` and `sys_unblock`.
use zeos_soa.Prelude.{ℕ, zero, suc, Bool, not, Option, none, some, ◌==◌, if◌then◌else◌, update}
use zeos_soa.Prelude.Int.{ℤ, pos, neg, pred_ℤ, suc_int, ltb_ℤ, eq_ℤ}
use zeos_soa.Lists.{Ptr, null, list_add_tail, list_del, list_first}
use zeos_soa.Frames.{total_pages}
use zeos_soa.Kernel.{
  Kernel, Task, set_task, sibling_of, children_blocked_of, children_unblocked_of,
  sibling_to_task_struct,
}
use zeos_soa.Sched.{update_process_state_rr, sched_next_rr}
pub mod Search
pub mod Pending
pub mod Moves
pub mod Releases

-- The current process behind the children of its parent that are blocked; nothing where it has no
-- parent.
unfoldable pub file_blocked : Kernel → Kernel
file_blocked k =
    let parent = (k.tasks k.current).parent in
    let l = list_del k.links (sibling_of k.current) in
    let l = list_add_tail l (sibling_of k.current) (children_blocked_of parent) in
    if not (parent == null) then record k { links = l } else k

unfoldable pub sys_block : Kernel → ℤ × Kernel
sys_block k =
    let t = k.tasks k.current in
    if ltb_ℤ (pos 0) t.pending_unblocks
    then (pos 0, set_task k k.current (record t { pending_unblocks = pred_ℤ t.pending_unblocks }))
    else (pos 0, sched_next_rr (update_process_state_rr (file_blocked k) k.current k.heads.blocked))

-- `list_for_each` over children, until one has the PID.
unfoldable pub find_child : (fuel : ℕ) → Kernel → ℤ → (node head : Ptr) → Option Ptr
find_child zero k pid node head = none
find_child (suc fuel) k pid node head =
    let child = sibling_to_task_struct node in
    let rest = find_child fuel k pid (k.links.next node) head in
    if node == head then none else if eq_ℤ (k.tasks child).pid pid then some child else rest

-- What is done with a child found blocked: it goes to the unblocked children and is made ready.
unfoldable pub release_child : Kernel → Ptr → Kernel
release_child k child =
    let l = list_del k.links (sibling_of child) in
    let l = list_add_tail l (sibling_of child) (children_unblocked_of k.current) in
    update_process_state_rr (record k { links = l }) child k.heads.readyqueue

-- What is done with a child found unblocked: its next block will not wait.
unfoldable pub credit_child : Kernel → Ptr → Kernel
credit_child k child =
    let t = k.tasks child in
    set_task k child (record t { pending_unblocks = suc_int t.pending_unblocks })

-- The second loop, and the result where it finds nothing.
unfoldable pub unblock_later : Kernel → Option Ptr → ℤ × Kernel
unblock_later k none = (neg 1, k)
unblock_later k (some child) = (pos 0, credit_child k child)

unfoldable pub unblock_now : Kernel → ℤ → Option Ptr → ℤ × Kernel
unblock_now k pid (some child) = (pos 0, release_child k child)
unblock_now k pid none =
    let head = children_unblocked_of k.current in
    unblock_later k (find_child total_pages k pid (list_first k.links head) head)

-- Every process holds pages of its own, so that a process has fewer children than there are pages.
unfoldable pub sys_unblock : Kernel → ℤ → ℤ × Kernel
sys_unblock k pid =
    let head = children_blocked_of k.current in
    unblock_now k pid (find_child total_pages k pid (list_first k.links head) head)
