-- ===== src/Calls.antt =====
-- zeos/sys.c: the system calls. Each takes the kernel and its arguments and returns what the caller
-- gets, and the kernel. Where a call gives the processor away, the kernel is the one that the next
-- process sees, and the value is the one that the caller gets when it runs again.
use zeos_soa.Prelude.{ℕ, ◌+◌, ◌*◌, ◌/◌, ◌%◌, Bool, not, ◌&&◌, ◌==◌, if◌then◌else◌}
use zeos_soa.Prelude.Int.{ℤ, pos, neg}
use zeos_soa.Lists.{Ptr}
use zeos_soa.Paging.{Entries, slot, frame_address, get_frame, pt_entries, page_size}
use zeos_soa.Kernel.{Kernel}
pub mod Block
pub mod Console
pub mod Shm
pub mod Process
pub mod Basic

-- zeos/include/errno.h
abbrev pub eagain : ℕ
eagain = 11

abbrev pub enomem : ℕ
enomem = 12

abbrev pub efault : ℕ
efault = 14

abbrev pub einval : ℕ
einval = 22

abbrev pub enosys : ℕ
enosys = 38

-- `get_DIR(t)` of zeos/sched.c
abbrev pub get_dir : Kernel → Ptr → ℕ
get_dir k t = (k.tasks t).dir_pages_base_addr

-- `get_PT(t)`: the table that entry 0 of the directory names.
unfoldable pub get_pt : Kernel → Ptr → ℕ
get_pt k t = frame_address (k.entries (get_dir k t)).pbase_addr

-- The table of the user pages, which entry 2 of the directory names.
unfoldable pub user_table : Kernel → Ptr → ℕ
user_table k t = frame_address (k.entries (slot (get_dir k t) 2)).pbase_addr

-- `set_cr3(get_DIR(current()))`
unfoldable pub load_cr3 : Kernel → Kernel
load_cr3 k = record k { cpu = record (k.cpu) { cr3 = get_dir k k.current } }

-- The physical page of a logical address: the processor's walk from CR3 through both levels.
unfoldable pub translate : Entries → (cr3 address : ℕ) → ℕ
translate e cr3 address =
    let table = frame_address (get_frame e cr3 (address / (page_size * pt_entries))) in
    get_frame e table (address / page_size % pt_entries)

-- Whether the walk meets present entries in both levels. The kernel runs in ring 0, for which the other
-- bits do not count; without a present entry there is a page fault, whose handler keeps the processor
-- for ever.
unfoldable pub is_mapped : Entries → (cr3 address : ℕ) → Bool
is_mapped e cr3 address =
    let dir = slot cr3 (address / (page_size * pt_entries)) in
    let table = frame_address (e dir).pbase_addr in
    not ((e dir).present == 0)
    && not ((e (slot table (address / page_size % pt_entries))).present == 0)
