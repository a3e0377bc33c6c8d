-- ===== src/Calls/Shm.antt =====
-- zeos/sys.c: shared pages, `sys_shmat`, `sys_shmdt`, `sys_shmrm` and `cleanup_shared_page`, with
-- `init_shared_pages` of zeos/mm.c.
use zeos_soa.Prelude.{
  ℕ, zero, suc, ◌+◌, ◌-◌, ◌*◌, ◌/◌, ◌%◌, ◌^◌, Bool, not, ◌&&◌, ◌||◌, Option, none, some, ◌==◌, leb,
  ltb, if◌then◌else◌, update,
}
use zeos_soa.Prelude.Int.{ℤ, pos, negsuc, neg, ltb_ℤ, eq_ℤ, suc_ℤ, pred_ℤ, pos_part}
use zeos_soa.Lists.{Ptr}
use zeos_soa.Frames.{Frames, alloc_frame, free_frame}
use zeos_soa.Paging.{
  Entries, slot, pt_entries, page_size, num_pag_data, num_pag_code, l_user_start, to_unsigned,
  set_ss_pag, del_ss_pag, get_frame,
}
use zeos_soa.Kernel.{Kernel, Shared}
use zeos_soa.Calls.{einval, enomem, get_pt, user_table, load_cr3, translate}
pub mod Marks
pub mod Uses
pub mod Detach

-- `NUM_SHARED_PAGES`
abbrev pub num_shared_pages : ℕ
num_shared_pages = 10

-- The first entry of a user table behind the data and code pages.
abbrev pub first_shared : ℕ
first_shared = num_pag_data + num_pag_code

-- The page of the kernel that is mapped for a short time.
abbrev pub temporary_page : ℕ
temporary_page = 512

-- The loop of `init_shared_pages` from page `i` on.
unfoldable pub init_shared_from : (rounds : ℕ) → Shared → (i : ℕ) → Shared
init_shared_from zero s i = s
init_shared_from (suc n) s i =
    init_shared_from n
      (record {
        shared_frames = update s.shared_frames i (negsuc 0);
        shared_refs = update s.shared_refs i (pos 0);
        shared_marked_rm = update s.shared_marked_rm i 0;
      })
      (i + 1)

unfoldable pub init_shared_pages : Shared → Shared
init_shared_pages s = init_shared_from num_shared_pages s 0

-- The bytes of the page that a logical page of the kernel is mapped on become 0.
unfoldable pub zero_page : Kernel → (page : ℕ) → Kernel
zero_page k page =
    let frame = translate k.entries k.cpu.cr3 (page * page_size) in
    record k { pages = update k.pages frame (λ _. 0) }

-- `shared_frames[id] = ...` and so on.
abbrev pub set_frame : Shared → ℕ → ℤ → Shared
set_frame s id f = record s { shared_frames = update s.shared_frames id f }

abbrev pub set_refs : Shared → ℕ → ℤ → Shared
set_refs s id n = record s { shared_refs = update s.shared_refs id n }

abbrev pub set_marked : Shared → ℕ → ℕ → Shared
set_marked s id m = record s { shared_marked_rm = update s.shared_marked_rm id m }

-- The first part of `cleanup_shared_page`: the page is mapped, cleared and unmapped again.
unfoldable pub scrub : Kernel → (frame : ℕ) → Kernel
scrub k frame =
    let pt = get_pt k k.current in
    let k = load_cr3 (record k { entries = set_ss_pag k.entries pt temporary_page frame 0 }) in
    let k = zero_page k temporary_page in
    load_cr3 (record k { entries = del_ss_pag k.entries (get_pt k k.current) temporary_page })

unfoldable pub cleanup_shared_page : Kernel → ℕ → Kernel
cleanup_shared_page k id =
    let frame = to_unsigned (k.shared.shared_frames id) in
    let k = scrub k frame in
    record k {
      frames = free_frame k.frames frame;
      shared = set_refs (set_marked (set_frame k.shared id (negsuc 0)) id 0) id (pos 0);
    }

-- `if (shared_refs[id] == 0 && shared_marked_rm[id] == 1) cleanup_shared_page(id);`
unfoldable pub cleanup_if_unused : Kernel → ℕ → Kernel
cleanup_if_unused k id =
    if eq_ℤ (k.shared.shared_refs id) (pos 0) && (k.shared.shared_marked_rm id == 1)
    then cleanup_shared_page k id
    else k

-- `shared_refs[id]--`, and the page goes if it was the last use of a marked page.
unfoldable pub drop_ref : Kernel → ℕ → Kernel
drop_ref k id =
    cleanup_if_unused
      (record k { shared = set_refs k.shared id (pred_ℤ (k.shared.shared_refs id)) }) id

-- `shared_refs[id]++; set_cr3(get_DIR(current()));` and the address of the page.
unfoldable pub attached : Kernel → (id log_page : ℕ) → ℤ × Kernel
attached k id log_page = (
  pos (log_page * page_size),
  load_cr3 (record k { shared = set_refs k.shared id (suc_ℤ (k.shared.shared_refs id)) }),
)

-- `log_page - (L_USER_START >> 12)`, as an `unsigned int`.
unfoldable pub index_of : (log_page : ℕ) → ℕ
index_of log_page = (log_page + 2 ^ 32 - l_user_start / page_size) % 2 ^ 32

unfoldable pub is_shared_index : ℕ → Bool
is_shared_index pt_idx = not (ltb pt_idx first_shared || leb pt_entries pt_idx)

-- `sys_shmat` for an address that is given; `pt` is the caller's user table.
unfoldable pub attach_at : Kernel → (id addr pt : ℕ) → ℤ × Kernel
attach_at k id addr pt =
    let log_page = addr / page_size in
    let pt_idx = index_of log_page in
    let frame = to_unsigned (k.shared.shared_frames id) in
    if not (addr % page_size == 0)
    then (neg einval, k)
    else if not (is_shared_index pt_idx)
    then (neg einval, k)
    else if not ((k.entries (slot pt pt_idx)).present == 0)
    then (if get_frame k.entries pt pt_idx == frame
        then (pos (log_page * page_size), k)
        else (neg einval, k))
    else attached (record k { entries = set_ss_pag k.entries pt pt_idx frame 1 }) id log_page

-- The search of `sys_shmat` for an entry that is not present.
unfoldable pub find_entry : (rounds : ℕ) → Entries → (pt i : ℕ) → Option ℕ
find_entry zero e pt i = none
find_entry (suc n) e pt i =
    let rest = find_entry n e pt (i + 1) in if (e (slot pt i)).present == 0 then some i else rest

unfoldable pub attach_found : Kernel → (id pt : ℕ) → Option ℕ → ℤ × Kernel
attach_found k id pt none = (neg enomem, k)
attach_found k id pt (some pt_idx) =
    let frame = to_unsigned (k.shared.shared_frames id) in
    attached (record k { entries = set_ss_pag k.entries pt pt_idx frame 1 }) id
      (l_user_start / page_size + pt_idx)

-- `sys_shmat` for a shared page that has a frame.
unfoldable pub attach : Kernel → (id addr : ℕ) → ℤ × Kernel
attach k id addr =
    let pt = user_table k k.current in
    if not (addr == 0)
    then attach_at k id addr pt
    else attach_found k id pt (find_entry (pt_entries - first_shared) k.entries pt first_shared)

-- `if (shared_frames[id] < 0) shared_frames[id] = alloc_frame();`
unfoldable pub ensure_frame : Kernel → ℕ → Kernel
ensure_frame k id =
    let (frame, frames) = alloc_frame k.frames in
    if ltb_ℤ (k.shared.shared_frames id) (pos 0)
    then record k { frames = frames; shared = set_frame k.shared id frame }
    else k

-- `id < 0 || id >= NUM_SHARED_PAGES`
abbrev pub bad_id : ℤ → Bool
bad_id id = ltb_ℤ id (pos 0) || leb num_shared_pages (pos_part id)

unfoldable pub sys_shmat : Kernel → (id : ℤ) → (addr : ℕ) → ℤ × Kernel
sys_shmat k id addr =
    let i = pos_part id in
    let k' = ensure_frame k i in
    if bad_id id
    then (neg einval, k)
    else if k.shared.shared_marked_rm i == 1
    then (neg einval, k)
    else if ltb_ℤ (k'.shared.shared_frames i) (pos 0)
    then (neg enomem, k')
    else attach k' i addr

-- The loop over the shared pages that looks for the one on `frame`.
unfoldable pub find_shared : (rounds : ℕ) → Shared → (frame i : ℕ) → Option ℕ
find_shared zero s frame i = none
find_shared (suc n) s frame i =
    let rest = find_shared n s frame (i + 1) in
    if eq_ℤ (s.shared_frames i) (pos frame) then some i else rest

unfoldable pub detach_found : Kernel → (pt pt_idx : ℕ) → Option ℕ → ℤ × Kernel
detach_found k pt pt_idx none = (neg einval, k)
detach_found k pt pt_idx (some id) =
    (pos 0, drop_ref (load_cr3 (record k { entries = del_ss_pag k.entries pt pt_idx })) id)

unfoldable pub sys_shmdt : Kernel → (addr : ℕ) → ℤ × Kernel
sys_shmdt k addr =
    let pt_idx = index_of (addr / page_size) in
    let pt = user_table k k.current in
    let found = find_shared num_shared_pages k.shared (get_frame k.entries pt pt_idx) 0 in
    if not (addr % page_size == 0)
    then (neg einval, k)
    else if not (is_shared_index pt_idx)
    then (neg einval, k)
    else if (k.entries (slot pt pt_idx)).present == 0
    then (neg einval, k)
    else detach_found k pt pt_idx found

-- `shared_marked_rm[id] = 1; if (shared_refs[id] == 0) cleanup_shared_page(id);`
unfoldable pub mark_removed : Kernel → ℕ → Kernel
mark_removed k id =
    let k = record k { shared = set_marked k.shared id 1 } in
    if eq_ℤ (k.shared.shared_refs id) (pos 0) then cleanup_shared_page k id else k

unfoldable pub sys_shmrm : Kernel → (id : ℤ) → ℤ × Kernel
sys_shmrm k id =
    let i = pos_part id in
    if bad_id id
    then (neg einval, k)
    else if ltb_ℤ (k.shared.shared_frames i) (pos 0)
    then (neg einval, k)
    else (pos 0, mark_removed k i)
