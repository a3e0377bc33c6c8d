-- ===== src/Paging.antt =====
-- zeos/mm.c: page tables. A table is the address of its first entry, and an entry is found at
-- `table + 4 * page`, as C's indexing has it: an index past the end of a table is in the next frame.
use zeos_soa.Prelude.{ℕ, zero, suc, ◌+◌, ◌-◌, ◌*◌, ◌%◌, ◌^◌, update}
use zeos_soa.Prelude.Int.{ℤ, pos, negsuc}
use zeos_soa.Frames.{Frames, alloc_frame, free_frame}
pub mod Entries
pub mod Tables
pub mod Release
pub mod Mapped
pub mod UserPages

-- `page_table_entry` of zeos/include/types.h: the bit fields of one 32-bit word.
pub record Pte : Type 0 where
  pub present : ℕ
  pub rw_bit : ℕ
  pub user : ℕ
  pub write_t : ℕ
  pub cache_d : ℕ
  pub accessed : ℕ
  pub dirty : ℕ
  pub ps_pat : ℕ
  pub global : ℕ
  pub avail : ℕ
  pub pbase_addr : ℕ

-- `entry = 0`
abbrev pub zero_entry : Pte
zero_entry = record {
  present = 0;
  rw_bit = 0;
  user = 0;
  write_t = 0;
  cache_d = 0;
  accessed = 0;
  dirty = 0;
  ps_pat = 0;
  global = 0;
  avail = 0;
  pbase_addr = 0;
}

-- The entries of all page tables, by address.
abbrev pub Entries : Type 0
Entries = ℕ → Pte

-- Constants of zeos/include/mm_address.h.
abbrev pub pt_entries : ℕ
pt_entries = 1024

abbrev pub num_pag_code : ℕ
num_pag_code = 8

abbrev pub num_pag_data : ℕ
num_pag_data = 20

abbrev pub page_size : ℕ
page_size = 4096

abbrev pub l_user_start : ℕ
l_user_start = 0x80_0000

-- The address of `PT[page]`.
abbrev pub slot : (pt page : ℕ) → ℕ
slot pt page = pt + 4 * page

-- An `int` as the `unsigned int` that it converts to.
unfoldable pub to_unsigned : ℤ → ℕ
to_unsigned (pos n) = n % 2 ^ 32
to_unsigned (negsuc n) = 2 ^ 32 - 1 - n % 2 ^ 32

-- `frame << 12` as a pointer of 32 bits.
unfoldable pub frame_address : ℕ → ℕ
frame_address frame = frame * 4096 % 2 ^ 32

-- `frame` is stored in a bit field of 20 bits, and `user` in one of a single bit.
unfoldable pub set_ss_pag : Entries → (pt page frame user : ℕ) → Entries
set_ss_pag e pt page frame user =
    update e (slot pt page)
      (record zero_entry { pbase_addr = frame % 2 ^ 20; user = user % 2; rw_bit = 1; present = 1 })

unfoldable pub del_ss_pag : Entries → (pt page : ℕ) → Entries
del_ss_pag e pt page = update e (slot pt page) zero_entry

unfoldable pub get_frame : Entries → (pt page : ℕ) → ℕ
get_frame e pt page = (e (slot pt page)).pbase_addr

-- The loop of `clear_page_table` from entry `i` on.
unfoldable pub clear_from : (rounds : ℕ) → Entries → (pt i : ℕ) → Entries
clear_from zero e pt i = e
clear_from (suc n) e pt i = clear_from n (update e (slot pt i) zero_entry) pt (i + 1)

unfoldable pub clear_page_table : Entries → ℕ → Entries
clear_page_table e pt = clear_from pt_entries e pt 0

-- The loop of `set_kernel_pages`: each logical page on the frame of the same number.
unfoldable pub identity_from : (rounds : ℕ) → Entries → (pt i : ℕ) → Entries
identity_from zero e pt i = e
identity_from (suc n) e pt i = identity_from n (set_ss_pag e pt i i 0) pt (i + 1)

unfoldable pub set_kernel_pages : Frames → Entries → ℕ → Entries
set_kernel_pages f e pt =
    let e = identity_from (f.last_kernel - f.first_kernel) e pt f.first_kernel in
    let e = set_ss_pag e pt 0x90 0x90 0 in set_ss_pag e pt 0xb8 0xb8 0

-- The body of both loops of `set_user_pages`: a new frame for `page`, writable or not.
unfoldable pub add_user_page : (writable page : ℕ) → Frames × Entries → ℕ → Frames × Entries
add_user_page writable page (f, e) pt =
    let (frame, f) = alloc_frame f in
    (
      f,
      update e (slot pt page) (record zero_entry {
        pbase_addr = to_unsigned frame % 2 ^ 20;
        user = 1;
        rw_bit = writable;
        present = 1;
      }),
    )

-- One of the two loops, over the pages `page`, `page + 1`, ...
unfoldable pub add_user_pages : (rounds writable page : ℕ) → Frames × Entries → ℕ → Frames × Entries
add_user_pages zero writable page s pt = s
add_user_pages (suc n) writable page s pt =
    add_user_pages n writable (page + 1) (add_user_page writable page s pt) pt

-- The code pages come first, then the data pages.
unfoldable pub set_user_pages : Frames × Entries → ℕ → Frames × Entries
set_user_pages s pt =
    let s = add_user_pages num_pag_code 0 num_pag_data s pt in add_user_pages num_pag_data 1 0 s pt

-- The loop of `free_user_pages` over the pages `page`, `page + 1`, ...
unfoldable pub free_pages_from : (rounds : ℕ) → Frames × Entries → (pt page : ℕ) → Frames × Entries
free_pages_from zero s pt page = s
free_pages_from (suc n) (f, e) pt page =
    free_pages_from n
      (free_frame f (e (slot pt page)).pbase_addr, update e (slot pt page) zero_entry) pt (page + 1)

unfoldable pub free_user_pages : Frames × Entries → ℕ → Frames × Entries
free_user_pages s pt = free_pages_from num_pag_data s pt 0
