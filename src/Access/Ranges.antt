-- ===== src/Access/Ranges.antt =====
-- Which buffers `access_ok` lets through.
use zeos_soa.Prelude.{ℕ, ◌+◌, ◌*◌, ◌^◌, ◌≤◌, ◌<◌, ◌≡◌, true, leb, ltb, ◌&&◌, arith}
use zeos_soa.Access.{access_ok, verify_read, verify_write, pag_log_init_data}
use zeos_soa.Paging.{num_pag_code, num_pag_data, l_user_start, page_size}

-- The address behind the last user page.
abbrev pub user_end : ℕ
user_end = (pag_log_init_data + num_pag_data + num_pag_code) * page_size

-- For an address of 32 bits and a size that an `int` can hold, `access_ok` lets through exactly the
-- buffers that begin at or behind the start of the user pages and that end inside the page behind
-- the last one.
pub access_ok-range :
    (kind addr size : ℕ)
    → addr < 2 ^ 32
    → size < 2 ^ 31
    → access_ok kind addr size ≡ (leb l_user_start addr && ltb (addr + size) (user_end + page_size))
unfolding access_ok
access_ok-range kind addr size a s = ground arith

-- `access_ok` checks accesses that write like those that read, for every buffer.
pub access_ok-verify_write :
    (addr size : ℕ) → access_ok verify_write addr size ≡ access_ok verify_read addr size
unfolding access_ok
access_ok-verify_write addr size = ground arith

-- A buffer that lies in the page behind the last user page, and not up to its last byte, is let
-- through by `access_ok`.
pub access_ok-past_end :
    (kind addr size : ℕ)
    → user_end ≤ addr
    → addr + size < user_end + page_size
    → access_ok kind addr size ≡ true
unfolding access_ok
access_ok-past_end kind addr size a s = ground arith
