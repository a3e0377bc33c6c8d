-- ===== src/Access.antt =====
-- zeos/utils.c: `access_ok`, the check of a user buffer, and the copies between address spaces.
use zeos_soa.Prelude.{
  ℕ, zero, suc, ◌+◌, ◌-◌, ◌*◌, ◌/◌, ◌%◌, ◌^◌, Bool, true, false, ◌==◌, leb, ltb, ◌&&◌,
  if◌then◌else◌, update,
}
use zeos_soa.Prelude.Int.{ℤ, pos}
use zeos_soa.Paging.{num_pag_code, num_pag_data, l_user_start, page_size}
pub mod Ranges
pub mod Copies

-- `VERIFY_READ` and `VERIFY_WRITE`
abbrev pub verify_read : ℕ
verify_read = 0

abbrev pub verify_write : ℕ
verify_write = 1

-- `PAG_LOG_INIT_DATA`
abbrev pub pag_log_init_data : ℕ
pag_log_init_data = l_user_start / page_size

-- The test of the `default` case: both ends in the data or code pages.
unfoldable pub in_user_pages : (addr_ini addr_fin : ℕ) → Bool
in_user_pages addr_ini addr_fin =
    leb pag_log_init_data addr_ini && leb addr_fin (pag_log_init_data + num_pag_code + num_pag_data)

-- The test of the case `VERIFY_WRITE`: both ends in the data pages.
unfoldable pub in_data_pages : (addr_ini addr_fin : ℕ) → Bool
in_data_pages addr_ini addr_fin =
    leb pag_log_init_data addr_ini && leb addr_fin (pag_log_init_data + num_pag_data)

-- An `unsigned long` sum wraps at 2^32. The case `VERIFY_WRITE` goes on into the `default` case.
unfoldable pub access_ok : (kind addr size : ℕ) → Bool
unfolding in_user_pages in_data_pages
access_ok kind addr size =
    let addr_ini = addr / page_size in
    let addr_fin = (addr + size) % 2 ^ 32 / page_size in
    if ltb addr_fin addr_ini
    then false
    else if (kind == verify_write) && in_data_pages addr_ini addr_fin
    then true
    else in_user_pages addr_ini addr_fin

-- Bytes by address.
abbrev pub Memory : Type 0
Memory = ℕ → ℕ

-- `*q++ = *p++` on words: four bytes are read, then written.
unfoldable pub copy_word : Memory → (p q : ℕ) → Memory
copy_word m p q =
    update (update (update (update m q (m p)) (q + 1) (m (p + 1))) (q + 2) (m (p + 2))) (q + 3)
      (m (p + 3))

-- `while (size > 0) *q1++ = *p1++`, on the number of bytes that are left.
unfoldable pub copy_bytes : (size : ℕ) → Memory → (p q : ℕ) → Memory
copy_bytes zero m p q = m
copy_bytes (suc n) m p q = copy_bytes n (update m q (m p)) (p + 1) (q + 1)

-- `while (size > 4)` copies words, and the loop over bytes copies what is left. Each round takes
-- four from `size`, so that `size` rounds are enough.
unfoldable pub copy_words : (fuel size : ℕ) → Memory → (p q : ℕ) → Memory
copy_words zero size m p q = copy_bytes size m p q
copy_words (suc fuel) size m p q =
    let rest = copy_words fuel (size - 4) (copy_word m p q) (p + 4) (q + 4) in
    if ltb 4 size then rest else copy_bytes size m p q

-- A `size` below 0 copies nothing, like 0.
unfoldable pub copy_data : Memory → (start dest size : ℕ) → Memory
copy_data m start dest size = copy_words size size m start dest

-- The two others have the same body, and return 0.
unfoldable pub copy_from_user : Memory → (start dest size : ℕ) → ℤ × Memory
copy_from_user m start dest size = (pos 0, copy_words size size m start dest)

unfoldable pub copy_to_user : Memory → (start dest size : ℕ) → ℤ × Memory
copy_to_user m start dest size = (pos 0, copy_words size size m start dest)
