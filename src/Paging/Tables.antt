-- ===== src/Paging/Tables.antt =====
-- Whole tables: `clear_page_table` and `set_kernel_pages`.
use zeos_soa.Prelude.{
  ℕ, zero, suc, ◌+◌, ◌-◌, ◌%◌, ◌^◌, ◌≡◌, arith, ◌==◌, leb, ltb, ◌&&◌, ◌||◌, if◌then◌else◌, update,
}
use zeos_soa.Frames.{Frames}
use zeos_soa.Paging.{
  Pte, Entries, zero_entry, slot, pt_entries, clear_from, clear_page_table, set_ss_pag,
  identity_from, set_kernel_pages,
}
use zeos_soa.Paging.Entries.{set_ss_pag-get}

clear_from-get :
    (n : ℕ) (e : Entries) (pt i page : ℕ)
    → clear_from n e pt i (slot pt page)
      ≡ (if leb i page && ltb page (i + n) then zero_entry else e (slot pt page))
unfolding clear_from
clear_from-get zero e pt i page = ground arith
clear_from-get (suc n) e pt i page =
    ground (arith, clear_from-get n (update e (slot pt i) zero_entry) pt (i + 1) page)

-- An entry that maps its page on the frame of the same number, for the system alone.
abbrev pub identity_entry : ℕ → Pte
identity_entry page = record zero_entry { pbase_addr = page % 2 ^ 20; rw_bit = 1; present = 1 }

identity_from-get :
    (n : ℕ) (e : Entries) (pt i page : ℕ)
    → identity_from n e pt i (slot pt page)
      ≡ (if leb i page && ltb page (i + n) then identity_entry page else e (slot pt page))
unfolding identity_from
identity_from-get zero e pt i page = ground arith
identity_from-get (suc n) e pt i page = ground (
  arith,
  identity_from-get n (set_ss_pag e pt i i 0) pt (i + 1) page,
  set_ss_pag-get e pt i i 0 page,
)

-- `clear_page_table` clears each of the 1024 entries of the table, and no entry behind them.
pub clear_page_table-get :
    (e : Entries) (pt page : ℕ)
    → clear_page_table e pt (slot pt page)
      ≡ (if ltb page pt_entries then zero_entry else e (slot pt page))
unfolding clear_page_table
clear_page_table-get e pt page = ground (arith, clear_from-get pt_entries e pt 0 page)

-- `set_kernel_pages` maps the pages of the kernel, of the GDT and of the screen, each on the frame
-- of its own number and for the system alone, and leaves the other entries of the table.
pub set_kernel_pages-identity :
    (f : Frames) (e : Entries) (pt page : ℕ)
    → set_kernel_pages f e pt (slot pt page) ≡ (
        if (leb f.first_kernel page && ltb page f.last_kernel) || (page == 0x90) || (page == 0xb8)
        then identity_entry page
        else e (slot pt page))
unfolding set_kernel_pages
set_kernel_pages-identity f e pt page =
    let n = f.last_kernel - f.first_kernel in
    let e1 = identity_from n e pt f.first_kernel in
    ground (
      arith,
      identity_from-get n e pt f.first_kernel page,
      set_ss_pag-get e1 pt 0x90 0x90 0 page,
      set_ss_pag-get (set_ss_pag e1 pt 0x90 0x90 0) pt 0xb8 0xb8 0 page,
    )
