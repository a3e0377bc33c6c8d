-- ===== src/Paging/Entries.antt =====
-- One entry: `set_ss_pag`, `del_ss_pag` and `get_frame`.
use zeos_soa.Prelude.{ℕ, ◌%◌, ◌^◌, ◌<◌, ◌≡◌, ◌≢◌, arith, ◌==◌, if◌then◌else◌}
use zeos_soa.Paging.{Entries, zero_entry, slot, set_ss_pag, del_ss_pag, get_frame}

-- A page that `set_ss_pag` maps is present, writable, for the user as asked, on its frame; the
-- other pages of the table keep their entries.
pub set_ss_pag_lem :
    (e : Entries) (pt page frame user : ℕ)
    → frame < 2 ^ 20
    → user < 2
    → (get_frame (set_ss_pag e pt page frame user) pt page ≡ frame)
      × ((set_ss_pag e pt page frame user (slot pt page)).present ≡ 1)
      × ((set_ss_pag e pt page frame user (slot pt page)).rw_bit ≡ 1)
      × ((set_ss_pag e pt page frame user (slot pt page)).user ≡ user)
unfolding set_ss_pag get_frame
set_ss_pag_lem e pt page frame user h u = ground arith

pub set_ss_pag_other :
    (e : Entries) (pt page frame user a : ℕ)
    → slot pt page ≢ a
    → set_ss_pag e pt page frame user a ≡ e a
unfolding set_ss_pag
set_ss_pag_other e pt page frame user a h = ground arith

-- To unmap a page after mapping it leaves the table as unmapping it does.
pub del-set_ss_pag :
    (e : Entries) (pt page frame user a : ℕ)
    → del_ss_pag (set_ss_pag e pt page frame user) pt page a ≡ del_ss_pag e pt page a
unfolding del_ss_pag set_ss_pag
del-set_ss_pag e pt page frame user a = ground arith

pub set_ss_pag-get :
    (e : Entries) (pt page frame user q : ℕ)
    → set_ss_pag e pt page frame user (slot pt q) ≡ (
        if page == q
        then record zero_entry {
          pbase_addr = frame % 2 ^ 20;
          user = user % 2;
          rw_bit = 1;
          present = 1;
        }
        else e (slot pt q))
unfolding set_ss_pag
set_ss_pag-get e pt page frame user q = ground arith
