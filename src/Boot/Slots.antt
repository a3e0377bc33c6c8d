-- ===== src/Boot/Slots.antt =====
-- Entries of several tables, the pages that are mapped on the frames of their own numbers, and the
-- walk through two levels.
use zeos_soa.Prelude.{ap, ℕ, ◌+◌, ◌*◌, ◌/◌, ◌%◌, ◌<◌, ◌≡◌, ◌≢◌, refl, true, arith, ltb, ◌∙◌}
use zeos_soa.Paging.{Entries, slot, page_size, pt_entries, frame_address, get_frame, set_ss_pag}
use zeos_soa.Paging.Entries.{set_ss_pag-get, set_ss_pag_other}
use zeos_soa.Calls.{translate}
use zeos_soa.Calls.Process.{auto_map_kernel_frame}

-- A page is mapped on the frame of its own number.
pub record IsIdentity (e : Entries) (pt page : ℕ) : Type 0 where
  pub frame : get_frame e pt page ≡ page
  pub present : (e (slot pt page)).present ≡ 1

pub frame_address_lem : (x : ℕ) → x < 1024 → frame_address x ≡ x * 4096
unfolding frame_address
frame_address_lem x h = omega (arith, h)

-- Entries of different tables do not overlap.
pub slot-apart :
    (x y p q : ℕ)
    → x ≢ y
    → x < 1024
    → y < 1024
    → p < 1024
    → q < 1024
    → slot (frame_address x) p ≢ slot (frame_address y) q
slot-apart x y p q ne hx hy hp hq same =
    ne (omega (arith, rw (frame_address_lem x hx, frame_address_lem y hy) at same, hp, hq))

pub set_ss_pag-apart :
    (e : Entries) (x y p q frame user : ℕ)
    → x ≢ y
    → x < 1024
    → y < 1024
    → p < 1024
    → q < 1024
    → set_ss_pag e (frame_address x) p frame user (slot (frame_address y) q)
      ≡ e (slot (frame_address y) q)
set_ss_pag-apart e x y p q frame user ne hx hy hp hq =
    set_ss_pag_other e (frame_address x) p frame user (slot (frame_address y) q)
      (slot-apart x y p q ne hx hy hp hq)

pub set_ss_pag-IsIdentity :
    (e : Entries) (pt page user : ℕ)
    → page < 1024
    → IsIdentity (set_ss_pag e pt page page user) pt page
unfolding get_frame
set_ss_pag-IsIdentity e pt page user h = record {
  frame = ground (arith, set_ss_pag-get e pt page page user page, h);
  present = ground (arith, set_ss_pag-get e pt page page user page);
}

-- Mapping a page on the frame of its number keeps those that are so.
pub set_ss_pag-keeps :
    (e : Entries) (pt x user page : ℕ)
    → page < 1024
    → IsIdentity e pt page
    → IsIdentity (set_ss_pag e pt x x user) pt page
unfolding get_frame
set_ss_pag-keeps e pt x user page h i =
    let a = i.frame in
    let b = i.present in
    record {
      frame = ground (arith, set_ss_pag-get e pt x x user page, h, a);
      present = ground (arith, set_ss_pag-get e pt x x user page, b);
    }

pub get_frame-at :
    (d e : Entries) (pt page pt2 page2 : ℕ)
    → d (slot pt page) ≡ e (slot pt2 page2)
    → get_frame d pt page ≡ get_frame e pt2 page2
unfolding get_frame
get_frame-at d e pt page pt2 page2 same = ap (λ x. x.pbase_addr) same

pub get_frame-same :
    (e d : Entries) (pt page : ℕ)
    → d (slot pt page) ≡ e (slot pt page)
    → get_frame d pt page ≡ get_frame e pt page
unfolding get_frame
get_frame-same e d pt page same = ap (λ x. x.pbase_addr) same

pub IsIdentity-same :
    (e d : Entries) (pt page : ℕ)
    → d (slot pt page) ≡ e (slot pt page)
    → IsIdentity e pt page
    → IsIdentity d pt page
IsIdentity-same e d pt page same i = record {
  frame = get_frame-same e d pt page same ∙ i.frame;
  present = ap (λ x. x.present) same ∙ i.present;
}

pub auto_map-low :
    (e : Entries) (f tp1 tp2 : ℕ)
    → f < 1024
    → auto_map_kernel_frame e f tp1 tp2 ≡ set_ss_pag e tp1 f f 0
unfolding auto_map_kernel_frame
auto_map-low e f tp1 tp2 h = let low : ltb f 1024 ≡ true = ground (arith, h) in rw low refl

-- The walk through two levels, where the entry of the directory and that of the table are known.
pub translate-through :
    (e : Entries) (cr3 table n page o a : ℕ)
    → a ≡ (n * 1024 + page) * page_size + o
    → get_frame e cr3 n ≡ table
    → page < 1024
    → o < page_size
    → translate e cr3 a ≡ get_frame e (frame_address table) page
unfolding translate
translate-through e cr3 table n page o a is h small offset =
    let first : a / (page_size * pt_entries) ≡ n = omega (arith, is, small, offset) in
    let second : a / page_size % pt_entries ≡ page = omega (arith, is, small, offset) in
    rw (first, second, h) refl
