-- ===== src/Paging/UserPages.antt =====
-- What `set_user_pages` maps.
use zeos_soa.Prelude.{
  ℕ, zero, suc, ◌+◌, ◌≤◌, ◌<◌, ◌≡◌, refl, ◌⊎◌, inl, inr, ◌==◌, ltb, arith, if◌then◌else◌,
  Bool-cases,
}
use zeos_soa.Prelude.Int.{pos}
use zeos_soa.Frames.{Frames, total_pages, alloc_frame}
use zeos_soa.Frames.Available.{available, alloc_frame-available}
use zeos_soa.Paging.{
  Entries, num_pag_data, num_pag_code, add_user_page, add_user_pages, set_user_pages,
}
use zeos_soa.Paging.Mapped.{Mapped, Mapped-none, Mapped-one, Mapped-then, Mapped-resize}

-- The pages from `a` on, below `b`.
abbrev pub Within : (a b p : ℕ) → Type 0
Within a b p = (a ≤ p) × (p < b)

add_user_page-frames :
    (f g : Frames) (e : Entries) (pt v page i : ℕ)
    → alloc_frame f ≡ (pos i, g)
    → (add_user_page v page (f, e) pt).0 ≡ g
unfolding add_user_page
add_user_page-frames f g e pt v page i al = rw al refl

-- Each round of the loops takes one frame and maps one page.
add_user_pages-Mapped :
    (limit : ℕ) (small : limit ≤ total_pages) (w : ℕ → ℕ) (n v page : ℕ) (f : Frames) (e : Entries)
    (pt m : ℕ)
    → ((p : ℕ) → Within page (page + n) p → w p ≡ v)
    → available limit f ≡ n + m
    → let (g, e') = add_user_pages n v page (f, e) pt in
      Mapped limit w pt (Within page (page + n)) f e g e' × (available limit g ≡ m)
unfolding add_user_pages
add_user_pages-Mapped limit small w zero v page f e pt m same enough = (
  Mapped-none limit w pt (Within page (page + 0)) f e (λ p d. absurd (omega (arith, d.0, d.1))),
  omega (arith, enough),
)
add_user_pages-Mapped limit small w (suc n) v page f e pt m same enough =
    let (i, g, al, t, low, left) =
      alloc_frame-available limit f (n + m) small (omega (arith, enough)) in
    let here : w page ≡ v = same page (omega arith, omega arith) in
    let g' = (add_user_page v page (f, e) pt).0 in
    let e' = (add_user_page v page (f, e) pt).1 in
    let taken : g' ≡ g = add_user_page-frames f g e pt v page i al in
    let one : Mapped limit w pt (λ p. page ≡ p) f e g' e' =
      rw here at (Mapped-one limit w pt f g e page i al t low) in
    let (rest, count) =
      add_user_pages-Mapped limit small w n v (page + 1) g' e' pt m
        (λ p d. same p (omega (arith, d.0), omega (arith, d.1))) (rw taken left) in
    (
      Mapped-resize limit w pt (λ p. (page ≡ p) ⊎ Within (page + 1) (page + 1 + n) p)
          (Within page (page + suc n)) f e _ _
          (λ p d. elim (Bool-cases (page == p)) [
            | inl s ↦ inl (ground arith)
            | inr s ↦ inr (ground (arith, d.0), omega (arith, d.1))
          ])
          (λ p d. elim d [
            | inl s ↦ (omega (arith, s), omega (arith, s))
            | inr s ↦ (omega (arith, s.0), omega (arith, s.1))
          ])
          (Mapped-then limit w pt (λ p. page ≡ p) (Within (page + 1) (page + 1 + n)) f e g' e' _ _
            (λ p s d. omega (arith, s, d.0)) one rest),
      count,
    )

-- Data pages may be written, code pages may not.
abbrev pub writable : ℕ → ℕ
writable page = if ltb page num_pag_data then 1 else 0

-- Where there are at least 28 free pages behind the kernel and below a limit of at most
-- `TOTAL_PAGES`, `set_user_pages` maps the first 28 pages of the table, present and for the user,
-- writable in the data pages alone, on pages that were free, each its own and below the limit, and
-- marks these as used; it changes no other entry, pages in use stay so, and the number of free pages
-- below the limit falls by 28.
pub set_user_pages-Mapped :
    (limit : ℕ) (f : Frames) (e : Entries) (pt m : ℕ)
    → limit ≤ total_pages
    → available limit f ≡ num_pag_data + num_pag_code + m
    → let (g, e') = set_user_pages (f, e) pt in
      Mapped limit writable pt (λ p. p < num_pag_data + num_pag_code) f e g e'
      × (available limit g ≡ m)
unfolding set_user_pages
set_user_pages-Mapped limit f e pt m small enough =
    let s = add_user_pages num_pag_code 0 num_pag_data (f, e) pt in
    let (code, left) =
      add_user_pages-Mapped limit small writable num_pag_code 0 num_pag_data f e pt
        (num_pag_data + m) (λ p d. ground (arith, d.0, d.1)) (omega (arith, enough)) in
    let (data_pages, rest) =
      add_user_pages-Mapped limit small writable num_pag_data 1 0 s.0 s.1 pt m
        (λ p d. ground (arith, d.0, d.1)) left in
    (
      Mapped-resize limit writable pt
          (λ p. Within num_pag_data (num_pag_data + num_pag_code) p ⊎ Within 0 (0 + num_pag_data) p)
          (λ p. p < num_pag_data + num_pag_code) f e _ _
          (λ p d. elim (Bool-cases (ltb p num_pag_data)) [
            | inl s ↦ inr (omega arith, ground (arith, d))
            | inr s ↦ inl (ground (arith, d), omega (arith, d))
          ])
          (λ p d. elim d [ inl s ↦ omega (arith, s.1) | inr s ↦ omega (arith, s.1) ])
          (Mapped-then limit writable pt (Within num_pag_data (num_pag_data + num_pag_code))
            (Within 0 (0 + num_pag_data)) f e s.0 s.1 _ _ (λ p s d. omega (arith, s.0, d.1)) code
            data_pages),
      rest,
    )
