-- ===== src/Paging/Release.antt =====
-- What `free_user_pages` frees.
use zeos_soa.Prelude.{
  ℕ, zero, suc, ◌+◌, ◌<◌, ◌≤◌, ◌≡◌, refl, ◌≢◌, ◌&&◌, ◌==◌, leb, ltb, if◌then◌else◌, update, arith,
  Bool-cases, inl, inr,
}
use zeos_soa.Frames.{Frames, total_pages, free_frame}
use zeos_soa.Paging.{Entries, zero_entry, slot, num_pag_data, free_pages_from, free_user_pages}

free_pages_from-entries :
    (n : ℕ) (f : Frames) (e : Entries) (pt i page : ℕ)
    → (free_pages_from n (f, e) pt i).1 (slot pt page)
      ≡ (if leb i page && ltb page (i + n) then zero_entry else e (slot pt page))
unfolding free_pages_from
free_pages_from-entries zero f e pt i page = ground arith
free_pages_from-entries (suc n) f e pt i page = ground (
  arith,
  free_pages_from-entries n (free_frame f (e (slot pt i)).pbase_addr)
      (update e (slot pt i) zero_entry) pt (i + 1) page,
)

free_frame-keeps_free :
    (f : Frames) (q frame : ℕ) → f.phys_mem q ≡ 0 → (free_frame f frame).phys_mem q ≡ 0
unfolding free_frame
free_frame-keeps_free f q frame h = ground arith

free_frame-frees :
    (f : Frames) (frame : ℕ) → frame < total_pages → (free_frame f frame).phys_mem frame ≡ 0
unfolding free_frame
free_frame-frees f frame lt = ground arith

free_frame-other :
    (f : Frames) (q frame : ℕ) → frame ≢ q → (free_frame f frame).phys_mem q ≡ f.phys_mem q
unfolding free_frame
free_frame-other f q frame ne = ground arith

free_pages_from-keeps_free :
    (n : ℕ) (f : Frames) (e : Entries) (pt i q : ℕ)
    → f.phys_mem q ≡ 0
    → (free_pages_from n (f, e) pt i).0.phys_mem q ≡ 0
unfolding free_pages_from
free_pages_from-keeps_free zero f e pt i q h = h
free_pages_from-keeps_free (suc n) f e pt i q h =
    free_pages_from-keeps_free n (free_frame f (e (slot pt i)).pbase_addr)
      (update e (slot pt i) zero_entry) pt (i + 1) q
      (free_frame-keeps_free f q (e (slot pt i)).pbase_addr h)

free_pages_from-frees :
    (n : ℕ) (f : Frames) (e : Entries) (pt i page : ℕ)
    → i ≤ page
    → page < i + n
    → (e (slot pt page)).pbase_addr < total_pages
    → (free_pages_from n (f, e) pt i).0.phys_mem (e (slot pt page)).pbase_addr ≡ 0
unfolding free_pages_from
free_pages_from-frees zero f e pt i page a b lt = absurd (omega (arith, a, b))
free_pages_from-frees (suc n) f e pt i page a b lt =
    let f' = free_frame f (e (slot pt i)).pbase_addr in
    let e' = update e (slot pt i) zero_entry in
    elim (Bool-cases (i == page)) [
      | inl h ↦
          let here : i ≡ page = ground arith in
          free_pages_from-keeps_free n f' e' pt (i + 1) (e (slot pt page)).pbase_addr
            (rw here (free_frame-frees f (e (slot pt page)).pbase_addr lt))
      | inr h ↦
          let kept : e' (slot pt page) ≡ e (slot pt page) = ground arith in
          let further : i + 1 ≤ page = ground arith in
          let rest =
            free_pages_from-frees n f' e' pt (i + 1) page further (omega (arith, b)) (rw kept lt) in
          rw kept at rest
    ]

free_pages_from-other :
    (n : ℕ) (f : Frames) (e : Entries) (pt i q : ℕ)
    → ((page : ℕ) → i ≤ page → page < i + n → (e (slot pt page)).pbase_addr ≢ q)
    → (free_pages_from n (f, e) pt i).0.phys_mem q ≡ f.phys_mem q
unfolding free_pages_from
free_pages_from-other zero f e pt i q h = refl
free_pages_from-other (suc n) f e pt i q h =
    let f' = free_frame f (e (slot pt i)).pbase_addr in
    let e' = update e (slot pt i) zero_entry in
    let rest =
      free_pages_from-other n f' e' pt (i + 1) q
        (λ page a b same. h page (omega (arith, a)) (omega (arith, b)) (ground (arith, a, same))) in
    rw rest (free_frame-other f q (e (slot pt i)).pbase_addr (h i (omega arith) (omega arith)))

-- `free_user_pages` clears the entries of the data pages, and not those of the 20 pages behind them;
-- a frame in range that one of them named is free afterwards, and the mark of a frame that none of
-- them named is as before.
pub free_user_pages-frees :
    (f : Frames) (e : Entries) (pt page q : ℕ)
    → page < num_pag_data
    → (e (slot pt page)).pbase_addr < total_pages
    → ((p : ℕ) → p < num_pag_data → (e (slot pt p)).pbase_addr ≢ q)
    → let (f', e') = free_user_pages (f, e) pt in
      (e' (slot pt page) ≡ zero_entry)
      × (e' (slot pt (page + num_pag_data)) ≡ e (slot pt (page + num_pag_data)))
      × (f'.phys_mem (e (slot pt page)).pbase_addr ≡ 0)
      × (f'.phys_mem q ≡ f.phys_mem q)
unfolding free_user_pages
free_user_pages-frees f e pt page q lt small other = (
  ground (arith, free_pages_from-entries num_pag_data f e pt 0 page),
  ground (arith, free_pages_from-entries num_pag_data f e pt 0 (page + num_pag_data)),
  free_pages_from-frees num_pag_data f e pt 0 page (omega arith) (omega (arith, lt)) small,
  free_pages_from-other num_pag_data f e pt 0 q (λ p a b. other p (omega (arith, b))),
)
