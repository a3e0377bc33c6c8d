-- ===== src/Frames/Owners.antt =====
-- The byte map under any sequence of `alloc_frame` and of `free_frame` of a page that is held.
use zeos_soa.Prelude.{
  ℕ, ◌<◌, ◌≡◌, refl, true, false, ◌==◌, ltb, arith, if◌then◌else◌, List, [], ◌∷◌, ◌∈◌, ◌∉◌,
  Distinct, Bool-cases, inl, inr,
}
use zeos_soa.Prelude.Int.{pos}
use zeos_soa.Frames.{Frames, total_pages, init_frames, alloc_frame, free_frame}
use zeos_soa.Frames.Alloc.{Taken, alloc_frame-Taken}
use zeos_soa.Frames.Init.{reserved, init_frames-phys_mem, reserved-init_frames}

-- The list without one of its members.
abbrev pub remove : ℕ → List ℕ → List ℕ
remove i [] = []
remove i (x ∷ xs) = if i == x then xs else x ∷ remove i xs

-- The pages in use by someone, beside the byte map.
pub record Owned : Type 0 where
  pub map : Frames
  pub held : List ℕ

pub data Step (s : Owned) : Owned → Type 0 where
  alloc :
      (i : ℕ) (g : Frames)
      → alloc_frame s.map ≡ (pos i, g)
      → Step s (record { map = g; held = i ∷ s.held })
  free : (i : ℕ) → i ∈ s.held → Step s (record { map = free_frame s.map i; held = remove i s.held })

pub data Reach (s : Owned) : Owned → Type 0 where
  here : Reach s s
  next : {t u : Owned} → Reach s t → Step t u → Reach s u

-- No page is held twice; a page that is held is in range, in use and not reserved; a reserved page
-- is in use.
pub record IsOwned (s : Owned) : Type 0 where
  pub distinct : Distinct s.held
  pub in_use : (p : ℕ) → p ∈ s.held → s.map.phys_mem p ≡ 1
  pub in_range : (p : ℕ) → p ∈ s.held → p < total_pages
  pub apart : (p : ℕ) → p ∈ s.held → reserved s.map p ≡ false
  pub kept : (p : ℕ) → p < total_pages → reserved s.map p ≡ true → s.map.phys_mem p ≡ 1

remove-has : (i p : ℕ) (xs : List ℕ) → p ∈ remove i xs → p ∈ xs
remove-has i p [] h = h
remove-has i p (x ∷ xs) h = ground (arith, remove-has i p xs)

remove-out : (i : ℕ) (xs : List ℕ) → Distinct xs → i ∉ remove i xs
remove-out i [] d = refl
remove-out i (x ∷ xs) d = ground (arith, remove-out i xs)

remove-out_of_out : (i p : ℕ) (xs : List ℕ) → p ∉ xs → p ∉ remove i xs
remove-out_of_out i p [] h = h
remove-out_of_out i p (x ∷ xs) h = ground (arith, remove-out_of_out i p xs)

remove-Distinct : (i : ℕ) (xs : List ℕ) → Distinct xs → Distinct (remove i xs)
remove-Distinct i [] d = tt
remove-Distinct i (x ∷ xs) (o, d) = elim (Bool-cases (i == x)) [
  | inl e ↦ rw e d
  | inr e ↦ rw e (remove-out_of_out i x xs o, remove-Distinct i xs d)
]

alloc-IsOwned :
    (s : Owned) (i : ℕ) (g : Frames)
    → Taken s.map i g
    → IsOwned s
    → IsOwned (record { map = g; held = i ∷ s.held })
alloc-IsOwned s i g t o = rw t.marked (record {
  distinct = (ground (arith, o.in_use i, t.was_free), o.distinct);
  in_use = λ p h. ground (arith, o.in_use p);
  in_range = λ p h. ground (arith, o.in_range p, t.below);
  apart = λ p h. ground (arith, o.apart p, o.kept p, t.was_free, t.below);
  kept = λ p a h. ground (arith, o.kept p, t.was_free);
})

free-IsOwned :
    (s : Owned) (i : ℕ)
    → i ∈ s.held
    → IsOwned s
    → IsOwned (record { map = free_frame s.map i; held = remove i s.held })
unfolding free_frame
free-IsOwned s i h o =
    let inside : ltb i total_pages ≡ true = ground (arith, o.in_range i) in
    rw inside (record {
      distinct = remove-Distinct i s.held o.distinct;
      in_use =
          λ p m. ground (arith, o.in_use p, remove-has i p s.held, remove-out i s.held o.distinct);
      in_range = λ p m. o.in_range p (remove-has i p s.held m);
      apart = λ p m. o.apart p (remove-has i p s.held m);
      kept = λ p a m. ground (arith, o.kept p, o.apart i);
    })

Step-IsOwned : {s t : Owned} → Step s t → IsOwned s → IsOwned t
Step-IsOwned {s} (alloc i g e) o = alloc-IsOwned s i g (alloc_frame-Taken s.map g i e) o
Step-IsOwned {s} (free i h) o = free-IsOwned s i h o

Reach-IsOwned : {s t : Owned} → IsOwned s → Reach s t → IsOwned t
Reach-IsOwned o here = o
Reach-IsOwned o (next r st) = Step-IsOwned st (Reach-IsOwned o r)

-- What `init_frames` leaves: nobody holds a page.
abbrev pub start : Frames → Owned
start f = record { map = init_frames f; held = [] }

-- From `init_frames` on, whatever pages are allocated, and freed by their holders: no page is handed
-- out twice, each page that is held is in range and marked as used, and none is a page of the
-- kernel, the GDT, the screen or the BIOS.
pub init_frames-IsOwned : (f : Frames) {t : Owned} → Reach (start f) t → IsOwned t
init_frames-IsOwned f r =
    Reach-IsOwned
      (record {
        distinct = tt;
        in_use = λ p m. absurd (ground arith);
        in_range = λ p m. absurd (ground arith);
        apart = λ p m. absurd (ground arith);
        kept = λ p a m. rw init_frames-phys_mem (rw (← reserved-init_frames f p, m));
      })
      r
