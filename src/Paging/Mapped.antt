-- ===== src/Paging/Mapped.antt =====
-- Pages that are mapped on fresh frames, and how two such steps follow one another.
use zeos_soa.Prelude.{subst, sym, ◌∙◌, ℕ, ◌<◌, ◌≡◌, refl, ◌≢◌, ◌⊎◌, inl, inr, arith}
use zeos_soa.Prelude.Int.{pos}
use zeos_soa.Frames.{Frames, alloc_frame}
use zeos_soa.Frames.Alloc.{Taken}
use zeos_soa.Frames.Available.{Fresh}
use zeos_soa.Paging.{Pte, Entries, zero_entry, slot, to_unsigned, add_user_page}

-- The entry of a user page.
abbrev pub user_entry : (frame writable : ℕ) → Pte
user_entry frame writable = record zero_entry {
  pbase_addr = frame;
  user = 1;
  rw_bit = writable;
  present = 1;
}

-- Between two states of the frames and the tables, the pages in `D` of the table `pt` got fresh
-- frames, each its own, and nothing else was mapped.
pub record Mapped (limit : ℕ) (w : ℕ → ℕ) (pt : ℕ) (D : ℕ → Type 0) (f : Frames) (e : Entries)
    (g : Frames) (e' : Entries) : Type 0 where
  pub mapped : (p : ℕ) → D p → (q : ℕ) × (e' (slot pt p) ≡ user_entry q (w p)) × Fresh limit f g q
  pub apart :
      (p q : ℕ) → D p → D q → p ≢ q → (e' (slot pt p)).pbase_addr ≢ (e' (slot pt q)).pbase_addr
  pub other : (a : ℕ) → ((p : ℕ) → D p → slot pt p ≢ a) → e' a ≡ e a
  pub kept : (q : ℕ) → g.phys_mem q ≡ 0 → f.phys_mem q ≡ 0
  pub marks : (q : ℕ) → f.phys_mem q ≡ 1 → g.phys_mem q ≡ 1
  pub bound : g.last_kernel ≡ f.last_kernel

module _ (limit : ℕ) (w : ℕ → ℕ) (pt : ℕ) where
  pub Mapped-none :
      (D : ℕ → Type 0) (f : Frames) (e : Entries) → ((p : ℕ) → ¬ D p) → Mapped limit w pt D f e f e
  Mapped-none D f e empty = record {
    mapped = λ p d. absurd (empty p d);
    apart = λ p q d d' ne. absurd (empty p d);
    other = λ a h. refl;
    kept = λ q h. h;
    marks = λ q h. h;
    bound = refl;
  }

  pub Mapped-one :
      (f g : Frames) (e : Entries) (page i : ℕ)
      → alloc_frame f ≡ (pos i, g)
      → Taken f i g
      → i < limit
      → Mapped limit w pt
          (λ p. page ≡ p)
          f
          e
          (add_user_page (w page) page (f, e) pt).0
          (add_user_page (w page) page (f, e) pt).1
  unfolding add_user_page to_unsigned
  Mapped-one f g e page i al t low = rw al (record {
    mapped = λ p d. (
      i,
      ground (arith, d, t.below),
      record {
        above = t.above;
        below = low;
        was_free = t.was_free;
        in_use = rw t.marked (ground arith);
      },
    );
    apart = λ p q d d' ne. absurd (ground (arith, d, d', ne));
    other = λ a h. ground (arith, h page refl);
    kept = λ q h. ground (arith, rw t.marked at h);
    marks = λ q h. rw t.marked (ground (arith, h));
    bound = rw t.marked refl;
  })

  pub Mapped-then :
      (C D : ℕ → Type 0) (f : Frames) (e : Entries) (g : Frames) (e1 : Entries) (h : Frames)
      (e2 : Entries)
      → ((p : ℕ) → C p → ¬ D p)
      → Mapped limit w pt C f e g e1
      → Mapped limit w pt D g e1 h e2
      → Mapped limit w pt (λ p. C p ⊎ D p) f e h e2
  Mapped-then C D f e g e1 h e2 split m n =
      let same : (p : ℕ) → C p → e2 (slot pt p) ≡ e1 (slot pt p) =
        λ p c. n.other (slot pt p) (λ q d s. split p c (subst D (cancel q p s) d)) in
      record {
        mapped = λ p d. elim d [
          | inl c ↦
              let (q, entry, r) = m.mapped p c in
              (
                q,
                rw (same p c) entry,
                record {
                  above = r.above;
                  below = r.below;
                  was_free = r.was_free;
                  in_use = n.marks q r.in_use;
                },
              )
          | inr c ↦
              let (q, entry, r) = n.mapped p c in
              (
                q,
                entry,
                record {
                  above = omega (arith, r.above, m.bound);
                  below = r.below;
                  was_free = m.kept q r.was_free;
                  in_use = r.in_use;
                },
              )
        ];
        apart = λ p q a b ne. elim a [
          | inl c ↦ elim b [
            | inl d ↦ rw (same p c, same q d) (m.apart p q c d ne)
            | inr d ↦ rw (same p c) (cross p q c d)
          ]
          | inr c ↦ elim b [
            | inl d ↦ rw (same q d) (λ s. cross q p d c (sym s))
            | inr d ↦ n.apart p q c d ne
          ]
        ];
        other = λ a out. n.other a (λ p d. out p (inr d)) ∙ m.other a (λ p c. out p (inl c));
        kept = λ q z. m.kept q (n.kept q z);
        marks = λ q z. n.marks q (m.marks q z);
        bound = n.bound ∙ m.bound;
      }
    where
      cancel : (q p : ℕ) → slot pt q ≡ slot pt p → q ≡ p
      cancel q p s = omega (arith, s)

      -- A frame of the first part is in use when the second part takes its own.
      cross : (p q : ℕ) → C p → D q → (e1 (slot pt p)).pbase_addr ≢ (e2 (slot pt q)).pbase_addr
      cross p q c d =
          let (i, a, r) = m.mapped p c in
          let (j, b, s) = n.mapped q d in
          let used = r.in_use in let free = s.was_free in rw (a, b) (λ eq. clash i j used free eq)
        where
          clash : (i j : ℕ) → g.phys_mem i ≡ 1 → g.phys_mem j ≡ 0 → i ≢ j
          clash i j used free eq = ground (arith, used, free, eq)

  pub Mapped-resize :
      (C D : ℕ → Type 0) (f : Frames) (e : Entries) (g : Frames) (e' : Entries)
      → ((p : ℕ) → D p → C p)
      → ((p : ℕ) → C p → D p)
      → Mapped limit w pt C f e g e'
      → Mapped limit w pt D f e g e'
  Mapped-resize C D f e g e' to from m = record {
    mapped = λ p d. m.mapped p (to p d);
    apart = λ p q a b. m.apart p q (to p a) (to q b);
    other = λ a out. m.other a (λ p c. out p (from p c));
    kept = m.kept;
    marks = m.marks;
    bound = m.bound;
  }
