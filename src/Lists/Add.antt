-- ===== src/Lists/Add.antt =====
-- `INIT_LIST_HEAD`, `list_add` and `list_add_tail` on the sequence that a list stands for.
use zeos_soa.Prelude.{◌≡◌, refl, ◌≢◌, List, [], ◌∷◌, ◌++◌, arith, ◌∉◌, Distinct, has-append}
use zeos_soa.Lists.{Ptr, Links, init_list_head, list_add, list_add_tail}
use zeos_soa.Lists.Rings.{Seg, IsRing, last, last-mem, Seg-last, Seg-frame, Distinct-snoc}

-- After `INIT_LIST_HEAD` the list is empty, and no other node has changed.
pub init_list_head-IsRing : (l : Links) (h : Ptr) → IsRing (init_list_head l h) h []
unfolding init_list_head
init_list_head-IsRing l h = record { seg = ground arith; distinct = (refl, tt) }

-- What a write between `last a xs` and `b` makes of the segment that ends at `b`.
Seg-snoc :
    (l m : Links) (new a : Ptr) (xs : List Ptr) (b : Ptr)
    → m.prev b ≡ new
    → m.next new ≡ b
    → m.prev new ≡ last a xs
    → m.next (last a xs) ≡ new
    → ((p : Ptr) → p ≢ last a xs → p ≢ new → m.next p ≡ l.next p)
    → ((p : Ptr) → p ≢ b → p ≢ new → m.prev p ≡ l.prev p)
    → Distinct (a ∷ xs)
    → b ∉ xs
    → new ∉ (a ∷ xs)
    → Seg l a xs b
    → Seg m a (xs ++ new ∷ []) b
Seg-snoc l m new a [] b pb nn pn nl sn sp d ob on (n, p) = (nl, pn, (nn, pb))
Seg-snoc l m new a (x ∷ xs) b pb nn pn nl sn sp d ob on (n, p, rest) = (
  ground (arith, sn a, last-mem x xs),
  ground (arith, sp x),
  Seg-snoc l m new x xs b pb nn pn nl sn sp d.1 (ground arith) (ground arith) rest,
)

list_add-Seg :
    (l : Links) (new h : Ptr) (xs : List Ptr)
    → Seg l h xs h
    → Distinct (h ∷ xs)
    → new ∉ (h ∷ xs)
    → Seg (list_add l new h) h (new ∷ xs) h
unfolding list_add
list_add-Seg l new h [] (n, p) d o = ground arith
list_add-Seg l new h (x ∷ xs) (n, p, rest) d o = (
  ground arith,
  ground arith,
  (
    ground arith,
    ground arith,
    Seg-frame l (list_add l new h) x xs h (λ q i. ground arith) (λ q i. ground arith) rest,
  ),
)

module _ (l : Links) (new h : Ptr) {xs : List Ptr} (ring : IsRing l h xs)
    (out : new ∉ (h ∷ xs)) where
  -- `list_add_tail` of a node that is not in a list makes it the last of the list.
  pub list_add_tail-IsRing : IsRing (list_add_tail l new h) h (xs ++ new ∷ [])
  unfolding list_add_tail
  list_add_tail-IsRing =
      let m = list_add_tail l new h in
      let old : l.prev h ≡ last h xs = Seg-last l h xs h ring.seg in
      let there = last-mem h xs in
      record {
        seg =
            Seg-snoc l m new h xs h (ground arith) (ground arith) (ground arith) (ground arith)
              (λ p i j. ground arith) (λ p i j. ground arith) ring.distinct ring.distinct.0 out
              ring.seg;
        distinct = (
          ground (arith, has-append h xs (new ∷ [])),
          Distinct-snoc xs new (ground arith) ring.distinct.1,
        );
      }

  -- It leaves the links of every other node as they were.
  pub list_add_tail-frame :
      (p : Ptr)
      → p ∉ (h ∷ xs)
      → p ≢ new
      → ((list_add_tail l new h).next p ≡ l.next p) × ((list_add_tail l new h).prev p ≡ l.prev p)
  unfolding list_add_tail
  list_add_tail-frame p o ne = ground (arith, Seg-last l h xs h ring.seg, last-mem h xs)

  -- `list_add` puts a new node in front.
  pub list_add-IsRing : IsRing (list_add l new h) h (new ∷ xs)
  list_add-IsRing = record {
    seg = list_add-Seg l new h xs ring.seg ring.distinct out;
    distinct = (ground (arith, ring.distinct.0), (ground arith, ring.distinct.1));
  }
