-- ===== src/Lists/Remove.antt =====
-- `list_del` on the sequence that a list stands for.
use zeos_soa.Prelude.{◌≡◌, ◌≢◌, List, [], ◌∷◌, ◌++◌, arith, ◌∈◌, ◌∉◌, Distinct, has-append}
use zeos_soa.Lists.{Ptr, null, Links, list_del}
use zeos_soa.Lists.Rings.{
  Seg, IsRing, last, first, last-mem, first-mem, Seg-last, Seg-first, Seg-frame, Seg-split,
  Distinct-middle, Distinct-apart,
}

-- What joining `last a xs` to the first of `ys` makes of two segments that met at a removed node.
Seg-close :
    (l m : Links) (y a : Ptr) (xs ys : List Ptr) (b : Ptr)
    → m.next (last a xs) ≡ first ys b
    → m.prev (first ys b) ≡ last a xs
    → ((p : Ptr) → p ≢ last a xs → p ≢ y → m.next p ≡ l.next p)
    → ((p : Ptr) → p ≢ first ys b → p ≢ y → m.prev p ≡ l.prev p)
    → Distinct (a ∷ xs)
    → Distinct (b ∷ ys)
    → y ∉ (a ∷ xs)
    → y ∉ (b ∷ ys)
    → ((p : Ptr) → p ∈ (a ∷ xs) → p ∉ ys)
    → ((p : Ptr) → p ∈ xs → p ≢ b)
    → Seg l a xs y
    → Seg l y ys b
    → Seg m a (xs ++ ys) b
Seg-close l m y a [] [] b nx pv sn sp da db oa ob apart off (n, p) back = (nx, pv)
Seg-close l m y a [] (z ∷ ys) b nx pv sn sp da db oa ob apart off (n, p) back = (
  nx,
  pv,
  Seg-frame l m z ys b (λ q i. sn q (ground (arith, apart a)) (ground arith))
      (λ q i. sp q (ground arith) (ground arith)) back.2,
)
Seg-close l m y a (x ∷ xs) ys b nx pv sn sp da db oa ob apart off (n, p, rest) back = (
  ground (arith, sn a, last-mem x xs),
  ground (arith, sp x, first-mem ys b, apart x, off x),
  Seg-close l m y x xs ys b nx pv sn sp da.1 db (ground arith) ob (λ q i. apart q (ground arith))
      (λ q i. off q (ground arith)) rest back,
)

-- The list with head `h` holds `xs`, then `y`, then `ys`.
module _ (l : Links) (h y : Ptr) (xs ys : List Ptr) (ring : IsRing l h (xs ++ y ∷ ys)) where
  parts : Seg l h xs y × Seg l y ys h
  parts = Seg-split l h xs y ys h ring.seg

  nodes : (y ∉ xs) × (y ∉ ys) × Distinct (xs ++ ys) × (y ∉ (xs ++ ys)) × Distinct xs × Distinct ys
  nodes = Distinct-middle xs y ys ring.distinct.1

  head_apart : (h ∉ xs) × (h ≢ y) × (h ∉ ys)
  head_apart = ground (arith, ring.distinct.0, has-append h xs (y ∷ ys))

  -- `list_del` of a node takes it out of its list; the others keep their order.
  pub list_del-IsRing : IsRing (list_del l y) h (xs ++ ys)
  unfolding list_del
  list_del-IsRing =
      let m = list_del l y in
      let (front, back) = parts in
      let before : l.prev y ≡ last h xs = Seg-last l h xs y front in
      let after : l.next y ≡ first ys h = Seg-first l y ys h back in
      let there = last-mem h xs in
      let follows = first-mem ys h in
      let clear = nodes in
      let free = head_apart in
      record {
        seg =
            Seg-close l m y h xs ys h (ground arith) (ground arith) (λ p i j. ground arith)
              (λ p i j. ground arith) (free.0, clear.4) (free.2, clear.5) (ground arith)
              (ground arith) (λ p i. ground (arith, Distinct-apart xs y ys p ring.distinct.1))
              (λ p i e. ground arith) front back;
        distinct = (ground (arith, has-append h xs ys), clear.2);
      }

  -- The links of a node that `list_del` has taken out are both NULL.
  pub list_del-null : ((list_del l y).next y ≡ null) × ((list_del l y).prev y ≡ null)
  unfolding list_del
  list_del-null = ground arith

  -- `list_del` leaves the links of the nodes of other lists as they were.
  pub list_del-frame :
      (p : Ptr)
      → p ∉ (h ∷ (xs ++ y ∷ ys))
      → ((list_del l y).next p ≡ l.next p) × ((list_del l y).prev p ≡ l.prev p)
  unfolding list_del
  list_del-frame p o = ground (
    arith,
    Seg-last l h xs y parts.0,
    Seg-first l y ys h parts.1,
    last-mem h xs,
    first-mem ys h,
    has-append p xs (y ∷ ys),
  )
