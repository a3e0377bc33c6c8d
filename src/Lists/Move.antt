-- ===== src/Lists/Move.antt =====
-- Nodes that go from one list to another, and lists that other operations leave alone.
use zeos_soa.Prelude.{
  ◌≡◌, ◌≢◌, List, [], ◌∷◌, ◌++◌, has, ◌∈◌, ◌∉◌, has-append, arith, Bool-cases, inl, inr, ◌∙◌, ◌⊎◌,
}
use zeos_soa.Lists.{Ptr, Links, list_add_tail, list_del}
use zeos_soa.Lists.Rings.{IsRing, Seg-frame, Distinct-middle}
use zeos_soa.Lists.Add.{list_add_tail-IsRing, list_add_tail-frame}
use zeos_soa.Lists.Remove.{list_del-IsRing, list_del-frame}

-- Two lists of nodes, their heads included, that share no address.
abbrev pub Disjoint : List Ptr → List Ptr → Type 0
Disjoint xs ys = (p : Ptr) → p ∈ xs → p ∉ ys

-- `m` has the links of `l` at the nodes `ps`.
abbrev pub SameAt : Links → Links → List Ptr → Type 0
SameAt l m ps = (p : Ptr) → p ∈ ps → (m.next p ≡ l.next p) × (m.prev p ≡ l.prev p)

-- A list is untouched by what leaves the links of its nodes.
pub IsRing-frame :
    (l m : Links) (h : Ptr) (xs : List Ptr) → SameAt l m (h ∷ xs) → IsRing l h xs → IsRing m h xs
IsRing-frame l m h xs same r = record {
  seg = Seg-frame l m h xs h (λ p i. (same p i).0) (λ p i. (same p i).1) r.seg;
  distinct = r.distinct;
}

pub Disjoint-symm : (xs ys : List Ptr) → Disjoint xs ys → Disjoint ys xs
Disjoint-symm xs ys d p i = elim (Bool-cases (has p xs)) [
  | inl e ↦ ground (arith, d p e)
  | inr e ↦ e
]

-- `y` in the middle of a list is a node of it, and differs from all the others.
pub middle-mem : (h y : Ptr) (xs ys : List Ptr) → y ∈ (h ∷ (xs ++ y ∷ ys))
middle-mem h y xs ys = ground (arith, has-append y xs (y ∷ ys))

pub rest-mem : (h y p : Ptr) (xs ys : List Ptr) → p ∈ (h ∷ (xs ++ ys)) → p ∈ (h ∷ (xs ++ y ∷ ys))
rest-mem h y p xs ys i = ground (arith, has-append p xs (y ∷ ys), has-append p xs ys)

pub rest-ne :
    (l : Links) (h y p : Ptr) (xs ys : List Ptr)
    → IsRing l h (xs ++ y ∷ ys)
    → p ∈ (h ∷ (xs ++ ys))
    → p ≢ y
rest-ne l h y p xs ys r i e =
    let clear = Distinct-middle xs y ys r.distinct.1 in
    ground (arith, clear.3, r.distinct.0, has-append h xs (y ∷ ys))

pub ne_of_mem : (p n : Ptr) (ps : List Ptr) → p ∈ ps → n ∉ ps → p ≢ n
ne_of_mem p n ps i o e = ground arith

pub snoc-mem : (h y p : Ptr) (xs : List Ptr) → p ∈ (h ∷ (xs ++ y ∷ [])) → (p ∈ (h ∷ xs)) ⊎ (p ≡ y)
snoc-mem h y p xs i = ground (arith, has-append p xs (y ∷ []))

-- What differs from two lists of nodes differs from one that is made of the first and one more node.
pub snoc-out :
    (h y p : Ptr) (xs qs : List Ptr)
    → Disjoint (h ∷ xs) qs
    → y ∉ qs
    → p ∈ (h ∷ (xs ++ y ∷ []))
    → p ∉ qs
snoc-out h y p xs qs d o i = elim (snoc-mem h y p xs i) [ inl old ↦ d p old | inr e ↦ rw e o ]

pub rest-out : (h y p : Ptr) (xs ys : List Ptr) → p ∉ (h ∷ (xs ++ y ∷ ys)) → p ∉ (h ∷ (xs ++ ys))
rest-out h y p xs ys o = ground (arith, has-append p xs (y ∷ ys), has-append p xs ys)

pub snoc-not_mem : (h y p : Ptr) (xs : List Ptr) → p ∉ (h ∷ xs) → p ≢ y → p ∉ (h ∷ (xs ++ y ∷ []))
snoc-not_mem h y p xs o ne = ground (arith, has-append p xs (y ∷ []))

-- Moving the node `y` from the list `h` to the end of the list `g`.
module _ (l : Links) (h g y : Ptr) (xs ys zs : List Ptr) (from : IsRing l h (xs ++ y ∷ ys))
    (to : IsRing l g zs) (apart : Disjoint (g ∷ zs) (h ∷ (xs ++ y ∷ ys))) where
  y_outside : y ∉ (g ∷ zs)
  y_outside = Disjoint-symm (g ∷ zs) (h ∷ (xs ++ y ∷ ys)) apart y (middle-mem h y xs ys)

  kept : IsRing (list_del l y) g zs
  kept =
      IsRing-frame l (list_del l y) g zs (λ p i. list_del-frame l h y xs ys from p (apart p i)) to

  -- The node stands at the end of the list that it went to.
  pub move-to : IsRing (list_add_tail (list_del l y) y g) g (zs ++ y ∷ [])
  move-to = list_add_tail-IsRing (list_del l y) y g kept y_outside

  -- The list that it left holds the others in their order.
  pub move-from : IsRing (list_add_tail (list_del l y) y g) h (xs ++ ys)
  move-from =
      IsRing-frame (list_del l y) (list_add_tail (list_del l y) y g) h (xs ++ ys)
        (λ p i.
          list_add_tail-frame (list_del l y) y g kept y_outside p
            (Disjoint-symm (g ∷ zs) (h ∷ (xs ++ y ∷ ys)) apart p (rest-mem h y p xs ys i))
            (rest-ne l h y p xs ys from i))
        (list_del-IsRing l h y xs ys from)

  -- A node of neither list keeps its links.
  pub move-frame :
      (p : Ptr)
      → p ∉ (h ∷ (xs ++ y ∷ ys))
      → p ∉ (g ∷ zs)
      → ((list_add_tail (list_del l y) y g).next p ≡ l.next p)
        × ((list_add_tail (list_del l y) y g).prev p ≡ l.prev p)
  move-frame p a b =
      let ne : p ≢ y = ground (arith, middle-mem h y xs ys) in
      let (n, q) = list_add_tail-frame (list_del l y) y g kept y_outside p b ne in
      let (n', q') = list_del-frame l h y xs ys from p a in (n ∙ n', q ∙ q')
