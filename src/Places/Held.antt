-- ===== src/Places/Held.antt =====
-- The links that hold a map of places, and what adding and removing a node does to all of its lists at
-- once.
use zeos_soa.Prelude.{
  Distinct, ◌≡◌, refl, ◌≢◌, true, false, List, [], ◌∷◌, ◌++◌, map, ◌∈◌, ◌∉◌, has, has-append, ◌⊎◌,
  arith, Bool-cases, inl, inr, ◌∙◌, sym, subst, ap, ◌==◌,
}
use zeos_soa.Lists.{Ptr, Links, list_add_tail, list_del}
use zeos_soa.Lists.Rings.{IsRing, Distinct-middle}
use zeos_soa.Lists.Add.{list_add_tail-IsRing, list_add_tail-frame}
use zeos_soa.Lists.Remove.{list_del-IsRing, list_del-null, list_del-frame}
use zeos_soa.Lists.Move.{
  Disjoint, Disjoint-symm, IsRing-frame, middle-mem, rest-mem, ne_of_mem, snoc-mem,
}
use zeos_soa.Kernel.{Heads}
use zeos_soa.Sched.Switch.{IsDetached}
use zeos_soa.Places.{Place, same_place, head_of, node_of, Known, Map, nodes_at, put}

pub same_place_refl : (x : Place) → same_place x x ≡ true
unfolding same_place
same_place_refl Place.ready = refl
same_place_refl Place.waiting = refl
same_place_refl Place.readers = refl
same_place_refl (Place.blocked_children p) = ground arith
same_place_refl (Place.unblocked_children p) = ground arith

pub eq_of_same_place : (x y : Place) → same_place x y ≡ true → x ≡ y
unfolding same_place
eq_of_same_place (Place.blocked_children p) (Place.blocked_children q) h =
    ap Place.blocked_children (ground arith)
eq_of_same_place (Place.unblocked_children p) (Place.unblocked_children q) h =
    ap Place.unblocked_children (ground arith)
eq_of_same_place x y h = ground arith

pub put-here : (at : Map) (x : Place) (ts : List Ptr) → put at x ts x ≡ ts
unfolding put
put-here at x ts = rw (same_place_refl x)

pub put-other :
    (at : Map) (x y : Place) (ts : List Ptr) → same_place x y ≡ false → put at x ts y ≡ at y
unfolding put
put-other at x y ts h = rw h

pub map-append : (f : Ptr → Ptr) (xs ys : List Ptr) → map f (xs ++ ys) ≡ map f xs ++ map f ys
map-append f [] ys = refl
map-append f (x ∷ xs) ys = ap (λ r. f x ∷ r) (map-append f xs ys)

true-false : true ≡ false → ⊥
true-false h = cc

pub not_mem_of_imp : (p : Ptr) (xs ys : List Ptr) → (p ∈ xs → p ∈ ys) → p ∉ ys → p ∉ xs
not_mem_of_imp p xs ys f o = elim (Bool-cases (has p xs)) [
  | inl i ↦ absurd (true-false (sym (f i) ∙ o))
  | inr n ↦ n
]

module _ (heads : Heads) (ps : List Ptr) where
  -- The nodes of a place, the head included.
  abbrev pub all_nodes : Map → Place → List Ptr
  all_nodes at x = head_of heads x ∷ nodes_at at x

  -- Each place has a list of its own, and no two of them share a node.
  pub record Held (l : Links) (at : Map) : Type 0 where
    pub ring : (x : Place) → Known ps x → IsRing l (head_of heads x) (nodes_at at x)
    pub apart :
        (x y : Place)
        → Known ps x
        → Known ps y
        → same_place x y ≡ false
        → Disjoint (all_nodes at x) (all_nodes at y)

  -- A node that is in no list.
  pub record Free (l : Links) (at : Map) (n : Ptr) : Type 0 where
    pub out : (x : Place) → Known ps x → n ∉ all_nodes at x
    pub detached : IsDetached l n

  -- Taking a process out of a place.
  module _ (l : Links) (at : Map) (x : Place) (t : Ptr) (us vs : List Ptr) (e : at x ≡ us ++ t ∷ vs)
      (known : Known ps x) (held : Held l at) where
    abbrev n : Ptr
    n = node_of x t

    abbrev after : Map
    after = put at x (us ++ vs)

    here : nodes_at at x ≡ map (node_of x) us ++ n ∷ map (node_of x) vs
    here = ap (map (node_of x)) e ∙ map-append (node_of x) us (t ∷ vs)

    here' : nodes_at after x ≡ map (node_of x) us ++ map (node_of x) vs
    here' = ap (map (node_of x)) (put-here at x (us ++ vs)) ∙ map-append (node_of x) us vs

    ring : IsRing l (head_of heads x) (map (node_of x) us ++ n ∷ map (node_of x) vs)
    ring = subst (IsRing l (head_of heads x)) here (held.ring x known)

    there : (y : Place) → same_place x y ≡ false → nodes_at after y ≡ nodes_at at y
    there y d = ap (map (node_of y)) (put-other at x y (us ++ vs) d)

    in_x : (p : Ptr) → p ∈ all_nodes after x → p ∈ all_nodes at x
    in_x p i =
        let old : p ∈ (head_of heads x ∷ (map (node_of x) us ++ map (node_of x) vs)) =
          subst (λ r. p ∈ (head_of heads x ∷ r)) here' i in
        subst (λ r. p ∈ (head_of heads x ∷ r)) (sym here)
          (rest-mem (head_of heads x) n p (map (node_of x) us) (map (node_of x) vs) old)

    -- What stands in a place afterwards stood there before.
    fewer : (y : Place) (p : Ptr) → p ∈ all_nodes after y → p ∈ all_nodes at y
    fewer y p i = elim (Bool-cases (same_place x y)) [
      | inl s ↦
          subst (λ z. p ∈ all_nodes after z → p ∈ all_nodes at z) (eq_of_same_place x y s) (in_x p)
            i
      | inr d ↦ subst (λ r. p ∈ (head_of heads y ∷ r)) (there y d) i
    ]

    outer : (y : Place) (p : Ptr) → p ∉ all_nodes at y → p ∉ all_nodes after y
    outer y p = not_mem_of_imp p (all_nodes after y) (all_nodes at y) (fewer y p)

    out_of_x :
        (y : Place) (p : Ptr)
        → Known ps y
        → same_place x y ≡ false
        → p ∈ all_nodes at y
        → p ∉ (head_of heads x ∷ (map (node_of x) us ++ n ∷ map (node_of x) vs))
    out_of_x y p k d i =
        subst (λ r. p ∉ (head_of heads x ∷ r)) here
          (Disjoint-symm (all_nodes at x) (all_nodes at y) (held.apart x y known k d) p i)

    IsRing-after :
        (y : Place) → Known ps y → IsRing (list_del l n) (head_of heads y) (nodes_at after y)
    IsRing-after y k = elim (Bool-cases (same_place x y)) [
      | inl s ↦
          subst (λ z. IsRing (list_del l n) (head_of heads z) (nodes_at after z))
            (eq_of_same_place x y s)
            (subst (IsRing (list_del l n) (head_of heads x)) (sym here') (
              list_del-IsRing l (head_of heads x) n (map (node_of x) us) (map (node_of x) vs) ring))
      | inr d ↦ subst (IsRing (list_del l n) (head_of heads y)) (sym (there y d)) (
          IsRing-frame l (list_del l n) (head_of heads y) (nodes_at at y)
            (λ p i.
              list_del-frame l (head_of heads x) n (map (node_of x) us) (map (node_of x) vs) ring p
                (out_of_x y p k d i))
            (held.ring y k))
    ]

    pub list_del-Held : Held (list_del l n) after
    list_del-Held = record {
      ring = IsRing-after;
      apart = λ a b ka kb d p i. outer b p (held.apart a b ka kb d p (fewer a p i));
    }

    n_in : n ∈ all_nodes at x
    n_in =
        subst (λ r. n ∈ (head_of heads x ∷ r)) (sym here)
          (middle-mem (head_of heads x) n (map (node_of x) us) (map (node_of x) vs))

    n_out : n ∉ all_nodes after x
    n_out =
        let clear = Distinct-middle (map (node_of x) us) n (map (node_of x) vs) ring.distinct.1 in
        subst (λ r. n ∉ (head_of heads x ∷ r)) (sym here')
          (ground (
            arith,
            clear.3,
            ring.distinct.0,
            has-append (head_of heads x) (map (node_of x) us) (n ∷ map (node_of x) vs),
          ))

    -- The node that was taken out is in no list.
    pub list_del-Free : Free (list_del l n) after n
    list_del-Free =
        let null_links =
          list_del-null l (head_of heads x) n (map (node_of x) us) (map (node_of x) vs) ring in
        record {
          out = λ y k. elim (Bool-cases (same_place x y)) [
            | inl s ↦ subst (λ z. n ∉ all_nodes after z) (eq_of_same_place x y s) n_out
            | inr d ↦ outer y n (held.apart x y known k d n n_in)
          ];
          detached = record { no_next = null_links.0; no_prev = null_links.1 };
        }

    -- A node that is in no list stays so.
    pub list_del-keeps_Free : (m : Ptr) → Free l at m → Free (list_del l n) after m
    list_del-keeps_Free m f =
        let (nx, pv) =
          list_del-frame l (head_of heads x) n (map (node_of x) us) (map (node_of x) vs) ring m
            (subst (λ r. m ∉ (head_of heads x ∷ r)) here (f.out x known)) in
        record {
          out = λ y k. outer y m (f.out y k);
          detached = record {
            no_next = nx ∙ f.detached.no_next;
            no_prev = pv ∙ f.detached.no_prev;
          };
        }

  -- Adding a process at the end of a place.
  module _ (l : Links) (at : Map) (x : Place) (t : Ptr) (known : Known ps x) (held : Held l at)
      (free : (y : Place) → Known ps y → node_of x t ∉ all_nodes at y) where
    abbrev new : Ptr
    new = node_of x t

    abbrev added : Map
    added = put at x (at x ++ t ∷ [])

    abbrev l' : Links
    l' = list_add_tail l new (head_of heads x)

    added_here : nodes_at added x ≡ nodes_at at x ++ new ∷ []
    added_here =
        ap (map (node_of x)) (put-here at x (at x ++ t ∷ []))
        ∙ map-append (node_of x) (at x) (t ∷ [])

    added_there : (y : Place) → same_place x y ≡ false → nodes_at added y ≡ nodes_at at y
    added_there y d = ap (map (node_of y)) (put-other at x y (at x ++ t ∷ []) d)

    -- What stands in a place afterwards stood there before, or is the new node.
    more :
        (y : Place) (p : Ptr) → p ∈ all_nodes added y → (p ∈ all_nodes at y) ⊎ ((p ≡ new) × (x ≡ y))
    more y p i = elim (Bool-cases (same_place x y)) [
      | inl s ↦
          let e = eq_of_same_place x y s in
          let j : p ∈ all_nodes added x = subst (λ z. p ∈ all_nodes added z) (sym e) i in
          let k : p ∈ (head_of heads x ∷ (nodes_at at x ++ new ∷ [])) =
            subst (λ r. p ∈ (head_of heads x ∷ r)) added_here j in
          elim (snoc-mem (head_of heads x) new p (nodes_at at x) k) [
            | inl old ↦ inl (subst (λ z. p ∈ all_nodes at z) e old)
            | inr q ↦ inr (q, e)
          ]
      | inr d ↦ inl (subst (λ r. p ∈ (head_of heads y ∷ r)) (added_there y d) i)
    ]

    same_links :
        (y : Place) (p : Ptr)
        → Known ps y
        → same_place x y ≡ false
        → p ∈ all_nodes at y
        → (l'.next p ≡ l.next p) × (l'.prev p ≡ l.prev p)
    same_links y p k d i =
        list_add_tail-frame l new (head_of heads x) (held.ring x known) (free x known) p
          (Disjoint-symm (all_nodes at x) (all_nodes at y) (held.apart x y known k d) p i)
          (ne_of_mem p new (all_nodes at y) i (free y k))

    added-IsRing : (y : Place) → Known ps y → IsRing l' (head_of heads y) (nodes_at added y)
    added-IsRing y k = elim (Bool-cases (same_place x y)) [
      | inl s ↦
          subst (λ z. IsRing l' (head_of heads z) (nodes_at added z)) (eq_of_same_place x y s)
            (subst (IsRing l' (head_of heads x)) (sym added_here)
              (list_add_tail-IsRing l new (head_of heads x) (held.ring x known) (free x known)))
      | inr d ↦ subst (IsRing l' (head_of heads y)) (sym (added_there y d)) (
          IsRing-frame l l' (head_of heads y) (nodes_at at y) (λ p i. same_links y p k d i)
            (held.ring y k))
    ]

    added_apart :
        (a b : Place) (p : Ptr)
        → Known ps a
        → Known ps b
        → same_place a b ≡ false
        → (p ∈ all_nodes at a) ⊎ ((p ≡ new) × (x ≡ a))
        → (p ∈ all_nodes at b) ⊎ ((p ≡ new) × (x ≡ b))
        → ⊥
    added_apart a b p ka kb d (inl i) (inl j) = true-false (sym j ∙ held.apart a b ka kb d p i)
    added_apart a b p ka kb d (inl i) (inr (e, q)) =
        ne_of_mem p new (all_nodes at a) i (free a ka) e
    added_apart a b p ka kb d (inr (e, q)) (inl j) =
        ne_of_mem p new (all_nodes at b) j (free b kb) e
    added_apart a b p ka kb d (inr (e, q)) (inr (e', q')) =
        true-false (sym (same_place_refl a) ∙ ap (same_place a) (sym q ∙ q') ∙ d)

    pub list_add_tail-Held : Held l' added
    list_add_tail-Held = record {
      ring = added-IsRing;
      apart = λ a b ka kb d p i. elim (Bool-cases (has p (all_nodes added b))) [
        | inl j ↦ absurd (added_apart a b p ka kb d (more a p i) (more b p j))
        | inr o ↦ o
      ];
    }

    -- Another node that no list has stays so.
    pub list_add_tail-keeps_out :
        (m : Ptr)
        → m ≢ new
        → ((y : Place) → Known ps y → m ∉ all_nodes at y)
        → (y : Place) → Known ps y
        → m ∉ all_nodes added y
    list_add_tail-keeps_out m ne out y k = elim (Bool-cases (has m (all_nodes added y))) [
      | inl j ↦ absurd (neither y k m ne out (more y m j))
      | inr o ↦ o
    ]
      where
        neither :
            (y : Place)
            → Known ps y
            → (m : Ptr) → m ≢ new
            → ((y : Place) → Known ps y → m ∉ all_nodes at y)
            → (m ∈ all_nodes at y) ⊎ ((m ≡ new) × (x ≡ y))
            → ⊥
        neither y k m ne out (inl i) = true-false (sym i ∙ out y k)
        neither y k m ne out (inr (e, q)) = ne e

    -- Another node that is in no list stays so.
    pub list_add_tail-keeps_Free : (m : Ptr) → m ≢ new → Free l at m → Free l' added m
    list_add_tail-keeps_Free m ne f =
        let (nx, pv) =
          list_add_tail-frame l new (head_of heads x) (held.ring x known) (free x known) m
            (f.out x known) ne in
        record {
          out = list_add_tail-keeps_out m ne f.out;
          detached = record {
            no_next = nx ∙ f.detached.no_next;
            no_prev = pv ∙ f.detached.no_prev;
          };
        }

pub map-mem : (f : Ptr → Ptr) (t : Ptr) (xs : List Ptr) → t ∈ xs → f t ∈ map f xs
map-mem f t [] i = absurd (ground arith)
map-mem f t (y ∷ ys) i = elim (Bool-cases (t == y)) [
  | inl e ↦ let same : t ≡ y = ground arith in rw same (ground arith)
  | inr e ↦ ground (arith, map-mem f t ys)
]

-- What is in no list is not the node of a process that stands in a place.
pub nodes_has :
    (heads : Heads) (ps : List Ptr) (at : Map) (x : Place) (t : Ptr)
    → t ∈ at x
    → (m : Ptr) → m ∉ (head_of heads x ∷ nodes_at at x)
    → m ≢ node_of x t
nodes_has heads ps at x t i m o e = true-false (
    sym (map-mem (node_of x) t (at x) i)
    ∙ (rw e at (has_tail m (head_of heads x) (nodes_at at x) o)))
  where
    has_tail : (m h : Ptr) (xs : List Ptr) → m ∉ (h ∷ xs) → m ∉ xs
    has_tail m h xs o = ground arith

-- A process whose node is in no list stands in no place by this node.
pub Free-not_in :
    (heads : Heads) (ps : List Ptr) (l : Links) (at : Map) (x : Place) (t : Ptr)
    → Known ps x
    → Free heads ps l at (node_of x t)
    → t ∉ at x
Free-not_in heads ps l at x t known f = elim (Bool-cases (has t (at x))) [
  | inl i ↦ absurd (nodes_has heads ps at x t i (node_of x t) (f.out x known) refl)
  | inr o ↦ o
]

-- A process stands at most once in a place.
pub at-Distinct :
    (heads : Heads) (ps : List Ptr) (l : Links) (at : Map) (x : Place)
    → Known ps x
    → Held heads ps l at
    → Distinct (at x)
at-Distinct heads ps l at x known held = of_map (node_of x) (at x) (held.ring x known).distinct.1
  where
    of_map : (f : Ptr → Ptr) (xs : List Ptr) → Distinct (map f xs) → Distinct xs
    of_map f [] d = tt
    of_map f (y ∷ ys) (o, d) = (
      elim (Bool-cases (has y ys)) [
        | inl i ↦ absurd (true-false (sym (map-mem f y ys i) ∙ o))
        | inr out ↦ out
      ],
      of_map f ys d,
    )
