-- ===== src/Lists/Walk.antt =====
-- `list_for_each`, `list_first` and `list_empty` on the sequence that a list stands for.
use zeos_soa.Prelude.{ℕ, zero, suc, ◌<◌, ◌≡◌, true, false, List, [], ◌∷◌, arith, ◌∉◌, length}
use zeos_soa.Lists.{Ptr, Links, walk, list_empty, list_first}
use zeos_soa.Lists.Rings.{Seg, IsRing}

walk-Seg :
    (fuel : ℕ) (l : Links) (a : Ptr) (xs : List Ptr) (h : Ptr)
    → Seg l a xs h
    → h ∉ xs
    → length xs < fuel
    → walk fuel l (l.next a) h ≡ xs
unfolding walk
walk-Seg zero l a xs h s o f = absurd (omega arith)
walk-Seg (suc fuel) l a [] h s o f = ground arith
walk-Seg (suc fuel) l a (x ∷ xs) h (n, p, rest) o f = ground (arith, walk-Seg fuel l x xs h rest)

-- With more rounds than the list has nodes, `list_for_each` visits exactly the nodes of the list, in
-- order.
pub walk-IsRing :
    (fuel : ℕ) (l : Links) (h : Ptr) {xs : List Ptr}
    → IsRing l h xs
    → length xs < fuel
    → walk fuel l (list_first l h) h ≡ xs
unfolding list_first
walk-IsRing fuel l h {xs} r f = walk-Seg fuel l h xs h r.seg r.distinct.0 f

pub list_empty-nil : (l : Links) (h : Ptr) → IsRing l h [] → list_empty l h ≡ true
unfolding list_empty
list_empty-nil l h r = ground arith

pub list_empty-cons :
    (l : Links) (h x : Ptr) {xs : List Ptr} → IsRing l h (x ∷ xs) → list_empty l h ≡ false
unfolding list_empty
list_empty-cons l h x r = ground arith

pub list_first-cons :
    (l : Links) (h x : Ptr) {xs : List Ptr} → IsRing l h (x ∷ xs) → list_first l h ≡ x
unfolding list_first
list_first-cons l h x r = r.seg.0
