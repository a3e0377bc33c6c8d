-- ===== src/Lists/Rings.antt =====
-- What a circular list stands for: the sequence of its nodes, kept by each operation of list.c.
use zeos_soa.Prelude.{
  ◌≡◌, refl, List, [], ◌∷◌, ◌++◌, arith, ◌==◌, ◌∈◌, ◌∉◌, Distinct, has-append, Bool-cases, inl, inr,
}
use zeos_soa.Lists.{Ptr, Links}

-- The nodes `xs` stand, linked both ways, between `a` and `b`.
abbrev pub Seg : Links → Ptr → List Ptr → Ptr → Type 0
Seg l a [] b = (l.next a ≡ b) × (l.prev b ≡ a)
Seg l a (x ∷ xs) b = (l.next a ≡ x) × (l.prev x ≡ a) × Seg l x xs b

-- The list with head `h` holds the distinct nodes `xs`.
pub record IsRing (l : Links) (h : Ptr) (xs : List Ptr) : Type 0 where
  pub seg : Seg l h xs h
  pub distinct : Distinct (h ∷ xs)

-- The last of the nodes `a ∷ xs`.
abbrev pub last : Ptr → List Ptr → Ptr
last a [] = a
last a (x ∷ xs) = last x xs

-- The first of the nodes `xs` and `b` behind them.
abbrev pub first : List Ptr → Ptr → Ptr
first [] b = b
first (x ∷ xs) b = x

pub last-mem : (a : Ptr) (xs : List Ptr) → last a xs ∈ (a ∷ xs)
last-mem a [] = ground arith
last-mem a (x ∷ xs) = ground (arith, last-mem x xs)

pub first-mem : (xs : List Ptr) (b : Ptr) → first xs b ∈ (b ∷ xs)
first-mem [] b = ground arith
first-mem (x ∷ xs) b = ground arith

pub Seg-last : (l : Links) (a : Ptr) (xs : List Ptr) (b : Ptr) → Seg l a xs b → l.prev b ≡ last a xs
Seg-last l a [] b (n, p) = p
Seg-last l a (x ∷ xs) b (n, p, rest) = Seg-last l x xs b rest

pub Seg-first :
    (l : Links) (a : Ptr) (xs : List Ptr) (b : Ptr) → Seg l a xs b → l.next a ≡ first xs b
Seg-first l a [] b (n, p) = n
Seg-first l a (x ∷ xs) b (n, p, rest) = n

-- A segment depends on nothing but the links of its nodes.
pub Seg-frame :
    (l m : Links) (a : Ptr) (xs : List Ptr) (b : Ptr)
    → ((p : Ptr) → p ∈ (a ∷ xs) → m.next p ≡ l.next p)
    → ((p : Ptr) → p ∈ (b ∷ xs) → m.prev p ≡ l.prev p)
    → Seg l a xs b
    → Seg m a xs b
Seg-frame l m a [] b sn sp (n, p) = ground (arith, sn a, sp b)
Seg-frame l m a (x ∷ xs) b sn sp (n, p, rest) = (
  ground (arith, sn a),
  ground (arith, sp x),
  Seg-frame l m x xs b (λ q i. sn q (ground arith)) (λ q i. sp q (ground arith)) rest,
)

pub Seg-split :
    (l : Links) (a : Ptr) (xs : List Ptr) (y : Ptr) (ys : List Ptr) (b : Ptr)
    → Seg l a (xs ++ y ∷ ys) b
    → Seg l a xs y × Seg l y ys b
Seg-split l a [] y ys b (n, p, rest) = ((n, p), rest)
Seg-split l a (x ∷ xs) y ys b (n, p, rest) =
    let (front, back) = Seg-split l x xs y ys b rest in ((n, p, front), back)

pub Seg-join :
    (l : Links) (a : Ptr) (xs : List Ptr) (y : Ptr) (ys : List Ptr) (b : Ptr)
    → Seg l a xs y
    → Seg l y ys b
    → Seg l a (xs ++ y ∷ ys) b
Seg-join l a [] y ys b (n, p) back = (n, p, back)
Seg-join l a (x ∷ xs) y ys b (n, p, rest) back = (n, p, Seg-join l x xs y ys b rest back)

pub Distinct-snoc : (xs : List Ptr) (new : Ptr) → new ∉ xs → Distinct xs → Distinct (xs ++ new ∷ [])
Distinct-snoc [] new out d = (refl, tt)
Distinct-snoc (x ∷ xs) new out (o, d) =
    (ground (arith, has-append x xs (new ∷ [])), Distinct-snoc xs new (ground arith) d)

-- In a list with distinct nodes the node in the middle is in neither part.
pub Distinct-middle :
    (xs : List Ptr) (y : Ptr) (ys : List Ptr)
    → Distinct (xs ++ y ∷ ys)
    → (y ∉ xs) × (y ∉ ys) × Distinct (xs ++ ys) × (y ∉ (xs ++ ys)) × Distinct xs × Distinct ys
Distinct-middle [] y ys (o, d) = (refl, o, d, o, tt, d)
Distinct-middle (x ∷ xs) y ys (o, d) =
    let (a, b, c, e, f, g) = Distinct-middle xs y ys d in
    (
      ground (arith, has-append x xs (y ∷ ys)),
      b,
      (ground (arith, has-append x xs (y ∷ ys), has-append x xs ys), c),
      ground (arith, has-append x xs (y ∷ ys)),
      (ground (arith, has-append x xs (y ∷ ys)), f),
      g,
    )

pub Distinct-apart :
    (xs : List Ptr) (y : Ptr) (ys : List Ptr) (z : Ptr) → Distinct (xs ++ y ∷ ys) → z ∈ xs → z ∉ ys
Distinct-apart (x ∷ xs) y ys z (o, d) i = elim (Bool-cases (z == x)) [
  | inl e ↦ ground (arith, has-append x xs (y ∷ ys))
  | inr e ↦ Distinct-apart xs y ys z d (ground arith)
]
Distinct-apart [] y ys z d i = absurd (ground arith)
