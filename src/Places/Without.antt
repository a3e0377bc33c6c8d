-- ===== src/Places/Without.antt =====
-- Lists without one of their elements.
use zeos_soa.Prelude.{
  length, suc, ◌≤◌, ◌≡◌, refl, ◌≢◌, List, [], ◌∷◌, ◌++◌, ◌==◌, ◌∈◌, ◌∉◌, has, inl, inr, arith,
  Bool-cases, ◌∙◌, ap, sym, Distinct,
}
use zeos_soa.Lists.{Ptr}
use zeos_soa.Places.World.{without}

pub without-mem : (t r : Ptr) (xs : List Ptr) → t ∈ without r xs → t ∈ xs
unfolding without
without-mem t r [] i = i
without-mem t r (x ∷ xs) i = elim (Bool-cases (r == x)) [
  | inl e ↦ ground arith
  | inr e ↦ ground (arith, without-mem t r xs)
]

pub without-other : (t r : Ptr) (xs : List Ptr) → t ≢ r → has t (without r xs) ≡ has t xs
unfolding without
without-other t r [] ne = refl
without-other t r (x ∷ xs) ne = ground (arith, without-other t r xs ne)

-- Of distinct elements none is left.
pub without-not_mem : (r : Ptr) (xs : List Ptr) → Distinct xs → r ∉ without r xs
unfolding without
without-not_mem r [] d = refl
without-not_mem r (x ∷ xs) (o, d) = elim (Bool-cases (r == x)) [
  | inl e ↦ ground arith
  | inr e ↦ ground (arith, without-not_mem r xs d)
]

-- An element stands between two parts, which are left without it.
pub split_at :
    (r : Ptr) (xs : List Ptr)
    → r ∈ xs
    → (us : List Ptr) × (vs : List Ptr) × (xs ≡ us ++ r ∷ vs) × (without r xs ≡ us ++ vs)
unfolding without
split_at r [] i = absurd (ground arith)
split_at r (x ∷ xs) i = elim (Bool-cases (r == x)) [
  | inl e ↦ let same : r ≡ x = ground arith in ([], xs, ap (λ y. y ∷ xs) (sym same), ground arith)
  | inr e ↦
      let (us, vs, whole, rest) = split_at r xs (ground arith) in
      (x ∷ us, vs, ap (λ ys. x ∷ ys) whole, ground (arith, rest))
]

without-length : (r : Ptr) (xs : List Ptr) → r ∈ xs → length xs ≡ suc (length (without r xs))
unfolding without
without-length r [] i = absurd (ground arith)
without-length r (x ∷ xs) i = elim (Bool-cases (r == x)) [
  | inl e ↦ ground arith
  | inr e ↦ ground (arith, without-length r xs)
]

-- Distinct elements of a list are at most as many as the list has.
pub length-le :
    (xs ys : List Ptr) → Distinct xs → ((t : Ptr) → t ∈ xs → t ∈ ys) → length xs ≤ length ys
length-le [] ys d sub = omega arith
length-le (x ∷ xs) ys (o, d) sub =
    let rest =
      length-le xs (without x ys) d
        (λ t i. without-other t x ys (λ e. ground (arith, e, i, o)) ∙ sub t (ground (arith, i))) in
    omega (arith, rest, without-length x ys (sub x (ground arith)))
