-- ===== src/Places/Families.antt =====
-- The agreement between the queue of the blocked and the lists of children, as processes block and are
-- released.
use zeos_soa.Prelude.{
  ◌≡◌, refl, ◌≢◌, true, false, ◌||◌, List, [], ◌∷◌, ◌++◌, ◌==◌, ◌∈◌, has, has-append, inl, inr,
  arith, Bool-cases, ◌∙◌, sym, ap, Distinct,
}
use zeos_soa.Lists.{Ptr, null}
use zeos_soa.Places.{Place, Map, same_place, put}
use zeos_soa.Places.World.{Census, join, leave, without, filed}
use zeos_soa.Places.Without.{without-mem, without-other, without-not_mem}
use zeos_soa.Places.Stands.{Families}

module _ (c : Census) where
  -- The families once the process `r` is filed, and is blocked.
  module _ (at : Map) (r : Ptr) (f : Families c at) (known : r ∈ c.processes) where
    pub orphan-filed : c.parent r ≡ null → filed c at r ≡ at
    unfolding filed
    orphan-filed none = ground (arith, none)

    pub child-filed :
        c.parent r ≢ null
        → filed c at r
          ≡ join
              (leave at (Place.unblocked_children (c.parent r)) r)
              (Place.blocked_children (c.parent r))
              r
    unfolding filed
    child-filed some_parent =
        let e : (c.parent r == null) ≡ false = ground (arith, some_parent) in rw e refl

    waits_or_new :
        (t : Ptr) → has t (at Place.waiting ++ r ∷ []) ≡ (has t (at Place.waiting) || (t == r))
    waits_or_new t = ground (arith, has-append t (at Place.waiting) (r ∷ []))

    pub orphan-Families : c.parent r ≡ null → Families c (join at Place.waiting r)
    unfolding join put same_place
    orphan-Families none = record {
      blocked_are = λ p t i k.
          let (known, w, e) = f.blocked_are p t i k in
          (known, ground (arith, w, waits_or_new t), e);
      unblocked_are = λ p t i k. f.unblocked_are p t i k;
      parent_known = f.parent_known;
      blocked_there = λ t k h i. elim (Bool-cases (t == r)) [
        | inl e ↦ let same : t ≡ r = ground arith in absurd (h (ap c.parent same ∙ none))
        | inr e ↦ f.blocked_there t k h (ground (arith, i, waits_or_new t))
      ];
      unblocked_there = λ t k h o. f.unblocked_there t k h (ground (arith, o, waits_or_new t));
    }

    abbrev pub as_child : Map
    as_child =
        join
          (join (leave at (Place.unblocked_children (c.parent r)) r)
            (Place.blocked_children (c.parent r)) r)
          Place.waiting r

    pub child-Families : c.parent r ≢ null → Families c as_child
    unfolding join leave put same_place
    child-Families some_parent = record {
      blocked_are = λ p t i k. elim (Bool-cases (t == r)) [
        | inl e ↦
            let same : t ≡ r = ground arith in
            elim (Bool-cases (c.parent r == p)) [
              | inl h ↦ (
                rw same known,
                ground (arith, e, waits_or_new t),
                ap c.parent same ∙ ground arith,
              )
              | inr h ↦
                  let (m, w, q) = f.blocked_are p t (rw h at i) k in
                  (m, ground (arith, w, waits_or_new t), q)
            ]
        | inr e ↦
            let old : t ∈ at (Place.blocked_children p) = elim (Bool-cases (c.parent r == p)) [
              | inl h ↦
                  let same : c.parent r ≡ p = ground arith in
                  ground (
                    arith,
                    i,
                    has-append t (at (Place.blocked_children (c.parent r))) (r ∷ []),
                    ap (λ q. at (Place.blocked_children q)) same,
                  )
              | inr h ↦ rw h at i
            ] in
            let (m, w, q) = f.blocked_are p t old k in (m, ground (arith, w, waits_or_new t), q)
      ];
      unblocked_are = λ p t i k. elim (Bool-cases (c.parent r == p)) [
        | inl h ↦
            let same : c.parent r ≡ p = ground arith in
            let old : t ∈ at (Place.unblocked_children (c.parent r)) =
              without-mem t r (at (Place.unblocked_children (c.parent r))) (rw h at i) in
            f.unblocked_are p t (rw (← same) old) k
        | inr h ↦ f.unblocked_are p t (rw h at i) k
      ];
      parent_known = f.parent_known;
      blocked_there = λ t k h i. elim (Bool-cases (t == r)) [
        | inl e ↦
            let same : t ≡ r = ground arith in
            rw same
              (ground (arith, has-append r (at (Place.blocked_children (c.parent r))) (r ∷ [])))
        | inr e ↦
            let old = f.blocked_there t k h (ground (arith, i, waits_or_new t)) in
            elim (Bool-cases (c.parent r == c.parent t)) [
              | inl q ↦
                  let same : c.parent r ≡ c.parent t = ground arith in
                  rw (q, same)
                    (ground (
                      arith,
                      old,
                      has-append t (at (Place.blocked_children (c.parent t))) (r ∷ []),
                    ))
              | inr q ↦ rw q old
            ]
      ];
      unblocked_there = λ t k h o.
          let ne : t ≢ r = ground (arith, o, waits_or_new t) in
          let old = f.unblocked_there t k h (ground (arith, o, waits_or_new t)) in
          elim (Bool-cases (c.parent r == c.parent t)) [
            | inl q ↦
                let same : c.parent r ≡ c.parent t = ground arith in
                rw (q, same)
                  (without-other t r (at (Place.unblocked_children (c.parent t))) ne ∙ old)
            | inr q ↦ rw q old
          ];
    }

  -- The families once the child `t` of `r`, which is blocked, is released.
  module _ (at : Map) (r t : Ptr) (f : Families c at) (known : r ∈ c.processes)
      (child : t ∈ at (Place.blocked_children r)) (once : Distinct (at Place.waiting))
      (once_child : Distinct (at (Place.blocked_children r))) where
    abbrev pub released : Map
    released =
        let at = join (leave at (Place.blocked_children r) t) (Place.unblocked_children r) t in
        join (leave at Place.waiting t) Place.ready t

    is_child : c.parent t ≡ r
    is_child = (f.blocked_are r t child known).2

    t_known : t ∈ c.processes
    t_known = (f.blocked_are r t child known).0

    left_out : (u : Ptr) (xs : List Ptr) → Distinct xs → u ∈ without t xs → u ≢ t
    left_out u xs d i e = ground (arith, i, e, without-not_mem t xs d)

    pub released-Families : Families c released
    unfolding join leave put same_place
    released-Families = record {
      blocked_are = λ q u i k. elim (Bool-cases (r == q)) [
        | inl e ↦
            let same : r ≡ q = ground arith in
            let j : u ∈ without t (at (Place.blocked_children r)) = rw e at i in
            let ne = left_out u (at (Place.blocked_children r)) once_child j in
            let old : u ∈ at (Place.blocked_children r) =
              without-mem u t (at (Place.blocked_children r)) j in
            let (m, w, p) = f.blocked_are q u (rw (← same) old) k in
            (m, without-other u t (at Place.waiting) ne ∙ w, p)
        | inr e ↦
            let (m, w, p) = f.blocked_are q u (rw e at i) k in
            let ne : u ≢ t = ground (arith, p, is_child, e) in
            (m, without-other u t (at Place.waiting) ne ∙ w, p)
      ];
      unblocked_are = λ q u i k. elim (Bool-cases (r == q)) [
        | inl e ↦
            let same : r ≡ q = ground arith in
            elim (Bool-cases (u == t)) [
              | inl h ↦
                  let eq : u ≡ t = ground arith in (rw eq t_known, ap c.parent eq ∙ is_child ∙ same)
              | inr h ↦
                  let j : u ∈ (at (Place.unblocked_children r) ++ t ∷ []) = rw e at i in
                  let old : u ∈ at (Place.unblocked_children r) =
                    ground (arith, j, has-append u (at (Place.unblocked_children r)) (t ∷ [])) in
                  f.unblocked_are q u (rw (← same) old) k
            ]
        | inr e ↦ f.unblocked_are q u (rw e at i) k
      ];
      parent_known = f.parent_known;
      blocked_there = λ u k h i.
          let ne = left_out u (at Place.waiting) once i in
          let old = f.blocked_there u k h (without-mem u t (at Place.waiting) i) in
          elim (Bool-cases (r == c.parent u)) [
            | inl e ↦
                let same : r ≡ c.parent u = ground arith in
                rw (e, same) (without-other u t (at (Place.blocked_children (c.parent u))) ne ∙ old)
            | inr e ↦ rw e old
          ];
      unblocked_there = λ u k h o. elim (Bool-cases (u == t)) [
        | inl e ↦
            let eq : u ≡ t = ground arith in
            let e' : (r == c.parent t) ≡ true = ground (arith, is_child) in
            rw (eq, e') (ground (arith, has-append t (at (Place.unblocked_children r)) (t ∷ [])))
        | inr e ↦
            let ne : u ≢ t = ground arith in
            let old = f.unblocked_there u k h (sym (without-other u t (at Place.waiting) ne) ∙ o) in
            elim (Bool-cases (r == c.parent u)) [
              | inl h' ↦
                  let same : r ≡ c.parent u = ground arith in
                  rw (h', same)
                    (ground (
                      arith,
                      old,
                      has-append u (at (Place.unblocked_children (c.parent u))) (t ∷ []),
                    ))
              | inr h' ↦ rw h' old
            ]
      ];
    }
