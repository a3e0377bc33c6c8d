-- ===== src/Places/Once.antt =====
-- Each process is in one place, and its parent knows whether it is blocked.
use zeos_soa.Prelude.{
  ℕ, ◌+◌, ◌≤◌, ◌≡◌, refl, ◌≢◌, false, ◌||◌, List, [], ◌∷◌, ◌==◌, ◌∈◌, ◌∉◌, has, inl, inr, arith,
  Bool-cases, sym, subst, if◌then◌else◌, Distinct,
}
use zeos_soa.Lists.{Ptr, null}
use zeos_soa.Lists.Rings.{IsRing}
use zeos_soa.Kernel.{Kernel, list_of, children_blocked_of, children_unblocked_of}
use zeos_soa.Sched.Switch.{nodes}
use zeos_soa.Calls.Block.Search.{siblings}
use zeos_soa.Places.{Place, Known, same_place, node_of, head_of}
use zeos_soa.Places.Held.{Free, Free-not_in, at-Distinct, map-mem, all_nodes, nodes_has}
use zeos_soa.Places.World.{Census, World}
use zeos_soa.Places.Stands.{Stands, in_queue}

-- How often a list holds an element.
unfoldable pub occurrences : Ptr → List Ptr → ℕ
occurrences t [] = 0
occurrences t (x ∷ xs) = let rest = occurrences t xs in if t == x then rest + 1 else rest

-- What the lists of a kernel say of its processes: which are ready, which are blocked and which wait for
-- characters, and which children of a process are blocked.
pub record OnePlace (c : Census) (k : Kernel) : Type 0 where
  pub ready : List Ptr
  pub waiting : List Ptr
  pub readers : List Ptr
  pub blocked : Ptr → List Ptr
  pub unblocked : Ptr → List Ptr
  pub ready_ring : IsRing k.links k.heads.readyqueue (nodes ready)
  pub waiting_ring : IsRing k.links k.heads.blocked (nodes waiting)
  pub readers_ring : IsRing k.links k.heads.kbd_blocked (nodes readers)
  pub blocked_ring :
      (p : Ptr) → p ∈ c.processes → IsRing k.links (children_blocked_of p) (siblings (blocked p))
  pub unblocked_ring :
      (p : Ptr)
      → p ∈ c.processes
      → IsRing k.links (children_unblocked_of p) (siblings (unblocked p))
  pub once :
      (t : Ptr)
      → t ∈ c.processes
      → t ≢ c.idle
      → occurrences t (k.current ∷ [])
          + occurrences t ready
          + occurrences t waiting
          + occurrences t readers
        ≡ 1
  pub idle_once :
      occurrences c.idle (k.current ∷ [])
        + occurrences c.idle ready
        + occurrences c.idle waiting
        + occurrences c.idle readers
      ≤ 1
  pub parent_of :
      (t : Ptr)
      → t ∈ c.processes
      → c.parent t ≢ null
      → (t ∈ waiting → t ∈ blocked (c.parent t)) × (t ∉ waiting → t ∈ unblocked (c.parent t))
  pub child_of : (p t : Ptr) → p ∈ c.processes → t ∈ blocked p → (t ∈ waiting) × (c.parent t ≡ p)

occurrences-Distinct :
    (t : Ptr) (xs : List Ptr) → Distinct xs → occurrences t xs ≡ (if has t xs then 1 else 0)
unfolding occurrences
occurrences-Distinct t [] d = refl
occurrences-Distinct t (x ∷ xs) (o, d) = elim (Bool-cases (t == x)) [
  | inl e ↦
      let same : t ≡ x = ground arith in
      let out : t ∉ xs = rw same o in ground (arith, occurrences-Distinct t xs d, out)
  | inr e ↦ ground (arith, occurrences-Distinct t xs d)
]

module _ (c : Census) (k : Kernel) (w : World) (s : Stands c k w) where
  -- A process is not in two queues, and one that runs is in none.
  apart :
      (x y : Place) (t : Ptr)
      → Known c.processes x
      → Known c.processes y
      → same_place x y ≡ false
      → node_of x t ≡ node_of y t
      → t ∈ w.at x
      → t ∉ w.at y
  apart x y t kx ky d e i = elim (Bool-cases (has t (w.at y))) [
    | inl j ↦
        let here : node_of x t ∈ all_nodes k.heads c.processes w.at x =
          ground (arith, map-mem (node_of x) t (w.at x) i) in
        absurd (
          nodes_has k.heads c.processes w.at y t j (node_of x t)
            (s.held.apart x y kx ky d (node_of x t) here) e)
    | inr o ↦ o
  ]

  out :
      (x : Place)
      → Known c.processes x
      → node_of x w.running ≡ list_of w.running
      → w.running ∉ w.at x
  out x known e =
      Free-not_in k.heads c.processes k.links w.at x w.running known
        (subst (Free k.heads c.processes k.links w.at) (sym e) s.running_free)

  count :
      (t : Ptr) (x : Place)
      → Known c.processes x
      → occurrences t (w.at x) ≡ (if has t (w.at x) then 1 else 0)
  count t x known =
      occurrences-Distinct t (w.at x) (at-Distinct k.heads c.processes k.links w.at x known s.held)

  once_at_most :
      (t : Ptr)
      → (occurrences t (w.running ∷ [])
          + occurrences t (w.at Place.ready)
          + occurrences t (w.at Place.waiting)
          + occurrences t (w.at Place.readers))
        ≡ (if ((t == w.running) || in_queue c w.at t) then 1 else 0)
  unfolding occurrences node_of same_place
  once_at_most t =
      let a = count t Place.ready tt in
      let b = count t Place.waiting tt in
      let d = count t Place.readers tt in
      elim (Bool-cases (t == w.running)) [
        | inl e ↦
            let same : t ≡ w.running = ground arith in
            let x : t ∉ w.at Place.ready = rw same (out Place.ready tt refl) in
            let y : t ∉ w.at Place.waiting = rw same (out Place.waiting tt refl) in
            let z : t ∉ w.at Place.readers = rw same (out Place.readers tt refl) in
            ground (arith, a, b, d, x, y, z, e)
        | inr e ↦ ground (
          arith,
          a,
          b,
          d,
          e,
          apart Place.ready Place.waiting t tt tt refl refl,
          apart Place.ready Place.readers t tt tt refl refl,
          apart Place.waiting Place.readers t tt tt refl refl,
        )
      ]

  pub Stands-OnePlace : OnePlace c k
  unfolding node_of head_of occurrences
  Stands-OnePlace = record {
    ready = w.at Place.ready;
    waiting = w.at Place.waiting;
    readers = w.at Place.readers;
    blocked = λ p. w.at (Place.blocked_children p);
    unblocked = λ p. w.at (Place.unblocked_children p);
    ready_ring = s.held.ring Place.ready tt;
    waiting_ring = s.held.ring Place.waiting tt;
    readers_ring = s.held.ring Place.readers tt;
    blocked_ring = λ p known. s.held.ring (Place.blocked_children p) known;
    unblocked_ring = λ p known. s.held.ring (Place.unblocked_children p) known;
    once = λ t known ne. ground (arith, once_at_most t, s.placed t known, s.running);
    idle_once = ground (arith, once_at_most c.idle, s.running);
    parent_of = λ t known some_parent. (
      s.families.blocked_there t known some_parent,
      s.families.unblocked_there t known some_parent,
    );
    child_of = λ p t known i. let (m, v, e) = s.families.blocked_are p t i known in (v, e);
  }
