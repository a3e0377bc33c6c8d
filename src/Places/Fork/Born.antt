-- ===== src/Places/Fork/Born.antt =====
-- The lists once there is a new block: all as before, and two empty lists of children.
use zeos_soa.Prelude.{
  ℕ, ◌+◌, ◌*◌, ◌/◌, ◌%◌, ◌≤◌, ◌<◌, ◌≡◌, refl, ◌≢◌, ◌⊎◌, Bool, true, false, List, [], ◌∷◌, map, has,
  ◌==◌, ◌∈◌, ◌∉◌, arith, Bool-cases, inl, inr, ◌∙◌, ap, sym, subst,
}
use zeos_soa.Lists.{Ptr, Links, init_list_head, list_add_tail, set_next, set_prev}
use zeos_soa.Lists.Rings.{IsRing}
use zeos_soa.Lists.Move.{IsRing-frame}
use zeos_soa.Kernel.{Heads, list_of, task_list_of, children_blocked_of, children_unblocked_of}
use zeos_soa.Calls.Process.{copy_links}
use zeos_soa.Start.Places.{LaidOut}
use zeos_soa.Places.{Place, Map, Known, same_place, put, node_of, head_of, nodes_at}
use zeos_soa.Places.Held.{Held, Free, all_nodes}
use zeos_soa.Places.Fork.Copied.{copied}

-- The links with the lists of children of the new block.
abbrev pub born : Heads → Links → (r p : Ptr) → Links
born h l r p =
    init_list_head (init_list_head (copied h l r p) (children_blocked_of p))
      (children_unblocked_of p)

-- The processes `ps` have blocks of their own behind the kernel, and `f` is the page of another; the list
-- of all processes ends with one of them, or has none.
pub record HasRoom (h : Heads) (l : Links) (ps : List Ptr) (limit f : ℕ) : Type 0 where
  pub laid : LaidOut h limit
  pub above : limit ≤ f * 4096
  pub aligned : (t : Ptr) → t ∈ ps → t % 4096 ≡ 0
  pub behind : (t : Ptr) → t ∈ ps → limit ≤ t
  pub fresh : f * 4096 ∉ ps
  pub ends :
      (l.prev h.list_tasks ≡ h.list_tasks)
      ⊎ ((t : Ptr) × (t ∈ ps) × (l.prev h.list_tasks ≡ task_list_of t))

different : {a b : Bool} → a ≡ b → a ≡ false → b ≡ true → ⊥
different e f g = cc

module _ (h : Heads) (l : Links) (ps : List Ptr) (limit f r : ℕ)
    (room : HasRoom h l ps limit f) where
  abbrev pub p : Ptr
  p = f * 4096

  -- The address of a node that the kernel has already, and is in no list of all processes.
  abbrev Old : Ptr → Type 0
  Old m = ((m + 8 ≤ limit) × (m ≢ h.list_tasks)) ⊎ ((limit ≤ m) × (m % 4096 ≢ 56) × (m / 4096 ≢ f))

  ends_apart : (m : Ptr) → Old m → m ≢ l.prev h.list_tasks
  ends_apart m (inl (low, ne)) e = elim room.ends [
    | inl q ↦ ne (e ∙ q)
    | inr (t, i, q) ↦ let b = room.behind t i in omega (arith, e, q, b, low)
  ]
  ends_apart m (inr (high, ne, other)) e = elim room.ends [
    | inl q ↦ let b = room.laid.tasks_low in omega (arith, e, q, b, high)
    | inr (t, i, q) ↦ let b = room.aligned t i in omega (arith, e, q, b, ne)
  ]

  new_apart : (m : Ptr) → Old m → (o : ℕ) → o < 4096 → m ≢ p + o
  new_apart m (inl (low, ne)) o small e = let b = room.above in omega (arith, e, low, b)
  new_apart m (inr (high, ne, other)) o small e = omega (arith, e, other, small)

  tasks_apart : (m : Ptr) → Old m → m ≢ h.list_tasks
  tasks_apart m (inl (low, ne)) e = ne e
  tasks_apart m (inr (high, ne, other)) e = let b = room.laid.tasks_low in omega (arith, e, high, b)

  -- Old nodes keep their links.
  born-same :
      (m : Ptr) → Old m → ((born h l r p).next m ≡ l.next m) × ((born h l r p).prev m ≡ l.prev m)
  unfolding init_list_head list_add_tail set_next set_prev copy_links
  born-same m old =
      let a = new_apart m old 8 (omega arith) in
      let b = new_apart m old 20 (omega arith) in
      let c = new_apart m old 28 (omega arith) in
      let d = new_apart m old 36 (omega arith) in
      let e = new_apart m old 56 (omega arith) in
      let x = tasks_apart m old in
      let y = ends_apart m old in
      let z = room.laid.tasks_low in let w = room.above in ground (arith, a, b, c, d, e, x, y, z, w)

  born-blocked : ((born h l r p).next (p + 20) ≡ p + 20) × ((born h l r p).prev (p + 20) ≡ p + 20)
  unfolding init_list_head
  born-blocked = ground arith

  born-unblocked : ((born h l r p).next (p + 28) ≡ p + 28) × ((born h l r p).prev (p + 28) ≡ p + 28)
  unfolding init_list_head
  born-unblocked = ground arith

  module _ (at : Map) (held : Held h ps l at)
      (inside : (x : Place) (t : Ptr) → Known ps x → t ∈ at x → t ∈ ps) where
    -- The places of all processes with the new one, which has no children.
    abbrev pub with_none : Map
    with_none = put (put at (Place.blocked_children p) []) (Place.unblocked_children p) []

    task_Old : (t : Ptr) → t ∈ ps → (o : ℕ) → o < 4096 → o ≢ 56 → Old (t + o)
    task_Old t i o small ne =
        let a = room.aligned t i in
        let b = room.behind t i in
        let other : t ≢ p = λ e. ground (arith, i, room.fresh, e) in
        inr (omega arith, omega (arith, a, small, ne), omega (arith, a, other, small))

    map_Old :
        (g : Ptr → Ptr) (ts : List Ptr)
        → ((t : Ptr) → t ∈ ts → Old (g t))
        → (m : Ptr) → m ∈ map g ts
        → Old m
    map_Old g [] old m i = absurd (ground arith)
    map_Old g (t ∷ ts) old m i = elim (Bool-cases (m == g t)) [
      | inl e ↦ let same : m ≡ g t = ground arith in subst Old (sym same) (old t (ground arith))
      | inr e ↦ map_Old g ts (λ u k. old u (ground arith)) m (ground arith)
    ]

    head_Old : (x : Place) → Known ps x → Old (head_of h x)
    unfolding head_of
    head_Old Place.ready k = inl (room.laid.ready_low, λ e. room.laid.tasks_ready (sym e))
    head_Old Place.waiting k = inl (room.laid.blocked_low, λ e. room.laid.tasks_blocked (sym e))
    head_Old Place.readers k = inl (room.laid.readers_low, λ e. room.laid.tasks_readers (sym e))
    head_Old (Place.blocked_children q) k = task_Old q k 20 (omega arith) (ground arith)
    head_Old (Place.unblocked_children q) k = task_Old q k 28 (omega arith) (ground arith)

    node_Old : (x : Place) → (t : Ptr) → t ∈ ps → Old (node_of x t)
    unfolding node_of
    node_Old Place.ready t k = task_Old t k 8 (omega arith) (ground arith)
    node_Old Place.waiting t k = task_Old t k 8 (omega arith) (ground arith)
    node_Old Place.readers t k = task_Old t k 8 (omega arith) (ground arith)
    node_Old (Place.blocked_children q) t k = task_Old t k 36 (omega arith) (ground arith)
    node_Old (Place.unblocked_children q) t k = task_Old t k 36 (omega arith) (ground arith)

    nodes_Old : (x : Place) → Known ps x → (m : Ptr) → m ∈ all_nodes h ps at x → Old m
    nodes_Old x k m i = elim (Bool-cases (m == head_of h x)) [
      | inl e ↦ let same : m ≡ head_of h x = ground arith in subst Old (sym same) (head_Old x k)
      | inr e ↦ map_Old (node_of x) (at x) (λ t j. node_Old x t (inside x t k j)) m (ground arith)
    ]

    -- A place is one that there was, or holds the children of the new process.
    place_cases :
        (x : Place)
        → Known (p ∷ ps) x
        → (Known ps x × (with_none x ≡ at x))
          ⊎ ((with_none x ≡ [])
              × ((x ≡ Place.blocked_children p) ⊎ (x ≡ Place.unblocked_children p)))
    unfolding put same_place head_of
    place_cases Place.ready k = inl (tt, refl)
    place_cases Place.waiting k = inl (tt, refl)
    place_cases Place.readers k = inl (tt, refl)
    place_cases (Place.blocked_children q) k = elim (Bool-cases (q == p)) [
      | inl e ↦ let same : q ≡ p = ground arith in rw same (inr (ground arith, inl refl))
      | inr e ↦ inl (ground arith, ground arith)
    ]
    place_cases (Place.unblocked_children q) k = elim (Bool-cases (q == p)) [
      | inl e ↦ let same : q ≡ p = ground arith in rw same (inr (ground arith, inr refl))
      | inr e ↦ inl (ground arith, ground arith)
    ]

    born-IsRing :
        (x : Place) → Known (p ∷ ps) x → IsRing (born h l r p) (head_of h x) (nodes_at with_none x)
    unfolding head_of
    born-IsRing x k = elim (place_cases x k) [
      | inl (kn, e) ↦ rw e (
          IsRing-frame l (born h l r p) (head_of h x) (nodes_at at x)
            (λ m i. born-same m (nodes_Old x kn m i)) (held.ring x kn))
      | inr (e, inl q) ↦ rw (e, q) (record { seg = born-blocked; distinct = (refl, tt) })
      | inr (e, inr q) ↦ rw (e, q) (record { seg = born-unblocked; distinct = (refl, tt) })
    ]

    -- The nodes of a place are old, or it has its head alone, in the new block.
    nodes_cases :
        (x : Place)
        → Known (p ∷ ps) x
        → (m : Ptr) → m ∈ all_nodes h ps with_none x
        → (Known ps x × (m ∈ all_nodes h ps at x) × Old m)
          ⊎ (((x ≡ Place.blocked_children p) × (m ≡ p + 20))
              ⊎ ((x ≡ Place.unblocked_children p) × (m ≡ p + 28)))
    unfolding head_of
    nodes_cases x k m i = elim (place_cases x k) [
      | inl (kn, e) ↦
          let j : m ∈ all_nodes h ps at x =
            subst (λ ts. m ∈ (head_of h x ∷ map (node_of x) ts)) e i in
          inl (kn, j, nodes_Old x kn m j)
      | inr (e, q) ↦
          let j : m ∈ (head_of h x ∷ []) =
            subst (λ ts. m ∈ (head_of h x ∷ map (node_of x) ts)) e i in
          let same : m ≡ head_of h x = ground arith in
          inr (elim q [
            | inl a ↦ inl (a, same ∙ ap (head_of h) a)
            | inr a ↦ inr (a, same ∙ ap (head_of h) a)
          ])
    ]

    no_share :
        (x y : Place)
        → Known (p ∷ ps) x
        → Known (p ∷ ps) y
        → same_place x y ≡ false
        → (m : Ptr) → m ∈ all_nodes h ps with_none x
        → m ∈ all_nodes h ps with_none y
        → ⊥
    unfolding same_place
    no_share x y kx ky d m i j = go (nodes_cases x kx m i) (nodes_cases y ky m j)
      where
        go :
            (Known ps x × (m ∈ all_nodes h ps at x) × Old m)
              ⊎ (((x ≡ Place.blocked_children p) × (m ≡ p + 20))
                  ⊎ ((x ≡ Place.unblocked_children p) × (m ≡ p + 28)))
            → (Known ps y × (m ∈ all_nodes h ps at y) × Old m)
              ⊎ (((y ≡ Place.blocked_children p) × (m ≡ p + 20))
                  ⊎ ((y ≡ Place.unblocked_children p) × (m ≡ p + 28)))
            → ⊥
        go (inl (a, b, o)) (inl (a', b', o')) = ground (arith, b', held.apart x y a a' d m b)
        go (inl (a, b, o)) (inr (inl (e, q))) = new_apart m o 20 (omega arith) q
        go (inl (a, b, o)) (inr (inr (e, q))) = new_apart m o 28 (omega arith) q
        go (inr (inl (e, q))) (inl (a, b, o)) = new_apart m o 20 (omega arith) q
        go (inr (inr (e, q))) (inl (a, b, o)) = new_apart m o 28 (omega arith) q
        go (inr (inl (e, q))) (inr (inl (e', q'))) =
            different (ap (λ z. same_place z y) e ∙ ap (same_place (Place.blocked_children p)) e') d
              (ground arith)
        go (inr (inr (e, q))) (inr (inr (e', q'))) =
            different (ap (λ z. same_place z y) e ∙ ap (same_place (Place.unblocked_children p)) e')
              d (ground arith)
        go (inr (inl (e, q))) (inr (inr (e', q'))) = omega (arith, q, q')
        go (inr (inr (e, q))) (inr (inl (e', q'))) = omega (arith, q, q')

    pub born-Held : Held h (p ∷ ps) (born h l r p) with_none
    born-Held = record {
      ring = born-IsRing;
      apart = λ x y kx ky d m i. elim (Bool-cases (has m (all_nodes h ps with_none y))) [
        | inl j ↦ absurd (no_share x y kx ky d m i j)
        | inr o ↦ o
      ];
    }

    -- The nodes of the new process are in no list.
    pub born-out :
        (o : ℕ)
        → o < 4096
        → o ≢ 20
        → o ≢ 28
        → (x : Place) → Known (p ∷ ps) x
        → p + o ∉ all_nodes h ps with_none x
    born-out o small a b x k = elim (Bool-cases (has (p + o) (all_nodes h ps with_none x))) [
      | inl i ↦ absurd (go (nodes_cases x k (p + o) i))
      | inr out ↦ out
    ]
      where
        go :
            (Known ps x × (p + o ∈ all_nodes h ps at x) × Old (p + o))
              ⊎ (((x ≡ Place.blocked_children p) × (p + o ≡ p + 20))
                  ⊎ ((x ≡ Place.unblocked_children p) × (p + o ≡ p + 28)))
            → ⊥
        go (inl (u, v, old)) = new_apart (p + o) old o small refl
        go (inr (inl (e, q))) = a (omega (arith, q))
        go (inr (inr (e, q))) = b (omega (arith, q))

    -- A process in no list stays so.
    pub born-keeps_Free :
        (t : Ptr)
        → t ∈ ps
        → Free h ps l at (list_of t)
        → Free h (p ∷ ps) (born h l r p) with_none (list_of t)
    born-keeps_Free t known free =
        let old = task_Old t known 8 (omega arith) (ground arith) in
        let (n, v) = born-same (list_of t) old in
        record {
          out = λ x k. elim (Bool-cases (has (list_of t) (all_nodes h ps with_none x))) [
            | inl i ↦ absurd (go old x (nodes_cases x k (list_of t) i))
            | inr out ↦ out
          ];
          detached = record {
            no_next = n ∙ free.detached.no_next;
            no_prev = v ∙ free.detached.no_prev;
          };
        }
      where
        go :
            Old (list_of t)
            → (x : Place)
            → (Known ps x × (list_of t ∈ all_nodes h ps at x) × Old (list_of t))
              ⊎ (((x ≡ Place.blocked_children p) × (list_of t ≡ p + 20))
                  ⊎ ((x ≡ Place.unblocked_children p) × (list_of t ≡ p + 28)))
            → ⊥
        go old x (inl (u, v, o)) = ground (arith, v, free.out x u)
        go old x (inr (inl (e, q))) = new_apart (list_of t) old 20 (omega arith) q
        go old x (inr (inr (e, q))) = new_apart (list_of t) old 28 (omega arith) q
