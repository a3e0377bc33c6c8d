-- ===== src/Start/Places.antt =====
-- The places of the first two processes: after the start nobody waits, and nobody has children.
use zeos_soa.Prelude.{
  ℕ, ◌+◌, ◌*◌, ◌≤◌, ◌≡◌, refl, ◌≢◌, false, [], ◌∷◌, ◌==◌, ◌∈◌, ◌∉◌, ◌⊎◌, arith, Bool-cases, inl,
  inr,
}
use zeos_soa.Prelude.{if◌then◌else◌}
use zeos_soa.Prelude.Int.{pos}
use zeos_soa.Lists.{Ptr, null, Links, init_list_head, list_add_tail, set_next, set_prev}
use zeos_soa.Lists.Rings.{IsRing}
use zeos_soa.Kernel.{
  Heads, list_of, sibling_of, task_list_of, children_blocked_of, children_unblocked_of,
}
use zeos_soa.Boot.{init_children}
use zeos_soa.Sched.Switch.{IsDetached}
use zeos_soa.Places.{Place, Map, Known, head_of, same_place}
use zeos_soa.Places.Held.{Held, Free}
use zeos_soa.Places.World.{Census}

-- The links of `alloc_pcb`, and those that the start leaves with the blocks `a` of the idle process and `b`
-- of the initial one.
abbrev pub enlisted : Heads → Links → Ptr → Links
enlisted h l p =
    let l = init_list_head l (task_list_of p) in
    let l = set_prev (set_next l (list_of p) null) (list_of p) null in
    list_add_tail l (task_list_of p) h.list_tasks

abbrev pub sched_links : Heads → Links → Links
sched_links h l =
    let l = init_list_head l h.list_tasks in
    let l = init_list_head l h.readyqueue in
    let l = init_list_head l h.blocked in init_list_head l h.kbd_blocked

abbrev pub start_links : Heads → Links → (a b : Ptr) → Links
start_links h l a b =
    let l = init_children (enlisted h (sched_links h l) a) a in
    init_list_head (init_children (enlisted h l b) b) (sibling_of b)

-- Where the linker puts the heads: below the pages of the blocks, and apart.
pub record LaidOut (h : Heads) (limit : ℕ) : Type 0 where
  pub tasks_low : h.list_tasks + 8 ≤ limit
  pub ready_low : h.readyqueue + 8 ≤ limit
  pub blocked_low : h.blocked + 8 ≤ limit
  pub readers_low : h.kbd_blocked + 8 ≤ limit
  pub ready_given : h.readyqueue ≢ null
  pub blocked_given : h.blocked ≢ null
  pub readers_given : h.kbd_blocked ≢ null
  pub tasks_ready : h.list_tasks ≢ h.readyqueue
  pub tasks_blocked : h.list_tasks ≢ h.blocked
  pub tasks_readers : h.list_tasks ≢ h.kbd_blocked
  pub ready_blocked : h.readyqueue ≢ h.blocked
  pub ready_readers : h.readyqueue ≢ h.kbd_blocked
  pub blocked_readers : h.blocked ≢ h.kbd_blocked

-- A list without nodes.
abbrev Empty : Links → Ptr → Type 0
Empty l q = (l.next q ≡ q) × (l.prev q ≡ q)

module _ (h : Heads) (l : Links) (i j : ℕ) (laid : LaidOut h (i * 4096))
    (laid' : LaidOut h (j * 4096)) (ne : i ≢ j) where
  abbrev pub a : Ptr
  a = i * 4096

  abbrev pub b : Ptr
  b = j * 4096

  abbrev pub m : Links
  m = start_links h l a b

  ready-Empty : Empty m h.readyqueue
  unfolding init_list_head init_children list_add_tail set_next set_prev
  ready-Empty = ground arith

  blocked-Empty : Empty m h.blocked
  unfolding init_list_head init_children list_add_tail set_next set_prev
  blocked-Empty = ground arith

  readers-Empty : Empty m h.kbd_blocked
  unfolding init_list_head init_children list_add_tail set_next set_prev
  readers-Empty = ground arith

  idle_blocked-Empty : Empty m (children_blocked_of a)
  unfolding init_list_head init_children list_add_tail set_next set_prev
  idle_blocked-Empty = ground arith

  idle_unblocked-Empty : Empty m (children_unblocked_of a)
  unfolding init_list_head init_children list_add_tail set_next set_prev
  idle_unblocked-Empty = ground arith

  init_blocked-Empty : Empty m (children_blocked_of b)
  unfolding init_list_head init_children list_add_tail set_next set_prev
  init_blocked-Empty = ground arith

  init_unblocked-Empty : Empty m (children_unblocked_of b)
  unfolding init_list_head init_children list_add_tail set_next set_prev
  init_unblocked-Empty = ground arith

  idle-IsDetached : IsDetached m (list_of a)
  unfolding init_list_head init_children list_add_tail set_next set_prev
  idle-IsDetached = record { no_next = ground arith; no_prev = ground arith }

  init-IsDetached : IsDetached m (list_of b)
  unfolding init_list_head init_children list_add_tail set_next set_prev
  init-IsDetached = record { no_next = ground arith; no_prev = ground arith }

  abbrev pub nobody : Map
  nobody x = []

  one_of : (p : Ptr) → p ∈ (a ∷ b ∷ []) → (p ≡ a) ⊎ (p ≡ b)
  one_of p k = elim (Bool-cases (p == a)) [
    | inl e ↦ inl (ground arith)
    | inr e ↦ inr (ground arith)
  ]

  Empty-IsRing : (q : Ptr) → Empty m q → IsRing m q []
  Empty-IsRing q e = record { seg = e; distinct = (refl, tt) }

  rings : (x : Place) → Known (a ∷ b ∷ []) x → Empty m (head_of h x)
  unfolding head_of
  rings Place.ready k = ready-Empty
  rings Place.waiting k = blocked-Empty
  rings Place.readers k = readers-Empty
  rings (Place.blocked_children p) k = elim (one_of p k) [
    | inl e ↦ rw e idle_blocked-Empty
    | inr e ↦ rw e init_blocked-Empty
  ]
  rings (Place.unblocked_children p) k = elim (one_of p k) [
    | inl e ↦ rw e idle_unblocked-Empty
    | inr e ↦ rw e init_unblocked-Empty
  ]

  -- A head is low, or at a multiple of a page and 20 or 28.
  heads_differ :
      (x y : Place)
      → Known (a ∷ b ∷ []) x
      → Known (a ∷ b ∷ []) y
      → same_place x y ≡ false
      → head_of h x ≢ head_of h y
  unfolding head_of same_place
  heads_differ Place.ready Place.ready kx ky d e = ground arith
  heads_differ Place.ready Place.waiting kx ky d e = ground arith
  heads_differ Place.ready Place.readers kx ky d e = ground arith
  heads_differ Place.ready (Place.blocked_children q) kx ky d e = elim (one_of q ky) [
    | inl g ↦ omega arith
    | inr g ↦ omega arith
  ]
  heads_differ Place.ready (Place.unblocked_children q) kx ky d e = elim (one_of q ky) [
    | inl g ↦ omega arith
    | inr g ↦ omega arith
  ]
  heads_differ Place.waiting Place.ready kx ky d e = ground arith
  heads_differ Place.waiting Place.waiting kx ky d e = ground arith
  heads_differ Place.waiting Place.readers kx ky d e = ground arith
  heads_differ Place.waiting (Place.blocked_children q) kx ky d e = elim (one_of q ky) [
    | inl g ↦ omega arith
    | inr g ↦ omega arith
  ]
  heads_differ Place.waiting (Place.unblocked_children q) kx ky d e = elim (one_of q ky) [
    | inl g ↦ omega arith
    | inr g ↦ omega arith
  ]
  heads_differ Place.readers Place.ready kx ky d e = ground arith
  heads_differ Place.readers Place.waiting kx ky d e = ground arith
  heads_differ Place.readers Place.readers kx ky d e = ground arith
  heads_differ Place.readers (Place.blocked_children q) kx ky d e = elim (one_of q ky) [
    | inl g ↦ omega arith
    | inr g ↦ omega arith
  ]
  heads_differ Place.readers (Place.unblocked_children q) kx ky d e = elim (one_of q ky) [
    | inl g ↦ omega arith
    | inr g ↦ omega arith
  ]
  heads_differ (Place.blocked_children p) Place.ready kx ky d e = elim (one_of p kx) [
    | inl f ↦ omega arith
    | inr f ↦ omega arith
  ]
  heads_differ (Place.blocked_children p) Place.waiting kx ky d e = elim (one_of p kx) [
    | inl f ↦ omega arith
    | inr f ↦ omega arith
  ]
  heads_differ (Place.blocked_children p) Place.readers kx ky d e = elim (one_of p kx) [
    | inl f ↦ omega arith
    | inr f ↦ omega arith
  ]
  heads_differ (Place.blocked_children p) (Place.blocked_children q) kx ky d e =
      elim (one_of p kx) [
        | inl f ↦ elim (one_of q ky) [ inl g ↦ ground arith | inr g ↦ ground arith ]
        | inr f ↦ elim (one_of q ky) [ inl g ↦ ground arith | inr g ↦ ground arith ]
      ]
  heads_differ (Place.blocked_children p) (Place.unblocked_children q) kx ky d e =
      elim (one_of p kx) [
        | inl f ↦ elim (one_of q ky) [ inl g ↦ ground arith | inr g ↦ ground arith ]
        | inr f ↦ elim (one_of q ky) [ inl g ↦ ground arith | inr g ↦ ground arith ]
      ]
  heads_differ (Place.unblocked_children p) Place.ready kx ky d e = elim (one_of p kx) [
    | inl f ↦ omega arith
    | inr f ↦ omega arith
  ]
  heads_differ (Place.unblocked_children p) Place.waiting kx ky d e = elim (one_of p kx) [
    | inl f ↦ omega arith
    | inr f ↦ omega arith
  ]
  heads_differ (Place.unblocked_children p) Place.readers kx ky d e = elim (one_of p kx) [
    | inl f ↦ omega arith
    | inr f ↦ omega arith
  ]
  heads_differ (Place.unblocked_children p) (Place.blocked_children q) kx ky d e =
      elim (one_of p kx) [
        | inl f ↦ elim (one_of q ky) [ inl g ↦ ground arith | inr g ↦ ground arith ]
        | inr f ↦ elim (one_of q ky) [ inl g ↦ ground arith | inr g ↦ ground arith ]
      ]
  heads_differ (Place.unblocked_children p) (Place.unblocked_children q) kx ky d e =
      elim (one_of p kx) [
        | inl f ↦ elim (one_of q ky) [ inl g ↦ ground arith | inr g ↦ ground arith ]
        | inr f ↦ elim (one_of q ky) [ inl g ↦ ground arith | inr g ↦ ground arith ]
      ]

  pub start-Held : Held h (a ∷ b ∷ []) m nobody
  start-Held = record {
    ring = λ x k. Empty-IsRing (head_of h x) (rings x k);
    apart = λ x y kx ky d p i. single p (head_of h x) (head_of h y) (heads_differ x y kx ky d) i;
  }
    where
      single : (p q r : Ptr) → q ≢ r → p ∈ (q ∷ []) → p ∉ (r ∷ [])
      single p q r ne i = ground arith

  node_out :
      (x : Place)
      → Known (a ∷ b ∷ []) x
      → (list_of a ∉ (head_of h x ∷ [])) × (list_of b ∉ (head_of h x ∷ []))
  unfolding head_of
  node_out Place.ready k = (ground arith, ground arith)
  node_out Place.waiting k = (ground arith, ground arith)
  node_out Place.readers k = (ground arith, ground arith)
  node_out (Place.blocked_children p) k = elim (one_of p k) [
    | inl e ↦ (ground arith, ground arith)
    | inr e ↦ (ground arith, ground arith)
  ]
  node_out (Place.unblocked_children p) k = elim (one_of p k) [
    | inl e ↦ (ground arith, ground arith)
    | inr e ↦ (ground arith, ground arith)
  ]

  pub idle-Free : Free h (a ∷ b ∷ []) m nobody (list_of a)
  idle-Free = record { out = λ x k. (node_out x k).0; detached = idle-IsDetached }

  pub init-Free : Free h (a ∷ b ∷ []) m nobody (list_of b)
  init-Free = record { out = λ x k. (node_out x k).1; detached = init-IsDetached }

-- The census of the first two processes, with the blocks `a` and `b`.
abbrev pub first_two : (a b : Ptr) → Census
first_two a b = record {
  processes = a ∷ b ∷ [];
  idle = a;
  parent = λ t. null;
  pid = λ t. if t == a then pos 0 else pos 1;
  quantum = λ t. 10;
}
