-- ===== src/Places/Park.antt =====
-- The running process goes to the end of a queue, by `update_process_state_rr`.
use zeos_soa.Prelude.{
  ◌≡◌, refl, ◌≢◌, true, false, ◌||◌, ◌==◌, ◌∈◌, ◌⊎◌, inl, inr, arith, Bool-cases, ◌∙◌, sym, subst,
  ap,
}
use zeos_soa.Lists.{Ptr, null, list_add_tail}
use zeos_soa.Kernel.{Kernel, list_of}
use zeos_soa.Sched.{update_process_state_rr}
use zeos_soa.Sched.Switch.{unlink-detached, IsDetached}
use zeos_soa.Places.{Place, Map, node_of, head_of, Known}
use zeos_soa.Places.Held.{Held, Free, list_add_tail-Held, list_add_tail-keeps_Free}
use zeos_soa.Places.World.{Census, World, join}
use zeos_soa.Places.Stands.{Counts, Families, Parked, Stands, in_queue}

-- Adding a task that is in no list is `list_add_tail`.
pub update_process_state_rr-detached :
    (k : Kernel) (t q : Ptr)
    → IsDetached k.links (list_of t)
    → q ≢ null
    → update_process_state_rr k t q ≡ record k { links = list_add_tail k.links (list_of t) q }
unfolding update_process_state_rr
update_process_state_rr-detached k t q d given =
    let e : (q == null) ≡ false = ground (arith, given) in
    rw (e, unlink-detached k.links (list_of t) d) refl

list_of_ne : (a b : Ptr) → a ≢ b → list_of a ≢ list_of b
list_of_ne a b ne e = ne (omega arith)

module _ (c : Census) where
  -- A process that runs, `r`, and the places of all others.
  pub record Runs (k : Kernel) (at : Map) (r : Ptr) : Type 0 where
    pub counts : Counts c k
    pub held : Held k.heads c.processes k.links at
    pub free : Free k.heads c.processes k.links at (list_of r)
    pub idle :
        (c.idle ≡ r)
        ⊎ (c.idle ∈ at Place.ready)
        ⊎ Free k.heads c.processes k.links at (list_of c.idle)
    pub placed : (t : Ptr) → t ∈ c.processes → ((t == c.idle) || (t == r) || in_queue c at t) ≡ true
    pub queued : (t : Ptr) → in_queue c at t ≡ true → t ∈ c.processes
    pub known : r ∈ c.processes

  pub Stands-Runs : (k : Kernel) (w : World) → Stands c k w → Runs k w.at w.running
  Stands-Runs k w s = record {
    counts = s.counts;
    held = s.held;
    free = s.running_free;
    idle = s.idle;
    placed = s.placed;
    queued = s.queued;
    known = rw (← s.running) s.counts.current_known;
  }

  -- `k'` differs from `k` in nothing that the places depend on but the links.
  module _ (k k' : Kernel) (at : Map) (r : Ptr) (x : Place) (runs : Runs k at r)
      (known : Known c.processes x) (node : node_of x r ≡ list_of r) (counts : Counts c k')
      (heads : k'.heads ≡ k.heads)
      (links : k'.links ≡ list_add_tail k.links (list_of r) (head_of k.heads x))
      (joined : (t : Ptr) → in_queue c (join at x r) t ≡ ((t == r) || in_queue c at t))
      (families : Families c (join at x r))
      (idle_ready : c.idle ≡ r → c.idle ∈ join at x r Place.ready)
      (kept : c.idle ∈ at Place.ready → c.idle ∈ join at x r Place.ready) where
    Free-node : Free k.heads c.processes k.links at (node_of x r)
    Free-node = subst (Free k.heads c.processes k.links at) (sym node) runs.free

    links' : k'.links ≡ list_add_tail k.links (node_of x r) (head_of k.heads x)
    links' = links ∙ ap (λ n. list_add_tail k.links n (head_of k.heads x)) (sym node)

    joined_Held : Held k'.heads c.processes k'.links (join at x r)
    unfolding join
    joined_Held =
        rw (links', heads)
          (list_add_tail-Held k.heads c.processes k.links at x r known runs.held Free-node.out)

    joined_idle :
        (c.idle ∈ join at x r Place.ready)
        ⊎ Free k'.heads c.processes k'.links (join at x r) (list_of c.idle)
    unfolding join
    joined_idle = elim (Bool-cases (c.idle == r)) [
      | inl e ↦ inl (idle_ready (ground arith))
      | inr e ↦ elim runs.idle [
        | inl h ↦ inl (idle_ready h)
        | inr (inl i) ↦ inl (kept i)
        | inr (inr f) ↦ inr (
            rw (links', heads)
              (list_add_tail-keeps_Free k.heads c.processes k.links at x r known runs.held
                Free-node.out (list_of c.idle) (rw node (list_of_ne c.idle r (ground arith))) f))
      ]
    ]

    pub park : Parked c k' (join at x r)
    park = record {
      counts = counts;
      held = joined_Held;
      idle = joined_idle;
      placed = λ t i. rw (joined t) (ground (arith, runs.placed t i));
      queued = λ t i. elim (Bool-cases (t == r)) [
        | inl e ↦ let same : t ≡ r = ground arith in rw same runs.known
        | inr e ↦ runs.queued t (ground (arith, i, joined t))
      ];
      families = families;
    }
