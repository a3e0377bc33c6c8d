-- ===== src/Places/Enter.antt =====
-- Entering the next process: a kernel whose processes all stand somewhere gets one that runs.
use zeos_soa.Prelude.{
  ◌≡◌, refl, List, [], ◌∷◌, ◌==◌, ◌∈◌, ◌⊎◌, inl, inr, arith, Bool-cases, ◌∙◌, subst, ap,
}
use zeos_soa.Prelude.Int.{pos}
use zeos_soa.Lists.{Ptr, Links, list_del}
use zeos_soa.Lists.Rings.{IsRing}
use zeos_soa.Kernel.{Kernel, list_of}
use zeos_soa.Sched.{enter_next, sched_next_rr}
use zeos_soa.Sched.Switch.{nodes, pick_next-nil, pick_next-cons, Entered, enter_next-Entered}
use zeos_soa.Places.{Place, Map, same_place, put, node_of, head_of}
use zeos_soa.Places.Held.{list_del-Held, list_del-Free, list_del-keeps_Free}
use zeos_soa.Places.World.{Census, next_of, enter}
use zeos_soa.Places.Stands.{Counts, Parked, Stands, Families-same}

enter_next-parent :
    (k : Kernel) (l : Links) (t p : Ptr)
    → ((enter_next k (l, t)).tasks p).parent ≡ (k.tasks p).parent
unfolding enter_next
enter_next-parent k l t p = ground arith

enter_next-idle_task :
    (k : Kernel) (l : Links) (t : Ptr) → (enter_next k (l, t)).idle_task ≡ k.idle_task
unfolding enter_next
enter_next-idle_task k l t = ground arith

no_member : (t : Ptr) (xs : List Ptr) → xs ≡ [] → t ∈ xs → ⊥
no_member t xs e i = ground (arith, e)

pub List-cases : (xs : List Ptr) → (xs ≡ []) ⊎ ((x : Ptr) × (ys : List Ptr) × (xs ≡ x ∷ ys))
List-cases [] = inl refl
List-cases (x ∷ xs) = inr (x, xs, refl)

module _ (c : Census) where
  module _ (k : Kernel) (l : Links) (t : Ptr) (counts : Counts c k) (known : t ∈ c.processes) where
    entered : Entered k l t (enter_next k (l, t))
    entered = enter_next-Entered k l t (λ h.
        counts.different k.current t counts.current_known known
          (rw (← counts.pids k.current counts.current_known, ← counts.pids t known) h))

    enter_next-Counts : Counts c (enter_next k (l, t))
    enter_next-Counts = record {
      idle = enter_next-idle_task k l t ∙ counts.idle;
      idle_known = counts.idle_known;
      current_known = rw entered.current known;
      parents = λ p i. enter_next-parent k l t p ∙ counts.parents p i;
      pids = λ p i. entered.pid p ∙ counts.pids p i;
      quanta = λ p i. entered.quantum p ∙ counts.quanta p i;
      different = counts.different;
      ready_given = rw entered.heads counts.ready_given;
      waiting_given = rw entered.heads counts.waiting_given;
      readers_given = rw entered.heads counts.readers_given;
    }

  -- With nobody ready the idle process runs.
  enter_idle :
      (k : Kernel) (at : Map)
      → Parked c k at
      → at Place.ready ≡ []
      → Stands c (enter_next k (k.links, k.idle_task)) (next_of c at [])
  unfolding next_of put same_place node_of head_of
  enter_idle k at p none =
      let known : k.idle_task ∈ c.processes = rw p.counts.idle p.counts.idle_known in
      let e = entered k k.links k.idle_task p.counts known in
      record {
        counts = enter_next-Counts k k.links k.idle_task p.counts known;
        running = e.current ∙ p.counts.idle;
        left =
            e.remaining ∙ ap pos (p.counts.quanta k.idle_task known ∙ ap c.quantum p.counts.idle);
        held = rw (e.links, e.heads) p.held;
        running_free =
            rw (e.links, e.heads)
              (elim p.idle [
                | inl i ↦ absurd (no_member c.idle (at Place.ready) none i)
                | inr f ↦ f
              ]);
        idle = inl refl;
        placed = λ t i. ground (arith, p.placed t i);
        queued = p.queued;
        families = p.families;
      }

  enter_first :
      (k : Kernel) (at : Map) (t : Ptr) (ts : List Ptr)
      → Parked c k at
      → at Place.ready ≡ t ∷ ts
      → Stands c (enter_next k (list_del k.links (list_of t), t)) (next_of c at (t ∷ ts))
  unfolding next_of put same_place node_of head_of
  enter_first k at t ts p some_ready =
      let known : t ∈ c.processes = p.queued t (rw some_ready (ground arith)) in
      let l = list_del k.links (list_of t) in
      let e = entered k l t p.counts known in
      let at' = put at Place.ready ts in
      record {
        counts = enter_next-Counts k l t p.counts known;
        running = e.current;
        left = e.remaining ∙ ap pos (p.counts.quanta t known);
        held =
            rw (e.links, e.heads)
              (list_del-Held k.heads c.processes k.links at Place.ready t [] ts some_ready tt
                p.held);
        running_free =
            rw (e.links, e.heads)
              (list_del-Free k.heads c.processes k.links at Place.ready t [] ts some_ready tt
                p.held);
        idle = elim p.idle [
          | inl i ↦ elim (Bool-cases (c.idle == t)) [
            | inl h ↦ inl (ground arith)
            | inr h ↦ inr (inl (ground (arith, some_ready)))
          ]
          | inr f ↦ inr (
              inr (
                rw (e.links, e.heads)
                  (list_del-keeps_Free k.heads c.processes k.links at Place.ready t [] ts some_ready
                    tt p.held (list_of c.idle) f)))
        ];
        placed = λ u i. ground (arith, p.placed u i, some_ready);
        queued = λ u i. p.queued u (rw some_ready (ground (arith, i)));
        families = Families-same c at at' refl (λ q. refl) (λ q. refl) p.families;
      }

  pub sched_next_rr-Stands :
      (k : Kernel) (at : Map) → Parked c k at → Stands c (sched_next_rr k) (enter c at)
  unfolding sched_next_rr enter node_of head_of
  sched_next_rr-Stands k at p = elim (List-cases (at Place.ready)) [
    | inl none ↦
        rw
          (
            none,
            pick_next-nil k (
                subst (λ ts. IsRing k.links k.heads.readyqueue (nodes ts)) none
                  (p.held.ring Place.ready tt)),
          )
          (enter_idle k at p none)
    | inr (t, ts, e) ↦
        rw
          (
            e,
            pick_next-cons k t ts (
                subst (λ ts. IsRing k.links k.heads.readyqueue (nodes ts)) e
                  (p.held.ring Place.ready tt)),
          )
          (enter_first k at t ts p e)
  ]
