-- ===== src/Places/Blocks.antt =====
-- `sys_block`: the process goes to the blocked ones, also among the children of its parent.
use zeos_soa.Prelude.{
  ◌≡◌, refl, ◌≢◌, true, false, [], ◌∷◌, ◌==◌, ◌∈◌, ◌∉◌, has-append, ◌⊎◌, inl, inr, arith,
  Bool-cases, ◌∙◌, sym, ap,
}
use zeos_soa.Prelude.Int.{ℤ, pos, ltb_ℤ}
use zeos_soa.Lists.{Ptr, null, Links, list_add_tail, list_del}
use zeos_soa.Kernel.{Kernel, list_of, sibling_of, children_blocked_of, set_task}
use zeos_soa.Sched.{update_process_state_rr, sched_next_rr}
use zeos_soa.Calls.Block.{file_blocked, sys_block}
use zeos_soa.Places.{Place, Map, same_place, put, node_of, head_of}
use zeos_soa.Places.Held.{Free-not_in}
use zeos_soa.Places.World.{Census, World, join, leave, enter, on_block}
use zeos_soa.Places.Filing.{moved-Held, moved-keeps_Free}
use zeos_soa.Places.Families.{orphan-filed, child-filed, orphan-Families, child-Families}
use zeos_soa.Places.Stands.{Families, Stands}
use zeos_soa.Places.Enter.{sched_next_rr-Stands}
use zeos_soa.Places.Park.{update_process_state_rr-detached, Runs, Stands-Runs, park}
use zeos_soa.Places.Ticks.{Counts-same}

-- The links once `r` is behind the blocked children of `p`.
abbrev links_with : Links → (r p : Ptr) → Links
links_with l r p = list_add_tail (list_del l (sibling_of r)) (sibling_of r) (children_blocked_of p)

file_blocked-child :
    (k : Kernel) (r p : Ptr)
    → k.current ≡ r
    → (k.tasks k.current).parent ≡ p
    → p ≢ null
    → file_blocked k ≡ record k { links = links_with k.links r p }
unfolding file_blocked
file_blocked-child k r p e f given =
    let test : ((k.tasks k.current).parent == null) ≡ false = ground (arith, f, given) in
    let here : file_blocked k
        ≡ record k { links = links_with k.links k.current (k.tasks k.current).parent } =
      rw test refl in
    here
    ∙ ap (λ q. record k { links = links_with k.links k.current q }) f
    ∙ ap (λ q. record k { links = links_with k.links q p }) e

file_blocked-orphan : (k : Kernel) → (k.tasks k.current).parent ≡ null → file_blocked k ≡ k
unfolding file_blocked
file_blocked-orphan k none =
    let test : ((k.tasks k.current).parent == null) ≡ true = ground (arith, none) in rw test refl

module _ (c : Census) where
  -- The process `r`, once it is filed, joins the queue of the blocked, and the next one is entered.
  queue_blocked :
      (k : Kernel) (at : Map) (r : Ptr)
      → Runs c k at r
      → r ≢ c.idle
      → Families c (join at Place.waiting r)
      → Stands c
          (sched_next_rr (update_process_state_rr k r k.heads.blocked))
          (enter c (join at Place.waiting r))
  unfolding join put same_place node_of head_of
  queue_blocked k at r runs other families =
      let k' = record k { links = list_add_tail k.links (list_of r) k.heads.blocked } in
      rw
        (update_process_state_rr-detached k r k.heads.blocked runs.free.detached
          runs.counts.waiting_given)
        (sched_next_rr-Stands c k' (join at Place.waiting r) (
          park c k k' at r Place.waiting runs tt refl
            (Counts-same c k k' refl refl refl refl runs.counts) refl refl
            (λ t. ground (arith, has-append t (at Place.waiting) (r ∷ []))) families
            (λ e. absurd (other (sym e))) (λ i. i)))

  module _ (k : Kernel) (w : World) (s : Stands c k w) (other : w.running ≢ c.idle) where
    abbrev r : Ptr
    r = w.running

    abbrev mother : Ptr
    mother = c.parent r

    runs : Runs c k w.at r
    runs = Stands-Runs c k w s

    -- A process that runs is not blocked.
    not_waiting : r ∉ w.at Place.waiting
    unfolding node_of
    not_waiting =
        Free-not_in k.heads c.processes k.links w.at Place.waiting w.running tt s.running_free

    -- The kernel with the process filed with its mother.
    module _ (some_parent : mother ≢ null) where
      there : r ∈ w.at (Place.unblocked_children mother)
      there = s.families.unblocked_there r runs.known some_parent not_waiting

      mother_known : mother ∈ c.processes
      mother_known = s.families.parent_known r runs.known some_parent

      abbrev filed_at : Map
      filed_at =
          join (leave w.at (Place.unblocked_children mother) r) (Place.blocked_children mother) r

      abbrev filed_links : Links
      filed_links =
          list_add_tail (list_del k.links (sibling_of r)) (sibling_of r)
            (children_blocked_of mother)

      filed-Runs : Runs c (record k { links = filed_links }) filed_at r
      unfolding node_of head_of join leave put same_place
      filed-Runs =
          let x = Place.unblocked_children mother in
          let y = Place.blocked_children mother in
          record {
            counts =
                Counts-same c k (record k { links = filed_links }) refl refl refl refl s.counts;
            held =
                moved-Held k.heads c.processes k.links w.at x y r mother_known mother_known s.held
                  there refl;
            free =
                moved-keeps_Free k.heads c.processes k.links w.at x y r mother_known mother_known
                  s.held there refl (list_of r) s.running_free;
            idle = elim s.idle [
              | inl h ↦ inl h
              | inr (inl i) ↦ inr (inl i)
              | inr (inr f) ↦ inr (
                  inr (
                    moved-keeps_Free k.heads c.processes k.links w.at x y r mother_known
                      mother_known s.held there refl (list_of c.idle) f))
            ];
            placed = s.placed;
            queued = s.queued;
            known = runs.known;
          }

    abbrev queue : Kernel → Kernel
    queue k1 = sched_next_rr (update_process_state_rr k1 k.current k.heads.blocked)

    queue_running :
        (k1 : Kernel) → queue k1 ≡ sched_next_rr (update_process_state_rr k1 r k.heads.blocked)
    queue_running k1 =
        ap (λ t. sched_next_rr (update_process_state_rr k1 t k.heads.blocked)) s.running

    mother_of : (k.tasks k.current).parent ≡ mother
    mother_of = s.counts.parents k.current s.counts.current_known ∙ ap c.parent s.running

    blocks : Stands c (queue (file_blocked k)) (on_block c w)
    unfolding on_block
    blocks = elim (Bool-cases (mother == null)) [
      | inl e ↦
          let none : mother ≡ null = ground arith in
          rw
            (
              file_blocked-orphan k (mother_of ∙ none),
              orphan-filed c w.at r s.families runs.known none,
              queue_running k,
            )
            (queue_blocked k w.at r runs other
              (orphan-Families c w.at r s.families runs.known none))
      | inr e ↦
          let given : mother ≢ null = ground arith in
          rw
            (
              file_blocked-child k r mother s.running mother_of given,
              child-filed c w.at r s.families runs.known given,
              queue_running (record k { links = filed_links given }),
            )
            (queue_blocked (record k { links = filed_links given }) (filed_at given) r
              (filed-Runs given) other (child-Families c w.at r s.families runs.known given))
    ]

  -- A credit changes no place.
  pub set_pending-Stands :
      (k : Kernel) (t : Ptr) (n : ℤ) (w : World)
      → Stands c k w
      → Stands c (set_task k t (record (k.tasks t) { pending_unblocks = n })) w
  set_pending-Stands k t n w s = record {
    counts = record {
      idle = s.counts.idle;
      idle_known = s.counts.idle_known;
      current_known = s.counts.current_known;
      parents = λ p i. ground (arith, s.counts.parents p i);
      pids = λ p i. ground (arith, s.counts.pids p i);
      quanta = λ p i. ground (arith, s.counts.quanta p i);
      different = s.counts.different;
      ready_given = s.counts.ready_given;
      waiting_given = s.counts.waiting_given;
      readers_given = s.counts.readers_given;
    };
    running = s.running;
    left = s.left;
    held = s.held;
    running_free = s.running_free;
    idle = s.idle;
    placed = s.placed;
    queued = s.queued;
    families = s.families;
  }

  -- `sys_block` of a process that is not the idle one leaves all processes where they are, with an
  -- unblock to its credit used up, or puts it with the blocked ones.
  pub sys_block-Stands :
      (k : Kernel) (w : World)
      → w.running ≢ c.idle
      → Stands c k w
      → Stands c (sys_block k).1 w ⊎ Stands c (sys_block k).1 (on_block c w)
  unfolding sys_block
  sys_block-Stands k w other s =
      elim (Bool-cases (ltb_ℤ (pos 0) (k.tasks k.current).pending_unblocks)) [
        | inl e ↦ rw e (inl (set_pending-Stands k k.current _ w s))
        | inr e ↦ rw e (inr (blocks k w s other))
      ]
