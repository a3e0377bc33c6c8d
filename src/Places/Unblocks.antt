-- ===== src/Places/Unblocks.antt =====
-- `sys_unblock`: a child that is blocked becomes ready, also among the children of its parent.
use zeos_soa.Prelude.{
  ◌<◌, ◌≡◌, refl, false, List, [], ◌∷◌, ◌==◌, ◌∈◌, has-append, inl, inr, arith, Bool-cases, ◌∙◌,
  sym, subst, ap, Option, some, none, length,
}
use zeos_soa.Prelude.Int.{ℤ, eq_ℤ}
use zeos_soa.Lists.{Ptr, null, Links, list_add_tail, list_del}
use zeos_soa.Lists.Rings.{IsRing}
use zeos_soa.Frames.{total_pages}
use zeos_soa.Kernel.{Kernel, Task, list_of, sibling_of, children_blocked_of, children_unblocked_of}
use zeos_soa.Sched.{update_process_state_rr, unlink}
use zeos_soa.Sched.Switch.{nodes}
use zeos_soa.Calls.Block.{sys_unblock, release_child, credit_child}
use zeos_soa.Calls.Block.Search.{siblings, first_with}
use zeos_soa.Calls.Block.Pending.{Children, outcome, sys_unblock-outcome}
use zeos_soa.Calls.Block.Releases.{unlink-linked}
use zeos_soa.Places.{Place, Map, same_place, put, node_of, head_of, Known}
use zeos_soa.Places.Held.{Held, Free, at-Distinct, map-append}
use zeos_soa.Places.World.{Census, World, join, leave, on_release, on_unblock}
use zeos_soa.Places.Without.{without-other, split_at, length-le}
use zeos_soa.Places.Filing.{moved-Held, moved-keeps_Free}
use zeos_soa.Places.Families.{released-Families}
use zeos_soa.Places.Stands.{Stands}
use zeos_soa.Places.Ticks.{Counts-same}
use zeos_soa.Places.Blocks.{set_pending-Stands}

-- What is found has the PID and is one of those searched.
pub first_with-mem :
    (tasks : Ptr → Task) (pid : ℤ) (ts : List Ptr) (t : Ptr)
    → first_with tasks pid ts ≡ some t
    → t ∈ ts
unfolding first_with
first_with-mem tasks pid [] t e = absurd (ground arith)
first_with-mem tasks pid (x ∷ xs) t e = elim (Bool-cases (eq_ℤ (tasks x).pid pid)) [
  | inl h ↦ ground (arith, e, h)
  | inr h ↦ ground (arith, e, h, first_with-mem tasks pid xs t)
]

module _ (c : Census) (k : Kernel) (w : World) (s : Stands c k w) where
  abbrev r : Ptr
  r = w.running

  known : r ∈ c.processes
  known = rw (← s.running) s.counts.current_known

  module _ (t : Ptr) (child : t ∈ w.at (Place.blocked_children r)) where
    abbrev filed_at : Map
    filed_at = join (leave w.at (Place.blocked_children r) t) (Place.unblocked_children r) t

    abbrev filed_links : Links
    filed_links =
        list_add_tail (list_del k.links (sibling_of t)) (sibling_of t) (children_unblocked_of r)

    abbrev all_links : Links
    all_links = list_add_tail (list_del filed_links (list_of t)) (list_of t) k.heads.readyqueue

    filed-Held : Held k.heads c.processes filed_links filed_at
    unfolding node_of head_of
    filed-Held =
        moved-Held k.heads c.processes k.links w.at (Place.blocked_children r)
          (Place.unblocked_children r) t known known s.held child refl

    filed-keeps :
        (m : Ptr)
        → Free k.heads c.processes k.links w.at m
        → Free k.heads c.processes filed_links filed_at m
    unfolding node_of head_of
    filed-keeps =
        moved-keeps_Free k.heads c.processes k.links w.at (Place.blocked_children r)
          (Place.unblocked_children r) t known known s.held child refl

    waits : t ∈ filed_at Place.waiting
    unfolding join leave put same_place
    waits = (s.families.blocked_are r t child known).1

    all-Held : Held k.heads c.processes all_links (on_release c w t).at
    unfolding node_of head_of on_release
    all-Held =
        moved-Held k.heads c.processes filed_links filed_at Place.waiting Place.ready t tt tt
          filed-Held waits refl

    all-keeps :
        (m : Ptr)
        → Free k.heads c.processes k.links w.at m
        → Free k.heads c.processes all_links (on_release c w t).at m
    unfolding node_of head_of on_release
    all-keeps m f =
        moved-keeps_Free k.heads c.processes filed_links filed_at Place.waiting Place.ready t tt tt
          filed-Held waits refl m (filed-keeps m f)

    released-Stands : Stands c (record k { links = all_links }) (on_release c w t)
    unfolding on_release join leave put same_place
    released-Stands = record {
      counts = Counts-same c k (record k { links = all_links }) refl refl refl refl s.counts;
      running = s.running;
      left = s.left;
      held = all-Held;
      running_free = all-keeps (list_of r) s.running_free;
      idle = elim s.idle [
        | inl h ↦ inl h
        | inr (inl i) ↦ inr (inl (ground (arith, i, has-append c.idle (w.at Place.ready) (t ∷ []))))
        | inr (inr f) ↦ inr (inr (all-keeps (list_of c.idle) f))
      ];
      placed = λ u i. elim (Bool-cases (u == t)) [
        | inl e ↦ ground (arith, e, has-append u (w.at Place.ready) (t ∷ []))
        | inr e ↦
            let same = without-other u t (w.at Place.waiting) (ground arith) in
            ground (arith, s.placed u i, same, has-append u (w.at Place.ready) (t ∷ []))
      ];
      queued = λ u i. elim (Bool-cases (u == t)) [
        | inl e ↦
            let same : u ≡ t = ground arith in rw same (s.families.blocked_are r t child known).0
        | inr e ↦
            let same = without-other u t (w.at Place.waiting) (ground arith) in
            s.queued u (ground (arith, i, same, e, has-append u (w.at Place.ready) (t ∷ [])))
      ];
      families =
          released-Families c w.at r t s.families known child
            (at-Distinct k.heads c.processes k.links w.at Place.waiting tt s.held)
            (at-Distinct k.heads c.processes k.links w.at (Place.blocked_children r) known s.held);
    }

    -- The child's node is linked, so that `update_process_state_rr` takes it out of its queue.
    unlinked : unlink filed_links (list_of t) ≡ list_del filed_links (list_of t)
    unfolding node_of head_of
    unlinked =
        let (us, vs, whole, rest) = split_at t (filed_at Place.waiting) waits in
        unlink-linked filed_links k.heads.blocked (nodes us) (list_of t) vs s.counts.waiting_given (
          subst (IsRing filed_links k.heads.blocked)
            (ap nodes whole ∙ map-append list_of us (t ∷ vs)) (filed-Held.ring Place.waiting tt))

    release_child-all : release_child k t ≡ record k { links = all_links }
    unfolding release_child update_process_state_rr
    release_child-all =
        let given : (k.heads.readyqueue == null) ≡ false = ground (arith, s.counts.ready_given) in
        let links = λ (q : Ptr).
          list_add_tail (list_del k.links (sibling_of t)) (sibling_of t)
            (children_unblocked_of q) in
        ap (λ q. update_process_state_rr (record k { links = links q }) t k.heads.readyqueue)
          s.running
        ∙ rw (given, unlinked) refl

    release_child-Stands : Stands c (release_child k t) (on_release c w t)
    release_child-Stands = rw release_child-all released-Stands

  few :
      length c.processes < total_pages
      → (x : Place) → Known c.processes x
      → ((u : Ptr) → u ∈ w.at x → u ∈ c.processes)
      → length (w.at x) < total_pages
  few bound x k_x inside =
      let le =
        length-le (w.at x) c.processes (at-Distinct k.heads c.processes k.links w.at x k_x s.held)
          inside in
      omega arith

  children :
      length c.processes < total_pages
      → Children k (w.at (Place.blocked_children r)) (w.at (Place.unblocked_children r))
  unfolding node_of head_of
  children bound = record {
    blocked_ring =
        subst
          (λ q. IsRing k.links (children_blocked_of q) (siblings (w.at (Place.blocked_children r))))
          (sym s.running) (s.held.ring (Place.blocked_children r) known);
    unblocked_ring =
        subst
          (λ q.
            IsRing k.links (children_unblocked_of q) (siblings (w.at (Place.unblocked_children r))))
          (sym s.running) (s.held.ring (Place.unblocked_children r) known);
    few_blocked =
        few bound (Place.blocked_children r) known (λ u i. (s.families.blocked_are r u i known).0);
    few_unblocked =
        few bound (Place.unblocked_children r) known
          (λ u i. (s.families.unblocked_are r u i known).0);
  }

  outcome-Stands :
      (b u : Option Ptr)
      → ((t : Ptr) → b ≡ some t → t ∈ w.at (Place.blocked_children r))
      → Stands c (outcome k b u).1 (on_unblock c w b)
  unfolding on_unblock credit_child
  outcome-Stands (some t) u found = release_child-Stands t (found t refl)
  outcome-Stands none (some t) found = set_pending-Stands c k t _ w s
  outcome-Stands none none found = s

  -- `sys_unblock` makes the first blocked child with the PID ready, or leaves all processes where they
  -- are.
  pub sys_unblock-Stands :
      (pid : ℤ)
      → length c.processes < total_pages
      → Stands c
          (sys_unblock k pid).1
          (on_unblock c w (first_with k.tasks pid (w.at (Place.blocked_children w.running))))
  sys_unblock-Stands pid bound =
      let bs = w.at (Place.blocked_children r) in
      let us = w.at (Place.unblocked_children r) in
      rw (sys_unblock-outcome k pid bs us (children bound)) (
        outcome-Stands (first_with k.tasks pid bs) (first_with k.tasks pid us)
          (λ t e. first_with-mem k.tasks pid bs t e))
