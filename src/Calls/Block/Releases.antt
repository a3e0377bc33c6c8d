-- ===== src/Calls/Block/Releases.antt =====
-- Where `sys_unblock` puts a child that is blocked.
use zeos_soa.Prelude.{
  ◌≡◌, refl, ◌≢◌, List, [], ◌∷◌, ◌++◌, ◌==◌, false, ◌∈◌, ◌∉◌, some, arith, ap, subst,
}
use zeos_soa.Prelude.Int.{ℤ, pos}
use zeos_soa.Lists.{Ptr, null, Links, list_add_tail, list_del}
use zeos_soa.Lists.Rings.{IsRing, Seg-split, Seg-first, first}
use zeos_soa.Lists.Move.{
  Disjoint, Disjoint-symm, IsRing-frame, middle-mem, rest-mem, snoc-out, move-to, move-from,
  move-frame,
}
use zeos_soa.Kernel.{Kernel, list_of, sibling_of, children_blocked_of, children_unblocked_of}
use zeos_soa.Sched.{update_process_state_rr, unlink}
use zeos_soa.Sched.Switch.{nodes}
use zeos_soa.Calls.Block.{release_child, sys_unblock}
use zeos_soa.Calls.Block.Search.{siblings, first_with}
use zeos_soa.Calls.Block.Pending.{Children, sys_unblock-outcome}

siblings-append : (xs ys : List Ptr) → siblings (xs ++ ys) ≡ siblings xs ++ siblings ys
siblings-append [] ys = refl
siblings-append (x ∷ xs) ys = ap (λ r. sibling_of x ∷ r) (siblings-append xs ys)

-- A node that stands in a list whose head is not NULL is unlinked as by `list_del`.
pub unlink-linked :
    (l : Links) (h : Ptr) (xs : List Ptr) (y : Ptr) (ts : List Ptr)
    → h ≢ null
    → IsRing l h (xs ++ y ∷ nodes ts)
    → unlink l y ≡ list_del l y
unfolding unlink
unlink-linked l h xs y ts given r =
    let after : l.next y ≡ first (nodes ts) h =
      Seg-first l y (nodes ts) h (Seg-split l h xs y (nodes ts) h r.seg).1 in
    let there = first-nodes ts in
    let linked : (l.next y == null) ≡ false = rw after there in rw linked (ground arith)
  where
    first-nodes : (ts : List Ptr) → (first (nodes ts) h == null) ≡ false
    first-nodes [] = ground (arith, given)
    first-nodes (t ∷ ts) = ground arith

-- The current process has the child `child` among its blocked children `cs ++ child ∷ ds`; `us` are
-- its other children, `vs ++ child ∷ ws` are all blocked processes, and `rs` are ready.
pub record CanRelease (k : Kernel) (child : Ptr) (cs ds us vs ws rs : List Ptr) : Type 0 where
  pub children : Children k (cs ++ child ∷ ds) us
  pub waiting : IsRing k.links k.heads.blocked (nodes vs ++ list_of child ∷ nodes ws)
  pub ready : IsRing k.links k.heads.readyqueue (nodes rs)
  pub blocked_given : k.heads.blocked ≢ null
  pub ready_given : k.heads.readyqueue ≢ null
  pub children_apart :
      Disjoint
        (children_unblocked_of k.current ∷ siblings us)
        (children_blocked_of k.current ∷ (siblings cs ++ sibling_of child ∷ siblings ds))
  pub queues_apart :
      Disjoint
        (k.heads.readyqueue ∷ nodes rs)
        (k.heads.blocked ∷ (nodes vs ++ list_of child ∷ nodes ws))
  pub waiting_blocked :
      Disjoint
        (k.heads.blocked ∷ (nodes vs ++ list_of child ∷ nodes ws))
        (children_blocked_of k.current ∷ (siblings cs ++ sibling_of child ∷ siblings ds))
  pub waiting_unblocked :
      Disjoint
        (k.heads.blocked ∷ (nodes vs ++ list_of child ∷ nodes ws))
        (children_unblocked_of k.current ∷ siblings us)
  pub ready_blocked :
      Disjoint
        (k.heads.readyqueue ∷ nodes rs)
        (children_blocked_of k.current ∷ (siblings cs ++ sibling_of child ∷ siblings ds))
  pub ready_unblocked :
      Disjoint (k.heads.readyqueue ∷ nodes rs) (children_unblocked_of k.current ∷ siblings us)

module _ (k : Kernel) (child : Ptr) (cs ds us vs ws rs : List Ptr)
    (c : CanRelease k child cs ds us vs ws rs) where
  abbrev sibling : Ptr
  sibling = sibling_of child

  abbrev blocked_head : Ptr
  blocked_head = children_blocked_of k.current

  abbrev unblocked_head : Ptr
  unblocked_head = children_unblocked_of k.current

  abbrev blocked_nodes : List Ptr
  blocked_nodes = blocked_head ∷ (siblings cs ++ sibling ∷ siblings ds)

  abbrev unblocked_nodes : List Ptr
  unblocked_nodes = unblocked_head ∷ siblings us

  abbrev waiting_nodes : List Ptr
  waiting_nodes = k.heads.blocked ∷ (nodes vs ++ list_of child ∷ nodes ws)

  abbrev ready_nodes : List Ptr
  ready_nodes = k.heads.readyqueue ∷ nodes rs

  -- The links once the child is filed with the unblocked ones, and once it is ready.
  abbrev filed : Links
  filed = list_add_tail (list_del k.links sibling) sibling unblocked_head

  abbrev released : Links
  released = list_add_tail (list_del filed (list_of child)) (list_of child) k.heads.readyqueue

  blocked-IsRing : IsRing k.links blocked_head (siblings cs ++ sibling ∷ siblings ds)
  blocked-IsRing =
      subst (IsRing k.links blocked_head) (siblings-append cs (child ∷ ds)) c.children.blocked_ring

  filed-same :
      (p : Ptr)
      → p ∉ blocked_nodes
      → p ∉ unblocked_nodes
      → (filed.next p ≡ k.links.next p) × (filed.prev p ≡ k.links.prev p)
  filed-same =
      move-frame k.links blocked_head unblocked_head sibling (siblings cs) (siblings ds)
        (siblings us) blocked-IsRing c.children.unblocked_ring c.children_apart

  filed-waiting : IsRing filed k.heads.blocked (nodes vs ++ list_of child ∷ nodes ws)
  filed-waiting =
      IsRing-frame k.links filed k.heads.blocked (nodes vs ++ list_of child ∷ nodes ws)
        (λ p i. filed-same p (c.waiting_blocked p i) (c.waiting_unblocked p i)) c.waiting

  filed-ready : IsRing filed k.heads.readyqueue (nodes rs)
  filed-ready =
      IsRing-frame k.links filed k.heads.readyqueue (nodes rs)
        (λ p i. filed-same p (c.ready_blocked p i) (c.ready_unblocked p i)) c.ready

  released-same :
      (p : Ptr)
      → p ∉ waiting_nodes
      → p ∉ ready_nodes
      → (released.next p ≡ filed.next p) × (released.prev p ≡ filed.prev p)
  released-same =
      move-frame filed k.heads.blocked k.heads.readyqueue (list_of child) (nodes vs) (nodes ws)
        (nodes rs) filed-waiting filed-ready c.queues_apart

  released-blocked : IsRing released blocked_head (siblings cs ++ siblings ds)
  released-blocked =
      IsRing-frame filed released blocked_head (siblings cs ++ siblings ds)
        (λ p i.
          let j = rest-mem blocked_head sibling p (siblings cs) (siblings ds) i in
          released-same p (Disjoint-symm waiting_nodes blocked_nodes c.waiting_blocked p j)
            (Disjoint-symm ready_nodes blocked_nodes c.ready_blocked p j))
        (move-from k.links blocked_head unblocked_head sibling (siblings cs) (siblings ds)
          (siblings us) blocked-IsRing c.children.unblocked_ring c.children_apart)

  sibling_mem : sibling ∈ blocked_nodes
  sibling_mem = middle-mem blocked_head sibling (siblings cs) (siblings ds)

  released-unblocked : IsRing released unblocked_head (siblings us ++ sibling ∷ [])
  released-unblocked =
      IsRing-frame filed released unblocked_head (siblings us ++ sibling ∷ [])
        (λ p i.
          released-same p
            (snoc-out unblocked_head sibling p (siblings us) waiting_nodes
              (Disjoint-symm waiting_nodes unblocked_nodes c.waiting_unblocked)
              (Disjoint-symm waiting_nodes blocked_nodes c.waiting_blocked sibling sibling_mem) i)
            (snoc-out unblocked_head sibling p (siblings us) ready_nodes
              (Disjoint-symm ready_nodes unblocked_nodes c.ready_unblocked)
              (Disjoint-symm ready_nodes blocked_nodes c.ready_blocked sibling sibling_mem) i))
        (move-to k.links blocked_head unblocked_head sibling (siblings cs) (siblings ds)
          (siblings us) blocked-IsRing c.children.unblocked_ring c.children_apart)

  release_child-released : release_child k child ≡ record k { links = released }
  unfolding release_child update_process_state_rr
  release_child-released =
      let given : (k.heads.readyqueue == null) ≡ false = ground (arith, c.ready_given) in
      rw
        (
          given,
          unlink-linked filed k.heads.blocked (nodes vs) (list_of child) ws c.blocked_given
              filed-waiting,
        )
        refl

  -- Where the lists concerned share no node, a child that `sys_unblock` finds among the blocked ones
  -- goes to the end of the unblocked children and of the ready queue; it leaves the blocked children
  -- and the queue of the blocked, all others keep their places, and the call returns 0.
  pub sys_unblock-releases :
      (pid : ℤ)
      → first_with k.tasks pid (cs ++ child ∷ ds) ≡ some child
      → let (r, k') = sys_unblock k pid in
        (r ≡ pos 0)
        × IsRing k'.links (children_blocked_of k.current) (siblings cs ++ siblings ds)
        × IsRing k'.links (children_unblocked_of k.current) (siblings us ++ sibling_of child ∷ [])
        × IsRing k'.links k.heads.blocked (nodes vs ++ nodes ws)
        × IsRing k'.links k.heads.readyqueue (nodes rs ++ list_of child ∷ [])
  sys_unblock-releases pid found =
      rw (sys_unblock-outcome k pid (cs ++ child ∷ ds) us c.children, found, release_child-released)
        (
          refl,
          released-blocked,
          released-unblocked,
          move-from filed k.heads.blocked k.heads.readyqueue (list_of child) (nodes vs) (nodes ws)
              (nodes rs) filed-waiting filed-ready c.queues_apart,
          move-to filed k.heads.blocked k.heads.readyqueue (list_of child) (nodes vs) (nodes ws)
              (nodes rs) filed-waiting filed-ready c.queues_apart,
        )
