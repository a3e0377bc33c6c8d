-- ===== src/Calls/Block/Moves.antt =====
-- Where `sys_block` puts the process that calls it.
use zeos_soa.Prelude.{◌≡◌, refl, ◌≢◌, false, List, [], ◌∷◌, ◌++◌, ◌==◌, ◌∈◌, ◌∉◌, arith, ◌∙◌, sym}
use zeos_soa.Prelude.Int.{pos, ltb_ℤ, eq_ℤ}
use zeos_soa.Lists.{Ptr, null, Links, list_add_tail, list_del}
use zeos_soa.Lists.Rings.{IsRing}
use zeos_soa.Lists.Add.{list_add_tail-IsRing, list_add_tail-frame}
use zeos_soa.Lists.Remove.{list_del-IsRing, list_del-null, list_del-frame}
use zeos_soa.Lists.Move.{
  Disjoint, Disjoint-symm, IsRing-frame, middle-mem, rest-mem, move-to, move-from, move-frame,
  ne_of_mem, snoc-out, rest-out, snoc-not_mem,
}
use zeos_soa.Kernel.{Kernel, list_of, sibling_of, children_blocked_of, children_unblocked_of}
use zeos_soa.Sched.{update_process_state_rr, sched_next_rr, enter_next}
use zeos_soa.Sched.Switch.{
  IsDetached, unlink-detached, nodes, pick_next-cons, Entered, enter_next-Entered,
}
use zeos_soa.Calls.Block.{file_blocked, sys_block}
use zeos_soa.Calls.Block.Search.{siblings}

-- A process that runs and has no unblock to its credit, before it blocks. `cs` and `ds` are the other
-- unblocked children of its parent, `bs` the blocked ones; `ws` are all processes that are blocked,
-- and `t` and then `ts` those that are ready.
pub record CanBlock (k : Kernel) (cs ds bs ws : List Ptr) (t : Ptr) (ts : List Ptr) : Type 0 where
  pub parent : Ptr
  pub parent_of : (k.tasks k.current).parent ≡ parent
  pub has_parent : parent ≢ null
  pub no_credit : ltb_ℤ (pos 0) (k.tasks k.current).pending_unblocks ≡ false
  pub unblocked :
      IsRing k.links
        (children_unblocked_of parent)
        (siblings cs ++ sibling_of k.current ∷ siblings ds)
  pub blocked : IsRing k.links (children_blocked_of parent) (siblings bs)
  pub waiting : IsRing k.links k.heads.blocked (nodes ws)
  pub ready : IsRing k.links k.heads.readyqueue (nodes (t ∷ ts))
  pub detached : IsDetached k.links (list_of k.current)
  pub head_given : k.heads.blocked ≢ null
  pub other_pid : eq_ℤ (k.tasks k.current).pid (k.tasks t).pid ≡ false
  pub blocked_unblocked :
      Disjoint
        (children_blocked_of parent ∷ siblings bs)
        (children_unblocked_of parent ∷ (siblings cs ++ sibling_of k.current ∷ siblings ds))
  pub waiting_unblocked :
      Disjoint
        (k.heads.blocked ∷ nodes ws)
        (children_unblocked_of parent ∷ (siblings cs ++ sibling_of k.current ∷ siblings ds))
  pub waiting_blocked :
      Disjoint (k.heads.blocked ∷ nodes ws) (children_blocked_of parent ∷ siblings bs)
  pub ready_unblocked :
      Disjoint
        (k.heads.readyqueue ∷ nodes (t ∷ ts))
        (children_unblocked_of parent ∷ (siblings cs ++ sibling_of k.current ∷ siblings ds))
  pub ready_blocked :
      Disjoint (k.heads.readyqueue ∷ nodes (t ∷ ts)) (children_blocked_of parent ∷ siblings bs)
  pub ready_waiting : Disjoint (k.heads.readyqueue ∷ nodes (t ∷ ts)) (k.heads.blocked ∷ nodes ws)
  pub out_unblocked :
      list_of k.current
      ∉ (children_unblocked_of parent ∷ (siblings cs ++ sibling_of k.current ∷ siblings ds))
  pub out_blocked : list_of k.current ∉ (children_blocked_of parent ∷ siblings bs)
  pub out_waiting : list_of k.current ∉ (k.heads.blocked ∷ nodes ws)
  pub out_ready : list_of k.current ∉ (k.heads.readyqueue ∷ nodes (t ∷ ts))

-- What is left behind: the process is the last of its parent's blocked children and of all blocked
-- processes, every other process keeps its place, and the first that was ready runs.
pub record Blocked (k : Kernel) (parent : Ptr) (cs ds bs ws : List Ptr) (t : Ptr) (ts : List Ptr)
    (k' : Kernel) : Type 0 where
  pub current : k'.current ≡ t
  pub unblocked : IsRing k'.links (children_unblocked_of parent) (siblings cs ++ siblings ds)
  pub blocked :
      IsRing k'.links (children_blocked_of parent) (siblings bs ++ sibling_of k.current ∷ [])
  pub waiting : IsRing k'.links k.heads.blocked (nodes ws ++ list_of k.current ∷ [])
  pub ready : IsRing k'.links k.heads.readyqueue (nodes ts)
  pub detached : IsDetached k'.links (list_of t)

module _ (k : Kernel) (cs ds bs ws : List Ptr) (t : Ptr) (ts : List Ptr)
    (c : CanBlock k cs ds bs ws t ts) where
  abbrev unblocked_head : Ptr
  unblocked_head = children_unblocked_of c.parent

  abbrev blocked_head : Ptr
  blocked_head = children_blocked_of c.parent

  abbrev sibling : Ptr
  sibling = sibling_of k.current

  abbrev node : Ptr
  node = list_of k.current

  -- The nodes of the four lists, their heads included.
  abbrev unblocked_nodes : List Ptr
  unblocked_nodes = unblocked_head ∷ (siblings cs ++ sibling ∷ siblings ds)

  abbrev blocked_nodes : List Ptr
  blocked_nodes = blocked_head ∷ siblings bs

  abbrev waiting_nodes : List Ptr
  waiting_nodes = k.heads.blocked ∷ nodes ws

  abbrev ready_nodes : List Ptr
  ready_nodes = k.heads.readyqueue ∷ nodes (t ∷ ts)

  -- The links once the process is filed with its parent, once it is in the queue of the blocked, and
  -- once the first ready process is taken out.
  abbrev filed : Links
  filed = list_add_tail (list_del k.links sibling) sibling blocked_head

  abbrev queued : Links
  queued = list_add_tail filed node k.heads.blocked

  abbrev taken : Links
  taken = list_del queued (list_of t)

  filed-same :
      (p : Ptr)
      → p ∉ unblocked_nodes
      → p ∉ blocked_nodes
      → (filed.next p ≡ k.links.next p) × (filed.prev p ≡ k.links.prev p)
  filed-same =
      move-frame k.links unblocked_head blocked_head sibling (siblings cs) (siblings ds)
        (siblings bs) c.unblocked c.blocked c.blocked_unblocked

  filed-waiting : IsRing filed k.heads.blocked (nodes ws)
  filed-waiting =
      IsRing-frame k.links filed k.heads.blocked (nodes ws)
        (λ p i. filed-same p (c.waiting_unblocked p i) (c.waiting_blocked p i)) c.waiting

  filed-ready : IsRing filed k.heads.readyqueue (nodes (t ∷ ts))
  filed-ready =
      IsRing-frame k.links filed k.heads.readyqueue (nodes (t ∷ ts))
        (λ p i. filed-same p (c.ready_unblocked p i) (c.ready_blocked p i)) c.ready

  filed-IsDetached : IsDetached filed node
  filed-IsDetached =
      let (nx, pv) = filed-same node c.out_unblocked c.out_blocked in
      record { no_next = nx ∙ c.detached.no_next; no_prev = pv ∙ c.detached.no_prev }

  queued-same :
      (p : Ptr)
      → p ∉ waiting_nodes
      → p ≢ node
      → (queued.next p ≡ filed.next p) × (queued.prev p ≡ filed.prev p)
  queued-same = list_add_tail-frame filed node k.heads.blocked filed-waiting c.out_waiting

  queued-ready : IsRing queued k.heads.readyqueue (nodes (t ∷ ts))
  queued-ready =
      IsRing-frame filed queued k.heads.readyqueue (nodes (t ∷ ts))
        (λ p i. queued-same p (c.ready_waiting p i) (ne_of_mem p node ready_nodes i c.out_ready))
        filed-ready

  -- A list that is apart from the queue of the blocked and from the ready queue is untouched by both
  -- of the later steps.
  taken-other :
      (h : Ptr) (xs : List Ptr)
      → ((p : Ptr) → p ∈ (h ∷ xs) → p ∉ waiting_nodes)
      → node ∉ (h ∷ xs)
      → ((p : Ptr) → p ∈ (h ∷ xs) → p ∉ ready_nodes)
      → IsRing filed h xs
      → IsRing taken h xs
  taken-other h xs w o r ring =
      IsRing-frame queued taken h xs
        (λ p i.
          list_del-frame queued k.heads.readyqueue (list_of t) [] (nodes ts) queued-ready p (r p i))
        (IsRing-frame filed queued h xs
          (λ p i. queued-same p (w p i) (ne_of_mem p node (h ∷ xs) i o)) ring)

  taken-unblocked : IsRing taken unblocked_head (siblings cs ++ siblings ds)
  taken-unblocked =
      taken-other unblocked_head (siblings cs ++ siblings ds)
        (λ p i.
          Disjoint-symm waiting_nodes unblocked_nodes c.waiting_unblocked p
            (rest-mem unblocked_head sibling p (siblings cs) (siblings ds) i))
        (rest-out unblocked_head sibling node (siblings cs) (siblings ds) c.out_unblocked)
        (λ p i.
          Disjoint-symm ready_nodes unblocked_nodes c.ready_unblocked p
            (rest-mem unblocked_head sibling p (siblings cs) (siblings ds) i))
        (move-from k.links unblocked_head blocked_head sibling (siblings cs) (siblings ds)
          (siblings bs) c.unblocked c.blocked c.blocked_unblocked)

  sibling_mem : sibling ∈ unblocked_nodes
  sibling_mem = middle-mem unblocked_head sibling (siblings cs) (siblings ds)

  taken-blocked : IsRing taken blocked_head (siblings bs ++ sibling ∷ [])
  taken-blocked =
      taken-other blocked_head (siblings bs ++ sibling ∷ [])
        (λ p i.
          snoc-out blocked_head sibling p (siblings bs) waiting_nodes
            (Disjoint-symm waiting_nodes blocked_nodes c.waiting_blocked)
            (Disjoint-symm waiting_nodes unblocked_nodes c.waiting_unblocked sibling sibling_mem) i)
        (snoc-not_mem blocked_head sibling node (siblings bs) c.out_blocked
          (λ e. ne_of_mem sibling node unblocked_nodes sibling_mem c.out_unblocked (sym e)))
        (λ p i.
          snoc-out blocked_head sibling p (siblings bs) ready_nodes
            (Disjoint-symm ready_nodes blocked_nodes c.ready_blocked)
            (Disjoint-symm ready_nodes unblocked_nodes c.ready_unblocked sibling sibling_mem) i)
        (move-to k.links unblocked_head blocked_head sibling (siblings cs) (siblings ds)
          (siblings bs) c.unblocked c.blocked c.blocked_unblocked)

  taken-waiting : IsRing taken k.heads.blocked (nodes ws ++ node ∷ [])
  taken-waiting =
      IsRing-frame queued taken k.heads.blocked (nodes ws ++ node ∷ [])
        (λ p i. list_del-frame queued k.heads.readyqueue (list_of t) [] (nodes ts) queued-ready p (
          snoc-out k.heads.blocked node p (nodes ws) ready_nodes
            (Disjoint-symm ready_nodes waiting_nodes c.ready_waiting) c.out_ready i))
        (list_add_tail-IsRing filed node k.heads.blocked filed-waiting c.out_waiting)

  -- The kernel with the process filed and queued.
  abbrev waits : Kernel
  waits = record k { links = queued }

  file_blocked-filed : file_blocked k ≡ record k { links = filed }
  unfolding file_blocked
  file_blocked-filed =
      let given : (c.parent == null) ≡ false = ground (arith, c.has_parent) in
      rw (c.parent_of, given)

  update-waits :
      update_process_state_rr (record k { links = filed }) k.current k.heads.blocked ≡ waits
  unfolding update_process_state_rr
  update-waits =
      let given : (k.heads.blocked == null) ≡ false = ground (arith, c.head_given) in
      rw (given, unlink-detached filed node filed-IsDetached)

  sys_block-taken : sys_block k ≡ (pos 0, enter_next waits (taken, t))
  unfolding sys_block sched_next_rr
  sys_block-taken =
      rw (c.no_credit, file_blocked-filed, update-waits, pick_next-cons waits t ts queued-ready)

  -- Where the lists concerned share no node and the first ready process has another PID, a process
  -- that has a parent and no unblock to its credit returns 0 from `sys_block`, goes to the end of
  -- the queue of the blocked and of its parent's blocked children and leaves the unblocked ones; the
  -- other processes keep their places, and the first that was ready runs, in no queue.
  pub sys_block-Blocked :
      ((sys_block k).0 ≡ pos 0) × Blocked k c.parent cs ds bs ws t ts (sys_block k).1
  sys_block-Blocked = rw sys_block-taken (
      let e : Entered waits taken t (enter_next waits (taken, t)) =
        enter_next-Entered waits taken t (λ h. absurd (ground (arith, c.other_pid))) in
      let out = list_del-null queued k.heads.readyqueue (list_of t) [] (nodes ts) queued-ready in
      (
        refl,
        record {
          current = e.current;
          unblocked = rw e.links taken-unblocked;
          blocked = rw e.links taken-blocked;
          waiting = rw e.links taken-waiting;
          ready =
              rw e.links
                (list_del-IsRing queued k.heads.readyqueue (list_of t) [] (nodes ts) queued-ready);
          detached = rw e.links (record { no_next = out.0; no_prev = out.1 });
        },
      ))
