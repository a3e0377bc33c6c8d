-- ===== src/Calls/Block/Pending.antt =====
-- An unblock that comes before the block is not lost.
use zeos_soa.Prelude.{
  true, false, ◌≢◌, ◌==◌, ◌∙◌, update, ◌<◌, ◌≡◌, refl, List, Option, none, some, length, arith,
}
use zeos_soa.Prelude.Int.{ℤ, pos, neg, ◌≤ℤ◌, ltb_ℤ, suc_int, int_max}
use zeos_soa.Lists.{Ptr, null, Links, list_del, list_add_tail}
use zeos_soa.Sched.{unlink, update_process_state_rr}
use zeos_soa.Lists.Rings.{IsRing}
use zeos_soa.Frames.{total_pages}
use zeos_soa.Kernel.{Kernel, list_of, sibling_of, children_blocked_of, children_unblocked_of}
use zeos_soa.Calls.Block.{
  sys_block, sys_unblock, unblock_now, unblock_later, release_child, credit_child,
}
use zeos_soa.Calls.Block.Search.{siblings, first_with, find_child-IsRing}

-- The children of the current process: `bs` are blocked and `us` are not.
pub record Children (k : Kernel) (bs us : List Ptr) : Type 0 where
  pub blocked_ring : IsRing k.links (children_blocked_of k.current) (siblings bs)
  pub unblocked_ring : IsRing k.links (children_unblocked_of k.current) (siblings us)
  pub few_blocked : length bs < total_pages
  pub few_unblocked : length us < total_pages

-- What `sys_unblock` does, given what is found among the blocked and among the other children.
abbrev pub outcome : Kernel → (blocked unblocked : Option Ptr) → ℤ × Kernel
outcome k (some child) u = (pos 0, release_child k child)
outcome k none (some child) = (pos 0, credit_child k child)
outcome k none none = (neg 1, k)

unblock_later-outcome : (k : Kernel) (u : Option Ptr) → unblock_later k u ≡ outcome k none u
unfolding unblock_later
unblock_later-outcome k none = refl
unblock_later-outcome k (some child) = refl

unblock_now-outcome :
    (k : Kernel) (pid : ℤ) (bs us : List Ptr) (b : Option Ptr)
    → Children k bs us
    → unblock_now k pid b ≡ outcome k b (first_with k.tasks pid us)
unfolding unblock_now
unblock_now-outcome k pid bs us (some child) c = refl
unblock_now-outcome k pid bs us none c =
    rw
      (find_child-IsRing total_pages k pid (children_unblocked_of k.current) us c.unblocked_ring
        c.few_unblocked)
      (unblock_later-outcome k (first_with k.tasks pid us))

pub sys_unblock-outcome :
    (k : Kernel) (pid : ℤ) (bs us : List Ptr)
    → Children k bs us
    → sys_unblock k pid ≡ outcome k (first_with k.tasks pid bs) (first_with k.tasks pid us)
unfolding sys_unblock
sys_unblock-outcome k pid bs us c =
    rw
      (find_child-IsRing total_pages k pid (children_blocked_of k.current) bs c.blocked_ring
        c.few_blocked)
      (unblock_now-outcome k pid bs us (first_with k.tasks pid bs) c)

-- The links once `node` is taken out of its list, if it is in one, and put at the end of that of `head`.
abbrev pub moved : Links → (node head : Ptr) → Links
moved l node head = list_add_tail (unlink l node) node head

-- The same, written out: a blocked child is filed as unblocked, leaves the queue that it is in and
-- joins the ready queue; any other child with the PID has one unblock more.
abbrev pub effect : Kernel → (blocked unblocked : Option Ptr) → ℤ × Kernel
effect k (some child) u =
    let filed =
      list_add_tail (list_del k.links (sibling_of child)) (sibling_of child)
        (children_unblocked_of k.current) in
    (pos 0, record k { links = moved filed (list_of child) k.heads.readyqueue })
effect k none (some child) =
    let t = k.tasks child in
    (
      pos 0,
      record k {
        tasks = update k.tasks child (record t { pending_unblocks = suc_int t.pending_unblocks });
      },
    )
effect k none none = (neg 1, k)

outcome-effect :
    (k : Kernel) (b u : Option Ptr) → k.heads.readyqueue ≢ null → outcome k b u ≡ effect k b u
unfolding release_child credit_child update_process_state_rr
outcome-effect k (some child) u given =
    let there : (k.heads.readyqueue == null) ≡ false = ground (arith, given) in rw there refl
outcome-effect k none (some child) given = refl
outcome-effect k none none given = refl

-- Over two lists of fewer children than there are pages, and with a ready queue: where a blocked
-- child has the PID, `sys_unblock` returns 0, and the first such child is put at the end of the
-- unblocked children, taken out of the queue that it is in and put at the end of the ready queue,
-- with nothing but links changed; else, where an unblocked child has it, it returns 0, and
-- `pending_unblocks` of the first such child is one more, in 32 bits, with nothing else changed;
-- else it returns -1 and changes nothing.
pub sys_unblock_cases :
    (k : Kernel) (pid : ℤ) (bs us : List Ptr)
    → Children k bs us
    → k.heads.readyqueue ≢ null
    → sys_unblock k pid ≡ effect k (first_with k.tasks pid bs) (first_with k.tasks pid us)
sys_unblock_cases k pid bs us c given =
    sys_unblock-outcome k pid bs us c
    ∙ outcome-effect k (first_with k.tasks pid bs) (first_with k.tasks pid us) given

-- The same kernel with another process running.
abbrev pub running : Kernel → Ptr → Kernel
running k t = record k { current = t }

credit-block :
    (k : Kernel) (child p : Ptr)
    → pos 0 ≤ℤ (k.tasks child).pending_unblocks
    → ltb_ℤ (k.tasks child).pending_unblocks (pos int_max) ≡ true
    → let (r, k') = sys_block (running (credit_child k child) child) in
      (r ≡ pos 0)
      × (k'.current ≡ child)
      × (k'.links ≡ k.links)
      × ((k'.tasks p).pending_unblocks ≡ (k.tasks p).pending_unblocks)
unfolding sys_block credit_child
credit-block k child p h below = ground arith

-- Over two lists of fewer children than there are pages, after a process unblocks a child that is
-- not blocked, and whose `pending_unblocks` is not negative and below 2^31 - 1, that unblock is not
-- lost: the next `sys_block` of that child returns 0 at once, with the child running, the links of
-- all lists unchanged and the credit used up.
pub unblock-block :
    (k : Kernel) (pid : ℤ) (bs us : List Ptr) (child p : Ptr)
    → Children k bs us
    → first_with k.tasks pid bs ≡ none
    → first_with k.tasks pid us ≡ some child
    → pos 0 ≤ℤ (k.tasks child).pending_unblocks
    → ltb_ℤ (k.tasks child).pending_unblocks (pos int_max) ≡ true
    → let (r, k') = sys_block (running (sys_unblock k pid).1 child) in
      (r ≡ pos 0)
      × (k'.current ≡ child)
      × (k'.links ≡ k.links)
      × ((k'.tasks p).pending_unblocks ≡ (k.tasks p).pending_unblocks)
unblock-block k pid bs us child p c nb u h below =
    rw (sys_unblock-outcome k pid bs us c, nb, u) (credit-block k child p h below)
