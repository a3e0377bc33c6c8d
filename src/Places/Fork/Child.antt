-- ===== src/Places/Fork/Child.antt =====
-- The child of `sys_fork` among the other processes.
use zeos_soa.Prelude.{
  ℕ, ◌+◌, ◌*◌, ◌≤◌, ◌<◌, ◌≡◌, refl, ◌≢◌, Bool, true, false, List, [], ◌∷◌, ◌++◌, map, has-append,
  ◌==◌, ◌∈◌, ◌∉◌, arith, Bool-cases, inl, inr, ◌∙◌, ap, sym, subst,
}
use zeos_soa.Prelude.Int.{ℤ, pos, suc_ℤ, ltb_ℤ, eq_ℤ}
use zeos_soa.Lists.{Ptr, null, Links, init_list_head, list_add_tail}
use zeos_soa.Frames.Alloc.{alloc_frame-Taken}
use zeos_soa.Paging.{page_size}
use zeos_soa.Kernel.{Heads, Kernel, list_of, sibling_of, children_blocked_of, children_unblocked_of}
use zeos_soa.Calls.Process.{sys_fork, start_child, alloc_pcb}
use zeos_soa.Places.{Place, Map, Known, same_place, put, node_of, head_of}
use zeos_soa.Places.Held.{
  Held, Free, list_add_tail-Held, list_add_tail-keeps_Free, list_add_tail-keeps_out,
}
use zeos_soa.Places.World.{Census, World, join, with_child, on_fork}
use zeos_soa.Places.Stands.{Counts, Families, Stands, in_queue}
use zeos_soa.Places.Fork.Copied.{Besides, copied, with_copy, sys_fork-Copied}
use zeos_soa.Places.Fork.Born.{HasRoom, born, born-Held, born-out, born-keeps_Free}

different : {b : Bool} → b ≡ true → b ≡ false → ⊥
different e f = cc

-- The families with the child `p` of `r`.
module _ (c : Census) (w : World) (p : Ptr) (pid : ℤ) (f : Families c w.at)
    (fresh : p ∉ c.processes) (r_known : w.running ∈ c.processes)
    (queued : (t : Ptr) → in_queue c w.at t ≡ true → t ∈ c.processes) where
  abbrev c' : Census
  c' = with_child c w.running p pid

  other : (t : Ptr) → t ∈ c.processes → (t == p) ≡ false
  other t i = elim (Bool-cases (t == p)) [
    | inl e ↦ let same : t ≡ p = ground arith in absurd (ground (arith, i, fresh, same))
    | inr e ↦ e
  ]

  r_other : (p == w.running) ≡ false
  r_other = elim (Bool-cases (p == w.running)) [
    | inl e ↦
        let same : p ≡ w.running = ground arith in absurd (ground (arith, r_known, fresh, same))
    | inr e ↦ e
  ]

  -- The parent of a process that there was is another one that there was.
  parent_other : (t : Ptr) → t ∈ c.processes → c.parent t ≢ null → (p == c.parent t) ≡ false
  parent_other t i h = elim (Bool-cases (p == c.parent t)) [
    | inl e ↦
        let same : p ≡ c.parent t = ground arith in
        absurd (ground (arith, f.parent_known t i h, fresh, same))
    | inr e ↦ e
  ]

  child-Families : Families c' (on_fork w p).at
  unfolding with_child on_fork join put same_place
  child-Families = record {
    blocked_are = λ q t i k. elim (Bool-cases (p == q)) [
      | inl e ↦ absurd (ground (arith, rw e at i))
      | inr e ↦
          let (m, v, par) = f.blocked_are q t (rw e at i) (ground (arith, k, e)) in
          (ground (arith, m), v, rw (other t m) par)
    ];
    unblocked_are = λ q t i k. elim (Bool-cases (w.running == q)) [
      | inl e ↦
          let same : w.running ≡ q = ground arith in
          let j : t ∈ (w.at (Place.unblocked_children w.running) ++ p ∷ []) =
            rw (e, r_other) at i in
          elim (Bool-cases (t == p)) [
            | inl h ↦ (ground (arith, h), rw h same)
            | inr h ↦
                let (m, par) =
                  f.unblocked_are w.running t
                    (ground (
                      arith,
                      j,
                      h,
                      has-append t (w.at (Place.unblocked_children w.running)) (p ∷ []),
                    ))
                    r_known in
                (ground (arith, m), rw h (par ∙ same))
          ]
      | inr e ↦ elim (Bool-cases (p == q)) [
        | inl h ↦ absurd (ground (arith, rw (e, h) at i))
        | inr h ↦
            let (m, par) = f.unblocked_are q t (rw (e, h) at i) (ground (arith, k, h)) in
            (ground (arith, m), rw (other t m) par)
      ]
    ];
    parent_known = λ t k h. elim (Bool-cases (t == p)) [
      | inl e ↦
          let eq : c'.parent t ≡ w.running = rw e refl in
          let there : w.running ∈ (p ∷ c.processes) = ground (arith, r_known) in
          subst (λ q. q ∈ (p ∷ c.processes)) (sym eq) there
      | inr e ↦
          let eq : c'.parent t ≡ c.parent t = rw e refl in
          let old = f.parent_known t (ground (arith, k, e)) (rw e at h) in
          let there : c.parent t ∈ (p ∷ c.processes) = ground (arith, old) in
          subst (λ q. q ∈ (p ∷ c.processes)) (sym eq) there
    ];
    blocked_there = λ t k h i.
        let m = queued t (ground (arith, i)) in
        let h' = rw (other t m) at h in
        rw (other t m, parent_other t m h') (f.blocked_there t m h' i);
    unblocked_there = λ t k h o. elim (Bool-cases (t == p)) [
      | inl e ↦
          let same : t ≡ p = ground arith in
          let here : (w.running == w.running) ≡ true = ground arith in
          rw (e, here, r_other, same)
            (ground (arith, has-append p (w.at (Place.unblocked_children w.running)) (p ∷ [])))
      | inr e ↦
          let m : t ∈ c.processes = ground (arith, k, e) in
          let h' = rw e at h in
          let old = f.unblocked_there t m h' o in
          elim (Bool-cases (w.running == c.parent t)) [
            | inl q ↦
                let same : w.running ≡ c.parent t = ground arith in
                rw (e, q, r_other, same)
                  (ground (
                    arith,
                    old,
                    has-append t (w.at (Place.unblocked_children (c.parent t))) (p ∷ []),
                  ))
            | inr q ↦ rw (e, q, parent_other t m h') old
          ]
    ];
  }

module _ (c : Census) (k : Kernel) (w : World) (s : Stands c k w) (limit f : ℕ)
    (room : HasRoom k.heads k.links c.processes limit f) (pid : ℤ)
    (fresh_pid : (t : Ptr) → t ∈ c.processes → eq_ℤ (c.pid t) pid ≡ false)
    (fresh_pid' : (t : Ptr) → t ∈ c.processes → eq_ℤ pid (c.pid t) ≡ false) where
  abbrev block : Ptr
  block = f * 4096

  abbrev r : Ptr
  r = w.running

  known : r ∈ c.processes
  known = rw (← s.running) s.counts.current_known

  inside : (x : Place) (t : Ptr) → Known c.processes x → t ∈ w.at x → t ∈ c.processes
  inside Place.ready t k i = s.queued t (ground (arith, i))
  inside Place.waiting t k i = s.queued t (ground (arith, i))
  inside Place.readers t k i = s.queued t (ground (arith, i))
  inside (Place.blocked_children q) t k i = (s.families.blocked_are q t i k).0
  inside (Place.unblocked_children q) t k i = (s.families.unblocked_are q t i k).0

  -- The links with the child among the children of its parent, and among the ready processes.
  abbrev base : Links
  base = born k.heads k.links r block

  abbrev filed : Links
  filed = list_add_tail base (sibling_of block) (children_unblocked_of r)

  abbrev all : Links
  all = list_add_tail filed (list_of block) k.heads.readyqueue

  abbrev none_at : Map
  none_at = put (put w.at (Place.blocked_children block) []) (Place.unblocked_children block) []

  abbrev filed_at : Map
  filed_at = join none_at (Place.unblocked_children r) block

  ps' : List Ptr
  ps' = block ∷ c.processes

  r_known : r ∈ ps'
  unfolding ps'
  r_known = ground (arith, known)

  base-Held : Held k.heads ps' base none_at
  unfolding ps'
  base-Held = born-Held k.heads k.links c.processes limit f r room w.at s.held inside

  base-out :
      (o : ℕ)
      → o < 4096
      → o ≢ 20
      → o ≢ 28
      → (x : Place) → Known ps' x
      → block + o ∉ (head_of k.heads x ∷ map (node_of x) (none_at x))
  unfolding ps'
  base-out = born-out k.heads k.links c.processes limit f r room w.at s.held inside

  filed-Held : Held k.heads ps' filed filed_at
  unfolding join node_of head_of
  filed-Held =
      list_add_tail-Held k.heads ps' base none_at (Place.unblocked_children r) block r_known
        base-Held (base-out 36 (omega arith) (ground arith) (ground arith))

  filed-out :
      (x : Place) → Known ps' x → list_of block ∉ (head_of k.heads x ∷ map (node_of x) (filed_at x))
  unfolding join node_of head_of
  filed-out =
      list_add_tail-keeps_out k.heads ps' base none_at (Place.unblocked_children r) block r_known
        base-Held (base-out 36 (omega arith) (ground arith) (ground arith)) (list_of block)
        (λ e. omega (arith, e)) (base-out 8 (omega arith) (ground arith) (ground arith))

  all-Held : Held k.heads ps' all (on_fork w block).at
  unfolding join node_of head_of on_fork
  all-Held = list_add_tail-Held k.heads ps' filed filed_at Place.ready block tt filed-Held filed-out

  all-keeps_Free :
      (t : Ptr)
      → t ∈ c.processes
      → Free k.heads c.processes k.links w.at (list_of t)
      → Free k.heads ps' all (on_fork w block).at (list_of t)
  unfolding join node_of head_of on_fork ps'
  all-keeps_Free t i free =
      let fresh = room.fresh in
      let apart : t ≢ block = λ e. ground (arith, i, fresh, e) in
      let low = room.aligned t i in
      list_add_tail-keeps_Free k.heads ps' filed filed_at Place.ready block tt filed-Held filed-out
        (list_of t) (λ e. apart (omega (arith, e)))
        (list_add_tail-keeps_Free k.heads ps' base none_at (Place.unblocked_children r) block
          r_known base-Held (base-out 36 (omega arith) (ground arith) (ground arith)) (list_of t)
          (λ e. omega (arith, e, low))
          (born-keeps_Free k.heads k.links c.processes limit f r room w.at s.held inside t i free))

  module _ (ret : ℕ) (k' : Kernel) (copy : Besides block (with_copy k block) k')
      (same_pid : suc_ℤ k.pid_global ≡ pid) where
    abbrev after : Kernel
    after = start_child ret k' block

    after-links : after.links ≡ all
    unfolding start_child
    after-links =
        let from = λ (l : Links).
          init_list_head (init_list_head l (children_blocked_of block))
            (children_unblocked_of block) in
        let to = λ (l : Links) (q : Ptr) (h : Heads).
          list_add_tail (list_add_tail (from l) (sibling_of block) (children_unblocked_of q))
            (list_of block) h.readyqueue in
        ap (λ l. to l k'.current k'.heads) copy.links
        ∙ ap (λ q. to (copied k.heads k.links k.current block) q k'.heads)
            (copy.current ∙ s.running)
        ∙ ap (λ h. to (copied k.heads k.links k.current block) r h) copy.heads
        ∙ ap (λ q. to (copied k.heads k.links q block) r k.heads) s.running

    after-heads : after.heads ≡ k.heads
    unfolding start_child
    after-heads = copy.heads

    after-old : (t : Ptr) → t ≢ block → after.tasks t ≡ k.tasks t
    unfolding start_child
    after-old t ne =
        let test : (block == t) ≡ false = ground (arith, ne) in
        rw test (copy.tasks t ne ∙ rw test refl)

    after-new :
        ((after.tasks block).parent ≡ r)
        × ((after.tasks block).pid ≡ pid)
        × ((after.tasks block).quantum ≡ 10)
    unfolding start_child
    after-new =
        let test : (block == block) ≡ true = ground arith in
        (
          rw test (copy.current ∙ s.running),
          rw test (ap suc_ℤ copy.pid_global ∙ same_pid),
          rw test refl,
        )

    -- A process that there was is not the child.
    not_block : (t : Ptr) → t ∈ c.processes → t ≢ block
    not_block t i e = let fresh = room.fresh in ground (arith, i, fresh, e)

    after-Counts : Counts (with_child c r block pid) after
    unfolding with_child start_child
    after-Counts = record {
      idle = copy.idle_task ∙ s.counts.idle;
      idle_known = ground (arith, s.counts.idle_known);
      current_known =
          subst (λ q. q ∈ (block ∷ c.processes)) (sym (copy.current ∙ s.running))
            (ground (arith, known));
      parents = λ t i. elim (Bool-cases (t == block)) [
        | inl e ↦
            let same : t ≡ block = ground arith in
            rw e (ap (λ u. (after.tasks u).parent) same ∙ after-new.0)
        | inr e ↦
            let m : t ∈ c.processes = ground (arith, i, e) in
            rw e (ap (λ u. u.parent) (after-old t (not_block t m)) ∙ s.counts.parents t m)
      ];
      pids = λ t i. elim (Bool-cases (t == block)) [
        | inl e ↦
            let same : t ≡ block = ground arith in
            rw e (ap (λ u. (after.tasks u).pid) same ∙ after-new.1)
        | inr e ↦
            let m : t ∈ c.processes = ground (arith, i, e) in
            rw e (ap (λ u. u.pid) (after-old t (not_block t m)) ∙ s.counts.pids t m)
      ];
      quanta = λ t i. elim (Bool-cases (t == block)) [
        | inl e ↦
            let same : t ≡ block = ground arith in
            rw e (ap (λ u. (after.tasks u).quantum) same ∙ after-new.2)
        | inr e ↦
            let m : t ∈ c.processes = ground (arith, i, e) in
            rw e (ap (λ u. u.quantum) (after-old t (not_block t m)) ∙ s.counts.quanta t m)
      ];
      different = λ a b i j e. elim (Bool-cases (a == block)) [
        | inl x ↦ elim (Bool-cases (b == block)) [
          | inl y ↦ ground arith
          | inr y ↦
              let clash = fresh_pid' b (ground (arith, j, y)) in
              let same : eq_ℤ pid (c.pid b) ≡ true = rw (x, y) at e in absurd (different same clash)
        ]
        | inr x ↦ elim (Bool-cases (b == block)) [
          | inl y ↦
              let clash = fresh_pid a (ground (arith, i, x)) in
              let same : eq_ℤ (c.pid a) pid ≡ true = rw (x, y) at e in absurd (different same clash)
          | inr y ↦
              s.counts.different a b (ground (arith, i, x)) (ground (arith, j, y)) (rw (x, y) at e)
        ]
      ];
      ready_given = rw copy.heads s.counts.ready_given;
      waiting_given = rw copy.heads s.counts.waiting_given;
      readers_given = rw copy.heads s.counts.readers_given;
    }

    after-Held : Held after.heads ps' after.links (on_fork w block).at
    after-Held = rw (after-links, after-heads) all-Held

    after-Free :
        (t : Ptr)
        → t ∈ c.processes
        → Free k.heads c.processes k.links w.at (list_of t)
        → Free after.heads ps' after.links (on_fork w block).at (list_of t)
    after-Free t i free = rw (after-links, after-heads) (all-keeps_Free t i free)

    pub after-Stands : Stands (with_child c r block pid) after (on_fork w block)
    unfolding with_child start_child on_fork join put same_place ps'
    after-Stands = record {
      counts = after-Counts;
      running = copy.current ∙ s.running;
      left = copy.remaining ∙ s.left;
      held = after-Held;
      running_free = after-Free r known s.running_free;
      idle = elim s.idle [
        | inl h ↦ inl h
        | inr (inl i) ↦
            inr (inl (ground (arith, i, has-append c.idle (w.at Place.ready) (block ∷ []))))
        | inr (inr g) ↦ inr (inr (after-Free c.idle s.counts.idle_known g))
      ];
      placed = λ t i. elim (Bool-cases (t == block)) [
        | inl e ↦ ground (arith, e, has-append t (w.at Place.ready) (block ∷ []))
        | inr e ↦
            ground (
              arith,
              s.placed t (ground (arith, i, e)),
              has-append t (w.at Place.ready) (block ∷ []),
            )
      ];
      queued = λ t i. elim (Bool-cases (t == block)) [
        | inl e ↦ ground (arith, e)
        | inr e ↦
            let old =
              s.queued t (ground (arith, i, e, has-append t (w.at Place.ready) (block ∷ []))) in
            ground (arith, old)
      ];
      families = child-Families c w block pid s.families room.fresh known s.queued;
    }

-- What a call of `sys_fork` needs for its child: a place for its block, and a PID of its own.
pub record CanFork (c : Census) (k : Kernel) : Type 0 where
  pub room :
      (f : ℕ)
      → k.frames.last_kernel ≤ f
      → k.frames.phys_mem f ≡ 0
      → HasRoom k.heads k.links c.processes (k.frames.last_kernel * 4096) f
  pub fresh_pid : (t : Ptr) → t ∈ c.processes → eq_ℤ (c.pid t) (suc_ℤ k.pid_global) ≡ false
  pub fresh_pid' : (t : Ptr) → t ∈ c.processes → eq_ℤ (suc_ℤ k.pid_global) (c.pid t) ≡ false

-- For a kernel that stands for a world of places, with room for the blocks of children, and a PID
-- that no process has, a call of `sys_fork` that does not fail returns the PID that follows on the
-- last one; the block of the child is not that of a process; and the kernel after it stands for the
-- world in which the child, with the running process as its parent, is the last of the ready queue
-- and of the unblocked children of its parent, with no children of its own, and every other process
-- is where it was.
pub sys_fork-Stands :
    (ret : ℕ) (c : Census) (k : Kernel) (w : World)
    → Stands c k w
    → CanFork c k
    → ltb_ℤ (sys_fork ret k).0 (pos 0) ≡ false
    → let p = (alloc_pcb k).0 in
      ((sys_fork ret k).0 ≡ suc_ℤ k.pid_global)
      × (p ∉ c.processes)
      × Stands (with_child c k.current p (suc_ℤ k.pid_global)) (sys_fork ret k).1 (on_fork w p)
sys_fork-Stands ret c k w s can good =
    let (f, g, k', al, at, copy, eq) = sys_fork-Copied ret k good in
    let taken = alloc_frame-Taken k.frames g f al in
    let room = can.room f taken.above taken.was_free in
    let stands =
      after-Stands c k w s (k.frames.last_kernel * 4096) f room (suc_ℤ k.pid_global) can.fresh_pid
        can.fresh_pid' ret k' copy refl in
    (
      ap (λ x. x.0) eq,
      subst (λ p. p ∉ c.processes) (sym at) room.fresh,
      subst
          (λ p.
            Stands (with_child c k.current p (suc_ℤ k.pid_global)) (sys_fork ret k).1 (on_fork w p))
          (sym at)
          (subst
            (λ q.
              Stands (with_child c q (f * page_size) (suc_ℤ k.pid_global)) (sys_fork ret k).1
                (on_fork w (f * page_size)))
            (sym s.running)
            (subst
              (λ x.
                Stands (with_child c w.running (f * page_size) (suc_ℤ k.pid_global)) x.1
                  (on_fork w (f * page_size)))
              (sym eq) stands)),
    )
