-- ===== src/Sched/RoundRobin.antt =====
-- `schedule` against a round robin over a plain list of processes.
use zeos_soa.Prelude.{
  ℕ, ◌≡◌, refl, ◌≢◌, Bool, true, false, not, ◌&&◌, List, [], ◌∷◌, ◌++◌, if◌then◌else◌, has, ◌∈◌,
  ◌∉◌, Distinct, has-append, arith, Bool-cases, inl, inr, ap, ◌∙◌, subst,
}
use zeos_soa.Prelude.Int.{ℤ, pos, pred_ℤ, eq_ℤ, ltb_ℤ}
use zeos_soa.Lists.{Ptr, null, Links, list_del, list_add_tail, list_empty}
use zeos_soa.Lists.Rings.{IsRing}
use zeos_soa.Lists.Add.{list_add_tail-IsRing}
use zeos_soa.Lists.Remove.{list_del-IsRing, list_del-null}
use zeos_soa.Lists.Walk.{list_empty-nil, list_empty-cons}
use zeos_soa.Kernel.{Kernel, list_of}
use zeos_soa.Sched.{
  update_sched_data_rr, needs_sched_rr, update_process_state_rr, sched_next_rr, enter_next,
  schedule,
}
use zeos_soa.Sched.Switch.{
  IsDetached, unlink-detached, nodes, pick_next-cons, Entered, enter_next-Entered,
}

-- The abstract scheduler: who runs, who waits in which order, and the ticks that are left.
pub record View : Type 0 where
  pub running : Ptr
  pub ready : List Ptr
  pub left : ℤ

-- The first of a queue that is not empty; the queue of one has `last` alone.
abbrev pub rotate : (ready : List Ptr) → (last : Ptr) → Ptr × List Ptr
rotate [] last = (last, [])
rotate (t ∷ ts) last = (t, ts ++ last ∷ [])

abbrev pub is_nil : List Ptr → Bool
is_nil [] = true
is_nil (t ∷ ts) = false

-- One tick: the process that runs goes on while it has ticks left and somebody waits; else it goes
-- to the end of the queue, and the first of the queue runs for its own quantum.
unfoldable pub tick : (quantum : Ptr → ℕ) → View → View
tick quantum v =
    let left = pred_ℤ v.left in
    if ltb_ℤ (pos 0) left && not (is_nil v.ready)
    then record v { left = left }
    else let (next, rest) = rotate v.ready v.running in
      record { running = next; ready = rest; left = pos (quantum next) }

-- How a kernel stands for a view. The process that runs is in no queue, and no two processes that
-- run or wait have the same PID.
pub record Shows (pid : Ptr → ℤ) (quantum : Ptr → ℕ) (k : Kernel) (v : View) : Type 0 where
  pub running : k.current ≡ v.running
  pub left : k.remaining_quantum ≡ v.left
  pub ring : IsRing k.links k.heads.readyqueue (nodes v.ready)
  pub detached : IsDetached k.links (list_of v.running)
  pub outside : list_of v.running ∉ (k.heads.readyqueue ∷ nodes v.ready)
  pub head_given : k.heads.readyqueue ≢ null
  pub pids : (t : Ptr) → (k.tasks t).pid ≡ pid t
  pub quanta : (t : Ptr) → (k.tasks t).quantum ≡ quantum t
  pub different :
      (a b : Ptr)
      → a ∈ (v.running ∷ v.ready)
      → b ∈ (v.running ∷ v.ready)
      → eq_ℤ (pid a) (pid b) ≡ true
      → a ≡ b

pub nodes-snoc : (ts : List Ptr) (t : Ptr) → nodes (ts ++ t ∷ []) ≡ nodes ts ++ list_of t ∷ []
nodes-snoc [] t = refl
nodes-snoc (x ∷ xs) t = ap (λ r. list_of x ∷ r) (nodes-snoc xs t)

head_outside : (h y : Ptr) (ys : List Ptr) → Distinct (h ∷ y ∷ ys) → y ∉ (h ∷ ys)
head_outside h y ys d = ground arith

rotate-append :
    (ready : List Ptr) (last : Ptr)
    → ready ++ last ∷ [] ≡ (rotate ready last).0 ∷ (rotate ready last).1
rotate-append [] last = refl
rotate-append (t ∷ ts) last = refl

pub list_empty-is_nil :
    (l : Links) (h : Ptr) (ts : List Ptr) → IsRing l h (nodes ts) → list_empty l h ≡ is_nil ts
list_empty-is_nil l h [] r = list_empty-nil l h r
list_empty-is_nil l h (t ∷ ts) r = list_empty-cons l h (list_of t) r

-- Entering the first of a ready queue that is not empty.
module _ (pid : Ptr → ℤ) (quantum : Ptr → ℕ) where
  sched_next_rr-Shows :
      (k : Kernel) (t : Ptr) (ts : List Ptr)
      → IsRing k.links k.heads.readyqueue (nodes (t ∷ ts))
      → k.heads.readyqueue ≢ null
      → ((p : Ptr) → (k.tasks p).pid ≡ pid p)
      → ((p : Ptr) → (k.tasks p).quantum ≡ quantum p)
      → (eq_ℤ (pid k.current) (pid t) ≡ true → k.current ≡ t)
      → ((a b : Ptr) → a ∈ (t ∷ ts) → b ∈ (t ∷ ts) → eq_ℤ (pid a) (pid b) ≡ true → a ≡ b)
      → Shows pid quantum
          (sched_next_rr k)
          (record { running = t; ready = ts; left = pos (quantum t) })
  unfolding sched_next_rr
  sched_next_rr-Shows k t ts ring given ids qs same diff =
      let l = list_del k.links (list_of t) in
      let e : Entered k l t (enter_next k (l, t)) =
        enter_next-Entered k l t (λ h. same (rw (← ids k.current, ← ids t) h)) in
      let out = list_del-null k.links k.heads.readyqueue (list_of t) [] (nodes ts) ring in
      rw (pick_next-cons k t ts ring) (record {
        running = e.current;
        left = e.remaining ∙ ap pos (qs t);
        ring =
            rw (e.links, e.heads)
              (list_del-IsRing k.links k.heads.readyqueue (list_of t) [] (nodes ts) ring);
        detached = rw e.links (record { no_next = out.0; no_prev = out.1 });
        outside = rw e.heads (head_outside k.heads.readyqueue (list_of t) (nodes ts) ring.distinct);
        head_given = rw e.heads given;
        pids = λ p. e.pid p ∙ ids p;
        quanta = λ p. e.quantum p ∙ qs p;
        different = diff;
      })

  module _ (k : Kernel) (v : View) (s : Shows pid quantum k v) where
    -- The kernel with the running process at the end of the ready queue.
    queued : Kernel
    queued = update_process_state_rr (update_sched_data_rr k) k.current k.heads.readyqueue

    queued-links : queued.links ≡ list_add_tail k.links (list_of v.running) k.heads.readyqueue
    unfolding queued update_process_state_rr update_sched_data_rr
    queued-links =
        rw (s.running, unlink-detached k.links (list_of v.running) s.detached)
          (ground (arith, s.head_given))

    queued-IsRing : IsRing queued.links k.heads.readyqueue (nodes (v.ready ++ v.running ∷ []))
    queued-IsRing =
        rw (queued-links, nodes-snoc v.ready v.running)
          (list_add_tail-IsRing k.links (list_of v.running) k.heads.readyqueue s.ring s.outside)

    queued-Shows :
        (t : Ptr) (ts : List Ptr)
        → v.ready ++ v.running ∷ [] ≡ t ∷ ts
        → Shows pid quantum
            (sched_next_rr queued)
            (record { running = t; ready = ts; left = pos (quantum t) })
    unfolding queued update_process_state_rr update_sched_data_rr
    queued-Shows t ts e =
        sched_next_rr-Shows queued t ts
          (subst (λ r. IsRing queued.links k.heads.readyqueue (nodes r)) e queued-IsRing)
          s.head_given s.pids s.quanta
          (λ h.
            s.running
            ∙ s.different v.running t (ground arith) (member t (ground arith)) (rw (← s.running) h))
          (λ a b i j. s.different a b (member a i) (member b j))
      where
        member : (p : Ptr) → p ∈ (t ∷ ts) → p ∈ (v.running ∷ v.ready)
        member p i =
            let there : has p (v.ready ++ v.running ∷ []) ≡ true = rw e i in
            ground (arith, has-append p v.ready (v.running ∷ []))

    goes_on : Bool
    goes_on = ltb_ℤ (pos 0) (pred_ℤ v.left) && not (is_nil v.ready)

    needs_sched_rr-goes_on : needs_sched_rr (update_sched_data_rr k) ≡ not goes_on
    unfolding needs_sched_rr update_sched_data_rr goes_on
    needs_sched_rr-goes_on =
        rw (s.left, list_empty-is_nil k.links k.heads.readyqueue v.ready s.ring) refl

    stays : Shows pid quantum (update_sched_data_rr k) (record v { left = pred_ℤ v.left })
    unfolding update_sched_data_rr
    stays = record {
      running = s.running;
      left = ap pred_ℤ s.left;
      ring = s.ring;
      detached = s.detached;
      outside = s.outside;
      head_given = s.head_given;
      pids = s.pids;
      quanta = s.quanta;
      different = s.different;
    }

  -- `schedule` is a tick of a round robin over a plain list: for a kernel that stands for a view
  -- (the running process, in no queue, the ready ones in their order, the ticks left; no two of them
  -- with the same PID), the kernel that `schedule` leaves stands for the view that the tick leaves.
  pub schedule_refines :
      (k : Kernel) (v : View)
      → Shows pid quantum k v
      → Shows pid quantum (schedule k) (tick quantum v)
  unfolding schedule tick queued goes_on update_sched_data_rr
  schedule_refines k v s = elim (Bool-cases (goes_on k v s)) [
    | inl e ↦ rw (needs_sched_rr-goes_on k v s, e) (stays k v s)
    | inr e ↦
        rw (needs_sched_rr-goes_on k v s, e)
          (queued-Shows k v s (rotate v.ready v.running).0 (rotate v.ready v.running).1
            (rotate-append v.ready v.running))
  ]
