-- ===== src/Places/Stands.antt =====
-- When a kernel stands for a world: its links hold the places, and the places agree with one another.
use zeos_soa.Prelude.{◌≡◌, ◌≢◌, Bool, true, ◌||◌, ◌==◌, ◌∈◌, ◌∉◌, has, ◌⊎◌}
use zeos_soa.Prelude.Int.{eq_ℤ}
use zeos_soa.Lists.{Ptr, null}
use zeos_soa.Kernel.{Kernel, list_of}
use zeos_soa.Places.{Place, Map}
use zeos_soa.Places.Held.{Held, Free}
use zeos_soa.Places.World.{Census, World}

module _ (c : Census) where
  -- The kernel has the processes of the census; no two of them have the same PID.
  pub record Counts (k : Kernel) : Type 0 where
    pub idle : k.idle_task ≡ c.idle
    pub idle_known : c.idle ∈ c.processes
    pub current_known : k.current ∈ c.processes
    pub parents : (t : Ptr) → t ∈ c.processes → (k.tasks t).parent ≡ c.parent t
    pub pids : (t : Ptr) → t ∈ c.processes → (k.tasks t).pid ≡ c.pid t
    pub quanta : (t : Ptr) → t ∈ c.processes → (k.tasks t).quantum ≡ c.quantum t
    pub different :
        (a b : Ptr) → a ∈ c.processes → b ∈ c.processes → eq_ℤ (c.pid a) (c.pid b) ≡ true → a ≡ b
    pub ready_given : k.heads.readyqueue ≢ null
    pub waiting_given : k.heads.blocked ≢ null
    pub readers_given : k.heads.kbd_blocked ≢ null

  -- Whether a process is in one of the queues.
  abbrev pub in_queue : Map → Ptr → Bool
  in_queue at t = has t (at Place.ready) || has t (at Place.waiting) || has t (at Place.readers)

  -- A process that has a parent is one of its blocked children while it is blocked, and else one of its
  -- unblocked children; the children of a process are no others.
  pub record Families (at : Map) : Type 0 where
    pub blocked_are :
        (p t : Ptr)
        → t ∈ at (Place.blocked_children p)
        → p ∈ c.processes
        → (t ∈ c.processes) × (t ∈ at Place.waiting) × (c.parent t ≡ p)
    pub unblocked_are :
        (p t : Ptr)
        → t ∈ at (Place.unblocked_children p)
        → p ∈ c.processes
        → (t ∈ c.processes) × (c.parent t ≡ p)
    pub parent_known : (t : Ptr) → t ∈ c.processes → c.parent t ≢ null → c.parent t ∈ c.processes
    pub blocked_there :
        (t : Ptr)
        → t ∈ c.processes
        → c.parent t ≢ null
        → t ∈ at Place.waiting
        → t ∈ at (Place.blocked_children (c.parent t))
    pub unblocked_there :
        (t : Ptr)
        → t ∈ c.processes
        → c.parent t ≢ null
        → t ∉ at Place.waiting
        → t ∈ at (Place.unblocked_children (c.parent t))

  pub Families-same :
      (at at' : Map)
      → at' Place.waiting ≡ at Place.waiting
      → ((p : Ptr) → at' (Place.blocked_children p) ≡ at (Place.blocked_children p))
      → ((p : Ptr) → at' (Place.unblocked_children p) ≡ at (Place.unblocked_children p))
      → Families at
      → Families at'
  Families-same at at' w b u f = record {
    blocked_are = λ p t i. rw w (f.blocked_are p t (rw (← b p) i));
    unblocked_are = λ p t i. f.unblocked_are p t (rw (← u p) i);
    parent_known = f.parent_known;
    blocked_there = λ t k h i. rw (b (c.parent t)) (f.blocked_there t k h (rw (← w) i));
    unblocked_there = λ t k h o. rw (u (c.parent t)) (f.unblocked_there t k h (rw (← w) o));
  }

  -- A kernel between two processes: every process but the idle one is in a queue.
  pub record Parked (k : Kernel) (at : Map) : Type 0 where
    pub counts : Counts k
    pub held : Held k.heads c.processes k.links at
    pub idle : (c.idle ∈ at Place.ready) ⊎ Free k.heads c.processes k.links at (list_of c.idle)
    pub placed : (t : Ptr) → t ∈ c.processes → ((t == c.idle) || in_queue at t) ≡ true
    pub queued : (t : Ptr) → in_queue at t ≡ true → t ∈ c.processes
    pub families : Families at

  -- A kernel with a process that runs: it is in no queue, and every other one but the idle one is.
  pub record Stands (k : Kernel) (w : World) : Type 0 where
    pub counts : Counts k
    pub running : k.current ≡ w.running
    pub left : k.remaining_quantum ≡ w.left
    pub held : Held k.heads c.processes k.links w.at
    pub running_free : Free k.heads c.processes k.links w.at (list_of w.running)
    pub idle :
        (c.idle ≡ w.running)
        ⊎ (c.idle ∈ w.at Place.ready)
        ⊎ Free k.heads c.processes k.links w.at (list_of c.idle)
    pub placed :
        (t : Ptr) → t ∈ c.processes → ((t == c.idle) || (t == w.running) || in_queue w.at t) ≡ true
    pub queued : (t : Ptr) → in_queue w.at t ≡ true → t ∈ c.processes
    pub families : Families w.at
