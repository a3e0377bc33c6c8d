-- ===== src/Places/World.antt =====
-- The kernel's processes without links and registers: who runs, and who stands where; and what the clock,
-- the keyboard, `sys_read`, `sys_block` and `sys_unblock` do to that.
use zeos_soa.Prelude.{
  ℕ, Bool, not, ◌&&◌, List, [], ◌∷◌, ◌++◌, ◌==◌, Option, some, none, if◌then◌else◌,
}
use zeos_soa.Prelude.Int.{ℤ, pos, pred_ℤ, ltb_ℤ}
use zeos_soa.Lists.{Ptr, null}
use zeos_soa.Sched.RoundRobin.{is_nil}
use zeos_soa.Places.{Map, Place, put}

-- What does not change while no process begins or ends: the processes, the idle one, and of each its
-- parent (or NULL), its PID and its quantum.
pub record Census : Type 0 where
  pub processes : List Ptr
  pub idle : Ptr
  pub parent : Ptr → Ptr
  pub pid : Ptr → ℤ
  pub quantum : Ptr → ℕ

pub record World : Type 0 where
  pub at : Map
  pub running : Ptr
  pub left : ℤ

-- A list without the first `t` in it.
unfoldable pub without : Ptr → List Ptr → List Ptr
without t [] = []
without t (x ∷ xs) = let rest = x ∷ without t xs in if t == x then xs else rest

unfoldable pub join : Map → Place → Ptr → Map
join at x t = put at x (at x ++ t ∷ [])

unfoldable pub leave : Map → Place → Ptr → Map
leave at x t = put at x (without t (at x))

module _ (c : Census) where
  -- The first of the ready processes runs next, for its own quantum; the idle one where there is none.
  unfoldable pub next_of : Map → (queue : List Ptr) → World
  next_of at [] = record { at = at; running = c.idle; left = pos (c.quantum c.idle) }
  next_of at (t ∷ ts) = record { at = put at Place.ready ts; running = t; left = pos (c.quantum t) }

  unfoldable pub enter : Map → World
  enter at = next_of at (at Place.ready)

  unfoldable pub on_tick : World → World
  on_tick w =
      let left = pred_ℤ w.left in
      if ltb_ℤ (pos 0) left && not (is_nil (w.at Place.ready))
      then record w { left = left }
      else enter (join w.at Place.ready w.running)

  -- The first reader becomes ready.
  unfoldable pub wake_first : (enough : Ptr → Bool) → World → (queue : List Ptr) → World
  wake_first enough w [] = w
  wake_first enough w (t ∷ ts) =
      if enough t then record w { at = join (put w.at Place.readers ts) Place.ready t } else w

  unfoldable pub on_wake : (enough : Ptr → Bool) → World → World
  on_wake enough w = wake_first enough w (w.at Place.readers)

  unfoldable pub on_read : World → World
  on_read w = enter (join w.at Place.readers w.running)

  -- A process that blocks goes to the blocked children of its parent.
  unfoldable pub filed : Map → Ptr → Map
  filed at t =
      if c.parent t == null
      then at
      else join (leave at (Place.unblocked_children (c.parent t)) t)
          (Place.blocked_children (c.parent t)) t

  unfoldable pub on_block : World → World
  on_block w = enter (join (filed w.at w.running) Place.waiting w.running)

  -- A blocked child of the running process goes to its other children, and to the ready ones.
  unfoldable pub on_release : World → Ptr → World
  on_release w t =
      let at =
        join (leave w.at (Place.blocked_children w.running) t) (Place.unblocked_children w.running)
          t in
      record w { at = join (leave at Place.waiting t) Place.ready t }

  -- What is found among the blocked children of the running process is released.
  unfoldable pub on_unblock : World → (found : Option Ptr) → World
  on_unblock w (some t) = on_release w t
  on_unblock w none = w

-- A child `p` of `r`, with its own PID and a quantum of 10, joins the processes.
unfoldable pub with_child : Census → (r p : Ptr) → (pid : ℤ) → Census
with_child c r p pid = record {
  processes = p ∷ c.processes;
  idle = c.idle;
  parent = λ t. if t == p then r else c.parent t;
  pid = λ t. if t == p then pid else c.pid t;
  quantum = λ t. if t == p then 10 else c.quantum t;
}

-- It has no children, is the last child of the running process, and the last of the ready ones.
unfoldable pub on_fork : World → Ptr → World
on_fork w p =
    let at = put (put w.at (Place.blocked_children p) []) (Place.unblocked_children p) [] in
    record w { at = join (join at (Place.unblocked_children w.running) p) Place.ready p }
