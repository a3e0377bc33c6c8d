-- ===== src/Places/Fork/Runs.antt =====
-- Every sequence of interrupts and system calls, with the creation of processes.
use zeos_soa.Prelude.{ℕ, suc, ◌<◌, ◌≡◌, false, length}
use zeos_soa.Prelude.Int.{pos, suc_ℤ, ltb_ℤ}
use zeos_soa.Frames.{total_pages}
use zeos_soa.Kernel.{Kernel}
use zeos_soa.Calls.Process.{sys_fork, alloc_pcb}
use zeos_soa.Places.World.{Census, World, with_child, on_fork}
use zeos_soa.Places.Stands.{Stands}
use zeos_soa.Places.Ticks.{ShowsOnly}
use zeos_soa.Places.Reach.{Step, Step-Move}
use zeos_soa.Places.Once.{OnePlace, Stands-OnePlace}
use zeos_soa.Places.Fork.Child.{CanFork, sys_fork-Stands}

-- A kernel with its census after steps that begin no process, and calls of `sys_fork` that do not fail.
module _ (show_clock : Kernel → Kernel) (beyond : ℕ → ℕ) where
  pub data Run (c : Census) (k : Kernel) : Census → Kernel → Type 0 where
    begin : Run c k c k
    go : {d : Census} {m n : Kernel} → Run c k d m → Step show_clock beyond m n → Run c k d n
    fork :
        {d : Census} {m : Kernel} (ret : ℕ)
        → Run c k d m
        → CanFork d m
        → suc (length d.processes) < total_pages
        → ltb_ℤ (sys_fork ret m).0 (pos 0) ≡ false
        → Run c k (with_child d m.current (alloc_pcb m).0 (suc_ℤ m.pid_global)) (sys_fork ret m).1

  module _ (only : ShowsOnly show_clock) where
    Run-Stands :
        (c : Census) (k : Kernel) (w : World) (d : Census) (m : Kernel)
        → length c.processes < total_pages
        → Stands c k w
        → Run c k d m
        → (length d.processes < total_pages) × ((v : World) × Stands d m v)
    unfolding with_child
    Run-Stands c k w d m bound s begin = (bound, (w, s))
    Run-Stands c k w d m bound s (go run st) =
        let (few, (v, t)) = Run-Stands c k w d _ bound s run in
        let (v', moved, t') = Step-Move show_clock beyond d only few _ m v t st in (few, (v', t'))
    Run-Stands c k w d m bound s (fork {d = e} {m = n} ret run can few good) =
        let (before, (v, t)) = Run-Stands c k w e n bound s run in
        let (pid, fresh, t') = sys_fork-Stands ret e n v t can good in
        (few, (on_fork v (alloc_pcb n).0, t'))

-- From a kernel that stands for a world, with fewer processes than there are pages.
pub Run-OnePlace :
    (show_clock : Kernel → Kernel) (beyond : ℕ → ℕ) (c d : Census) (k m : Kernel) (w : World)
    → ShowsOnly show_clock
    → length c.processes < total_pages
    → Stands c k w
    → Run show_clock beyond c k d m
    → OnePlace d m
Run-OnePlace show_clock beyond c d k m w only bound s run =
    let (few, (v, t)) = Run-Stands show_clock beyond only c k w d m bound s run in
    Stands-OnePlace d m v t
