-- ===== src/Tests/Worlds.antt =====
-- The theorems on the places of processes, applied to the kernel that the start leaves.
use zeos_soa.Prelude.{ℕ, ◌+◌, ◌<◌, refl, length, arith}
use zeos_soa.Kernel.{Kernel}
use zeos_soa.Frames.{total_pages}
use zeos_soa.Boot.{kernel_start}
use zeos_soa.Sched.{clock_routine}
use zeos_soa.Interrupts.{keyboard_routine}
use zeos_soa.Start.{init_kernel, main}
use zeos_soa.Start.Places.{LaidOut, first_two}
use zeos_soa.Start.Standing.{started, start_world, init_kernel-Stands}
use zeos_soa.Start.Reached.{main-OnePlace}
use zeos_soa.Places.World.{Census}
use zeos_soa.Places.Stands.{Stands}
use zeos_soa.Places.Reach.{clock, key, Step-Move, Moved}
use zeos_soa.Places.Once.{OnePlace}
use zeos_soa.Places.Fork.Runs.{Run, begin, go}
use zeos_soa.Tests.Starts.{fresh, show, system, stubs, addresses}

fresh-LaidOut : LaidOut fresh.heads (kernel_start + 0x4000 + 0x2000)
fresh-LaidOut = record {
  tasks_low = omega arith;
  ready_low = omega arith;
  blocked_low = omega arith;
  readers_low = omega arith;
  ready_given = ground arith;
  blocked_given = ground arith;
  readers_given = ground arith;
  tasks_ready = ground arith;
  tasks_blocked = ground arith;
  tasks_readers = ground arith;
  ready_blocked = ground arith;
  ready_readers = ground arith;
  blocked_readers = ground arith;
}

-- The kernel behind `init_kernel`, with the initial process running.
begun : Kernel
begun = started (init_kernel show 0x1234 0x4000 0x2000 fresh)

census : Census
census = first_two begun.idle_task begun.init_task

begun-Stands : Stands census begun (start_world begun)
unfolding begun census
begun-Stands = init_kernel-Stands show 0x1234 0x4000 0x2000 fresh refl (omega arith) fresh-LaidOut

few : length census.processes < total_pages
unfolding census
few = omega arith

-- A clock that shows nothing, and nothing behind the table of characters.
abbrev no_clock : Kernel → Kernel
no_clock k = k

abbrev nothing : ℕ → ℕ
nothing i = 0

-- A tick, and the key of the letter a.
abbrev ticked : Kernel → Kernel
ticked k = clock_routine no_clock k

abbrev typed : Kernel → Kernel
typed k = keyboard_routine nothing (ticked k) 0x1e

two_steps : (c : Census) (k : Kernel) → Run no_clock nothing c k c (typed k)
two_steps c k = go (go begin clock) (key 0x1e)

Step-Move_example : Moved no_clock nothing census (λ k. refl) few (start_world begun) (ticked begun)
Step-Move_example =
    Step-Move no_clock nothing census (λ k. refl) few begun (ticked begun) (start_world begun)
      begun-Stands clock

main-OnePlace_example :
    let k' = (main stubs addresses (λ m. m) show 0x1234 0x4000 0x2000 system).1.kernel in
    OnePlace (first_two k'.idle_task k'.init_task) (typed (started k'))
main-OnePlace_example =
    let k' = (main stubs addresses (λ m. m) show 0x1234 0x4000 0x2000 system).1.kernel in
    main-OnePlace stubs addresses (λ m. m) show 0x1234 0x4000 0x2000 system no_clock nothing
      (first_two k'.idle_task k'.init_task) (typed (started k')) refl (omega arith) fresh-LaidOut
      (λ k. refl) (two_steps (first_two k'.idle_task k'.init_task) (started k'))
