-- ===== src/Tests/Processes.antt =====
-- The theorems on processes, applied to `Kernels.kernel`.
use zeos_soa.Prelude.{ℕ, ◌+◌, ◌*◌, ◌≤◌, ◌≡◌, refl, List, [], ◌∷◌, ◌++◌, length, arith}
use zeos_soa.Prelude.Int.{ℤ, pos}
use zeos_soa.Lists.{Ptr}
use zeos_soa.Lists.Rings.{IsRing}
use zeos_soa.Keyboard.Queue.{contents}
use zeos_soa.Kernel.{Kernel, children_blocked_of, children_unblocked_of}
use zeos_soa.Sched.{schedule, kbd_buf_write}
use zeos_soa.Sched.Switch.{nodes, IsLoaded, schedule-IsLoaded}
use zeos_soa.Sched.RoundRobin.{tick, Shows, schedule_refines}
use zeos_soa.Sched.Fairness.{schedules, behind, schedules-served}
use zeos_soa.Sched.Wake.{Waits, kbd_buf_write-wakes}
use zeos_soa.Calls.Block.{sys_block, sys_unblock}
use zeos_soa.Calls.Block.Search.{siblings, first_with}
use zeos_soa.Calls.Block.Pending.{Children, effect, sys_unblock_cases, running, unblock-block}
use zeos_soa.Calls.Block.Moves.{CanBlock, Blocked, sys_block-Blocked}
use zeos_soa.Calls.Block.Releases.{CanRelease, sys_unblock-releases}
use zeos_soa.Tests.Kernels.{kernel, links, alice, bob, carol, dave, erin, root, shares_none_sound}

-- A PID is an address, and all quanta are the same.
abbrev pid_of : Ptr → ℤ
pid_of t = pos t

abbrev quantum_of : Ptr → ℕ
quantum_of t = 10

ready-IsRing : IsRing links 100 (nodes (bob ∷ carol ∷ []))
ready-IsRing = record {
  seg = (refl, refl, (refl, refl, (refl, refl)));
  distinct = (refl, (refl, (refl, tt)));
}

kernel-Shows : Shows pid_of quantum_of kernel (behind alice bob [] (carol ∷ []) 1)
kernel-Shows = record {
  running = refl;
  left = refl;
  ring = ready-IsRing;
  detached = record { no_next = refl; no_prev = refl };
  outside = refl;
  head_given = ground arith;
  pids = λ t. refl;
  quanta = λ t. refl;
  different = λ a b i j e. ground (arith, e);
}

schedule_refines_example :
    Shows pid_of quantum_of (schedule kernel) (tick quantum_of (behind alice bob [] (carol ∷ []) 1))
schedule_refines_example =
    schedule_refines pid_of quantum_of kernel (behind alice bob [] (carol ∷ []) 1) kernel-Shows

schedules-served_example :
    (n : ℕ) × (n ≤ (length (bob ∷ []) + 1) * 10) × ((schedules n kernel).current ≡ carol)
schedules-served_example =
    schedules-served pid_of quantum_of kernel alice carol (bob ∷ []) [] 1 10 kernel-Shows
      (omega arith) (omega arith) (λ x. omega arith)

kernel-IsLoaded : IsLoaded kernel
kernel-IsLoaded = record { space = refl; stack = refl; sysenter_stack = refl }

schedule-IsLoaded_example : IsLoaded (schedule kernel)
schedule-IsLoaded_example = schedule-IsLoaded kernel kernel-IsLoaded

-- The nodes of the four lists, their heads included.
abbrev unblocked_nodes : List Ptr
unblocked_nodes = children_unblocked_of root ∷ siblings (carol ∷ alice ∷ [])

abbrev blocked_nodes : List Ptr
blocked_nodes = children_blocked_of root ∷ siblings (dave ∷ [])

abbrev waiting_nodes : List Ptr
waiting_nodes = 200 ∷ nodes (dave ∷ [])

abbrev ready_nodes : List Ptr
ready_nodes = 100 ∷ nodes (bob ∷ carol ∷ [])

kernel-CanBlock : CanBlock kernel (carol ∷ []) [] (dave ∷ []) (dave ∷ []) bob (carol ∷ [])
kernel-CanBlock = record {
  parent = root;
  parent_of = refl;
  has_parent = ground arith;
  no_credit = refl;
  unblocked = record {
    seg = (refl, refl, (refl, refl, (refl, refl)));
    distinct = (refl, (refl, (refl, tt)));
  };
  blocked = record { seg = (refl, refl, (refl, refl)); distinct = (refl, (refl, tt)) };
  waiting = record { seg = (refl, refl, (refl, refl)); distinct = (refl, (refl, tt)) };
  ready = ready-IsRing;
  detached = record { no_next = refl; no_prev = refl };
  head_given = ground arith;
  other_pid = refl;
  blocked_unblocked = shares_none_sound blocked_nodes unblocked_nodes refl;
  waiting_unblocked = shares_none_sound waiting_nodes unblocked_nodes refl;
  waiting_blocked = shares_none_sound waiting_nodes blocked_nodes refl;
  ready_unblocked = shares_none_sound ready_nodes unblocked_nodes refl;
  ready_blocked = shares_none_sound ready_nodes blocked_nodes refl;
  ready_waiting = shares_none_sound ready_nodes waiting_nodes refl;
  out_unblocked = refl;
  out_blocked = refl;
  out_waiting = refl;
  out_ready = refl;
}

sys_block-Blocked_example :
    ((sys_block kernel).0 ≡ pos 0)
    × Blocked kernel kernel-CanBlock.parent
        (carol ∷ [])
        []
        (dave ∷ [])
        (dave ∷ [])
        bob
        (carol ∷ [])
        (sys_block kernel).1
sys_block-Blocked_example =
    sys_block-Blocked kernel (carol ∷ []) [] (dave ∷ []) (dave ∷ []) bob (carol ∷ [])
      kernel-CanBlock

-- `root` runs, whose child `dave` is blocked.
abbrev root_runs : Kernel
root_runs = record kernel { current = root }

root_runs-Children : Children root_runs (dave ∷ []) (carol ∷ alice ∷ [])
root_runs-Children = record {
  blocked_ring = record { seg = (refl, refl, (refl, refl)); distinct = (refl, (refl, tt)) };
  unblocked_ring = record {
    seg = (refl, refl, (refl, refl, (refl, refl)));
    distinct = (refl, (refl, (refl, tt)));
  };
  few_blocked = omega arith;
  few_unblocked = omega arith;
}

sys_unblock_cases_example :
    sys_unblock root_runs (pos dave)
    ≡ effect root_runs
        (first_with root_runs.tasks (pos dave) (dave ∷ []))
        (first_with root_runs.tasks (pos dave) (carol ∷ alice ∷ []))
sys_unblock_cases_example =
    sys_unblock_cases root_runs (pos dave) (dave ∷ []) (carol ∷ alice ∷ []) root_runs-Children
      (omega arith)

unblock-block_example :
    let (r, k') = sys_block (running (sys_unblock root_runs (pos alice)).1 alice) in
    (r ≡ pos 0)
    × (k'.current ≡ alice)
    × (k'.links ≡ root_runs.links)
    × ((k'.tasks alice).pending_unblocks ≡ pos 0)
unfolding first_with
unblock-block_example =
    unblock-block root_runs (pos alice) (dave ∷ []) (carol ∷ alice ∷ []) alice alice
      root_runs-Children refl refl (omega arith) refl

root_runs-CanRelease : CanRelease root_runs dave [] [] (carol ∷ alice ∷ []) [] [] (bob ∷ carol ∷ [])
root_runs-CanRelease = record {
  children = root_runs-Children;
  waiting = record { seg = (refl, refl, (refl, refl)); distinct = (refl, (refl, tt)) };
  ready = ready-IsRing;
  blocked_given = ground arith;
  ready_given = ground arith;
  children_apart =
      shares_none_sound (children_unblocked_of root ∷ siblings (carol ∷ alice ∷ [])) blocked_nodes
        refl;
  queues_apart = shares_none_sound ready_nodes waiting_nodes refl;
  waiting_blocked = shares_none_sound waiting_nodes blocked_nodes refl;
  waiting_unblocked = shares_none_sound waiting_nodes unblocked_nodes refl;
  ready_blocked = shares_none_sound ready_nodes blocked_nodes refl;
  ready_unblocked = shares_none_sound ready_nodes unblocked_nodes refl;
}

sys_unblock-releases_example :
    let (r, k') = sys_unblock root_runs (pos dave) in
    (r ≡ pos 0)
    × IsRing k'.links (children_blocked_of root) []
    × IsRing k'.links (children_unblocked_of root) (siblings (carol ∷ alice ∷ dave ∷ []))
    × IsRing k'.links 200 []
    × IsRing k'.links 100 (nodes (bob ∷ carol ∷ dave ∷ []))
unfolding first_with
sys_unblock-releases_example =
    sys_unblock-releases root_runs dave [] [] (carol ∷ alice ∷ []) [] [] (bob ∷ carol ∷ [])
      root_runs-CanRelease (pos dave) refl

kernel-Waits : Waits kernel erin [] (bob ∷ carol ∷ [])
kernel-Waits = record {
  waiting = record { seg = (refl, refl, (refl, refl)); distinct = (refl, (refl, tt)) };
  ready = ready-IsRing;
  apart = shares_none_sound ready_nodes (300 ∷ nodes (erin ∷ [])) refl;
  head_given = ground arith;
}

kbd_buf_write-wakes_example :
    let k' = kbd_buf_write kernel b'x' in
    (contents k'.keyboard ≡ contents kernel.keyboard ++ b'x' ∷ [])
    × IsRing k'.links k'.heads.readyqueue (nodes (bob ∷ carol ∷ erin ∷ []))
    × IsRing k'.links k'.heads.kbd_blocked (nodes [])
kbd_buf_write-wakes_example =
    kbd_buf_write-wakes kernel b'x' erin [] (bob ∷ carol ∷ []) (omega arith) kernel-Waits refl refl
