-- ===== src/Places/Ticks.antt =====
-- The clock: a tick takes the processor away only in favour of a process that waits.
use zeos_soa.Prelude.{
  ◌+◌, ◌%◌, ◌≡◌, refl, Bool, not, ◌&&◌, [], ◌∷◌, ◌==◌, has-append, inl, inr, arith, Bool-cases, ◌∙◌,
  ap,
}
use zeos_soa.Prelude.Int.{pos, pred_ℤ, ltb_ℤ}
use zeos_soa.Lists.{list_add_tail}
use zeos_soa.Kernel.{Kernel, list_of}
use zeos_soa.Sched.{
  update_process_state_rr, update_sched_data_rr, needs_sched_rr, schedule, clock_routine,
}
use zeos_soa.Sched.RoundRobin.{is_nil, list_empty-is_nil}
use zeos_soa.Places.{Place, same_place, put, node_of, head_of}
use zeos_soa.Places.World.{Census, World, join, on_tick}
use zeos_soa.Places.Stands.{Counts, Families-same, Parked, Stands}
use zeos_soa.Places.Enter.{sched_next_rr-Stands}
use zeos_soa.Places.Park.{update_process_state_rr-detached, Stands-Runs, park}

-- What `zeos_show_clock` may change: the screen.
abbrev pub ShowsOnly : (Kernel → Kernel) → Type 0
ShowsOnly show_clock = (k : Kernel) → show_clock k ≡ record k { screen = (show_clock k).screen }

module _ (c : Census) where
  -- What does not change the processes keeps their census.
  pub Counts-same :
      (k k' : Kernel)
      → k'.idle_task ≡ k.idle_task
      → k'.current ≡ k.current
      → k'.tasks ≡ k.tasks
      → k'.heads ≡ k.heads
      → Counts c k
      → Counts c k'
  Counts-same k k' same_idle r t h n = record {
    idle = same_idle ∙ n.idle;
    idle_known = n.idle_known;
    current_known = rw r n.current_known;
    parents = λ p i. ap (λ f. (f p).parent) t ∙ n.parents p i;
    pids = λ p i. ap (λ f. (f p).pid) t ∙ n.pids p i;
    quanta = λ p i. ap (λ f. (f p).quantum) t ∙ n.quanta p i;
    different = n.different;
    ready_given = rw h n.ready_given;
    waiting_given = rw h n.waiting_given;
    readers_given = rw h n.readers_given;
  }

  pub Stands-same :
      (k k' : Kernel) (w : World)
      → k'.idle_task ≡ k.idle_task
      → k'.current ≡ k.current
      → k'.tasks ≡ k.tasks
      → k'.heads ≡ k.heads
      → k'.links ≡ k.links
      → k'.remaining_quantum ≡ k.remaining_quantum
      → Stands c k w
      → Stands c k' w
  Stands-same k k' w i r t h l q s = record {
    counts = Counts-same k k' i r t h s.counts;
    running = r ∙ s.running;
    left = q ∙ s.left;
    held = rw (l, h) s.held;
    running_free = rw (l, h) s.running_free;
    idle = rw (l, h) s.idle;
    placed = s.placed;
    queued = s.queued;
    families = s.families;
  }

  module _ (k : Kernel) (w : World) (s : Stands c k w) where
    -- The kernel with the running process at the end of the ready queue.
    queued : Kernel
    queued = update_process_state_rr (update_sched_data_rr k) k.current k.heads.readyqueue

    queued_eq : queued ≡ record (update_sched_data_rr k) {
      links = list_add_tail k.links (list_of w.running) k.heads.readyqueue;
    }
    unfolding queued update_sched_data_rr
    queued_eq =
        ap (λ r. update_process_state_rr (update_sched_data_rr k) r k.heads.readyqueue) s.running
        ∙ (update_process_state_rr-detached (update_sched_data_rr k) w.running k.heads.readyqueue
            s.running_free.detached s.counts.ready_given)

    queued-Parked : Parked c queued (join w.at Place.ready w.running)
    unfolding update_sched_data_rr join put same_place node_of head_of
    queued-Parked = rw queued_eq (
        park c k
          (record (update_sched_data_rr k) {
            links = list_add_tail k.links (list_of w.running) k.heads.readyqueue;
          })
          w.at w.running Place.ready (Stands-Runs c k w s) tt refl
          (Counts-same k _ refl refl refl refl s.counts) refl refl
          (λ t. ground (arith, has-append t (w.at Place.ready) (w.running ∷ [])))
          (Families-same c w.at (join w.at Place.ready w.running) refl (λ p. refl) (λ p. refl)
            s.families)
          (λ e. ground (arith, e, has-append c.idle (w.at Place.ready) (w.running ∷ [])))
          (λ i. ground (arith, i, has-append c.idle (w.at Place.ready) (w.running ∷ []))))

    goes_on : Bool
    goes_on = ltb_ℤ (pos 0) (pred_ℤ w.left) && not (is_nil (w.at Place.ready))

    needs_sched_rr-goes_on : needs_sched_rr (update_sched_data_rr k) ≡ not goes_on
    unfolding needs_sched_rr update_sched_data_rr goes_on node_of head_of
    needs_sched_rr-goes_on =
        rw
          (
            s.left,
            list_empty-is_nil k.links k.heads.readyqueue (w.at Place.ready)
                (s.held.ring Place.ready tt),
          )
          refl

    stays : Stands c (update_sched_data_rr k) (record w { left = pred_ℤ w.left })
    unfolding update_sched_data_rr
    stays = record {
      counts = Counts-same k (update_sched_data_rr k) refl refl refl refl s.counts;
      running = s.running;
      left = ap pred_ℤ s.left;
      held = s.held;
      running_free = s.running_free;
      idle = s.idle;
      placed = s.placed;
      queued = s.queued;
      families = s.families;
    }

  -- `schedule` does to the processes what a tick does to a world.
  pub schedule-Stands :
      (k : Kernel) (w : World) → Stands c k w → Stands c (schedule k) (on_tick c w)
  unfolding schedule on_tick queued goes_on update_sched_data_rr
  schedule-Stands k w s = elim (Bool-cases (goes_on k w s)) [
    | inl e ↦ rw (needs_sched_rr-goes_on k w s, e) (stays k w s)
    | inr e ↦
        rw (needs_sched_rr-goes_on k w s, e)
          (sched_next_rr-Stands c (queued k w s) (join w.at Place.ready w.running)
            (queued-Parked k w s))
  ]

  pub clock_routine-Stands :
      (show_clock : Kernel → Kernel) (k : Kernel) (w : World)
      → ShowsOnly show_clock
      → Stands c k w
      → Stands c (clock_routine show_clock k) (on_tick c w)
  unfolding clock_routine
  clock_routine-Stands show_clock k w only s =
      let k1 = record k { zeos_ticks = k.zeos_ticks + 1 } in
      let s1 = Stands-same k k1 w refl refl refl refl refl refl s in
      let shown = record k1 { screen = (show_clock k1).screen } in
      elim (Bool-cases (k1.zeos_ticks % 18 == 0)) [
        | inl e ↦
            rw (e, only k1)
              (schedule-Stands shown w (Stands-same k1 shown w refl refl refl refl refl refl s1))
        | inr e ↦ rw e (schedule-Stands k1 w s1)
      ]
