-- ===== src/Places/Reads.antt =====
-- `sys_read`: its process goes to the readers that wait, or keeps running.
use zeos_soa.Prelude.{
  Bool, true, false, length, ℕ, ◌+◌, ◌≡◌, refl, ◌≢◌, List, [], ◌∷◌, ◌==◌, has-append, ◌⊎◌, inl, inr,
  arith, Bool-cases, ◌∙◌, sym, ap, min,
}
use zeos_soa.Prelude.Int.{ℤ, pos, pos_part, ltb_ℤ}
use zeos_soa.Lists.{Ptr, null, list_add_tail}
use zeos_soa.Keyboard.{Keyboard, kbd_buf_read}
use zeos_soa.Kernel.{Kernel, Task, list_of, set_task}
use zeos_soa.Access.{access_ok, verify_write}
use zeos_soa.Sched.{update_process_state_rr}
use zeos_soa.Calls.Console.{
  Reading, can_copy, done, waits, faults, buff_size, sys_read, read_or_wait, wait_for_chars,
  deliver, set_user_bytes, set_user_byte,
}
use zeos_soa.Places.{Place, same_place, put, node_of, head_of}
use zeos_soa.Places.World.{Census, World, join, on_read}
use zeos_soa.Places.Stands.{Counts, Families-same, Parked, Stands}
use zeos_soa.Places.Enter.{sched_next_rr-Stands}
use zeos_soa.Places.Park.{update_process_state_rr-detached, Stands-Runs, park}
use zeos_soa.Places.Ticks.{Counts-same, Stands-same}

-- The kernel that a call of `sys_read` leaves to the process that runs next.
abbrev pub after : Reading → Kernel
after (done r k) = k
after (waits n k) = k
after (faults k) = k

-- Whether there is one: not where a page fault keeps the processor.
abbrev pub goes_on : Reading → Bool
goes_on (done r k) = true
goes_on (waits n k) = true
goes_on (faults k) = false

module _ (c : Census) where
  set_user_bytes-Stands :
      (k : Kernel) (b : ℕ) (bs : List ℕ) (w : World)
      → Stands c k w
      → Stands c (set_user_bytes k b bs) w
  unfolding set_user_bytes set_user_byte
  set_user_bytes-Stands k b [] w s = s
  set_user_bytes-Stands k b (x ∷ bs) w s =
      set_user_bytes-Stands (set_user_byte k b x) (b + 1) bs w
        (Stands-same c k (set_user_byte k b x) w refl refl refl refl refl refl s)

  -- Delivering characters, at once or after a wait, changes no place.
  pub deliver-Stands :
      (k : Kernel) (b : Ptr) (cs : List ℕ) (kb : Keyboard) (w : World)
      → Stands c k w
      → Stands c (after (deliver k b (cs, kb))) w
  unfolding deliver
  deliver-Stands k b cs kb w s =
      let k1 = record k { keyboard = kb } in
      let s1 = Stands-same c k k1 w refl refl refl refl refl refl s in
      elim (Bool-cases (can_copy k1 b (length cs))) [
        | inl e ↦ rw e (set_user_bytes-Stands k1 b cs w s1)
        | inr e ↦ rw e s1
      ]

  module _ (k : Kernel) (w : World) (s : Stands c k w) (other : w.running ≢ c.idle) (b : Ptr)
      (n : ℕ) where
    abbrev noted : Task
    noted = record (k.tasks k.current) {
      kbd_chars_needed = n;
      kbd_user_buf = b;
      kbd_read_result = pos 0;
    }

    abbrev asking : Kernel
    asking = set_task k k.current noted

    abbrev queued : Kernel
    queued = update_process_state_rr asking k.current k.heads.kbd_blocked

    queued_eq :
        queued
        ≡ record asking { links = list_add_tail k.links (list_of w.running) k.heads.kbd_blocked }
    queued_eq =
        ap (λ r. update_process_state_rr asking r k.heads.kbd_blocked) s.running
        ∙ update_process_state_rr-detached asking w.running k.heads.kbd_blocked
            s.running_free.detached s.counts.readers_given

    asking-Counts : Counts c asking
    asking-Counts = record {
      idle = s.counts.idle;
      idle_known = s.counts.idle_known;
      current_known = s.counts.current_known;
      parents = λ p i. ground (arith, s.counts.parents p i);
      pids = λ p i. ground (arith, s.counts.pids p i);
      quanta = λ p i. ground (arith, s.counts.quanta p i);
      different = s.counts.different;
      ready_given = s.counts.ready_given;
      waiting_given = s.counts.waiting_given;
      readers_given = s.counts.readers_given;
    }

    queued-Parked : Parked c queued (join w.at Place.readers w.running)
    unfolding join put same_place node_of head_of
    queued-Parked = rw queued_eq (
        park c k
          (record asking { links = list_add_tail k.links (list_of w.running) k.heads.kbd_blocked })
          w.at w.running Place.readers (Stands-Runs c k w s) tt refl
          (Counts-same c asking _ refl refl refl refl asking-Counts) refl refl
          (λ t. ground (arith, has-append t (w.at Place.readers) (w.running ∷ [])))
          (Families-same c w.at (join w.at Place.readers w.running) refl (λ p. refl) (λ p. refl)
            s.families)
          (λ e. absurd (other (sym e))) (λ i. i))

    wait_for_chars-Stands : Stands c (wait_for_chars k b n) (on_read c w)
    unfolding wait_for_chars on_read
    wait_for_chars-Stands =
        sched_next_rr-Stands c queued (join w.at Place.readers w.running) queued-Parked

  read_or_wait-Stands :
      (k : Kernel) (b : Ptr) (n : ℕ) (r : List ℕ × Keyboard) (w : World)
      → w.running ≢ c.idle
      → Stands c k w
      → Stands c (after (read_or_wait k b n r)) w
        ⊎ Stands c (after (read_or_wait k b n r)) (on_read c w)
  unfolding read_or_wait
  read_or_wait-Stands k b n ([], kb) w other s =
      let k1 = record k { keyboard = kb } in
      inr (
        wait_for_chars-Stands k1 w (Stands-same c k k1 w refl refl refl refl refl refl s) other b n)
  read_or_wait-Stands k b n (x ∷ xs, kb) w other s = inl (deliver-Stands k b (x ∷ xs) kb w s)

  -- A call of `sys_read` leaves every process where it was, or its own with the readers.
  pub sys_read-Stands :
      (k : Kernel) (b : Ptr) (n : ℤ) (w : World)
      → w.running ≢ c.idle
      → Stands c k w
      → Stands c (after (sys_read k b n)) w ⊎ Stands c (after (sys_read k b n)) (on_read c w)
  unfolding sys_read
  sys_read-Stands k b n w other s =
      let m = min (pos_part n) buff_size in
      elim (Bool-cases (b == null)) [
        | inl e ↦ rw e (inl s)
        | inr e ↦ elim (Bool-cases (ltb_ℤ n (pos 0))) [
          | inl f ↦ rw (e, f) (inl s)
          | inr f ↦ elim (Bool-cases (pos_part n == 0)) [
            | inl g ↦ rw (e, f, g) (inl (Stands-same c k _ w refl refl refl refl refl refl s))
            | inr g ↦ elim (Bool-cases (access_ok verify_write b (pos_part n))) [
              | inl h ↦
                  rw (e, f, g, h) (read_or_wait-Stands k b m (kbd_buf_read k.keyboard m) w other s)
              | inr h ↦ rw (e, f, g, h) (inl s)
            ]
          ]
        ]
      ]
