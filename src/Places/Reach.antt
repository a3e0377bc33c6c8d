-- ===== src/Places/Reach.antt =====
-- Every sequence of interrupts and system calls that begins and ends no process, from a kernel whose
-- processes stand somewhere.
use zeos_soa.Prelude.{
  true, ℕ, ◌<◌, ◌≡◌, ◌≢◌, Bool, ◌==◌, ◌∈◌, inl, inr, Bool-cases, ◌∙◌, sym, length, Option, some,
}
use Prim.Native.Nat.{bit_and}
use zeos_soa.Prelude.Int.{ℤ}
use zeos_soa.Lists.{Ptr}
use zeos_soa.Frames.{total_pages}
use zeos_soa.Keyboard.{store_char, kbd_buf_read}
use zeos_soa.Kernel.{Kernel}
use zeos_soa.Sched.{clock_routine, kbd_buf_write}
use zeos_soa.Interrupts.{keyboard_routine, char_at, char_map}
use zeos_soa.Calls.Block.{sys_block, sys_unblock}
use zeos_soa.Calls.Block.Search.{first_with}
use zeos_soa.Calls.Console.{sys_read, sys_read_resume}
use zeos_soa.Places.{Place}
use zeos_soa.Places.World.{Census, World, on_tick, on_wake, on_read, on_block, on_unblock}
use zeos_soa.Places.Stands.{Stands}
use zeos_soa.Places.Ticks.{ShowsOnly, clock_routine-Stands}
use zeos_soa.Places.Keys.{enough, on_char, kbd_buf_write-Stands}
use zeos_soa.Places.Reads.{after, goes_on, deliver-Stands, sys_read-Stands}
use zeos_soa.Places.Blocks.{sys_block-Stands}
use zeos_soa.Places.Unblocks.{first_with-mem, sys_unblock-Stands}

-- What may happen to a world.
pub data Move (c : Census) (w : World) : World → Type 0 where
  none_moves : Move c w w
  tick : Move c w (on_tick c w)
  wake : (enough : Ptr → Bool) → Move c w (on_wake c enough w)
  wait : w.running ≢ c.idle → Move c w (on_read c w)
  stop : w.running ≢ c.idle → Move c w (on_block c w)
  free :
      (found : Option Ptr)
      → ((t : Ptr) → found ≡ some t → t ∈ w.at (Place.blocked_children w.running))
      → Move c w (on_unblock c w found)

-- What may happen to a kernel: the two interrupts, and the calls of a process that is not the idle one.
-- `show_clock` is `zeos_show_clock` of libzeos.a, and `beyond` the memory behind `char_map`.
module _ (show_clock : Kernel → Kernel) (beyond : ℕ → ℕ) where
  pub data Step (k : Kernel) : Kernel → Type 0 where
    clock : Step k (clock_routine show_clock k)
    key : (pv : ℕ) → Step k (keyboard_routine beyond k pv)
    read :
        (b : Ptr) (n : ℤ)
        → k.current ≢ k.idle_task
        → goes_on (sys_read k b n) ≡ true
        → Step k (after (sys_read k b n))
    resume :
        (b : Ptr) (n : ℕ)
        → k.current ≢ k.idle_task
        → goes_on (sys_read_resume k b n) ≡ true
        → Step k (after (sys_read_resume k b n))
    block : k.current ≢ k.idle_task → Step k (sys_block k).1
    unblock : (pid : ℤ) → k.current ≢ k.idle_task → Step k (sys_unblock k pid).1

  module _ (c : Census) (only : ShowsOnly show_clock)
      (bound : length c.processes < total_pages) where
    -- Where a kernel stands for the world that a move of `w` leads to.
    abbrev pub Moved : World → Kernel → Type 0
    Moved w k' = (w' : World) × Move c w w' × Stands c k' w'

    on_char-Moved : (k : Kernel) (ch : ℕ) (w : World) → Stands c k w → Moved w (kbd_buf_write k ch)
    on_char-Moved k ch w s =
        let moved : Move c w (on_char c k ch w) = elim (Bool-cases (store_char k.keyboard ch).0) [
          | inl e ↦ rw e (wake (enough (record k { keyboard = (store_char k.keyboard ch).1 })))
          | inr e ↦ rw e none_moves
        ] in
        (on_char c k ch w, moved, kbd_buf_write-Stands c k ch w s)

    keyboard_routine-Moved :
        (k : Kernel) (pv : ℕ) (w : World) → Stands c k w → Moved w (keyboard_routine beyond k pv)
    unfolding keyboard_routine
    keyboard_routine-Moved k pv w s =
        let ch = char_at beyond char_map (bit_and pv 0x7F) in
        elim (Bool-cases (bit_and pv 0x80 == 0)) [
          | inl e ↦ elim (Bool-cases (ch == 0)) [
            | inl f ↦ rw (e, f) (w, none_moves, s)
            | inr f ↦ rw (e, f) (on_char-Moved k ch w s)
          ]
          | inr e ↦ rw e (w, none_moves, s)
        ]

    not_idle :
        (k : Kernel) (w : World) → Stands c k w → k.current ≢ k.idle_task → w.running ≢ c.idle
    not_idle k w s ne e = ne (s.running ∙ e ∙ sym s.counts.idle)

    -- The kernel refines a map from places to lists of processes: where it stands for such a map,
    -- with the process that runs and the ticks left, the kernel after a tick of the clock, a scan
    -- code, or a call of `sys_read` (without a page fault), `sys_block` or `sys_unblock` by a
    -- process that is not the idle one stands for the map after one move: none, a tick of the round
    -- robin, the first reader made ready, the running process put behind the readers or behind the
    -- blocked, or a blocked child of the running process made ready.
    pub Step-Move : (k k' : Kernel) (w : World) → Stands c k w → Step k k' → Moved w k'
    unfolding sys_read_resume
    Step-Move k k' w s clock = (on_tick c w, tick, clock_routine-Stands c show_clock k w only s)
    Step-Move k k' w s (key pv) = keyboard_routine-Moved k pv w s
    Step-Move k k' w s (read b n ne _) = elim (sys_read-Stands c k b n w (not_idle k w s ne) s) [
      | inl same ↦ (w, none_moves, same)
      | inr moved ↦ (on_read c w, wait (not_idle k w s ne), moved)
    ]
    Step-Move k k' w s (resume b n ne _) =
        let (cs, kb) = kbd_buf_read k.keyboard n in
        (
          w,
          none_moves,
          deliver-Stands c k b (kbd_buf_read k.keyboard n).0 (kbd_buf_read k.keyboard n).1 w s,
        )
    Step-Move k k' w s (block ne) = elim (sys_block-Stands c k w (not_idle k w s ne) s) [
      | inl same ↦ (w, none_moves, same)
      | inr moved ↦ (on_block c w, stop (not_idle k w s ne), moved)
    ]
    Step-Move k k' w s (unblock pid ne) =
        let found = first_with k.tasks pid (w.at (Place.blocked_children w.running)) in
        (
          on_unblock c w found,
          free found
              (λ t e. first_with-mem k.tasks pid (w.at (Place.blocked_children w.running)) t e),
          sys_unblock-Stands c k w s pid bound,
        )
