-- ===== src/Places/Keys.antt =====
-- The keyboard: a character may make the first of the readers ready.
use zeos_soa.Prelude.{
  ℕ, ◌-◌, ◌≡◌, refl, Bool, true, false, List, [], ◌∷◌, leb, has-append, inl, inr, arith, Bool-cases,
  subst, if◌then◌else◌,
}
use zeos_soa.Lists.{Ptr, Links, list_add_tail, list_del}
use zeos_soa.Lists.Rings.{IsRing}
use zeos_soa.Lists.Walk.{list_empty-nil, list_empty-cons, list_first-cons}
use zeos_soa.Kernel.{Kernel, list_of}
use zeos_soa.Keyboard.{store_char}
use zeos_soa.Sched.{wake_reader, kbd_buf_write}
use zeos_soa.Sched.Switch.{nodes}
use zeos_soa.Places.{Place, Map, same_place, put, node_of, head_of}
use zeos_soa.Places.Held.{
  Held, Free, list_del-Held, list_del-Free, list_del-keeps_Free, list_add_tail-Held,
  list_add_tail-keeps_Free,
}
use zeos_soa.Places.World.{Census, World, join, wake_first, on_wake}
use zeos_soa.Places.Stands.{Families-same, Stands}
use zeos_soa.Places.Enter.{List-cases}
use zeos_soa.Places.Park.{update_process_state_rr-detached}
use zeos_soa.Places.Ticks.{Counts-same, Stands-same}

-- Whether the buffer has what a reader needs.
abbrev pub enough : Kernel → Ptr → Bool
enough k t = leb (k.tasks t).kbd_chars_needed k.keyboard.count

module _ (c : Census) (k : Kernel) (w : World) (s : Stands c k w) where
  -- The first of the readers, and the others.
  module _ (t : Ptr) (ts : List Ptr) (e : w.at Place.readers ≡ t ∷ ts) where
    abbrev taken : Links
    taken = list_del k.links (list_of t)

    abbrev others : Map
    others = put w.at Place.readers ts

    abbrev woken : Links
    woken = list_add_tail taken (list_of t) k.heads.readyqueue

    taken-Held : Held k.heads c.processes taken others
    unfolding node_of
    taken-Held = list_del-Held k.heads c.processes k.links w.at Place.readers t [] ts e tt s.held

    taken-Free : Free k.heads c.processes taken others (list_of t)
    unfolding node_of
    taken-Free = list_del-Free k.heads c.processes k.links w.at Place.readers t [] ts e tt s.held

    woken-Held : Held k.heads c.processes woken (join others Place.ready t)
    unfolding node_of head_of join
    woken-Held =
        list_add_tail-Held k.heads c.processes taken others Place.ready t tt taken-Held
          taken-Free.out

    -- A process that is in no list is not the reader, and stays out of all lists.
    woken-keeps_Free :
        (m : Ptr)
        → Free k.heads c.processes k.links w.at (list_of m)
        → Free k.heads c.processes woken (join others Place.ready t) (list_of m)
    unfolding node_of head_of join
    woken-keeps_Free m f =
        list_add_tail-keeps_Free k.heads c.processes taken others Place.ready t tt taken-Held
          taken-Free.out (list_of m) (λ same. ground (arith, same, e, f.out Place.readers tt))
          (list_del-keeps_Free k.heads c.processes k.links w.at Place.readers t [] ts e tt s.held
            (list_of m) f)

    wake_reader-woken : enough k t ≡ true → wake_reader k ≡ record k { links = woken }
    unfolding wake_reader head_of node_of
    wake_reader-woken h =
        let ring : IsRing k.links k.heads.kbd_blocked (nodes (t ∷ ts)) =
          subst (λ r. IsRing k.links k.heads.kbd_blocked (nodes r)) e
            (s.held.ring Place.readers tt) in
        let same : list_of t - 8 ≡ t = omega arith in
        rw
          (
            list_empty-cons k.links k.heads.kbd_blocked (list_of t) ring,
            list_first-cons k.links k.heads.kbd_blocked (list_of t) ring,
            same,
            h,
          )
          (update_process_state_rr-detached (record k { links = taken }) t k.heads.readyqueue
            taken-Free.detached s.counts.ready_given)

    wake_reader-waits : enough k t ≡ false → wake_reader k ≡ k
    unfolding wake_reader head_of node_of
    wake_reader-waits h =
        let ring : IsRing k.links k.heads.kbd_blocked (nodes (t ∷ ts)) =
          subst (λ r. IsRing k.links k.heads.kbd_blocked (nodes r)) e
            (s.held.ring Place.readers tt) in
        let same : list_of t - 8 ≡ t = omega arith in
        rw
          (
            list_empty-cons k.links k.heads.kbd_blocked (list_of t) ring,
            list_first-cons k.links k.heads.kbd_blocked (list_of t) ring,
            same,
            h,
          )
          refl

    woken-Stands :
        Stands c (record k { links = woken }) (record w { at = join others Place.ready t })
    unfolding join put same_place
    woken-Stands = record {
      counts = Counts-same c k (record k { links = woken }) refl refl refl refl s.counts;
      running = s.running;
      left = s.left;
      held = woken-Held;
      running_free = woken-keeps_Free w.running s.running_free;
      idle = elim s.idle [
        | inl h ↦ inl h
        | inr (inl i) ↦ inr (inl (ground (arith, i, has-append c.idle (w.at Place.ready) (t ∷ []))))
        | inr (inr f) ↦ inr (inr (woken-keeps_Free c.idle f))
      ];
      placed = λ u i. ground (arith, s.placed u i, e, has-append u (w.at Place.ready) (t ∷ []));
      queued = λ u i. s.queued u (ground (arith, i, e, has-append u (w.at Place.ready) (t ∷ [])));
      families =
          Families-same c w.at (join others Place.ready t) refl (λ p. refl) (λ p. refl) s.families;
    }

    wake-first : Stands c (wake_reader k) (wake_first c (enough k) w (t ∷ ts))
    unfolding wake_first
    wake-first = elim (Bool-cases (enough k t)) [
      | inl h ↦ rw (wake_reader-woken h, h) woken-Stands
      | inr h ↦ rw (wake_reader-waits h, h) s
    ]

  pub wake_reader-Stands : Stands c (wake_reader k) (on_wake c (enough k) w)
  unfolding on_wake wake_first wake_reader head_of node_of
  wake_reader-Stands = elim (List-cases (w.at Place.readers)) [
    | inl none ↦
        rw
          (
            none,
            list_empty-nil k.links k.heads.kbd_blocked (
                subst (λ r. IsRing k.links k.heads.kbd_blocked (nodes r)) none
                  (s.held.ring Place.readers tt)),
          )
          s
    | inr (t, ts, e) ↦ rw e (wake-first t ts e)
  ]

module _ (c : Census) where
  -- What a character does: if it was stored, the first reader may wake up.
  abbrev pub on_char : Kernel → (ch : ℕ) → World → World
  on_char k ch w =
      let (stored, keyboard) = store_char k.keyboard ch in
      if stored then on_wake c (enough (record k { keyboard = keyboard })) w else w

  pub kbd_buf_write-Stands :
      (k : Kernel) (ch : ℕ) (w : World)
      → Stands c k w
      → Stands c (kbd_buf_write k ch) (on_char k ch w)
  unfolding kbd_buf_write
  kbd_buf_write-Stands k ch w s =
      let k1 = record k { keyboard = (store_char k.keyboard ch).1 } in
      elim (Bool-cases (store_char k.keyboard ch).0) [
        | inl e ↦
            rw e (wake_reader-Stands c k1 w (Stands-same c k k1 w refl refl refl refl refl refl s))
        | inr e ↦ rw e s
      ]
