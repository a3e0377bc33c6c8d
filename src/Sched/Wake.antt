-- ===== src/Sched/Wake.antt =====
-- Characters from the keyboard, and the reader that waits for them.
use zeos_soa.Prelude.{
  ℕ, ◌+◌, ◌-◌, ◌≡◌, refl, ◌≢◌, true, false, List, [], ◌∷◌, ◌++◌, length, ◌==◌, leb, ltb, arith, ◌∙◌,
}
use zeos_soa.Lists.{Ptr, null, Links, list_del, list_add_tail, list_first}
use zeos_soa.Lists.Rings.{IsRing}
use zeos_soa.Lists.Remove.{list_del-null}
use zeos_soa.Lists.Walk.{list_empty-cons, list_first-cons}
use zeos_soa.Lists.Move.{Disjoint, move-to, move-from}
use zeos_soa.Keyboard.{Keyboard, store_char, keyboard_buf_size}
use zeos_soa.Keyboard.Queue.{IsValid, contents, store_char_refines, length-window}
use zeos_soa.Kernel.{Kernel, list_of}
use zeos_soa.Sched.{wake_reader, kbd_buf_write, update_process_state_rr}
use zeos_soa.Sched.Switch.{unlink-detached, nodes}
use zeos_soa.Sched.RoundRobin.{nodes-snoc}

-- The reader `t` is the first of those that wait, `ws` are the others, and `rs` are ready.
pub record Waits (k : Kernel) (t : Ptr) (ws rs : List Ptr) : Type 0 where
  pub waiting : IsRing k.links k.heads.kbd_blocked (nodes (t ∷ ws))
  pub ready : IsRing k.links k.heads.readyqueue (nodes rs)
  pub apart : Disjoint (k.heads.readyqueue ∷ nodes rs) (k.heads.kbd_blocked ∷ nodes (t ∷ ws))
  pub head_given : k.heads.readyqueue ≢ null

module _ (k : Kernel) (t : Ptr) (ws rs : List Ptr) (w : Waits k t ws rs) where
  -- The links with the reader at the end of the ready queue.
  abbrev moved : Links
  moved = list_add_tail (list_del k.links (list_of t)) (list_of t) k.heads.readyqueue

  first-t : list_first k.links k.heads.kbd_blocked ≡ list_of t
  first-t = list_first-cons k.links k.heads.kbd_blocked (list_of t) w.waiting

  wake_reader-enough :
      leb (k.tasks t).kbd_chars_needed k.keyboard.count ≡ true
      → wake_reader k ≡ record k { links = moved }
  unfolding wake_reader update_process_state_rr
  wake_reader-enough e =
      let same : list_of t - 8 ≡ t = omega arith in
      let out = list_del-null k.links k.heads.kbd_blocked (list_of t) [] (nodes ws) w.waiting in
      let given : (k.heads.readyqueue == null) ≡ false = ground (arith, w.head_given) in
      rw
        (
          list_empty-cons k.links k.heads.kbd_blocked (list_of t) w.waiting,
          first-t,
          same,
          e,
          unlink-detached (list_del k.links (list_of t)) (list_of t)
              (record { no_next = out.0; no_prev = out.1 }),
          given,
        )
        refl

  wake_reader-too_few :
      leb (k.tasks t).kbd_chars_needed k.keyboard.count ≡ false → wake_reader k ≡ k
  unfolding wake_reader
  wake_reader-too_few e =
      let same : list_of t - 8 ≡ t = omega arith in
      rw (list_empty-cons k.links k.heads.kbd_blocked (list_of t) w.waiting, first-t, same, e) refl

  moved-ready : IsRing moved k.heads.readyqueue (nodes (rs ++ t ∷ []))
  moved-ready = rw (nodes-snoc rs t) (
      move-to k.links k.heads.kbd_blocked k.heads.readyqueue (list_of t) [] (nodes ws) (nodes rs)
        w.waiting w.ready w.apart)

  moved-waiting : IsRing moved k.heads.kbd_blocked (nodes ws)
  moved-waiting =
      move-from k.links k.heads.kbd_blocked k.heads.readyqueue (list_of t) [] (nodes ws) (nodes rs)
        w.waiting w.ready w.apart

store_char-count :
    (k : Keyboard) (c : ℕ)
    → ltb k.count keyboard_buf_size ≡ true
    → (store_char k c).1.count ≡ k.count + 1
unfolding store_char
store_char-count k c room = ground arith

-- Storing a character where there is room for it.
stored :
    (k : Keyboard) (c : ℕ)
    → IsValid k
    → ltb k.count keyboard_buf_size ≡ true
    → ((store_char k c).0 ≡ true)
      × ((store_char k c).1.count ≡ k.count + 1)
      × (contents (store_char k c).1 ≡ contents k ++ c ∷ [])
stored k c v room =
    let (v', d, cs) = store_char_refines k c v in
    let size = length-window k.buf k.tail k.count in
    let there : ltb (length (contents k)) keyboard_buf_size ≡ true = rw size room in
    (d ∙ there, store_char-count k c room, cs ∙ (rw there refl))

-- Where the buffer is valid and not full and the queues share no node, a character that completes
-- what the first waiting reader needs goes to the end of the buffer and makes this reader the last
-- of the ready queue; the other readers still wait, in their order.
pub kbd_buf_write-wakes :
    (k : Kernel) (c : ℕ) (t : Ptr) (ws rs : List Ptr)
    → IsValid k.keyboard
    → Waits k t ws rs
    → ltb k.keyboard.count keyboard_buf_size ≡ true
    → leb (k.tasks t).kbd_chars_needed (k.keyboard.count + 1) ≡ true
    → let k' = kbd_buf_write k c in
      (contents k'.keyboard ≡ contents k.keyboard ++ c ∷ [])
      × IsRing k'.links k'.heads.readyqueue (nodes (rs ++ t ∷ []))
      × IsRing k'.links k'.heads.kbd_blocked (nodes ws)
unfolding kbd_buf_write
kbd_buf_write-wakes k c t ws rs v w room enough =
    let (d, n, cs) = stored k.keyboard c v room in
    let k1 = record k { keyboard = (store_char k.keyboard c).1 } in
    let w1 : Waits k1 t ws rs = record {
      waiting = w.waiting;
      ready = w.ready;
      apart = w.apart;
      head_given = w.head_given;
    } in
    rw (d, wake_reader-enough k1 t ws rs w1 (rw n enough))
      (cs, moved-ready k1 t ws rs w1, moved-waiting k1 t ws rs w1)

-- Where the buffer is valid and not full and the queues share no node, a character with which there
-- are still too few for the first waiting reader goes to the end of the buffer, and no list changes.
pub kbd_buf_write-keeps :
    (k : Kernel) (c : ℕ) (t : Ptr) (ws rs : List Ptr)
    → IsValid k.keyboard
    → Waits k t ws rs
    → ltb k.keyboard.count keyboard_buf_size ≡ true
    → leb (k.tasks t).kbd_chars_needed (k.keyboard.count + 1) ≡ false
    → let k' = kbd_buf_write k c in
      (contents k'.keyboard ≡ contents k.keyboard ++ c ∷ []) × (k'.links ≡ k.links)
unfolding kbd_buf_write
kbd_buf_write-keeps k c t ws rs v w room few =
    let (d, n, cs) = stored k.keyboard c v room in
    let k1 = record k { keyboard = (store_char k.keyboard c).1 } in
    let w1 : Waits k1 t ws rs = record {
      waiting = w.waiting;
      ready = w.ready;
      apart = w.apart;
      head_given = w.head_given;
    } in
    rw (d, wake_reader-too_few k1 t ws rs w1 (rw n few)) (cs, refl)
