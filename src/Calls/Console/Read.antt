-- ===== src/Calls/Console/Read.antt =====
-- What `sys_read` returns, and where a reader waits.
use zeos_soa.Prelude.{
  if◌then◌else◌, ℕ, zero, suc, ◌≡◌, refl, ◌≢◌, true, false, List, [], ◌∷◌, ◌++◌, length, take, drop,
  min, ◌==◌, ◌∉◌, arith, ap, ◌∙◌,
}
use zeos_soa.Prelude.Int.{pos, ltb_ℤ, eq_ℤ}
use zeos_soa.Lists.{Ptr, null, Links, list_del, list_add_tail}
use zeos_soa.Lists.Rings.{IsRing}
use zeos_soa.Lists.Add.{list_add_tail-IsRing, list_add_tail-frame}
use zeos_soa.Lists.Remove.{list_del-IsRing, list_del-frame, list_del-null}
use zeos_soa.Lists.Move.{Disjoint, Disjoint-symm, IsRing-frame, ne_of_mem, snoc-out}
use zeos_soa.Keyboard.{Keyboard, kbd_buf_read}
use zeos_soa.Keyboard.Queue.{IsValid, contents, kbd_buf_read_refines}
use zeos_soa.Access.{access_ok, verify_write}
use zeos_soa.Kernel.{Kernel, list_of, set_task}
use zeos_soa.Sched.{update_process_state_rr, sched_next_rr, enter_next}
use zeos_soa.Sched.RoundRobin.{nodes-snoc}
use zeos_soa.Sched.Switch.{
  IsDetached, unlink-detached, nodes, pick_next-cons, Entered, enter_next-Entered,
}
use zeos_soa.Calls.Console.{
  buff_size, set_user_bytes, can_copy, Reading, faults, done, waits, deliver, wait_for_chars,
  read_or_wait, sys_read,
}

-- The number of characters that a call for `n` asks for.
abbrev pub asked : ℕ → ℕ
asked n = min n buff_size

checked :
    (k : Kernel) (b : Ptr) (n : ℕ)
    → b ≢ null
    → n ≢ 0
    → access_ok verify_write b n ≡ true
    → sys_read k b (pos n) ≡ read_or_wait k b (asked n) (kbd_buf_read k.keyboard (asked n))
unfolding sys_read
checked k b n given some ok =
    let here : (b == null) ≡ false = ground (arith, given) in
    let natural : ltb_ℤ (pos n) (pos 0) ≡ false = ground arith in
    let more : (n == 0) ≡ false = ground (arith, some) in rw (here, natural, more, ok) refl

-- Characters that are delivered to `b`: their number is returned, with the kernel that has them there,
-- where their pages are present; there is a page fault where one is not.
abbrev pub delivered : Kernel → (b : Ptr) → List ℕ → Reading
delivered k b cs =
    if can_copy k b (length cs) then done (pos (length cs)) (set_user_bytes k b cs) else faults k

read_or_wait-cons :
    (k : Kernel) (b : Ptr) (n : ℕ) (cs : List ℕ) (kb : Keyboard)
    → cs ≢ []
    → read_or_wait k b n (cs, kb) ≡ delivered (record k { keyboard = kb }) b cs
unfolding read_or_wait deliver
read_or_wait-cons k b n [] kb ne = absurd (ne refl)
read_or_wait-cons k b n (c ∷ cs) kb ne = refl

-- Where the keyboard buffer is valid and not empty, the user buffer is not NULL and passes
-- `access_ok`, and the count is not 0, `sys_read` takes the oldest characters, as many as there are
-- up to the count and to 256, and leaves the others in a valid keyboard buffer: where the pages of
-- the user buffer that they go to are present, it returns at once how many it took, with the
-- characters there; where one is not, there is a page fault, and it does not return.
pub sys_read-delivers :
    (k : Kernel) (b : Ptr) (n : ℕ)
    → b ≢ null
    → n ≢ 0
    → access_ok verify_write b n ≡ true
    → IsValid k.keyboard
    → contents k.keyboard ≢ []
    → let cs = take (asked n) (contents k.keyboard) in
      (kb : Keyboard) × (sys_read k b (pos n) ≡ delivered (record k { keyboard = kb }) b cs)
      × (contents kb ≡ drop (asked n) (contents k.keyboard))
      × IsValid kb
sys_read-delivers k b n given some ok v here =
    let (taken, left, v') = kbd_buf_read_refines (asked n) k.keyboard v in
    (
      (kbd_buf_read k.keyboard (asked n)).1,
      checked k b n given some ok
          ∙ ap (λ cs. read_or_wait k b (asked n) (cs, (kbd_buf_read k.keyboard (asked n)).1)) taken
          ∙ read_or_wait-cons k b (asked n) (take (asked n) (contents k.keyboard))
              (kbd_buf_read k.keyboard (asked n)).1
              (take_ne (asked n) (contents k.keyboard) positive here),
      left,
      v',
    )
  where
    positive : asked n ≢ 0
    positive = ground (arith, some)

    take_ne : (m : ℕ) (cs : List ℕ) → m ≢ 0 → cs ≢ [] → take m cs ≢ []
    take_ne zero cs a b = absurd (a refl)
    take_ne (suc m) [] a b = absurd (b refl)
    take_ne (suc m) (c ∷ cs) a b = λ e. ground (arith, e)

-- A process that runs and is in no list, the readers `ws` that wait already, and the processes that
-- are ready, `t` and then `ts`.
pub record CanWait (k : Kernel) (ws : List Ptr) (t : Ptr) (ts : List Ptr) : Type 0 where
  pub waiting : IsRing k.links k.heads.kbd_blocked (nodes ws)
  pub ready : IsRing k.links k.heads.readyqueue (nodes (t ∷ ts))
  pub detached : IsDetached k.links (list_of k.current)
  pub head_given : k.heads.kbd_blocked ≢ null
  pub other_pid : eq_ℤ (k.tasks k.current).pid (k.tasks t).pid ≡ false
  pub apart : Disjoint (k.heads.readyqueue ∷ nodes (t ∷ ts)) (k.heads.kbd_blocked ∷ nodes ws)
  pub out_waiting : list_of k.current ∉ (k.heads.kbd_blocked ∷ nodes ws)
  pub out_ready : list_of k.current ∉ (k.heads.readyqueue ∷ nodes (t ∷ ts))

module _ (k : Kernel) (ws : List Ptr) (t : Ptr) (ts : List Ptr) (c : CanWait k ws t ts) where
  abbrev queued : Links
  queued = list_add_tail k.links (list_of k.current) k.heads.kbd_blocked

  abbrev taken : Links
  taken = list_del queued (list_of t)

  queued-ready : IsRing queued k.heads.readyqueue (nodes (t ∷ ts))
  queued-ready =
      IsRing-frame k.links queued k.heads.readyqueue (nodes (t ∷ ts))
        (λ p i.
          list_add_tail-frame k.links (list_of k.current) k.heads.kbd_blocked c.waiting
            c.out_waiting p (c.apart p i)
            (ne_of_mem p (list_of k.current) (k.heads.readyqueue ∷ nodes (t ∷ ts)) i c.out_ready))
        c.ready

  taken-waiting : IsRing taken k.heads.kbd_blocked (nodes ws ++ list_of k.current ∷ [])
  taken-waiting =
      IsRing-frame queued taken k.heads.kbd_blocked (nodes ws ++ list_of k.current ∷ [])
        (λ p i. list_del-frame queued k.heads.readyqueue (list_of t) [] (nodes ts) queued-ready p (
          snoc-out k.heads.kbd_blocked (list_of k.current) p (nodes ws)
            (k.heads.readyqueue ∷ nodes (t ∷ ts))
            (Disjoint-symm (k.heads.readyqueue ∷ nodes (t ∷ ts)) (k.heads.kbd_blocked ∷ nodes ws)
              c.apart)
            c.out_ready i))
        (list_add_tail-IsRing k.links (list_of k.current) k.heads.kbd_blocked c.waiting
          c.out_waiting)

  -- The kernel once the reader is in the queue.
  abbrev asleep : Keyboard → (b : Ptr) → (n : ℕ) → Kernel
  asleep kb b n =
      record (set_task (record k { keyboard = kb }) k.current
        (record (k.tasks k.current) {
          kbd_chars_needed = n;
          kbd_user_buf = b;
          kbd_read_result = pos 0;
        })) { links = queued }

  wait_for_chars-asleep :
      (kb : Keyboard) (b : Ptr) (n : ℕ)
      → wait_for_chars (record k { keyboard = kb }) b n ≡ enter_next (asleep kb b n) (taken, t)
  unfolding wait_for_chars update_process_state_rr sched_next_rr
  wait_for_chars-asleep kb b n =
      let given : (k.heads.kbd_blocked == null) ≡ false = ground (arith, c.head_given) in
      rw
        (
          unlink-detached k.links (list_of k.current) c.detached,
          given,
          pick_next-cons (asleep kb b n) t ts queued-ready,
        )
        refl

  asleep-pid :
      (kb : Keyboard) (b : Ptr) (n : ℕ) (p : Ptr) → ((asleep kb b n).tasks p).pid ≡ (k.tasks p).pid
  asleep-pid kb b n p = ground arith

  asleep-Entered :
      (kb : Keyboard) (b : Ptr) (n : ℕ)
      → Entered (asleep kb b n) taken t (enter_next (asleep kb b n) (taken, t))
  asleep-Entered kb b n =
      enter_next-Entered (asleep kb b n) taken t (λ h.
        absurd (ground (arith, c.other_pid, asleep-pid kb b n k.current, asleep-pid kb b n t)))

enter_next-needed :
    (k : Kernel) (l : Links) (t p : Ptr)
    → ((enter_next k (l, t)).tasks p).kbd_chars_needed ≡ (k.tasks p).kbd_chars_needed
unfolding enter_next
enter_next-needed k l t p = ground arith

-- The state that a reader leaves: it is the last of the readers that wait, for `n` characters, and the
-- first process that was ready runs, in no queue; the others keep their places.
pub record Asleep (k : Kernel) (n : ℕ) (ws : List Ptr) (t : Ptr) (ts : List Ptr) (k' : Kernel)
    : Type 0 where
  pub current : k'.current ≡ t
  pub waiting : IsRing k'.links k'.heads.kbd_blocked (nodes (ws ++ k.current ∷ []))
  pub ready : IsRing k'.links k'.heads.readyqueue (nodes ts)
  pub detached : IsDetached k'.links (list_of t)
  pub needed : (k'.tasks k.current).kbd_chars_needed ≡ n

enter_next-Asleep :
    (k : Kernel) (kb : Keyboard) (b : Ptr) (n : ℕ) (ws : List Ptr) (t : Ptr) (ts : List Ptr)
    (c : CanWait k ws t ts)
    → Asleep k n ws t ts (wait_for_chars (record k { keyboard = kb }) b n)
enter_next-Asleep k kb b n ws t ts c = rw (wait_for_chars-asleep k ws t ts c kb b n) (
    let e = asleep-Entered k ws t ts c kb b n in
    let q = queued-ready k ws t ts c in
    let out = list_del-null (queued k ws t ts c) k.heads.readyqueue (list_of t) [] (nodes ts) q in
    record {
      current = e.current;
      waiting = rw (e.links, e.heads, nodes-snoc ws k.current) (taken-waiting k ws t ts c);
      ready =
          rw (e.links, e.heads)
            (list_del-IsRing (queued k ws t ts c) k.heads.readyqueue (list_of t) [] (nodes ts) q);
      detached = rw e.links (record { no_next = out.0; no_prev = out.1 });
      needed =
          enter_next-needed (asleep k ws t ts c kb b n) (taken k ws t ts c) t k.current
          ∙ ground arith;
    })

-- Where the keyboard buffer is valid and empty, the user buffer is not NULL and passes `access_ok`,
-- the count is not 0, the lists share no node and the first ready process has another PID,
-- `sys_read` notes how many characters its process needs, puts it behind the readers that wait, and
-- gives the processor to the first ready process, which is then in no queue.
pub sys_read-waits :
    (k : Kernel) (b : Ptr) (n : ℕ) (ws : List Ptr) (t : Ptr) (ts : List Ptr)
    → b ≢ null
    → n ≢ 0
    → access_ok verify_write b n ≡ true
    → IsValid k.keyboard
    → contents k.keyboard ≡ []
    → CanWait k ws t ts
    → (k' : Kernel) × (sys_read k b (pos n) ≡ waits (asked n) k') × Asleep k (asked n) ws t ts k'
unfolding read_or_wait
sys_read-waits k b n ws t ts given some ok v empty c =
    let kb = (kbd_buf_read k.keyboard (asked n)).1 in
    let nothing : (kbd_buf_read k.keyboard (asked n)).0 ≡ [] =
      (kbd_buf_read_refines (asked n) k.keyboard v).0
      ∙ ap (take (asked n)) empty
      ∙ take-nil (asked n) in
    (
      wait_for_chars (record k { keyboard = kb }) b (asked n),
      checked k b n given some ok ∙ ap (λ cs. read_or_wait k b (asked n) (cs, kb)) nothing,
      enter_next-Asleep k kb b (asked n) ws t ts c,
    )
  where
    nothing_read : List ℕ
    nothing_read = []

    take-nil : (m : ℕ) → take m [] ≡ nothing_read
    take-nil zero = refl
    take-nil (suc m) = refl
