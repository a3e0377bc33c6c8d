-- ===== src/Sched/Switch.antt =====
-- Taking the next process from the ready queue, and entering it.
use zeos_soa.Prelude.{◌-◌, ◌≡◌, refl, true, List, [], ◌∷◌, map, arith, Bool-cases, inl, inr}
use zeos_soa.Prelude.Int.{pos, eq_ℤ}
use zeos_soa.Lists.{Ptr, null, Links, list_del}
use zeos_soa.Lists.Rings.{IsRing}
use zeos_soa.Lists.Walk.{list_empty-nil, list_empty-cons, list_first-cons}
use zeos_soa.Kernel.{Kernel, list_of}
use zeos_soa.Sched.{
  pick_next, enter_next, sched_next_rr, unlink, kernel_esp_of, update_process_state_rr,
  update_sched_data_rr, schedule, needs_sched_rr,
}

-- A node that is in no list: both its links are NULL.
pub record IsDetached (l : Links) (node : Ptr) : Type 0 where
  pub no_next : l.next node ≡ null
  pub no_prev : l.prev node ≡ null

pub unlink-detached : (l : Links) (node : Ptr) → IsDetached l node → unlink l node ≡ l
unfolding unlink
unlink-detached l node d = rw (d.no_next, d.no_prev)

-- The list nodes of tasks.
abbrev pub nodes : List Ptr → List Ptr
nodes = map list_of

pub pick_next-nil :
    (k : Kernel) → IsRing k.links k.heads.readyqueue [] → pick_next k ≡ (k.links, k.idle_task)
unfolding pick_next
pick_next-nil k r = rw (list_empty-nil k.links k.heads.readyqueue r)

pub pick_next-cons :
    (k : Kernel) (t : Ptr) (ts : List Ptr)
    → IsRing k.links k.heads.readyqueue (nodes (t ∷ ts))
    → pick_next k ≡ (list_del k.links (list_of t), t)
unfolding pick_next
pick_next-cons k t ts r =
    let same : list_of t - 8 ≡ t = omega arith in
    rw (
      list_empty-cons k.links k.heads.readyqueue (list_of t) r,
      list_first-cons k.links k.heads.readyqueue (list_of t) r,
      same,
    )

-- What `enter_next` leaves, given the links and the task that were picked.
pub record Entered (k : Kernel) (l : Links) (t : Ptr) (k' : Kernel) : Type 0 where
  pub links : k'.links ≡ l
  pub heads : k'.heads ≡ k.heads
  pub current : k'.current ≡ t
  pub remaining : k'.remaining_quantum ≡ pos (k.tasks t).quantum
  pub pid : (p : Ptr) → (k'.tasks p).pid ≡ (k.tasks p).pid
  pub quantum : (p : Ptr) → (k'.tasks p).quantum ≡ (k.tasks p).quantum

-- Where the task that was picked is the current one, or has another PID, it becomes the current one.
pub enter_next-Entered :
    (k : Kernel) (l : Links) (t : Ptr)
    → (eq_ℤ (k.tasks k.current).pid (k.tasks t).pid ≡ true → k.current ≡ t)
    → Entered k l t (enter_next k (l, t))
unfolding enter_next
enter_next-Entered k l t same = elim (Bool-cases (eq_ℤ (k.tasks k.current).pid (k.tasks t).pid)) [
  | inl e ↦
      let here = same e in
      rw e (record {
        links = refl;
        heads = refl;
        current = here;
        remaining = refl;
        pid = λ p. refl;
        quantum = λ p. refl;
      })
  | inr e ↦ rw e (record {
    links = ground arith;
    heads = ground arith;
    current = ground arith;
    remaining = ground arith;
    pid = λ p. ground arith;
    quantum = λ p. ground arith;
  })
]

-- The registers hold the address space and the stack of the current task.
pub record IsLoaded (k : Kernel) : Type 0 where
  pub space : k.cpu.cr3 ≡ (k.tasks k.current).dir_pages_base_addr
  pub stack : k.cpu.esp0 ≡ kernel_esp_of k.current
  pub sysenter_stack : k.cpu.sysenter_esp ≡ kernel_esp_of k.current

enter_next-IsLoaded :
    (k : Kernel) (l : Links) (t : Ptr) → IsLoaded k → IsLoaded (enter_next k (l, t))
unfolding enter_next
enter_next-IsLoaded k l t v = ground arith

-- Whichever process is entered, its address space and its kernel stack come with it.
pub sched_next_rr-IsLoaded : (k : Kernel) → IsLoaded k → IsLoaded (sched_next_rr k)
unfolding sched_next_rr
sched_next_rr-IsLoaded k v = enter_next-IsLoaded k (pick_next k).0 (pick_next k).1 v

update_process_state_rr-IsLoaded :
    (k : Kernel) (t q : Ptr) → IsLoaded k → IsLoaded (update_process_state_rr k t q)
unfolding update_process_state_rr
update_process_state_rr-IsLoaded k t q v = record {
  space = v.space;
  stack = v.stack;
  sysenter_stack = v.sysenter_stack;
}

update_sched_data_rr-IsLoaded : (k : Kernel) → IsLoaded k → IsLoaded (update_sched_data_rr k)
unfolding update_sched_data_rr
update_sched_data_rr-IsLoaded k v = record {
  space = v.space;
  stack = v.stack;
  sysenter_stack = v.sysenter_stack;
}

-- Where CR3, `tss.esp0` and the MSR 0x175 belong to the current process, they still do after
-- `schedule`.
pub schedule-IsLoaded : (k : Kernel) → IsLoaded k → IsLoaded (schedule k)
unfolding schedule
schedule-IsLoaded k v =
    let k' = update_sched_data_rr k in
    let v' = update_sched_data_rr-IsLoaded k v in
    elim (Bool-cases (needs_sched_rr k')) [
      | inl e ↦ rw e (
          sched_next_rr-IsLoaded _
            (update_process_state_rr-IsLoaded k' k'.current k'.heads.readyqueue v'))
      | inr e ↦ rw e v'
    ]
