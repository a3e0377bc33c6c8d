-- ===== src/Calls/Process/Exit.antt =====
-- What `sys_exit` does to the shared pages.
use zeos_soa.Prelude.{
  ℕ, zero, suc, ◌+◌, ◌-◌, ◌≡◌, refl, Option, none, some, ◌==◌, arith, Bool-cases, inl, inr,
}
use zeos_soa.Lists.{Ptr, Links}
use zeos_soa.Paging.{slot, pt_entries}
use zeos_soa.Kernel.{Kernel}
use zeos_soa.Sched.{enter_next, sched_next_rr, pick_next}
use zeos_soa.Calls.{load_cr3, user_table}
use zeos_soa.Calls.Shm.{first_shared}
use zeos_soa.Calls.Shm.Marks.{MarksOk, drop_ref-MarksOk}
use zeos_soa.Calls.Process.{drop_found, drop_entry, drop_shared, release_pages, free_pcb, sys_exit}

drop_found-MarksOk :
    (k : Kernel) (ut idx : ℕ) (o : Option ℕ)
    → MarksOk k.shared
    → MarksOk (drop_found k ut idx o).shared
unfolding drop_found
drop_found-MarksOk k ut idx none m = m
drop_found-MarksOk k ut idx (some id) m = drop_ref-MarksOk _ id m

drop_entry-MarksOk :
    (k : Kernel) (ut idx : ℕ) → MarksOk k.shared → MarksOk (drop_entry k ut idx).shared
unfolding drop_entry
drop_entry-MarksOk k ut idx m = elim (Bool-cases ((k.entries (slot ut idx)).present == 0)) [
  | inl e ↦ rw e m
  | inr e ↦ rw e (drop_found-MarksOk k ut idx _ m)
]

drop_shared-MarksOk :
    (n : ℕ) (k : Kernel) (ut idx : ℕ) → MarksOk k.shared → MarksOk (drop_shared n k ut idx).shared
unfolding drop_shared
drop_shared-MarksOk zero k ut idx m = m
drop_shared-MarksOk (suc n) k ut idx m =
    drop_shared-MarksOk n (drop_entry k ut idx) ut (idx + 1) (drop_entry-MarksOk k ut idx m)

pub enter_next-shared : (k : Kernel) (l : Links) (t : Ptr) → (enter_next k (l, t)).shared ≡ k.shared
unfolding enter_next
enter_next-shared k l t = ground arith

pub release_pages-shared : (k : Kernel) (ut : ℕ) → (release_pages k ut).shared ≡ k.shared
unfolding release_pages free_pcb
release_pages-shared k ut = refl

-- `sys_exit` keeps the invariant that a shared page that is marked for removal has a frame and is in
-- use, whatever shared pages the process had.
pub sys_exit-MarksOk : (k : Kernel) → MarksOk k.shared → MarksOk (sys_exit k).shared
unfolding sys_exit sched_next_rr load_cr3
sys_exit-MarksOk k m =
    let ut = user_table k k.current in
    let k1 = load_cr3 (drop_shared (pt_entries - first_shared) k ut first_shared) in
    let k2 = release_pages k1 ut in
    rw (enter_next-shared k2 (pick_next k2).0 (pick_next k2).1, release_pages-shared k1 ut)
      (drop_shared-MarksOk (pt_entries - first_shared) k ut first_shared m)
