-- ===== src/Places/Fork/Copied.antt =====
-- `sys_fork` up to `start_child`: a new block with a copy of the parent's fields and links.
use zeos_soa.Prelude.{
  ℕ, ◌*◌, ◌≡◌, refl, ◌≢◌, false, ◌==◌, arith, Bool-cases, inl, inr, ◌∙◌, ap, sym, subst,
  if◌then◌else◌,
}
use zeos_soa.Prelude.Int.{ℤ, pos, neg, pos_part, ltb_ℤ, suc_ℤ}
use zeos_soa.Lists.{Ptr, null, Links}
use zeos_soa.Frames.{Frames, alloc_frame}
use zeos_soa.Paging.{page_size}
use zeos_soa.Kernel.{
  Kernel, Task, Heads, set_task, list_of, sibling_of, task_list_of, children_blocked_of,
  children_unblocked_of,
}
use zeos_soa.Calls.{eagain, enomem}
use zeos_soa.Frames.Alloc.{alloc_frame_cases}
use zeos_soa.Calls.Process.{
  enlist, map_frame, new_frame, alloc_pcb, copy_links, copy_task, allocate_dir, fork_with_table,
  start_child, sys_fork, free_pcb,
}
use zeos_soa.Places.Fork.Quiet.{
  Keeps, Keeps-trans, Keeps-refl, Keeps-other, map_frame-Keeps, fork_with_table-Keeps,
}
use zeos_soa.Start.Places.{enlisted}

-- The lists of `k'` are those of `k`, and so are the processes besides `p`.
pub record Besides (p : Ptr) (k k' : Kernel) : Type 0 where
  pub links : k'.links ≡ k.links
  pub heads : k'.heads ≡ k.heads
  pub current : k'.current ≡ k.current
  pub idle_task : k'.idle_task ≡ k.idle_task
  pub remaining : k'.remaining_quantum ≡ k.remaining_quantum
  pub pid_global : k'.pid_global ≡ k.pid_global
  pub tasks : (t : Ptr) → t ≢ p → k'.tasks t ≡ k.tasks t

pub Besides-trans : (p : Ptr) (k m n : Kernel) → Besides p k m → Besides p m n → Besides p k n
Besides-trans p k m n a b = record {
  links = b.links ∙ a.links;
  heads = b.heads ∙ a.heads;
  current = b.current ∙ a.current;
  idle_task = b.idle_task ∙ a.idle_task;
  remaining = b.remaining ∙ a.remaining;
  pid_global = b.pid_global ∙ a.pid_global;
  tasks = λ t ne. b.tasks t ne ∙ a.tasks t ne;
}

Keeps-Besides : (p : Ptr) (k k' : Kernel) → Keeps k k' → Besides p k k'
Keeps-Besides p k k' a = record {
  links = a.links;
  heads = a.heads;
  current = a.current;
  idle_task = a.idle_task;
  remaining = a.remaining;
  pid_global = a.pid_global;
  tasks = λ t ne. ap (λ f. f t) a.tasks;
}

set_task-Besides : (p : Ptr) (k : Kernel) (v : Task) → Besides p k (set_task k p v)
set_task-Besides p k v = record {
  links = refl;
  heads = refl;
  current = refl;
  idle_task = refl;
  remaining = refl;
  pid_global = refl;
  tasks = λ t ne. ground (arith, ne);
}

allocate_dir-Besides : (k : Kernel) (p : Ptr) → Besides p k (allocate_dir k p).1
unfolding allocate_dir new_frame
allocate_dir-Besides k p =
    let (frame, g) = alloc_frame k.frames in
    let k1 = record k { frames = g } in
    let k2 = map_frame k1 (pos_part frame) in
    let v = record (k2.tasks p) { dir_pages_base_addr = pos_part frame * page_size } in
    let k3 = set_task k2 p v in
    elim (Bool-cases (ltb_ℤ frame (pos 0))) [
      | inl h ↦ rw h (Keeps-Besides p k k (Keeps-refl k))
      | inr h ↦ rw h (
          Besides-trans p k k1 _
            (Keeps-Besides p k k1 (Keeps-other k g k.entries k.pages k.shared k.cpu))
            (Besides-trans p k1 k2 _ (Keeps-Besides p k1 k2 (map_frame-Keeps k1 (pos_part frame))) (
              Besides-trans p k2 k3 _ (set_task-Besides p k2 v)
                (Keeps-Besides p k3 _ (Keeps-other k3 k3.frames _ k3.pages k3.shared k3.cpu)))))
    ]

-- The links of the block `p`, once it is in the list of all processes and has the links of `r`.
abbrev pub copied : Heads → Links → (r p : Ptr) → Links
copied h l r p =
    let l = enlisted h l p in
    let l = copy_links l (list_of r) (list_of p) in
    let l = copy_links l (children_blocked_of r) (children_blocked_of p) in
    let l = copy_links l (children_unblocked_of r) (children_unblocked_of p) in
    let l = copy_links l (sibling_of r) (sibling_of p) in
    copy_links l (task_list_of r) (task_list_of p)

-- The kernel with the copy.
abbrev pub with_copy : Kernel → Ptr → Kernel
with_copy k p =
    set_task (record k { links = copied k.heads k.links k.current p }) p (k.tasks k.current)

copy_task-Besides :
    (k m : Kernel) (p : Ptr) → Keeps k m → Besides p (with_copy k p) (copy_task (enlist m p) p)
unfolding copy_task enlist
copy_task-Besides k m p a = record {
  links =
      ap (λ h. copied h m.links m.current p) a.heads
      ∙ ap (λ l. copied k.heads l m.current p) a.links
      ∙ ap (λ r. copied k.heads k.links r p) a.current;
  heads = a.heads;
  current = a.current;
  idle_task = a.idle_task;
  remaining = a.remaining;
  pid_global = a.pid_global;
  tasks = λ t ne. ground (arith, ne, ap (λ f. f t) a.tasks);
}

-- `sys_fork` from what `alloc_pcb` returns.
abbrev fork_from : ℕ → Kernel → Ptr × Kernel → ℤ × Kernel
fork_from ret k (child, k1) =
    let k2 = (allocate_dir (copy_task k1 child) child).1 in
    let (frame, k3) = new_frame k2 in
    if child == null
    then (neg enomem, k)
    else if ltb_ℤ frame (pos 0)
    then (neg eagain, free_pcb k2 child)
    else fork_with_table ret k3 child (pos_part frame)

fork_from-Copied :
    (ret : ℕ) (k k1 : Kernel) (p : Ptr)
    → Besides p (with_copy k p) (copy_task k1 p)
    → ltb_ℤ (fork_from ret k (p, k1)).0 (pos 0) ≡ false
    → (k' : Kernel) × Besides p (with_copy k p) k'
      × (fork_from ret k (p, k1) ≡ (suc_ℤ k.pid_global, start_child ret k' p))
unfolding new_frame
fork_from-Copied ret k k1 p copy good =
    let k2 = (allocate_dir (copy_task k1 p) p).1 in
    let (frame, g) = alloc_frame k2.frames in
    let k3 = record k2 { frames = g } in
    elim (Bool-cases (p == null)) [
      | inl e ↦ absurd (ground (arith, e, good))
      | inr e ↦ elim (Bool-cases (ltb_ℤ frame (pos 0))) [
        | inl h ↦ absurd (ground (arith, e, h, good))
        | inr h ↦
            let fine : ltb_ℤ (fork_with_table ret k3 p (pos_part frame)).0 (pos 0) ≡ false =
              ground (arith, e, h, good) in
            let (k', keeps, eq) = fork_with_table-Keeps ret k3 p (pos_part frame) fine in
            let all = Besides-trans p (with_copy k p) (copy_task k1 p) k' copy (
              Besides-trans p (copy_task k1 p) k2 k' (allocate_dir-Besides (copy_task k1 p) p) (
                Besides-trans p k2 k3 k'
                  (Keeps-Besides p k2 k3 (Keeps-other k2 g k2.entries k2.pages k2.shared k2.cpu))
                  (Keeps-Besides p k3 k' keeps))) in
            (
              k',
              all,
              rw (e, h)
                  (eq
                    ∙ ap (λ n. (suc_ℤ n, start_child ret k' p))
                        (sym keeps.pid_global ∙ all.pid_global)),
            )
      ]
    ]

-- A call of `sys_fork` that does not fail comes to `start_child` on a page that was free.
pub sys_fork-Copied :
    (ret : ℕ) (k : Kernel)
    → ltb_ℤ (sys_fork ret k).0 (pos 0) ≡ false
    → (f : ℕ) × (g : Frames) × (k' : Kernel) × (alloc_frame k.frames ≡ (pos f, g))
      × ((alloc_pcb k).0 ≡ f * page_size)
      × Besides (f * page_size) (with_copy k (f * page_size)) k'
      × (sys_fork ret k ≡ (suc_ℤ k.pid_global, start_child ret k' (f * page_size)))
unfolding sys_fork alloc_pcb new_frame
sys_fork-Copied ret k good = elim (alloc_frame_cases k.frames) [
  | inl (f, g, e, taken) ↦
      let k0 = record k { frames = g } in
      let p = f * page_size in
      let positive : ltb_ℤ (pos f) (pos 0) ≡ false = ground arith in
      let block : alloc_pcb k ≡ (p, enlist (map_frame k0 f) p) = rw (e, positive) refl in
      let m = map_frame k0 f in
      let keeps =
        Keeps-trans k k0 m (Keeps-other k g k.entries k.pages k.shared k.cpu)
          (map_frame-Keeps k0 f) in
      let (k', besides, eq) =
        fork_from-Copied ret k (enlist m p) p (copy_task-Besides k m p keeps)
          (subst (λ r. ltb_ℤ (fork_from ret k r).0 (pos 0) ≡ false) block good) in
      (f, g, k', e, ap (λ x. x.0) block, besides, ap (fork_from ret k) block ∙ eq)
  | inr (e, full) ↦
      let block : alloc_pcb k ≡ (null, k) = rw e refl in
      let failed : ltb_ℤ (fork_from ret k (null, k)).0 (pos 0) ≡ false =
        subst (λ r. ltb_ℤ (fork_from ret k r).0 (pos 0) ≡ false) block good in
      absurd (ground (arith, failed))
]
