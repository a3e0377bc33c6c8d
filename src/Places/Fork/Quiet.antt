-- ===== src/Places/Fork/Quiet.antt =====
-- The parts of `sys_fork` that copy pages change no process and no list.
use zeos_soa.Prelude.{
  ℕ, zero, suc, ◌+◌, ◌-◌, ◌*◌, ◌≡◌, refl, Bool, true, false, List, [], ◌∷◌, ◌==◌, Option, some,
  none, arith, Bool-cases, inl, inr, ◌∙◌, ap,
}
use zeos_soa.Prelude.Int.{pos, pos_part, ltb_ℤ, suc_ℤ}
use zeos_soa.Lists.{null}
use zeos_soa.Paging.{
  Entries, slot, page_size, pt_entries, num_pag_data, num_pag_code, set_ss_pag, get_frame,
  clear_page_table,
}
use zeos_soa.Kernel.{Kernel, Shared, Cpu}
use zeos_soa.Frames.{Frames, alloc_frame}
use zeos_soa.Calls.{load_cr3, get_dir, user_table}
use zeos_soa.Calls.Shm.{first_shared}
use zeos_soa.Calls.Process.{
  map_frame, new_frame, alloc_data, copy_page, copy_pages, inherit_found, inherit_entry,
  inherit_shared, start_child, fork_copied, fork_with_table, share_code,
}

-- The processes and the lists of `k'` are those of `k`.
pub record Keeps (k k' : Kernel) : Type 0 where
  pub links : k'.links ≡ k.links
  pub heads : k'.heads ≡ k.heads
  pub current : k'.current ≡ k.current
  pub idle_task : k'.idle_task ≡ k.idle_task
  pub remaining : k'.remaining_quantum ≡ k.remaining_quantum
  pub tasks : k'.tasks ≡ k.tasks
  pub pid_global : k'.pid_global ≡ k.pid_global

pub Keeps-refl : (k : Kernel) → Keeps k k
Keeps-refl k = record {
  links = refl;
  heads = refl;
  current = refl;
  idle_task = refl;
  remaining = refl;
  tasks = refl;
  pid_global = refl;
}

pub Keeps-trans : (k m n : Kernel) → Keeps k m → Keeps m n → Keeps k n
Keeps-trans k m n a b = record {
  links = b.links ∙ a.links;
  heads = b.heads ∙ a.heads;
  current = b.current ∙ a.current;
  idle_task = b.idle_task ∙ a.idle_task;
  remaining = b.remaining ∙ a.remaining;
  tasks = b.tasks ∙ a.tasks;
  pid_global = b.pid_global ∙ a.pid_global;
}

-- What `sys_fork` changes besides.
pub Keeps-other :
    (k : Kernel) (f : Frames) (e : Entries) (p : ℕ → ℕ → ℕ) (s : Shared) (c : Cpu)
    → Keeps k (record k { frames = f; entries = e; pages = p; shared = s; cpu = c })
Keeps-other k f e p s c = record {
  links = refl;
  heads = refl;
  current = refl;
  idle_task = refl;
  remaining = refl;
  tasks = refl;
  pid_global = refl;
}

pub map_frame-Keeps : (k : Kernel) (frame : ℕ) → Keeps k (map_frame k frame)
unfolding map_frame
map_frame-Keeps k frame = elim (Bool-cases (k.kernel_page_table == null)) [
  | inl e ↦ rw e (Keeps-refl k)
  | inr e ↦ rw e (Keeps-other k k.frames _ k.pages k.shared k.cpu)
]

alloc_data-Keeps : (n : ℕ) (k : Kernel) (c i : ℕ) → Keeps k (alloc_data n k c i).2
unfolding alloc_data new_frame
alloc_data-Keeps zero k c i = Keeps-refl k
alloc_data-Keeps (suc n) k c i =
    let (frame, g) = alloc_frame k.frames in
    let e = set_ss_pag k.entries c i (pos_part frame) 1 in
    let k1 = record k { frames = g; entries = e } in
    elim (Bool-cases (ltb_ℤ frame (pos 0))) [
      | inl h ↦ rw h (Keeps-refl k)
      | inr h ↦ rw h (
          Keeps-trans k k1 _ (Keeps-other k g e k.pages k.shared k.cpu)
            (alloc_data-Keeps n k1 c (i + 1)))
    ]

copy_pages-Keeps : (fs : List ℕ) (k : Kernel) (i : ℕ) → Keeps k (copy_pages k fs i)
unfolding copy_pages copy_page load_cr3
copy_pages-Keeps [] k i = Keeps-refl k
copy_pages-Keeps (f ∷ fs) k i =
    Keeps-trans k _ _ (Keeps-other k k.frames _ _ k.shared _) (copy_pages-Keeps fs _ (i + 1))

inherit_found-Keeps :
    (k : Kernel) (c idx frame : ℕ) (o : Option ℕ) → Keeps k (inherit_found k c idx frame o)
unfolding inherit_found
inherit_found-Keeps k c idx frame none = Keeps-refl k
inherit_found-Keeps k c idx frame (some i) = Keeps-other k k.frames _ k.pages _ k.cpu

inherit_shared-Keeps : (n : ℕ) (k : Kernel) (p c idx : ℕ) → Keeps k (inherit_shared n k p c idx)
unfolding inherit_shared inherit_entry
inherit_shared-Keeps zero k p c idx = Keeps-refl k
inherit_shared-Keeps (suc n) k p c idx =
    Keeps-trans k (inherit_entry k p c idx) _ (entry k p c idx)
      (inherit_shared-Keeps n (inherit_entry k p c idx) p c (idx + 1))
  where
    entry : (k : Kernel) (p c idx : ℕ) → Keeps k (inherit_entry k p c idx)
    entry k p c idx = elim (Bool-cases ((k.entries (slot p idx)).present == 0)) [
      | inl e ↦ rw e (Keeps-refl k)
      | inr e ↦ rw e (inherit_found-Keeps k c idx (get_frame k.entries p idx) _)
    ]

load_cr3-Keeps : (k : Kernel) → Keeps k (load_cr3 k)
unfolding load_cr3
load_cr3-Keeps k = Keeps-other k k.frames k.entries k.pages k.shared _

fork_copied-Keeps :
    (ret child ut p : ℕ) (r : Bool × List ℕ × Kernel)
    → ltb_ℤ (fork_copied ret child ut p r).0 (pos 0) ≡ false
    → (k' : Kernel) × Keeps r.2 k'
      × (fork_copied ret child ut p r ≡ (suc_ℤ r.2.pid_global, start_child ret k' child))
unfolding fork_copied
fork_copied-Keeps ret child ut p (false, fs, k) good = absurd (ground arith)
fork_copied-Keeps ret child ut p (true, fs, k) good =
    let k1 = load_cr3 (copy_pages k fs 0) in
    let k2 = inherit_shared (pt_entries - first_shared) k1 p (ut * page_size) first_shared in
    (
      k2,
      Keeps-trans k k1 k2
          (Keeps-trans k (copy_pages k fs 0) k1 (copy_pages-Keeps fs k 0)
            (load_cr3-Keeps (copy_pages k fs 0)))
          (inherit_shared-Keeps (pt_entries - first_shared) k1 p (ut * page_size) first_shared),
      refl,
    )

-- A call of `fork_with_table` that does not fail comes to `start_child`.
pub fork_with_table-Keeps :
    (ret : ℕ) (k : Kernel) (child ut : ℕ)
    → ltb_ℤ (fork_with_table ret k child ut).0 (pos 0) ≡ false
    → (k' : Kernel) × Keeps k k'
      × (fork_with_table ret k child ut ≡ (suc_ℤ k.pid_global, start_child ret k' child))
unfolding fork_with_table
fork_with_table-Keeps ret k child ut good =
    let k1 = map_frame k ut in
    let e = set_ss_pag (clear_page_table k1.entries (ut * page_size)) (get_dir k1 child) 2 ut 1 in
    let p = user_table (record k1 { entries = e }) k1.current in
    let k2 = record k1 { entries = share_code num_pag_code e p (ut * page_size) 0 } in
    let r = alloc_data num_pag_data k2 (ut * page_size) 0 in
    let (k', keeps, eq) = fork_copied-Keeps ret child ut p r good in
    let before = Keeps-trans k k1 r.2 (map_frame-Keeps k ut) (
      Keeps-trans k1 k2 r.2 (Keeps-other k1 k1.frames _ k1.pages k1.shared k1.cpu)
        (alloc_data-Keeps num_pag_data k2 (ut * page_size) 0)) in
    (
      k',
      Keeps-trans k r.2 k' before keeps,
      eq ∙ ap (λ n. (suc_ℤ n, start_child ret k' child)) before.pid_global,
    )
