-- ===== src/Calls/Process/Create.antt =====
-- A new process control block.
use zeos_soa.Prelude.{
  ◌≤◌, ◌<◌, ℕ, ◌*◌, ◌≡◌, refl, ◌≢◌, ◌⊎◌, inl, inr, false, List, [], ◌∷◌, ◌++◌, ◌==◌, ◌∉◌, arith,
  Bool-cases, ◌∙◌,
}
use zeos_soa.Prelude.Int.{pos, ltb_ℤ}
use zeos_soa.Lists.{Ptr, null, Links, init_list_head, set_next, set_prev}
use zeos_soa.Lists.Rings.{IsRing}
use zeos_soa.Lists.Add.{list_add_tail-IsRing, list_add_tail-frame}
use zeos_soa.Lists.Move.{IsRing-frame, ne_of_mem}
use zeos_soa.Frames.{total_pages}
use zeos_soa.Frames.Alloc.{Taken, alloc_frame_cases}
use zeos_soa.Paging.{page_size}
use zeos_soa.Kernel.{Kernel, list_of, task_list_of}
use zeos_soa.Sched.Switch.{IsDetached}
use zeos_soa.Calls.Process.{alloc_pcb, enlist, map_frame, new_frame}

-- The links of a new block before it joins the list of all processes.
abbrev cleared : Links → Ptr → Links
cleared l p =
    set_prev (set_next (init_list_head l (task_list_of p)) (list_of p) null) (list_of p) null

cleared-same :
    (l : Links) (p q : Ptr)
    → q ≢ task_list_of p
    → q ≢ list_of p
    → ((cleared l p).next q ≡ l.next q) × ((cleared l p).prev q ≡ l.prev q)
unfolding set_next set_prev init_list_head
cleared-same l p q a b = ground arith

cleared-IsDetached : (l : Links) (p : Ptr) → IsDetached (cleared l p) (list_of p)
unfolding set_next set_prev init_list_head
cleared-IsDetached l p = record { no_next = ground arith; no_prev = ground arith }

module _ (k : Kernel) (p : Ptr) (ts : List Ptr) (ring : IsRing k.links k.heads.list_tasks ts)
    (out : task_list_of p ∉ (k.heads.list_tasks ∷ ts))
    (out_list : list_of p ∉ (k.heads.list_tasks ∷ ts)) where
  cleared-IsRing : IsRing (cleared k.links p) k.heads.list_tasks ts
  cleared-IsRing =
      IsRing-frame k.links (cleared k.links p) k.heads.list_tasks ts
        (λ q i.
          cleared-same k.links p q (ne_of_mem q (task_list_of p) (k.heads.list_tasks ∷ ts) i out)
            (ne_of_mem q (list_of p) (k.heads.list_tasks ∷ ts) i out_list))
        ring

  enlist-IsRing : IsRing (enlist k p).links k.heads.list_tasks (ts ++ task_list_of p ∷ [])
  unfolding enlist
  enlist-IsRing =
      list_add_tail-IsRing (cleared k.links p) (task_list_of p) k.heads.list_tasks cleared-IsRing
        out

  enlist-IsDetached : IsDetached (enlist k p).links (list_of p)
  unfolding enlist
  enlist-IsDetached =
      let d = cleared-IsDetached k.links p in
      let (n, v) =
        list_add_tail-frame (cleared k.links p) (task_list_of p) k.heads.list_tasks cleared-IsRing
          out (list_of p) out_list (omega arith) in
      record { no_next = n ∙ d.no_next; no_prev = v ∙ d.no_prev }

-- What `alloc_pcb` leaves on success: the block is the page `i`, which was free, it is the last of
-- all processes, and it is in no queue.
pub record Created (k : Kernel) (ts : List Ptr) (i : ℕ) (k' : Kernel) : Type 0 where
  pub taken : Taken k.frames i k'.frames
  pub tasks : IsRing k'.links k.heads.list_tasks (ts ++ task_list_of (i * page_size) ∷ [])
  pub detached : IsDetached k'.links (list_of (i * page_size))

map_frame-same :
    (k : Kernel) (i : ℕ)
    → ((map_frame k i).links ≡ k.links)
      × ((map_frame k i).heads ≡ k.heads)
      × ((map_frame k i).frames ≡ k.frames)
unfolding map_frame
map_frame-same k i = elim (Bool-cases (k.kernel_page_table == null)) [
  | inl e ↦ rw e (refl, refl, refl)
  | inr e ↦ rw e (refl, refl, refl)
]

enlist-frames : (k : Kernel) (p : Ptr) → (enlist k p).frames ≡ k.frames
unfolding enlist
enlist-frames k p = refl

-- Where the blocks in the list of all processes are on pages in use, `alloc_pcb` either creates a
-- block, on the lowest free page behind the kernel, last in the list of all processes and in no
-- queue, or there is no free page behind the kernel, and it returns NULL and changes nothing.
pub alloc_pcb_cases :
    (k : Kernel) (ts : List Ptr)
    → IsRing k.links k.heads.list_tasks ts
    → ((i : ℕ) → k.frames.phys_mem i ≡ 0 → task_list_of (i * page_size) ∉ (k.heads.list_tasks ∷ ts))
    → ((i : ℕ) → k.frames.phys_mem i ≡ 0 → list_of (i * page_size) ∉ (k.heads.list_tasks ∷ ts))
    → ((i : ℕ) × (k' : Kernel) × (alloc_pcb k ≡ (i * page_size, k')) × Created k ts i k')
      ⊎ ((alloc_pcb k ≡ (null, k))
          × ((i : ℕ) → k.frames.last_kernel ≤ i → i < total_pages → k.frames.phys_mem i ≢ 0))
unfolding alloc_pcb new_frame map_frame
alloc_pcb_cases k ts ring out out_list = elim (alloc_frame_cases k.frames) [
  | inr (e, full) ↦ inr (rw e refl, full)
  | inl (i, g, e, t) ↦
      let k1 = map_frame (record k { frames = g }) i in
      let (sl, sh, sf) = map_frame-same (record k { frames = g }) i in
      let positive : ltb_ℤ (pos i) (pos 0) ≡ false = ground arith in
      let ring1 : IsRing k1.links k1.heads.list_tasks ts = rw (sl, sh) ring in
      let o1 : task_list_of (i * page_size) ∉ (k1.heads.list_tasks ∷ ts) =
        rw sh (out i t.was_free) in
      let o2 : list_of (i * page_size) ∉ (k1.heads.list_tasks ∷ ts) =
        rw sh (out_list i t.was_free) in
      inl (
        i,
        enlist k1 (i * page_size),
        rw (e, positive) refl,
        record {
          taken = rw (enlist-frames k1 (i * page_size), sf) t;
          tasks = rw sh at (enlist-IsRing k1 (i * page_size) ts ring1 o1 o2);
          detached = enlist-IsDetached k1 (i * page_size) ts ring1 o1 o2;
        },
      )
]
