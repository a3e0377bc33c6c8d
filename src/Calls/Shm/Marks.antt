-- ===== src/Calls/Shm/Marks.antt =====
-- No shared page that is marked for removal outlives its last use.
use zeos_soa.Prelude.{
  ℕ, ◌<◌, ◌/◌, ◌%◌, ◌≡◌, refl, ◌≢◌, ◌⊎◌, false, Option, none, some, ◌==◌, ◌&&◌, arith, Bool-cases,
  inl, inr,
}
use zeos_soa.Prelude.Int.{ℤ, pos, negsuc, ltb_ℤ, eq_ℤ, suc_ℤ, pred_ℤ, pos_part}
use zeos_soa.Kernel.{Kernel, Shared}
use zeos_soa.Calls.Shm.{
  num_shared_pages, cleanup_shared_page, cleanup_if_unused, drop_ref, scrub, zero_page,
  mark_removed, sys_shmrm, sys_shmdt, detach_found, bad_id, is_shared_index, index_of, set_marked,
  set_refs, set_frame,
}
use zeos_soa.Paging.{page_size, slot}
use zeos_soa.Calls.{load_cr3, user_table}

-- The state of one shared page: a mark is 0 or 1; a page that is marked has a frame and is in use.
abbrev pub PageOk : (frame refs : ℤ) → (mark : ℕ) → Type 0
PageOk frame refs mark =
    (mark ≡ 0) ⊎ ((mark ≡ 1) × (eq_ℤ refs (pos 0) ≡ false) × (ltb_ℤ frame (pos 0) ≡ false))

abbrev pub MarksOk : Shared → Type 0
MarksOk s =
    (i : ℕ)
    → i < num_shared_pages
    → PageOk (s.shared_frames i) (s.shared_refs i) (s.shared_marked_rm i)

pub scrub-shared : (k : Kernel) (frame : ℕ) → (scrub k frame).shared ≡ k.shared
unfolding scrub load_cr3 zero_page
scrub-shared k frame = refl

-- What `cleanup_shared_page` makes of the shared pages.
abbrev pub cleaned : Shared → ℕ → Shared
cleaned s id = set_refs (set_marked (set_frame s id (negsuc 0)) id 0) id (pos 0)

pub cleanup-shared : (k : Kernel) (id : ℕ) → (cleanup_shared_page k id).shared ≡ cleaned k.shared id
unfolding cleanup_shared_page scrub load_cr3 zero_page
cleanup-shared k id = refl

cleaned-MarksOk :
    (s : Shared) (id : ℕ)
    → ((i : ℕ)
        → i < num_shared_pages
        → i ≢ id
        → PageOk (s.shared_frames i) (s.shared_refs i) (s.shared_marked_rm i))
    → MarksOk (cleaned s id)
cleaned-MarksOk s id m i lt = elim (Bool-cases (id == i)) [
  | inl e ↦ rw e (inl refl)
  | inr e ↦ rw e (m i lt (ground arith))
]

pub drop_ref-MarksOk : (k : Kernel) (id : ℕ) → MarksOk k.shared → MarksOk (drop_ref k id).shared
unfolding drop_ref cleanup_if_unused
drop_ref-MarksOk k id m =
    let k1 = record k { shared = set_refs k.shared id (pred_ℤ (k.shared.shared_refs id)) } in
    elim (Bool-cases
      (eq_ℤ (k1.shared.shared_refs id) (pos 0) && (k1.shared.shared_marked_rm id == 1))) [
        | inl e ↦
            rw (e, cleanup-shared k1 id)
              (cleaned-MarksOk k1.shared id (λ i lt ne. ground (arith, m i)))
        | inr e ↦ rw e (λ i lt. ground (arith, m i))
      ]

mark_removed-MarksOk :
    (k : Kernel) (id : ℕ)
    → ltb_ℤ (k.shared.shared_frames id) (pos 0) ≡ false
    → MarksOk k.shared
    → MarksOk (mark_removed k id).shared
unfolding mark_removed
mark_removed-MarksOk k id f m =
    let k1 = record k { shared = set_marked k.shared id 1 } in
    elim (Bool-cases (eq_ℤ (k1.shared.shared_refs id) (pos 0))) [
      | inl e ↦
          rw (e, cleanup-shared k1 id)
            (cleaned-MarksOk k1.shared id (λ i lt ne. ground (arith, m i)))
      | inr e ↦ rw e (λ i lt. ground (arith, m i))
    ]

-- One more use of a shared page.
abbrev pub more : Shared → ℕ → Shared
more s id = set_refs s id (suc_ℤ (s.shared_refs id))

detach_found-MarksOk :
    (k : Kernel) (pt i : ℕ) (o : Option ℕ)
    → MarksOk k.shared
    → MarksOk (detach_found k pt i o).1.shared
unfolding detach_found load_cr3
detach_found-MarksOk k pt i none m = m
detach_found-MarksOk k pt i (some id) m = drop_ref-MarksOk _ id m

-- `sys_shmdt` keeps the invariant that a shared page that is marked for removal has a frame and is
-- in use.
pub sys_shmdt-MarksOk :
    (k : Kernel) (addr : ℕ) → MarksOk k.shared → MarksOk (sys_shmdt k addr).1.shared
unfolding sys_shmdt
sys_shmdt-MarksOk k addr m = elim (Bool-cases (addr % page_size == 0)) [
  | inr e ↦ rw e m
  | inl e ↦ rw e (elim (Bool-cases (is_shared_index (index_of (addr / page_size)))) [
    | inr e1 ↦ rw e1 m
    | inl e1 ↦
        rw e1
          (elim (Bool-cases (
            (k.entries (slot (user_table k k.current) (index_of (addr / page_size)))).present
            == 0)) [ inl e2 ↦ rw e2 m | inr e2 ↦ rw e2 (detach_found-MarksOk k _ _ _ m) ])
  ])
]

-- `sys_shmrm` keeps the invariant that a shared page that is marked for removal has a frame and is
-- in use.
pub sys_shmrm-MarksOk : (k : Kernel) (id : ℤ) → MarksOk k.shared → MarksOk (sys_shmrm k id).1.shared
unfolding sys_shmrm
sys_shmrm-MarksOk k id m = elim (Bool-cases (bad_id id)) [
  | inl e ↦ rw e m
  | inr e ↦ rw e (elim (Bool-cases (ltb_ℤ (k.shared.shared_frames (pos_part id)) (pos 0))) [
    | inl e1 ↦ rw e1 m
    | inr e1 ↦ rw e1 (mark_removed-MarksOk k (pos_part id) e1 m)
  ])
]
