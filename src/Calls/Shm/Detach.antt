-- ===== src/Calls/Shm/Detach.antt =====
-- What a use less of a shared page changes, and `sys_shmdt`, which takes one away.
use zeos_soa.Prelude.{
  ℕ, zero, suc, ◌/◌, ◌%◌, ◌^◌, ◌<◌, ◌≡◌, refl, ◌≢◌, Bool, true, false, ◌==◌, ◌&&◌, if◌then◌else◌,
  arith, Bool-cases, inl, inr,
}
use zeos_soa.Prelude.Int.{ℤ, pos, negsuc, eq_ℤ, pred_ℤ}
use zeos_soa.Frames.{Frames, free_frame}
use zeos_soa.Paging.{slot, page_size, to_unsigned, get_frame, del_ss_pag}
use zeos_soa.Kernel.{Kernel, Shared}
use zeos_soa.Calls.{user_table, load_cr3}
use zeos_soa.Calls.Shm.{
  num_shared_pages, drop_ref, cleanup_if_unused, cleanup_shared_page, scrub, zero_page, set_refs,
  detach_found, sys_shmdt, index_of, is_shared_index,
}
use zeos_soa.Calls.Shm.Marks.{MarksOk, cleanup-shared, drop_ref-MarksOk}
use zeos_soa.Calls.Shm.Uses.{find_shared-some}

-- The page is marked for removal, and has one use.
abbrev pub is_last : Shared → ℕ → Bool
is_last s id = eq_ℤ (s.shared_refs id) (pos 1) && (s.shared_marked_rm id == 1)

-- Page `id`, on frame `f`, has one use less in `s'` than in `s`. If it was the last one of a page that
-- is marked for removal, its frame is free and the page is as new; else it keeps its frame and its
-- mark. Nothing changes of the other shared pages.
pub record UseDropped (s : Shared) (g : Frames) (id f : ℕ) (s' : Shared) (g' : Frames)
    : Type 0 where
  pub refs : s'.shared_refs id ≡ pred_ℤ (s.shared_refs id)
  pub frame : s'.shared_frames id ≡ (if is_last s id then negsuc 0 else pos f)
  pub mark : s'.shared_marked_rm id ≡ (if is_last s id then 0 else s.shared_marked_rm id)
  pub freed : g' ≡ (if is_last s id then free_frame g f else g)
  pub others :
      (j : ℕ)
      → j ≢ id
      → (s'.shared_refs j ≡ s.shared_refs j)
        × (s'.shared_frames j ≡ s.shared_frames j)
        × (s'.shared_marked_rm j ≡ s.shared_marked_rm j)

pred-one : (z : ℤ) → eq_ℤ (pred_ℤ z) (pos 0) ≡ eq_ℤ z (pos 1)
pred-one (pos zero) = refl
pred-one (pos (suc n)) = ground arith
pred-one (negsuc n) = refl

one-pred : (z : ℤ) → eq_ℤ z (pos 1) ≡ true → pos 0 ≡ pred_ℤ z
one-pred (pos zero) h = absurd (ground arith)
one-pred (pos (suc n)) h = let none : n ≡ 0 = ground arith in rw none refl
one-pred (negsuc n) h = absurd (ground arith)

-- The kernel once the use is counted off.
abbrev counted : Kernel → ℕ → Kernel
counted k id = record k { shared = set_refs k.shared id (pred_ℤ (k.shared.shared_refs id)) }

drop_ref-last :
    (k : Kernel) (id : ℕ)
    → drop_ref k id
      ≡ (if is_last k.shared id then cleanup_shared_page (counted k id) id else counted k id)
unfolding drop_ref cleanup_if_unused
drop_ref-last k id =
    let same : id == id ≡ true = ground arith in rw (same, pred-one (k.shared.shared_refs id)) refl

cleanup-frames :
    (k : Kernel) (id : ℕ)
    → (cleanup_shared_page k id).frames
      ≡ free_frame k.frames (to_unsigned (k.shared.shared_frames id))
unfolding cleanup_shared_page scrub load_cr3 zero_page
cleanup-frames k id = refl

to_unsigned-pos : (f : ℕ) → f < 2 ^ 32 → to_unsigned (pos f) ≡ f
unfolding to_unsigned
to_unsigned-pos f small = omega (arith, small)

pub drop_ref-UseDropped :
    (k : Kernel) (id f : ℕ)
    → k.shared.shared_frames id ≡ pos f
    → f < 2 ^ 32
    → let k' = drop_ref k id in UseDropped k.shared k.frames id f k'.shared k'.frames
drop_ref-UseDropped k id f at small =
    let same : id == id ≡ true = ground arith in
    elim (Bool-cases (is_last k.shared id)) [
      | inl e ↦
          let one : eq_ℤ (k.shared.shared_refs id) (pos 1) ≡ true = ground (arith, e) in
          rw
            (
              drop_ref-last k id,
              e,
              cleanup-shared (counted k id) id,
              cleanup-frames (counted k id) id,
            )
            (record {
              refs = rw same (one-pred (k.shared.shared_refs id) one);
              frame = rw (e, same) refl;
              mark = rw (e, same) refl;
              freed = rw (e, at, to_unsigned-pos f small) refl;
              others = λ j ne. ground arith;
            })
      | inr e ↦
          rw (drop_ref-last k id, e)
            (record {
              refs = rw same refl;
              frame = rw e at;
              mark = rw e refl;
              freed = rw e refl;
              others = λ j ne. ground arith;
            })
    ]

-- A shared page that the process of `k` has mapped at `addr`: page `id`, on frame `f`, which no page
-- before it is on.
pub record CanDetach (k : Kernel) (addr id f : ℕ) : Type 0 where
  pub aligned : addr % page_size ≡ 0
  pub inside : is_shared_index (index_of (addr / page_size)) ≡ true
  pub present :
      (k.entries (slot (user_table k k.current) (index_of (addr / page_size)))).present ≢ 0
  pub mapped : get_frame k.entries (user_table k k.current) (index_of (addr / page_size)) ≡ f
  pub id_in : id < num_shared_pages
  pub frame : k.shared.shared_frames id ≡ pos f
  pub frame_in : f < 2 ^ 32
  pub first : (j : ℕ) → j < id → eq_ℤ (k.shared.shared_frames j) (pos f) ≡ false

sys_shmdt-detached :
    (k : Kernel) (addr id f : ℕ)
    → CanDetach k addr id f
    → let pt = user_table k k.current in
      sys_shmdt k addr ≡ (
        pos 0,
        drop_ref
            (load_cr3
              (record k { entries = del_ss_pag k.entries pt (index_of (addr / page_size)) }))
            id,
      )
unfolding sys_shmdt detach_found
sys_shmdt-detached k addr id f c =
    let pt = user_table k k.current in
    let idx = index_of (addr / page_size) in
    let aligned : (addr % page_size == 0) ≡ true = ground (arith, c.aligned) in
    let there : ((k.entries (slot pt idx)).present == 0) ≡ false = ground (arith, c.present) in
    let here : eq_ℤ (k.shared.shared_frames id) (pos f) ≡ true = rw c.frame (ground arith) in
    let found =
      find_shared-some num_shared_pages k.shared f 0 id (omega arith) (omega (arith, c.id_in))
        c.first here in
    rw (aligned, c.inside, there, c.mapped, found) refl

-- Where the address is that of a page of the process that is mapped, behind its own pages, on the
-- frame of shared page `id` (the first shared page on this frame), and every marked page has a frame
-- and is in use: `sys_shmdt` returns 0, and page `id` has one use less; if that was the last use of
-- a page marked for removal, its frame is freed and the page is as new, without frame and mark, and
-- else it keeps both; the other shared pages stay as they are; and every marked page still has a
-- frame and is in use.
pub sys_shmdt-drops :
    (k : Kernel) (addr id f : ℕ)
    → CanDetach k addr id f
    → MarksOk k.shared
    → let (r, k') = sys_shmdt k addr in
      (r ≡ pos 0) × UseDropped k.shared k.frames id f k'.shared k'.frames × MarksOk k'.shared
unfolding load_cr3
sys_shmdt-drops k addr id f c m =
    let pt = user_table k k.current in
    let k1 =
      load_cr3 (record k { entries = del_ss_pag k.entries pt (index_of (addr / page_size)) }) in
    rw (sys_shmdt-detached k addr id f c)
      (refl, drop_ref-UseDropped k1 id f c.frame c.frame_in, drop_ref-MarksOk k1 id m)
