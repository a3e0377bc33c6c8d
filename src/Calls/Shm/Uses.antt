-- ===== src/Calls/Shm/Uses.antt =====
-- Attaching a shared page, and detaching it again.
use zeos_soa.Prelude.{
  ℕ, zero, suc, ◌+◌, ◌-◌, ◌*◌, ◌/◌, ◌%◌, ◌^◌, ◌<◌, ◌≤◌, ◌≡◌, refl, ◌≢◌, true, false, ◌||◌, ltb, leb,
  some, ◌==◌, arith, Bool-cases, inl, inr, ap,
}
use zeos_soa.Prelude.Int.{ℤ, pos, negsuc, ltb_ℤ, eq_ℤ, suc_ℤ, pred_ℤ}
use zeos_soa.Paging.{
  Entries, zero_entry, slot, pt_entries, page_size, l_user_start, to_unsigned, set_ss_pag,
  del_ss_pag, frame_address,
}
use zeos_soa.Paging.Entries.{set_ss_pag_lem, set_ss_pag_other}
use zeos_soa.Kernel.{Kernel, Shared}
use zeos_soa.Calls.{user_table, load_cr3, get_dir}
use zeos_soa.Calls.Shm.{
  num_shared_pages, first_shared, find_entry, find_shared, ensure_frame, attach, attach_found,
  attached, sys_shmat, sys_shmdt, detach_found, drop_ref, cleanup_if_unused, index_of,
  is_shared_index, bad_id, set_refs,
}
use zeos_soa.Calls.Shm.Marks.{more}

pub find_shared-some :
    (n : ℕ) (s : Shared) (f i id : ℕ)
    → i ≤ id
    → id < i + n
    → ((j : ℕ) → j < id → eq_ℤ (s.shared_frames j) (pos f) ≡ false)
    → eq_ℤ (s.shared_frames id) (pos f) ≡ true
    → find_shared n s f i ≡ some id
unfolding find_shared
find_shared-some zero s f i id a b before here = absurd (omega (arith, a, b))
find_shared-some (suc n) s f i id a b before here = elim (Bool-cases (i == id)) [
  | inl e ↦ let same : i ≡ id = ground arith in rw (same, here) refl
  | inr e ↦
      let earlier : i < id = ground arith in
      rw (before i earlier)
        (find_shared-some n s f (i + 1) id (omega (arith, earlier)) (omega (arith, b)) before here)
]

-- The entry that the search of `sys_shmat` finds is in its range and not present.
find_entry-range :
    (n : ℕ) (e : Entries) (pt i idx : ℕ)
    → find_entry n e pt i ≡ some idx
    → (i ≤ idx) × (idx < i + n)
unfolding find_entry
find_entry-range zero e pt i idx h = absurd (ground (arith, h))
find_entry-range (suc n) e pt i idx h = ground (arith, find_entry-range n e pt (i + 1) idx)

pub drop_ref-unmarked :
    (k : Kernel) (id : ℕ)
    → k.shared.shared_marked_rm id ≡ 0
    → drop_ref k id ≡ record k { shared = set_refs k.shared id (pred_ℤ (k.shared.shared_refs id)) }
unfolding drop_ref cleanup_if_unused
drop_ref-unmarked k id m = elim (Bool-cases (eq_ℤ (pred_ℤ (k.shared.shared_refs id)) (pos 0))) [
  | inl e ↦ rw m (ground (arith, e))
  | inr e ↦ rw m (ground (arith, e))
]

pred-suc : (z : ℤ) → pred_ℤ (suc_ℤ z) ≡ z
pred-suc (pos n) = ground arith
pred-suc (negsuc zero) = refl
pred-suc (negsuc (suc n)) = refl

-- The shared page `id` is on frame `f`, which no page before it is on, and is not marked for removal;
-- `idx` is the first entry behind the pages of the process that is not present; and the table of the
-- user pages does not overlap the directory's entry for it.
pub record CanAttach (k : Kernel) (id f idx : ℕ) : Type 0 where
  pub id_in : id < num_shared_pages
  pub frame : k.shared.shared_frames id ≡ pos f
  pub frame_in : f < 2 ^ 20
  pub first : (j : ℕ) → j < id → eq_ℤ (k.shared.shared_frames j) (pos f) ≡ false
  pub unmarked : k.shared.shared_marked_rm id ≡ 0
  pub entry :
      find_entry (pt_entries - first_shared) k.entries (user_table k k.current) first_shared
      ≡ some idx
  pub apart : slot (user_table k k.current) idx ≢ slot (get_dir k k.current) 2

module _ (k : Kernel) (id f idx : ℕ) (c : CanAttach k id f idx) where
  abbrev pt : ℕ
  pt = user_table k k.current

  abbrev address : ℕ
  address = (l_user_start / page_size + idx) * page_size

  unsigned-frame : to_unsigned (pos f) ≡ f
  unfolding to_unsigned
  unsigned-frame = omega (arith, c.frame_in)

  -- The kernel with the page mapped and counted.
  abbrev mapped : Kernel
  mapped = record k { entries = set_ss_pag k.entries pt idx f 1; shared = more k.shared id }

  sys_shmat-mapped : sys_shmat k (pos id) 0 ≡ (pos address, load_cr3 mapped)
  unfolding sys_shmat ensure_frame attach attach_found attached
  sys_shmat-mapped =
      let good : bad_id (pos id) ≡ false = ground (arith, c.id_in) in
      let natural : ltb_ℤ (pos f) (pos 0) ≡ false = ground arith in
      rw (good, c.unmarked, c.frame, natural, c.entry, c.frame, natural, unsigned-frame) refl

  idx-range : (first_shared ≤ idx) × (idx < pt_entries)
  idx-range =
      let (low, high) =
        find_entry-range (pt_entries - first_shared) k.entries pt first_shared idx c.entry in
      (low, omega (arith, high))

  index_of-address : index_of (address / page_size) ≡ idx
  unfolding index_of
  index_of-address = omega (arith, idx-range)

  user_table-mapped : user_table (load_cr3 mapped) k.current ≡ pt
  unfolding user_table load_cr3
  user_table-mapped =
      ap (λ e. frame_address e.pbase_addr)
        (set_ss_pag_other k.entries pt idx f 1 (slot (get_dir k k.current) 2) c.apart)

  found-mapped : find_shared num_shared_pages mapped.shared f 0 ≡ some id
  found-mapped =
      find_shared-some num_shared_pages mapped.shared f 0 id (omega arith) (omega (arith, c.id_in))
        c.first (rw c.frame (ground arith))

  -- The kernel with the page taken out again.
  abbrev unmapped : Kernel
  unmapped = load_cr3 (record (load_cr3 mapped) { entries = del_ss_pag mapped.entries pt idx })

  sys_shmdt-unmapped : sys_shmdt (load_cr3 mapped) address ≡ (pos 0, drop_ref unmapped id)
  unfolding sys_shmdt load_cr3 is_shared_index detach_found
  sys_shmdt-unmapped =
      let aligned : address % page_size == 0 ≡ true = ground arith in
      let inside : (ltb idx first_shared || leb pt_entries idx) ≡ false =
        ground (arith, idx-range) in
      let (fr, pr, w, u) = set_ss_pag_lem k.entries pt idx f 1 c.frame_in (omega arith) in
      rw (aligned, index_of-address, user_table-mapped, inside, pr, fr, found-mapped) refl

  -- For a shared page that has a frame of its own below 2^20 and is not marked for removal, where
  -- the first free entry behind the pages of the process is `idx` and the table of the user pages
  -- does not overlap the directory's entry for it: `sys_shmat` with address 0 returns the address of
  -- the page of that entry, and `sys_shmdt` of that address then returns 0, with the count of uses
  -- and the frame as before and the entry cleared.
  pub sys_shmdt-sys_shmat :
      let (r, k1) = sys_shmat k (pos id) 0 in
      let (r', k2) = sys_shmdt k1 address in
      (r ≡ pos address)
      × (r' ≡ pos 0)
      × (k2.shared.shared_refs id ≡ k.shared.shared_refs id)
      × (k2.shared.shared_frames id ≡ pos f)
      × (k2.entries (slot pt idx) ≡ zero_entry)
  unfolding load_cr3 del_ss_pag
  sys_shmdt-sys_shmat =
      let same : id == id ≡ true = ground arith in
      rw (sys_shmat-mapped, sys_shmdt-unmapped, drop_ref-unmarked unmapped id c.unmarked)
        (refl, refl, rw same (pred-suc (k.shared.shared_refs id)), c.frame, ground arith)
