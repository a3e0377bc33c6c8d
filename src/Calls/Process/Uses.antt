-- ===== src/Calls/Process/Uses.antt =====
-- How many uses of a shared page `sys_exit` gives back.
use zeos_soa.Prelude.{
  subst, ap, ◌∙◌, sym, ◌≤◌, ◌<◌, ◌≢◌, Bool, not, ◌&&◌, true, false, if◌then◌else◌, ℕ, zero, suc,
  ◌+◌, ◌-◌, ◌≡◌, refl, Option, none, some, ◌==◌, arith, Bool-cases, inl, inr,
}
use zeos_soa.Paging.{Entries, slot, pt_entries, del_ss_pag, get_frame}
use zeos_soa.Prelude.Int.{ℤ, pos, eq_ℤ, pred_ℤ}
use zeos_soa.Calls.Shm.Uses.{find_shared-some, drop_ref-unmarked}
use zeos_soa.Kernel.{Kernel, Shared}
use zeos_soa.Sched.{sched_next_rr, pick_next}
use zeos_soa.Calls.{load_cr3, user_table}
use zeos_soa.Calls.Shm.{first_shared, num_shared_pages, find_shared, set_refs}
use zeos_soa.Calls.Process.{drop_found, drop_entry, drop_shared, release_pages, sys_exit}
use zeos_soa.Calls.Process.Exit.{enter_next-shared, release_pages-shared}

-- The entries of the user table `ut` from `idx` on, as many as there are rounds, that are on frame `f`.
abbrev is_on : Entries → (ut idx f : ℕ) → Bool
is_on e ut idx f = not ((e (slot ut idx)).present == 0) && ((e (slot ut idx)).pbase_addr == f)

unfoldable pub uses : (rounds : ℕ) → Entries → (ut idx f : ℕ) → ℕ
uses zero e ut idx f = 0
uses (suc n) e ut idx f = (if is_on e ut idx f then 1 else 0) + uses n e ut (idx + 1) f

uses-same :
    (n : ℕ) (e e' : Entries) (ut idx f : ℕ)
    → ((j : ℕ) → idx ≤ j → e' (slot ut j) ≡ e (slot ut j))
    → uses n e' ut idx f ≡ uses n e ut idx f
unfolding uses
uses-same zero e e' ut idx f same = refl
uses-same (suc n) e e' ut idx f same =
    let here = same idx (omega arith) in
    let rest = uses-same n e e' ut (idx + 1) f (λ j le. same j (omega (arith, le))) in
    rw (here, rest) refl

abbrev Unmarked : Shared → Type 0
Unmarked s = (j : ℕ) → j < num_shared_pages → s.shared_marked_rm j ≡ 0

find_shared-found :
    (n : ℕ) (s : Shared) (f i j : ℕ)
    → find_shared n s f i ≡ some j
    → (eq_ℤ (s.shared_frames j) (pos f) ≡ true) × (j < i + n)
unfolding find_shared
find_shared-found zero s f i j h = absurd (ground arith)
find_shared-found (suc n) s f i j h = elim (Bool-cases (eq_ℤ (s.shared_frames i) (pos f))) [
  | inl e ↦
      let same : i ≡ j = ground (arith, h, e) in
      subst (λ x. (eq_ℤ (s.shared_frames x) (pos f) ≡ true) × (x < i + suc n)) same (e, omega arith)
  | inr e ↦
      let (a, b) = find_shared-found n s f (i + 1) j (ground (arith, h, e)) in (a, omega (arith, b))
]

-- Where no page is marked, a use less is a lower count and nothing else.
drop_found-unmarked :
    (k : Kernel) (ut idx id : ℕ)
    → k.shared.shared_marked_rm id ≡ 0
    → drop_found k ut idx (some id) ≡ record k {
      entries = del_ss_pag k.entries ut idx;
      shared = set_refs k.shared id (pred_ℤ (k.shared.shared_refs id));
    }
unfolding drop_found
drop_found-unmarked k ut idx id m =
    drop_ref-unmarked (record k { entries = del_ss_pag k.entries ut idx }) id m

-- One round: the page `id` on frame `f` has the use of this entry less; no frame, no mark and no other
-- entry changes.
record Round (k : Kernel) (ut idx id f : ℕ) (k' : Kernel) : Type 0 where
  frames : k'.shared.shared_frames ≡ k.shared.shared_frames
  marks : k'.shared.shared_marked_rm ≡ k.shared.shared_marked_rm
  entries : (j : ℕ) → idx + 1 ≤ j → k'.entries (slot ut j) ≡ k.entries (slot ut j)
  refs :
      (m : ℕ)
      → k.shared.shared_refs id ≡ pos ((if is_on k.entries ut idx f then 1 else 0) + m)
      → k'.shared.shared_refs id ≡ pos m

module _ (ut id f : ℕ) (id_in : id < num_shared_pages) where
  found-Round :
      (k : Kernel) (idx : ℕ)
      → is_on k.entries ut idx f ≡ true
      → k.shared.shared_marked_rm id ≡ 0
      → Round k ut idx id f (drop_found k ut idx (some id))
  unfolding del_ss_pag
  found-Round k idx on m = rw (drop_found-unmarked k ut idx id m) (record {
    frames = refl;
    marks = refl;
    entries = λ j le. ground (arith, le);
    refs = λ r h.
        let same : id == id ≡ true = ground arith in
        let one : 1 + r ≡ suc r = omega arith in
        let before : k.shared.shared_refs id ≡ pos (suc r) = rw (on, one) at h in
        rw (same, before) refl;
  })

  other-Round :
      (k : Kernel) (idx : ℕ) (o : Option ℕ)
      → is_on k.entries ut idx f ≡ false
      → Unmarked k.shared
      → ((j : ℕ) → o ≡ some j → (j ≢ id) × (j < num_shared_pages))
      → Round k ut idx id f (drop_found k ut idx o)
  unfolding del_ss_pag drop_found
  other-Round k idx none off un ne = record {
    frames = refl;
    marks = refl;
    entries = λ j le. refl;
    refs = λ r h. let all : 0 + r ≡ r = omega arith in rw (off, all) at h;
  }
  other-Round k idx (some j) off un ne =
      rw (drop_found-unmarked k ut idx j (un j (ne j refl).1)) (record {
        frames = refl;
        marks = refl;
        entries = λ j le. ground (arith, le);
        refs = λ r h.
            let all : 0 + r ≡ r = omega arith in
            let other : (j == id) ≡ false = ground (arith, ne j refl) in
            let before : k.shared.shared_refs id ≡ pos r = rw (off, all) at h in rw other before;
      })

  module _ (frames : ℕ → ℤ) (at : frames id ≡ pos f)
      (first : (j : ℕ) → j < id → eq_ℤ (frames j) (pos f) ≡ false) where
    drop_entry-Round :
        (k : Kernel) (idx : ℕ)
        → k.shared.shared_frames ≡ frames
        → Unmarked k.shared
        → Round k ut idx id f (drop_entry k ut idx)
    unfolding drop_entry drop_found get_frame
    drop_entry-Round k idx held un =
        let e = k.entries (slot ut idx) in
        let here : k.shared.shared_frames id ≡ pos f = ap (λ h. h id) held ∙ at in
        elim (Bool-cases (e.present == 0)) [
          | inl absent ↦
              let off : is_on k.entries ut idx f ≡ false = ground (arith, absent) in
              rw absent (other-Round k idx none off un (λ j h. absurd (ground arith)))
          | inr there ↦ elim (Bool-cases (e.pbase_addr == f)) [
            | inl same ↦
                let on : is_on k.entries ut idx f ≡ true = ground (arith, there, same) in
                let page : e.pbase_addr ≡ f = ground (arith, same) in
                let hit : eq_ℤ (k.shared.shared_frames id) (pos f) ≡ true =
                  rw here (ground arith) in
                let found =
                  find_shared-some num_shared_pages k.shared f 0 id (omega arith)
                    (omega (arith, id_in)) (λ j lt. rw held (first j lt)) hit in
                rw (there, page, found) (found-Round k idx on (un id id_in))
            | inr other ↦
                let off : is_on k.entries ut idx f ≡ false = ground (arith, other) in
                rw there (
                  other-Round k idx (find_shared num_shared_pages k.shared e.pbase_addr 0) off un
                    (λ j h.
                      let (hit, low) =
                        find_shared-found num_shared_pages k.shared e.pbase_addr 0 j h in
                      (
                        (λ eq.
                            let hit' : eq_ℤ (pos f) (pos e.pbase_addr) ≡ true =
                              subst (λ x. eq_ℤ x (pos e.pbase_addr) ≡ true)
                                (ap (λ i. k.shared.shared_frames i) eq ∙ here) hit in
                            ground (arith, hit', other)),
                        omega (arith, low),
                      )))
          ]
        ]

    drop_shared-refs :
        (n : ℕ) (k : Kernel) (idx m : ℕ)
        → k.shared.shared_frames ≡ frames
        → Unmarked k.shared
        → k.shared.shared_refs id ≡ pos (uses n k.entries ut idx f + m)
        → (drop_shared n k ut idx).shared.shared_refs id ≡ pos m
    unfolding drop_shared uses
    drop_shared-refs zero k idx m held un h = let all : 0 + m ≡ m = omega arith in rw all at h
    drop_shared-refs (suc n) k idx m held un h =
        let r = drop_entry-Round k idx held un in
        let k' = drop_entry k ut idx in
        let rest = uses n k.entries ut (idx + 1) f in
        let split : (if is_on k.entries ut idx f then 1 else 0) + rest + m
            ≡ (if is_on k.entries ut idx f then 1 else 0) + (rest + m) =
          omega arith in
        let left : k'.shared.shared_refs id ≡ pos (rest + m) =
          r.refs (rest + m) (h ∙ ap pos split) in
        drop_shared-refs n k' (idx + 1) m (r.frames ∙ held) (λ j lt. rw r.marks (un j lt))
          (left
            ∙ ap (λ u. pos (u + m))
                (sym (uses-same n k.entries k'.entries ut (idx + 1) f r.entries)))

-- Where no shared page is marked for removal, and page `id` is the first one on its frame: if the
-- count of its uses is the number of entries of the process behind its own pages that are present on
-- this frame, and `m` more, then the count is `m` after `sys_exit`.
pub sys_exit-refs :
    (k : Kernel) (id f m : ℕ)
    → id < num_shared_pages
    → k.shared.shared_frames id ≡ pos f
    → ((j : ℕ) → j < id → eq_ℤ (k.shared.shared_frames j) (pos f) ≡ false)
    → ((j : ℕ) → j < num_shared_pages → k.shared.shared_marked_rm j ≡ 0)
    → k.shared.shared_refs id
      ≡ pos (uses (pt_entries - first_shared) k.entries (user_table k k.current) first_shared f + m)
    → (sys_exit k).shared.shared_refs id ≡ pos m
unfolding sys_exit sched_next_rr load_cr3
sys_exit-refs k id f m id_in at first un h =
    let ut = user_table k k.current in
    let k1 = load_cr3 (drop_shared (pt_entries - first_shared) k ut first_shared) in
    let k2 = release_pages k1 ut in
    rw (enter_next-shared k2 (pick_next k2).0 (pick_next k2).1, release_pages-shared k1 ut)
      (drop_shared-refs ut id f id_in k.shared.shared_frames at first (pt_entries - first_shared) k
        first_shared m refl un h)
