-- ===== src/Boot/Cut.antt =====
-- `make_tables`, one table after the other.
use zeos_soa.Prelude.{
  ap, ℕ, zero, suc, ◌+◌, ◌%◌, ◌^◌, ◌<◌, ◌≡◌, ◌≢◌, refl, Bool, true, ◌&&◌, ◌||◌, arith, ◌==◌, ltb,
  leb, update, ◌∙◌,
}
use zeos_soa.Prelude.Int.{pos}
use zeos_soa.Frames.{Frames, alloc_frame}
use zeos_soa.Paging.{
  Entries, slot, to_unsigned, frame_address, get_frame, zero_entry, clear_from, clear_page_table,
  set_kernel_pages,
}
use zeos_soa.Paging.Tables.{set_kernel_pages-identity, identity_entry}
use zeos_soa.Kernel.{Kernel}
use zeos_soa.Calls.Process.{new_frame}
use zeos_soa.Boot.{
  ShowPtRange, Tables, print, new_table, add_kernel_pages, add_user_pages_to, make_tables,
}
use zeos_soa.Boot.Slots.{IsIdentity, slot-apart}

pub new_table_lem :
    (k : Kernel) (g : Frames) (i : ℕ)
    → alloc_frame k.frames ≡ (pos i, g)
    → i < 1024
    → new_table k
      ≡ (i, record k { frames = g; entries = clear_page_table k.entries (frame_address i) })
unfolding new_table new_frame to_unsigned
new_table_lem k g i al low = let same : i % 2 ^ 32 ≡ i = omega (arith, low) in rw (al, same) refl

clear_from-other :
    (n : ℕ) (e : Entries) (pt i a : ℕ)
    → ((p : ℕ) → p < i + n → slot pt p ≢ a)
    → clear_from n e pt i a ≡ e a
unfolding clear_from
clear_from-other zero e pt i a h = refl
clear_from-other (suc n) e pt i a h =
    let rest =
      clear_from-other n (update e (slot pt i) zero_entry) pt (i + 1) a
        (λ p low. h p (omega (arith, low))) in
    ground (arith, rest, h i (omega arith))

pub clear_page_table-apart :
    (e : Entries) (x y q : ℕ)
    → x ≢ y
    → x < 1024
    → y < 1024
    → q < 1024
    → clear_page_table e (frame_address x) (slot (frame_address y) q) ≡ e (slot (frame_address y) q)
unfolding clear_page_table
clear_page_table-apart e x y q ne hx hy hq =
    clear_from-other 1024 e (frame_address x) 0 (slot (frame_address y) q)
      (λ p low. slot-apart x y p q ne hx hy (omega (arith, low)) hq)

-- The pages that the kernel sees at their own numbers: its own, that of the GDT and the screen.
abbrev pub is_kernel_page : Frames → ℕ → Bool
is_kernel_page f page =
    (leb f.first_kernel page && ltb page f.last_kernel) || (page == 0x90) || (page == 0xb8)

pub set_kernel_pages-IsIdentity :
    (f : Frames) (e : Entries) (pt page : ℕ)
    → page < 1024
    → is_kernel_page f page ≡ true
    → IsIdentity (set_kernel_pages f e pt) pt page
unfolding get_frame
set_kernel_pages-IsIdentity f e pt page h i =
    let entry : set_kernel_pages f e pt (slot pt page) ≡ identity_entry page =
      set_kernel_pages-identity f e pt page ∙ rw i refl in
    record {
      frame = ap (λ x. x.pbase_addr) entry ∙ omega (arith, h);
      present = ap (λ x. x.present) entry;
    }

-- `make_tables`, cut where it takes a new table.
unfoldable with_user : ShowPtRange → (dir so so2 : ℕ) → ℕ × Kernel → Tables × Kernel
with_user show dir so so2 (user, k) = (
  record { dir = dir; so = so; so2 = so2; user = user },
  add_user_pages_to show k (frame_address user),
)

unfoldable with_so2 : ShowPtRange → (dir so : ℕ) → ℕ × Kernel → Tables × Kernel
with_so2 show dir so (so2, k) = with_user show dir so so2 (new_table k)

unfoldable with_so : ShowPtRange → (dir : ℕ) → ℕ × Kernel → Tables × Kernel
with_so show dir (so, k) =
    with_so2 show dir so (new_table (add_kernel_pages show k (frame_address so)))

unfoldable with_dir : ShowPtRange → ℕ × Kernel → Tables × Kernel
with_dir show (dir, k) = with_so show dir (new_table k)

make_tables-cut :
    (show : ShowPtRange) (k : Kernel) → make_tables show k ≡ with_dir show (new_table k)
unfolding make_tables with_dir with_so with_so2 with_user
make_tables-cut show k = refl

-- The kernel after each new table, of those pages and with those frames.
abbrev pub with_table : Kernel → (g : Frames) → (i : ℕ) → Kernel
with_table k g i = record k { frames = g; entries = clear_page_table k.entries (frame_address i) }

abbrev pub with_four : ShowPtRange → Kernel → (g1 g2 g3 g4 : Frames) → Tables → Kernel
with_four show k g1 g2 g3 g4 t =
    let k2 = with_table (with_table k g1 t.dir) g2 t.so in
    with_table (with_table (add_kernel_pages show k2 (frame_address t.so)) g3 t.so2) g4 t.user

pub make_tables-four :
    (show : ShowPtRange) (k : Kernel) (g1 g2 g3 g4 : Frames) (t : Tables)
    → alloc_frame k.frames ≡ (pos t.dir, g1)
    → alloc_frame g1 ≡ (pos t.so, g2)
    → alloc_frame g2 ≡ (pos t.so2, g3)
    → alloc_frame g3 ≡ (pos t.user, g4)
    → t.dir < 1024
    → t.so < 1024
    → t.so2 < 1024
    → t.user < 1024
    → make_tables show k
      ≡ (t, add_user_pages_to show (with_four show k g1 g2 g3 g4 t) (frame_address t.user))
unfolding with_dir with_so with_so2 with_user add_kernel_pages print
make_tables-four show k g1 g2 g3 g4 t a b c d ha hb hc hd =
    let k1 = with_table k g1 t.dir in
    let k2 = with_table k1 g2 t.so in
    let k3 = add_kernel_pages show k2 (frame_address t.so) in
    make_tables-cut show k
    ∙ ap (with_dir show) (new_table_lem k g1 t.dir a ha)
    ∙ ap (with_so show t.dir) (new_table_lem k1 g2 t.so b hb)
    ∙ ap (with_so2 show t.dir t.so) (new_table_lem k3 g3 t.so2 c hc)
    ∙ ap (with_user show t.dir t.so t.so2) (new_table_lem (with_table k3 g3 t.so2) g4 t.user d hd)
