-- ===== src/Boot/Build.antt =====
-- The tables that `init_task1` builds: `make_tables` where there are pages enough.
use zeos_soa.Prelude.{ℕ, ◌+◌, ◌<◌, ◌≤◌, ◌≡◌, ◌≢◌, refl, sym, true, arith, ◌∙◌}
use zeos_soa.Prelude.Int.{pos}
use zeos_soa.Frames.{Frames, total_pages, alloc_frame}
use zeos_soa.Frames.Alloc.{Taken}
use zeos_soa.Frames.Available.{available, alloc_frame-available}
use zeos_soa.Paging.{
  Entries, slot, num_pag_data, num_pag_code, frame_address, set_kernel_pages, set_user_pages,
}
use zeos_soa.Paging.Mapped.{Mapped}
use zeos_soa.Paging.UserPages.{writable, set_user_pages-Mapped}
use zeos_soa.Screen.{Screen}
use zeos_soa.Kernel.{Kernel}
use zeos_soa.Boot.{ShowPtRange, Tables, print, add_kernel_pages, add_user_pages_to, make_tables}
use zeos_soa.Boot.Space.{AreApart}
use zeos_soa.Boot.Slots.{IsIdentity, IsIdentity-same, slot-apart}
use zeos_soa.Frames.Grows.{Grows, Grows-refl, Grows-then, Taken-Grows, Taken-ne}
use zeos_soa.Boot.Cut.{
  with_table, with_four, make_tables-four, clear_page_table-apart, is_kernel_page,
  set_kernel_pages-IsIdentity,
}

-- What is there after `make_tables`, which changes nothing but the frames `g`, the entries `e` and the
-- screen.
pub record Built (f : Frames) (t : Tables) (g : Frames) (e : Entries) (m : ℕ) : Type 0 where
  pub apart : AreApart t
  pub grows : Grows f g
  pub kernel_pages :
      (page : ℕ)
      → page < 1024
      → is_kernel_page f page ≡ true
      → IsIdentity e (frame_address t.so) page
  pub user_pages :
      (f' : Frames) × (e' : Entries) × Grows f f'
      × Mapped 1024 writable (frame_address t.user) (λ p. p < num_pag_data + num_pag_code) f' e' g e
  pub left : available 1024 g ≡ m
  pub dir_free : f.phys_mem t.dir ≡ 0
  pub so_free : f.phys_mem t.so ≡ 0
  pub user_free : f.phys_mem t.user ≡ 0

-- Four pages taken one after the other.
record FourTaken (m : ℕ) (f g1 g2 g3 g4 : Frames) (t : Tables) : Type 0 where
  first : (alloc_frame f ≡ (pos t.dir, g1)) × Taken f t.dir g1 × (t.dir < 1024)
  second : (alloc_frame g1 ≡ (pos t.so, g2)) × Taken g1 t.so g2 × (t.so < 1024)
  third : (alloc_frame g2 ≡ (pos t.so2, g3)) × Taken g2 t.so2 g3 × (t.so2 < 1024)
  fourth : (alloc_frame g3 ≡ (pos t.user, g4)) × Taken g3 t.user g4 × (t.user < 1024)
  left : available 1024 g4 ≡ m

take_four :
    (f : Frames) (m : ℕ)
    → available 1024 f ≡ 4 + m
    → (g1 : Frames) × (g2 : Frames) × (g3 : Frames) × (g4 : Frames) × (t : Tables) × FourTaken m f
        g1 g2 g3 g4 t
take_four f m enough =
    let small : 1024 ≤ total_pages = omega arith in
    let (dir, g1, a1, t1, l1, n1) =
      alloc_frame-available 1024 f (3 + m) small (omega (arith, enough)) in
    let (so, g2, a2, t2, l2, n2) =
      alloc_frame-available 1024 g1 (2 + m) small (omega (arith, n1)) in
    let (so2, g3, a3, t3, l3, n3) =
      alloc_frame-available 1024 g2 (1 + m) small (omega (arith, n2)) in
    let (user, g4, a4, t4, l4, n4) = alloc_frame-available 1024 g3 m small (omega (arith, n3)) in
    (
      g1,
      g2,
      g3,
      g4,
      record { dir = dir; so = so; so2 = so2; user = user },
      record {
        first = (a1, t1, l1);
        second = (a2, t2, l2);
        third = (a3, t3, l3);
        fourth = (a4, t4, l4);
        left = n4;
      },
    )

module _ (m : ℕ) (f g1 g2 g3 g4 : Frames) (t : Tables) (four : FourTaken m f g1 g2 g3 g4 t) where
  kept_1 : Grows f g1
  kept_1 = Taken-Grows f g1 t.dir four.first.1

  kept_12 : Grows g1 g2
  kept_12 = Taken-Grows g1 g2 t.so four.second.1

  kept_23 : Grows g2 g3
  kept_23 = Taken-Grows g2 g3 t.so2 four.third.1

  kept_2 : Grows f g2
  kept_2 = Grows-then f g1 g2 kept_1 kept_12

  kept_3 : Grows f g3
  kept_3 = Grows-then f g2 g3 kept_2 kept_23

  kept_4 : Grows f g4
  kept_4 = Grows-then f g3 g4 kept_3 (Taken-Grows g3 g4 t.user four.fourth.1)

  so_so2 : t.so ≢ t.so2
  so_so2 = Taken-ne g1 g2 g2 t.so t.so2 four.second.1 (Grows-refl g2) four.third.1.was_free

  same_bounds : (g2.first_kernel ≡ f.first_kernel) × (g2.last_kernel ≡ f.last_kernel)
  same_bounds =
      let t1 = four.first.1 in let t2 = four.second.1 in rw (t2.marked, t1.marked) (refl, refl)

  FourTaken-AreApart : 3 ≤ f.last_kernel → AreApart t
  FourTaken-AreApart low =
      let (a1, t1, l1) = four.first in
      let (a2, t2, l2) = four.second in
      let (a3, t3, l3) = four.third in
      let (a4, t4, l4) = four.fourth in
      let behind = t1.above in
      let behind_3 = t3.above in
      let last = kept_2.last in
      record {
        dir_so = Taken-ne f g1 g1 t.dir t.so t1 (Grows-refl g1) t2.was_free;
        dir_user =
            Taken-ne f g1 g3 t.dir t.user t1 (Grows-then g1 g2 g3 kept_12 kept_23) t4.was_free;
        so_user = Taken-ne g1 g2 g3 t.so t.user t2 kept_23 t4.was_free;
        dir_low = omega (arith, behind, low);
        dir_high = l1;
        so_high = l2;
        so2_high = l3;
        user_high = l4;
        so2_low = omega (arith, behind_3, last, low);
      }

module _ (show : ShowPtRange) (k : Kernel) (m : ℕ) (g1 g2 g3 g4 : Frames) (t : Tables)
    (four : FourTaken (28 + m) k.frames g1 g2 g3 g4 t) (low : 3 ≤ k.frames.last_kernel) where
  abbrev before_user : Kernel
  before_user = with_four show k g1 g2 g3 g4 t

  abbrev after_user : Frames × Entries
  after_user = set_user_pages (g4, before_user.entries) (frame_address t.user)

  user_Mapped :
      Mapped 1024 writable
        (frame_address t.user)
        (λ p. p < num_pag_data + num_pag_code)
        g4
        before_user.entries
        after_user.0
        after_user.1
      × (available 1024 after_user.0 ≡ m)
  user_Mapped =
      set_user_pages-Mapped 1024 g4 before_user.entries (frame_address t.user) m (omega arith)
        four.left

  -- The table of the kernel's pages is not among those that are cleared and filled behind it.
  kernel_table-same :
      (page : ℕ)
      → page < 1024
      → after_user.1 (slot (frame_address t.so) page)
        ≡ set_kernel_pages g2
            (with_table (with_table k g1 t.dir) g2 t.so).entries
            (frame_address t.so)
            (slot (frame_address t.so) page)
  unfolding add_kernel_pages print
  kernel_table-same page h =
      let ok = FourTaken-AreApart (28 + m) k.frames g1 g2 g3 g4 t four low in
      let apart = so_so2 (28 + m) k.frames g1 g2 g3 g4 t four in
      user_Mapped.0.other (slot (frame_address t.so) page) (λ p d.
        slot-apart t.user t.so p page (λ s. ok.so_user (sym s)) ok.user_high ok.so_high
          (omega (arith, d)) h)
      ∙ clear_page_table-apart _ t.user t.so page (λ s. ok.so_user (sym s)) ok.user_high ok.so_high
          h
      ∙ clear_page_table-apart _ t.so2 t.so page (λ s. apart (sym s)) ok.so2_high ok.so_high h

  FourTaken-Built : Built k.frames t after_user.0 after_user.1 m
  unfolding add_kernel_pages print
  FourTaken-Built =
      let (mapped, left) = user_Mapped in
      let grows = kept_4 (28 + m) k.frames g1 g2 g3 g4 t four in
      let bounds = same_bounds (28 + m) k.frames g1 g2 g3 g4 t four in
      let e = (with_table (with_table k g1 t.dir) g2 t.so).entries in
      record {
        apart = FourTaken-AreApart (28 + m) k.frames g1 g2 g3 g4 t four low;
        grows =
            Grows-then k.frames g4 after_user.0 grows
              (record { used = mapped.marks; free = mapped.kept; last = mapped.bound });
        kernel_pages = λ page h i.
            IsIdentity-same (set_kernel_pages g2 e (frame_address t.so)) after_user.1
              (frame_address t.so) page (kernel_table-same page h)
              (set_kernel_pages-IsIdentity g2 e (frame_address t.so) page h
                (rw (bounds.0, bounds.1) i));
        user_pages = (g4, before_user.entries, grows, mapped);
        left = left;
        dir_free = four.first.1.was_free;
        so_free = (kept_1 (28 + m) k.frames g1 g2 g3 g4 t four).free t.so four.second.1.was_free;
        user_free =
            (kept_3 (28 + m) k.frames g1 g2 g3 g4 t four).free t.user four.fourth.1.was_free;
      }

-- With 32 free pages behind the kernel and below 1024 the tables are built as they should be.
pub make_tables-Built :
    (show : ShowPtRange) (k : Kernel) (m : ℕ)
    → available 1024 k.frames ≡ 32 + m
    → 3 ≤ k.frames.last_kernel
    → (t : Tables) × (g : Frames) × (e : Entries) × (s : Screen) × (make_tables show k
        ≡ (t, record k { frames = g; entries = e; screen = s }))
      × Built k.frames t g e m
unfolding add_user_pages_to add_kernel_pages print
make_tables-Built show k m enough low =
    let (g1, g2, g3, g4, t, four) = take_four k.frames (28 + m) (omega (arith, enough)) in
    let (f, e) =
      set_user_pages (g4, (with_four show k g1 g2 g3 g4 t).entries) (frame_address t.user) in
    (
      t,
      f,
      e,
      (add_user_pages_to show (with_four show k g1 g2 g3 g4 t) (frame_address t.user)).screen,
      make_tables-four show k g1 g2 g3 g4 t four.first.0 four.second.0 four.third.0 four.fourth.0
          four.first.2 four.second.2 four.third.2 four.fourth.2,
      FourTaken-Built show k m g1 g2 g3 g4 t four low,
    )
