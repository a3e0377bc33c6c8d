-- ===== src/Boot/Installed.antt =====
-- The address space that `install` makes of tables that are built.
use zeos_soa.Prelude.{ap, ℕ, ◌+◌, ◌*◌, ◌/◌, ◌<◌, ◌≤◌, ◌≡◌, ◌≢◌, refl, true, arith, ◌∙◌}
use zeos_soa.Lists.{Ptr}
use zeos_soa.Frames.{Frames}
use zeos_soa.Frames.Available.{Fresh}
use zeos_soa.Paging.{
  Entries, slot, page_size, num_pag_data, num_pag_code, l_user_start, frame_address, get_frame,
}
use zeos_soa.Paging.Mapped.{user_entry}
use zeos_soa.Paging.UserPages.{writable}
use zeos_soa.Screen.{Screen}
use zeos_soa.Kernel.{Kernel}
use zeos_soa.Sched.{kernel_esp_of}
use zeos_soa.Calls.{get_dir, user_table, translate}
use zeos_soa.Boot.{Tables, map_tables, map_blocks}
use zeos_soa.Boot.Space.{
  mapped-dir, mapped-user, map_tables-keeps, map_blocks-keeps, map_blocks-blocks,
}
use zeos_soa.Boot.Slots.{
  IsIdentity, get_frame-at, get_frame-same, IsIdentity-same, translate-through,
}
use zeos_soa.Boot.Build.{Built}
use zeos_soa.Boot.Cut.{is_kernel_page}
use zeos_soa.Boot.Init.{
  installed, installed-table, installed-idle, installed-regs, installed-idle_dir,
}

-- What `install` makes of tables that are built.
module _ (k : Kernel) (f g : Frames) (e : Entries) (s : Screen) (i : ℕ) (t : Tables) (m : ℕ)
    (built : Built f t g e m) (b j : ℕ) (idle : k.idle_task ≡ b * 4096)
    (idle_dir : get_dir k k.idle_task ≡ j * 4096) (b_low : 1 ≤ b) (b_high : b < 1024)
    (j_high : j < 1024) (i_high : i < 1024) (b_i : i ≢ b) (j_used : f.phys_mem j ≡ 1) where
  abbrev p : Ptr
  p = i * page_size

  abbrev k' : Kernel
  k' = installed k g e s p t

  abbrev d : Entries
  d = map_blocks (map_tables e t) t k.idle_task p (get_dir k k.idle_task)

  j_ne : (x : ℕ) → f.phys_mem x ≡ 0 → j ≢ x
  j_ne x z same = ground (arith, z, j_used, same)

  low_idle : k.idle_task / 4096 < 1024
  low_idle = omega (arith, idle, b_high)

  low_p : p / 4096 < 1024
  low_p = omega (arith, i_high)

  low_dir : get_dir k k.idle_task / 4096 < 1024
  low_dir = omega (arith, idle_dir, j_high)

  table-same :
      (x q : ℕ)
      → f.phys_mem x ≡ 0
      → x < 1024
      → q < 1024
      → k'.entries (slot (frame_address x) q) ≡ d (slot (frame_address x) q)
  table-same x q z hx hq =
      installed-table k g e s i t built.apart b j idle idle_dir b_low b_high j_high i_high b_i
        (j_ne t.dir built.dir_free) (j_ne t.so built.so_free) (j_ne t.user built.user_free) x q
        (j_ne x z) hx hq

  pub regs :
      (k'.cpu.cr3 ≡ frame_address t.dir)
      × (k'.cpu.esp0 ≡ kernel_esp_of p)
      × (k'.cpu.sysenter_esp ≡ kernel_esp_of p)
      × (get_dir k' p ≡ frame_address t.dir)
      × (k'.init_task ≡ p)
      × (k'.frames ≡ g)
      × ((k'.tasks p).pid ≡ (k.tasks p).pid)
      × ((k'.tasks p).quantum ≡ (k.tasks p).quantum)
  regs =
      installed-regs k g e s i t built.apart b j idle idle_dir b_low b_high j_high i_high b_i
        (j_ne t.dir built.dir_free) (j_ne t.so built.so_free) (j_ne t.user built.user_free)

  dirs :
      (get_frame k'.entries (frame_address t.dir) 0 ≡ t.so)
      × (get_frame k'.entries (frame_address t.dir) 2 ≡ t.user)
  dirs =
      let ok = built.apart in
      let (a, b, c) =
        mapped-dir e t ok k.idle_task p (get_dir k k.idle_task) low_idle low_p low_dir in
      (
        get_frame-same d k'.entries (frame_address t.dir) 0
              (table-same t.dir 0 built.dir_free ok.dir_high (omega arith))
            ∙ a,
        get_frame-same d k'.entries (frame_address t.dir) 2
              (table-same t.dir 2 built.dir_free ok.dir_high (omega arith))
            ∙ c,
      )

  user-entries :
      (page : ℕ)
      → page < 1024
      → k'.entries (slot (frame_address t.user) page) ≡ e (slot (frame_address t.user) page)
  user-entries page h =
      table-same t.user page built.user_free built.apart.user_high h
      ∙ mapped-user e t built.apart k.idle_task p (get_dir k k.idle_task) low_idle low_p low_dir
          page h

  user-translate :
      (page o : ℕ)
      → page < 1024
      → o < page_size
      → translate k'.entries k'.cpu.cr3 (l_user_start + page * page_size + o)
        ≡ (e (slot (frame_address t.user) page)).pbase_addr
  unfolding get_frame
  user-translate page o h ho =
      let address : l_user_start + page * page_size + o ≡ (2 * 1024 + page) * page_size + o =
        omega arith in
      let cr3 = regs.0 in
      rw cr3 (
        translate-through k'.entries (frame_address t.dir) t.user 2 page o
          (l_user_start + page * page_size + o) address dirs.1 h ho
        ∙ ap (λ x. x.pbase_addr) (user-entries page h))

  -- A page that the table of the system maps on its own number is found there, by both processes.
  identity-translate :
      (page o : ℕ)
      → page < 1024
      → o < page_size
      → IsIdentity d (frame_address t.so) page
      → (translate k'.entries k'.cpu.cr3 (page * page_size + o) ≡ page)
        × (translate k'.entries (get_dir k' k.idle_task) (page * page_size + o) ≡ page)
  identity-translate page o h ho id =
      let ok = built.apart in
      let here =
        IsIdentity-same d k'.entries (frame_address t.so) page
          (table-same t.so page built.so_free ok.so_high h) id in
      let (a, _) =
        installed-idle k g e s i t ok b j idle idle_dir b_low b_high j_high i_high b_i
          (j_ne t.dir built.dir_free) (j_ne t.so built.so_free) (j_ne t.user built.user_free) in
      let idle_so : get_frame k'.entries (frame_address j) 0 ≡ t.so =
        get_frame-at k'.entries d (frame_address j) 0 (frame_address t.dir) 0 a
        ∙ (mapped-dir e t ok k.idle_task p (get_dir k k.idle_task) low_idle low_p low_dir).0 in
      let at_j : get_dir k' k.idle_task ≡ frame_address j =
        installed-idle_dir k g e s i t ok b j idle idle_dir b_low b_high j_high i_high b_i
          (j_ne t.dir built.dir_free) (j_ne t.so built.so_free) (j_ne t.user built.user_free) in
      let cr3 = regs.0 in
      let address : page * page_size + o ≡ (0 * 1024 + page) * page_size + o = omega arith in
      (
        rw cr3 (
            translate-through k'.entries (frame_address t.dir) t.so 0 page o (page * page_size + o)
              address dirs.0 h ho
            ∙ here.frame),
        rw at_j (
            translate-through k'.entries (frame_address j) t.so 0 page o (page * page_size + o)
              address idle_so h ho
            ∙ here.frame),
      )

  kernel-IsIdentity :
      (page : ℕ)
      → page < 1024
      → is_kernel_page f page ≡ true
      → IsIdentity d (frame_address t.so) page
  kernel-IsIdentity page h is =
      map_blocks-keeps e t built.apart k.idle_task p (get_dir k k.idle_task) low_idle low_p low_dir
        (map_tables e t) page h
        (map_tables-keeps e t built.apart k.idle_task p (get_dir k k.idle_task) low_idle low_p
          low_dir page h (built.kernel_pages page h is))

  -- What stands at the user page `page`: a fresh frame of its own.
  user-fresh :
      (page : ℕ)
      → page < num_pag_data + num_pag_code
      → let q = (e (slot (frame_address t.user) page)).pbase_addr in
        (e (slot (frame_address t.user) page) ≡ user_entry q (writable page)) × Fresh 1024 f g q
  user-fresh page h =
      let (f', e', grows, mapped) = built.user_pages in
      let (q, entry, fresh) = mapped.mapped page h in
      let above = fresh.above in
      let last = grows.last in
      rw entry (
        refl,
        record {
          above = omega (arith, above, last);
          below = fresh.below;
          was_free = grows.free q fresh.was_free;
          in_use = fresh.in_use;
        },
      )

  user-apart :
      (page other : ℕ)
      → page < num_pag_data + num_pag_code
      → other < num_pag_data + num_pag_code
      → page ≢ other
      → (e (slot (frame_address t.user) page)).pbase_addr
        ≢ (e (slot (frame_address t.user) other)).pbase_addr
  user-apart page other h ho ne =
      let (f', e', grows, mapped) = built.user_pages in mapped.apart page other h ho ne

  blocks-IsIdentity :
      IsIdentity d (frame_address t.so) (k.idle_task / 4096)
      × IsIdentity d (frame_address t.so) (p / 4096)
      × IsIdentity d (frame_address t.so) t.dir
      × IsIdentity d (frame_address t.so) (get_dir k k.idle_task / 4096)
  blocks-IsIdentity =
      map_blocks-blocks e t built.apart k.idle_task p (get_dir k k.idle_task) low_idle low_p low_dir
        (map_tables e t)

  user_table-at : user_table k' k'.init_task ≡ frame_address t.user
  unfolding user_table get_frame
  user_table-at =
      let at = regs.4 in
      let dir = regs.3 in let user = dirs.1 in rw (at, dir) (ap frame_address user)

  module _ (page other kernel_page o : ℕ) (h : page < num_pag_data + num_pag_code)
      (ho : other < num_pag_data + num_pag_code) (ne : page ≢ other) (hk : kernel_page < 1024)
      (is : is_kernel_page f kernel_page ≡ true) (off : o < page_size) where
    abbrev find : ℕ → ℕ
    find = translate k'.entries k'.cpu.cr3

    abbrev frame : ℕ
    frame = find (l_user_start + page * page_size + o)

    pub space-user :
        Fresh 1024 f g frame
        × (k'.entries (slot (user_table k' k'.init_task) page) ≡ user_entry frame (writable page))
        × (frame ≢ find (l_user_start + other * page_size + o))
    space-user =
        let (entry, fresh) = user-fresh page h in
        let here = user-translate page o (omega (arith, h)) off in
        let there = user-translate other o (omega (arith, ho)) off in
        (
          rw here fresh,
          rw (user_table-at, here) (user-entries page (omega (arith, h)) ∙ entry),
          rw (here, there) (user-apart page other h ho ne),
        )

    pub space-kernel :
        (find (kernel_page * page_size + o) ≡ kernel_page)
        × (translate k'.entries (get_dir k' k.idle_task) (kernel_page * page_size + o)
            ≡ kernel_page)
        × (find (p + o) ≡ p / page_size)
        × (find (k.idle_task + o) ≡ k.idle_task / page_size)
    space-kernel =
        let (a, b) =
          identity-translate kernel_page o hk off (kernel-IsIdentity kernel_page hk is) in
        let blocks = blocks-IsIdentity in
        let own_page : p + o ≡ p / 4096 * page_size + o = omega arith in
        let idle_page : k.idle_task + o ≡ k.idle_task / 4096 * page_size + o =
          omega (arith, idle) in
        (
          a,
          b,
          ap find own_page ∙ (identity-translate (p / 4096) o low_p off blocks.1).0,
          ap find idle_page ∙ (identity-translate (k.idle_task / 4096) o low_idle off blocks.0).0,
        )
