-- ===== src/Boot/Space.antt =====
-- The address space of the initial process: what its directory makes of an address.
use zeos_soa.Prelude.{sym, ℕ, ◌/◌, ◌<◌, ◌≤◌, ◌≡◌, ◌≢◌, refl, arith, ◌∙◌}
use zeos_soa.Paging.{Entries, slot, frame_address, get_frame, set_ss_pag}
use zeos_soa.Paging.Entries.{set_ss_pag-get}
use zeos_soa.Boot.{Tables, map_tables, map_blocks}
use zeos_soa.Boot.Slots.{
  IsIdentity, set_ss_pag-apart, set_ss_pag-IsIdentity, set_ss_pag-keeps, get_frame-same,
  IsIdentity-same, auto_map-low,
}

-- The four tables are on pages of their own, which one table can map, and behind the entries 0, 1
-- and 2 of the directory.
pub record AreApart (t : Tables) : Type 0 where
  pub dir_so : t.dir ≢ t.so
  pub dir_user : t.dir ≢ t.user
  pub so_user : t.so ≢ t.user
  pub dir_low : 3 ≤ t.dir
  pub dir_high : t.dir < 1024
  pub so_high : t.so < 1024
  pub so2_high : t.so2 < 1024
  pub user_high : t.user < 1024
  pub so2_low : 1 ≤ t.so2

-- The entries that `map_tables` and `map_blocks` change are in the directory and in the first table of
-- the system.
module _ (e : Entries) (t : Tables) (ok : AreApart t) (idle pcb idle_dir : ℕ)
    (low_idle : idle / 4096 < 1024) (low_pcb : pcb / 4096 < 1024)
    (low_dir : idle_dir / 4096 < 1024) where
  abbrev mapped : Entries
  mapped = map_blocks (map_tables e t) t idle pcb idle_dir

  map_tables-user :
      (p : ℕ)
      → p < 1024
      → map_tables e t (slot (frame_address t.user) p) ≡ e (slot (frame_address t.user) p)
  unfolding map_tables
  map_tables-user p h =
      rw
        (
          set_ss_pag-apart _ t.so t.user t.user p t.user 1 ok.so_user ok.so_high ok.user_high
              ok.user_high h,
          set_ss_pag-apart _ t.so t.user t.so2 p t.so2 0 ok.so_user ok.so_high ok.user_high
              ok.so2_high h,
          set_ss_pag-apart _ t.so t.user t.so p t.so 0 ok.so_user ok.so_high ok.user_high ok.so_high
              h,
          set_ss_pag-apart _ t.dir t.user t.dir p t.dir 0 ok.dir_user ok.dir_high ok.user_high
              ok.dir_high h,
          set_ss_pag-apart _ t.dir t.user 2 p t.user 1 ok.dir_user ok.dir_high ok.user_high
              (omega arith) h,
          set_ss_pag-apart _ t.dir t.user 1 p t.so2 0 ok.dir_user ok.dir_high ok.user_high
              (omega arith) h,
          set_ss_pag-apart _ t.dir t.user 0 p t.so 0 ok.dir_user ok.dir_high ok.user_high
              (omega arith) h,
        )
        refl

  -- A table other than the first one of the system keeps its entries in `map_blocks`.
  map_blocks-apart :
      (d : Entries) (y p : ℕ)
      → t.so ≢ y
      → y < 1024
      → p < 1024
      → map_blocks d t idle pcb idle_dir (slot (frame_address y) p) ≡ d (slot (frame_address y) p)
  unfolding map_blocks
  map_blocks-apart d y p ne hy h =
      rw
        (
          auto_map-low _ (idle / 4096) (frame_address t.so) (frame_address t.so2) low_idle,
          auto_map-low _ (pcb / 4096) (frame_address t.so) (frame_address t.so2) low_pcb,
          auto_map-low _ t.dir (frame_address t.so) (frame_address t.so2) ok.dir_high,
          auto_map-low _ (idle_dir / 4096) (frame_address t.so) (frame_address t.so2) low_dir,
          set_ss_pag-apart _ t.so y (idle_dir / 4096) p (idle_dir / 4096) 0 ne ok.so_high hy low_dir
              h,
          set_ss_pag-apart _ t.so y t.dir p t.dir 0 ne ok.so_high hy ok.dir_high h,
          set_ss_pag-apart _ t.so y (pcb / 4096) p (pcb / 4096) 0 ne ok.so_high hy low_pcb h,
          set_ss_pag-apart _ t.so y (idle / 4096) p (idle / 4096) 0 ne ok.so_high hy low_idle h,
        )
        refl

  -- The first three entries of the directory name the tables.
  map_tables-dir :
      let d = map_tables e t in
      let pt = frame_address t.dir in
      (get_frame d pt 0 ≡ t.so) × (get_frame d pt 1 ≡ t.so2) × (get_frame d pt 2 ≡ t.user)
  unfolding map_tables get_frame
  map_tables-dir =
      let pt = frame_address t.dir in
      let e1 = set_ss_pag e pt 0 t.so 0 in
      let e2 = set_ss_pag e1 pt 1 t.so2 0 in
      let e3 = set_ss_pag e2 pt 2 t.user 1 in
      let top : (q : ℕ)
          → q < 1024
          → map_tables e t (slot pt q) ≡ set_ss_pag e3 pt t.dir t.dir 0 (slot pt q) =
        λ q h.
          rw
            (
              set_ss_pag-apart _ t.so t.dir t.user q t.user 1 (λ s. ok.dir_so (sym s)) ok.so_high
                  ok.dir_high ok.user_high h,
              set_ss_pag-apart _ t.so t.dir t.so2 q t.so2 0 (λ s. ok.dir_so (sym s)) ok.so_high
                  ok.dir_high ok.so2_high h,
              set_ss_pag-apart _ t.so t.dir t.so q t.so 0 (λ s. ok.dir_so (sym s)) ok.so_high
                  ok.dir_high ok.so_high h,
            )
            refl in
      let low = ok.dir_low in
      let h0 = ok.so_high in
      let h1 = ok.so2_high in
      let h2 = ok.user_high in
      let at_0 : (set_ss_pag e3 pt t.dir t.dir 0 (slot pt 0)).pbase_addr ≡ t.so = ground (
        arith,
        set_ss_pag-get e3 pt t.dir t.dir 0 0,
        set_ss_pag-get e2 pt 2 t.user 1 0,
        set_ss_pag-get e1 pt 1 t.so2 0 0,
        set_ss_pag-get e pt 0 t.so 0 0,
      ) in
      let at_1 : (set_ss_pag e3 pt t.dir t.dir 0 (slot pt 1)).pbase_addr ≡ t.so2 = ground (
        arith,
        set_ss_pag-get e3 pt t.dir t.dir 0 1,
        set_ss_pag-get e2 pt 2 t.user 1 1,
        set_ss_pag-get e1 pt 1 t.so2 0 1,
      ) in
      let at_2 : (set_ss_pag e3 pt t.dir t.dir 0 (slot pt 2)).pbase_addr ≡ t.user =
        ground (arith, set_ss_pag-get e3 pt t.dir t.dir 0 2, set_ss_pag-get e2 pt 2 t.user 1 2) in
      (
        get_frame-same (set_ss_pag e3 pt t.dir t.dir 0) (map_tables e t) pt 0 (top 0 (omega arith))
            ∙ at_0,
        get_frame-same (set_ss_pag e3 pt t.dir t.dir 0) (map_tables e t) pt 1 (top 1 (omega arith))
            ∙ at_1,
        get_frame-same (set_ss_pag e3 pt t.dir t.dir 0) (map_tables e t) pt 2 (top 2 (omega arith))
            ∙ at_2,
      )

  pub mapped-dir :
      let pt = frame_address t.dir in
      (get_frame mapped pt 0 ≡ t.so)
      × (get_frame mapped pt 1 ≡ t.so2)
      × (get_frame mapped pt 2 ≡ t.user)
  mapped-dir =
      let (a, b, c) = map_tables-dir in
      let pt = frame_address t.dir in
      let apart = λ (s : t.so ≡ t.dir). ok.dir_so (sym s) in
      (
        get_frame-same (map_tables e t) mapped pt 0
              (map_blocks-apart (map_tables e t) t.dir 0 apart ok.dir_high (omega arith))
            ∙ a,
        get_frame-same (map_tables e t) mapped pt 1
              (map_blocks-apart (map_tables e t) t.dir 1 apart ok.dir_high (omega arith))
            ∙ b,
        get_frame-same (map_tables e t) mapped pt 2
              (map_blocks-apart (map_tables e t) t.dir 2 apart ok.dir_high (omega arith))
            ∙ c,
      )

  pub mapped-user :
      (p : ℕ)
      → p < 1024
      → mapped (slot (frame_address t.user) p) ≡ e (slot (frame_address t.user) p)
  mapped-user p h =
      map_blocks-apart (map_tables e t) t.user p ok.so_user ok.user_high h ∙ map_tables-user p h

  pub map_tables-keeps :
      (p : ℕ)
      → p < 1024
      → IsIdentity e (frame_address t.so) p
      → IsIdentity (map_tables e t) (frame_address t.so) p
  unfolding map_tables
  map_tables-keeps p h i =
      let so = frame_address t.so in
      let step : (d : Entries) (q f u : ℕ)
          → q < 1024
          → IsIdentity d so p
          → IsIdentity (set_ss_pag d (frame_address t.dir) q f u) so p =
        λ d q f u low j.
          IsIdentity-same d (set_ss_pag d (frame_address t.dir) q f u) so p
            (set_ss_pag-apart d t.dir t.so q p f u ok.dir_so ok.dir_high ok.so_high low h) j in
      set_ss_pag-keeps _ so t.user 1 p h (
        set_ss_pag-keeps _ so t.so2 0 p h (
          set_ss_pag-keeps _ so t.so 0 p h (
            step _ t.dir t.dir 0 ok.dir_high (
              step _ 2 t.user 1 (omega arith)
                (step _ 1 t.so2 0 (omega arith) (step _ 0 t.so 0 (omega arith) i))))))

  pub map_blocks-keeps :
      (d : Entries) (p : ℕ)
      → p < 1024
      → IsIdentity d (frame_address t.so) p
      → IsIdentity (map_blocks d t idle pcb idle_dir) (frame_address t.so) p
  unfolding map_blocks
  map_blocks-keeps d p h i =
      let so = frame_address t.so in
      rw
        (
          auto_map-low d (idle / 4096) so (frame_address t.so2) low_idle,
          auto_map-low _ (pcb / 4096) so (frame_address t.so2) low_pcb,
          auto_map-low _ t.dir so (frame_address t.so2) ok.dir_high,
          auto_map-low _ (idle_dir / 4096) so (frame_address t.so2) low_dir,
        )
        (set_ss_pag-keeps _ so (idle_dir / 4096) 0 p h (
          set_ss_pag-keeps _ so t.dir 0 p h (
            set_ss_pag-keeps _ so (pcb / 4096) 0 p h
              (set_ss_pag-keeps _ so (idle / 4096) 0 p h i))))

  -- The pages of the two blocks and of the two directories are mapped for the kernel.
  pub map_blocks-blocks :
      (d : Entries)
      → let so = frame_address t.so in
        let d' = map_blocks d t idle pcb idle_dir in
        IsIdentity d' so (idle / 4096)
        × IsIdentity d' so (pcb / 4096)
        × IsIdentity d' so t.dir
        × IsIdentity d' so (idle_dir / 4096)
  unfolding map_blocks
  map_blocks-blocks d =
      let so = frame_address t.so in
      let keep = λ (c : Entries) (x p : ℕ) (h : p < 1024) (i : IsIdentity c so p).
        set_ss_pag-keeps c so x 0 p h i in
      rw
        (
          auto_map-low d (idle / 4096) so (frame_address t.so2) low_idle,
          auto_map-low _ (pcb / 4096) so (frame_address t.so2) low_pcb,
          auto_map-low _ t.dir so (frame_address t.so2) ok.dir_high,
          auto_map-low _ (idle_dir / 4096) so (frame_address t.so2) low_dir,
        )
        (
          keep _ (idle_dir / 4096) (idle / 4096) low_idle (
              keep _ t.dir (idle / 4096) low_idle (
                keep _ (pcb / 4096) (idle / 4096) low_idle
                  (set_ss_pag-IsIdentity d so (idle / 4096) 0 low_idle))),
          keep _ (idle_dir / 4096) (pcb / 4096) low_pcb (
              keep _ t.dir (pcb / 4096) low_pcb
                (set_ss_pag-IsIdentity _ so (pcb / 4096) 0 low_pcb)),
          keep _ (idle_dir / 4096) t.dir ok.dir_high
              (set_ss_pag-IsIdentity _ so t.dir 0 ok.dir_high),
          set_ss_pag-IsIdentity _ so (idle_dir / 4096) 0 low_dir,
        )
