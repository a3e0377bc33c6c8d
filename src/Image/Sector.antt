-- ===== src/Image/Sector.antt =====
-- The boot sector: the header of its file is checked and left out.
use zeos_soa.Prelude.{
  ap, sym, ◌∙◌, ℕ, ◌≡◌, refl, true, List, [], ◌∷◌, ◌++◌, some, arith, length, take, drop, ◌==◌,
  update, inr, ◌&&◌, length-append,
}
use zeos_soa.Prelude.Int.{ℤ, pos, eq_ℤ}
use zeos_soa.Image.{
  Host, Builder, ok, read_buf, open_file, check_header, has_header, lb, minix_open, copy_sector,
  copy_boot, store, bytes_of,
}
use zeos_soa.Image.Disk.{View, IsDisk, take-all}
use zeos_soa.Image.Buffer.{
  bytes_of-store, bytes_of-update, bytes_of-append, store-append, bytes_of-store_behind,
}
use zeos_soa.Image.Copy.{AtEnd, write_buf-AtEnd}

-- A header of ld86 for text alone, with the sizes of the text and of the whole.
abbrev pub minix_header : (t0 t1 t2 t3 w0 w1 w2 w3 : ℕ) → List ℕ
minix_header t0 t1 t2 t3 w0 w1 w2 w3 =
    0x01 ∷ 0x03 ∷ 0x10 ∷ 0x04 ∷ 0x20 ∷ 0 ∷ 0 ∷ 0 ∷ t0 ∷ t1 ∷ t2 ∷ t3 ∷ 0 ∷ 0 ∷ 0 ∷ 0 ∷ 0 ∷ 0 ∷ 0 ∷ 0
    ∷ 0 ∷ 0 ∷ 0 ∷ 0 ∷ w0 ∷ w1 ∷ w2 ∷ w3 ∷ 0 ∷ 0 ∷ 0 ∷ 0 ∷ []

-- A sector with two bytes for the root device and the boot flag at its end.
abbrev pub sector : (body : List ℕ) → (r0 r1 : ℕ) → List ℕ
sector body r0 r1 = body ++ (r0 ∷ r1 ∷ 0x55 ∷ 0xaa ∷ [])

module _ (buf : ℕ → ℕ) (body : List ℕ) (r0 r1 : ℕ) (len : length body ≡ 508) where
  stored :
      store buf (sector body r0 r1) 0 ≡ store (store buf body 0) (r0 ∷ r1 ∷ 0x55 ∷ 0xaa ∷ []) 508
  stored =
      store-append buf body (r0 ∷ r1 ∷ 0x55 ∷ 0xaa ∷ []) 0
      ∙ ap (store (store buf body 0) (r0 ∷ r1 ∷ 0x55 ∷ 0xaa ∷ [])) (omega (arith, len))

  sector-flag :
      let b = store buf (sector body r0 r1) 0 in ((b 510 == 0x55) && (b 511 == 0xaa)) ≡ true
  unfolding store
  sector-flag = rw stored refl

  sector-bytes :
      bytes_of 512 (update (update (store buf (sector body r0 r1) 0) 508 0) 509 0) 0
      ≡ sector body 0 0
  unfolding store bytes_of
  sector-bytes =
      let b = store (store buf body 0) (r0 ∷ r1 ∷ 0x55 ∷ 0xaa ∷ []) 508 in
      let front : bytes_of 508 (update (update b 508 0) 509 0) 0 ≡ body =
        bytes_of-update 508 (update b 508 0) 0 509 0 (inr (omega arith))
        ∙ bytes_of-update 508 b 0 508 0 (inr (omega arith))
        ∙ bytes_of-store_behind 508 (store buf body 0) (r0 ∷ r1 ∷ 0x55 ∷ 0xaa ∷ []) 508 0
            (omega arith)
        ∙ ap (λ n. bytes_of n (store buf body 0) 0) (sym len)
        ∙ bytes_of-store buf body 0 in
      ap (λ c. bytes_of 512 (update (update c 508 0) 509 0) 0) stored
      ∙ bytes_of-append 508 4 (update (update b 508 0) 509 0) 0
      ∙ ap (λ x. x ++ (0 ∷ 0 ∷ 0x55 ∷ 0xaa ∷ [])) front

module _ {S : Type 0} (h : Host S) (v : View S) (disk : IsDisk h v) where
  -- A sector of the right size and with the flag goes to the end of the output, for root device 0.
  copy_sector-AtEnd :
      (b : Builder S) (out body : List ℕ) (r0 r1 : ℕ)
      → AtEnd h v disk b out
      → length body ≡ 508
      → v.unread b.host b.fd ≡ sector body r0 r1
      → (b' : Builder S) × (copy_sector h b ≡ ok b') × AtEnd h v disk b' (out ++ sector body 0 0)
  unfolding copy_sector read_buf
  copy_sector-AtEnd b out body r0 r1 at len is =
      let (r, bytes, u, o) = disk.read_law b.host b.fd 1024 in
      let got = (h.read b.host b.fd 1024).1 in
      let whole = sector-length body r0 r1 len in
      let all : got ≡ sector body r0 r1 =
        bytes
        ∙ ap (λ x. take 1024 x) is
        ∙ take-all (sector body r0 r1) 1024 (omega (arith, whole)) in
      let size : eq_ℤ (h.read b.host b.fd 1024).0 (pos 512) ≡ true =
        rw (r, all, whole) (ground arith) in
      let flag : ((store b.buf got 0 510 == 0x55) && (store b.buf got 0 511 == 0xaa)) ≡ true =
        rw all (sector-flag b.buf body r0 r1 len) in
      let b1 : Builder S = record b {
        host = (h.read b.host b.fd 1024).2;
        buf = update (update (store b.buf got 0) 508 0) 509 0;
      } in
      let (b2, eq, at2, _, _) =
        write_buf-AtEnd h v disk 512 b1 out (sector body 0 0)
          (record { output = o.output ∙ at.output; offset = o.offset ∙ at.offset })
          (rw all (sector-bytes b.buf body r0 r1 len)) (sector-length body 0 0 len) in
      let closed = disk.close_law b2.host b2.fd in
      (
        record b2 { host = h.close b2.host b2.fd },
        rw (size, flag, eq) refl,
        record { output = closed.output ∙ at2.output; offset = closed.offset ∙ at2.offset },
      )
    where
      sector-length : (xs : List ℕ) (a b : ℕ) → length xs ≡ 508 → length (sector xs a b) ≡ 512
      sector-length xs a b e = length-append xs (a ∷ b ∷ 0x55 ∷ 0xaa ∷ []) ∙ omega (arith, e)

  check_header-ok :
      (b : Builder S) (buf : ℕ → ℕ) (n : ℤ) (t0 t1 t2 t3 w0 w1 w2 w3 : ℕ)
      → n ≡ pos 32
      → b.buf ≡ store buf (minix_header t0 t1 t2 t3 w0 w1 w2 w3) 0
      → check_header h n b ≡ ok b
  unfolding check_header has_header lb store
  check_header-ok b buf n t0 t1 t2 t3 w0 w1 w2 w3 len same =
      let size : eq_ℤ n (pos 32) ≡ true = rw len refl in
      let magic : (has_header b.buf && (lb b.buf 5 == 0)) ≡ true = rw same refl in
      let no_data : lb b.buf 3 == 0 ≡ true = rw same refl in
      let no_bss : lb b.buf 4 == 0 ≡ true = rw same refl in
      let no_symbols : lb b.buf 7 == 0 ≡ true = rw same refl in
      rw (size, magic, no_data, no_bss, no_symbols) refl

  pub copy_boot-AtEnd :
      (name : List ℕ) (b : Builder S) (out body : List ℕ) (r0 r1 t0 t1 t2 t3 w0 w1 w2 w3 : ℕ)
      → v.contents name ≡ some (minix_header t0 t1 t2 t3 w0 w1 w2 w3 ++ sector body r0 r1)
      → length body ≡ 508
      → AtEnd h v disk b out
      → (b' : Builder S) × (copy_boot h name b ≡ ok b') × AtEnd h v disk b' (out ++ sector body 0 0)
  unfolding copy_boot minix_open open_file read_buf
  copy_boot-AtEnd name b out body r0 r1 t0 t1 t2 t3 w0 w1 w2 w3 is len at =
      let header = minix_header t0 t1 t2 t3 w0 w1 w2 w3 in
      let (opened, u, w, o) = disk.open_law b.host name (header ++ sector body r0 r1) is in
      let fd = (h.open_read b.host name).0 in
      let s1 = (h.open_read b.host name).1 in
      let (r, bytes, u2, o2) = disk.read_law s1 fd 32 in
      let got = (h.read s1 fd 32).1 in
      let head : got ≡ header = bytes ∙ ap (λ x. take 32 x) u in
      let b2 : Builder S = record b {
        host = (h.read s1 fd 32).2;
        buf = store b.buf got 0;
        fd = fd;
      } in
      let checked =
        check_header-ok b2 b.buf (h.read s1 fd 32).0 t0 t1 t2 t3 w0 w1 w2 w3
          (r ∙ ap (λ x. pos (length x)) head) (ap (λ x. store b.buf x 0) head) in
      let (b3, eq, end) =
        copy_sector-AtEnd b2 out body r0 r1
          (record {
            output = o2.output ∙ o.output ∙ at.output;
            offset = o2.offset ∙ o.offset ∙ at.offset;
          })
          len (u2 ∙ ap (λ x. drop 32 x) u) in
      (b3, rw (opened, checked) eq, end)
