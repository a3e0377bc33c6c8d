-- ===== src/Image/Copy.antt =====
-- The copy of a file to the end of the output.
use zeos_soa.Prelude.{
  ap, sym, ◌∙◌, ℕ, zero, suc, ◌-◌, ◌≤◌, ◌<◌, ◌%◌, ◌^◌, ◌≡◌, ◌≢◌, refl, true, List, [], ◌∷◌, ◌++◌,
  some, arith, length, take, drop, min, ◌==◌, append-nil, append_assoc, length-append, Bool-cases,
  inl, inr,
}
use zeos_soa.Prelude.Int.{pos, eq_ℤ}
use zeos_soa.Image.{
  Host, Builder, ok, read_buf, write_buf, open_file, copy_block, copy_loop, copy_opened, copy_file,
  store, bytes_of,
}
use zeos_soa.Image.Disk.{View, IsDisk, splice-end, take-all, length-take, length-drop, take-drop}
use zeos_soa.Image.Buffer.{bytes_of-store}

module _ {S : Type 0} (h : Host S) (v : View S) (disk : IsDisk h v) where
  -- The output is `out`, and the next byte goes behind it.
  pub record AtEnd (b : Builder S) (out : List ℕ) : Type 0 where
    pub output : v.output b.host ≡ out
    pub offset : v.offset b.host ≡ length out

  -- A write of `n` bytes of the buffer at the end of the output.
  pub write_buf-AtEnd :
      (n : ℕ) (b : Builder S) (out bytes : List ℕ)
      → AtEnd b out
      → bytes_of n b.buf 0 ≡ bytes
      → length bytes ≡ n
      → (b' : Builder S) × (write_buf h n b ≡ ok b')
        × AtEnd b' (out ++ bytes)
        × (b'.fd ≡ b.fd)
        × (v.unread b'.host b.fd ≡ v.unread b.host b.fd)
  unfolding write_buf
  write_buf-AtEnd n b out bytes at same len =
      let (r, o, p, u) = disk.write_law b.host (bytes_of n b.buf 0) in
      let s' = (h.write b.host (bytes_of n b.buf 0)).1 in
      let passed : eq_ℤ (h.write b.host (bytes_of n b.buf 0)).0 (pos n) ≡ true =
        rw (r, same, len) (ground arith) in
      (
        record b { host = s' },
        rw passed refl,
        record {
          output = o ∙ rw (at.output, at.offset, same) (splice-end out bytes);
          offset = p ∙ rw (at.offset, same) (sym (length-append out bytes));
        },
        refl,
        u b.fd,
      )

  copy_block-AtEnd :
      (l : ℕ) (b : Builder S) (out : List ℕ)
      → AtEnd b out
      → l ≤ length (v.unread b.host b.fd)
      → (b' : Builder S) × (copy_block h l b ≡ ok b')
        × AtEnd b' (out ++ take l (v.unread b.host b.fd))
        × (b'.fd ≡ b.fd)
        × (v.unread b'.host b.fd ≡ drop l (v.unread b.host b.fd))
  unfolding copy_block read_buf
  copy_block-AtEnd l b out at enough =
      let (r, bytes, u, o) = disk.read_law b.host b.fd l in
      let got = (h.read b.host b.fd l).1 in
      let b1 = (read_buf h l b).1 in
      let len : length got ≡ l = rw bytes (length-take l (v.unread b.host b.fd) enough) in
      let (b', eq, at', fd, u') =
        write_buf-AtEnd l b1 out got
          (record { output = o.output ∙ at.output; offset = o.offset ∙ at.offset })
          (ap (λ n. bytes_of n (store b.buf got 0) 0) (sym len) ∙ bytes_of-store b.buf got 0) len in
      let passed : eq_ℤ (h.read b.host b.fd l).0 (pos l) ≡ true = rw (r, len) (ground arith) in
      (b', rw passed eq, rw bytes at at', fd, u' ∙ u)

  -- With as many rounds as there are bytes, the loop copies all of them.
  copy_loop-AtEnd :
      (fuel sz : ℕ) (b : Builder S) (out : List ℕ)
      → AtEnd b out
      → length (v.unread b.host b.fd) ≡ sz
      → sz ≤ fuel
      → (b' : Builder S) × (copy_loop h fuel sz b ≡ ok b') × AtEnd b' (out ++ v.unread b.host b.fd)
  unfolding copy_loop
  copy_loop-AtEnd zero sz b out at len small =
      let none : v.unread b.host b.fd ≡ [] =
        length-zero (v.unread b.host b.fd) (omega (arith, len, small)) in
      (b, refl, rw (none, append-nil out) at)
    where
      length-zero : (xs : List ℕ) → length xs ≡ 0 → xs ≡ []
      length-zero [] e = refl
      length-zero (x ∷ xs) e = absurd (omega (arith, e))
  copy_loop-AtEnd (suc fuel) sz b out at len small = elim (Bool-cases (sz == 0)) [
    | inl e ↦
        let none : v.unread b.host b.fd ≡ [] =
          sym (take-all (v.unread b.host b.fd) 0 (ground (arith, len, e))) in
        (b, rw e refl, rw (none, append-nil out) at)
    | inr e ↦
        let u = v.unread b.host b.fd in
        let l = min sz 1024 in
        let (b1, eq, at1, fd, u1) = copy_block-AtEnd l b out at (omega (arith, len)) in
        let rest_len : length (v.unread b1.host b1.fd) ≡ sz - l =
          rw (fd, u1) (length-drop l u ∙ omega (arith, len)) in
        let positive : sz ≢ 0 = λ z. ground (arith, e, z) in
        let (b', eq', at') =
          copy_loop-AtEnd fuel (sz - l) b1 (out ++ take l u) at1 rest_len
            (omega (arith, small, positive)) in
        let joined : out ++ take l u ++ v.unread b1.host b1.fd ≡ out ++ u =
          rw (fd, u1)
            (append_assoc out (take l u) (drop l u) ∙ ap (λ r. out ++ r) (take-drop l u)) in
        (b', rw (e, eq) eq', rw joined at at')
  ]

  copy_opened-AtEnd :
      (b : Builder S) (out c : List ℕ)
      → AtEnd b out
      → v.unread b.host b.fd ≡ c
      → (b' : Builder S) × (copy_opened h (length c) b ≡ ok (length c, b')) × AtEnd b' (out ++ c)
  unfolding copy_opened
  copy_opened-AtEnd b out c at is =
      let (b3, eq, at3) =
        copy_loop-AtEnd (length c) (length c) b out at (ap (λ u. length u) is) (omega arith) in
      let closed = disk.close_law b3.host b3.fd in
      let end : AtEnd (record b3 { host = h.close b3.host b3.fd }) (out ++ v.unread b.host b.fd) =
        record { output = closed.output ∙ at3.output; offset = closed.offset ∙ at3.offset } in
      (record b3 { host = h.close b3.host b3.fd }, rw eq refl, rw is at end)

  -- The whole of a file of less than 2^32 bytes goes to the end of the output.
  pub copy_file-AtEnd :
      (name c : List ℕ) (b : Builder S) (out : List ℕ)
      → v.contents name ≡ some c
      → length c < 2 ^ 32
      → AtEnd b out
      → (b' : Builder S) × (copy_file h name b ≡ ok (length c, b')) × AtEnd b' (out ++ c)
  unfolding copy_file open_file
  copy_file-AtEnd name c b out is small at =
      let (opened, u, w, o) = disk.open_law b.host name c is in
      let fd = (h.open_read b.host name).0 in
      let s1 = (h.open_read b.host name).1 in
      let (r, size, u2, o2) = disk.fstat_law s1 fd in
      let s2 = (h.fstat s1 fd).2 in
      let sz : (h.fstat s1 fd).1 % 2 ^ 32 ≡ length c = rw (size, w) (omega (arith, small)) in
      let passed : eq_ℤ (h.fstat s1 fd).0 (pos 0) ≡ true = rw r (ground arith) in
      let b2 : Builder S = record b { host = s2; fd = fd } in
      let (b3, eq, end) =
        copy_opened-AtEnd b2 out c
          (record {
            output = o2.output ∙ o.output ∙ at.output;
            offset = o2.offset ∙ o.offset ∙ at.offset;
          })
          (u2 ∙ u) in
      (b3, rw (opened, passed) (ap (λ n. copy_opened h n b2) sz ∙ eq), end)
