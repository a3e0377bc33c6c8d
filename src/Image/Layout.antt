-- ===== src/Image/Layout.antt =====
-- The image that the builder leaves on the output, and the sizes that the kernel reads from it.
use zeos_soa.Prelude.{
  ap, ◌∙◌, ℕ, ◌+◌, ◌/◌, ◌%◌, ◌^◌, ◌≤◌, ◌<◌, ◌≡◌, refl, true, List, [], ◌∷◌, ◌++◌, some, arith,
  length,
}
use zeos_soa.Prelude.Int.{pos, eq_ℤ}
use zeos_soa.Image.{
  Host, Builder, ok, write_buf, write_at, write_size, write_image_size, build, bytes_of,
}
use zeos_soa.Image.Disk.{View, IsDisk, splice}
use zeos_soa.Image.Copy.{copy_file-AtEnd}
use zeos_soa.Image.Sector.{minix_header, sector, copy_boot-AtEnd}
use zeos_soa.Image.Bytes.{word_at, size_bytes, im_size, image, image-sizes}

module _ {S : Type 0} (h : Host S) (v : View S) (disk : IsDisk h v) where
  write_at-splice :
      (offset n : ℕ) (b : Builder S) (out bytes : List ℕ)
      → v.output b.host ≡ out
      → bytes_of n b.buf 0 ≡ bytes
      → length bytes ≡ n
      → (b' : Builder S) × (write_at h offset n b ≡ ok b')
        × (v.output b'.host ≡ splice out offset bytes)
  unfolding write_at write_buf
  write_at-splice offset n b out bytes at same len =
      let (r, o, p) = disk.lseek_law b.host offset in
      let s1 = (h.lseek b.host offset).1 in
      let (r2, o2, _, _) = disk.write_law s1 (bytes_of n b.buf 0) in
      let sought : eq_ℤ (h.lseek b.host offset).0 (pos offset) ≡ true = rw r (ground arith) in
      let written : eq_ℤ (h.write s1 (bytes_of n b.buf 0)).0 (pos n) ≡ true =
        rw (r2, same, len) (ground arith) in
      (
        record b { host = (h.write s1 (bytes_of n b.buf 0)).1 },
        rw (sought, written) refl,
        o2 ∙ rw (o, p, at, same) refl,
      )

  write_size-splice :
      (offset n : ℕ) (b : Builder S) (out : List ℕ)
      → v.output b.host ≡ out
      → (b' : Builder S) × (write_size h offset n b ≡ ok b')
        × (v.output b'.host ≡ splice out offset (size_bytes n))
  unfolding write_size bytes_of
  write_size-splice offset n b out at = write_at-splice offset 4 _ out (size_bytes n) at refl refl

  write_image_size-splice :
      (n : ℕ) (b : Builder S) (out : List ℕ)
      → v.output b.host ≡ out
      → (b' : Builder S) × (write_image_size h n b ≡ ok b')
        × (v.output b'.host ≡ splice out 500 (n % 2 ^ 8 ∷ n / 2 ^ 8 % 2 ^ 8 ∷ []))
  unfolding write_image_size bytes_of
  write_image_size-splice n b out at =
      write_at-splice 500 2 _ out (n % 2 ^ 8 ∷ n / 2 ^ 8 % 2 ^ 8 ∷ []) at refl refl

-- On a host that keeps to the interface, with an empty output and three files: a boot file of a
-- header of ld86 for text alone and a sector of 512 bytes with the boot flag, a system of at least
-- 12 bytes, and a user program, both of less than 2^24 bytes. Then `build` ends without an error,
-- and the output is the sector, for root device 0, the system and the user program, with the size of
-- the image at 500 and the sizes at 512, 516 and 520 written over them: the words at 512 and 516,
-- which the kernel finds at its start, are the two sizes, and the length is that of the three parts.
pub build-image :
    {S : Type 0} (h : Host S) (v : View S) (disk : IsDisk h v) (b : Builder S)
    (boot_name system_name user_name body system user : List ℕ) (r0 r1 t0 t1 t2 t3 w0 w1 w2 w3 : ℕ)
    → v.contents boot_name ≡ some (minix_header t0 t1 t2 t3 w0 w1 w2 w3 ++ sector body r0 r1)
    → v.contents system_name ≡ some system
    → v.contents user_name ≡ some user
    → length body ≡ 508
    → 12 ≤ length system
    → length system < 2 ^ 24
    → length user < 2 ^ 24
    → v.output b.host ≡ []
    → v.offset b.host ≡ 0
    → (b' : Builder S) × (build h boot_name system_name user_name b ≡ ok b')
      × (v.output b'.host ≡ image body system user)
      × (word_at (v.output b'.host) 512 ≡ length system)
      × (word_at (v.output b'.host) 516 ≡ length user)
      × (length (v.output b'.host) ≡ 512 + length system + length user)
unfolding build
build-image h v disk b boot_name system_name user_name body system user r0 r1 t0 t1 t2 t3 w0 w1 w2
      w3 is_boot is_system is_user len large small_s small_u empty start =
    let (b1, e1, a1) =
      copy_boot-AtEnd h v disk boot_name b [] body r0 r1 t0 t1 t2 t3 w0 w1 w2 w3 is_boot len
        (record { output = empty; offset = start }) in
    let (b2, e2, a2) =
      copy_file-AtEnd h v disk system_name system b1 (sector body 0 0) is_system
        (omega (arith, small_s)) a1 in
    let (b3, e3, a3) =
      copy_file-AtEnd h v disk user_name user b2 (sector body 0 0 ++ system) is_user
        (omega (arith, small_u)) a2 in
    let im = im_size system user in
    let (b4, e4, o4) =
      write_image_size-splice h v disk im b3 (sector body 0 0 ++ system ++ user) a3.output in
    let (b5, e5, o5) = write_size-splice h v disk 512 (length system) b4 _ o4 in
    let (b6, e6, o6) = write_size-splice h v disk 516 (length user) b5 _ o5 in
    let (b7, e7, o7) = write_size-splice h v disk 520 0x7E6A b6 _ o6 in
    let (words, words', size) = image-sizes body system user len large small_s small_u in
    (
      b7,
      rw (e1, e2, e3, e4, e5, e6) e7,
      o7,
      ap (λ x. word_at x 512) o7 ∙ words,
      ap (λ x. word_at x 516) o7 ∙ words',
      ap (λ x. length x) o7 ∙ size,
    )
