-- ===== src/Image.antt =====
-- zeos/build.c: the builder of the disk image. The calls of the host are an interface; what is printed
-- to stderr is left out.
use zeos_soa.Prelude.{
  ℕ, zero, suc, ◌+◌, ◌-◌, ◌*◌, ◌/◌, ◌%◌, ◌^◌, Bool, true, false, ◌&&◌, List, [], ◌∷◌, ◌==◌,
  if◌then◌else◌, update, min,
}
use zeos_soa.Prelude.Int.{ℤ, pos, ltb_ℤ, eq_ℤ}
pub mod Disk
pub mod Buffer
pub mod Copy
pub mod Sector
pub mod Bytes
pub mod Layout

-- The messages of `die`; those for a write that fails are one.
pub data Error : Type 0 where
  usage : Error
  unable_to_open : Error
  unable_to_read_header : Error
  non_minix_header : Error
  illegal_data_segment : Error
  illegal_bss_segment : Error
  illegal_symbol_table : Error
  boot_block_size : Error
  boot_flag : Error
  write_failed : Error
  unable_to_stat : Error
  error_reading : Error
  unexpected_eof : Error
  seek_failed : Error

-- A program that goes on, or that `die` has ended.
pub data Result {ℓ} (A : Type ℓ) : Type ℓ where
  ok : A → Result A
  die : Error → Result A

infixl 5 ◌>>=◌ ◌>>◌
abbrev pub ◌>>=◌ {ℓ κ} : {A : Type ℓ} {B : Type κ} → Result A → (A → Result B) → Result B
ok a >>= f = f a
die e >>= f = die e

abbrev pub ◌>>◌ {ℓ} : {B : Type ℓ} → Result (Unit {0}) → Result B → Result B
m >> k = m >>= λ _. k

-- `if (!test) die(...)`
abbrev pub require : Bool → Error → Result (Unit {0})
require true e = ok tt
require false e = die e

-- `open` for reading, `read` with the bytes that it puts in the buffer, `fstat` with `st_size`, and `close`, on a
-- file; `write` and `lseek` on the output, descriptor 1.
pub record Host (S : Type 0) : Type 0 where
  pub open_read : S → (name : List ℕ) → ℤ × S
  pub read : S → (fd : ℤ) → (count : ℕ) → ℤ × List ℕ × S
  pub fstat : S → (fd : ℤ) → ℤ × ℕ × S
  pub close : S → (fd : ℤ) → S
  pub write : S → List ℕ → ℤ × S
  pub lseek : S → (offset : ℕ) → ℤ × S

-- The globals `buf` and `fd`, with the state of the host.
pub record Builder (S : Type 0) : Type 0 where
  pub host : S
  pub buf : ℕ → ℕ
  pub fd : ℤ

abbrev pub minix_header_len : ℕ
minix_header_len = 32

abbrev pub buf_size : ℕ
buf_size = 1024

-- `bytes` put in the buffer from index `i` on.
unfoldable pub store : (ℕ → ℕ) → (bytes : List ℕ) → (i : ℕ) → ℕ → ℕ
store buf [] i = buf
store buf (b ∷ bs) i = store (update buf i b) bs (i + 1)

-- The `n` bytes of the buffer from index `i` on.
unfoldable pub bytes_of : (n : ℕ) → (ℕ → ℕ) → (i : ℕ) → List ℕ
bytes_of zero buf i = []
bytes_of (suc n) buf i = buf i ∷ bytes_of n buf (i + 1)

-- `lb[i]`: a word of the buffer, on a little-endian host.
unfoldable pub lb : (ℕ → ℕ) → ℕ → ℕ
lb buf i =
    buf (4 * i) + buf (4 * i + 1) * 2 ^ 8 + buf (4 * i + 2) * 2 ^ 16 + buf (4 * i + 3) * 2 ^ 24

-- `memcmp(buf, hdr, sizeof(hdr)) == 0`
unfoldable pub has_header : (ℕ → ℕ) → Bool
has_header buf =
    (buf 0 == 0x01)
    && (buf 1 == 0x03)
    && (buf 2 == 0x10)
    && (buf 3 == 0x04)
    && (buf 4 == 0x20)
    && (buf 5 == 0x00)
    && (buf 6 == 0x00)
    && (buf 7 == 0x00)

module _ {S : Type 0} (h : Host S) where
  unfoldable pub open_file : (name : List ℕ) → Builder S → Result (Builder S)
  open_file name b =
      let (fd, s) = h.open_read b.host name in
      if ltb_ℤ fd (pos 0) then die unable_to_open else ok (record b { host = s; fd = fd })

  -- `read(fd, buf, count)`: the count that it returns, and the buffer.
  unfoldable pub read_buf : (count : ℕ) → Builder S → ℤ × Builder S
  read_buf count b =
      let (n, bytes, s) = h.read b.host b.fd count in
      (n, record b { host = s; buf = store b.buf bytes 0 })

  -- `if (write(1, buf, count) != count) die(...)`
  unfoldable pub write_buf : (count : ℕ) → Builder S → Result (Builder S)
  write_buf count b =
      let (n, s) = h.write b.host (bytes_of count b.buf 0) in
      if eq_ℤ n (pos count) then ok (record b { host = s }) else die write_failed

  -- The checks of `minix_open` on the header.
  unfoldable pub check_header : (n : ℤ) → Builder S → Result (Builder S)
  check_header n b = do
    require (eq_ℤ n (pos minix_header_len)) unable_to_read_header
    require (has_header b.buf && (lb b.buf 5 == 0)) non_minix_header
    require (lb b.buf 3 == 0) illegal_data_segment
    require (lb b.buf 4 == 0) illegal_bss_segment
    require (lb b.buf 7 == 0) illegal_symbol_table
    ok b

  unfoldable pub minix_open : (name : List ℕ) → Builder S → Result (Builder S)
  minix_open name b = do
    b ← open_file name b
    let (n, b) = read_buf minix_header_len b
    check_header n b

  -- The boot sector behind the header: its size and its flag are checked, and the root device is
  -- written into it.
  unfoldable pub copy_sector : Builder S → Result (Builder S)
  copy_sector b = do
    let (i, b) = read_buf buf_size b
    require (eq_ℤ i (pos 512)) boot_block_size
    require ((b.buf 510 == 0x55) && (b.buf 511 == 0xaa)) boot_flag
    b ← write_buf 512 (record b { buf = update (update b.buf 508 0) 509 0 })
    ok (record b { host = h.close b.host b.fd })

  unfoldable pub copy_boot : (name : List ℕ) → Builder S → Result (Builder S)
  copy_boot name b = minix_open name b >>= copy_sector

  -- The body of `while (sz > 0)`, for the `l` bytes of a round.
  unfoldable pub copy_block : (l : ℕ) → Builder S → Result (Builder S)
  copy_block l b = do
    let (n, b) = read_buf l b
    require (eq_ℤ n (pos l)) (if ltb_ℤ n (pos 0) then error_reading else unexpected_eof)
    write_buf l b

  -- `while (sz > 0)`. Each round takes at least one from `sz`, so that `sz` rounds are enough.
  unfoldable pub copy_loop : (fuel sz : ℕ) → Builder S → Result (Builder S)
  copy_loop zero sz b = ok b
  copy_loop (suc fuel) sz b =
      let l = min sz buf_size in
      let rest = copy_block l b >>= copy_loop fuel (sz - l) in if sz == 0 then ok b else rest

  -- The copy of an open file of `sz` bytes.
  unfoldable pub copy_opened : (sz : ℕ) → Builder S → Result (ℕ × Builder S)
  copy_opened sz b = do b ← copy_loop sz sz b; ok (sz, record b { host = h.close b.host b.fd })

  -- The copy of the system, and that of the user program, with the size that `fstat` gives, as an
  -- `unsigned int`.
  unfoldable pub copy_file : (name : List ℕ) → Builder S → Result (ℕ × Builder S)
  copy_file name b = do
    b ← open_file name b
    let (r, st_size, s) = h.fstat b.host b.fd
    require (eq_ℤ r (pos 0)) unable_to_stat
    copy_opened (st_size % 2 ^ 32) (record b { host = s })

  -- `lseek(1, offset, SEEK_SET)` and `write(1, buf, count)`, with their checks.
  unfoldable pub write_at : (offset count : ℕ) → Builder S → Result (Builder S)
  write_at offset count b = do
    let (n, s) = h.lseek b.host offset
    require (eq_ℤ n (pos offset)) seek_failed
    write_buf count (record b { host = s })

  -- `buf[0] = (v & 0xff); ... buf[3] = 0;` and the four bytes at `offset`.
  unfoldable pub write_size : (offset v : ℕ) → Builder S → Result (Builder S)
  write_size offset v b =
      let buf = update (update b.buf 0 (v % 2 ^ 8)) 1 (v / 2 ^ 8 % 2 ^ 8) in
      let buf = update (update buf 2 (v / 2 ^ 16 % 2 ^ 8)) 3 0 in
      write_at offset 4 (record b { buf = buf })

  -- `buf[0] = (im_size & 0xff); buf[1] = ...` and the two bytes at 500.
  unfoldable pub write_image_size : (im_size : ℕ) → Builder S → Result (Builder S)
  write_image_size im_size b =
      write_at 500 2
        (record b { buf = update (update b.buf 0 (im_size % 2 ^ 8)) 1 (im_size / 2 ^ 8 % 2 ^ 8) })

  -- The part of `main` behind the test of its arguments.
  unfoldable pub build : (boot system user : List ℕ) → Builder S → Result (Builder S)
  build boot system user b = do
    b ← copy_boot boot b
    (sys_size, b) ← copy_file system b
    (usr_size, b) ← copy_file user b
    let im_size = (sys_size + usr_size + 15) % 2 ^ 32 / 16
    b ← write_image_size im_size b
    b ← write_size 512 sys_size b
    b ← write_size 516 usr_size b
    write_size 520 0x7E6A b

  -- `main`, for the arguments behind the name of the program.
  unfoldable pub build_main : (args : List (List ℕ)) → Builder S → Result (Builder S)
  build_main (boot ∷ system ∷ user ∷ []) b = build boot system user b
  build_main [] b = die usage
  build_main (x ∷ []) b = die usage
  build_main (x ∷ y ∷ []) b = die usage
  build_main (x ∷ y ∷ z ∷ w ∷ args) b = die usage
