-- ===== src/Image/Bytes.antt =====
-- The image as a list of bytes, and the sizes that are read from it.
use zeos_soa.Prelude.{
  ap, ◌∙◌, ℕ, zero, suc, ◌+◌, ◌-◌, ◌*◌, ◌/◌, ◌%◌, ◌^◌, ◌≤◌, ◌<◌, ◌≡◌, refl, false, List, [], ◌∷◌,
  ◌++◌, arith, length, take, drop, ltb, if◌then◌else◌, length-append,
}
use zeos_soa.Image.Disk.{splice, length-take, length-drop}
use zeos_soa.Image.Sector.{sector}

-- The byte at an index, and the little-endian word.
abbrev pub byte_at : List ℕ → ℕ → ℕ
byte_at [] i = 0
byte_at (x ∷ xs) zero = x
byte_at (x ∷ xs) (suc i) = byte_at xs i

abbrev pub word_at : List ℕ → ℕ → ℕ
word_at xs i =
    byte_at xs i
    + byte_at xs (i + 1) * 2 ^ 8
    + byte_at xs (i + 2) * 2 ^ 16
    + byte_at xs (i + 3) * 2 ^ 24

-- The four bytes of a size.
abbrev pub size_bytes : ℕ → List ℕ
size_bytes n = n % 2 ^ 8 ∷ n / 2 ^ 8 % 2 ^ 8 ∷ n / 2 ^ 16 % 2 ^ 8 ∷ 0 ∷ []

abbrev pub im_size : List ℕ → List ℕ → ℕ
im_size system user = (length system + length user + 15) % 2 ^ 32 / 16

-- The three parts one after the other, with the sizes written over the boot sector and the first
-- words of the system.
abbrev pub image : (body system user : List ℕ) → List ℕ
image body system user =
    let out = sector body 0 0 ++ system ++ user in
    let im = im_size system user in
    let out = splice out 500 (im % 2 ^ 8 ∷ im / 2 ^ 8 % 2 ^ 8 ∷ []) in
    let out = splice out 512 (size_bytes (length system)) in
    let out = splice out 516 (size_bytes (length user)) in splice out 520 (size_bytes 0x7E6A)

byte_at-append :
    (xs ys : List ℕ) (i : ℕ)
    → byte_at (xs ++ ys) i
      ≡ (if ltb i (length xs) then byte_at xs i else byte_at ys (i - length xs))
byte_at-append [] ys i = let at : i - 0 ≡ i = omega arith in rw at (ground arith)
byte_at-append (x ∷ xs) ys zero = ground arith
byte_at-append (x ∷ xs) ys (suc i) = ground (arith, byte_at-append xs ys i)

byte_at-take : (n : ℕ) (xs : List ℕ) (i : ℕ) → i < n → byte_at (take n xs) i ≡ byte_at xs i
byte_at-take zero xs i h = absurd (omega (arith, h))
byte_at-take (suc n) [] i h = refl
byte_at-take (suc n) (x ∷ xs) zero h = refl
byte_at-take (suc n) (x ∷ xs) (suc i) h = byte_at-take n xs i (omega (arith, h))

-- The bytes of `splice` are those that were written, and before them those of the output.
byte_at-splice :
    (out bytes : List ℕ) (offset i : ℕ)
    → offset ≤ length out
    → i < offset + length bytes
    → byte_at (splice out offset bytes) i
      ≡ (if ltb i offset then byte_at out i else byte_at bytes (i - offset))
byte_at-splice out bytes offset i h a = ground (
  arith,
  byte_at-append (take offset out ++ bytes) (drop (offset + length bytes) out) i,
  byte_at-append (take offset out) bytes i,
  length-append (take offset out) bytes,
  length-take offset out h,
  byte_at-take offset out i,
)

length-splice :
    (out bytes : List ℕ) (offset : ℕ)
    → offset + length bytes ≤ length out
    → length (splice out offset bytes) ≡ length out
length-splice out bytes offset h =
    length-append (take offset out ++ bytes) (drop (offset + length bytes) out)
    ∙ omega (
      arith,
      h,
      length-append (take offset out) bytes,
      length-take offset out (omega (arith, h)),
      length-drop (offset + length bytes) out,
    )

word_at-below :
    (out bytes : List ℕ) (offset i : ℕ)
    → offset ≤ length out
    → i + 4 ≤ offset
    → word_at (splice out offset bytes) i ≡ word_at out i
word_at-below out bytes offset i h below =
    let one : (j : ℕ) → j < offset → byte_at (splice out offset bytes) j ≡ byte_at out j =
      λ j lt. byte_at-splice out bytes offset j h (omega (arith, lt)) ∙ ground (arith, lt) in
    rw
      (
        one i (omega (arith, below)),
        one (i + 1) (omega (arith, below)),
        one (i + 2) (omega (arith, below)),
        one (i + 3) (omega (arith, below)),
      )
      refl

word_at-size :
    (out : List ℕ) (offset n : ℕ)
    → offset ≤ length out
    → n < 2 ^ 24
    → word_at (splice out offset (size_bytes n)) offset ≡ n
word_at-size out offset n h small =
    let b = size_bytes n in
    let one : (j : ℕ) → j < 4 → byte_at (splice out offset b) (offset + j) ≡ byte_at b j = λ j lt.
      byte_at-splice out b offset (offset + j) h (omega (arith, lt))
      ∙ behind offset j (byte_at out (offset + j)) b in
    let zero_th : byte_at (splice out offset b) offset ≡ byte_at b 0 =
      ap (byte_at (splice out offset b)) (omega arith) ∙ one 0 (omega arith) in
    rw (zero_th, one 1 (omega arith), one 2 (omega arith), one 3 (omega arith))
      (omega (arith, small))
  where
    behind :
        (offset j x : ℕ) (b : List ℕ)
        → (if ltb (offset + j) offset then x else byte_at b (offset + j - offset)) ≡ byte_at b j
    behind offset j x b =
        let past : ltb (offset + j) offset ≡ false = ground arith in
        let at : offset + j - offset ≡ j = omega arith in rw (past, at) refl

-- The size words of the image: what the kernel finds at its start for the two sizes below 2^24.
pub image-sizes :
    (body system user : List ℕ)
    → length body ≡ 508
    → 12 ≤ length system
    → length system < 2 ^ 24
    → length user < 2 ^ 24
    → (word_at (image body system user) 512 ≡ length system)
      × (word_at (image body system user) 516 ≡ length user)
      × (length (image body system user) ≡ 512 + length system + length user)
image-sizes body system user len large small_s small_u =
    let im = im_size system user in
    let o0 = sector body 0 0 ++ system ++ user in
    let o1 = splice o0 500 (im % 2 ^ 8 ∷ im / 2 ^ 8 % 2 ^ 8 ∷ []) in
    let o2 = splice o1 512 (size_bytes (length system)) in
    let o3 = splice o2 516 (size_bytes (length user)) in
    let l0 : length o0 ≡ 512 + length system + length user =
      length-append (sector body 0 0 ++ system) user
      ∙ omega (
        arith,
        length-append (sector body 0 0) system,
        length-append body (0 ∷ 0 ∷ 0x55 ∷ 0xaa ∷ []),
        len,
      ) in
    let l1 = length-splice o0 (im % 2 ^ 8 ∷ im / 2 ^ 8 % 2 ^ 8 ∷ []) 500 (omega (arith, l0)) ∙ l0 in
    let l2 = length-splice o1 (size_bytes (length system)) 512 (omega (arith, l1, large)) ∙ l1 in
    let l3 = length-splice o2 (size_bytes (length user)) 516 (omega (arith, l2, large)) ∙ l2 in
    (
      word_at-below o3 (size_bytes 0x7E6A) 520 512 (omega (arith, l3, large)) (omega arith)
          ∙ word_at-below o2 (size_bytes (length user)) 516 512 (omega (arith, l2, large))
              (omega arith)
          ∙ word_at-size o1 512 (length system) (omega (arith, l1)) small_s,
      word_at-below o3 (size_bytes 0x7E6A) 520 516 (omega (arith, l3, large)) (omega arith)
          ∙ word_at-size o2 516 (length user) (omega (arith, l2, large)) small_u,
      length-splice o3 (size_bytes 0x7E6A) 520 (omega (arith, l3, large)) ∙ l3,
    )
