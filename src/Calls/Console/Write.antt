-- ===== src/Calls/Console/Write.antt =====
-- What `sys_write` prints, and what it returns.
use zeos_soa.Prelude.{
  Bool, Option, none, some, if◌then◌else◌, ℕ, zero, suc, ◌+◌, ◌-◌, ◌<◌, ◌≡◌, ◌≢◌, refl, true, false,
  not, List, [], ◌∷◌, ◌++◌, length, ◌==◌, ltb, arith, Bool-cases, inl, inr, ap, ◌∙◌, sym, ◌&&◌,
}
use zeos_soa.Prelude.Int.{ℤ, pos, pos_part, ltb_ℤ, eq_ℤ}
use zeos_soa.Lists.{Ptr, null}
use zeos_soa.Screen.{Screen, print_all, printc}
use zeos_soa.Access.{access_ok, verify_read}
use zeos_soa.Kernel.{Kernel}
use zeos_soa.Calls.{is_mapped}
use zeos_soa.Calls.Basic.{check_fd}
use zeos_soa.Calls.Console.{
  buff_size, user_byte, user_bytes, can_copy, count_written, sys_write_console, write_loop,
  sys_write,
}

print_all-append :
    (s : Screen) (xs ys : List ℕ) → print_all s (xs ++ ys) ≡ print_all (print_all s xs) ys
unfolding print_all
print_all-append s [] ys = refl
print_all-append s (x ∷ xs) ys = print_all-append (printc s x) xs ys

-- The kernel once `bytes` are on the screen.
abbrev pub printed : Kernel → List ℕ → Kernel
printed k bytes = record k { screen = print_all k.screen bytes }

-- Printing does not touch the memory of the process.
user_bytes-printed :
    (k : Kernel) (bytes : List ℕ) (a n : ℕ) → user_bytes (printed k bytes) a n ≡ user_bytes k a n
unfolding user_bytes user_byte
user_bytes-printed k bytes a zero = refl
user_bytes-printed k bytes a (suc n) =
    ap (λ r. user_byte k a ∷ r) (user_bytes-printed k bytes (a + 1) n)

pub length-user_bytes : (k : Kernel) (a n : ℕ) → length (user_bytes k a n) ≡ n
unfolding user_bytes
length-user_bytes k a zero = refl
length-user_bytes k a (suc n) = ap suc (length-user_bytes k (a + 1) n)

user_bytes_add :
    (k : Kernel) (a m n : ℕ) → user_bytes k a (m + n) ≡ user_bytes k a m ++ user_bytes k (a + m) n
unfolding user_bytes
user_bytes_add k a zero n =
    let here : a + 0 ≡ a = omega arith in let all : 0 + n ≡ n = omega arith in rw (here, all) refl
user_bytes_add k a (suc m) n =
    let here : a + 1 + m ≡ a + suc m = omega arith in
    let more : suc m + n ≡ suc (m + n) = omega arith in
    rw more (
      ap (λ r. user_byte k a ∷ r)
        (user_bytes_add k (a + 1) m n ∙ ap (λ b. user_bytes k (a + 1) m ++ user_bytes k b n) here))

-- A full buffer, and then the rest.
printed-split :
    (k : Kernel) (a n : ℕ)
    → ltb buff_size n ≡ true
    → printed
        (printed k (user_bytes k a buff_size))
        (user_bytes (printed k (user_bytes k a buff_size)) (a + buff_size) (n - buff_size))
      ≡ printed k (user_bytes k a n)
printed-split k a n h =
    let whole : buff_size + (n - buff_size) ≡ n = ground arith in
    rw (user_bytes-printed k (user_bytes k a buff_size) (a + buff_size) (n - buff_size)) (
      ap (λ s. record k { screen = s })
        (sym (
            print_all-append k.screen (user_bytes k a buff_size)
              (user_bytes k (a + buff_size) (n - buff_size)))
          ∙ ap (print_all k.screen)
              (sym (user_bytes_add k a buff_size (n - buff_size)) ∙ ap (user_bytes k a) whole)))

can_copy-printed :
    (k : Kernel) (bytes : List ℕ) (a n : ℕ) → can_copy (printed k bytes) a n ≡ can_copy k a n
unfolding can_copy
can_copy-printed k bytes a zero = refl
can_copy-printed k bytes a (suc n) =
    ap (λ r. is_mapped k.entries k.cpu.cr3 a && r) (can_copy-printed k bytes (a + 1) n)

can_copy_add :
    (k : Kernel) (a m n : ℕ) → can_copy k a (m + n) ≡ (can_copy k a m && can_copy k (a + m) n)
unfolding can_copy
can_copy_add k a zero n =
    let here : a + 0 ≡ a = omega arith in let all : 0 + n ≡ n = omega arith in rw (here, all) refl
can_copy_add k a (suc m) n =
    let here : a + 1 + m ≡ a + suc m = omega arith in
    let more : suc m + n ≡ suc (m + n) = omega arith in
    let rest = can_copy_add k (a + 1) m n ∙ ap (λ b. can_copy k (a + 1) m && can_copy k b n) here in
    rw (more, rest) (ground arith)

-- What a copy comes to.
abbrev pub unless_fault : {A : Type 0} → Bool → A → Option A
unless_fault mapped x = if mapped then some x else none

can_copy-split :
    (k : Kernel) (a n : ℕ) (bytes : List ℕ)
    → ltb buff_size n ≡ true
    → can_copy k a n
      ≡ (can_copy k a buff_size && can_copy (printed k bytes) (a + buff_size) (n - buff_size))
can_copy-split k a n bytes h =
    let whole : n ≡ buff_size + (n - buff_size) = ground arith in
    ap (can_copy k a) whole
    ∙ can_copy_add k a buff_size (n - buff_size)
    ∙ ap (λ r. can_copy k a buff_size && r)
        (sym (can_copy-printed k bytes (a + buff_size) (n - buff_size)))

write_loop_lem :
    (fuel : ℕ) (k : Kernel) (a n : ℕ)
    → n < fuel
    → write_loop fuel k a n ≡ unless_fault (can_copy k a n) (0, printed k (user_bytes k a n))
unfolding write_loop sys_write_console
write_loop_lem zero k a n lt = absurd (omega (arith, lt))
write_loop_lem (suc fuel) k a n lt = elim (Bool-cases (ltb buff_size n)) [
  | inl e ↦
      let k1 = printed k (user_bytes k a buff_size) in
      let left : n - buff_size < fuel = ground arith in
      let rest =
        write_loop_lem fuel k1 (a + buff_size) (n - buff_size) left
        ∙ ap (λ k'. unless_fault (can_copy k1 (a + buff_size) (n - buff_size)) (0, k'))
            (printed-split k a n e) in
      rw
        (
          e,
          length-user_bytes k a buff_size,
          rest,
          can_copy-split k a n (user_bytes k a buff_size) e,
        )
        (ground arith)
  | inr e ↦
      let none_left : n - n ≡ 0 = omega arith in rw (e, length-user_bytes k a n, none_left) refl
]

count_written-unless_fault :
    (n : ℕ) (mapped : Bool) (k : Kernel)
    → count_written n (unless_fault mapped (0, k)) ≡ unless_fault mapped (pos n, k)
unfolding count_written
count_written-unless_fault n true k = let whole : n - 0 ≡ n = omega arith in rw whole refl
count_written-unless_fault n false k = refl

-- `sys_write` to descriptor 1 from a buffer that is not NULL and that `access_ok` lets through:
-- where all pages of the buffer are present, it returns the size, and has printed the bytes of the
-- user buffer, all of them and in their order, however many kernel buffers they fill; where one is
-- not, there is a page fault, and it does not return.
pub sys_write-printed :
    (k : Kernel) (buffer : Ptr) (size : ℕ)
    → buffer ≢ null
    → access_ok verify_read buffer size ≡ true
    → sys_write k (pos 1) buffer (pos size)
      ≡ unless_fault (can_copy k buffer size) (pos size, printed k (user_bytes k buffer size))
unfolding sys_write check_fd
sys_write-printed k buffer size given ok =
    let there : (buffer == null) ≡ false = ground (arith, given) in
    let natural : ltb_ℤ (pos size) (pos 0) ≡ false = ground arith in
    rw (there, natural, ok, write_loop_lem (size + 1) k buffer size (omega arith))
      (count_written-unless_fault size (can_copy k buffer size)
        (printed k (user_bytes k buffer size)))

-- A call of `sys_write` with another descriptor than 1, with NULL, with a negative size or with a
-- buffer that `access_ok` refuses returns, with a negative number, and leaves the kernel as it was.
pub sys_write-refused :
    (k : Kernel) (fd : ℤ) (buffer : Ptr) (size : ℤ)
    → (eq_ℤ fd (pos 1)
        && not (buffer == null)
        && not (ltb_ℤ size (pos 0))
        && access_ok verify_read buffer (pos_part size))
      ≡ false
    → (r : ℤ) × (sys_write k fd buffer size ≡ some (r, k)) × (ltb_ℤ r (pos 0) ≡ true)
unfolding sys_write check_fd
sys_write-refused k fd buffer size h = elim (Bool-cases (eq_ℤ fd (pos 1))) [
  | inr e ↦ rw e (_, refl, refl)
  | inl e ↦ elim (Bool-cases (buffer == null)) [
    | inl e1 ↦ rw (e, e1) (_, refl, refl)
    | inr e1 ↦ elim (Bool-cases (ltb_ℤ size (pos 0))) [
      | inl e2 ↦ rw (e, e1, e2) (_, refl, refl)
      | inr e2 ↦
          let bad : access_ok verify_read buffer (pos_part size) ≡ false = ground arith in
          rw (e, e1, e2, bad) (_, refl, refl)
    ]
  ]
]
