-- ===== src/Keyboard/Queue.antt =====
-- The buffer as the queue of the characters that it holds, oldest first.
use zeos_soa.Prelude.{
  ℕ, zero, suc, ◌+◌, ◌-◌, ◌%◌, ◌≤◌, ◌<◌, ◌≡◌, refl, ◌≢◌, ap, true, false, List, [], ◌∷◌, ◌++◌, ◌==◌,
  ltb, leb, if◌then◌else◌, update, length, take, drop, arith, Bool-cases, inl, inr, ltb→lt,
}
use zeos_soa.Keyboard.{
  Keyboard, keyboard_buf_size, next_index, store_char, read_loop, kbd_buf_read, kbd_buf_flush,
}
use zeos_soa.Keyboard.Index.{next_index_lem}

-- The `n` characters from index `i` on, round the buffer.
abbrev pub window : (ℕ → ℕ) → (i n : ℕ) → List ℕ
window buf i zero = []
window buf i (suc n) = buf i ∷ window buf ((i + 1) % keyboard_buf_size) n

abbrev pub contents : Keyboard → List ℕ
contents k = window k.buf k.tail k.count

-- The indices are in the buffer, it holds no more than it has room for, and the next write goes
-- behind the last character.
pub record IsValid (k : Keyboard) : Type 0 where
  pub head_in : k.head < keyboard_buf_size
  pub tail_in : k.tail < keyboard_buf_size
  pub count_in : k.count ≤ keyboard_buf_size
  pub behind : k.head ≡ (k.tail + k.count) % keyboard_buf_size

pub length-window : (buf : ℕ → ℕ) (i n : ℕ) → length (window buf i n) ≡ n
length-window buf i zero = refl
length-window buf i (suc n) = ap suc (length-window buf ((i + 1) % keyboard_buf_size) n)

window-update_out :
    (buf : ℕ → ℕ) (i n j c : ℕ)
    → i < keyboard_buf_size
    → n ≤ keyboard_buf_size
    → ((k : ℕ) → k < n → j ≢ (i + k) % keyboard_buf_size)
    → window (update buf j c) i n ≡ window buf i n
window-update_out buf i zero j c a b out = refl
window-update_out buf i (suc n) j c a b out = ground (
  arith,
  out 0,
  window-update_out buf ((i + 1) % 256) n j c (omega arith) (omega arith)
      (λ k lt e. out (suc k) (omega arith) (omega arith)),
)

window-snoc :
    (buf : ℕ → ℕ) (i n : ℕ)
    → i < keyboard_buf_size
    → window buf i (suc n) ≡ window buf i n ++ buf ((i + n) % keyboard_buf_size) ∷ []
window-snoc buf i zero a = ground arith
window-snoc buf i (suc n) a = ground (arith, window-snoc buf ((i + 1) % 256) n (omega arith))

store_char-full :
    (k : Keyboard) (c : ℕ) → leb keyboard_buf_size k.count ≡ true → store_char k c ≡ (false, k)
unfolding store_char
store_char-full k c e = rw e

-- On a valid buffer a character goes to the end of the queue that the buffer holds while there are
-- fewer than 256, and is dropped, with the queue unchanged, when the buffer is full; the buffer
-- stays valid.
pub store_char_refines :
    (k : Keyboard) (c : ℕ)
    → IsValid k
    → let (done, k') = store_char k c in
      IsValid k'
      × (done ≡ ltb (length (contents k)) keyboard_buf_size)
      × (contents k' ≡ (
          if ltb (length (contents k)) keyboard_buf_size then contents k ++ c ∷ [] else contents k))
unfolding store_char
store_char_refines k c v = elim (Bool-cases (leb keyboard_buf_size k.count)) [
  | inl full ↦ rw full (
    v,
    ground (arith, length-window k.buf k.tail k.count),
    ground (arith, length-window k.buf k.tail k.count),
  )
  | inr space ↦
      let step = next_index_lem k.head v.head_in in
      let size = length-window k.buf k.tail k.count in
      let kept =
        window-update_out k.buf k.tail k.count k.head c v.tail_in v.count_in
          (λ j lt e. absurd (omega (arith, v.behind, ltb→lt k.count 256 (ground arith)))) in
      rw space (
        record {
          head_in = omega (arith, step);
          tail_in = v.tail_in;
          count_in = ground arith;
          behind = omega (arith, step, v.behind);
        },
        ground arith,
        ground (
          arith,
          kept,
          v.behind,
          size,
          window-snoc (update k.buf k.head c) k.tail k.count v.tail_in,
        ),
      )
]

-- One round of the loop of `kbd_buf_read`, where there is a character.
abbrev advance : Keyboard → Keyboard
advance k = record k { tail = next_index k.tail; count = k.count - 1 }

advance-IsValid : (k : Keyboard) → k.count ≢ 0 → IsValid k → IsValid (advance k)
advance-IsValid k ne v = omega (arith, next_index_lem k.tail v.tail_in, v.behind)

advance-contents :
    (k : Keyboard) → k.count ≢ 0 → IsValid k → contents k ≡ k.buf k.tail ∷ contents (advance k)
advance-contents k ne v =
    ground (arith, next_index_lem k.tail v.tail_in, window_of_ne_zero k.buf k.tail k.count)
  where
    window_of_ne_zero :
        (buf : ℕ → ℕ) (i n : ℕ)
        → n ≢ 0
        → window buf i n ≡ buf i ∷ window buf ((i + 1) % keyboard_buf_size) (n - 1)
    window_of_ne_zero buf i zero h = absurd (h refl)
    window_of_ne_zero buf i (suc n) h = ground arith

read_loop_lem :
    (n : ℕ) (k : Keyboard)
    → IsValid k
    → ((read_loop n k).0 ≡ take n (contents k))
      × (contents (read_loop n k).1 ≡ drop n (contents k))
      × IsValid (read_loop n k).1
unfolding read_loop
read_loop_lem zero k v = (refl, refl, v)
read_loop_lem (suc n) k v = elim (Bool-cases (k.count == 0)) [
  | inl e ↦
      let none_left : k.count ≡ 0 = ground arith in
      let nothing : window k.buf k.tail k.count ≡ [] = rw none_left in
      rw (e, nothing) (refl, refl, v)
  | inr ne ↦
      let some_left : k.count ≢ 0 = ground arith in
      let (a, b, c) = read_loop_lem n (advance k) (advance-IsValid k some_left v) in
      rw ne (rw (advance-contents k some_left v) (ap (λ cs. k.buf k.tail ∷ cs) a, b, c))
]

-- On a valid buffer `kbd_buf_read` takes the oldest characters, as many as there are up to `n`, in
-- order, leaves the others, and leaves the buffer valid.
pub kbd_buf_read_refines :
    (n : ℕ) (k : Keyboard)
    → IsValid k
    → ((kbd_buf_read k n).0 ≡ take n (contents k))
      × (contents (kbd_buf_read k n).1 ≡ drop n (contents k))
      × IsValid (kbd_buf_read k n).1
unfolding kbd_buf_read
kbd_buf_read_refines = read_loop_lem

pub kbd_buf_flush-IsValid :
    (k : Keyboard) → IsValid (kbd_buf_flush k) × (contents (kbd_buf_flush k) ≡ [])
unfolding kbd_buf_flush
kbd_buf_flush-IsValid k = (omega arith, refl)
