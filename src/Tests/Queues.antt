-- ===== src/Tests/Queues.antt =====
-- The theorems on lists and on the keyboard buffer, applied to lists and buffers of a few elements.
use zeos_soa.Prelude.{◌+◌, ◌≡◌, refl, [], ◌∷◌, ◌++◌, take, drop, length, ltb, if◌then◌else◌, arith}
use zeos_soa.Lists.{Links, list_add_tail, list_del, list_first, walk}
use zeos_soa.Lists.Rings.{IsRing}
use zeos_soa.Lists.Add.{list_add_tail-IsRing}
use zeos_soa.Lists.Remove.{list_del-IsRing}
use zeos_soa.Lists.Walk.{walk-IsRing}
use zeos_soa.Keyboard.{Keyboard, keyboard_buf_size, store_char, kbd_buf_read}
use zeos_soa.Keyboard.Queue.{IsValid, contents, store_char_refines, kbd_buf_read_refines}
use zeos_soa.Tests.Kernels.{links_of, hops}

-- The list 100 holds the nodes 1, 2 and 3.
abbrev three : Links
three = links_of (hops 100 (1 ∷ 2 ∷ 3 ∷ []) 100)

three-IsRing : IsRing three 100 (1 ∷ 2 ∷ 3 ∷ [])
three-IsRing = record {
  seg = (refl, refl, (refl, refl, (refl, refl, (refl, refl))));
  distinct = (refl, (refl, (refl, (refl, tt))));
}

list_add_tail-IsRing_example : IsRing (list_add_tail three 4 100) 100 (1 ∷ 2 ∷ 3 ∷ 4 ∷ [])
list_add_tail-IsRing_example = list_add_tail-IsRing three 4 100 three-IsRing refl

list_del-IsRing_example : IsRing (list_del three 2) 100 (1 ∷ 3 ∷ [])
list_del-IsRing_example = list_del-IsRing three 100 2 (1 ∷ []) (3 ∷ []) three-IsRing

walk-IsRing_example : walk 4 three (list_first three 100) 100 ≡ 1 ∷ 2 ∷ 3 ∷ []
walk-IsRing_example = walk-IsRing 4 three 100 three-IsRing (omega arith)

-- Three characters, the last of them at the start of the buffer.
abbrev wrapped : Keyboard
wrapped = record { buf = λ i. b'a' + i; head = 1; tail = 254; count = 3 }

wrapped-IsValid : IsValid wrapped
wrapped-IsValid = record {
  head_in = omega arith;
  tail_in = omega arith;
  count_in = omega arith;
  behind = refl;
}

store_char_refines_example :
    let (done, k') = store_char wrapped b'x' in
    IsValid k'
    × (done ≡ ltb (length (contents wrapped)) keyboard_buf_size)
    × (contents k' ≡ (
        if ltb (length (contents wrapped)) keyboard_buf_size
        then contents wrapped ++ b'x' ∷ []
        else contents wrapped))
store_char_refines_example = store_char_refines wrapped b'x' wrapped-IsValid

kbd_buf_read_refines_example :
    ((kbd_buf_read wrapped 2).0 ≡ take 2 (contents wrapped))
    × (contents (kbd_buf_read wrapped 2).1 ≡ drop 2 (contents wrapped))
    × IsValid (kbd_buf_read wrapped 2).1
kbd_buf_read_refines_example = kbd_buf_read_refines 2 wrapped wrapped-IsValid
