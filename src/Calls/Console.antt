-- ===== src/Calls/Console.antt =====
-- zeos/sys.c: `sys_write` and `sys_read`. The kernel buffer `buffer_sys` is written before each use
-- and is read by nobody else, so that its bytes are passed on as a list.
use zeos_soa.Prelude.{
  ◌&&◌, true, Option, none, some, ℕ, zero, suc, ◌+◌, ◌-◌, ◌%◌, ◌/◌, ◌<◌, Bool, not, ◌||◌, List, [],
  ◌∷◌, ◌==◌, ltb, if◌then◌else◌, update, length, min,
}
use zeos_soa.Prelude.Int.{ℤ, pos, neg, ltb_ℤ, eq_ℤ, pos_part}
use zeos_soa.Lists.{Ptr, null}
use zeos_soa.Paging.{page_size}
use zeos_soa.Screen.{Screen, print_all}
use zeos_soa.Keyboard.{Keyboard, kbd_buf_read, kbd_buf_flush}
use zeos_soa.Access.{access_ok, verify_read, verify_write}
use zeos_soa.Kernel.{Kernel, Task, set_task}
use zeos_soa.Sched.{update_process_state_rr, sched_next_rr}
use zeos_soa.Calls.{efault, einval, translate, is_mapped}
use zeos_soa.Calls.Basic.{check_fd, escriptura}
pub mod Write
pub mod Read

-- `BUFF_SIZE`
abbrev pub buff_size : ℕ
buff_size = 256

-- Whether each of `size` bytes from `start` on is in a page that is present for the current process.
-- Where one is not, a copy from or to them never returns (`pagefault_routine` does not).
unfoldable pub can_copy : Kernel → (start size : ℕ) → Bool
can_copy k start zero = true
can_copy k start (suc n) = is_mapped k.entries k.cpu.cr3 start && can_copy k (start + 1) n

-- The byte at a logical address of the current process, in a page that is present.
unfoldable pub user_byte : Kernel → ℕ → ℕ
user_byte k a = k.pages (translate k.entries k.cpu.cr3 a) (a % page_size)

-- `copy_from_user(start, buffer_sys, size)`, where `can_copy`: the `size` bytes from `start` on.
unfoldable pub user_bytes : Kernel → (start size : ℕ) → List ℕ
user_bytes k start zero = []
user_bytes k start (suc n) = user_byte k start ∷ user_bytes k (start + 1) n

unfoldable pub set_user_byte : Kernel → (address byte : ℕ) → Kernel
set_user_byte k a byte =
    let page = translate k.entries k.cpu.cr3 a in
    record k { pages = update k.pages page (update (k.pages page) (a % page_size) byte) }

-- `copy_to_user(buffer_sys, dest, size)`, where `can_copy`.
unfoldable pub set_user_bytes : Kernel → (dest : ℕ) → List ℕ → Kernel
set_user_bytes k dest [] = k
set_user_bytes k dest (b ∷ bs) = set_user_bytes (set_user_byte k dest b) (dest + 1) bs

-- `sys_write_console` of zeos/devices.c: the bytes on the screen, and their number.
unfoldable pub sys_write_console : Kernel → List ℕ → ℕ × Kernel
sys_write_console k bytes = (length bytes, record k { screen = print_all k.screen bytes })

-- `while (porEscribir > BUFF_SIZE)` writes 256 bytes at a time, and what is left is written behind it.
-- `por_escribir` falls by 256 in every round, so that as many rounds as it counts are enough. The
-- result is the number of bytes that are still to be written; none where a copy meets a page fault.
unfoldable pub write_loop :
    (fuel : ℕ) → Kernel → (buffer_aux por_escribir : ℕ) → Option (ℕ × Kernel)
write_loop zero k buffer_aux por_escribir = some (por_escribir, k)
write_loop (suc fuel) k buffer_aux por_escribir =
    let (written, k1) = sys_write_console k (user_bytes k buffer_aux buff_size) in
    let rest = write_loop fuel k1 (buffer_aux + written) (por_escribir - written) in
    let (last, k2) = sys_write_console k (user_bytes k buffer_aux por_escribir) in
    if ltb buff_size por_escribir
    then (if can_copy k buffer_aux buff_size then rest else none)
    else if can_copy k buffer_aux por_escribir
    then some (por_escribir - last, k2)
    else none

-- `return (size - porEscribir)`
unfoldable pub count_written : (size : ℕ) → Option (ℕ × Kernel) → Option (ℤ × Kernel)
count_written n none = none
count_written n (some (left, k)) = some (pos (n - left), k)

-- No result stands for a call that never returns, since a copy meets a page fault.
unfoldable pub sys_write : Kernel → (fd : ℤ) → (buffer : Ptr) → (size : ℤ) → Option (ℤ × Kernel)
sys_write k fd buffer size =
    let ret = check_fd fd escriptura in
    let n = pos_part size in
    if ltb_ℤ ret (pos 0)
    then some (ret, k)
    else if buffer == null
    then some (neg efault, k)
    else if ltb_ℤ size (pos 0) || not (access_ok verify_read buffer n)
    then some (neg einval, k)
    else count_written n (write_loop (n + 1) k buffer n)

-- What a call of `sys_read` comes to: a result, or the processor given away, to go on at
-- `sys_read_resume` with this many characters to read, or a page fault, with the kernel that stays as
-- it is from then on.
pub data Reading : Type 0 where
  done : ℤ → Kernel → Reading
  waits : (to_read : ℕ) → Kernel → Reading
  faults : Kernel → Reading

-- Characters that were read go to the user buffer, and their number is returned.
unfoldable pub deliver : Kernel → (b : Ptr) → List ℕ × Keyboard → Reading
deliver k b (cs, keyboard) =
    let k = record k { keyboard = keyboard } in
    if can_copy k b (length cs) then done (pos (length cs)) (set_user_bytes k b cs) else faults k

-- The current process joins the readers that wait, and another one is entered.
unfoldable pub wait_for_chars : Kernel → (b : Ptr) → (to_read : ℕ) → Kernel
wait_for_chars k b to_read =
    let t = record (k.tasks k.current) {
      kbd_chars_needed = to_read;
      kbd_user_buf = b;
      kbd_read_result = pos 0;
    } in
    sched_next_rr (update_process_state_rr (set_task k k.current t) k.current k.heads.kbd_blocked)

-- The part of `sys_read` behind the checks.
unfoldable pub read_or_wait : Kernel → (b : Ptr) → (to_read : ℕ) → List ℕ × Keyboard → Reading
read_or_wait k b to_read ([], keyboard) =
    waits to_read (wait_for_chars (record k { keyboard = keyboard }) b to_read)
read_or_wait k b to_read (c ∷ cs, keyboard) = deliver k b (c ∷ cs, keyboard)

unfoldable pub sys_read : Kernel → (b : Ptr) → (maxchars : ℤ) → Reading
sys_read k b maxchars =
    let n = pos_part maxchars in
    let to_read = min n buff_size in
    if b == null
    then done (neg efault) k
    else if ltb_ℤ maxchars (pos 0)
    then done (neg einval) k
    else if n == 0
    then done (pos 0) (record k { keyboard = kbd_buf_flush k.keyboard })
    else if not (access_ok verify_write b n)
    then done (neg efault) k
    else read_or_wait k b to_read (kbd_buf_read k.keyboard to_read)

-- What `sys_read` does when its process runs again.
unfoldable pub sys_read_resume : Kernel → (b : Ptr) → (to_read : ℕ) → Reading
sys_read_resume k b to_read = deliver k b (kbd_buf_read k.keyboard to_read)
