-- ===== src/Kernel.antt =====
-- The state of the kernel: the globals of zeos/sched.c, zeos/mm.c, zeos/devices.c, zeos/io.c and
-- zeos/interrupt.c, the process control blocks and the machine registers that they are loaded into.
use zeos_soa.Prelude.{ℕ, ◌+◌, ◌-◌, update}
use zeos_soa.Prelude.Int.{ℤ}
use zeos_soa.Lists.{Ptr, Links}
use zeos_soa.Frames.{Frames}
use zeos_soa.Paging.{Entries}
use zeos_soa.Keyboard.{Keyboard}
use zeos_soa.Screen.{Screen}

-- `struct task_struct` without its list heads, whose links are in the kernel's `links`, and the
-- words of the kernel stack that shares its page (`union task_union`). `kbd_chars_needed` is
-- between 1 and 256 wherever it is read.
pub record Task : Type 0 where
  pub pid : ℤ
  pub dir_pages_base_addr : ℕ
  pub pending_unblocks : ℤ
  pub quantum : ℕ
  pub kernel_esp : ℕ
  pub parent : Ptr
  pub kbd_chars_needed : ℕ
  pub kbd_user_buf : Ptr
  pub kbd_read_result : ℤ
  pub stack : ℕ → ℕ

-- `shared_frames`, `shared_refs` and `shared_marked_rm`.
pub record Shared : Type 0 where
  pub shared_frames : ℕ → ℤ
  pub shared_refs : ℕ → ℤ
  pub shared_marked_rm : ℕ → ℕ

-- What a switch of tasks loads: the registers CR3 and ESP, `tss.esp0`, and the MSR 0x175. Where EBP
-- points in the calls of `cambio_pila` to come, the next one first, is a matter of the compiled code
-- that calls it: any addresses.
pub record Cpu : Type 0 where
  pub cr3 : ℕ
  pub esp : ℕ
  pub frames_ahead : ℕ → ℕ
  pub esp0 : ℕ
  pub sysenter_esp : ℕ

-- The addresses that the linker gives to the four global list heads.
pub record Heads : Type 0 where
  pub readyqueue : Ptr
  pub blocked : Ptr
  pub kbd_blocked : Ptr
  pub list_tasks : Ptr

-- `current` is what the function `current()` computes from the stack pointer: the task whose
-- kernel stack is in use. `pages` holds the bytes of the physical pages of user memory, by page and
-- offset.
pub record Kernel : Type 0 where
  pub links : Links
  pub tasks : Ptr → Task
  pub frames : Frames
  pub entries : Entries
  pub pages : ℕ → ℕ → ℕ
  pub shared : Shared
  pub keyboard : Keyboard
  pub screen : Screen
  pub cpu : Cpu
  pub heads : Heads
  pub current : Ptr
  pub idle_task : Ptr
  pub init_task : Ptr
  pub kernel_page_table : ℕ
  pub kernel_page_table2 : ℕ
  pub remaining_quantum : ℤ
  pub zeos_ticks : ℕ
  pub pid_global : ℤ

-- The addresses of the list heads in a `struct task_struct` of 32-bit fields.
abbrev pub list_of : Ptr → Ptr
list_of t = t + 8

abbrev pub children_blocked_of : Ptr → Ptr
children_blocked_of t = t + 20

abbrev pub children_unblocked_of : Ptr → Ptr
children_unblocked_of t = t + 28

-- The field is spelled `sibiling`.
abbrev pub sibling_of : Ptr → Ptr
sibling_of t = t + 36

abbrev pub task_list_of : Ptr → Ptr
task_list_of t = t + 56

-- `list_entry`: the task around its `list` or its `sibiling`.
abbrev pub list_head_to_task_struct : Ptr → Ptr
list_head_to_task_struct l = l - 8

abbrev pub sibling_to_task_struct : Ptr → Ptr
sibling_to_task_struct l = l - 36

-- `t->... = ...`
abbrev pub set_task : Kernel → Ptr → Task → Kernel
set_task k t v = record k { tasks = update k.tasks t v }
