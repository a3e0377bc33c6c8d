-- ===== src/Sched.antt =====
-- zeos/sched.c: the queues of processes and the round robin, with the wake-up of zeos/devices.c and
-- the clock of zeos/interrupt.c.
use zeos_soa.Prelude.{
  ℕ, zero, suc, ◌+◌, ◌*◌, ◌%◌, ◌^◌, Bool, true, false, not, ◌&&◌, ◌||◌, ◌==◌, leb, if◌then◌else◌,
  update,
}
use zeos_soa.Prelude.Int.{ℤ, pos, pred_ℤ, ltb_ℤ, eq_ℤ}
use zeos_soa.Lists.{
  Ptr, null, Links, init_list_head, list_add_tail, list_del, list_empty, list_first,
}
use zeos_soa.Keyboard.{Keyboard, store_char, kbd_buf_read}
pub mod Switch
pub mod RoundRobin
pub mod Fairness
pub mod Wake
use zeos_soa.Kernel.{Kernel, Task, Cpu, list_of, list_head_to_task_struct, set_task}

-- `KERNEL_ESP(t)`: the end of the page of `t`, 1024 words of four bytes.
abbrev pub kernel_esp_of : Ptr → ℕ
kernel_esp_of t = t + 4096

unfoldable pub init_sched : Kernel → Kernel
init_sched k =
    let l = init_list_head k.links k.heads.list_tasks in
    let l = init_list_head l k.heads.readyqueue in
    let l = init_list_head l k.heads.blocked in
    let l = init_list_head l k.heads.kbd_blocked in record k { links = l }

unfoldable pub get_quantum : Kernel → Ptr → ℕ
get_quantum k t = (k.tasks t).quantum

-- An `int` is converted to `unsigned long`; the kernel passes 10.
unfoldable pub set_quantum : Kernel → Ptr → ℕ → Kernel
set_quantum k t new_quantum = set_task k t (record (k.tasks t) { quantum = new_quantum })

-- `cambio_pila` of zeos/extras.S saves EBP, which points to the frame of this call, in the task that
-- leaves, and takes the stack of the one that enters; two words are popped there, its EBP and the
-- address where its own code goes on.
unfoldable pub cambio_pila : Kernel → (old new : Ptr) → Kernel
cambio_pila k old new =
    let frames = k.cpu.frames_ahead in
    let k = set_task k old (record (k.tasks old) { kernel_esp = frames 0 }) in
    record k {
      cpu = record (k.cpu) {
        esp = (k.tasks new).kernel_esp + 8;
        frames_ahead = λ i. frames (i + 1);
      };
      current = new;
    }

-- `task_switch` saves registers on the stack of the task that leaves, and calls this.
unfoldable pub inner_task_switch : Kernel → Ptr → Kernel
unfolding cambio_pila
inner_task_switch k t =
    if t == k.current
    then k
    else let cpu = record (k.cpu) {
      esp0 = kernel_esp_of t;
      sysenter_esp = kernel_esp_of t;
      cr3 = (k.tasks t).dir_pages_base_addr;
    } in
      cambio_pila (record k { cpu = cpu }) k.current t

unfoldable pub update_sched_data_rr : Kernel → Kernel
update_sched_data_rr k = record k { remaining_quantum = pred_ℤ k.remaining_quantum }

unfoldable pub needs_sched_rr : Kernel → Bool
needs_sched_rr k =
    not (ltb_ℤ (pos 0) k.remaining_quantum && not (list_empty k.links k.heads.readyqueue))

-- Takes `node` out of the list that it is in, if it is in one.
unfoldable pub unlink : Links → Ptr → Links
unlink l node = if not ((l.prev node == null) && (l.next node == null)) then list_del l node else l

-- The kernel never passes a `dst_queue` that is NULL, for which nothing would be added.
unfoldable pub update_process_state_rr : Kernel → (t dst_queue : Ptr) → Kernel
update_process_state_rr k t dst_queue =
    let l = unlink k.links (list_of t) in
    record k { links = if dst_queue == null then l else list_add_tail l (list_of t) dst_queue }

-- The links without the first node of the ready queue, and the task of that node; or the links as
-- they are and the idle task.
unfoldable pub pick_next : Kernel → Links × Ptr
pick_next k =
    if list_empty k.links k.heads.readyqueue
    then (k.links, k.idle_task)
    else let lf = list_first k.links k.heads.readyqueue in
      (list_del k.links lf, list_head_to_task_struct lf)

-- An `unsigned long` quantum is converted to `int`; the kernel's are 10.
unfoldable pub enter_next : Kernel → Links × Ptr → Kernel
unfolding get_quantum inner_task_switch
enter_next k (l, next) =
    let k = record k { links = l; remaining_quantum = pos (get_quantum k next) } in
    if eq_ℤ (k.tasks k.current).pid (k.tasks next).pid then k else inner_task_switch k next

unfoldable pub sched_next_rr : Kernel → Kernel
sched_next_rr k = enter_next k (pick_next k)

unfoldable pub schedule : Kernel → Kernel
schedule k =
    let k = update_sched_data_rr k in
    if needs_sched_rr k
    then sched_next_rr (update_process_state_rr k k.current k.heads.readyqueue)
    else k

-- `show_clock` is `zeos_show_clock` of libzeos.a.
unfoldable pub clock_routine : (show_clock : Kernel → Kernel) → Kernel → Kernel
clock_routine show_clock k =
    let k = record k { zeos_ticks = k.zeos_ticks + 1 } in
    schedule (if k.zeos_ticks % 18 == 0 then show_clock k else k)

-- The second part of `kbd_buf_write`: the first reader in line wakes up if there is enough for it.
unfoldable pub wake_reader : Kernel → Kernel
wake_reader k =
    if list_empty k.links k.heads.kbd_blocked
    then k
    else let entry = list_first k.links k.heads.kbd_blocked in
      let t = list_head_to_task_struct entry in
      if leb (k.tasks t).kbd_chars_needed k.keyboard.count
      then update_process_state_rr (record k { links = list_del k.links entry }) t
          k.heads.readyqueue
      else k

-- `kbd_buf_write`, whole: a full buffer drops the character, and then nobody is woken up.
unfoldable pub kbd_buf_write : Kernel → ℕ → Kernel
kbd_buf_write k c =
    let (stored, keyboard) = store_char k.keyboard c in
    if stored then wake_reader (record k { keyboard = keyboard }) else k
