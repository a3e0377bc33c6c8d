-- ===== src/Start/Enter.antt =====
-- What `main` enters: the first instruction and the stack of the user program.
use zeos_soa.Prelude.{sym, ap, ℕ, ◌+◌, ◌-◌, ◌<◌, ◌≡◌, ◌≢◌, refl, List, [], ◌∷◌, arith, ◌∙◌}
use zeos_soa.Lists.{null}
use zeos_soa.Paging.{slot, l_user_start}
use zeos_soa.Paging.Mapped.{user_entry}
use zeos_soa.Kernel.{Kernel}
use zeos_soa.Machine.{Machine, Addresses, kernel_ds}
use zeos_soa.Calls.{user_table, translate}
use zeos_soa.Calls.Console.{user_bytes, set_user_byte, set_user_bytes}
use zeos_soa.Start.{
  kernel_loaded, System, Stubs, copy_image, init_hardware, set_pe_flag, init_kernel, main,
}
use zeos_soa.Boot.{ShowPtRange, kernel_start, print}
use zeos_soa.Start.Whole.{init_kernel-space}

set_user_bytes-same :
    (k : Kernel) (dest : ℕ) (bs : List ℕ)
    → ((set_user_bytes k dest bs).entries ≡ k.entries)
      × ((set_user_bytes k dest bs).cpu ≡ k.cpu)
      × ((set_user_bytes k dest bs).tasks ≡ k.tasks)
      × ((set_user_bytes k dest bs).init_task ≡ k.init_task)
unfolding set_user_bytes set_user_byte
set_user_bytes-same k dest [] = (refl, refl, refl, refl)
set_user_bytes-same k dest (b ∷ bs) = set_user_bytes-same (set_user_byte k dest b) (dest + 1) bs

-- The kernel that the parts are initialised in.
abbrev start : {D : Type 0} → Stubs D → Addresses → (Machine → Machine) → System D → Kernel
start stubs a set_handlers s =
    (init_hardware a set_handlers (record s {
      devices =
          stubs.disable_blinking
            (stubs.set_seg_regs kernel_ds kernel_ds a.initial_esp (stubs.set_eflags s.devices));
      kernel = print s.kernel kernel_loaded;
    })).kernel

start-table :
    {D : Type 0} (stubs : Stubs D) (a : Addresses) (set_handlers : Machine → Machine) (s : System D)
    → (start stubs a set_handlers s).kernel_page_table ≡ s.kernel.kernel_page_table
unfolding init_hardware print
start-table stubs a set_handlers s = refl

-- Behind `init_kernel` only the screen and the bytes of the user's pages change.
main-kernel :
    {D : Type 0} (stubs : Stubs D) (a : Addresses) (set_handlers : Machine → Machine)
    (show : ShowPtRange) (cpu_idle sys_size usr_size : ℕ) (s : System D)
    → let k = (main stubs a set_handlers show cpu_idle sys_size usr_size s).1.kernel in
      let k' = init_kernel show cpu_idle sys_size usr_size (start stubs a set_handlers s) in
      (k.entries ≡ k'.entries)
      × (k.cpu ≡ k'.cpu)
      × (k.tasks ≡ k'.tasks)
      × (k.init_task ≡ k'.init_task)
unfolding main copy_image print set_pe_flag
main-kernel stubs a set_handlers show cpu_idle sys_size usr_size s =
    let k' = init_kernel show cpu_idle sys_size usr_size (start stubs a set_handlers s) in
    set_user_bytes-same k' l_user_start (user_bytes k' (kernel_start + sys_size) usr_size)

-- Where there is no table of the kernel yet and the images of the kernel and of the user program end
-- below 2 MB: the frame that the directory in CR3 gives for the first instruction that `main` leaves
-- for is that of entry 20 of the user table, which is present, for the user and not writable; the
-- frame for the last word of the stack is that of entry 19, which is present, for the user and
-- writable; and the two frames differ.
pub main-enters :
    {D : Type 0} (stubs : Stubs D) (a : Addresses) (set_handlers : Machine → Machine)
    (show : ShowPtRange) (cpu_idle sys_size usr_size : ℕ) (s : System D)
    → s.kernel.kernel_page_table ≡ null
    → kernel_start + sys_size + usr_size < 0x20_0000
    → let (gate, s') = main stubs a set_handlers show cpu_idle sys_size usr_size s in
      let k' = s'.kernel in
      let find = translate k'.entries k'.cpu.cr3 in
      (k'.entries (slot (user_table k' k'.init_task) 20) ≡ user_entry (find gate.eip) 0)
      × (k'.entries (slot (user_table k' k'.init_task) 19) ≡ user_entry (find (gate.esp - 4)) 1)
      × (find gate.eip ≢ find (gate.esp - 4))
unfolding user_table main
main-enters stubs a set_handlers show cpu_idle sys_size usr_size s no_table small =
    let k = start stubs a set_handlers s in
    let (entries, cpu, tasks, first) =
      main-kernel stubs a set_handlers show cpu_idle sys_size usr_size s in
    let null_table = start-table stubs a set_handlers s ∙ no_table in
    let code =
      init_kernel-space show cpu_idle sys_size usr_size k 20 19 0x10 0 null_table small
        (omega arith) (omega arith) (ground arith) (omega arith) (omega arith) (omega arith) in
    let stack =
      init_kernel-space show cpu_idle sys_size usr_size k 19 20 0x10 4092 null_table small
        (omega arith) (omega arith) (ground arith) (omega arith) (omega arith) (omega arith) in
    let far =
      init_kernel-space show cpu_idle sys_size usr_size k 20 19 0x10 4092 null_table small
        (omega arith) (omega arith) (ground arith) (omega arith) (omega arith) (omega arith) in
    rw (entries, cpu, tasks, first)
      (code.3, stack.3, λ same. far.4 (ap (λ x. x.pbase_addr) (sym far.3 ∙ code.3) ∙ same))
