-- ===== src/Start.antt =====
-- zeos/system.c: `main`, the processor's tables and the kernel together.
use Prim.Native.Nat.{bit_or}
use zeos_soa.Prelude.{ℕ, ◌+◌, ◌*◌, ◌/◌, List, [], ◌∷◌}
use zeos_soa.Paging.{page_size, l_user_start, num_pag_data}
use zeos_soa.Kernel.{Kernel}
use zeos_soa.Machine.{Machine, Addresses, set_gdt, set_idt, set_tss, user_ds, user_cs, kernel_ds}
use zeos_soa.Sched.{init_sched}
use zeos_soa.Calls.Console.{user_bytes, set_user_bytes}
use zeos_soa.Boot.{ShowPtRange, kernel_start, user_esp, print, init_mm, init_idle, init_task1}
pub mod Whole
pub mod Enter
pub mod Places
pub mod Standing
pub mod Reached

-- The kernel with the processor's tables and CR0, and `D`, the registers and ports that only the
-- routines of hardware.S and `disable_blinking` use.
pub record System (D : Type 0) : Type 0 where
  pub devices : D
  pub machine : Machine
  pub kernel : Kernel
  pub cr0 : ℕ

-- Those routines.
pub record Stubs (D : Type 0) : Type 0 where
  pub set_eflags : D → D
  pub set_seg_regs : (data_sel stack_sel esp : ℕ) → D → D
  pub disable_blinking : D → D
  pub enable_int : D → D

-- `set_pe_flag`
unfoldable pub set_pe_flag : {D : Type 0} → System D → System D
set_pe_flag s = record s { cr0 = bit_or s.cr0 0x8000_0000 }

-- `setGdt(); setIdt(); setTSS();` The field `esp0` of the TSS and the MSR 0x175 are the kernel's to
-- change from here on.
unfoldable pub init_hardware :
    {D : Type 0} → Addresses → (set_handlers : Machine → Machine) → System D → System D
init_hardware a set_handlers s =
    let m = set_gdt a.tss s.machine in
    let m = set_idt a set_handlers m in
    let m = set_tss a.initial_esp user_esp m in
    let cpu = record (s.kernel.cpu) { esp0 = m.tss.esp0; sysenter_esp = m.msr 0x175 } in
    record s { machine = m; kernel = record (s.kernel) { cpu = cpu } }

-- `init_mm(); init_sched(); init_idle(); init_task1();`
unfoldable pub init_kernel : ShowPtRange → (cpu_idle sys_size usr_size : ℕ) → Kernel → Kernel
init_kernel show cpu_idle sys_size usr_size k =
    init_task1 show (init_idle cpu_idle (init_sched (init_mm sys_size usr_size k)))

-- `copy_data(KERNEL_START + *p_sys_size, L_USER_START, *p_usr_size)`: the image of the user program,
-- which lies behind that of the kernel and apart from the pages of the user, and which fits in them (of a
-- larger one the copy meets a page fault).
unfoldable pub copy_image : (sys_size usr_size : ℕ) → Kernel → Kernel
copy_image sys_size usr_size k =
    set_user_bytes k l_user_start (user_bytes k (kernel_start + sys_size) usr_size)

-- "Kernel Loaded!    " and "Entering user mode..."
abbrev pub kernel_loaded : List ℕ
kernel_loaded =
    b'K' ∷ b'e' ∷ b'r' ∷ b'n' ∷ b'e' ∷ b'l' ∷ b' ' ∷ b'L' ∷ b'o' ∷ b'a' ∷ b'd' ∷ b'e' ∷ b'd' ∷ b'!'
    ∷ b' ' ∷ b' ' ∷ b' ' ∷ b' ' ∷ []

abbrev pub entering_user_mode : List ℕ
entering_user_mode =
    b'E' ∷ b'n' ∷ b't' ∷ b'e' ∷ b'r' ∷ b'i' ∷ b'n' ∷ b'g' ∷ b' ' ∷ b'u' ∷ b's' ∷ b'e' ∷ b'r' ∷ b' '
    ∷ b'm' ∷ b'o' ∷ b'd' ∷ b'e' ∷ b'.' ∷ b'.' ∷ b'.' ∷ []

-- What `return_gate` loads to leave the kernel.
pub record ReturnGate : Type 0 where
  pub ds : ℕ
  pub ss : ℕ
  pub esp : ℕ
  pub cs : ℕ
  pub eip : ℕ

-- `main`, up to its `return_gate`. The last argument before the system are the sizes of the images.
unfoldable pub main :
    {D : Type 0}
    → Stubs D
    → Addresses
    → (set_handlers : Machine → Machine) → ShowPtRange
    → (cpu_idle sys_size usr_size : ℕ) → System D
    → ReturnGate × System D
main stubs a set_handlers show cpu_idle sys_size usr_size s =
    let d = stubs.set_seg_regs kernel_ds kernel_ds a.initial_esp (stubs.set_eflags s.devices) in
    let s = record s {
      devices = stubs.disable_blinking d;
      kernel = print s.kernel kernel_loaded;
    } in
    let s = init_hardware a set_handlers s in
    let s =
      set_pe_flag (record s { kernel = init_kernel show cpu_idle sys_size usr_size s.kernel }) in
    let k = copy_image sys_size usr_size s.kernel in
    let k = print k entering_user_mode in
    (
      record {
        ds = user_ds;
        ss = user_ds;
        esp = user_esp;
        cs = user_cs;
        eip = (l_user_start / 4096 + num_pag_data) * page_size;
      },
      record s { kernel = k; devices = stubs.enable_int s.devices },
    )
