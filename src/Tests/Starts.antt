-- ===== src/Tests/Starts.antt =====
-- The theorems on the start of the kernel and on the processor's tables, applied.
use zeos_soa.Prelude.{ℕ, ◌+◌, ◌-◌, ◌*◌, ◌/◌, ◌<◌, ◌≡◌, ◌≢◌, refl, arith, ltb, if◌then◌else◌}
use zeos_soa.Prelude.Int.{pos}
use zeos_soa.Lists.{null}
use zeos_soa.Frames.{Frames}
use zeos_soa.Frames.Available.{available, count_zero}
use zeos_soa.Paging.{
  Entries, zero_entry, slot, page_size, num_pag_data, num_pag_code, l_user_start, set_user_pages,
}
use zeos_soa.Paging.Mapped.{Mapped, user_entry}
use zeos_soa.Paging.UserPages.{writable, set_user_pages-Mapped}
use zeos_soa.Kernel.{Kernel}
use zeos_soa.Machine.{Machine, Addresses, set_idt}
use zeos_soa.Machine.Gates.{offset, privilege, is_present, set_idt-gates}
use zeos_soa.Calls.{get_dir, user_table, translate}
use zeos_soa.Boot.{ShowPtRange, kernel_start, init_idle}
use zeos_soa.Start.{System, Stubs, init_kernel, main}
use zeos_soa.Boot.Init.{IdleReady}
use zeos_soa.Boot.Idle.{init_idle-IdleReady}
use zeos_soa.Start.Whole.{init_kernel-space}
use zeos_soa.Start.Enter.{main-enters}
use zeos_soa.Tests.Kernels.{kernel}

-- Pages 0x100 to 0x11f are free.
abbrev frames : Frames
frames = record {
  phys_mem = λ p. if ltb p 0x100 then 1 else if ltb p 0x120 then 0 else 1;
  first_kernel = 0x10;
  last_kernel = 0x100;
}

abbrev blank : Entries
blank = λ a. zero_entry

available-frames : available 0x130 frames ≡ num_pag_data + num_pag_code + 4
unfolding count_zero
available-frames = refl

set_user_pages-Mapped_example :
    let (g, e') = set_user_pages (frames, blank) 0x5000 in
    Mapped 0x130 writable 0x5000 (λ p. p < num_pag_data + num_pag_code) frames blank g e'
    × (available 0x130 g ≡ 4)
set_user_pages-Mapped_example =
    set_user_pages-Mapped 0x130 frames blank 0x5000 4 (omega arith) available-frames

-- A kernel at its start, with the last 16 pages below 1024 free.
abbrev pub fresh : Kernel
fresh = record kernel {
  frames = record { phys_mem = λ p. 0; first_kernel = 0x10; last_kernel = 0x3f0 };
  kernel_page_table = 0;
}

available-fresh : available 1024 fresh.frames ≡ 2 + 14
unfolding count_zero
available-fresh = refl

init_idle-IdleReady_example :
    let k' = init_idle 0x1234 fresh in
    let t = k'.tasks k'.idle_task in
    IdleReady k'
    × (t.pid ≡ pos 0)
    × (t.quantum ≡ 10)
    × (t.parent ≡ null)
    × (t.kernel_esp ≡ k'.idle_task + 4 * 1022)
    × (t.stack 1022 ≡ 0)
    × (t.stack 1023 ≡ 0x1234)
    × (available 1024 k'.frames ≡ 14)
    × (k'.frames.first_kernel ≡ fresh.frames.first_kernel)
    × (k'.frames.last_kernel ≡ fresh.frames.last_kernel)
init_idle-IdleReady_example = init_idle-IdleReady 0x1234 fresh 14 refl available-fresh (omega arith)

-- Prints nothing.
abbrev pub show : ShowPtRange
show k pt first numpages msg = k.screen

-- An image of 0x4000 bytes of kernel and 0x2000 bytes of user program: the pages 0x10 to 0x16.
init_kernel-space_example :
    let k' = init_kernel show 0x1234 0x4000 0x2000 fresh in
    let find = translate k'.entries k'.cpu.cr3 in
    let frame = find (l_user_start + 5 * page_size + 12) in
    ((kernel_start + 0x4000 + 0x2000) / page_size < frame)
    × (frame < 1024)
    × (k'.frames.phys_mem frame ≡ 1)
    × (k'.entries (slot (user_table k' k'.init_task) 5) ≡ user_entry frame (writable 5))
    × (frame ≢ find (l_user_start + 27 * page_size + 12))
    × (find (0x12 * page_size + 12) ≡ 0x12)
    × (find (k'.init_task + 12) ≡ k'.init_task / page_size)
    × (k'.cpu.cr3 ≡ get_dir k' k'.init_task)
    × ((k'.tasks k'.init_task).pid ≡ pos 1)
init_kernel-space_example =
    init_kernel-space show 0x1234 0x4000 0x2000 fresh 5 27 0x12 12 refl (omega arith) (omega arith)
      (omega arith) (ground arith) (omega arith) (omega arith) (omega arith)

abbrev machine : Machine
machine = record {
  gdt = λ i. record {
    limit = 0x67;
    low_base = 0;
    mid_base = 0;
    flags1 = 0x89;
    flags2 = 0;
    high_base = 0;
  };
  gdt_r = record { limit = 0; base = 0 };
  idt = λ i. record { low_offset = 0; segment_selector = 0; flags = 0; high_offset = 0 };
  idt_r = record { limit = 0; base = 0 };
  tss = record {
    previous_task_link = 0;
    esp0 = 0;
    ss0 = 0;
    esp1 = 0;
    ss1 = 0;
    esp2 = 0;
    ss2 = 0;
    cr3 = 0;
    eip = 0;
    eflags = 0;
    eax = 0;
    ecx = 0;
    edx = 0;
    ebx = 0;
    esp = 0;
    ebp = 0;
    esi = 0;
    edi = 0;
    es = 0;
    cs = 0;
    ss = 0;
    ds = 0;
    fs = 0;
    gs = 0;
    ldt_segment_selector = 0;
    debug_trap = 0;
    io_map_base_address = 0;
  };
  task_reg = 0;
  msr = λ i. 0;
}

abbrev pub addresses : Addresses
addresses = record {
  idt = 0x1_5000;
  tss = 0x1_6000;
  initial_esp = 0x1_8000;
  pagefault_handler = 0x1_2340;
  clock_handler = 0x1_2380;
  keyboard_handler = 0x1_23c0;
  syscall_handler_sysenter = 0x1_2400;
}

set_idt-gates_example :
    let m' = set_idt addresses (λ m. m) machine in
    (offset (m'.idt 14) ≡ 0x1_2340)
    × (offset (m'.idt 32) ≡ 0x1_2380)
    × (offset (m'.idt 33) ≡ 0x1_23c0)
    × (privilege (m'.idt 14) ≡ 0)
    × (privilege (m'.idt 32) ≡ 0)
    × (privilege (m'.idt 33) ≡ 0)
    × (is_present (m'.idt 14) ≡ 1)
    × (is_present (m'.idt 32) ≡ 1)
    × (is_present (m'.idt 33) ≡ 1)
    × (m'.msr 0x175 ≡ 0x1_8000)
    × (m'.msr 0x176 ≡ 0x1_2400)
set_idt-gates_example =
    set_idt-gates addresses (λ m. m) machine (omega arith) (omega arith) (omega arith)

abbrev pub system : System ℕ
system = record { devices = 0; machine = machine; kernel = fresh; cr0 = 1 }

abbrev pub stubs : Stubs ℕ
stubs = record {
  set_eflags = λ d. d;
  set_seg_regs = λ a b c d. d;
  disable_blinking = λ d. d + 1;
  enable_int = λ d. d;
}

main-enters_example :
    let (gate, s') = main stubs addresses (λ m. m) show 0x1234 0x4000 0x2000 system in
    let k' = s'.kernel in
    let find = translate k'.entries k'.cpu.cr3 in
    (k'.entries (slot (user_table k' k'.init_task) 20) ≡ user_entry (find gate.eip) 0)
    × (k'.entries (slot (user_table k' k'.init_task) 19) ≡ user_entry (find (gate.esp - 4)) 1)
    × (find gate.eip ≢ find (gate.esp - 4))
main-enters_example =
    main-enters stubs addresses (λ m. m) show 0x1234 0x4000 0x2000 system refl (omega arith)
