-- ===== src/Machine.antt =====
-- The tables of the processor: the segment descriptors and the TSS of zeos/mm.c, and the interrupt
-- gates of zeos/interrupt.c, with the types of zeos/include/types.h.
use Prim.Native.Nat.{bit_or}
use zeos_soa.Prelude.{ℕ, ◌-◌, ◌*◌, ◌/◌, ◌%◌, ◌^◌, update}
pub mod Gates

-- `highWord`, `lowWord`, `midByte` and `highByte`
abbrev pub high_word : ℕ → ℕ
high_word a = a / 2 ^ 16 % 2 ^ 16

abbrev pub low_word : ℕ → ℕ
low_word a = a % 2 ^ 16

abbrev pub mid_byte : ℕ → ℕ
mid_byte a = a / 2 ^ 16 % 2 ^ 8

abbrev pub high_byte : ℕ → ℕ
high_byte a = a / 2 ^ 24 % 2 ^ 8

-- A segment descriptor.
pub record Descriptor : Type 0 where
  pub limit : ℕ
  pub low_base : ℕ
  pub mid_base : ℕ
  pub flags1 : ℕ
  pub flags2 : ℕ
  pub high_base : ℕ

pub record Gate : Type 0 where
  pub low_offset : ℕ
  pub segment_selector : ℕ
  pub flags : ℕ
  pub high_offset : ℕ

-- `Register`: GDTR and IDTR
pub record Register : Type 0 where
  pub limit : ℕ
  pub base : ℕ

-- The task state segment, without its unused words.
pub record Tss : Type 0 where
  pub previous_task_link : ℕ
  pub esp0 : ℕ
  pub ss0 : ℕ
  pub esp1 : ℕ
  pub ss1 : ℕ
  pub esp2 : ℕ
  pub ss2 : ℕ
  pub cr3 : ℕ
  pub eip : ℕ
  pub eflags : ℕ
  pub eax : ℕ
  pub ecx : ℕ
  pub edx : ℕ
  pub ebx : ℕ
  pub esp : ℕ
  pub ebp : ℕ
  pub esi : ℕ
  pub edi : ℕ
  pub es : ℕ
  pub cs : ℕ
  pub ss : ℕ
  pub ds : ℕ
  pub fs : ℕ
  pub gs : ℕ
  pub ldt_segment_selector : ℕ
  pub debug_trap : ℕ
  pub io_map_base_address : ℕ

-- The tables, the registers that point to them, and the model-specific registers by number.
pub record Machine : Type 0 where
  pub gdt : ℕ → Descriptor
  pub gdt_r : Register
  pub idt : ℕ → Gate
  pub idt_r : Register
  pub tss : Tss
  pub task_reg : ℕ
  pub msr : ℕ → ℕ

-- The selectors of zeos/include/segment.h, and `GDT_START`.
abbrev pub kernel_cs : ℕ
kernel_cs = 0x10

abbrev pub kernel_ds : ℕ
kernel_ds = 0x18

abbrev pub user_cs : ℕ
user_cs = 0x23

abbrev pub user_ds : ℕ
user_ds = 0x2B

abbrev pub kernel_tss : ℕ
kernel_tss = 0x30

abbrev pub gdt_start : ℕ
gdt_start = 0x9_01b3

-- `IDT_ENTRIES` and `INITIAL_EFLAGS`
abbrev pub idt_entries : ℕ
idt_entries = 256

abbrev pub initial_eflags : ℕ
initial_eflags = 0x200

-- `tss_address` is the address of `tss`; a descriptor has eight bytes.
unfoldable pub set_gdt : (tss_address : ℕ) → Machine → Machine
set_gdt tss_address m =
    let i : ℕ = kernel_tss / 8 in
    let d = record (m.gdt i) {
      low_base = low_word tss_address;
      mid_base = mid_byte tss_address;
      high_base = high_byte tss_address;
    } in
    record m { gdt = update m.gdt i d; gdt_r = record { limit = 256 * 8; base = gdt_start } }

-- `initial_esp` is `INITIAL_ESP`, and `user_esp` is `USER_ESP`.
unfoldable pub set_tss : (initial_esp user_esp : ℕ) → Machine → Machine
set_tss initial_esp user_esp m = record m {
  tss = record (m.tss) {
    previous_task_link = 0;
    esp0 = initial_esp;
    ss0 = kernel_ds;
    esp1 = 0;
    ss1 = 0;
    esp2 = 0;
    ss2 = 0;
    cr3 = 0;
    eip = 0;
    eflags = initial_eflags;
    eax = 0;
    ecx = 0;
    edx = 0;
    ebx = 0;
    esp = user_esp;
    ebp = user_esp;
    esi = 0;
    edi = 0;
    es = user_ds;
    cs = user_cs;
    ss = user_ds;
    ds = user_ds;
    fs = 0;
    gs = 0;
    ldt_segment_selector = kernel_tss;
    debug_trap = 0;
    io_map_base_address = 0;
  };
  task_reg = kernel_tss;
}

-- `(Word)(maxAccessibleFromPL << 13)`, with `0x8E00`.
unfoldable pub gate_flags : (level : ℕ) → ℕ
gate_flags level = bit_or (level * 2 ^ 13 % 2 ^ 16) 0x8E00

unfoldable pub set_interrupt_handler :
    Machine → (vector handler max_accessible_from_pl : ℕ) → Machine
set_interrupt_handler m vector handler level = record m {
  idt = update m.idt vector (record {
    low_offset = low_word handler;
    segment_selector = kernel_cs;
    flags = gate_flags level;
    high_offset = high_word handler;
  });
}

-- `setTrapHandler` has the same body: the type of its gate is the one for interrupts.
unfoldable pub set_trap_handler : Machine → (vector handler max_accessible_from_pl : ℕ) → Machine
set_trap_handler m vector handler level = record m {
  idt = update m.idt vector (record {
    low_offset = low_word handler;
    segment_selector = kernel_cs;
    flags = gate_flags level;
    high_offset = high_word handler;
  });
}

-- `writeMSR`
unfoldable pub write_msr : Machine → (msr value : ℕ) → Machine
write_msr m msr value = record m { msr = update m.msr msr value }

-- The addresses of what the tables name: the table of gates, the initial stack and the handlers.
pub record Addresses : Type 0 where
  pub idt : ℕ
  pub tss : ℕ
  pub initial_esp : ℕ
  pub pagefault_handler : ℕ
  pub clock_handler : ℕ
  pub keyboard_handler : ℕ
  pub syscall_handler_sysenter : ℕ

-- `set_handlers` is of libzeos.a; a gate has eight bytes.
unfoldable pub set_idt : Addresses → (set_handlers : Machine → Machine) → Machine → Machine
set_idt a set_handlers m =
    let m = record m { idt_r = record { limit = idt_entries * 8 - 1; base = a.idt } } in
    let m = set_handlers m in
    let m = set_interrupt_handler m 14 a.pagefault_handler 0 in
    let m = set_interrupt_handler m 32 a.clock_handler 0 in
    let m = set_interrupt_handler m 33 a.keyboard_handler 0 in
    let m = write_msr m 0x174 kernel_cs in
    let m = write_msr m 0x175 a.initial_esp in write_msr m 0x176 a.syscall_handler_sysenter
