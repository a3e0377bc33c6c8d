-- ===== src/Machine/Gates.antt =====
-- What the processor reads from the tables: the addresses that were split up.
use zeos_soa.Prelude.{
  ap, ◌∙◌, ◌-◌, ℕ, ◌+◌, ◌*◌, ◌/◌, ◌%◌, ◌^◌, ◌<◌, ◌≡◌, ◌≢◌, refl, true, false, ◌==◌, arith,
  passes_below, passes_below_at, ==_iff,
}
use zeos_soa.Machine.{
  Machine, Gate, Descriptor, Addresses, gate_flags, set_interrupt_handler, set_trap_handler,
  set_idt, set_gdt, write_msr, kernel_tss, kernel_cs, idt_entries,
}

-- The entry point that a gate names, the lowest privilege that may use it, and its type.
abbrev pub offset : Gate → ℕ
offset g = g.high_offset * 2 ^ 16 + g.low_offset

abbrev pub privilege : Gate → ℕ
privilege g = g.flags / 2 ^ 13 % 4

abbrev pub gate_type : Gate → ℕ
gate_type g = g.flags / 2 ^ 8 % 2 ^ 5

abbrev pub is_present : Gate → ℕ
is_present g = g.flags / 2 ^ 15

abbrev pub base : Descriptor → ℕ
base d = d.high_base * 2 ^ 24 + d.mid_base * 2 ^ 16 + d.low_base

flags_table : passes_below (λ l. gate_flags l == l * 2 ^ 13 + 0x8E00) 4 ≡ true
unfolding passes_below gate_flags
flags_table = refl

gate_flags_lem : (l : ℕ) → l < 4 → gate_flags l ≡ l * 2 ^ 13 + 0x8E00
gate_flags_lem l h =
    (==_iff _ _).0 (passes_below_at (λ i. gate_flags i == i * 2 ^ 13 + 0x8E00) 4 l h flags_table)

-- For an address of 32 bits and a privilege level, the gates that `setInterruptHandler` and
-- `setTrapHandler` write are present gates for interrupts in the kernel's segment, from which the
-- address and the level can be read; the other gates keep their values.
pub set_interrupt_handler_lem :
    (m : Machine) (vector handler level other : ℕ)
    → handler < 2 ^ 32
    → level < 4
    → vector ≢ other
    → let m' = set_interrupt_handler m vector handler level in
      let g = m'.idt vector in
      (offset g ≡ handler)
      × (privilege g ≡ level)
      × (is_present g ≡ 1)
      × (gate_type g ≡ 0xE)
      × (g.segment_selector ≡ kernel_cs)
      × (m'.idt other ≡ m.idt other)
      × (set_trap_handler m vector handler level ≡ m')
unfolding set_interrupt_handler set_trap_handler
set_interrupt_handler_lem m vector handler level other h l ne =
    let same : vector == vector ≡ true = ground arith in
    let another : vector == other ≡ false = ground (arith, ne) in
    rw (same, another, gate_flags_lem level l)
      (omega (arith, h), omega (arith, l), omega (arith, l), omega (arith, l), refl, refl, refl)

-- The descriptor that `setGdt` writes has the address of the TSS for its base, and keeps its limit
-- and its flags.
pub set_gdt_lem :
    (tss_address : ℕ) (m : Machine)
    → tss_address < 2 ^ 32
    → let d = (set_gdt tss_address m).gdt (kernel_tss / 8) in
      (base d ≡ tss_address)
      × (d.limit ≡ (m.gdt 6).limit)
      × (d.flags1 ≡ (m.gdt 6).flags1)
      × (d.flags2 ≡ (m.gdt 6).flags2)
unfolding set_gdt
set_gdt_lem a m h = (omega (arith, h), refl, refl, refl)

set_handler-same :
    (m : Machine) (vector other handler level : ℕ)
    → vector ≢ other
    → (set_interrupt_handler m vector handler level).idt other ≡ m.idt other
unfolding set_interrupt_handler
set_handler-same m vector other handler level ne = ground (arith, ne)

-- For handlers at addresses of 32 bits, and whatever `set_handlers` does, the gates 14, 32 and 33
-- that `setIdt` leaves are present, for the kernel alone, and the two halves of their offsets make
-- up the addresses of the page fault, clock and keyboard handlers; the MSRs 0x175 and 0x176 hold the
-- initial stack and the entry of the system calls.
pub set_idt-gates :
    (a : Addresses) (set_handlers : Machine → Machine) (m : Machine)
    → a.pagefault_handler < 2 ^ 32
    → a.clock_handler < 2 ^ 32
    → a.keyboard_handler < 2 ^ 32
    → let m' = set_idt a set_handlers m in
      (offset (m'.idt 14) ≡ a.pagefault_handler)
      × (offset (m'.idt 32) ≡ a.clock_handler)
      × (offset (m'.idt 33) ≡ a.keyboard_handler)
      × (privilege (m'.idt 14) ≡ 0)
      × (privilege (m'.idt 32) ≡ 0)
      × (privilege (m'.idt 33) ≡ 0)
      × (is_present (m'.idt 14) ≡ 1)
      × (is_present (m'.idt 32) ≡ 1)
      × (is_present (m'.idt 33) ≡ 1)
      × (m'.msr 0x175 ≡ a.initial_esp)
      × (m'.msr 0x176 ≡ a.syscall_handler_sysenter)
unfolding set_idt write_msr
set_idt-gates a set_handlers m hp hc hk =
    let m0 =
      set_handlers (record m { idt_r = record { limit = idt_entries * 8 - 1; base = a.idt } }) in
    let m1 = set_interrupt_handler m0 14 a.pagefault_handler 0 in
    let m2 = set_interrupt_handler m1 32 a.clock_handler 0 in
    let (o1, p1, n1, _, _, _, _) =
      set_interrupt_handler_lem m0 14 a.pagefault_handler 0 0 hp (omega arith) (ground arith) in
    let (o2, p2, n2, _, _, _, _) =
      set_interrupt_handler_lem m1 32 a.clock_handler 0 14 hc (omega arith) (ground arith) in
    let (o3, p3, n3, _, _, _, _) =
      set_interrupt_handler_lem m2 33 a.keyboard_handler 0 32 hk (omega arith) (ground arith) in
    let k14 = set_handler-same m2 33 14 a.keyboard_handler 0 (ground arith) in
    let k14' = set_handler-same m1 32 14 a.clock_handler 0 (ground arith) in
    let k32 = set_handler-same m2 33 32 a.keyboard_handler 0 (ground arith) in
    (
      ap offset (k14 ∙ k14') ∙ o1,
      ap offset k32 ∙ o2,
      o3,
      ap privilege (k14 ∙ k14') ∙ p1,
      ap privilege k32 ∙ p2,
      p3,
      ap is_present (k14 ∙ k14') ∙ n1,
      ap is_present k32 ∙ n2,
      n3,
      refl,
      refl,
    )
