-- ===== src/Cpu/Exception.antt =====
-- Exceptions, interrupts and the return from them: `raise_exception`, `check_interrupts`,
-- `set_rcp_interrupt`, `do_eret`, `kernel_mode`, `coprocessor_usable`.
pub mod Raise
pub mod Return
use emulador_n64emu.Base.{
  ℕ, ◌+◌, ◌-◌, ◌*◌, ◌/◌, ◌%◌, ◌^◌, ◌==◌, if◌then◌else◌, Bool, true, false, not, ◌&&◌, ◌||◌, bit_and,
}
use emulador_n64emu.BlockCache.{update}
use emulador_n64emu.Cpu.{Cpu, get_field, put_field, status_ie, status_exl, status_erl, status_bev}
use emulador_n64emu.Cpu.Cop0Reg.{bad_vaddr, cause, context, entry_hi, epc, error_epc, status}
use emulador_n64emu.Cpu.ExcCode.{adel, ades, int, mod_code, tlbl, tlbs}

pub kernel_mode : Cpu → Bool
kernel_mode c =
    let sr = c.cop0 status in if status_exl sr || status_erl sr then true else get_field 3 2 sr == 0

unfoldable pub coprocessor_usable : ℕ → Cpu → Bool
unfolding kernel_mode
coprocessor_usable cop c =
    if cop == 0 && kernel_mode c then true else c.cop0 status / 2 ^ (28 + cop) % 2 == 1

-- The low word of `pc_ - 4`, with the wrap of `u64`.
abbrev pub before_pc : ℕ → ℕ
before_pc pc = (pc + 2 ^ 64 - 4) % 2 ^ 64 % 2 ^ 32

-- ExcCode and CE of the new Cause, and BD unless an exception is being handled.
abbrev pub raised_cause : ℕ → ℕ → Cpu → ℕ
raised_cause exc_code ce c =
    let coded = put_field 28 2 ce (put_field 2 5 exc_code (c.cop0 cause)) in
    if status_exl (c.cop0 status)
    then coded
    else if c.in_delay_slot
    then put_field 31 1 1 coded
    else put_field 31 1 0 coded

abbrev pub raised_epc : Cpu → ℕ
raised_epc c =
    if status_exl (c.cop0 status)
    then c.cop0 epc
    else if c.in_delay_slot
    then before_pc c.pc
    else c.pc % 2 ^ 32

-- The codes that set BadVAddr, and those that set Context and EntryHi.
abbrev pub is_address_code : ℕ → Bool
is_address_code code =
    code == adel || code == ades || code == tlbl || code == tlbs || code == mod_code

abbrev pub is_tlb_code : ℕ → Bool
is_tlb_code code = code == tlbl || code == tlbs || code == mod_code

abbrev pub raised_context : ℕ → ℕ → ℕ
raised_context bad old = old / 2 ^ 23 * 2 ^ 23 + bad / 2 ^ 13 * 2 ^ 4

abbrev pub raised_entry_hi : ℕ → ℕ → ℕ
raised_entry_hi bad old = bad / 2 ^ 13 * 2 ^ 13 + old % 2 ^ 8

abbrev vector : ℕ → Bool → ℕ
vector sr tlb_refill =
    if tlb_refill && not (status_exl sr)
    then (if status_bev sr then 0xbfc0_0200 else 0x8000_0000)
    else (if status_bev sr then 0xbfc0_0380 else 0x8000_0180)

unfoldable pub raise_exception : ℕ → ℕ → ℕ → Bool → Cpu → Cpu
raise_exception exc_code bad_addr ce tlb_refill c =
    let sr = c.cop0 status in
    let bad = bad_addr % 2 ^ 32 in
    let with_epc = update c.cop0 epc (raised_epc c) in
    let with_cause = update with_epc cause (raised_cause exc_code ce c) in
    let with_bad =
      if is_address_code exc_code then update with_cause bad_vaddr bad else with_cause in
    let with_tlb =
      if is_tlb_code exc_code
      then update (update with_bad context (raised_context bad (c.cop0 context))) entry_hi
          (raised_entry_hi bad (c.cop0 entry_hi))
      else with_bad in
    record c {
      cop0 = update with_tlb status (put_field 1 1 1 sr);
      pc = vector sr tlb_refill;
      next_pc = vector sr tlb_refill + 4;
      branch_pending = false;
      ll_bit = false;
      exception_count = (c.exception_count + 1) % 2 ^ 64;
    }

unfoldable set_rcp_interrupt : Bool → Cpu → Cpu
set_rcp_interrupt level c = record c {
  cop0 = update c.cop0 cause (put_field 10 1 (if level then 1 else 0) (c.cop0 cause));
}

-- `cause & sr & 0xFF00`
abbrev pub pending_interrupts : Cpu → ℕ
pending_interrupts c = bit_and (bit_and (c.cop0 cause) (c.cop0 status)) 0xff00

abbrev pub interrupt_due : Cpu → Bool
interrupt_due c =
    let sr = c.cop0 status in
    status_ie sr && not (status_exl sr || status_erl sr) && not (pending_interrupts c == 0)

unfoldable pub check_interrupts : Cpu → Cpu
check_interrupts c = if interrupt_due c then raise_exception int 0 0 false c else c

-- Both assignments of `pc_` and `next_pc_` in the source; the second ones stand.
unfoldable pub do_eret : Cpu → Cpu
do_eret c =
    let sr = c.cop0 status in
    let target = if status_erl sr then c.cop0 error_epc else c.cop0 epc in
    let sr' = if status_erl sr then put_field 2 1 0 sr else put_field 1 1 0 sr in
    record c {
      cop0 = update c.cop0 status sr';
      ll_bit = false;
      pc = target;
      next_pc = target;
      branch_pending = false;
    }
