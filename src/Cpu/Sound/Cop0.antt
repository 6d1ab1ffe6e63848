-- ===== src/Cpu/Sound/Cop0.antt =====
-- Exceptions and the writes of COP0 keep the widths.
use emulador_n64emu.Base.{
  ℕ, ◌+◌, ◌-◌, ◌*◌, ◌/◌, ◌%◌, ◌^◌, ◌<◌, ◌==◌, leb, ◌∙◌, arith, Bool, ◌||◌, List, [], ◌∷◌, length,
  length-set,
}
use emulador_n64emu.Cpu.{Cpu, TlbEntry, get_field, put_field}
use emulador_n64emu.Cpu.Cop0Reg.{
  bad_vaddr, cause, compare_reg, context, count, prid, entry_hi, entry_lo0, entry_lo1, epc, index,
  page_mask, random, status, wired,
}
use emulador_n64emu.Cpu.Cop0.{set_cop0, advance_count, write_cop0, clear_cache}
use emulador_n64emu.Cpu.Exception.{
  raise_exception, raised_cause, raised_epc, do_eret, check_interrupts, interrupt_due,
  is_address_code, is_tlb_code,
}
use emulador_n64emu.Cpu.Tlb.{
  tlb_read_indexed, tlb_write_indexed, tlb_probe, probe_loop, Translation, mapped, address_error,
  tlb_miss, tlb_invalid, tlb_modified, raise_translation_fault, translate_or_raise,
}
use emulador_n64emu.Cpu.Sound.{
  IsSound, IsSound-if, IsWords-if, if-lt, update-IsWords, get_or-IsTlb, set-IsTlb, set_control,
  set_entries,
}

put_field-lt : (v x : ℕ) → x < 2 ^ 32 → put_field 1 1 v x < 2 ^ 32
put_field-lt v x h = omega arith

raised_cause-lt : (exc_code ce : ℕ) (c : Cpu) → IsSound c → raised_cause exc_code ce c < 2 ^ 32
raised_cause-lt exc_code ce c s = ground (arith, s.sized.control cause)

raised_epc-lt : (c : Cpu) → IsSound c → raised_epc c < 2 ^ 32
raised_epc-lt c s = ground (arith, s.sized.control epc)

pub raise_exception-IsSound :
    (exc_code bad ce : ℕ) (tlb_refill : Bool) (c : Cpu)
    → IsSound c
    → IsSound (raise_exception exc_code bad ce tlb_refill c)
unfolding raise_exception
raise_exception-IsSound exc_code bad ce tlb_refill c s =
    let with_cause =
      update-IsWords 32 _ cause (raised_cause exc_code ce c)
        (update-IsWords 32 c.cop0 epc (raised_epc c) s.sized.control (raised_epc-lt c s))
        (raised_cause-lt exc_code ce c s) in
    let with_bad =
      IsWords-if 32 (is_address_code exc_code) _ _
        (update-IsWords 32 _ bad_vaddr (bad % 2 ^ 32) with_cause (omega arith)) with_cause in
    let with_tlb =
      IsWords-if 32 (is_tlb_code exc_code) _ _
        (update-IsWords 32 _ entry_hi _
          (update-IsWords 32 _ context _ with_bad (omega (arith, s.sized.control context)))
          (omega (arith, s.sized.control entry_hi)))
        with_bad in
    record {
      sized = set_control s.sized _ (
          update-IsWords 32 _ status _ with_tlb
            (put_field-lt 1 (c.cop0 status) (s.sized.control status)));
    }

pub check_interrupts-IsSound : (c : Cpu) → IsSound c → IsSound (check_interrupts c)
unfolding check_interrupts
check_interrupts-IsSound c s =
    IsSound-if (interrupt_due c) _ c (raise_exception-IsSound _ _ _ _ c s) s

pub do_eret-IsSound : (c : Cpu) → IsSound c → IsSound (do_eret c)
unfolding do_eret
do_eret-IsSound c s = record {
  sized =
      set_control s.sized _
        (update-IsWords 32 _ status _ s.sized.control (ground (arith, s.sized.control status)));
}

write_cop0-IsSound : (i v : ℕ) (c : Cpu) → v < 2 ^ 32 → IsSound c → IsSound (write_cop0 i v c)
write_cop0-IsSound i v c h s = record {
  sized = set_control s.sized _ (update-IsWords 32 c.cop0 i v s.sized.control h);
}

clear_cache-IsSound : (c : Cpu) → IsSound c → IsSound (clear_cache c)
clear_cache-IsSound c s = record { sized = s.sized }

pub set_cop0-IsSound : (i v : ℕ) (c : Cpu) → v < 2 ^ 32 → IsSound c → IsSound (set_cop0 i v c)
unfolding set_cop0
set_cop0-IsSound i v c h s =
    let idx = i % 32 in
    let write : (x : ℕ) → x < 2 ^ 32 → IsSound (write_cop0 idx x c) =
      λ x p. write_cop0-IsSound idx x c p s in
    IsSound-if (idx == random || idx == prid) _ _ s (
      IsSound-if (idx == index) _ _ (write (v / 2 ^ 31 * 2 ^ 31 + v % 2 ^ 5) (omega arith)) (
        IsSound-if (idx == entry_lo0 || idx == entry_lo1) _ _ (write (v % 2 ^ 30) (omega arith)) (
          IsSound-if (idx == context) _ _
            (write (v / 2 ^ 23 * 2 ^ 23 + c.cop0 idx % 2 ^ 23 / 2 ^ 4 * 2 ^ 4) (omega arith))
            (IsSound-if (idx == page_mask) _ _ (write (v % 2 ^ 25 / 2 ^ 13 * 2 ^ 13) (omega arith))
              (IsSound-if (idx == wired) _ _
                (write_cop0-IsSound random 31 _ (omega arith) (write (v % 2 ^ 5) (omega arith)))
                (IsSound-if (idx == entry_hi) _ _
                  (clear_cache-IsSound _ (write (v / 2 ^ 13 * 2 ^ 13 + v % 2 ^ 8) (omega arith)))
                  (IsSound-if (idx == compare_reg) _ _
                    (write_cop0-IsSound cause (put_field 15 1 0 (c.cop0 cause)) _
                      (omega (arith, s.sized.control cause)) (write v h))
                    (IsSound-if (idx == cause) _ _
                      (write (put_field 8 2 (get_field 8 2 v) (c.cop0 idx))
                        (omega (arith, s.sized.control idx)))
                      (IsSound-if (idx == status) _ _ (clear_cache-IsSound _ (write v h))
                        (write v h))))))))))

pub advance_count-IsSound : (c : Cpu) → IsSound c → IsSound (advance_count c)
unfolding advance_count
advance_count-IsSound c s =
    let count' = (c.cop0 count + 1) % 2 ^ 32 in
    record {
      sized = set_control s.sized _ (
          update-IsWords 32 _ random _
            (update-IsWords 32 _ cause _
              (update-IsWords 32 c.cop0 count count' s.sized.control (omega arith))
              (if-lt (2 ^ 32) (count' == c.cop0 compare_reg) (put_field 15 1 1 (c.cop0 cause))
                (c.cop0 cause) (omega (arith, s.sized.control cause)) (s.sized.control cause)))
            (if-lt (2 ^ 32) (leb (c.cop0 random % 2 ^ 5) (c.cop0 wired % 2 ^ 5)) 31
              (c.cop0 random % 2 ^ 5 - 1) (omega arith) (omega arith)));
    }

pub tlb_read_indexed-IsSound : (c : Cpu) → IsSound c → IsSound (tlb_read_indexed c)
unfolding tlb_read_indexed
tlb_read_indexed-IsSound c s =
    let (mask, hi, lo0, lo1) = get_or-IsTlb c.tlb (c.cop0 index % 32) s.sized.entries in
    record {
      sized = set_control s.sized _ (
          update-IsWords 32 _ entry_lo1 _
            (update-IsWords 32 _ entry_lo0 _
              (update-IsWords 32 _ entry_hi _ (update-IsWords 32 _ page_mask _ s.sized.control mask)
                hi)
              lo0)
            lo1);
    }

pub tlb_write_indexed-IsSound : (i : ℕ) (c : Cpu) → IsSound c → IsSound (tlb_write_indexed i c)
unfolding tlb_write_indexed
tlb_write_indexed-IsSound i c s = record {
  sized =
      set_entries s.sized _
        (set-IsTlb c.tlb (i % 32) _
          (omega arith, omega (arith, s.sized.control entry_hi), omega arith, omega arith)
          s.sized.entries)
        (length-set c.tlb (i % 32) _ ∙ s.sized.size);
}

probe_loop-lt :
    (query i : ℕ) (tlb : List TlbEntry) → i + length tlb < 2 ^ 32 → probe_loop query i tlb < 2 ^ 32
unfolding probe_loop
probe_loop-lt query i [] h = omega arith
probe_loop-lt query i (e ∷ rest) h =
    if-lt (2 ^ 32) _ i (probe_loop query (i + 1) rest) (omega arith)
      (probe_loop-lt query (i + 1) rest (omega arith))

pub raise_translation_fault-IsSound :
    (t : Translation) (bad : ℕ) (is_store : Bool) (c : Cpu)
    → IsSound c
    → IsSound (raise_translation_fault t bad is_store c)
unfolding raise_translation_fault
raise_translation_fault-IsSound (mapped p) bad is_store c s = s
raise_translation_fault-IsSound address_error bad is_store c s = raise_exception-IsSound _ _ _ _ c s
raise_translation_fault-IsSound tlb_miss bad is_store c s = raise_exception-IsSound _ _ _ _ c s
raise_translation_fault-IsSound tlb_invalid bad is_store c s = raise_exception-IsSound _ _ _ _ c s
raise_translation_fault-IsSound tlb_modified bad is_store c s = raise_exception-IsSound _ _ _ _ c s

pub tlb_probe-IsSound : (c : Cpu) → IsSound c → IsSound (tlb_probe c)
unfolding tlb_probe
tlb_probe-IsSound c s = record {
  sized = set_control s.sized _ (
      update-IsWords 32 c.cop0 index _ s.sized.control
        (probe_loop-lt (c.cop0 entry_hi) 0 c.tlb (omega (arith, s.sized.size))));
}

pub translate_or_raise-IsSound :
    (vaddr bad : ℕ) (is_store : Bool) (c : Cpu)
    → IsSound c
    → IsSound (translate_or_raise vaddr bad is_store c).1
unfolding translate_or_raise
translate_or_raise-IsSound vaddr bad is_store c s =
    raise_translation_fault-IsSound _ bad is_store c s
