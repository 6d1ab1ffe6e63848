-- ===== src/Cpu/Tlb.antt =====
-- Address translation and the TLB: `translate_address`, `translate`, `translate_or_raise`,
-- `raise_translation_fault`, `tlb_read_indexed`, `tlb_write_indexed`, `tlb_probe`.
pub mod Segments
pub mod Offset
pub mod Probe
pub mod Compiling
use emulador_n64emu.Base.{
  ℕ, zero, suc, ◌+◌, ◌-◌, ◌*◌, ◌/◌, ◌%◌, ◌^◌, ◌==◌, ltb, leb, if◌then◌else◌, Bool, true, false, not,
  ◌&&◌, ◌||◌, bit_and, bit_or, Option, none, some, List, [], ◌∷◌, get_or, set,
}
use emulador_n64emu.BlockCache
use emulador_n64emu.BlockCache.{update}
use emulador_n64emu.Cpu.{Cpu, TlbEntry, no_entry, get_field, status_exl, status_erl}
use emulador_n64emu.Cpu.Cop0Reg.{entry_hi, entry_lo0, entry_lo1, index, page_mask, status}
use emulador_n64emu.Cpu.ExcCode.{adel, ades, mod_code, tlbl, tlbs}
use emulador_n64emu.Cpu.Exception.{raise_exception}

-- `TranslationFault`, with the address of `TranslationFault::None` in it.
pub data Translation : Type 0 where
  mapped : ℕ → Translation
  address_error tlb_miss tlb_invalid tlb_modified : Translation

-- `~x` of a `u32`.
abbrev pub not32 : ℕ → ℕ
not32 x = 2 ^ 32 - 1 - x

-- `(entry.page_mask & TLB_PAGE_MASK) | 0x1FFF`
unfoldable pub pair_mask : TlbEntry → ℕ
pair_mask e = bit_or (bit_and e.page_mask 0x01ff_e000) 0x1fff

unfoldable pub vpn_matches : ℕ → TlbEntry → Bool
vpn_matches v e = bit_and v (not32 (pair_mask e)) == bit_and e.entry_hi (not32 (pair_mask e))

abbrev pub is_global : TlbEntry → Bool
is_global e = e.entry_lo0 % 2 == 1 && e.entry_lo1 % 2 == 1

-- The entry is for the address `v` and the address space `asid`.
unfoldable pub entry_matches : ℕ → ℕ → TlbEntry → Bool
entry_matches v asid e = vpn_matches v e && (is_global e || (e.entry_hi % 2 ^ 8 == asid))

abbrev pub page_size : TlbEntry → ℕ
page_size e = (pair_mask e + 1) / 2

-- `odd_page ? entry.entry_lo1 : entry.entry_lo0`
unfoldable pub chosen_lo : ℕ → TlbEntry → ℕ
chosen_lo v e = if bit_and v (page_size e) == 0 then e.entry_lo0 else e.entry_lo1

-- `((lo & 0x3FFFFFC0) << 6) & ~page_offset_mask`, joined with the offset, cut to 29 bits.
unfoldable pub physical_of : ℕ → TlbEntry → ℕ → ℕ
physical_of v e lo =
    let page_offset_mask = page_size e - 1 in
    let physical_base = bit_and (bit_and lo 0x3fff_ffc0 * 2 ^ 6) (2 ^ 64 - 1 - page_offset_mask) in
    bit_or physical_base (bit_and v page_offset_mask) % 2 ^ 32 % 2 ^ 29

-- The loop's body for an entry that matches: bit 1 of `lo` is VALID, bit 2 is DIRTY.
unfoldable pub use_entry : ℕ → Bool → TlbEntry → Translation
use_entry v is_store e =
    let lo = chosen_lo v e in
    if lo / 2 % 2 == 0
    then tlb_invalid
    else if is_store && (lo / 4 % 2 == 0)
    then tlb_modified
    else mapped (physical_of v e lo)

unfoldable pub tlb_loop : ℕ → ℕ → Bool → List TlbEntry → Translation
tlb_loop v asid is_store [] = tlb_miss
tlb_loop v asid is_store (e ∷ rest) =
    if entry_matches v asid e then use_entry v is_store e else tlb_loop v asid is_store rest

-- 0 for kernel mode, 1 for supervisor mode, 2 and 3 for user mode.
abbrev pub mode_of : ℕ → ℕ
mode_of sr = if status_exl sr || status_erl sr then 0 else get_field 3 2 sr

unfoldable pub translate_address : ℕ → Bool → Cpu → Translation
translate_address vaddr is_store c =
    let v = vaddr % 2 ^ 32 in
    let mode = mode_of (c.cop0 status) in
    if (leb 2 mode && leb 0x8000_0000 v) || ((mode == 1) && leb 0xe000_0000 v)
    then address_error
    else if leb 0x8000_0000 v && leb v 0x9fff_ffff
    then (if not (mode == 0) then address_error else mapped (v % 2 ^ 29))
    else if leb 0xa000_0000 v && leb v 0xbfff_ffff
    then (if not (mode == 0) then address_error else mapped (v % 2 ^ 29))
    else tlb_loop v (c.cop0 entry_hi % 2 ^ 8) is_store c.tlb

-- The physical address, where `translate` returns true.
unfoldable pub translate : ℕ → Bool → Cpu → Option ℕ
translate vaddr is_store c = elim (translate_address vaddr is_store c) [
  | mapped p ↦ some p
  | _ ↦ none
]

unfoldable pub raise_translation_fault : Translation → ℕ → Bool → Cpu → Cpu
raise_translation_fault (mapped p) bad is_store c = c
raise_translation_fault address_error bad is_store c =
    raise_exception (if is_store then ades else adel) bad 0 false c
raise_translation_fault tlb_miss bad is_store c =
    raise_exception (if is_store then tlbs else tlbl) bad 0 true c
raise_translation_fault tlb_invalid bad is_store c =
    raise_exception (if is_store then tlbs else tlbl) bad 0 false c
raise_translation_fault tlb_modified bad is_store c = raise_exception mod_code bad 0 false c

unfoldable pub translate_or_raise : ℕ → ℕ → Bool → Cpu → Option ℕ × Cpu
translate_or_raise vaddr bad is_store c =
    let t = translate_address vaddr is_store c in
    (translate vaddr is_store c, raise_translation_fault t bad is_store c)

unfoldable pub tlb_read_indexed : Cpu → Cpu
tlb_read_indexed c =
    let e = get_or c.tlb (c.cop0 index % 32) no_entry in
    record c {
      cop0 =
          update
            (update (update (update c.cop0 page_mask e.page_mask) entry_hi e.entry_hi) entry_lo0
              e.entry_lo0)
            entry_lo1 e.entry_lo1;
      cache = BlockCache.clear c.cache;
    }

-- TLB_PAGE_MASK, TLB_ENTRY_HI_MASK and TLB_ENTRY_LO_MASK as arithmetic on a `u32`.
unfoldable pub tlb_write_indexed : ℕ → Cpu → Cpu
tlb_write_indexed i c = record c {
  tlb = set c.tlb (i % 32) (record {
    page_mask = c.cop0 page_mask % 2 ^ 25 / 2 ^ 13 * 2 ^ 13;
    entry_hi = c.cop0 entry_hi / 2 ^ 13 * 2 ^ 13 + c.cop0 entry_hi % 2 ^ 8;
    entry_lo0 = c.cop0 entry_lo0 % 2 ^ 30;
    entry_lo1 = c.cop0 entry_lo1 % 2 ^ 30;
  });
  cache = BlockCache.clear c.cache;
}

-- The number of the first entry that matches, or TLB_PROBE_FAIL.
unfoldable pub probe_loop : ℕ → ℕ → List TlbEntry → ℕ
probe_loop query i [] = 0x8000_0000
probe_loop query i (e ∷ rest) =
    if vpn_matches query e && (is_global e || (e.entry_hi % 2 ^ 8 == query % 2 ^ 8))
    then i
    else probe_loop query (i + 1) rest

unfoldable pub tlb_probe : Cpu → Cpu
tlb_probe c = record c { cop0 = update c.cop0 index (probe_loop (c.cop0 entry_hi) 0 c.tlb) }
