-- ===== src/Cpu/Cop0.antt =====
-- The registers of COP0 as software and the clock write them: `set_cop0` and `advance_count`.
pub mod Wired
use emulador_n64emu.Base.{ℕ, ◌+◌, ◌-◌, ◌*◌, ◌/◌, ◌%◌, ◌^◌, ◌==◌, leb, if◌then◌else◌, ◌||◌}
use emulador_n64emu.BlockCache
use emulador_n64emu.BlockCache.{update}
use emulador_n64emu.Cpu.{Cpu, get_field, put_field}
use emulador_n64emu.Cpu.Cop0Reg.{
  cause, compare_reg, context, count, entry_hi, entry_lo0, entry_lo1, index, page_mask, prid,
  random, status, wired,
}

abbrev pub write_cop0 : ℕ → ℕ → Cpu → Cpu
write_cop0 i v c = record c { cop0 = update c.cop0 i v }

abbrev pub clear_cache : Cpu → Cpu
clear_cache c = record c { cache = BlockCache.clear c.cache }

-- The masks of the source as arithmetic on a `u32`.
unfoldable pub set_cop0 : ℕ → ℕ → Cpu → Cpu
set_cop0 i v c =
    let idx = i % 32 in
    if idx == random || idx == prid
    then c
    else if idx == index
    then write_cop0 idx (v / 2 ^ 31 * 2 ^ 31 + v % 2 ^ 5) c
    else if idx == entry_lo0 || idx == entry_lo1
    then write_cop0 idx (v % 2 ^ 30) c
    else if idx == context
    then write_cop0 idx (v / 2 ^ 23 * 2 ^ 23 + c.cop0 idx % 2 ^ 23 / 2 ^ 4 * 2 ^ 4) c
    else if idx == page_mask
    then write_cop0 idx (v % 2 ^ 25 / 2 ^ 13 * 2 ^ 13) c
    else if idx == wired
    then write_cop0 random 31 (write_cop0 idx (v % 2 ^ 5) c)
    else if idx == entry_hi
    then clear_cache (write_cop0 idx (v / 2 ^ 13 * 2 ^ 13 + v % 2 ^ 8) c)
    else if idx == compare_reg
    then write_cop0 cause (put_field 15 1 0 (c.cop0 cause)) (write_cop0 idx v c)
    else if idx == cause
    then write_cop0 idx (put_field 8 2 (get_field 8 2 v) (c.cop0 idx)) c
    else if idx == status
    then clear_cache (write_cop0 idx v c)
    else write_cop0 idx v c

-- Count, the timer interrupt (CAUSE_IP7) and Random, one cycle on.
unfoldable pub advance_count : Cpu → Cpu
advance_count c =
    let count' = (c.cop0 count + 1) % 2 ^ 32 in
    let cause' =
      if count' == c.cop0 compare_reg then put_field 15 1 1 (c.cop0 cause) else c.cop0 cause in
    let wired' = c.cop0 wired % 2 ^ 5 in
    let random' = c.cop0 random % 2 ^ 5 in
    let next_random = if leb random' wired' then 31 else random' - 1 in
    record c { cop0 = update (update (update c.cop0 count count') cause cause') random next_random }
