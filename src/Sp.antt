-- ===== src/Sp.antt =====
-- src/bus/sp_regs.cpp, include/n64/bus/sp_regs.hpp: the registers of the RSP and its DMA; of
-- src/rcp/rsp/rsp.cpp, the state that these change.
pub mod Status
pub mod Dma
mod Tests
use emulador_n64emu.Base.{
  ℕ, zero, suc, ◌+◌, ◌-◌, ◌*◌, ◌/◌, ◌%◌, ◌^◌, bit_and, bit_or, ◌==◌, if◌then◌else◌, Bool, true,
  false, bit, has_bit, set_bit,
}
use emulador_n64emu.Base.{set_if, clear_if}
use emulador_n64emu.Mi
use emulador_n64emu.Rsp.{Rsp, set_halted, set_broke, set_intr_on_break, set_pc}
use emulador_n64emu.Mi.{Mi, sp_intr}
use emulador_n64emu.Rdram.{Rdram, load, store}
use emulador_n64emu.BlockCache.{BlockCache}
use emulador_n64emu.BlockCache.Notify.{notify_memory_write}

pub record Sp : Type 0 where
  pub mem_addr : ℕ
  pub dram_addr : ℕ
  pub status : ℕ
  pub semaphore : ℕ
  pub last_dma_bytes : ℕ

-- What the registers reach: RDRAM, the two memories of the bus, the RSP, the block cache of the CPU
-- and the interrupt lines.
pub record World : Type 0 where
  pub rdram : Rdram
  pub sp_dmem : ℕ → ℕ
  pub sp_imem : ℕ → ℕ
  pub rsp : Rsp
  pub cache : BlockCache
  pub mi : Mi

unfoldable pub pull_mem_from_bus : World → World
pull_mem_from_bus w = record w { rsp = record w.rsp { dmem = w.sp_dmem; imem = w.sp_imem } }

-- `StHalt` is bit 0, `StBroke` 1, `StDmaBusy` 2, `StDmaFull` 3, `StSingleStep` 5, `StIntrOnBreak`
-- 6 and `StSignal0` 7.
unfoldable pub reset : Sp → Rsp → Sp × Rsp
reset s r = (
  record { mem_addr = 0; dram_addr = 0; status = 1; semaphore = 0; last_dma_bytes = 0 },
  set_halted true r,
)

-- `offset & 0x1C`
abbrev pub reg_of : ℕ → ℕ
reg_of offset = offset / 4 % 8 * 4

unfoldable pub read : ℕ → Sp → ℕ
read offset s =
    if reg_of offset == 0x00
    then s.mem_addr % 2 ^ 13
    else if reg_of offset == 0x04
    then s.dram_addr % 2 ^ 24
    else if reg_of offset == 0x10
    then s.status
    else if reg_of offset == 0x14
    then bit 3 s.status
    else if reg_of offset == 0x18
    then bit 2 s.status
    else if reg_of offset == 0x1c
    then s.semaphore
    else 0

unfoldable pub read_semaphore : Sp → ℕ × Sp
read_semaphore s = (s.semaphore, record s { semaphore = 1 })

-- The loop over the eight signals, from signal `i` on, with `left` to go.
unfoldable pub signal_loop : ℕ → ℕ → ℕ → ℕ → ℕ
signal_loop zero i value status = status
signal_loop (suc left) i value status = signal_loop left (i + 1) value (
    set_if (has_bit (10 + i * 2) value) (7 + i)
      (clear_if (has_bit (9 + i * 2) value) (7 + i) status))

-- The bits of `status` up to `StIntrOnBreak`, in the order of the source.
unfoldable pub status_bits : ℕ → ℕ → ℕ
status_bits value status =
    let started = clear_if (has_bit 0 value) 1 (clear_if (has_bit 0 value) 0 status) in
    let halt = clear_if (has_bit 2 value) 1 (set_if (has_bit 1 value) 0 started) in
    let step = set_if (has_bit 6 value) 5 (clear_if (has_bit 5 value) 5 halt) in
    set_if (has_bit 8 value) 6 (clear_if (has_bit 7 value) 6 step)

-- The three flags of the RSP.
unfoldable pub status_flags : ℕ → Rsp → Rsp
status_flags value r =
    let started = if has_bit 0 value then set_broke false (set_halted false r) else r in
    let halted = if has_bit 1 value then set_halted true started else started in
    let unbroken = if has_bit 2 value then set_broke false halted else halted in
    let quiet = if has_bit 7 value then set_intr_on_break false unbroken else unbroken in
    if has_bit 8 value then set_intr_on_break true quiet else quiet

-- The interrupt line.
unfoldable pub status_intr : ℕ → Mi → Mi
status_intr value m =
    let cleared = if has_bit 3 value then Mi.clear sp_intr m else m in
    if has_bit 4 value then Mi.raise sp_intr cleared else cleared

unfoldable pub apply_status_write : ℕ → Sp → World → Sp × World
apply_status_write value s w =
    let pulled = if has_bit 0 value then pull_mem_from_bus w else w in
    (
      record s { status = signal_loop 8 0 value (status_bits value s.status) },
      record pulled { rsp = status_flags value pulled.rsp; mi = status_intr value pulled.mi },
    )

unfoldable pub set_status_bits : ℕ → ℕ → Sp → Sp
set_status_bits set_mask clear_mask s = record s {
  status = bit_or (bit_and s.status (2 ^ 32 - 1 - clear_mask)) set_mask;
}

unfoldable pub notify_break : Bool → Sp → Mi → Sp × Mi
notify_break intr_on_break s m = (
  record s { status = set_bit 0 (set_bit 1 s.status) },
  if intr_on_break then Mi.raise sp_intr m else m,
)

-- `offset & 0x0C`
abbrev pub pc_reg_of : ℕ → ℕ
pc_reg_of offset = offset / 4 % 4 * 4

unfoldable pub read_pc : ℕ → Rsp → ℕ
read_pc offset r = if pc_reg_of offset == 0x00 then r.pc % 2 ^ 12 / 4 * 4 else 0

unfoldable pub write_pc : ℕ → ℕ → Rsp → Rsp
write_pc offset value r = if pc_reg_of offset == 0x00 then set_pc (value % 2 ^ 12 / 4 * 4) r else r
