-- ===== src/Mi.antt =====
-- src/bus/mi.cpp, include/n64/bus/mi.hpp: the MIPS interface, which gathers the interrupt lines
-- of the devices and drives one line of the CPU.
pub mod Mask
pub mod Line
mod Tests
use emulador_n64emu.Base.{ℕ, zero, suc, ◌+◌, ◌*◌, ◌/◌, ◌%◌, ◌==◌, if◌then◌else◌, Bool, false, not}
use emulador_n64emu.Base.{bit_and, low, has_bit, set_bit, clear_bit}

-- `line` is the argument of the last call of `irq_cb_`, which `Bus::connect` makes
-- `Cpu::set_rcp_interrupt`.
pub record Mi : Type 0 where
  pub mode : ℕ
  pub intr : ℕ
  pub intr_mask : ℕ
  pub line : Bool

-- The bit numbers of `mmio::MiIntr`.
abbrev pub sp_intr : ℕ
sp_intr = 0

abbrev pub si_intr : ℕ
si_intr = 1

abbrev pub ai_intr : ℕ
ai_intr = 2

abbrev pub vi_intr : ℕ
vi_intr = 3

abbrev pub pi_intr : ℕ
pi_intr = 4

abbrev pub dp_intr : ℕ
dp_intr = 5

pub cpu_irq_level : Mi → Bool
cpu_irq_level m = not (bit_and m.intr m.intr_mask == 0)

pub notify : Mi → Mi
notify m = record m { line = cpu_irq_level m }

unfoldable pub reset : Mi → Mi
reset m = record m { mode = 0; intr = 0; intr_mask = 0 }

-- `offset & 0xFC`
abbrev pub reg_of : ℕ → ℕ
reg_of offset = offset / 4 % 64 * 4

unfoldable pub read : ℕ → Mi → ℕ
read offset m =
    if reg_of offset == 0x00
    then m.mode
    else if reg_of offset == 0x04
    then 0x0202_0102
    else if reg_of offset == 0x08
    then m.intr
    else if reg_of offset == 0x0c
    then m.intr_mask
    else 0

-- One round of the loop over the six lines: bit `2 i` of the value clears, bit `2 i + 1` sets.
pub mask_step : ℕ → ℕ → ℕ → ℕ
mask_step value i mask =
    let cleared = if has_bit (i * 2) value then clear_bit i mask else mask in
    if has_bit (i * 2 + 1) value then set_bit i cleared else cleared

-- The loop from line `i` with `left` rounds to go.
pub mask_loop : ℕ → ℕ → ℕ → ℕ → ℕ
mask_loop value zero i mask = mask
mask_loop value (suc left) i mask = mask_loop value left (i + 1) (mask_step value i mask)

pub write_mask : ℕ → Mi → Mi
write_mask value m = notify (record m { intr_mask = low 6 (mask_loop value 6 0 m.intr_mask) })

unfoldable pub write : ℕ → ℕ → Mi → Mi
write offset value m =
    if reg_of offset == 0x00
    then record m { mode = value }
    else if reg_of offset == 0x0c
    then write_mask value m
    else m

-- `mask_bit` is one bit at each call of the source; `k` is its number.
pub raise : ℕ → Mi → Mi
raise k m = notify (record m { intr = set_bit k m.intr })

unfoldable pub clear : ℕ → Mi → Mi
clear k m = notify (record m { intr = clear_bit k m.intr })
