-- ===== src/Bus.antt =====
-- src/bus/bus.cpp, include/n64/bus/bus.hpp, include/n64/bus/mmio.hpp: the memory map, and the reads
-- and writes of the CPU. No debugger is attached.
pub mod Read
pub mod Write
pub mod Bytes
pub mod Stored
pub mod Cartridge
mod Tests
use emulador_n64emu.Base.{
  ℕ, ◌+◌, ◌*◌, ◌%◌, ◌^◌, ltb, leb, if◌then◌else◌, Bool, true, false, ◌&&◌, Option, none, some, List,
}
use emulador_n64emu.Pif.{Pif}
use emulador_n64emu.Rdram.{Rdram}

-- The memories of the bus and of what it is connected to. `pif_ram` is the bus's own copy, `rsp_dmem`
-- and `rsp_imem` are the memories of the RSP, `devices` all else.
pub record Bus (D : Type 0) : Type 0 where
  pub rdram : Rdram
  pub cart : List ℕ
  pub pif_rom : List ℕ
  pub sp_dmem : ℕ → ℕ
  pub sp_imem : ℕ → ℕ
  pub rsp_dmem : ℕ → ℕ
  pub rsp_imem : ℕ → ℕ
  pub pif_ram : ℕ → ℕ
  pub pif : Pif
  pub devices : D

-- The blocks of registers.
pub data Device : Type 0 where
  sp_regs : Device
  sp_pc : Device
  dp_regs : Device
  mi_regs : Device
  vi_regs : Device
  ai_regs : Device
  pi_regs : Device
  ri_regs : Device
  si_regs : Device

-- `read` and `write` of the devices by their offset, `SpRegisters::read_semaphore`, and
-- `notify_memory_write`. A write may start a DMA and change the memories.
pub record DeviceInterface (D : Type 0) : Type 0 where
  pub read : Device → ℕ → Bus D → ℕ
  pub read_semaphore : Bus D → ℕ × Bus D
  pub write : Device → ℕ → ℕ → Bus D → Bus D
  pub notify_memory_write : ℕ → ℕ → Bus D → Bus D

-- `physical`
abbrev pub physical : ℕ → ℕ
physical addr = addr % 2 ^ 29

unfoldable pub in_range : ℕ → ℕ → ℕ → Bool
in_range p base size = leb base p && ltb p (base + size)

-- The device at a physical address, with the start of its block.
unfoldable pub device_at : ℕ → Option (Device × ℕ)
device_at p =
    if in_range p 0x0404_0000 0x20
    then some (sp_regs, 0x0404_0000)
    else if in_range p 0x0408_0000 0x10
    then some (sp_pc, 0x0408_0000)
    else if in_range p 0x0410_0000 0x20
    then some (dp_regs, 0x0410_0000)
    else if in_range p 0x0430_0000 0x10
    then some (mi_regs, 0x0430_0000)
    else if in_range p 0x0440_0000 0x40
    then some (vi_regs, 0x0440_0000)
    else if in_range p 0x0450_0000 0x20
    then some (ai_regs, 0x0450_0000)
    else if in_range p 0x0460_0000 0x40
    then some (pi_regs, 0x0460_0000)
    else if in_range p 0x0470_0000 0x20
    then some (ri_regs, 0x0470_0000)
    else if in_range p 0x0480_0000 0x20
    then some (si_regs, 0x0480_0000)
    else none

unfoldable pub is_mmio_region : ℕ → Bool
is_mmio_region p = elim (device_at p) [ some d ↦ true | none ↦ false ]

-- The memories by address: below 0x03F0_0000 RDRAM, then the two of the RSP.
unfoldable pub in_rdram : ℕ → Bool
in_rdram p = ltb p 0x03f0_0000

unfoldable pub in_dmem : ℕ → Bool
in_dmem p = in_range p 0x0400_0000 0x1000

unfoldable pub in_imem : ℕ → Bool
in_imem p = in_range p 0x0400_1000 0x1000

unfoldable pub in_cart : ℕ → Bool
in_cart p = leb 0x1000_0000 p && leb p 0x1fbf_ffff

-- The bytes of a word from `i` on, the first on top.
abbrev pub word16 : (ℕ → ℕ) → ℕ → ℕ
word16 mem i = mem i * 2 ^ 8 + mem (i + 1)

abbrev pub word32 : (ℕ → ℕ) → ℕ → ℕ
word32 mem i = mem i * 2 ^ 24 + mem (i + 1) * 2 ^ 16 + mem (i + 2) * 2 ^ 8 + mem (i + 3)

-- The same of the bytes that a byte read gives, whose addresses wrap at 32 bits.
abbrev pub next_addr : ℕ → ℕ → ℕ
next_addr addr i = (addr + i) % 2 ^ 32
