-- ===== src/Si.antt =====
-- src/bus/si.cpp, include/n64/bus/si.hpp: the serial interface and its DMA between RDRAM and the
-- RAM of the PIF.
pub mod Transfer
mod Tests
use emulador_n64emu.Base.{
  ℕ, zero, suc, ◌+◌, ◌*◌, ◌/◌, ◌%◌, ◌^◌, ◌==◌, if◌then◌else◌, Option, none, some, set_bit,
  clear_bit, update,
}
use emulador_n64emu.Mi
use emulador_n64emu.Mi.{Mi, si_intr}
use emulador_n64emu.Pif.{Pif, process_requested, process_joybus}
use emulador_n64emu.Rdram.{Rdram, load, store}
use emulador_n64emu.BlockCache.{BlockCache}
use emulador_n64emu.BlockCache.Notify.{notify_memory_write}

pub record Si : Type 0 where
  pub dram_addr : ℕ
  pub status : ℕ
  pub last_dma_bytes : ℕ

-- What the interface reaches through `bus_`, `pif_` and `mi_`. `mirror` is `Bus::pif_ram`.
pub record World : Type 0 where
  pub rdram : Rdram
  pub pif : Pif
  pub mirror : ℕ → ℕ
  pub cache : BlockCache
  pub mi : Mi

unfoldable pub reset : Si → Si
reset s = record { dram_addr = 0; status = 0; last_dma_bytes = 0 }

-- `offset & 0x1C`
abbrev pub reg_of : ℕ → ℕ
reg_of offset = offset / 4 % 8 * 4

unfoldable pub read : ℕ → Si → ℕ
read offset s =
    if reg_of offset == 0x00
    then s.dram_addr % 2 ^ 24
    else if reg_of offset == 0x18
    then s.status
    else 0

-- `StatusDmaBusy` is bit 0, `StatusIntr` bit 12.
unfoldable pub finish_dma : Si → Mi → Si × Mi
finish_dma s m = (record s { status = set_bit 12 (clear_bit 0 s.status) }, Mi.raise si_intr m)

-- The loop of `dma_from_pif` from byte `i` on, with `left` bytes to go.
unfoldable pub from_pif_loop : ℕ → ℕ → ℕ → (ℕ → ℕ) → Rdram → Rdram
from_pif_loop zero i dram ram mem = mem
from_pif_loop (suc left) i dram ram mem =
    from_pif_loop left (i + 1) dram ram (store ((dram + i) % 2 ^ 32) (ram i) mem)

-- The loop of `dma_to_pif`.
unfoldable pub to_pif_loop : ℕ → ℕ → ℕ → Rdram → (ℕ → ℕ) → ℕ → ℕ
to_pif_loop zero i dram mem ram = ram
to_pif_loop (suc left) i dram mem ram =
    to_pif_loop left (i + 1) dram mem (update ram i (load ((dram + i) % 2 ^ 32) mem))

-- The PIF after the exchange it was asked for.
unfoldable pub answered : Pif → Pif
answered p = let (count, p') = process_joybus p in if process_requested p then p' else p

-- The registers while 64 bytes are moved.
abbrev pub busy : Si → Si
busy s = record s { status = set_bit 0 s.status; last_dma_bytes = 64 }

-- The state with the block cache that `notify_memory_write` leaves.
abbrev pub with_cache : Si → World → Option BlockCache → Option (Si × World)
with_cache s w (some c) = some (s, record w { cache = c })
with_cache s w none = none

-- The result is `none` where `notify_memory_write` gives none.
unfoldable pub dma_from_pif : Si → World → Option (Si × World)
dma_from_pif s w =
    let dram = s.dram_addr / 8 * 8 in
    let p = answered w.pif in
    let copied = from_pif_loop 64 0 dram p.ram w.rdram in
    let (finished, mi) = finish_dma (busy s) w.mi in
    with_cache finished (record w { rdram = copied; pif = p; mirror = p.ram; mi = mi })
      (notify_memory_write dram 64 w.cache)

unfoldable pub dma_to_pif : Si → World → Si × World
dma_to_pif s w =
    let dram = s.dram_addr / 8 * 8 in
    let p = answered (record w.pif { ram = to_pif_loop 64 0 dram w.rdram w.pif.ram }) in
    let (finished, mi) = finish_dma (busy s) w.mi in
    (finished, record w { pif = p; mirror = p.ram; mi = mi })

unfoldable pub write : ℕ → ℕ → Si → World → Option (Si × World)
write offset value s w =
    if reg_of offset == 0x00
    then some (record s { dram_addr = value % 2 ^ 24 }, w)
    else if reg_of offset == 0x04
    then dma_from_pif s w
    else if reg_of offset == 0x10
    then some (dma_to_pif s w)
    else if reg_of offset == 0x18
    then some (record s { status = clear_bit 12 s.status }, record w { mi = Mi.clear si_intr w.mi })
    else some (s, w)
