-- ===== src/Pi.antt =====
-- src/bus/pi.cpp, include/n64/bus/pi.hpp: the peripheral interface and its DMA between the
-- cartridge and RDRAM; of src/bus/bus.cpp, the cartridge's bytes.
pub mod Transfer
mod Tests
use emulador_n64emu.Base.{
  ℕ, zero, suc, ◌+◌, ◌-◌, ◌*◌, ◌/◌, ◌%◌, ◌^◌, ◌≤◌, ◌<◌, min, max, bit_and, bit_or, bit_xor, ◌==◌,
  ltb, leb, if◌then◌else◌, ◌≡◌, ◌≢◌, ◌↔◌, ◌⊎◌, inl, inr, refl, sym, ap, ◌∙◌, subst, arith, Bool,
  Bool-cases, true, false, not, ◌&&◌, ◌||◌, Option, Option-cases, none, some, List, [], ◌∷◌, ◌++◌,
  map, length, get_or, set, replicate, ltb→lt, lt→ltb, leb→le, ==_iff, ==-ne, bit, has_bit, set_bit,
  clear_bit, low, ℕ_discrete, dec_lt, dec_le, update, if_true, if_false,
}
use emulador_n64emu.Mi
use emulador_n64emu.Mi.{Mi, pi_intr}
use emulador_n64emu.Rdram.{Rdram, load, store}
use emulador_n64emu.BlockCache.{BlockCache}
use emulador_n64emu.BlockCache.Notify.{notify_memory_write}

pub record Pi : Type 0 where
  pub dram_addr : ℕ
  pub cart_addr : ℕ
  pub rd_len : ℕ
  pub wr_len : ℕ
  pub status : ℕ
  pub dom1_lat : ℕ
  pub dom1_pwd : ℕ
  pub dom1_pgs : ℕ
  pub dom1_rls : ℕ
  pub dom2_lat : ℕ
  pub dom2_pwd : ℕ
  pub dom2_pgs : ℕ
  pub dom2_rls : ℕ
  pub last_dma_bytes : ℕ

-- What the interface reaches through `bus_` and `mi_`: RDRAM, the cartridge image, the block
-- cache of the CPU and the interrupt lines.
pub record World : Type 0 where
  pub rdram : Rdram
  pub cart : List ℕ
  pub cache : BlockCache
  pub mi : Mi

unfoldable pub reset : Pi → Pi
reset p = record {
  dram_addr = 0;
  cart_addr = 0;
  rd_len = 0;
  wr_len = 0;
  status = 0;
  dom1_lat = 0x40;
  dom1_pwd = 0x12;
  dom1_pgs = 0x07;
  dom1_rls = 0x03;
  dom2_lat = 0x40;
  dom2_pwd = 0x12;
  dom2_pgs = 0x07;
  dom2_rls = 0x03;
  last_dma_bytes = 0;
}

-- `offset & 0x3C`
abbrev pub reg_of : ℕ → ℕ
reg_of offset = offset / 4 % 16 * 4

unfoldable pub read : ℕ → Pi → ℕ
read offset p =
    if reg_of offset == 0x00
    then p.dram_addr % 2 ^ 24 / 2 * 2
    else if reg_of offset == 0x04
    then p.cart_addr / 2 * 2
    else if reg_of offset == 0x08
    then p.rd_len
    else if reg_of offset == 0x0c
    then p.wr_len
    else if reg_of offset == 0x10
    then p.status
    else if reg_of offset == 0x14
    then p.dom1_lat
    else if reg_of offset == 0x18
    then p.dom1_pwd
    else if reg_of offset == 0x1c
    then p.dom1_pgs
    else if reg_of offset == 0x20
    then p.dom1_rls
    else if reg_of offset == 0x24
    then p.dom2_lat
    else if reg_of offset == 0x28
    then p.dom2_pwd
    else if reg_of offset == 0x2c
    then p.dom2_pgs
    else if reg_of offset == 0x30
    then p.dom2_rls
    else 0

-- The offset in the cartridge image of an address of the PI bus.
abbrev pub cart_offset : ℕ → ℕ
cart_offset addr = if leb 0x1000_0000 addr then addr - 0x1000_0000 else addr

unfoldable pub cart_read_byte : ℕ → List ℕ → ℕ
cart_read_byte addr cart =
    if ltb (cart_offset addr) (length cart) then get_or cart (cart_offset addr) 0 else 0

unfoldable pub cart_write_byte : ℕ → ℕ → List ℕ → List ℕ
cart_write_byte addr v cart =
    if ltb (cart_offset addr) (length cart) then set cart (cart_offset addr) v else cart

-- `StatusDmaBusy` is bit 0, `StatusIntr` bit 3.
pub finish_dma : Pi → Mi → Pi × Mi
finish_dma p m = (record p { status = set_bit 3 (clear_bit 0 p.status) }, Mi.raise pi_intr m)

-- The loop of `start_dma_to_rdram` from byte `i` on, with `left` bytes to go.
pub to_rdram_loop : ℕ → ℕ → ℕ → ℕ → List ℕ → Rdram → Rdram
to_rdram_loop zero i dram cart image mem = mem
to_rdram_loop (suc left) i dram cart image mem =
    to_rdram_loop left (i + 1) dram cart image
      (store ((dram + i) % 2 ^ 32) (cart_read_byte ((cart + i) % 2 ^ 32) image) mem)

-- The loop of `start_dma_to_cart`.
unfoldable pub to_cart_loop : ℕ → ℕ → ℕ → ℕ → Rdram → List ℕ → List ℕ
to_cart_loop zero i dram cart mem image = image
to_cart_loop (suc left) i dram cart mem image =
    to_cart_loop left (i + 1) dram cart mem
      (cart_write_byte ((cart + i) % 2 ^ 32) (load ((dram + i) % 2 ^ 32) mem) image)

-- The address registers, the byte count and the status after a transfer.
abbrev pub advanced : ℕ → Pi → Pi
advanced size p = record p {
  dram_addr = (p.dram_addr / 2 * 2 + size) % 2 ^ 32;
  cart_addr = (p.cart_addr / 2 * 2 + size) % 2 ^ 32;
  last_dma_bytes = size;
  status = set_bit 0 p.status;
}

-- The state with the block cache that `notify_memory_write` leaves.
abbrev pub with_cache : Pi → World → Option BlockCache → Option (Pi × World)
with_cache p w (some c) = some (p, record w { cache = c })
with_cache p w none = none

-- The result is `none` where `notify_memory_write` gives none.
pub start_dma_to_rdram : Pi → World → Option (Pi × World)
start_dma_to_rdram p w =
    let size = p.rd_len % 2 ^ 24 + 1 in
    let dram = p.dram_addr / 2 * 2 in
    let copied = to_rdram_loop size 0 dram (p.cart_addr / 2 * 2) w.cart w.rdram in
    let (finished, mi) = finish_dma (advanced size p) w.mi in
    with_cache finished (record w { rdram = copied; mi = mi })
      (notify_memory_write dram size w.cache)

unfoldable pub start_dma_to_cart : Pi → World → Pi × World
start_dma_to_cart p w =
    let size = p.wr_len % 2 ^ 24 + 1 in
    let image = to_cart_loop size 0 (p.dram_addr / 2 * 2) (p.cart_addr / 2 * 2) w.rdram w.cart in
    let (finished, mi) = finish_dma (advanced size p) w.mi in
    (finished, record w { cart = image; mi = mi })

-- `WrReset` is bit 0 of the value, `WrClrIntr` bit 1.
unfoldable pub write_status : ℕ → Pi → Mi → Pi × Mi
write_status value p m =
    let after_reset =
      if has_bit 0 value
      then record p { status = clear_bit 2 (clear_bit 1 (clear_bit 0 p.status)) }
      else p in
    if has_bit 1 value
    then (record after_reset { status = clear_bit 3 after_reset.status }, Mi.clear pi_intr m)
    else (after_reset, m)

unfoldable pub write : ℕ → ℕ → Pi → World → Option (Pi × World)
write offset value p w =
    let (status_written, mi) = write_status value p w.mi in
    if reg_of offset == 0x00
    then some (record p { dram_addr = value % 2 ^ 24 }, w)
    else if reg_of offset == 0x04
    then some (record p { cart_addr = value }, w)
    else if reg_of offset == 0x08
    then start_dma_to_rdram (record p { rd_len = value % 2 ^ 24 }) w
    else if reg_of offset == 0x0c
    then some (start_dma_to_cart (record p { wr_len = value % 2 ^ 24 }) w)
    else if reg_of offset == 0x10
    then some (status_written, record w { mi = mi })
    else if reg_of offset == 0x14
    then some (record p { dom1_lat = value % 2 ^ 8 }, w)
    else if reg_of offset == 0x18
    then some (record p { dom1_pwd = value % 2 ^ 8 }, w)
    else if reg_of offset == 0x1c
    then some (record p { dom1_pgs = value % 2 ^ 8 }, w)
    else if reg_of offset == 0x20
    then some (record p { dom1_rls = value % 2 ^ 8 }, w)
    else if reg_of offset == 0x24
    then some (record p { dom2_lat = value % 2 ^ 8 }, w)
    else if reg_of offset == 0x28
    then some (record p { dom2_pwd = value % 2 ^ 8 }, w)
    else if reg_of offset == 0x2c
    then some (record p { dom2_pgs = value % 2 ^ 8 }, w)
    else if reg_of offset == 0x30
    then some (record p { dom2_rls = value % 2 ^ 8 }, w)
    else some (p, w)
