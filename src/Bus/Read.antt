-- ===== src/Bus/Read.antt =====
-- src/bus/bus.cpp: the reads, with a fast path for each memory.
use emulador_n64emu.Base.{
  ℕ, ◌+◌, ◌-◌, ◌*◌, ◌/◌, ◌%◌, ◌^◌, ◌==◌, ltb, leb, if◌then◌else◌, not, ◌&&◌, ◌||◌, none, some,
  length, get_or,
}
use emulador_n64emu.Bus.{
  Bus, DeviceInterface, physical, device_at, is_mmio_region, in_range, in_rdram, in_dmem, in_imem,
  in_cart, word16, word32, next_addr,
}

unfoldable pub read_open_bus : ℕ → ℕ
read_open_bus addr = addr / 2 ^ 8 % 2 ^ 8

module _ {D : Type 0} where
  unfoldable pub read8_const : ℕ → Bus D → ℕ
  read8_const addr b =
      let p = physical addr in
      if in_rdram p
      then if b.rdram.size == 0 then read_open_bus p else b.rdram.bytes (p % b.rdram.size)
      else if in_dmem p
      then b.sp_dmem (p - 0x0400_0000)
      else if in_imem p
      then b.sp_imem (p - 0x0400_1000)
      else if in_cart p
      then if ltb (p - 0x1000_0000) (length b.cart) then get_or b.cart (p - 0x1000_0000) 0 else 0
      else if leb 0x1fc0_0000 p && ltb p 0x1fc0_07c0
      then if ltb (p - 0x1fc0_0000) (length b.pif_rom)
        then get_or b.pif_rom (p - 0x1fc0_0000) 0
        else 0
      else if leb 0x1fc0_07c0 p && leb p 0x1fc0_07ff
      then b.pif.ram (p - 0x1fc0_07c0)
      else read_open_bus p

  abbrev pub bytes16 : ℕ → Bus D → ℕ
  bytes16 addr b = read8_const addr b * 2 ^ 8 + read8_const (next_addr addr 1) b

  abbrev pub bytes32 : ℕ → Bus D → ℕ
  bytes32 addr b =
      read8_const addr b * 2 ^ 24
      + read8_const (next_addr addr 1) b * 2 ^ 16
      + read8_const (next_addr addr 2) b * 2 ^ 8
      + read8_const (next_addr addr 3) b

  unfoldable pub read16_const : ℕ → Bus D → ℕ
  read16_const addr b =
      let p = physical addr in
      let off = p % b.rdram.size in
      if in_rdram p && not (b.rdram.size == 0) && ltb (off + 1) b.rdram.size
      then word16 b.rdram.bytes off
      else bytes16 addr b

  unfoldable pub read32_const : ℕ → Bus D → ℕ
  read32_const addr b =
      let p = physical addr in
      let off = p % b.rdram.size in
      if in_rdram p && not (b.rdram.size == 0) && ltb (off + 3) b.rdram.size
      then word32 b.rdram.bytes off
      else if in_cart p && ltb (p - 0x1000_0000 + 3) (length b.cart)
      then word32 (λ i. get_or b.cart i 0) (p - 0x1000_0000)
      else if in_dmem p && ltb (p - 0x0400_0000 + 3) 0x1000
      then word32 b.sp_dmem (p - 0x0400_0000)
      else if in_imem p && ltb (p - 0x0400_1000 + 3) 0x1000
      then word32 b.sp_imem (p - 0x0400_1000)
      else bytes32 addr b

module _ {D : Type 0} (io : DeviceInterface D) where
  unfoldable pub read_mmio32 : ℕ → Bus D → ℕ × Bus D
  read_mmio32 p b = elim (device_at p) [
    | some (d, base) ↦
        if in_range p 0x0404_0000 0x20 && (p - base) / 4 % 8 * 4 == 0x1c
        then io.read_semaphore b
        else (io.read d (p - base) b, b)
    | none ↦ (0, b)
  ]

  -- The parts of a register that a read of a byte or of a half takes.
  abbrev lane8 : ℕ → ℕ → ℕ
  lane8 p word = word / 2 ^ ((3 - p % 4) * 8) % 2 ^ 8

  abbrev lane16 : ℕ → ℕ → ℕ
  lane16 p word = if p / 2 % 2 == 0 then word / 2 ^ 16 % 2 ^ 16 else word % 2 ^ 16

  unfoldable pub read8 : ℕ → Bus D → ℕ × Bus D
  read8 addr b =
      let p = physical addr in
      let (word, after) = read_mmio32 (p / 4 * 4) b in
      if is_mmio_region p then (lane8 p word, after) else (read8_const p b, b)

  unfoldable pub read16 : ℕ → Bus D → ℕ × Bus D
  read16 addr b =
      let p = physical addr in
      let (word, after) = read_mmio32 (p / 4 * 4) b in
      if is_mmio_region (p / 4 * 4) || is_mmio_region p
      then (lane16 p word, after)
      else (read16_const p b, b)

  unfoldable pub read32 : ℕ → Bus D → ℕ × Bus D
  read32 addr b =
      let p = physical addr in
      if is_mmio_region p then read_mmio32 (p / 4 * 4) b else (read32_const p b, b)

  unfoldable pub read64 : ℕ → Bus D → ℕ × Bus D
  read64 addr b =
      let p = physical addr in
      let off = p % b.rdram.size in
      let (hi, b1) = read32 addr b in
      let (lo, b2) = read32 (next_addr addr 4) b1 in
      if in_rdram p && not (b.rdram.size == 0) && ltb (off + 7) b.rdram.size
      then (word32 b.rdram.bytes off * 2 ^ 32 + word32 b.rdram.bytes (off + 4), b)
      else (hi * 2 ^ 32 + lo, b2)
