-- ===== src/Bus/Write.antt =====
-- src/bus/bus.cpp: the writes. Each notifies the block cache first.
use emulador_n64emu.Base.{
  ℕ, ◌+◌, ◌-◌, ◌*◌, ◌/◌, ◌%◌, ◌^◌, bit_and, bit_or, ◌==◌, ltb, leb, if◌then◌else◌, not, ◌&&◌, none,
  some, has_bit, update,
}
use emulador_n64emu.Pif.{Pif, process_joybus}
use emulador_n64emu.Bus.{
  Bus, DeviceInterface, physical, device_at, is_mmio_region, in_rdram, in_dmem, in_imem, next_addr,
}
use emulador_n64emu.Bus.Read.{read_mmio32}

-- The bytes of a value from `i` on, the first on top.
abbrev pub put16 : ℕ → ℕ → (ℕ → ℕ) → ℕ → ℕ
put16 i v mem = update (update mem i (v / 2 ^ 8 % 2 ^ 8)) (i + 1) (v % 2 ^ 8)

abbrev pub put32 : ℕ → ℕ → (ℕ → ℕ) → ℕ → ℕ
put32 i v mem =
    update
      (update (update (update mem i (v / 2 ^ 24 % 2 ^ 8)) (i + 1) (v / 2 ^ 16 % 2 ^ 8)) (i + 2)
        (v / 2 ^ 8 % 2 ^ 8))
      (i + 3) (v % 2 ^ 8)

module _ {D : Type 0} where
  abbrev pub with_rdram : (ℕ → ℕ) → Bus D → Bus D
  with_rdram bytes b = record b { rdram = record b.rdram { bytes = bytes } }

  -- A write of both copies of a memory of the RSP.
  abbrev pub map_dmem : ((ℕ → ℕ) → ℕ → ℕ) → Bus D → Bus D
  map_dmem f b = record b { sp_dmem = f b.sp_dmem; rsp_dmem = f b.rsp_dmem }

  abbrev pub map_imem : ((ℕ → ℕ) → ℕ → ℕ) → Bus D → Bus D
  map_imem f b = record b { sp_imem = f b.sp_imem; rsp_imem = f b.rsp_imem }

  -- Byte `off` of the PIF RAM. The control byte with the process flag runs the joybus.
  unfoldable pub write_pif : ℕ → ℕ → Bus D → Bus D
  write_pif off value b =
      let pif : Pif = record b.pif { ram = update b.pif.ram off value } in
      let (answered, processed) = process_joybus pif in
      if off == 0x3f && has_bit 0 value
      then record b { pif = processed; pif_ram = processed.ram }
      else record b { pif = pif; pif_ram = update b.pif_ram off value }

module _ {D : Type 0} (io : DeviceInterface D) where
  unfoldable pub write_mmio32 : ℕ → ℕ → Bus D → Bus D
  write_mmio32 p value b = elim (device_at p) [
    | some (d, base) ↦ io.write d (p - base) value b
    | none ↦ b
  ]

  -- `(word & ~(mask << shift)) | (value << shift)`
  abbrev put_lane : ℕ → ℕ → ℕ → ℕ → ℕ
  put_lane mask shift value word =
      bit_or (bit_and word (2 ^ 32 - 1 - mask * 2 ^ shift)) (value * 2 ^ shift)

  -- A write of a part of a register reads the rest of it.
  unfoldable pub modify_mmio : ℕ → (ℕ → ℕ) → Bus D → Bus D
  modify_mmio p change b =
      let (word, after) = read_mmio32 io p b in write_mmio32 p (change word) after

  unfoldable pub write8 : ℕ → ℕ → Bus D → Bus D
  write8 addr value b =
      let p = physical addr in
      let n = io.notify_memory_write p 1 b in
      if is_mmio_region p
      then modify_mmio (p / 4 * 4) (put_lane 0xff ((3 - p % 4) * 8) value) n
      else if in_rdram p
      then if n.rdram.size == 0
        then n
        else with_rdram (update n.rdram.bytes (p % n.rdram.size) value) n
      else if in_dmem p
      then map_dmem (λ mem. update mem (p - 0x0400_0000) value) n
      else if in_imem p
      then map_imem (λ mem. update mem (p - 0x0400_1000) value) n
      else if leb 0x1fc0_07c0 p && leb p 0x1fc0_07ff
      then write_pif (p - 0x1fc0_07c0) value n
      else n

  unfoldable pub write16 : ℕ → ℕ → Bus D → Bus D
  write16 addr value b =
      let p = physical addr in
      let n = io.notify_memory_write p 2 b in
      let off = p % n.rdram.size in
      if is_mmio_region p
      then modify_mmio (p / 4 * 4) (put_lane 0xffff (if p / 2 % 2 == 0 then 16 else 0) value) n
      else if in_rdram p && not (n.rdram.size == 0) && ltb (off + 1) n.rdram.size
      then with_rdram (put16 off value n.rdram.bytes) n
      else if in_dmem p && ltb (p - 0x0400_0000 + 1) 0x1000
      then map_dmem (put16 (p - 0x0400_0000) value) n
      else write8 (next_addr addr 1) (value % 2 ^ 8) (write8 addr (value / 2 ^ 8 % 2 ^ 8) n)

  unfoldable pub write32 : ℕ → ℕ → Bus D → Bus D
  write32 addr value b =
      let p = physical addr in
      let n = io.notify_memory_write p 4 b in
      let off = p % n.rdram.size in
      if is_mmio_region p
      then write_mmio32 (p / 4 * 4) value n
      else if in_rdram p && not (n.rdram.size == 0) && ltb (off + 3) n.rdram.size
      then with_rdram (put32 off value n.rdram.bytes) n
      else if in_dmem p && ltb (p - 0x0400_0000 + 3) 0x1000
      then map_dmem (put32 (p - 0x0400_0000) value) n
      else if in_imem p && ltb (p - 0x0400_1000 + 3) 0x1000
      then map_imem (put32 (p - 0x0400_1000) value) n
      else write8 (next_addr addr 3) (value % 2 ^ 8) (
          write8 (next_addr addr 2) (value / 2 ^ 8 % 2 ^ 8) (
            write8 (next_addr addr 1) (value / 2 ^ 16 % 2 ^ 8)
              (write8 addr (value / 2 ^ 24 % 2 ^ 8) n)))

  unfoldable pub write64 : ℕ → ℕ → Bus D → Bus D
  write64 addr value b =
      let p = physical addr in
      let n = io.notify_memory_write p 8 b in
      let off = p % n.rdram.size in
      if in_rdram p && not (n.rdram.size == 0) && ltb (off + 7) n.rdram.size
      then with_rdram (put32 (off + 4) (value % 2 ^ 32) (put32 off (value / 2 ^ 32) n.rdram.bytes))
          n
      else write32 (next_addr addr 4) (value % 2 ^ 32) (write32 addr (value / 2 ^ 32 % 2 ^ 32) n)
