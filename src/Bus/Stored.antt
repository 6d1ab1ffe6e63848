-- ===== src/Bus/Stored.antt =====
-- A word that is written to a memory is read back, and both copies of the memories of the RSP agree.
use emulador_n64emu.Base.{
  ℕ, ◌+◌, ◌-◌, ◌%◌, ◌^◌, ◌<◌, ◌==◌, ltb, ◌≡◌, refl, ap, ◌∙◌, arith, true, false, not, ◌&&◌, Option,
  none, some, length, if_true, if_false,
}
use emulador_n64emu.Bus.{
  Bus, Device, DeviceInterface, physical, in_range, device_at, is_mmio_region, in_rdram, in_dmem,
  in_imem, in_cart, word32,
}
use emulador_n64emu.Bus.Read.{read32_const}
use emulador_n64emu.Bus.Bytes.{dmem_apart, imem_apart}
use emulador_n64emu.Bus.Write.{put32, with_rdram, map_dmem, map_imem, write32}

-- The notification of a write changes the devices only.
pub record NotifyLaws {D : Type 0} (io : DeviceInterface D) : Type 0 where
  pub notified : ℕ → ℕ → Bus D → D
  pub notify_keeps :
      (p size : ℕ) (b : Bus D)
      → io.notify_memory_write p size b ≡ record b { devices = notified p size b }

-- A word of one of the three memories.
pub data IsWordOf {D : Type 0} (p : ℕ) (b : Bus D) : Type 0 where
  rdram_word : in_rdram p ≡ true → p % b.rdram.size + 3 < b.rdram.size → IsWordOf p b
  dmem_word : in_dmem p ≡ true → p % 4 ≡ 0 → IsWordOf p b
  imem_word : in_imem p ≡ true → p % 4 ≡ 0 → IsWordOf p b

-- The copies of the bus are those of the RSP.
pub record IsMirrored {D : Type 0} (b : Bus D) : Type 0 where
  pub same_dmem : b.sp_dmem ≡ b.rsp_dmem
  pub same_imem : b.sp_imem ≡ b.rsp_imem

below_range : (p base size : ℕ) → p < base → in_range p base size ≡ false
unfolding in_range
below_range p base size h = ground arith

no_device : (p : ℕ) → p < 0x0400_2000 → device_at p ≡ none
unfolding device_at
no_device p h =
    let below = λ (base size : ℕ) (k : p < base). below_range p base size k in
    rw
      (
        device_at,
        below 0x0404_0000 0x20 (omega arith),
        below 0x0408_0000 0x10 (omega arith),
        below 0x0410_0000 0x20 (omega arith),
        below 0x0430_0000 0x10 (omega arith),
        below 0x0440_0000 0x40 (omega arith),
        below 0x0450_0000 0x20 (omega arith),
        below 0x0460_0000 0x40 (omega arith),
        below 0x0470_0000 0x20 (omega arith),
        below 0x0480_0000 0x20 (omega arith),
      )
      refl

pub memory_apart : (p : ℕ) → p < 0x0400_2000 → is_mmio_region p ≡ false
unfolding is_mmio_region
memory_apart p h =
    ap (λ (d : Option (Device × ℕ)). elim d [ some x ↦ true | none ↦ false ]) (no_device p h)

word32-put32 : (i v : ℕ) (mem : ℕ → ℕ) → v < 2 ^ 32 → word32 (put32 i v mem) i ≡ v
word32-put32 i v mem h = ground arith

module _ {D : Type 0} (io : DeviceInterface D) (laws : NotifyLaws io) where
  -- What is stored where, past the notification.
  abbrev noted : ℕ → ℕ → Bus D → Bus D
  noted p size b = record b { devices = laws.notified p size b }

  write32-rdram :
      (addr value : ℕ) (b : Bus D)
      → in_rdram (physical addr) ≡ true
      → physical addr % b.rdram.size + 3 < b.rdram.size
      → write32 io addr value b
        ≡ with_rdram
            (put32 (physical addr % b.rdram.size) value b.rdram.bytes)
            (noted (physical addr) 4 b)
  unfolding write32 in_rdram
  write32-rdram addr value b h fits =
      let p = physical addr in
      let apart = memory_apart p (ground arith) in
      let inside : ltb p 0x03f0_0000
            && not (b.rdram.size == 0)
            && ltb (p % b.rdram.size + 3) b.rdram.size
          ≡ true =
        ground arith in
      rw (write32, laws.notify_keeps p 4 b, apart, inside) refl

  write32-dmem :
      (addr value : ℕ) (b : Bus D)
      → in_dmem (physical addr) ≡ true
      → physical addr % 4 ≡ 0
      → write32 io addr value b
        ≡ map_dmem (put32 (physical addr - 0x0400_0000) value) (noted (physical addr) 4 b)
  unfolding write32 in_dmem in_range
  write32-dmem addr value b h aligned =
      let p = physical addr in
      let apart = memory_apart p (ground arith) in
      let outside = dmem_apart p h in
      let inside : ltb (p - 0x0400_0000 + 3) 0x1000 ≡ true = ground arith in
      rw (write32, laws.notify_keeps p 4 b, apart, outside, h, inside) refl

  write32-imem :
      (addr value : ℕ) (b : Bus D)
      → in_imem (physical addr) ≡ true
      → physical addr % 4 ≡ 0
      → write32 io addr value b
        ≡ map_imem (put32 (physical addr - 0x0400_1000) value) (noted (physical addr) 4 b)
  unfolding write32 in_imem in_range
  write32-imem addr value b h aligned =
      let p = physical addr in
      let apart = memory_apart p (ground arith) in
      let (not_rdram, not_dmem) = imem_apart p h in
      let inside : ltb (p - 0x0400_1000 + 3) 0x1000 ≡ true = ground arith in
      rw (write32, laws.notify_keeps p 4 b, apart, not_rdram, not_dmem, h, inside) refl

module _ {D : Type 0} (b : Bus D) where
  read32-rdram :
      (addr : ℕ)
      → in_rdram (physical addr) ≡ true
      → physical addr % b.rdram.size + 3 < b.rdram.size
      → read32_const addr b ≡ word32 b.rdram.bytes (physical addr % b.rdram.size)
  unfolding read32_const
  read32-rdram addr h fits =
      let inside : (in_rdram (physical addr)
            && not (b.rdram.size == 0)
            && ltb (physical addr % b.rdram.size + 3) b.rdram.size)
          ≡ true =
        ground arith in
      if_true _ _ inside

  read32-dmem :
      (addr : ℕ)
      → in_dmem (physical addr) ≡ true
      → physical addr % 4 ≡ 0
      → read32_const addr b ≡ word32 b.sp_dmem (physical addr - 0x0400_0000)
  unfolding read32_const in_rdram in_dmem in_imem in_cart in_range
  read32-dmem addr h aligned =
      let p = physical addr in
      let not_rdram : (in_rdram p
            && not (b.rdram.size == 0)
            && ltb (p % b.rdram.size + 3) b.rdram.size)
          ≡ false =
        ground arith in
      let not_cart : (in_cart p && ltb (p - 0x1000_0000 + 3) (length b.cart)) ≡ false =
        ground arith in
      let inside : (in_dmem p && ltb (p - 0x0400_0000 + 3) 0x1000) ≡ true = ground arith in
      if_false _ _ not_rdram ∙ if_false _ _ not_cart ∙ if_true _ _ inside

  read32-imem :
      (addr : ℕ)
      → in_imem (physical addr) ≡ true
      → physical addr % 4 ≡ 0
      → read32_const addr b ≡ word32 b.sp_imem (physical addr - 0x0400_1000)
  unfolding read32_const in_rdram in_dmem in_imem in_cart in_range
  read32-imem addr h aligned =
      let p = physical addr in
      let not_rdram : (in_rdram p
            && not (b.rdram.size == 0)
            && ltb (p % b.rdram.size + 3) b.rdram.size)
          ≡ false =
        ground arith in
      let not_cart : (in_cart p && ltb (p - 0x1000_0000 + 3) (length b.cart)) ≡ false =
        ground arith in
      let not_dmem : (in_dmem p && ltb (p - 0x0400_0000 + 3) 0x1000) ≡ false = ground arith in
      let inside : (in_imem p && ltb (p - 0x0400_1000 + 3) 0x1000) ≡ true = ground arith in
      if_false _ _ not_rdram ∙ if_false _ _ not_cart ∙ if_false _ _ not_dmem ∙ if_true _ _ inside

-- Where the notification of a write changes the devices only: a word of 32 bits that is written to
-- RDRAM, or aligned to a memory of the RSP, is read back, and the copies of these memories agree
-- afterwards if they did before.
pub write32-read32_const :
    {D : Type 0} (io : DeviceInterface D) (laws : NotifyLaws io) (addr value : ℕ) (b : Bus D)
    → value < 2 ^ 32
    → IsWordOf (physical addr) b
    → IsMirrored b
    → (read32_const addr (write32 io addr value b) ≡ value) × IsMirrored (write32 io addr value b)
write32-read32_const io laws addr value b small (rdram_word h fits) mirrored =
    rw (write32-rdram io laws addr value b h fits) (
      read32-rdram _ addr h fits
          ∙ word32-put32 (physical addr % b.rdram.size) value b.rdram.bytes small,
      record { same_dmem = mirrored.same_dmem; same_imem = mirrored.same_imem },
    )
write32-read32_const io laws addr value b small (dmem_word h aligned) mirrored =
    rw (write32-dmem io laws addr value b h aligned) (
      read32-dmem _ addr h aligned
          ∙ word32-put32 (physical addr - 0x0400_0000) value b.sp_dmem small,
      record {
        same_dmem = ap (put32 (physical addr - 0x0400_0000) value) mirrored.same_dmem;
        same_imem = mirrored.same_imem;
      },
    )
write32-read32_const io laws addr value b small (imem_word h aligned) mirrored =
    rw (write32-imem io laws addr value b h aligned) (
      read32-imem _ addr h aligned
          ∙ word32-put32 (physical addr - 0x0400_1000) value b.sp_imem small,
      record {
        same_dmem = mirrored.same_dmem;
        same_imem = ap (put32 (physical addr - 0x0400_1000) value) mirrored.same_imem;
      },
    )
