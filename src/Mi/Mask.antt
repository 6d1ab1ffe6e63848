-- ===== src/Mi/Mask.antt =====
-- What a write of MI_INTR_MASK does to each interrupt line.
use emulador_n64emu.Base.{
  ℕ, zero, suc, ◌+◌, ◌*◌, ◌==◌, ltb, leb, refl, if◌then◌else◌, ◌&&◌, ◌≡◌, arith, bit, has_bit,
  clear_bit, low, bit-low, bit-set_bit, bit-clear_bit,
}
use emulador_n64emu.Mi.{Mi, cpu_irq_level, mask_step, mask_loop, write_mask, write, notify, reg_of}

-- The enable bit that a written value gives to line `i`: setting wins over clearing.
abbrev pub enabled : ℕ → ℕ → ℕ → ℕ
enabled value i old =
    if has_bit (i * 2 + 1) value then 1 else if has_bit (i * 2) value then 0 else old

bit-mask_step :
    (value i j mask : ℕ)
    → bit j (mask_step value i mask) ≡ (if j == i then enabled value i (bit j mask) else bit j mask)
unfolding mask_step
bit-mask_step value i j mask = ground (
  arith,
  bit-set_bit j i (if has_bit (i * 2) value then clear_bit i mask else mask),
  bit-clear_bit j i mask,
)

bit-mask_loop :
    (value left i j mask : ℕ)
    → bit j (mask_loop value left i mask)
      ≡ (if leb i j && ltb j (i + left) then enabled value j (bit j mask) else bit j mask)
unfolding mask_loop
bit-mask_loop value zero i j mask = ground arith
bit-mask_loop value (suc left) i j mask = ground (
  arith,
  bit-mask_loop value left (i + 1) j (mask_step value i mask),
  bit-mask_step value i j mask,
)

-- Writing MI_INTR_MASK gives each of the six lines the enable bit that the pair of bits `2 k`
-- (clear) and `2 k + 1` (set) of the value asks for, drops all higher bits, keeps the pending
-- interrupts and the mode, and delivers the new level to the CPU.
pub bit-write_mask :
    (value offset k : ℕ) (m : Mi)
    → reg_of offset ≡ 0x0c
    → let m' = write offset value m in
      (bit k m'.intr_mask ≡ (if ltb k 6 then enabled value k (bit k m.intr_mask) else 0))
      × (m'.intr ≡ m.intr)
      × (m'.mode ≡ m.mode)
      × (m'.line ≡ cpu_irq_level m')
unfolding write
bit-write_mask value offset k m h =
    rw h (unfold write_mask notify cpu_irq_level in (masks, refl, refl, refl))
  where
    masks :
        bit k (low 6 (mask_loop value 6 0 m.intr_mask))
        ≡ (if ltb k 6 then enabled value k (bit k m.intr_mask) else 0)
    masks = ground (
      arith,
      bit-low k 6 (mask_loop value 6 0 m.intr_mask),
      bit-mask_loop value 6 0 k m.intr_mask,
    )
