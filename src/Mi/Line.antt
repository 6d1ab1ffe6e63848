-- ===== src/Mi/Line.antt =====
-- The interrupt lines: who is pending, and what the CPU sees.
use emulador_n64emu.Base.{
  ℕ, ◌==◌, if◌then◌else◌, true, ◌≡◌, ◌≢◌, ◌↔◌, refl, arith, bit, bit_and, bit-lt, bit-bit_and,
  bit-set_bit, bit-clear_bit, set_digit, ne_zero_of_bit,
}
use emulador_n64emu.Mi.{Mi, cpu_irq_level, notify, write_mask, write, raise, clear}

-- The CPU has been told the level that the registers have.
abbrev pub IsCoherent : Mi → Type 0
IsCoherent m = m.line ≡ cpu_irq_level m

-- The level is high exactly if some line is both pending and enabled.
pub cpu_irq_level_iff :
    (m : Mi) → (cpu_irq_level m ≡ true) ↔ ((k : ℕ) × (bit k m.intr ≡ 1) × (bit k m.intr_mask ≡ 1))
unfolding cpu_irq_level
cpu_irq_level_iff m = (λ h. witness (ground arith), λ (k, p, q). ground (arith, nonzero k p q))
  where
    witness :
        bit_and m.intr m.intr_mask ≢ 0 → (k : ℕ) × (bit k m.intr ≡ 1) × (bit k m.intr_mask ≡ 1)
    witness ne =
        let (k, one) = set_digit (bit_and m.intr m.intr_mask) ne in
        (
          k,
          omega (arith, bit-bit_and k m.intr m.intr_mask, bit-lt k m.intr),
          omega (arith, bit-bit_and k m.intr m.intr_mask, bit-lt k m.intr_mask),
        )

    nonzero : (k : ℕ) → bit k m.intr ≡ 1 → bit k m.intr_mask ≡ 1 → bit_and m.intr m.intr_mask ≢ 0
    nonzero k p q =
        ne_zero_of_bit k (bit_and m.intr m.intr_mask)
          (omega (arith, bit-bit_and k m.intr m.intr_mask))

-- `raise` makes its line pending, touches no other line and not the mask, and tells the CPU the
-- level that results.
pub raise_lem :
    (k j : ℕ) (m : Mi)
    → let m' = raise k m in
      (bit j m'.intr ≡ (if j == k then 1 else bit j m.intr))
      × (m'.intr_mask ≡ m.intr_mask)
      × IsCoherent m'
unfolding raise notify cpu_irq_level
raise_lem k j m = (bit-set_bit j k m.intr, refl, refl)

-- `clear` makes its line idle, touches no other line and not the mask, and tells the CPU the level
-- that results.
pub clear_lem :
    (k j : ℕ) (m : Mi)
    → let m' = clear k m in
      (bit j m'.intr ≡ (if j == k then 0 else bit j m.intr))
      × (m'.intr_mask ≡ m.intr_mask)
      × IsCoherent m'
unfolding clear notify cpu_irq_level
clear_lem k j m = (bit-clear_bit j k m.intr, refl, refl)

-- A register write keeps the CPU's line at the level of the registers.
pub write-IsCoherent :
    (offset value : ℕ) (m : Mi) → IsCoherent m → IsCoherent (write offset value m)
unfolding write write_mask notify cpu_irq_level
write-IsCoherent offset value m h = ground arith
