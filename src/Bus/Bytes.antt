-- ===== src/Bus/Bytes.antt =====
-- The fast paths read what a read byte by byte gives.
use emulador_n64emu.Base.{
  ℕ, ◌+◌, ◌-◌, ◌%◌, ◌^◌, ◌<◌, ◌==◌, ltb, ◌≡◌, inl, inr, refl, sym, ap, ◌∙◌, arith, Bool-cases, true,
  false, not, ◌&&◌, length, get_or, lt→ltb, ==-ne, if_true, if_false,
}
use native.Mathlib.Nat.{mod-eq_of_lt, mod-add-mod}
use emulador_n64emu.Bus.{
  Bus, physical, in_range, in_rdram, in_dmem, in_imem, in_cart, word32, next_addr,
}
use emulador_n64emu.Bus.Read.{read8_const, bytes32, read32_const}

-- The bytes of an aligned word follow each other in the physical addresses.
physical-next :
    (addr i : ℕ) → addr % 4 ≡ 0 → i < 4 → physical (next_addr addr i) ≡ physical addr + i
physical-next addr i h small = omega arith

-- and in RDRAM, where the word does not reach its end.
next-mod : (p i size : ℕ) → 0 < size → p % size + i < size → (p + i) % size ≡ p % size + i
next-mod p i size pos h = sym (mod-add-mod p size i) ∙ mod-eq_of_lt h

-- The regions exclude each other.
pub dmem_apart : (p : ℕ) → in_dmem p ≡ true → in_rdram p ≡ false
unfolding in_rdram in_dmem in_range
dmem_apart p h = ground arith

pub imem_apart : (p : ℕ) → in_imem p ≡ true → (in_rdram p ≡ false) × (in_dmem p ≡ false)
unfolding in_rdram in_dmem in_imem in_range
imem_apart p h = (ground arith, ground arith)

cart_apart :
    (p : ℕ) → in_cart p ≡ true → (in_rdram p ≡ false) × (in_dmem p ≡ false) × (in_imem p ≡ false)
unfolding in_rdram in_dmem in_imem in_cart in_range
cart_apart p h = (ground arith, ground arith, ground arith)

module _ {D : Type 0} (b : Bus D) where
  rdram_byte :
      (addr : ℕ)
      → in_rdram (physical addr) ≡ true
      → 0 < b.rdram.size
      → read8_const addr b ≡ b.rdram.bytes (physical addr % b.rdram.size)
  unfolding read8_const
  rdram_byte addr h pos = if_true _ _ h ∙ if_false _ _ (==-ne b.rdram.size 0 (omega arith))

  dmem_byte :
      (addr : ℕ)
      → in_dmem (physical addr) ≡ true
      → read8_const addr b ≡ b.sp_dmem (physical addr - 0x0400_0000)
  unfolding read8_const
  dmem_byte addr h = if_false _ _ (dmem_apart _ h) ∙ if_true _ _ h

  imem_byte :
      (addr : ℕ)
      → in_imem (physical addr) ≡ true
      → read8_const addr b ≡ b.sp_imem (physical addr - 0x0400_1000)
  unfolding read8_const
  imem_byte addr h =
      let (not_rdram, not_dmem) = imem_apart _ h in
      if_false _ _ not_rdram ∙ if_false _ _ not_dmem ∙ if_true _ _ h

  cart_byte :
      (addr : ℕ)
      → in_cart (physical addr) ≡ true
      → physical addr - 0x1000_0000 < length b.cart
      → read8_const addr b ≡ get_or b.cart (physical addr - 0x1000_0000) 0
  unfolding read8_const
  cart_byte addr h inside =
      let (not_rdram, not_dmem, not_imem) = cart_apart _ h in
      if_false _ _ not_rdram
      ∙ if_false _ _ not_dmem
      ∙ if_false _ _ not_imem
      ∙ if_true _ _ h
      ∙ if_true _ _ (lt→ltb _ _ inside)

  -- Four bytes that stand in a row in a memory.
  InRow : ℕ → (ℕ → ℕ) → ℕ → Type 0
  InRow addr mem at = (i : ℕ) → i < 4 → read8_const (next_addr addr i) b ≡ mem (at + i)

  word_of_row :
      (addr : ℕ) (mem : ℕ → ℕ) (at : ℕ)
      → addr < 2 ^ 32
      → InRow addr mem at
      → word32 mem at ≡ bytes32 addr b
  unfolding InRow
  word_of_row addr mem at fits h =
      let here : next_addr addr 0 ≡ addr = omega arith in
      let start : at + 0 ≡ at = omega arith in
      let first : mem at ≡ read8_const addr b =
        sym (ap mem start) ∙ sym (h 0 (omega arith)) ∙ ap (λ a. read8_const a b) here in
      rw (first, ← h 1 (omega arith), ← h 2 (omega arith), ← h 3 (omega arith)) refl

  rdram_row :
      (addr : ℕ)
      → addr % 4 ≡ 0
      → in_rdram (physical addr) ≡ true
      → physical addr % b.rdram.size + 3 < b.rdram.size
      → InRow addr b.rdram.bytes (physical addr % b.rdram.size)
  unfolding InRow in_rdram
  rdram_row addr aligned h fits i small =
      let next = physical-next addr i aligned small in
      rdram_byte (next_addr addr i) (ground (arith, next)) (omega arith)
      ∙ ap b.rdram.bytes (
          ap (λ p. p % b.rdram.size) next
          ∙ next-mod (physical addr) i b.rdram.size (omega arith) (omega arith))

  dmem_row :
      (addr : ℕ)
      → addr % 4 ≡ 0
      → in_dmem (physical addr) ≡ true
      → InRow addr b.sp_dmem (physical addr - 0x0400_0000)
  unfolding InRow in_dmem in_range
  dmem_row addr aligned h i small =
      let next = physical-next addr i aligned small in
      dmem_byte (next_addr addr i) (ground (arith, next)) ∙ ap b.sp_dmem (ground (arith, next))

  imem_row :
      (addr : ℕ)
      → addr % 4 ≡ 0
      → in_imem (physical addr) ≡ true
      → InRow addr b.sp_imem (physical addr - 0x0400_1000)
  unfolding InRow in_imem in_range
  imem_row addr aligned h i small =
      let next = physical-next addr i aligned small in
      imem_byte (next_addr addr i) (ground (arith, next)) ∙ ap b.sp_imem (ground (arith, next))

  cart_row :
      (addr : ℕ)
      → addr % 4 ≡ 0
      → in_cart (physical addr) ≡ true
      → physical addr - 0x1000_0000 + 3 < length b.cart
      → InRow addr (λ i. get_or b.cart i 0) (physical addr - 0x1000_0000)
  unfolding InRow in_cart
  cart_row addr aligned h fits i small =
      let next = physical-next addr i aligned small in
      cart_byte (next_addr addr i) (ground (arith, next)) (ground (arith, next))
      ∙ ap (λ k. get_or b.cart k 0) (ground (arith, next))

  -- At an aligned address a read of 32 bits, whichever memory it finds, gives the four bytes that reads
  -- of a byte give, the first on top.
  pub read32_const-bytes32 :
      (addr : ℕ) → addr < 2 ^ 32 → addr % 4 ≡ 0 → read32_const addr b ≡ bytes32 addr b
  unfolding read32_const
  read32_const-bytes32 addr fits aligned =
      let p = physical addr in
      let off = p % b.rdram.size in
      elim (Bool-cases (in_rdram p && not (b.rdram.size == 0) && ltb (off + 3) b.rdram.size)) [
        | inl e ↦
            if_true _ _ e
            ∙ word_of_row addr b.rdram.bytes off fits
                (rdram_row addr aligned (ground arith) (ground arith))
        | inr n1 ↦
            if_false _ _ n1
            ∙ (elim (Bool-cases (in_cart p && ltb (p - 0x1000_0000 + 3) (length b.cart))) [
              | inl e ↦
                  if_true _ _ e
                  ∙ word_of_row addr (λ i. get_or b.cart i 0) (p - 0x1000_0000) fits
                      (cart_row addr aligned (ground arith) (ground arith))
              | inr n2 ↦
                  if_false _ _ n2
                  ∙ (elim (Bool-cases (in_dmem p && ltb (p - 0x0400_0000 + 3) 0x1000)) [
                    | inl e ↦
                        if_true _ _ e
                        ∙ word_of_row addr b.sp_dmem (p - 0x0400_0000) fits
                            (dmem_row addr aligned (ground arith))
                    | inr n3 ↦
                        if_false _ _ n3
                        ∙ (elim (Bool-cases (in_imem p && ltb (p - 0x0400_1000 + 3) 0x1000)) [
                          | inl e ↦
                              if_true _ _ e
                              ∙ word_of_row addr b.sp_imem (p - 0x0400_1000) fits
                                  (imem_row addr aligned (ground arith))
                          | inr n4 ↦ if_false _ _ n4
                        ])
                  ])
            ])
      ]
