-- ===== src/BlockCache/Notify.antt =====
-- src/bus/bus.cpp: `notify_memory_write`, by which the bus and the DMA engines tell the block
-- cache of the CPU what they wrote.
use emulador_n64emu.Base.{
  ℕ, ◌%◌, ◌^◌, ◌<◌, ◌==◌, if◌then◌else◌, ◌≡◌, inl, inr, refl, sym, ap, ◌∙◌, subst, arith,
  Bool-cases, false, Option, some, ==_iff, if_true, if_false,
}
use emulador_n64emu.BlockCache.{BlockCache, invalidate}
use emulador_n64emu.BlockCache.Count.{count_true-zero}
use emulador_n64emu.BlockCache.Invariant.{IsValid, valids}
use emulador_n64emu.BlockCache.Coherence.{Invalidated, invalidate_lem}

-- `physical(paddr)` keeps 29 bits.
pub notify_memory_write : ℕ → ℕ → BlockCache → Option BlockCache
notify_memory_write paddr size c =
    if size == 0
    then some c
    else if c.count == 0
    then some c
    else invalidate (paddr % 2 ^ 29) size c

-- An empty cache has no valid slot.
none_valid : (c : BlockCache) → IsValid c → c.count ≡ 0 → (j : ℕ) → (c.table j).valid ≡ false
none_valid c v e j = elim (Bool-cases (c.table j).valid) [
  | inr off ↦ off
  | inl on ↦
      count_true-zero 65536 (valids c.table) (sym v.counted ∙ e) j
        (omega (arith, (v.placed j on).in_table))
]

-- On a cache in order, a write of `size` bytes at a 29-bit address that is passed to
-- `notify_memory_write` leaves no valid slot whose block has one of the bytes, keeps the invariant,
-- and leaves blocks outside of a range that is not empty and below 256 KiB in their slots.
pub notify_memory_write_lem :
    (paddr size : ℕ) (c : BlockCache)
    → IsValid c
    → paddr < 2 ^ 29
    → Invalidated paddr size c (notify_memory_write paddr size c)
unfolding notify_memory_write
notify_memory_write_lem paddr size c v fits = elim (Bool-cases (size == 0)) [
  | inl nothing ↦ record {
    after = c;
    returns = if_true _ _ nothing;
    still = v;
    gone = λ j byte full p q. absurd (ground arith);
    spared = λ j ne lt full apart. (full, refl);
  }
  | inr some_bytes ↦ elim (Bool-cases (c.count == 0)) [
    | inl empty ↦
        (let off = none_valid c v ((==_iff c.count 0).0 empty) in
          record {
            after = c;
            returns = if_false _ _ some_bytes ∙ if_true _ _ empty;
            still = v;
            gone = λ j byte full p q. ground (arith, off j);
            spared = λ j ne lt full apart. (full, refl);
          })
    | inr filled ↦
        (let small : paddr % 2 ^ 29 ≡ paddr = omega arith in
          subst (Invalidated paddr size c)
            (sym
              (if_false _ _ some_bytes ∙ if_false _ _ filled ∙ ap (λ a. invalidate a size c) small))
            (invalidate_lem paddr size c v))
  ]
]
