-- ===== src/Pi/Transfer.antt =====
-- A DMA from the cartridge: what it writes, and that no cached block of the CPU covers it.
use emulador_n64emu.Base.{
  ℕ, zero, suc, ◌+◌, ◌-◌, ◌*◌, ◌/◌, ◌%◌, ◌^◌, ◌≤◌, ◌<◌, ltb, leb, if◌then◌else◌, ◌≡◌, refl, ap, ◌∙◌,
  subst, arith, true, false, ◌&&◌, some, List, ==-ne, has_bit, set_bit, clear_bit, ℕ_discrete,
  update, if_false,
}
use native.Mathlib.Nat.{mod-eq_of_lt}
use emulador_n64emu.Base.{bit-set_bit, bit-clear_bit}
use emulador_n64emu.Mi
use emulador_n64emu.Mi.{Mi, pi_intr}
use emulador_n64emu.Rdram.{Rdram, store}
use emulador_n64emu.BlockCache.Invariant.{IsValid}
use emulador_n64emu.BlockCache.Coherence.{Invalidated}
use emulador_n64emu.BlockCache.Notify.{notify_memory_write_lem}
use emulador_n64emu.Pi.{
  Pi, World, to_rdram_loop, cart_read_byte, finish_dma, advanced, with_cache, start_dma_to_rdram,
}

-- A store inside of RDRAM.
pub store_inside :
    (i v : ℕ) (m : Rdram)
    → i < m.size
    → m.size ≤ 2 ^ 32
    → store (i % 2 ^ 32) v m ≡ record m { bytes = update m.bytes i v }
store_inside i v m h fits =
    let fits_32 : i % 2 ^ 32 ≡ i = omega arith in
    if_false _ _ (==-ne m.size 0 (omega arith))
    ∙ ap (λ j. record m { bytes = update m.bytes j v })
        (ap (λ k. k % m.size) fits_32 ∙ mod-eq_of_lt h)

-- What the loop leaves in byte `j` of RDRAM.
to_rdram_loop_lem :
    (left i dram cart : ℕ) (image : List ℕ) (m : Rdram) (j : ℕ)
    → dram + i + left ≤ m.size
    → m.size ≤ 2 ^ 32
    → let m' = to_rdram_loop left i dram cart image m in
      (m'.size ≡ m.size)
      × (m'.bytes j ≡ (
          if leb (dram + i) j && ltb j (dram + i + left)
          then cart_read_byte ((cart + (j - dram)) % 2 ^ 32) image
          else m.bytes j))
unfolding to_rdram_loop
to_rdram_loop_lem zero i dram cart image m j h fits = (refl, ground arith)
to_rdram_loop_lem (suc left) i dram cart image m j h fits =
    let v = cart_read_byte ((cart + i) % 2 ^ 32) image in
    let m1 : Rdram = record m { bytes = update m.bytes (dram + i) v } in
    let (size, byte) = to_rdram_loop_lem left (i + 1) dram cart image m1 j (omega arith) fits in
    rw (store_inside (dram + i) v m (omega arith) fits, to_rdram_loop)
      (
        size,
        elim (ℕ_discrete j (dram + i)) [
          | yes e ↦
              (let back : j - dram ≡ i = omega arith in
                let same = ap (λ k. cart_read_byte ((cart + k) % 2 ^ 32) image) back in
                ground (arith, byte, same))
          | no ne ↦ ground (arith, byte)
        ],
      )

-- The state after a DMA of `size` bytes from the cartridge to `dram`.
pub record Transferred (dram size cart : ℕ) (p p' : Pi) (w w' : World) : Type 0 where
  pub copied :
      (j : ℕ)
      → w'.rdram.bytes j ≡ (
          if leb dram j && ltb j (dram + size)
          then cart_read_byte ((cart + (j - dram)) % 2 ^ 32) w.cart
          else w.rdram.bytes j)
  pub uncached : Invalidated dram size w.cache (some w'.cache)
  pub not_busy : has_bit 0 p'.status ≡ false
  pub done : has_bit 3 p'.status ≡ true
  pub interrupt : w'.mi ≡ Mi.raise pi_intr w.mi
  pub next_dram : p'.dram_addr ≡ (dram + size) % 2 ^ 32
  pub next_cart : p'.cart_addr ≡ (cart + size) % 2 ^ 32
  pub same_cart : w'.cart ≡ w.cart

-- With a block cache in order and at most 512 MiB of RDRAM, a DMA from the cartridge that ends
-- inside of RDRAM completes. It writes the cartridge's bytes to its range and no other byte,
-- leaves no valid cached block over that range and, below 256 KiB, the other blocks as they were,
-- advances both addresses, and raises the PI interrupt with the busy bit clear.
pub start_dma_to_rdram_lem :
    (p : Pi) (w : World)
    → IsValid w.cache
    → p.dram_addr / 2 * 2 + (p.rd_len % 2 ^ 24 + 1) ≤ w.rdram.size
    → w.rdram.size ≤ 2 ^ 29
    → (p' : Pi) × (w' : World) × (start_dma_to_rdram p w ≡ some (p', w'))
      × Transferred (p.dram_addr / 2 * 2) (p.rd_len % 2 ^ 24 + 1) (p.cart_addr / 2 * 2) p p' w w'
unfolding start_dma_to_rdram finish_dma has_bit
start_dma_to_rdram_lem p w v h fits =
    let size = p.rd_len % 2 ^ 24 + 1 in
    let dram = p.dram_addr / 2 * 2 in
    let cart = p.cart_addr / 2 * 2 in
    let i = notify_memory_write_lem dram size w.cache v (omega arith) in
    let (finished, mi) = finish_dma (advanced size p) w.mi in
    let copied = to_rdram_loop size 0 dram cart w.cart w.rdram in
    let w' : World = record w { rdram = copied; cache = i.after; mi = mi } in
    (
      finished,
      w',
      ap (λ r. with_cache finished (record w { rdram = copied; mi = mi }) r) i.returns,
      record {
        copied = λ j. ground (
          arith,
          (to_rdram_loop_lem size 0 dram cart w.cart w.rdram j (omega arith) (omega arith)).1,
        );
        uncached = subst (Invalidated dram size w.cache) i.returns i;
        not_busy = ground (
          arith,
          bit-set_bit 0 3 (clear_bit 0 (set_bit 0 p.status)),
          bit-clear_bit 0 0 (set_bit 0 p.status),
        );
        done = ground (arith, bit-set_bit 3 3 (clear_bit 0 (set_bit 0 p.status)));
        interrupt = refl;
        next_dram = refl;
        next_cart = refl;
        same_cart = refl;
      },
    )
