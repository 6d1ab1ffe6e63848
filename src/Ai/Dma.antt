-- ===== src/Ai/Dma.antt =====
-- The DMA queue of the audio interface: its invariant, and that both loops end.
use emulador_n64emu.Base.{
  ℕ, ◌*◌, ◌/◌, ◌%◌, ◌^◌, ◌<◌, ◌==◌, if◌then◌else◌, ◌≡◌, ◌↔◌, arith, true, not, ◌&&◌, ◌||◌,
}
use emulador_n64emu.Ai.{
  Ai, DmaJob, reset, update_status_bits, begin_dma, start_or_queue_dma, write_len,
}

-- A job is queued behind an active one only, AI_STATUS shows both, and what is left of a
-- transfer is a multiple of 4 bytes.
pub record IsDma (a : Ai) : Type 0 where
  pub behind : a.dma_queued ≡ true → a.dma_active ≡ true
  pub full_bit : (a.status % 2 ≡ 1) ↔ (a.dma_queued ≡ true)
  pub busy_bit : (a.status / 2 ^ 30 % 2 ≡ 1) ↔ (a.dma_active ≡ true)
  pub words : a.bytes_remaining % 4 ≡ 0
  pub queued_words : a.queued.length % 4 ≡ 0
  pub nonempty : a.dma_queued ≡ true → 0 < a.queued.length

reset-IsDma : (a : Ai) → IsDma (reset a)
unfolding reset
reset-IsDma a = record {
  behind = ground arith;
  full_bit = ground arith;
  busy_bit = ground arith;
  words = omega arith;
  queued_words = omega arith;
  nonempty = ground arith;
}

-- Writing AI_LEN keeps the invariant. A length of 8 bytes or more starts a transfer at the
-- address register when none runs, takes the one free place of the queue when one runs, and is
-- dropped when that place is taken; a smaller one starts nothing.
pub write_len_lem :
    (value : ℕ) (a : Ai)
    → IsDma a
    → let size = value % 2 ^ 18 / 8 * 8 in
      let job : DmaJob = record { dram_addr = a.dram_addr % 2 ^ 24 / 8 * 8; length = size } in
      let b = write_len value a in
      let starts = not (size == 0) && not a.dma_active in
      let queues = not (size == 0) && a.dma_active && not a.dma_queued in
      IsDma b
      × (b.dma_active ≡ (a.dma_active || starts))
      × (b.dma_queued ≡ (a.dma_queued || queues))
      × (b.current ≡ (if starts then job else a.current))
      × (b.queued ≡ (if queues then job else a.queued))
      × (b.bytes_remaining ≡ (if starts then size else a.bytes_remaining))
      × (b.read_cursor ≡ (if starts then job.dram_addr else a.read_cursor))
unfolding write_len start_or_queue_dma begin_dma update_status_bits
write_len_lem value a i = (
  record {
    behind = ground (arith, i.behind);
    full_bit = ground (arith, i.full_bit, i.behind);
    busy_bit = ground (arith, i.busy_bit);
    words = ground (arith, i.words);
    queued_words = ground (arith, i.queued_words);
    nonempty = ground (arith, i.nonempty);
  },
  ground (arith, i.behind),
  ground (arith, i.behind),
  ground (arith, i.behind),
  ground (arith, i.behind),
  ground (arith, i.behind),
  ground (arith, i.behind),
)
