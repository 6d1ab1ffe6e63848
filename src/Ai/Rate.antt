-- ===== src/Ai/Rate.antt =====
-- The sample rate and the cycles per frame that the DAC register gives.
use emulador_n64emu.Base.{ℕ, ◌+◌, ◌*◌, ◌/◌, ◌≤◌, ◌<◌, arith, low}
use native.Mathlib.Nat.{le-div_iff_mul-le, div-lt_iff_lt-mul}
use emulador_n64emu.Ai.{
  Ai, sample_rate, frame_cycles, frame_cycles_or_one, cpu_hz, reset, write_dac_rate, begin_dma,
  DmaJob,
}

-- The sample rate lies between 4 and 96 kHz, whatever the register holds.
pub sample_rate-bounds : (a : Ai) → (4000 ≤ sample_rate a) × (sample_rate a ≤ 96000)
unfolding sample_rate
sample_rate-bounds a = (ground arith, ground arith)

abbrev pub InRange : ℕ → Type 0
InRange n = (976 ≤ n) × (n ≤ 23437)

at_least : (k sr n : ℕ) → 0 < sr → k * sr ≤ n → k ≤ n / sr
at_least k sr n p h = (le-div_iff_mul-le p).1 h

at_most : (k sr n : ℕ) → 0 < sr → n < (k + 1) * sr → n / sr ≤ k
at_most k sr n p h = omega (arith, (div-lt_iff_lt-mul {k = sr} {x = n} {y = k + 1} p).1 h)

frame_bounds :
    (sr : ℕ) → 4000 ≤ sr → sr ≤ 96000 → (976 ≤ frame_cycles sr) × (frame_cycles sr ≤ 23437)
unfolding frame_cycles
frame_bounds sr p q =
    let lower = at_least 976 sr cpu_hz (omega arith) (omega arith) in
    let upper = at_most 23437 sr cpu_hz (omega arith) (omega arith) in (ground arith, ground arith)

frames-InRange : (a : Ai) → InRange (frame_cycles (sample_rate a))
frames-InRange a = let (low, high) = sample_rate-bounds a in frame_bounds (sample_rate a) low high

one_or_more-InRange : (a : Ai) → InRange (frame_cycles_or_one (sample_rate a))
unfolding frame_cycles_or_one
one_or_more-InRange a = let (low, high) = frames-InRange a in (ground arith, ground arith)

-- A frame takes between 976 and 23437 cycles after a reset, after a write of AI_DACRATE and from
-- the start of each transfer on, so the loop of `tick` moves on.
pub cycles_per_frame-bounds :
    (value : ℕ) (job : DmaJob) (a : Ai)
    → InRange (reset a).cycles_per_frame
      × InRange (write_dac_rate value a).cycles_per_frame
      × InRange (begin_dma job a).cycles_per_frame
unfolding reset write_dac_rate begin_dma
cycles_per_frame-bounds value job a =
    (frames-InRange _, one_or_more-InRange _, one_or_more-InRange _)
