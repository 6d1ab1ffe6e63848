-- ===== src/Ai/Tests.antt =====
-- The audio interface at the start of a transfer.
use emulador_n64emu.Base.{
  ◌+◌, ◌*◌, ◌/◌, ◌%◌, ◌^◌, ◌≤◌, min, ◌==◌, ltb, if◌then◌else◌, ◌≡◌, ◌⊎◌, refl, arith, true, false,
  not, ◌&&◌, ◌||◌, [], ◌∷◌, ◌++◌, length,
}
use emulador_n64emu.Mi.{Mi}
use emulador_n64emu.Rdram.{Rdram}
use emulador_n64emu.Ai.{
  Ai, DmaJob, ring_frames, tick, complete_dma, write_len, push_frame, pull_frames, buffered_frames,
}
use emulador_n64emu.Ai.Ring.{IsRing, frames, push_frame-frames, pull_frames-frames}
use emulador_n64emu.Ai.Dma.{IsDma, write_len_lem}
use emulador_n64emu.Ai.Playback.{Finished, PlayedOut, GoesOn, tick_lem, complete_dma_lem}

abbrev silence : Rdram
silence = record { size = 64; bytes = λ i. i }

abbrev quiet : Mi
quiet = record { mode = 0; intr = 0; intr_mask = 4; line = false }

-- Eight bytes are left of a transfer, and another one is queued.
abbrev playing : Ai
playing = record {
  dram_addr = 0;
  len = 8;
  control = 1;
  status = 2 ^ 30 + 1;
  dac_rate = 1520;
  bit_rate = 15;
  dma_enabled = true;
  dma_active = true;
  dma_queued = true;
  current = record { dram_addr = 0; length = 8 };
  queued = record { dram_addr = 8; length = 16 };
  bytes_remaining = 8;
  cycle_accum = 0;
  cycles_per_frame = 2929;
  read_cursor = 0;
  ring = λ _. 0;
  ring_r = 0;
  ring_w = 2;
  samples_pushed = 2;
  frames_dropped = 0;
  dmas_completed = 0;
}

playing-IsDma : IsDma playing
playing-IsDma = record {
  behind = λ _. refl;
  full_bit = (λ _. refl, λ _. refl);
  busy_bit = (λ _. refl, λ _. refl);
  words = refl;
  queued_words = refl;
  nonempty = λ _. omega arith;
}

playing-IsRing : IsRing playing
playing-IsRing = record { ordered = omega arith; fits = omega arith; no_wrap = omega arith }

push_frame_example :
    let b = push_frame 5 6 playing in
    let room = ltb (length (frames playing)) ring_frames in
    IsRing b
    × (b.samples_pushed ≡ (playing.samples_pushed + 1) % 2 ^ 64)
    × (frames b ≡ (if room then frames playing ++ (5, 6) ∷ [] else frames playing))
    × (b.frames_dropped
        ≡ (if room then playing.frames_dropped else (playing.frames_dropped + 1) % 2 ^ 64))
push_frame_example = push_frame-frames 5 6 playing playing-IsRing (omega arith)

write_len_example :
    let size = 32 % 2 ^ 18 / 8 * 8 in
    let job : DmaJob = record { dram_addr = playing.dram_addr % 2 ^ 24 / 8 * 8; length = size } in
    let b = write_len 32 playing in
    let starts = not (size == 0) && not playing.dma_active in
    let queues = not (size == 0) && playing.dma_active && not playing.dma_queued in
    IsDma b
    × (b.dma_active ≡ (playing.dma_active || starts))
    × (b.dma_queued ≡ (playing.dma_queued || queues))
    × (b.current ≡ (if starts then job else playing.current))
    × (b.queued ≡ (if queues then job else playing.queued))
    × (b.bytes_remaining ≡ (if starts then size else playing.bytes_remaining))
    × (b.read_cursor ≡ (if starts then job.dram_addr else playing.read_cursor))
write_len_example = write_len_lem 32 playing playing-IsDma

complete_dma_example :
    let (b, m') = complete_dma silence playing quiet in
    Finished playing b quiet m' × PlayedOut silence playing b
complete_dma_example =
    complete_dma_lem silence playing quiet playing-IsDma playing-IsRing (omega arith) refl

pull_frames_example :
    let (out, b) = pull_frames 2 playing in
    IsRing b
    × (frames playing ≡ out ++ frames b)
    × (length out ≡ min (2 / 2) (length (frames playing)))
    × (buffered_frames b ≡ length (frames b))
pull_frames_example = pull_frames-frames 2 playing playing-IsRing

tick_example :
    let (b, m') = tick 3000 silence playing quiet in
    ((m' ≡ quiet) × GoesOn silence 3000 playing b)
    ⊎ (Finished playing b quiet m'
        × PlayedOut silence playing b
        × (playing.bytes_remaining / 4 * playing.cycles_per_frame ≤ playing.cycle_accum + 3000))
tick_example =
    tick_lem 3000 silence playing quiet playing-IsDma playing-IsRing (omega arith) (omega arith)
      refl (omega arith) (omega arith)
