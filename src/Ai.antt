-- ===== src/Ai.antt =====
-- src/ai/ai.cpp, include/n64/ai/ai.hpp: the audio interface, its two-deep DMA queue and the ring
-- of stereo frames that the host pulls from.
pub mod Ring
pub mod Dma
pub mod Played
pub mod Playback
pub mod Rate
mod Tests
use emulador_n64emu.Base.{
  ℕ, zero, suc, ◌+◌, ◌-◌, ◌*◌, ◌/◌, ◌%◌, ◌^◌, ◌≤◌, ◌<◌, min, max, bit_and, bit_or, bit_xor, ◌==◌,
  ltb, leb, if◌then◌else◌, ◌≡◌, ◌≢◌, ◌↔◌, ◌⊎◌, inl, inr, refl, sym, ap, ◌∙◌, subst, arith, Bool,
  Bool-cases, true, false, not, ◌&&◌, ◌||◌, Option, Option-cases, none, some, List, [], ◌∷◌, ◌++◌,
  map, length, get_or, set, replicate, ltb→lt, lt→ltb, leb→le, ==_iff, ==-ne, bit, has_bit, set_bit,
  clear_bit, low, ℕ_discrete, dec_lt, dec_le, update,
}
use emulador_n64emu.Mi
use emulador_n64emu.Mi.{Mi, ai_intr}
use emulador_n64emu.Rdram.{Rdram, load}

pub record DmaJob : Type 0 where
  pub dram_addr : ℕ
  pub length : ℕ

abbrev pub no_job : DmaJob
no_job = record { dram_addr = 0; length = 0 }

-- The six registers stand for `regs_`. `ring` holds sample `i` of `ring_` at `i`, as a `u16`;
-- `ring_r` and `ring_w` are the two atomics.
pub record Ai : Type 0 where
  pub dram_addr : ℕ
  pub len : ℕ
  pub control : ℕ
  pub status : ℕ
  pub dac_rate : ℕ
  pub bit_rate : ℕ
  pub dma_enabled : Bool
  pub dma_active : Bool
  pub dma_queued : Bool
  pub current : DmaJob
  pub queued : DmaJob
  pub bytes_remaining : ℕ
  pub cycle_accum : ℕ
  pub cycles_per_frame : ℕ
  pub read_cursor : ℕ
  pub ring : ℕ → ℕ
  pub ring_r : ℕ
  pub ring_w : ℕ
  pub samples_pushed : ℕ
  pub frames_dropped : ℕ
  pub dmas_completed : ℕ

abbrev pub cpu_hz : ℕ
cpu_hz = 93750000

abbrev dac_clock_hz : ℕ
dac_clock_hz = 48681812

abbrev default_sample_rate : ℕ
default_sample_rate = 32000

abbrev pub ring_frames : ℕ
ring_frames = 8192

-- A big-endian sample; the address is a `u32`.
unfoldable pub be_s16_from_rdram : Rdram → ℕ → ℕ
be_s16_from_rdram m addr = load addr m * 2 ^ 8 + load ((addr + 1) % 2 ^ 32) m

pub sample_rate : Ai → ℕ
sample_rate a =
    let dac = a.dac_rate % 2 ^ 14 in
    let rate = dac_clock_hz / (dac + 1) in
    if dac == 0
    then default_sample_rate
    else if ltb rate 4000
    then 4000
    else if ltb 96000 rate
    then 96000
    else rate

-- `(sr > 0) ? (kCpuHz / sr) : (kCpuHz / kDefaultSampleRate)`
pub frame_cycles : ℕ → ℕ
frame_cycles sr = if ltb 0 sr then cpu_hz / sr else cpu_hz / default_sample_rate

-- The same, raised to 1 where it is 0.
pub frame_cycles_or_one : ℕ → ℕ
frame_cycles_or_one sr = if frame_cycles sr == 0 then 1 else frame_cycles sr

unfoldable pub reset : Ai → Ai
reset a =
    let rate = dac_clock_hz / default_sample_rate - 1 in
    let cleared = record a {
      dram_addr = 0;
      len = 0;
      control = 0;
      status = 0;
      dac_rate = rate;
      bit_rate = 0xf;
      dma_enabled = false;
      dma_active = false;
      dma_queued = false;
      current = no_job;
      queued = no_job;
      bytes_remaining = 0;
      cycle_accum = 0;
      cycles_per_frame = 0;
      read_cursor = 0;
      ring = λ _. 0;
      ring_r = 0;
      ring_w = 0;
      samples_pushed = 0;
      frames_dropped = 0;
      dmas_completed = 0;
    } in
    record cleared { cycles_per_frame = frame_cycles (sample_rate cleared) }

-- `StatusFull` is bit 0 and `StatusBusy` bit 30.
pub update_status_bits : Ai → Ai
update_status_bits a = record a {
  status = (if a.dma_active then 2 ^ 30 else 0) + (if a.dma_queued then 1 else 0);
}

-- `offset & 0x1C`
abbrev pub reg_of : ℕ → ℕ
reg_of offset = offset / 4 % 8 * 4

unfoldable pub read : ℕ → Ai → ℕ
read offset a =
    if reg_of offset == 0x00
    then a.dram_addr % 2 ^ 24 / 8 * 8
    else if reg_of offset == 0x04
    then a.len % 2 ^ 18 / 8 * 8
    else if reg_of offset == 0x08
    then a.control % 2
    else if reg_of offset == 0x0c
    then a.status
    else if reg_of offset == 0x10
    then a.dac_rate % 2 ^ 14
    else if reg_of offset == 0x14
    then a.bit_rate % 2 ^ 4
    else 0

pub begin_dma : DmaJob → Ai → Ai
begin_dma job a =
    let started = update_status_bits (record a {
      current = job;
      dma_active = true;
      bytes_remaining = job.length;
      read_cursor = job.dram_addr;
      len = job.length;
    }) in
    record started { cycle_accum = 0; cycles_per_frame = frame_cycles_or_one (sample_rate started) }

pub start_or_queue_dma : ℕ → Ai → Ai
start_or_queue_dma length_reg a =
    let size = length_reg / 8 * 8 in
    let job : DmaJob = record { dram_addr = a.dram_addr % 2 ^ 24 / 8 * 8; length = size } in
    if size == 0
    then a
    else if not a.dma_active
    then begin_dma job a
    else if not a.dma_queued
    then update_status_bits (record a { queued = job; dma_queued = true })
    else a

pub write_dac_rate : ℕ → Ai → Ai
write_dac_rate value a =
    let written = record a { dac_rate = value % 2 ^ 14 } in
    record written { cycles_per_frame = frame_cycles_or_one (sample_rate written) }

pub write_len : ℕ → Ai → Ai
write_len value a =
    let size = value % 2 ^ 18 / 8 * 8 in start_or_queue_dma size (record a { len = size })

unfoldable pub write : ℕ → ℕ → Ai → Mi → Ai × Mi
write offset value a m =
    if reg_of offset == 0x0c
    then (a, Mi.clear ai_intr m)
    else if reg_of offset == 0x00
    then (record a { dram_addr = value % 2 ^ 24 / 8 * 8 }, m)
    else if reg_of offset == 0x08
    then (record a { control = value % 2; dma_enabled = not (value % 2 == 0) }, m)
    else if reg_of offset == 0x10
    then (write_dac_rate value a, m)
    else if reg_of offset == 0x14
    then (record a { bit_rate = value % 2 ^ 4 }, m)
    else if reg_of offset == 0x04
    then (write_len value a, m)
    else (a, m)

pub finish_current_dma : Ai → Mi → Ai × Mi
finish_current_dma a m =
    let stopped = update_status_bits (record a {
      dma_active = false;
      bytes_remaining = 0;
      len = 0;
      dmas_completed = (a.dmas_completed + 1) % 2 ^ 64;
    }) in
    (
      if stopped.dma_queued
          then begin_dma stopped.queued (record stopped { dma_queued = false; queued = no_job })
          else update_status_bits stopped,
      Mi.raise ai_intr m,
    )

-- The subtraction and the additions of a `size_t` wrap.
pub push_frame : ℕ → ℕ → Ai → Ai
push_frame left right a =
    let count = (a.ring_w + 2 ^ 64 - a.ring_r) % 2 ^ 64 in
    let pushed = record a { samples_pushed = (a.samples_pushed + 1) % 2 ^ 64 } in
    let slot = a.ring_w % ring_frames * 2 in
    if leb ring_frames count
    then record pushed { frames_dropped = (a.frames_dropped + 1) % 2 ^ 64 }
    else record pushed {
      ring = update (update a.ring slot left) (slot + 1) right;
      ring_w = (a.ring_w + 1) % 2 ^ 64;
    }

-- One frame of the transfer, the same in `tick` and in `complete_dma`.
pub play_frame : Rdram → Ai → Ai
play_frame mem a =
    let pushed =
      push_frame (be_s16_from_rdram mem a.read_cursor)
        (be_s16_from_rdram mem ((a.read_cursor + 2) % 2 ^ 32)) a in
    record pushed {
      read_cursor = (a.read_cursor + 4) % 2 ^ 32;
      bytes_remaining = a.bytes_remaining - 4;
    }

-- The loop of `complete_dma`, on fuel.
pub drain_loop : ℕ → Rdram → Ai → Ai
drain_loop zero mem a = a
drain_loop (suc n) mem a =
    let rest = drain_loop n mem (play_frame mem a) in if leb 4 a.bytes_remaining then rest else a

pub complete_dma : Rdram → Ai → Mi → Ai × Mi
complete_dma mem a m =
    if not a.dma_active
    then (a, m)
    else finish_current_dma
        (record (drain_loop (a.bytes_remaining / 4) mem a) { bytes_remaining = 0 }) m

pub tick_frame : Rdram → Ai → Ai
tick_frame mem a =
    let played = play_frame mem (record a { cycle_accum = a.cycle_accum - a.cycles_per_frame }) in
    record played { len = played.bytes_remaining % 2 ^ 18 / 8 * 8 }

-- The condition of the loop of `tick`.
abbrev pub is_due : Ai → Bool
is_due a = a.dma_active && leb a.cycles_per_frame a.cycle_accum && leb 4 a.bytes_remaining

-- The loop of `tick`, on fuel.
pub tick_loop : ℕ → Rdram → Ai → Ai
tick_loop zero mem a = a
tick_loop (suc n) mem a =
    let rest = tick_loop n mem (tick_frame mem a) in if is_due a then rest else a

pub tick : ℕ → Rdram → Ai → Mi → Ai × Mi
tick cpu_cycles mem a m =
    let played =
      tick_loop (a.bytes_remaining / 4) mem
        (record a { cycle_accum = (a.cycle_accum + cpu_cycles) % 2 ^ 64 }) in
    if not a.dma_active || (a.bytes_remaining == 0) || (a.cycles_per_frame == 0)
    then (a, m)
    else if played.dma_active && ltb played.bytes_remaining 4
    then finish_current_dma (record played { bytes_remaining = 0 }) m
    else (played, m)

-- The loop of `pull_frames` from frame `r` on: the pairs that go to the output.
pub copy_frames : (ℕ → ℕ) → ℕ → ℕ → List (ℕ × ℕ)
copy_frames ring r zero = []
copy_frames ring r (suc n) =
    (ring (r % ring_frames * 2), ring (r % ring_frames * 2 + 1)) ∷ copy_frames ring (r + 1) n

-- The frames given to the host, for an output span of `size` samples.
pub pull_frames : ℕ → Ai → List (ℕ × ℕ) × Ai
pull_frames size a =
    let n = min (size / 2) (a.ring_w - a.ring_r) in
    if size / 2 == 0
    then ([], a)
    else if leb a.ring_w a.ring_r
    then ([], a)
    else (copy_frames a.ring a.ring_r n, record a { ring_r = (a.ring_r + n) % 2 ^ 64 })

pub buffered_frames : Ai → ℕ
buffered_frames a = a.ring_w - a.ring_r
