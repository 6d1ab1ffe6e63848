-- ===== src/Ai/Played.antt =====
-- What the frames that a transfer plays change, and that both loops end.
use emulador_n64emu.Base.{
  ℕ, zero, suc, ◌+◌, ◌-◌, ◌*◌, ◌/◌, ◌%◌, ◌^◌, ◌≤◌, ◌<◌, ltb, leb, if◌then◌else◌, ◌≡◌, inl, inr,
  refl, ap, ◌∙◌, arith, Bool-cases, true, false, List, [], ◌∷◌, ◌++◌, length,
}
use emulador_n64emu.Rdram.{Rdram, load}
use emulador_n64emu.Ai.{
  Ai, ring_frames, be_s16_from_rdram, push_frame, play_frame, drain_loop, tick_frame, is_due,
  tick_loop,
}
use emulador_n64emu.Ai.Ring.{IsRing, frames, push_frame-frames}

-- The sample at an address, the high byte first, and the `n` frames of two samples from there on.
abbrev pub sample_at : Rdram → ℕ → ℕ
sample_at mem addr = load addr mem * 256 + load ((addr + 1) % 2 ^ 32) mem

abbrev pub frames_of : Rdram → ℕ → ℕ → List (ℕ × ℕ)
frames_of mem addr zero = []
frames_of mem addr (suc n) =
    (sample_at mem addr, sample_at mem ((addr + 2) % 2 ^ 32))
    ∷ frames_of mem ((addr + 4) % 2 ^ 32) n

-- A queue of at most 8192 frames, which drops what is offered when it is full.
abbrev pub offer : ℕ × ℕ → List (ℕ × ℕ) → List (ℕ × ℕ)
offer f q = if ltb (length q) ring_frames then q ++ f ∷ [] else q

abbrev pub offer_all : List (ℕ × ℕ) → List (ℕ × ℕ) → List (ℕ × ℕ)
offer_all [] q = q
offer_all (f ∷ fs) q = offer_all fs (offer f q)

-- What `k` frames of a transfer change: they are those of RDRAM from the read cursor on.
pub record Played (mem : Rdram) (k : ℕ) (a b : Ai) : Type 0 where
  pub same_active : b.dma_active ≡ a.dma_active
  pub same_queued : b.dma_queued ≡ a.dma_queued
  pub same_job : b.queued ≡ a.queued
  pub same_status : b.status ≡ a.status
  pub same_count : b.dmas_completed ≡ a.dmas_completed
  pub left : b.bytes_remaining + k * 4 ≡ a.bytes_remaining
  pub cursor : b.read_cursor % 2 ^ 32 ≡ (a.read_cursor + k * 4) % 2 ^ 32
  pub counted : b.samples_pushed % 2 ^ 64 ≡ (a.samples_pushed + k) % 2 ^ 64
  pub ring_kept : IsRing b
  pub written : b.ring_w ≤ a.ring_w + k
  pub queue : frames b ≡ offer_all (frames_of mem a.read_cursor k) (frames a)

pub Played-refl : (mem : Rdram) (a : Ai) → IsRing a → Played mem 0 a a
Played-refl mem a i = record {
  same_active = refl;
  same_queued = refl;
  same_job = refl;
  same_status = refl;
  same_count = refl;
  left = omega arith;
  cursor = omega arith;
  counted = omega arith;
  ring_kept = i;
  written = omega arith;
  queue = refl;
}

-- One frame, which `play_frame` and `tick_frame` play.
record PlayedFrame (mem : Rdram) (a b : Ai) : Type 0 where
  same_active : b.dma_active ≡ a.dma_active
  same_queued : b.dma_queued ≡ a.dma_queued
  same_job : b.queued ≡ a.queued
  same_status : b.status ≡ a.status
  same_count : b.dmas_completed ≡ a.dmas_completed
  left : b.bytes_remaining ≡ a.bytes_remaining - 4
  cursor : b.read_cursor ≡ (a.read_cursor + 4) % 2 ^ 32
  counted : b.samples_pushed ≡ (a.samples_pushed + 1) % 2 ^ 64
  ring_kept : IsRing b
  written : b.ring_w ≤ a.ring_w + 1
  queue :
      frames b
      ≡ offer (sample_at mem a.read_cursor, sample_at mem ((a.read_cursor + 2) % 2 ^ 32)) (frames a)

PlayedFrame-Played :
    {mem : Rdram} {k : ℕ} {a b c : Ai}
    → 4 ≤ a.bytes_remaining
    → PlayedFrame mem a b
    → Played mem k b c
    → Played mem (suc k) a c
PlayedFrame-Played {mem} {k} {a} {b} h p q = record {
  same_active = q.same_active ∙ p.same_active;
  same_queued = q.same_queued ∙ p.same_queued;
  same_job = q.same_job ∙ p.same_job;
  same_status = q.same_status ∙ p.same_status;
  same_count = q.same_count ∙ p.same_count;
  left = omega (arith, q.left, p.left, h);
  cursor = omega (arith, q.cursor, p.cursor);
  counted = omega (arith, q.counted, p.counted);
  ring_kept = q.ring_kept;
  written = omega (arith, q.written, p.written);
  queue =
      q.queue
      ∙ ap (λ addr. offer_all (frames_of mem addr k) (frames b)) p.cursor
      ∙ ap (offer_all (frames_of mem ((a.read_cursor + 4) % 2 ^ 32) k)) p.queue;
}

-- What the push of a frame leaves of the transfer.
module _ (left right : ℕ) (a : Ai) where
  push_frame-transfer :
      let b = push_frame left right a in
      (b.dma_active ≡ a.dma_active)
      × (b.dma_queued ≡ a.dma_queued)
      × (b.queued ≡ a.queued)
      × (b.status ≡ a.status)
      × (b.dmas_completed ≡ a.dmas_completed)
  unfolding push_frame
  push_frame-transfer = (ground arith, ground arith, ground arith, ground arith, ground arith)

  push_frame-ring_w : (push_frame left right a).ring_w ≤ a.ring_w + 1
  unfolding push_frame
  push_frame-ring_w = ground arith

play_frame-PlayedFrame :
    (mem : Rdram) (a : Ai) → IsRing a → a.ring_w + 1 < 2 ^ 64 → PlayedFrame mem a (play_frame mem a)
unfolding play_frame be_s16_from_rdram
play_frame-PlayedFrame mem a i h =
    let l = sample_at mem a.read_cursor in
    let r = sample_at mem ((a.read_cursor + 2) % 2 ^ 32) in
    let (kept, counted, queue, dropped) = push_frame-frames l r a i h in
    let (active, queued, job, status, count) = push_frame-transfer l r a in
    record {
      same_active = active;
      same_queued = queued;
      same_job = job;
      same_status = status;
      same_count = count;
      left = refl;
      cursor = refl;
      counted = counted;
      ring_kept = record { ordered = kept.ordered; fits = kept.fits; no_wrap = kept.no_wrap };
      written = push_frame-ring_w l r a;
      queue = queue;
    }

tick_frame-PlayedFrame :
    (mem : Rdram) (a : Ai) → IsRing a → a.ring_w + 1 < 2 ^ 64 → PlayedFrame mem a (tick_frame mem a)
unfolding tick_frame
tick_frame-PlayedFrame mem a i h =
    let paid : Ai = record a { cycle_accum = a.cycle_accum - a.cycles_per_frame } in
    let p =
      play_frame-PlayedFrame mem paid
        (record { ordered = i.ordered; fits = i.fits; no_wrap = i.no_wrap }) h in
    let ring = p.ring_kept in
    record {
      same_active = p.same_active;
      same_queued = p.same_queued;
      same_job = p.same_job;
      same_status = p.same_status;
      same_count = p.same_count;
      left = p.left;
      cursor = p.cursor;
      counted = p.counted;
      ring_kept = record { ordered = ring.ordered; fits = ring.fits; no_wrap = ring.no_wrap };
      written = p.written;
      queue = p.queue;
    }

-- The cycles of a frame are paid.
tick_frame-cycles :
    (mem : Rdram) (a : Ai)
    → let b = tick_frame mem a in
      (b.cycle_accum ≡ a.cycle_accum - a.cycles_per_frame)
      × (b.cycles_per_frame ≡ a.cycles_per_frame)
unfolding tick_frame play_frame push_frame
tick_frame-cycles mem a = (ground arith, ground arith)

-- The frames that `tick` plays, with the cycles that they cost.
pub record Ticked (mem : Rdram) (a b : Ai) : Type 0 where
  pub count : ℕ
  pub played : Played mem count a b
  pub paid : b.cycle_accum + count * a.cycles_per_frame ≡ a.cycle_accum
  pub same_speed : b.cycles_per_frame ≡ a.cycles_per_frame

-- With fuel for each word that is left the loop of `tick` ends by its own condition.
pub tick_loop-Ticked :
    (n : ℕ) (mem : Rdram) (a : Ai)
    → a.bytes_remaining / 4 ≤ n
    → IsRing a
    → a.ring_w + n < 2 ^ 64
    → Ticked mem a (tick_loop n mem a) × (is_due (tick_loop n mem a) ≡ false)
unfolding tick_loop
tick_loop-Ticked zero mem a h i w = (
  record { count = 0; played = Played-refl mem a i; paid = omega arith; same_speed = refl },
  ground arith,
)
tick_loop-Ticked (suc n) mem a h i w = elim (Bool-cases (is_due a)) [
  | inr over ↦ rw over (
    record { count = 0; played = Played-refl mem a i; paid = omega arith; same_speed = refl },
    over,
  )
  | inl due ↦
      (let first = tick_frame-PlayedFrame mem a i (omega (arith, w)) in
        let (cost, speed) = tick_frame-cycles mem a in
        let enough : 4 ≤ a.bytes_remaining = ground arith in
        let affordable : a.cycles_per_frame ≤ a.cycle_accum = ground arith in
        let (rest, ends) =
          tick_loop-Ticked n mem (tick_frame mem a) (omega (arith, first.left, h)) first.ring_kept
            (omega (arith, first.written, w)) in
        let each : rest.count * (tick_frame mem a).cycles_per_frame
            ≡ rest.count * a.cycles_per_frame =
          ap (λ c. rest.count * c) speed in
        rw due (
          record {
            count = suc rest.count;
            played = PlayedFrame-Played enough first rest.played;
            paid = omega (arith, rest.paid, each, cost, affordable);
            same_speed = rest.same_speed ∙ speed;
          },
          ends,
        ))
]

pub drain_loop-Played :
    (n : ℕ) (mem : Rdram) (a : Ai)
    → a.bytes_remaining / 4 ≡ n
    → IsRing a
    → a.ring_w + n < 2 ^ 64
    → Played mem n a (drain_loop n mem a)
unfolding drain_loop
drain_loop-Played zero mem a h i w = Played-refl mem a i
drain_loop-Played (suc n) mem a h i w =
    let first = play_frame-PlayedFrame mem a i (omega (arith, w)) in
    let enough : 4 ≤ a.bytes_remaining = omega (arith, h) in
    let more : leb 4 a.bytes_remaining ≡ true = ground (arith, enough) in
    let rest =
      drain_loop-Played n mem (play_frame mem a) (omega (arith, first.left, h)) first.ring_kept
        (omega (arith, first.written, w)) in
    rw more (PlayedFrame-Played enough first rest)
