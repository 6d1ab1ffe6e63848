-- ===== src/Ai/Playback.antt =====
-- The end of a transfer, and `tick` and `complete_dma` as a whole.
use emulador_n64emu.Base.{
  ℕ, ◌+◌, ◌*◌, ◌/◌, ◌%◌, ◌^◌, ◌≤◌, ◌<◌, ◌==◌, ltb, ◌≡◌, ◌⊎◌, inl, inr, refl, sym, ap, ◌∙◌, arith,
  Bool-cases, true, false, not, ◌&&◌, ◌||◌, ltb→lt, low, if_true, if_false,
}
use emulador_n64emu.Mi
use emulador_n64emu.Mi.{Mi, ai_intr}
use emulador_n64emu.Rdram.{Rdram}
use emulador_n64emu.Ai.{
  Ai, DmaJob, update_status_bits, begin_dma, finish_current_dma, drain_loop, complete_dma,
  tick_loop, tick,
}
use emulador_n64emu.Ai.Dma.{IsDma}
use emulador_n64emu.Ai.Ring.{IsRing, frames}
use emulador_n64emu.Ai.Played.{Played, frames_of, offer_all, tick_loop-Ticked, drain_loop-Played}

-- `finish_current_dma` counts the transfer, raises the AI interrupt, and starts the queued job if
-- there is one.
pub record Finished (a b : Ai) (m m' : Mi) : Type 0 where
  pub still : IsDma b
  pub counted : b.dmas_completed ≡ (a.dmas_completed + 1) % 2 ^ 64
  pub interrupt : m' ≡ Mi.raise ai_intr m
  pub next :
      a.dma_queued ≡ true
      → (b.dma_active ≡ true)
        × (b.dma_queued ≡ false)
        × (b.current ≡ a.queued)
        × (b.bytes_remaining ≡ a.queued.length)
  pub idle : a.dma_queued ≡ false → (b.dma_active ≡ false) × (b.bytes_remaining ≡ 0)

finish-Finished :
    (a : Ai) (m : Mi)
    → a.queued.length % 4 ≡ 0
    → let (b, m') = finish_current_dma a m in Finished a b m m'
unfolding finish_current_dma begin_dma update_status_bits
finish-Finished a m w = record {
  still = record {
    behind = ground arith;
    full_bit = ground arith;
    busy_bit = ground arith;
    words = ground arith;
    queued_words = ground arith;
    nonempty = ground arith;
  };
  counted = ground arith;
  interrupt = refl;
  next = λ q. (ground arith, ground arith, ground arith, ground arith);
  idle = λ q. (ground arith, ground arith);
}

-- and it leaves the output and the ring.
finish-output :
    (a : Ai) (m : Mi)
    → let b = (finish_current_dma a m).0 in
      (b.samples_pushed ≡ a.samples_pushed)
      × (b.ring ≡ a.ring)
      × (b.ring_r ≡ a.ring_r)
      × (b.ring_w ≡ a.ring_w)
unfolding finish_current_dma begin_dma update_status_bits
finish-output a m = (ground arith, ground arith, ground arith, ground arith)

-- A transfer that has played all its words: the words of RDRAM are offered to the queue, in order.
pub record PlayedOut (mem : Rdram) (a b : Ai) : Type 0 where
  pub ring_kept : IsRing b
  pub counted : b.samples_pushed % 2 ^ 64 ≡ (a.samples_pushed + a.bytes_remaining / 4) % 2 ^ 64
  pub queue : frames b ≡ offer_all (frames_of mem a.read_cursor (a.bytes_remaining / 4)) (frames a)

IsDma-Played : {mem : Rdram} {k : ℕ} {a b : Ai} → Played mem k a b → IsDma a → IsDma b
IsDma-Played p i = record {
  behind = λ q. p.same_active ∙ i.behind (sym p.same_queued ∙ q);
  full_bit = (
    λ e. p.same_queued ∙ i.full_bit.0 (ap (λ x. x % 2) (sym p.same_status) ∙ e),
    λ e. ap (λ x. x % 2) p.same_status ∙ i.full_bit.1 (sym p.same_queued ∙ e),
  );
  busy_bit = (
    λ e. p.same_active ∙ i.busy_bit.0 (ap (λ x. x / 2 ^ 30 % 2) (sym p.same_status) ∙ e),
    λ e. ap (λ x. x / 2 ^ 30 % 2) p.same_status ∙ i.busy_bit.1 (sym p.same_active ∙ e),
  );
  words = omega (arith, p.left, i.words);
  queued_words = ap (λ j. DmaJob.length j % 4) p.same_job ∙ i.queued_words;
  nonempty = λ q. rw p.same_job (i.nonempty (sym p.same_queued ∙ q));
}

-- The end of `tick` and of `complete_dma`, when less than a word is left.
module _ (mem : Rdram) (k : ℕ) (a d : Ai) (m : Mi) (i : IsDma a) (p : Played mem k a d)
    (less : d.bytes_remaining < 4) where
  abbrev stopped : Ai
  stopped = record d { bytes_remaining = 0 }

  finish-Played : let (b, m') = finish_current_dma stopped m in Finished a b m m'
  finish-Played =
      let job = ap (λ j. DmaJob.length j) p.same_job in
      let f = finish-Finished stopped m (ap (λ n. n % 4) job ∙ i.queued_words) in
      record {
        still = f.still;
        counted = f.counted ∙ ap (λ n. (n + 1) % 2 ^ 64) p.same_count;
        interrupt = f.interrupt;
        next =
            λ q. (let (x, y, z, w) = f.next (p.same_queued ∙ q) in (x, y, z ∙ p.same_job, w ∙ job));
        idle = λ q. f.idle (p.same_queued ∙ q);
      }

  all_played : k ≡ a.bytes_remaining / 4
  all_played = omega (arith, p.left, less, i.words)

  finish-PlayedOut : PlayedOut mem a (finish_current_dma stopped m).0
  finish-PlayedOut =
      let (samples, ring, from, to) = finish-output stopped m in
      let same_frames : frames (finish_current_dma stopped m).0 ≡ frames d =
        rw (ring, from, to) refl in
      let kept = p.ring_kept in
      record {
        ring_kept = record {
          ordered = omega (arith, from, to, kept.ordered);
          fits = omega (arith, from, to, kept.fits);
          no_wrap = omega (arith, to, kept.no_wrap);
        };
        counted = omega (arith, samples, p.counted, all_played);
        queue =
            same_frames
            ∙ p.queue
            ∙ ap (λ n. offer_all (frames_of mem a.read_cursor n) (frames a)) all_played;
      }

complete_dma-active :
    (mem : Rdram) (a : Ai) (m : Mi)
    → a.dma_active ≡ true
    → complete_dma mem a m
      ≡ finish_current_dma
          (record (drain_loop (a.bytes_remaining / 4) mem a) { bytes_remaining = 0 })
          m
unfolding complete_dma
complete_dma-active mem a m active = if_false _ _ (ap not active)

-- The state that the loop of `tick` leaves.
abbrev ticked : ℕ → Rdram → Ai → Ai
ticked cycles mem a =
    tick_loop (a.bytes_remaining / 4) mem
      (record a { cycle_accum = (a.cycle_accum + cycles) % 2 ^ 64 })

module _ (cycles : ℕ) (mem : Rdram) (a : Ai) (m : Mi) (active : a.dma_active ≡ true)
    (some_left : 0 < a.bytes_remaining) (some_cycles : 0 < a.cycles_per_frame) where
  runs : (not a.dma_active || (a.bytes_remaining == 0) || (a.cycles_per_frame == 0)) ≡ false
  runs = ground arith

  tick-played-out :
      (let d = ticked cycles mem a in (d.dma_active && ltb d.bytes_remaining 4) ≡ true)
      → tick cycles mem a m
        ≡ finish_current_dma (record (ticked cycles mem a) { bytes_remaining = 0 }) m
  unfolding tick
  tick-played-out less = if_false _ _ runs ∙ if_true _ _ less

  tick-goes-on :
      (let d = ticked cycles mem a in (d.dma_active && ltb d.bytes_remaining 4) ≡ false)
      → tick cycles mem a m ≡ (ticked cycles mem a, m)
  unfolding tick
  tick-goes-on more = if_false _ _ runs ∙ if_false _ _ more

-- While a transfer runs, with the invariants of the DMA and of the ring, and where the write cursor
-- does not wrap, `complete_dma` offers every word that is left, read from RDRAM in order, to the queue
-- of frames, counts them, and then finishes the transfer.
pub complete_dma_lem :
    (mem : Rdram) (a : Ai) (m : Mi)
    → IsDma a
    → IsRing a
    → a.ring_w + a.bytes_remaining / 4 < 2 ^ 64
    → a.dma_active ≡ true
    → let (b, m') = complete_dma mem a m in Finished a b m m' × PlayedOut mem a b
complete_dma_lem mem a m i ring room active =
    let n = a.bytes_remaining / 4 in
    let played = drain_loop-Played n mem a refl ring room in
    let less : (drain_loop n mem a).bytes_remaining < 4 = omega (arith, played.left) in
    rw (complete_dma-active mem a m active) (
      finish-Played mem n a (drain_loop n mem a) m i played less,
      finish-PlayedOut mem n a (drain_loop n mem a) m i played less,
    )

-- A transfer that goes on: its frames are paid with cycles, of which less than a frame's are left.
pub record GoesOn (mem : Rdram) (cycles : ℕ) (a b : Ai) : Type 0 where
  pub still : IsDma b
  pub active : b.dma_active ≡ true
  pub word_left : 4 ≤ b.bytes_remaining
  pub count : ℕ
  pub played : Played mem count a b
  pub paid : b.cycle_accum + count * a.cycles_per_frame ≡ a.cycle_accum + cycles
  pub spent : b.cycle_accum < a.cycles_per_frame

-- With the invariants of the DMA and of the ring, bytes left, a positive frame time, and sums of the
-- cycles and of the write cursor that do not wrap, a transfer that `tick` advances either goes on or
-- is finished. It goes on with at least one word left and no interrupt: as many frames as the cycles
-- pay for, read from RDRAM in order, are offered to the queue and counted, the read cursor and the
-- bytes move on by as many words, and less than a frame's cycles are left. It is finished when the
-- cycles pay for every word that is left and all are offered.
pub tick_lem :
    (cycles : ℕ) (mem : Rdram) (a : Ai) (m : Mi)
    → IsDma a
    → IsRing a
    → a.ring_w + a.bytes_remaining / 4 < 2 ^ 64
    → a.cycle_accum + cycles < 2 ^ 64
    → a.dma_active ≡ true
    → 0 < a.bytes_remaining
    → 0 < a.cycles_per_frame
    → let (b, m') = tick cycles mem a m in
      ((m' ≡ m) × GoesOn mem cycles a b)
      ⊎ (Finished a b m m'
          × PlayedOut mem a b
          × (a.bytes_remaining / 4 * a.cycles_per_frame ≤ a.cycle_accum + cycles))
tick_lem cycles mem a m i ring room no_wrap active some_left some_cycles =
    let n = a.bytes_remaining / 4 in
    let total = (a.cycle_accum + cycles) % 2 ^ 64 in
    let exact : total ≡ a.cycle_accum + cycles = omega (arith, no_wrap) in
    let begun : Ai = record a { cycle_accum = total } in
    let d = tick_loop n mem begun in
    let (t, ends) =
      tick_loop-Ticked n mem begun (omega arith)
        (record { ordered = ring.ordered; fits = ring.fits; no_wrap = ring.no_wrap }) room in
    let p = t.played in
    let q : Played mem t.count a d = record {
      same_active = p.same_active;
      same_queued = p.same_queued;
      same_job = p.same_job;
      same_status = p.same_status;
      same_count = p.same_count;
      left = p.left;
      cursor = p.cursor;
      counted = p.counted;
      ring_kept = p.ring_kept;
      written = p.written;
      queue = p.queue;
    } in
    let still_active : d.dma_active ≡ true = p.same_active ∙ active in
    elim (Bool-cases (ltb d.bytes_remaining 4)) [
      | inl low ↦
          (let less = ltb→lt _ _ low in
            let all = all_played mem t.count a d m i q less in
            let cost = ap (λ k. k * a.cycles_per_frame) all in
            inr (
              rw (tick-played-out cycles mem a m active some_left some_cycles (ground arith)) (
                finish-Played mem t.count a d m i q less,
                finish-PlayedOut mem t.count a d m i q less,
                omega (arith, t.paid, exact, cost),
              )))
      | inr more ↦ inl (
          rw (tick-goes-on cycles mem a m active some_left some_cycles (ground arith)) (
            refl,
            record {
              still = IsDma-Played q i;
              active = still_active;
              word_left = ground arith;
              count = t.count;
              played = q;
              paid = t.paid ∙ exact;
              spent = ground (arith, ends, t.same_speed);
            },
          ))
    ]
