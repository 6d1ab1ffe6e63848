-- ===== src/Vi/Frame.antt =====
-- The clock drives the line counter, and a frame comes after a bounded number of cycles.
use emulador_n64emu.Base.{
  ℕ, zero, suc, ◌+◌, ◌-◌, ◌*◌, ◌/◌, ◌%◌, ◌^◌, ◌≤◌, ◌<◌, ◌==◌, leb, ◌≡◌, ◌⊎◌, inl, inr, sym, ap, ◌∙◌,
  subst, arith, Bool, Bool-cases, true, false, not, ◌&&◌, ◌||◌, if_true, if_false,
}
use native.Mathlib.Nat.{le-div_iff_mul-le, div-lt_iff_lt-mul}
use emulador_n64emu.Mi.{Mi}
use emulador_n64emu.Vi.{
  Vi, even_line, v_intr, v_current, set_v_current_raw, raise_interrupt, wraps, next_line, move_line,
  match_line, line_step, tick_loop, tick, clear_frame_ready,
}

-- What a line does to the counter: it wraps and the frame is ready, or it goes on by two.
record Stepped (v w : Vi) : Type 0 where
  same_speed : w.cycles_per_line ≡ v.cycles_per_line
  same_lines : w.lines_per_frame ≡ v.lines_per_frame
  same_cycles : w.cycle_accum ≡ v.cycle_accum
  moved :
      (w.frame_ready ≡ true)
      ⊎ ((even_line (v_current w) ≡ even_line (v_current v) + 2)
          × (even_line (v_current w) ≤ even_line v.lines_per_frame))

move_line-Stepped : (v : Vi) → Stepped v (move_line v)
unfolding move_line next_line wraps v_current set_v_current_raw
move_line-Stepped v = elim (Bool-cases (wraps (even_line (v_current v + 2)) v)) [
  | inl e ↦ record {
    same_speed = ground arith;
    same_lines = ground arith;
    same_cycles = ground arith;
    moved = inl (ground arith);
  }
  | inr e ↦ record {
    same_speed = ground arith;
    same_lines = ground arith;
    same_cycles = ground arith;
    moved = inr (ground arith, ground arith);
  }
]

-- The comparison with VI_INTR changes the level of the interrupt only.
match_line-keeps :
    (line : ℕ) (v : Vi) (m : Mi)
    → (level : Bool) × ((match_line line v m).0 ≡ record v { interrupt_line = level })
unfolding match_line raise_interrupt
match_line-keeps line v m =
    elim (Bool-cases
      (not v.interrupt_line && not (even_line (v_intr v) == 0) && line == even_line (v_intr v))) [
        | inl e ↦ (true, ap {A = Vi × Mi} (λ p. p.0) (if_true _ _ e))
        | inr e ↦ (v.interrupt_line, ap {A = Vi × Mi} (λ p. p.0) (if_false _ _ e))
      ]

line_step-Stepped : (v : Vi) (m : Mi) → Stepped v (line_step v m).0
unfolding line_step v_current
line_step-Stepped v m =
    let s = move_line-Stepped v in
    let (level, e) = match_line-keeps (next_line v) (move_line v) m in
    subst (Stepped v) (sym e) (record {
      same_speed = s.same_speed;
      same_lines = s.same_lines;
      same_cycles = s.same_cycles;
      moved = s.moved;
    })

-- The cycles of one line are paid.
abbrev paid : Vi → Vi
paid v = record v { cycle_accum = v.cycle_accum - v.cycles_per_line }

-- A frame that is ready stays so.
line_step-ready : (v : Vi) (m : Mi) → v.frame_ready ≡ true → (line_step v m).0.frame_ready ≡ true
unfolding line_step move_line set_v_current_raw
line_step-ready v m h =
    let (level, e) = match_line-keeps (next_line v) (move_line v) m in
    ap (λ w. w.frame_ready) e ∙ ground (arith, h)

tick_loop-ready :
    (fuel : ℕ) (v : Vi) (m : Mi) → v.frame_ready ≡ true → (tick_loop fuel v m).0.frame_ready ≡ true
unfolding tick_loop
tick_loop-ready zero v m h = h
tick_loop-ready (suc fuel) v m h =
    let (w, m') = line_step (paid v) m in
    let rest = tick_loop-ready fuel w m' (line_step-ready (paid v) m h) in ground (arith, rest)

-- The loop ends by its own condition: less than a line of cycles is left.
tick_loop-spent :
    (fuel : ℕ) (v : Vi) (m : Mi)
    → 0 < v.cycles_per_line
    → v.cycle_accum < (fuel + 1) * v.cycles_per_line
    → (tick_loop fuel v m).0.cycle_accum < v.cycles_per_line
unfolding tick_loop
tick_loop-spent zero v m pos h = omega arith
tick_loop-spent (suc fuel) v m pos h =
    let (w, m') = line_step (paid v) m in
    let s = line_step-Stepped (paid v) m in
    let more : w.cycle_accum < (fuel + 1) * w.cycles_per_line =
      rw (s.same_speed, s.same_cycles) (omega arith) in
    let rest = tick_loop-spent fuel w m' (rw s.same_speed pos) more in
    ground (arith, rest, s.same_speed)

-- As many lines as are left of the frame make it ready.
tick_loop-frame :
    (n fuel : ℕ) (v : Vi) (m : Mi)
    → n * v.cycles_per_line ≤ v.cycle_accum
    → n ≤ fuel
    → even_line v.lines_per_frame < even_line (v_current v) + n * 2
    → 0 < n
    → (tick_loop fuel v m).0.frame_ready ≡ true
unfolding tick_loop v_current
tick_loop-frame zero fuel v m paid_for enough h pos = absurd (omega arith)
tick_loop-frame (suc n) zero v m paid_for enough h pos = absurd (omega arith)
tick_loop-frame (suc n) (suc fuel) v m paid_for enough h pos =
    let (w, m') = line_step (paid v) m in
    let s = line_step-Stepped (paid v) m in
    let go : leb v.cycles_per_line v.cycle_accum ≡ true = ground arith in
    let left : n * w.cycles_per_line ≤ w.cycle_accum =
      rw (s.same_speed, s.same_cycles) (omega arith) in
    rw (go, tick_loop)
      (elim s.moved [
        | inl ready ↦ tick_loop-ready fuel w m' ready
        | inr (next, fits) ↦
            tick_loop-frame n fuel w m' left (omega arith)
              (rw (next, s.same_lines) (omega (arith, h)))
              (omega (arith, next, fits, h, s.same_lines))
      ])

product_pos : (n c : ℕ) → 0 < n → 0 < c → 0 < n * c
product_pos zero c p q = absurd (omega arith)
product_pos (suc n) c p q = omega arith

-- With at least one cycle per line and a sum of cycles that does not wrap, a clock that runs for at
-- least one line, and for as many as a frame has from the even part of VI_CURRENT up to that of the
-- lines per frame, makes a frame ready. The loop of `tick` has then ended by its own condition, with
-- less than a line of cycles left.
pub clear_frame_ready-tick :
    (n cycles : ℕ) (v : Vi) (m : Mi)
    → 0 < n
    → 0 < v.cycles_per_line
    → n * v.cycles_per_line ≤ cycles
    → v.cycle_accum + cycles < 2 ^ 64
    → even_line v.lines_per_frame < even_line (v_current v) + n * 2
    → let v' = (tick cycles (clear_frame_ready v) m).0 in
      (v'.frame_ready ≡ true) × (v'.cycle_accum < v.cycles_per_line)
unfolding tick clear_frame_ready v_current
clear_frame_ready-tick n cycles v m pos speed long no_wrap h =
    let total = (v.cycle_accum + cycles) % 2 ^ 64 in
    let exact : total ≡ v.cycle_accum + cycles = omega (arith, no_wrap) in
    let started : Vi = record v { frame_ready = false; cycle_accum = total } in
    let some_lines : 1 ≤ cycles = omega (arith, product_pos n v.cycles_per_line pos speed) in
    let runs : (cycles == 0 || v.cycles_per_line == 0) ≡ false = ground arith in
    let fuel = total / v.cycles_per_line in
    let enough : n ≤ fuel = (le-div_iff_mul-le speed).1 (omega (arith, long, exact)) in
    let most : total < (fuel + 1) * v.cycles_per_line = (div-lt_iff_lt-mul speed).0 (omega arith) in
    rw (tick, runs)
      (
        tick_loop-frame n fuel started m (omega (arith, long, exact)) enough h pos,
        tick_loop-spent fuel started m speed most,
      )
