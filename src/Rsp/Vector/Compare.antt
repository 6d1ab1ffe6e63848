-- ===== src/Rsp/Vector/Compare.antt =====
-- src/rcp/rsp/rsp_vector.cpp, `exec_vector`: sums with a carry, comparisons, and clipping.
use emulador_n64emu.Base.{
  ℕ, zero, suc, ◌+◌, ◌-◌, ◌%◌, ◌^◌, bit_and, bit_or, bit_xor, ◌==◌, ltb, leb, if◌then◌else◌, switch,
  Bool, true, false, not, ◌&&◌, ◌||◌, [], ◌∷◌, has_bit, set_bit,
}
use emulador_n64emu.Cpu.Word.{add64, sub64, is_negative, negate, less_signed}
use emulador_n64emu.Rsp.{VectorUnit}
use emulador_n64emu.Rsp.Lane.{signed_lane, lane_bits, signed_clamp, flag, set_flags}
use emulador_n64emu.Rsp.Vector.{Lanes, set_both}

abbrev carry_bit : ℕ → VectorUnit → ℕ
carry_bit lane u = if flag u.vco lane false then 1 else 0

unfoldable pub vadd_lane : ℕ → ℕ → ℕ → ℕ
vadd_lane carry s t = signed_clamp (add64 (add64 (signed_lane s) (signed_lane t)) carry)

unfoldable pub vadd : ℕ → Lanes → Lanes → VectorUnit → VectorUnit
vadd vd s t u = record (set_both vd (λ lane. vadd_lane (carry_bit lane u) (s lane) (t lane)) u) {
  vco = 0;
}

unfoldable pub vsub_lane : ℕ → ℕ → ℕ → ℕ
vsub_lane carry s t = signed_clamp (sub64 (sub64 (signed_lane s) (signed_lane t)) carry)

unfoldable pub vsub : ℕ → Lanes → Lanes → VectorUnit → VectorUnit
vsub vd s t u = record (set_both vd (λ lane. vsub_lane (carry_bit lane u) (s lane) (t lane)) u) {
  vco = 0;
}

unfoldable pub vabs_lane : ℕ → ℕ → ℕ
vabs_lane s t =
    let a = signed_lane s in
    let b = signed_lane t in
    if is_negative 64 a
    then lane_bits (if b == negate 64 0x8000 then 0x7fff else negate 64 b)
    else if less_signed 0 a
    then lane_bits b
    else 0

unfoldable pub vabs : ℕ → Lanes → Lanes → VectorUnit → VectorUnit
vabs vd s t u = set_both vd (λ lane. vabs_lane (s lane) (t lane)) u

unfoldable pub vaddc : ℕ → Lanes → Lanes → VectorUnit → VectorUnit
vaddc vd s t u = record (set_both vd (λ lane. (s lane + t lane) % 2 ^ 16) u) {
  vco =
      set_flags 8 0 (λ lane. false) true
        (set_flags 8 0 (λ lane. ltb 0xffff (s lane + t lane)) false u.vco);
}

unfoldable pub vsubc : ℕ → Lanes → Lanes → VectorUnit → VectorUnit
vsubc vd s t u = record (set_both vd (λ lane. (s lane + 2 ^ 16 - t lane) % 2 ^ 16) u) {
  vco =
      set_flags 8 0 (λ lane. not (s lane == t lane)) true
        (set_flags 8 0 (λ lane. ltb (s lane) (t lane)) false u.vco);
}

-- The condition of VLT, VEQ, VNE and VGE on one lane.
unfoldable pub compare_lane : ℕ → Bool → Bool → ℕ → ℕ → Bool
compare_lane function carry ne s t =
    let a = signed_lane s in
    let b = signed_lane t in
    switch function
      ((0x20, less_signed a b || (a == b && ne && carry))
        ∷ (0x21, (a == b) && not ne)
        ∷ (0x22, not (a == b) || ne)
        ∷ (0x23, less_signed b a || (a == b && not (ne && carry)))
        ∷ [])
      false

unfoldable pub compare_lanes : ℕ → ℕ → Lanes → Lanes → VectorUnit → VectorUnit
compare_lanes function vd s t u =
    let holds = λ (lane : ℕ).
      compare_lane function (flag u.vco lane false) (flag u.vco lane true) (s lane) (t lane) in
    record (set_both vd (λ lane. if holds lane then s lane else t lane) u) {
      vcc = set_flags 8 0 holds false 0;
      vco = 0;
      vce = 0;
    }

-- What a clipping instruction finds for one lane.
pub record Clip : Type 0 where
  pub is_low : Bool
  pub is_high : Bool
  pub value : ℕ

abbrev pub minus16 : ℕ → ℕ
minus16 x = (2 ^ 16 - x) % 2 ^ 16

unfoldable pub vcl_lane : ℕ → ℕ → ℕ → VectorUnit → Clip
vcl_lane lane a b u =
    let sign = flag u.vco lane false in
    let equal = not (flag u.vco lane true) in
    let adjusted = if sign then minus16 b else b in
    let low_zero = a == adjusted in
    let unsigned_zero = ltb (a + b) 0x1_0000 in
    let extension = has_bit lane u.vce in
    let extended_low =
      low_zero && unsigned_zero && not extension || ((low_zero || unsigned_zero) && extension) in
    let is_low = if equal && sign then extended_low else flag u.vcc lane false in
    let is_high = if equal && not sign then leb adjusted a else flag u.vcc lane true in
    record {
      is_low = is_low;
      is_high = is_high;
      value = if (if sign then is_low else is_high) then adjusted else a;
    }

-- The flags of VCC from the clips of the lanes.
abbrev clip_flags : (ℕ → Clip) → ℕ → ℕ
clip_flags clip vcc =
    set_flags 8 0 (λ lane. (clip lane).is_high) true
      (set_flags 8 0 (λ lane. (clip lane).is_low) false vcc)

unfoldable pub vcl : ℕ → Lanes → Lanes → VectorUnit → VectorUnit
vcl vd s t u =
    let clip = λ (lane : ℕ). vcl_lane lane (s lane) (t lane) u in
    record (set_both vd (λ lane. (clip lane).value) u) {
      vcc = clip_flags clip u.vcc;
      vco = 0;
      vce = 0;
    }

-- The signs of the two lanes differ.
abbrev signs_differ : ℕ → ℕ → Bool
signs_differ s t = has_bit 15 (bit_xor s t)

abbrev complement16 : ℕ → ℕ
complement16 x = 2 ^ 16 - 1 - x

unfoldable pub vch_extension : ℕ → ℕ → Bool
vch_extension s t = signs_differ s t && (signed_lane s == signed_lane (complement16 t))

unfoldable pub vch_adjusted : ℕ → ℕ → ℕ
vch_adjusted s t =
    if signs_differ s t
    then if t == 0x8000 then complement16 t else (complement16 t + 1) % 2 ^ 16
    else t

unfoldable pub vch_equal : ℕ → ℕ → Bool
vch_equal s t =
    (signed_lane s == signed_lane (vch_adjusted s t)) && not (t == 0x8000) || vch_extension s t

unfoldable pub vch_lane : ℕ → ℕ → Clip
vch_lane s t =
    let sign = signs_differ s t in
    let adjusted = vch_adjusted s t in
    let difference = signed_lane ((adjusted + 2 ^ 16 - s) % 2 ^ 16) in
    let high_left = if sign then negate 64 1 else signed_lane s in
    let is_low = if sign then not (is_negative 64 difference) else is_negative 64 (signed_lane t) in
    let is_high = not (less_signed high_left (signed_lane t)) in
    record {
      is_low = is_low;
      is_high = is_high;
      value = if (if sign then is_low else is_high) then adjusted else s;
    }

-- The loop that sets the bits of VCE.
unfoldable pub set_extensions : ℕ → ℕ → (ℕ → Bool) → ℕ → ℕ
set_extensions zero lane extension vce = vce
set_extensions (suc left) lane extension vce =
    set_extensions left (lane + 1) extension (if extension lane then set_bit lane vce else vce)

unfoldable pub vch : ℕ → Lanes → Lanes → VectorUnit → VectorUnit
vch vd s t u =
    let clip = λ (lane : ℕ). vch_lane (s lane) (t lane) in
    record (set_both vd (λ lane. (clip lane).value) u) {
      vcc = clip_flags clip 0;
      vco =
          set_flags 8 0 (λ lane. not (vch_equal (s lane) (t lane))) true
            (set_flags 8 0 (λ lane. signs_differ (s lane) (t lane)) false 0);
      vce = set_extensions 8 0 (λ lane. vch_extension (s lane) (t lane)) 0;
    }

unfoldable pub vcr_lane : ℕ → ℕ → Clip
vcr_lane s t =
    let sign = signs_differ s t in
    let mask = if sign then 0xffff else 0 in
    let low_limit = signed_lane (complement16 (bit_and s mask)) in
    let high_limit = signed_lane (bit_or s mask) in
    let is_low = not (less_signed low_limit (signed_lane t)) in
    let is_high = not (less_signed high_limit (signed_lane t)) in
    record {
      is_low = is_low;
      is_high = is_high;
      value = if (if sign then is_low else is_high) then bit_xor t mask else s;
    }

unfoldable pub vcr : ℕ → Lanes → Lanes → VectorUnit → VectorUnit
vcr vd s t u =
    let clip = λ (lane : ℕ). vcr_lane (s lane) (t lane) in
    record (set_both vd (λ lane. (clip lane).value) u) { vcc = clip_flags clip 0; vco = 0; vce = 0 }
