-- ===== src/Cpu/Sound/Special.antt =====
-- The instructions that the function field chooses keep the widths.
use emulador_n64emu.Base.{
  ℕ, ◌-◌, ◌^◌, ◌<◌, bit_and-lt, bit_or-lt, bit_xor-lt, no_more, ◌▷◌, arith, Bool,
}
use emulador_n64emu.Cpu.{Cpu}
use emulador_n64emu.Cpu.Word.{rd, sext32, is_negative}
use emulador_n64emu.Cpu.Word.Size.{
  sext32-lt, add64-lt, sub64-lt, div-lt, mod-lt, shift_right_signed-lt, add_overflow_s64-lt,
  sub_overflow_s64-lt, mult_u64-lt, mult_s64-lt, quotient_signed-lt, remainder_signed-lt,
  truncate-lt,
}
use emulador_n64emu.Cpu.ExcCode.{tr}
use emulador_n64emu.Cpu.Gpr.{rs64, rt64}
use emulador_n64emu.Cpu.Special.{
  shift32, jump_and_move, shift64, div_s32, div_u32, div_s64, div_u64, multiply_divide,
  arithmetic32, logic, arithmetic64, trap, shift64_by_field, exec_special,
}
use emulador_n64emu.Cpu.Sound.{IsSound, IsSound-if, IsSound-switch, if-lt, set_high_low}
use emulador_n64emu.Cpu.Sound.Gpr.{
  rs64-lt, rt64-lt, write_gpr-IsSound, branch_abs-IsSound, link-IsSound, raise-IsSound,
  raise_if-IsSound, reserved-IsSound, write_checked-IsSound, write_checked32-IsSound, flag-lt,
}

complement-lt : (x : ℕ) → 2 ^ 64 - 1 - x < 2 ^ 64
complement-lt x = omega arith

module _ (i : ℕ) (c other : Cpu) (s : IsSound c) (t : IsSound other) where
  shift32-IsSound : IsSound (shift32 other i c)
  unfolding shift32
  shift32-IsSound =
      let w = λ (v : ℕ). write_gpr-IsSound (rd i) (sext32 v) c (sext32-lt v) s in
      IsSound-switch _ _ _ (w _ ▷ w _ ▷ w _ ▷ w _ ▷ w _ ▷ w _ ▷ no_more) t

  jump_and_move-IsSound : IsSound (jump_and_move other i c)
  unfolding jump_and_move
  jump_and_move-IsSound =
      IsSound-switch _ _ _
        (branch_abs-IsSound _ c s
          ▷ branch_abs-IsSound _ _ (link-IsSound _ c s)
          ▷ raise-IsSound _ c s
          ▷ raise-IsSound _ c s
          ▷ s
          ▷ write_gpr-IsSound (rd i) c.hi c s.sized.high s
          ▷ record { sized = set_high_low s.sized _ _ (rs64-lt i c s) s.sized.low_word }
          ▷ write_gpr-IsSound (rd i) c.lo c s.sized.low_word s
          ▷ record { sized = set_high_low s.sized _ _ s.sized.high (rs64-lt i c s) }
          ▷ no_more)
        t

  shift64-IsSound : IsSound (shift64 other i c)
  unfolding shift64
  shift64-IsSound =
      let w = λ (v : ℕ) (h : v < 2 ^ 64). write_gpr-IsSound (rd i) v c h s in
      let b = rt64-lt i c s in
      IsSound-switch _ _ _
        (w _ (truncate-lt _) ▷ w _ (div-lt _ _ b) ▷ w _ (shift_right_signed-lt _ _ b) ▷ no_more) t

  logic-IsSound : IsSound (logic other i c)
  unfolding logic
  logic-IsSound =
      let a = rs64-lt i c s in
      let b = rt64-lt i c s in
      let w = λ (v : ℕ) (h : v < 2 ^ 64). write_gpr-IsSound (rd i) v c h s in
      IsSound-switch _ _ _
        (w _ (bit_and-lt 64 _ _ a b)
          ▷ w _ (bit_or-lt 64 _ _ a b)
          ▷ w _ (bit_xor-lt 64 _ _ a b)
          ▷ w _ (complement-lt _)
          ▷ w _ (flag-lt _)
          ▷ w _ (flag-lt _)
          ▷ no_more)
        t

  arithmetic32-IsSound : IsSound (arithmetic32 other i c)
  unfolding arithmetic32
  arithmetic32-IsSound =
      let w = λ (v : ℕ). write_gpr-IsSound (rd i) (sext32 v) c (sext32-lt v) s in
      let checked = λ (r : Bool × ℕ). write_checked32-IsSound r (rd i) c s in
      IsSound-switch _ _ _ (checked _ ▷ w _ ▷ checked _ ▷ w _ ▷ no_more) t

  arithmetic64-IsSound : IsSound (arithmetic64 other i c)
  unfolding arithmetic64
  arithmetic64-IsSound =
      let w = λ (v : ℕ) (h : v < 2 ^ 64). write_gpr-IsSound (rd i) v c h s in
      let checked = λ (r : Bool × ℕ) (h : r.1 < 2 ^ 64). write_checked-IsSound r (rd i) c h s in
      IsSound-switch _ _ _
        (checked _ (add_overflow_s64-lt _ _)
          ▷ w _ (add64-lt _ _)
          ▷ checked _ (sub_overflow_s64-lt _ _)
          ▷ w _ (sub64-lt _ _)
          ▷ no_more)
        t

  trap-IsSound : IsSound (trap other i c)
  unfolding trap
  trap-IsSound =
      let r = λ (b : Bool). raise_if-IsSound b tr c s in
      IsSound-switch _ _ _ (r _ ▷ r _ ▷ r _ ▷ r _ ▷ r _ ▷ r _ ▷ no_more) t

  shift64_by_field-IsSound : IsSound (shift64_by_field other i c)
  unfolding shift64_by_field
  shift64_by_field-IsSound =
      let w = λ (v : ℕ) (h : v < 2 ^ 64). write_gpr-IsSound (rd i) v c h s in
      let b = rt64-lt i c s in
      IsSound-switch _ _ _
        (w _ (truncate-lt _)
          ▷ w _ (div-lt _ _ b)
          ▷ w _ (shift_right_signed-lt _ _ b)
          ▷ w _ (truncate-lt _)
          ▷ w _ (div-lt _ _ b)
          ▷ w _ (shift_right_signed-lt _ _ b)
          ▷ no_more)
        t

module _ (c : Cpu) (s : IsSound c) where
  hi_lo-IsSound : (h l : ℕ) → h < 2 ^ 64 → l < 2 ^ 64 → IsSound (record c { hi = h; lo = l })
  hi_lo-IsSound h l p q = record { sized = set_high_low s.sized h l p q }

  div_s32-IsSound : (a b : ℕ) → IsSound (div_s32 a b c)
  unfolding div_s32
  div_s32-IsSound a b =
      let words = λ (h l : ℕ). hi_lo-IsSound (sext32 h) (sext32 l) (sext32-lt h) (sext32-lt l) in
      IsSound-if _ _ _ (words _ _)
        (IsSound-if _ _ _ (hi_lo-IsSound 0 _ (omega arith) (sext32-lt _)) (words _ _))

  div_u32-IsSound : (a b : ℕ) → IsSound (div_u32 a b c)
  unfolding div_u32
  div_u32-IsSound a b =
      let words = λ (h l : ℕ). hi_lo-IsSound (sext32 h) (sext32 l) (sext32-lt h) (sext32-lt l) in
      IsSound-if _ _ _ (words _ _) (words _ _)

  div_s64-IsSound : (a b : ℕ) → a < 2 ^ 64 → IsSound (div_s64 a b c)
  unfolding div_s64
  div_s64-IsSound a b h =
      IsSound-if _ _ _
        (hi_lo-IsSound a _ h
          (if-lt (2 ^ 64) (is_negative 64 a) 1 (2 ^ 64 - 1) (omega arith) (omega arith)))
        (IsSound-if _ _ _ (hi_lo-IsSound 0 a (omega arith) h)
          (hi_lo-IsSound _ _ (remainder_signed-lt a b h) (quotient_signed-lt a b h)))

  div_u64-IsSound : (a b : ℕ) → a < 2 ^ 64 → IsSound (div_u64 a b c)
  unfolding div_u64
  div_u64-IsSound a b h =
      IsSound-if _ _ _ (hi_lo-IsSound a (2 ^ 64 - 1) h (omega arith))
        (hi_lo-IsSound _ _ (mod-lt a b h) (div-lt a b h))

  multiply_divide-IsSound :
      (i : ℕ) (other : Cpu) → IsSound other → IsSound (multiply_divide other i c)
  unfolding multiply_divide
  multiply_divide-IsSound i other t =
      let a = rs64-lt i c s in
      let signed = mult_s64-lt (rs64 i c) (rt64 i c) in
      let unsigned = mult_u64-lt (rs64 i c) (rt64 i c) in
      let words = λ (h l : ℕ). hi_lo-IsSound (sext32 h) (sext32 l) (sext32-lt h) (sext32-lt l) in
      IsSound-switch _ _ _
        (words _ _
          ▷ words _ _
          ▷ div_s32-IsSound _ _
          ▷ div_u32-IsSound _ _
          ▷ hi_lo-IsSound _ _ signed.0 signed.1
          ▷ hi_lo-IsSound _ _ unsigned.0 unsigned.1
          ▷ div_s64-IsSound _ _ a
          ▷ div_u64-IsSound _ _ a
          ▷ no_more)
        t

pub exec_special-IsSound : (i : ℕ) (c : Cpu) → IsSound c → IsSound (exec_special i c)
unfolding exec_special
exec_special-IsSound i c s =
    let wide = shift64_by_field-IsSound i c _ s (reserved-IsSound c s) in
    let compare = arithmetic64-IsSound i c _ s (trap-IsSound i c _ s wide) in
    let narrow = arithmetic32-IsSound i c _ s (logic-IsSound i c _ s compare) in
    shift32-IsSound i c _ s (
      jump_and_move-IsSound i c _ s
        (shift64-IsSound i c _ s (multiply_divide-IsSound c s i _ narrow)))
