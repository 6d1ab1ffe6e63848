-- ===== src/Cpu/Special.antt =====
-- src/cpu/cpu.cpp: `exec_special`, the instructions that the function field chooses. Each part of
-- the switch takes what the following parts do as its last case.
pub mod Trapping
use emulador_n64emu.Base.{
  ℕ, zero, suc, ◌+◌, ◌-◌, ◌*◌, ◌/◌, ◌%◌, ◌^◌, ◌≤◌, ◌<◌, min, max, bit_and, bit_or, bit_xor, ◌==◌,
  ltb, leb, if◌then◌else◌, switch, ◌≡◌, ◌≢◌, ◌↔◌, ◌⊎◌, inl, inr, refl, sym, ap, ◌∙◌, subst, arith,
  Bool, Bool-cases, true, false, not, ◌&&◌, ◌||◌, Option, Option-cases, none, some, List, [], ◌∷◌,
  ◌++◌, map, length, get_or, set, replicate, ltb→lt, lt→ltb, leb→le, ==_iff, ==-ne, bit, has_bit,
  set_bit, clear_bit, low, ℕ_discrete, dec_lt, dec_le, update, if_true, if_false,
}
use emulador_n64emu.Cpu.Fn
use emulador_n64emu.Cpu.{Cpu}
use emulador_n64emu.Cpu.Word.{
  rd, sa, fn, sext32, add64, sub64, less_signed, is_negative, shift_right_signed, add_overflow_s32,
  sub_overflow_s32, add_overflow_s64, sub_overflow_s64, mult_u64, mult_s64, quotient_signed,
  remainder_signed,
}
use emulador_n64emu.Cpu.Gpr.{
  rs64, rt64, rs32, rt32, write_gpr, branch_abs, link, raise, raise_if, reserved,
}
use emulador_n64emu.Cpu.ExcCode.{sys, bp, ov, tr}

unfoldable pub shift32 : Cpu → ℕ → Cpu → Cpu
shift32 other i c =
    let write = λ (v : ℕ). write_gpr (rd i) (sext32 v) c in
    let by = rs32 i c % 32 in
    switch (fn i)
      ((Fn.sll, write (rt32 i c * 2 ^ sa i))
        ∷ (Fn.srl, write (rt32 i c / 2 ^ sa i))
        ∷ (Fn.sra, write (shift_right_signed 32 (rt32 i c) (sa i)))
        ∷ (Fn.sllv, write (rt32 i c * 2 ^ by))
        ∷ (Fn.srlv, write (rt32 i c / 2 ^ by))
        ∷ (Fn.srav, write (shift_right_signed 32 (rt32 i c) by))
        ∷ [])
      other

-- JR, JALR, SYSCALL, BREAK, SYNC, and the moves of HI and LO.
unfoldable pub jump_and_move : Cpu → ℕ → Cpu → Cpu
jump_and_move other i c =
    switch (fn i)
      ((Fn.jr, branch_abs (rs64 i c) c)
        ∷ (Fn.jalr, branch_abs (rs64 i c) (link (if rd i == 0 then 31 else rd i) c))
        ∷ (Fn.syscall, raise sys c)
        ∷ (Fn.break, raise bp c)
        ∷ (Fn.sync, c)
        ∷ (Fn.mfhi, write_gpr (rd i) c.hi c)
        ∷ (Fn.mthi, record c { hi = rs64 i c })
        ∷ (Fn.mflo, write_gpr (rd i) c.lo c)
        ∷ (Fn.mtlo, record c { lo = rs64 i c })
        ∷ [])
      other

unfoldable pub shift64 : Cpu → ℕ → Cpu → Cpu
shift64 other i c =
    let by = rs32 i c % 64 in
    switch (fn i)
      ((Fn.dsllv, write_gpr (rd i) (rt64 i c * 2 ^ by % 2 ^ 64) c)
        ∷ (Fn.dsrlv, write_gpr (rd i) (rt64 i c / 2 ^ by) c)
        ∷ (Fn.dsrav, write_gpr (rd i) (shift_right_signed 64 (rt64 i c) by) c)
        ∷ [])
      other

abbrev set_hi_lo : ℕ → ℕ → Cpu → Cpu
set_hi_lo hi lo c = record c { hi = hi; lo = lo }

unfoldable pub div_s32 : ℕ → ℕ → Cpu → Cpu
div_s32 num den c =
    if den == 0
    then set_hi_lo (sext32 num) (sext32 (if is_negative 32 num then 1 else 0xffff_ffff)) c
    else if num == 0x8000_0000 && den == 0xffff_ffff
    then set_hi_lo 0 (sext32 0x8000_0000) c
    else set_hi_lo (sext32 (remainder_signed 32 num den)) (sext32 (quotient_signed 32 num den)) c

unfoldable pub div_u32 : ℕ → ℕ → Cpu → Cpu
div_u32 num den c =
    if den == 0
    then set_hi_lo (sext32 num) (sext32 0xffff_ffff) c
    else set_hi_lo (sext32 (num % den)) (sext32 (num / den)) c

unfoldable pub div_s64 : ℕ → ℕ → Cpu → Cpu
div_s64 num den c =
    if den == 0
    then set_hi_lo num (if is_negative 64 num then 1 else 2 ^ 64 - 1) c
    else if num == 2 ^ 63 && den == 2 ^ 64 - 1
    then set_hi_lo 0 num c
    else set_hi_lo (remainder_signed 64 num den) (quotient_signed 64 num den) c

unfoldable pub div_u64 : ℕ → ℕ → Cpu → Cpu
div_u64 num den c =
    if den == 0 then set_hi_lo num (2 ^ 64 - 1) c else set_hi_lo (num % den) (num / den) c

unfoldable pub multiply_divide : Cpu → ℕ → Cpu → Cpu
multiply_divide other i c =
    let words = λ (r : ℕ). set_hi_lo (sext32 (r / 2 ^ 32)) (sext32 r) c in
    let pair = λ (r : ℕ × ℕ). set_hi_lo r.0 r.1 c in
    switch (fn i)
      ((Fn.mult, words (sext32 (rs32 i c) * sext32 (rt32 i c) % 2 ^ 64))
        ∷ (Fn.multu, words (rs32 i c * rt32 i c))
        ∷ (Fn.div, div_s32 (rs32 i c) (rt32 i c) c)
        ∷ (Fn.divu, div_u32 (rs32 i c) (rt32 i c) c)
        ∷ (Fn.dmult, pair (mult_s64 (rs64 i c) (rt64 i c)))
        ∷ (Fn.dmultu, pair (mult_u64 (rs64 i c) (rt64 i c)))
        ∷ (Fn.ddiv, div_s64 (rs64 i c) (rt64 i c) c)
        ∷ (Fn.ddivu, div_u64 (rs64 i c) (rt64 i c) c)
        ∷ [])
      other

-- The result goes to register `d`, or the sum does not fit and the exception is raised.
unfoldable pub write_checked : Bool × ℕ → ℕ → Cpu → Cpu
write_checked (overflow, result) d c = if overflow then raise ov c else write_gpr d result c

-- The same for a result of 32 bits.
unfoldable pub write_checked32 : Bool × ℕ → ℕ → Cpu → Cpu
write_checked32 (overflow, result) d c = write_checked (overflow, sext32 result) d c

unfoldable pub arithmetic32 : Cpu → ℕ → Cpu → Cpu
arithmetic32 other i c =
    switch (fn i)
      ((Fn.add, write_checked32 (add_overflow_s32 (rs32 i c) (rt32 i c)) (rd i) c)
        ∷ (Fn.addu, write_gpr (rd i) (sext32 (rs32 i c + rt32 i c)) c)
        ∷ (Fn.sub, write_checked32 (sub_overflow_s32 (rs32 i c) (rt32 i c)) (rd i) c)
        ∷ (Fn.subu, write_gpr (rd i) (sext32 (rs32 i c + 2 ^ 32 - rt32 i c)) c)
        ∷ [])
      other

unfoldable pub logic : Cpu → ℕ → Cpu → Cpu
logic other i c =
    switch (fn i)
      ((Fn.and, write_gpr (rd i) (bit_and (rs64 i c) (rt64 i c)) c)
        ∷ (Fn.or, write_gpr (rd i) (bit_or (rs64 i c) (rt64 i c)) c)
        ∷ (Fn.xor, write_gpr (rd i) (bit_xor (rs64 i c) (rt64 i c)) c)
        ∷ (Fn.nor, write_gpr (rd i) (2 ^ 64 - 1 - bit_or (rs64 i c) (rt64 i c)) c)
        ∷ (Fn.slt, write_gpr (rd i) (if less_signed (rs64 i c) (rt64 i c) then 1 else 0) c)
        ∷ (Fn.sltu, write_gpr (rd i) (if ltb (rs64 i c) (rt64 i c) then 1 else 0) c)
        ∷ [])
      other

unfoldable pub arithmetic64 : Cpu → ℕ → Cpu → Cpu
arithmetic64 other i c =
    switch (fn i)
      ((Fn.dadd, write_checked (add_overflow_s64 (rs64 i c) (rt64 i c)) (rd i) c)
        ∷ (Fn.daddu, write_gpr (rd i) (add64 (rs64 i c) (rt64 i c)) c)
        ∷ (Fn.dsub, write_checked (sub_overflow_s64 (rs64 i c) (rt64 i c)) (rd i) c)
        ∷ (Fn.dsubu, write_gpr (rd i) (sub64 (rs64 i c) (rt64 i c)) c)
        ∷ [])
      other

unfoldable pub trap : Cpu → ℕ → Cpu → Cpu
trap other i c =
    let a = rs64 i c in
    let b = rt64 i c in
    switch (fn i)
      ((Fn.tge, raise_if (not (less_signed a b)) tr c)
        ∷ (Fn.tgeu, raise_if (leb b a) tr c)
        ∷ (Fn.tlt, raise_if (less_signed a b) tr c)
        ∷ (Fn.tltu, raise_if (ltb a b) tr c)
        ∷ (Fn.teq, raise_if (a == b) tr c)
        ∷ (Fn.tne, raise_if (not (a == b)) tr c)
        ∷ [])
      other

unfoldable pub shift64_by_field : Cpu → ℕ → Cpu → Cpu
shift64_by_field other i c =
    switch (fn i)
      ((Fn.dsll, write_gpr (rd i) (rt64 i c * 2 ^ sa i % 2 ^ 64) c)
        ∷ (Fn.dsrl, write_gpr (rd i) (rt64 i c / 2 ^ sa i) c)
        ∷ (Fn.dsra, write_gpr (rd i) (shift_right_signed 64 (rt64 i c) (sa i)) c)
        ∷ (Fn.dsll32, write_gpr (rd i) (rt64 i c * 2 ^ (sa i + 32) % 2 ^ 64) c)
        ∷ (Fn.dsrl32, write_gpr (rd i) (rt64 i c / 2 ^ (sa i + 32)) c)
        ∷ (Fn.dsra32, write_gpr (rd i) (shift_right_signed 64 (rt64 i c) (sa i + 32)) c)
        ∷ [])
      other

unfoldable pub exec_special : ℕ → Cpu → Cpu
exec_special i c =
    let wide = shift64_by_field (reserved c) i c in
    let compare = arithmetic64 (trap wide i c) i c in
    let narrow = arithmetic32 (logic compare i c) i c in
    shift32 (jump_and_move (shift64 (multiply_divide narrow i c) i c) i c) i c
