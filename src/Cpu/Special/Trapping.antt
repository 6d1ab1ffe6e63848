-- ===== src/Cpu/Special/Trapping.antt =====
-- ADD, SUB, DADD and DSUB trap on overflow.
use emulador_n64emu.Base.{
  ℕ, ◌+◌, ◌-◌, ◌%◌, ◌^◌, ◌<◌, if◌then◌else◌, switch, ◌≡◌, refl, ap, ◌∙◌, arith, Bool, true, false,
  not, if_true, if_false,
}
use emulador_n64emu.Cpu.{Cpu}
use emulador_n64emu.Cpu.Fn
use emulador_n64emu.Cpu.Word.{
  rd, fn, sext32, add64, sub64, add_overflow_s32, sub_overflow_s32, add_overflow_s64,
  sub_overflow_s64,
}
use emulador_n64emu.Cpu.Word.Overflow.{
  sum_fits, difference_fits, add_overflow_s64_lem, sub_overflow_s64_lem, add_overflow_s32_lem,
  sub_overflow_s32_lem,
}
use emulador_n64emu.Cpu.ExcCode.{ov}
use emulador_n64emu.Cpu.Gpr.{rs64, rt64, rs32, rt32, write_gpr, raise}
use emulador_n64emu.Cpu.Special.{
  shift32, jump_and_move, shift64, multiply_divide, write_checked, write_checked32, arithmetic32,
  logic, arithmetic64, exec_special,
}
use emulador_n64emu.Cpu.Sound.{IsSound}
use emulador_n64emu.Cpu.Sound.Gpr.{rs64-lt, rt64-lt}

-- The functions that trap, whether their result fits, and what it is.
pub data IsTrapping : ℕ → Type 0 where
  add : IsTrapping Fn.add
  sub : IsTrapping Fn.sub
  dadd : IsTrapping Fn.dadd
  dsub : IsTrapping Fn.dsub

abbrev pub fits : {k : ℕ} → IsTrapping k → ℕ → Cpu → Bool
fits add i c = sum_fits 32 (rs32 i c) (rt32 i c)
fits sub i c = difference_fits 32 (rs32 i c) (rt32 i c)
fits dadd i c = sum_fits 64 (rs64 i c) (rt64 i c)
fits dsub i c = difference_fits 64 (rs64 i c) (rt64 i c)

abbrev pub result : {k : ℕ} → IsTrapping k → ℕ → Cpu → ℕ
result add i c = sext32 ((rs32 i c + rt32 i c) % 2 ^ 32)
result sub i c = sext32 ((rs32 i c + 2 ^ 32 - rt32 i c) % 2 ^ 32)
result dadd i c = add64 (rs64 i c) (rt64 i c)
result dsub i c = sub64 (rs64 i c) (rt64 i c)

-- The register is written if the result fits, and otherwise the exception is raised.
abbrev pub checked : Bool → ℕ → ℕ → Cpu → Cpu
checked fits v i c = if fits then write_gpr (rd i) v c else raise ov c

checked_eq :
    (r : Bool × ℕ) (fits : Bool) (v i : ℕ) (c : Cpu)
    → (r.0 ≡ not fits) × (r.1 ≡ (if fits then v else 0))
    → write_checked r (rd i) c ≡ checked fits v i c
unfolding write_checked
checked_eq (overflow, x) true v i c (e, f) = if_false _ _ e ∙ ap (λ y. write_gpr (rd i) y c) f
checked_eq (overflow, x) false v i c (e, f) = if_true _ _ e

checked32_eq :
    (r : Bool × ℕ) (fits : Bool) (v i : ℕ) (c : Cpu)
    → (r.0 ≡ not fits) × (r.1 ≡ v)
    → write_checked32 r (rd i) c ≡ checked fits (sext32 v) i c
unfolding write_checked write_checked32
checked32_eq (overflow, x) true v i c (e, f) =
    if_false _ _ e ∙ ap (λ y. write_gpr (rd i) (sext32 y) c) f
checked32_eq (overflow, x) false v i c (e, f) = if_true _ _ e

narrow : (i : ℕ) (c : Cpu) → (rs32 i c < 2 ^ 32) × (rt32 i c < 2 ^ 32)
unfolding rs32 rt32
narrow i c = (omega arith, omega arith)

module _ (i : ℕ) (c : Cpu) where
  add_chosen :
      fn i ≡ Fn.add
      → exec_special i c ≡ write_checked32 (add_overflow_s32 (rs32 i c) (rt32 i c)) (rd i) c
  unfolding exec_special shift32 jump_and_move shift64 multiply_divide arithmetic32 switch
  add_chosen e = rw e refl

  sub_chosen :
      fn i ≡ Fn.sub
      → exec_special i c ≡ write_checked32 (sub_overflow_s32 (rs32 i c) (rt32 i c)) (rd i) c
  unfolding exec_special shift32 jump_and_move shift64 multiply_divide arithmetic32 switch
  sub_chosen e = rw e refl

  dadd_chosen :
      fn i ≡ Fn.dadd
      → exec_special i c ≡ write_checked (add_overflow_s64 (rs64 i c) (rt64 i c)) (rd i) c
  unfolding exec_special shift32 jump_and_move shift64 multiply_divide arithmetic32 logic
      arithmetic64 switch
  dadd_chosen e = rw e refl

  dsub_chosen :
      fn i ≡ Fn.dsub
      → exec_special i c ≡ write_checked (sub_overflow_s64 (rs64 i c) (rt64 i c)) (rd i) c
  unfolding exec_special shift32 jump_and_move shift64 multiply_divide arithmetic32 logic
      arithmetic64 switch
  dsub_chosen e = rw e refl

  -- On a CPU whose registers are words, ADD, SUB, DADD and DSUB write the sum or difference of
  -- the operands to the destination, that of 32 bits sign-extended, if the signed result fits
  -- into the width of the instruction, and otherwise only raise the overflow exception.
  pub exec_special-overflow :
      (k : ℕ) (t : IsTrapping k)
      → fn i ≡ k
      → IsSound c
      → exec_special i c ≡ checked (fits t i c) (result t i c) i c
  exec_special-overflow _ add e s =
      let (p, q) = narrow i c in
      add_chosen e ∙ checked32_eq _ _ _ i c (add_overflow_s32_lem _ _ p q)
  exec_special-overflow _ sub e s =
      let (p, q) = narrow i c in
      sub_chosen e ∙ checked32_eq _ _ _ i c (sub_overflow_s32_lem _ _ p q)
  exec_special-overflow _ dadd e s =
      dadd_chosen e
      ∙ checked_eq _ _ _ i c (add_overflow_s64_lem _ _ (rs64-lt i c s) (rt64-lt i c s))
  exec_special-overflow _ dsub e s =
      dsub_chosen e
      ∙ checked_eq _ _ _ i c (sub_overflow_s64_lem _ _ (rs64-lt i c s) (rt64-lt i c s))
