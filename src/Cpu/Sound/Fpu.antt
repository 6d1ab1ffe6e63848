-- ===== src/Cpu/Sound/Fpu.antt =====
-- The moves of the floating-point unit, and with them all instructions without memory, keep the
-- widths.
use emulador_n64emu.Base.{
  ℕ, ◌+◌, ◌*◌, ◌/◌, ◌%◌, ◌^◌, ◌<◌, ◌==◌, if◌then◌else◌, no_more, ◌▷◌, arith, Bool, true, false,
  Option, none, some,
}
use emulador_n64emu.Cpu.{Cpu}
use emulador_n64emu.Cpu.Word.{rt, rd}
use emulador_n64emu.Cpu.Word.Size.{sext32-lt}
use emulador_n64emu.Cpu.Fpu.{
  read_fpr_word, write_fpr_word, read_fpr_double, write_fpr_double, move_from_double,
  move_to_double, exec_cop1, fpu_fr_mode,
}
use emulador_n64emu.Cpu.Execute.{exec_registers}
use emulador_n64emu.Cpu.Sound.{IsSound, IsSound-if, IsSound-switch, update-IsWords, set_floating}
use emulador_n64emu.Cpu.Sound.Gpr.{rt64-lt, write_gpr-IsSound, reserved-IsSound}
use emulador_n64emu.Cpu.Sound.Special.{exec_special-IsSound}
use emulador_n64emu.Cpu.Sound.Registers.{
  raise_unusable-IsSound, raise_fpu_unimplemented-IsSound, write_fpr_word-IsSound,
  write_fcr31-IsSound, branch_on_condition-IsSound, exec_branch-IsSound, exec_immediate-IsSound,
  exec_regimm-IsSound, exec_cop0-IsSound, exec_cop2-IsSound, narrow-lt,
}

abbrev pub IfSome : {A : Type 0} → (A → Type 0) → Option A → Type 0
IfSome P none = Unit {0}
IfSome P (some a) = P a

IfSome-if :
    {A : Type 0} (P : A → Type 0) (b : Bool) (x y : Option A)
    → IfSome P x
    → IfSome P y
    → IfSome P (if b then x else y)
IfSome-if P true x y p q = p
IfSome-if P false x y p q = q

pub read_fpr_word-lt : (i : ℕ) (c : Cpu) → read_fpr_word i c < 2 ^ 32
unfolding read_fpr_word
read_fpr_word-lt i c = omega arith

module _ (i : ℕ) (c : Cpu) (s : IsSound c) where
  read_fpr_double-lt : IfSome (λ v. v < 2 ^ 64) (read_fpr_double i c)
  unfolding read_fpr_double
  read_fpr_double-lt =
      let index = i % 32 in
      let whole = s.sized.floating index in
      let halves : read_fpr_word index c + read_fpr_word (index + 1) c * 2 ^ 32 < 2 ^ 64 =
        omega (arith, read_fpr_word-lt index c, read_fpr_word-lt (index + 1) c) in
      IfSome-if (λ v. v < 2 ^ 64) (fpu_fr_mode c) _ _ whole
        (IfSome-if (λ v. v < 2 ^ 64) (index % 2 == 1) _ _ tt halves)

  move_from_double-IsSound : (t : ℕ) → IsSound (move_from_double (read_fpr_double i c) t c)
  unfolding move_from_double
  move_from_double-IsSound t = move_sound (read_fpr_double i c) read_fpr_double-lt
    where
      move_sound : (v : Option ℕ) → IfSome (λ v. v < 2 ^ 64) v → IsSound (move_from_double v t c)
      move_sound none h = raise_fpu_unimplemented-IsSound c s
      move_sound (some v) h = write_gpr-IsSound t v c h s

  pub write_fpr_double-IsSound : (v : ℕ) → v < 2 ^ 64 → IfSome IsSound (write_fpr_double i v c)
  unfolding write_fpr_double
  write_fpr_double-IsSound v h =
      let index = i % 32 in
      IfSome-if IsSound (fpu_fr_mode c) _ _
        (record {
          sized = set_floating s.sized _ (update-IsWords 64 c.fpr index v s.sized.floating h);
        })
        (IfSome-if IsSound (index % 2 == 1) _ _ tt (
          write_fpr_word-IsSound (write_fpr_word index (v % 2 ^ 32) c)
            (write_fpr_word-IsSound c s index (v % 2 ^ 32) (narrow-lt v)) (index + 1) (v / 2 ^ 32)
            (omega arith)))

  move_to_double-IsSound : (c' : Option Cpu) → IfSome IsSound c' → IsSound (move_to_double c' c)
  unfolding move_to_double
  move_to_double-IsSound none h = raise_fpu_unimplemented-IsSound c s
  move_to_double-IsSound (some c') h = h

module _ (exec_cop1_format : ℕ → Cpu → Cpu)
    (format_sound : (i : ℕ) (c : Cpu) → IsSound c → IsSound (exec_cop1_format i c)) where
  exec_cop1-IsSound : (i : ℕ) (c : Cpu) → IsSound c → IsSound (exec_cop1 exec_cop1_format i c)
  unfolding exec_cop1
  exec_cop1-IsSound i c s =
      let format = format_sound i c s in
      IsSound-if _ _ _ (raise_unusable-IsSound c s 1) (
        IsSound-switch _ _ _
          (write_gpr-IsSound _ _ c (sext32-lt _) s
            ▷ move_from_double-IsSound (rd i) c s (rt i)
            ▷ write_gpr-IsSound _ _ c (sext32-lt _) s
            ▷ write_fpr_word-IsSound c s (rd i) _ (narrow-lt _)
            ▷ move_to_double-IsSound (rd i) c s _
                (write_fpr_double-IsSound (rd i) c s _ (rt64-lt i c s))
            ▷ IsSound-if _ _ c (write_fcr31-IsSound c s _) s
            ▷ branch_on_condition-IsSound c s i
            ▷ format
            ▷ format
            ▷ format
            ▷ format
            ▷ no_more)
          (raise_fpu_unimplemented-IsSound c s))

  pub exec_registers-IsSound :
      (i : ℕ) (c : Cpu) → IsSound c → IsSound (exec_registers exec_cop1_format i c)
  unfolding exec_registers
  exec_registers-IsSound i c s =
      IsSound-switch _ _ _
        (exec_special-IsSound i c s
          ▷ exec_regimm-IsSound i c s
          ▷ exec_cop0-IsSound c s i
          ▷ exec_cop1-IsSound i c s
          ▷ exec_cop2-IsSound c s i
          ▷ s
          ▷ no_more)
        (exec_branch-IsSound i c _ s (exec_immediate-IsSound i c _ s (reserved-IsSound c s)))
