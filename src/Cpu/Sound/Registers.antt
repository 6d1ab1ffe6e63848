-- ===== src/Cpu/Sound/Registers.antt =====
-- The instructions that do not use the bus keep the widths.
use emulador_n64emu.Base.{
  ℕ, ◌+◌, ◌*◌, ◌/◌, ◌%◌, ◌^◌, ◌<◌, bit_and-lt, bit_or-lt, bit_xor-lt, no_more, ◌▷◌, arith, Bool,
  false,
}
use emulador_n64emu.Cpu.{Cpu}
use emulador_n64emu.Cpu.Word.{rt, rd, imm}
use emulador_n64emu.Cpu.Word.Size.{sext32-lt, add64-lt, add_overflow_s64-lt}
use emulador_n64emu.Cpu.ExcCode.{tr}
use emulador_n64emu.Cpu.Gpr.{rt32, link}
use emulador_n64emu.Cpu.Regimm.{trap_immediate, branch_and_link, exec_regimm}
use emulador_n64emu.Cpu.Control.{raise_unusable, exec_co, exec_cop0, exec_cop2}
use emulador_n64emu.Cpu.Fpu.{
  write_fpr_word, raise_fpu_unimplemented, write_fcr31, branch_on_condition,
}
use emulador_n64emu.Cpu.Execute.{exec_branch, exec_immediate}
use emulador_n64emu.Cpu.Sound.{IsSound, IsSound-if, IsSound-switch, update-IsWords, set_floating}
use emulador_n64emu.Cpu.Sound.Cop0.{
  raise_exception-IsSound, set_cop0-IsSound, do_eret-IsSound, tlb_read_indexed-IsSound,
  tlb_write_indexed-IsSound, tlb_probe-IsSound,
}
use emulador_n64emu.Cpu.Sound.Gpr.{
  rs64-lt, write_gpr-IsSound, branch_abs-IsSound, branch_rel-IsSound, skip_delay_slot-IsSound,
  link-IsSound, branch_if-IsSound, branch_likely_if-IsSound, raise-IsSound, raise_if-IsSound,
  reserved-IsSound, write_checked-IsSound, write_checked32-IsSound, flag-lt,
}

imm-lt : (i : ℕ) → imm i < 2 ^ 64
unfolding imm
imm-lt i = omega arith

rt32-lt : (i : ℕ) (c : Cpu) → rt32 i c < 2 ^ 32
unfolding rt32
rt32-lt i c = omega arith

pub narrow-lt : (x : ℕ) → x % 2 ^ 32 < 2 ^ 32
narrow-lt x = omega arith

module _ (i : ℕ) (c other : Cpu) (s : IsSound c) (t : IsSound other) where
  trap_immediate-IsSound : IsSound (trap_immediate other i c)
  unfolding trap_immediate
  trap_immediate-IsSound =
      let r = λ (b : Bool). raise_if-IsSound b tr c s in
      IsSound-switch _ _ _ (r _ ▷ r _ ▷ r _ ▷ r _ ▷ r _ ▷ r _ ▷ no_more) t

  branch_and_link-IsSound : IsSound (branch_and_link other i c)
  unfolding branch_and_link
  branch_and_link-IsSound =
      let b = λ (taken : Bool). branch_if-IsSound taken i (link 31 c) (link-IsSound 31 c s) in
      let l =
        λ (taken : Bool). branch_likely_if-IsSound taken i (link 31 c) (link-IsSound 31 c s) in
      IsSound-switch _ _ _ (b _ ▷ b _ ▷ l _ ▷ l _ ▷ no_more) t

  pub exec_branch-IsSound : IsSound (exec_branch other i c)
  unfolding exec_branch
  exec_branch-IsSound =
      let b = λ (taken : Bool). branch_if-IsSound taken i c s in
      let l = λ (taken : Bool). branch_likely_if-IsSound taken i c s in
      IsSound-switch _ _ _
        (branch_abs-IsSound _ c s
          ▷ branch_abs-IsSound _ _ (link-IsSound 31 c s)
          ▷ b _
          ▷ b _
          ▷ b _
          ▷ b _
          ▷ l _
          ▷ l _
          ▷ l _
          ▷ l _
          ▷ no_more)
        t

  pub exec_immediate-IsSound : IsSound (exec_immediate other i c)
  unfolding exec_immediate
  exec_immediate-IsSound =
      let w = λ (v : ℕ) (h : v < 2 ^ 64). write_gpr-IsSound (rt i) v c h s in
      let a = rs64-lt i c s in
      let low : imm i < 2 ^ 64 = imm-lt i in
      IsSound-switch _ _ _
        (write_checked32-IsSound _ (rt i) c s
          ▷ w _ (sext32-lt _)
          ▷ w _ (flag-lt _)
          ▷ w _ (flag-lt _)
          ▷ w _ (bit_and-lt 64 _ _ a low)
          ▷ w _ (bit_or-lt 64 _ _ a low)
          ▷ w _ (bit_xor-lt 64 _ _ a low)
          ▷ w _ (sext32-lt _)
          ▷ write_checked-IsSound _ (rt i) c (add_overflow_s64-lt _ _) s
          ▷ w _ (add64-lt _ _)
          ▷ no_more)
        t

pub exec_regimm-IsSound : (i : ℕ) (c : Cpu) → IsSound c → IsSound (exec_regimm i c)
unfolding exec_regimm
exec_regimm-IsSound i c s =
    let b = λ (taken : Bool). branch_if-IsSound taken i c s in
    let l = λ (taken : Bool). branch_likely_if-IsSound taken i c s in
    IsSound-switch _ _ _ (b _ ▷ b _ ▷ l _ ▷ l _ ▷ no_more)
      (trap_immediate-IsSound i c _ s (branch_and_link-IsSound i c _ s (reserved-IsSound c s)))

module _ (c : Cpu) (s : IsSound c) where
  pub raise_unusable-IsSound : (cop : ℕ) → IsSound (raise_unusable cop c)
  unfolding raise_unusable
  raise_unusable-IsSound cop = raise_exception-IsSound _ 0 cop false c s

  control-lt : (i : ℕ) → c.cop0 i < 2 ^ 64
  control-lt i = omega (arith, s.sized.control i)

  exec_co-IsSound : (i : ℕ) → IsSound (exec_co i c)
  unfolding exec_co
  exec_co-IsSound i =
      IsSound-switch _ _ _
        (tlb_read_indexed-IsSound c s
          ▷ tlb_write_indexed-IsSound _ c s
          ▷ tlb_write_indexed-IsSound _ c s
          ▷ tlb_probe-IsSound c s
          ▷ do_eret-IsSound c s
          ▷ no_more)
        s

  pub exec_cop0-IsSound : (i : ℕ) → IsSound (exec_cop0 i c)
  unfolding exec_cop0
  exec_cop0-IsSound i = IsSound-if _ _ _ (raise_unusable-IsSound 0) (
      IsSound-switch _ _ _
        (write_gpr-IsSound _ _ c (sext32-lt _) s
          ▷ write_gpr-IsSound _ _ c (control-lt (rd i)) s
          ▷ set_cop0-IsSound _ _ c (rt32-lt i c) s
          ▷ set_cop0-IsSound _ _ c (narrow-lt _) s
          ▷ exec_co-IsSound i
          ▷ no_more)
        (IsSound-if _ _ c (do_eret-IsSound c s) s))

  pub exec_cop2-IsSound : (i : ℕ) → IsSound (exec_cop2 i c)
  unfolding exec_cop2
  exec_cop2-IsSound i = IsSound-if _ _ c (raise_unusable-IsSound 2) s

  pub write_fpr_word-IsSound : (i v : ℕ) → v < 2 ^ 32 → IsSound (write_fpr_word i v c)
  unfolding write_fpr_word
  write_fpr_word-IsSound i v h = record {
    sized = set_floating s.sized _ (
        update-IsWords 64 c.fpr (i % 32) (c.fpr (i % 32) / 2 ^ 32 * 2 ^ 32 + v) s.sized.floating
          (omega (arith, s.sized.floating (i % 32))));
  }

  pub raise_fpu_unimplemented-IsSound : IsSound (raise_fpu_unimplemented c)
  unfolding raise_fpu_unimplemented
  raise_fpu_unimplemented-IsSound = raise-IsSound _ _ (record { sized = s.sized })

  pub write_fcr31-IsSound : (v : ℕ) → IsSound (write_fcr31 v c)
  unfolding write_fcr31
  write_fcr31-IsSound v =
      IsSound-if _ _ _ (raise-IsSound _ _ (record { sized = s.sized })) (record { sized = s.sized })

  pub branch_on_condition-IsSound : (i : ℕ) → IsSound (branch_on_condition i c)
  unfolding branch_on_condition
  branch_on_condition-IsSound i = IsSound-if _ _ _ raise_fpu_unimplemented-IsSound (
      IsSound-if _ _ _ (branch_rel-IsSound _ c s)
        (IsSound-if _ _ _ (skip_delay_slot-IsSound c s) (branch_abs-IsSound _ c s)))
