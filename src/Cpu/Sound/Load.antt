-- ===== src/Cpu/Sound/Load.antt =====
-- The loads keep the widths.
use emulador_n64emu.Base.{ℕ, no_more, ◌▷◌, switch-case, arith, Bool, true, false, Option}
use emulador_n64emu.Cpu.Word.{rt, sext8, sext16, sext32}
use emulador_n64emu.Cpu.Word.Size.{sext32-lt, sext16-lt, sext8-lt}
use emulador_n64emu.Cpu.Gpr.{write_gpr}
use emulador_n64emu.Cpu.Machine.{
  Machine, BusInterface, with_value, load_byte, load_half, load_word, load_double,
}
use emulador_n64emu.Cpu.Unaligned.{exec_lwl, exec_lwr, exec_ldl, exec_ldr}
use emulador_n64emu.Cpu.Execute.{exec_load}
use emulador_n64emu.Cpu.Sound.{IsSound}
use emulador_n64emu.Cpu.Sound.Gpr.{rt64-lt, write_gpr-IsSound}
use emulador_n64emu.Cpu.Sound.Memory.{
  IsWordBus, IsRead, read_at-IsRead, with_value-IsSound, extend-IsRead,
}
use emulador_n64emu.Cpu.Sound.Access.{
  ldl_result-lt, ldr_result-lt, lwl_result-lt, lwr_result-lt, extended-lt, SoundMachine, probed,
  addr, aligned,
}

module _ {B : Type 0} (io : BusInterface B) (words : IsWordBus io) (i : ℕ) (m : Machine B)
    (s : IsSound m.cpu) where
  pub byte_loaded :
      (sign_extend : Bool) → IsRead 64 (load_byte io (addr io words i m s) sign_extend m)
  unfolding load_byte
  byte_loaded sign_extend =
      extend-IsRead 8 64 _ _
        (λ v h. extended-lt sext8 8 sign_extend v (sext8-lt v) (omega (arith, h)))
        (read_at-IsRead 8 _ _ m words.reads8 (probed io words i m s false (addr io words i m s) 1))

  pub half_loaded :
      (sign_extend : Bool) → IsRead 64 (load_half io (addr io words i m s) sign_extend m)
  unfolding load_half
  half_loaded sign_extend =
      extend-IsRead 16 64 _ _
        (λ v h. extended-lt sext16 16 sign_extend v (sext16-lt v) (omega (arith, h)))
        (read_at-IsRead 16 _ _ m words.reads16
          (probed io words i m s false (addr io words i m s) 2))

  pub word_loaded :
      (sign_extend : Bool) → IsRead 64 (load_word io (addr io words i m s) sign_extend m)
  unfolding load_word
  word_loaded sign_extend =
      extend-IsRead 32 64 _ _
        (λ v h. extended-lt sext32 32 sign_extend v (sext32-lt v) (omega (arith, h)))
        (read_at-IsRead 32 _ _ m words.reads32
          (probed io words i m s false (addr io words i m s) 4))

  pub double_loaded : IsRead 64 (load_double io (addr io words i m s) m)
  unfolding load_double
  double_loaded =
      read_at-IsRead 64 _ _ m words.reads64 (probed io words i m s false (addr io words i m s) 8)

  pub written :
      (r : Option ℕ × Machine B) → IsRead 64 r → IsSound (with_value (write_gpr (rt i)) r).cpu
  written r h = with_value-IsSound 64 _ r (λ v c p t. write_gpr-IsSound (rt i) v c p t) h

  exec_lwl-IsSound : IsSound (exec_lwl io i m).cpu
  unfolding exec_lwl
  exec_lwl-IsSound =
      with_value-IsSound 32 _ _ (λ v c p t. write_gpr-IsSound (rt i) _ c (lwl_result-lt _ _ v) t)
        (read_at-IsRead 32 _ _ m words.reads32 (aligned io words i m s false _))

  exec_lwr-IsSound : IsSound (exec_lwr io i m).cpu
  unfolding exec_lwr
  exec_lwr-IsSound =
      with_value-IsSound 32 _ _ (λ v c p t. write_gpr-IsSound (rt i) _ c (lwr_result-lt _ _ v) t)
        (read_at-IsRead 32 _ _ m words.reads32 (aligned io words i m s false _))

  exec_ldl-IsSound : IsSound (exec_ldl io i m).cpu
  unfolding exec_ldl
  exec_ldl-IsSound =
      with_value-IsSound 64 _ _
        (λ v c p t. write_gpr-IsSound (rt i) _ c (ldl_result-lt _ _ v (rt64-lt i c t)) t)
        (read_at-IsRead 64 _ _ m words.reads64 (aligned io words i m s false _))

  exec_ldr-IsSound : IsSound (exec_ldr io i m).cpu
  unfolding exec_ldr
  exec_ldr-IsSound =
      with_value-IsSound 64 _ _
        (λ v c p t. write_gpr-IsSound (rt i) _ c (ldr_result-lt _ _ v (rt64-lt i c t) p) t)
        (read_at-IsRead 64 _ _ m words.reads64 (aligned io words i m s false _))

  pub exec_load-IsSound :
      (other : Machine B) → IsSound other.cpu → IsSound (exec_load io other i m).cpu
  unfolding exec_load
  exec_load-IsSound other t =
      switch-case SoundMachine _ _ _
        (exec_ldl-IsSound
          ▷ exec_ldr-IsSound
          ▷ written _ (byte_loaded true)
          ▷ written _ (half_loaded true)
          ▷ exec_lwl-IsSound
          ▷ written _ (word_loaded true)
          ▷ written _ (byte_loaded false)
          ▷ written _ (half_loaded false)
          ▷ exec_lwr-IsSound
          ▷ written _ (word_loaded false)
          ▷ written _ double_loaded
          ▷ no_more)
        t
