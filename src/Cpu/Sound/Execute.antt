-- ===== src/Cpu/Sound/Execute.antt =====
-- Every instruction keeps the widths, if the bus does.
use emulador_n64emu.Base.{ℕ, ◌^◌, ◌<◌, no_more, ◌▷◌, switch-case, true, false, Option, none, some}
use emulador_n64emu.Cpu.{Cpu}
use emulador_n64emu.Cpu.Word.{rt, sext32}
use emulador_n64emu.Cpu.Word.Size.{sext32-lt}
use emulador_n64emu.Cpu.Control.{raise_unusable}
use emulador_n64emu.Cpu.Fpu.{write_fpr_double}
use emulador_n64emu.Cpu.Machine.{Machine, BusInterface, extend, load_word}
use emulador_n64emu.Cpu.Execute.{
  load_linked, store_conditional, exec_linked, set_fpr_double, store_fpr_double, exec_lwc1,
  exec_ldc1, exec_swc1, exec_sdc1, exec_fpu_memory, execute,
}
use emulador_n64emu.Cpu.Sound.{IsSound}
use emulador_n64emu.Cpu.Sound.Gpr.{write_gpr-IsSound}
use emulador_n64emu.Cpu.Sound.Registers.{
  raise_unusable-IsSound, raise_fpu_unimplemented-IsSound, write_fpr_word-IsSound,
}
use emulador_n64emu.Cpu.Sound.Fpu.{IfSome, write_fpr_double-IsSound, exec_registers-IsSound}
use emulador_n64emu.Cpu.Sound.Memory.{
  ReadsWords, WritesSound, IsWordBus, IsRead, probe-IsSound, read_at-IsRead, with_value-IsSound,
  extend-IsRead,
}
use emulador_n64emu.Cpu.Sound.Access.{
  IsSoundMachine, IsSoundMachine-if, machine_if, SoundMachine, store_reserved-IsSound, probed, addr,
}
use emulador_n64emu.Cpu.Sound.Load.{double_loaded, exec_load-IsSound}
use emulador_n64emu.Cpu.Sound.Store.{stored_word, stored_double, exec_store-IsSound}

module _ {B : Type 0} (io : BusInterface B) (words : IsWordBus io) (i : ℕ) (m : Machine B)
    (s : IsSound m.cpu) where
  load_linked-IsSound :
      (w : ℕ) (read : ℕ → Machine B → ℕ × Machine B) (size : ℕ) (extend : ℕ → ℕ)
      → ReadsWords w read
      → ((v : ℕ) → v < 2 ^ w → extend v < 2 ^ 64)
      → IsSound (load_linked read size extend i m).cpu
  unfolding load_linked
  load_linked-IsSound w read size extend r h =
      with_value-IsSound w _ _
        (λ v c p t. record { sized = (write_gpr-IsSound (rt i) (extend v) c (h v p) t).sized })
        (read_at-IsRead w _ _ m r (probed io words i m s false (addr io words i m s) size))

  store_conditional-IsSound :
      (write : ℕ → ℕ → Machine B → Machine B) (size v : ℕ)
      → WritesSound write
      → IsSound (store_conditional write size v i m).cpu
  unfolding store_conditional
  store_conditional-IsSound write size v k =
      store_reserved-IsSound write m.cpu.ll_bit m.cpu.ll_addr (rt i) v _ m k (
        probe-IsSound true (addr io words i m s) size (record (m.cpu) { ll_bit = false })
          (record { sized = s.sized }))

  exec_linked-IsSound :
      (other : Machine B) → IsSound other.cpu → IsSound (exec_linked io other i m).cpu
  unfolding exec_linked
  exec_linked-IsSound other t =
      switch-case SoundMachine _ _ _
        (load_linked-IsSound 32 _ 4 sext32 words.reads32 (λ v h. sext32-lt v)
          ▷ load_linked-IsSound 64 _ 8 (λ v. v) words.reads64 (λ v h. h)
          ▷ store_conditional-IsSound _ 4 _ words.writes32
          ▷ store_conditional-IsSound _ 8 _ words.writes64
          ▷ no_more)
        t

  set_fpr_double-IsSound :
      (v : ℕ) (c : Cpu) → v < 2 ^ 64 → IsSound c → IsSound (set_fpr_double (rt i) v c)
  unfolding set_fpr_double
  set_fpr_double-IsSound v c h t =
      or_kept (write_fpr_double (rt i) v c) (write_fpr_double-IsSound (rt i) c t v h)
    where
      or_kept : (c' : Option Cpu) → IfSome IsSound c' → IsSound (elim c' [ none ↦ c | some d ↦ d ])
      or_kept none p = t
      or_kept (some d) p = p

  store_fpr_double-IsSound :
      (v : Option ℕ) → IsSound (store_fpr_double io v (addr io words i m s) m).cpu
  unfolding store_fpr_double
  store_fpr_double-IsSound none = raise_fpu_unimplemented-IsSound m.cpu s
  store_fpr_double-IsSound (some v) = stored_double io words i m s v

  narrow_loaded : IsRead 32 (load_word io (addr io words i m s) false m)
  unfolding load_word
  narrow_loaded =
      extend-IsRead 32 32 _ _ (λ v h. h)
        (read_at-IsRead 32 _ _ m words.reads32
          (probed io words i m s false (addr io words i m s) 4))

  refused : IsSound (raise_unusable 1 m.cpu)
  refused = raise_unusable-IsSound m.cpu s 1

  exec_lwc1-IsSound : IsSound (exec_lwc1 io i m).cpu
  unfolding exec_lwc1
  exec_lwc1-IsSound =
      machine_if _ _ _ refused
        (with_value-IsSound 32 _ _ (λ v c p t. write_fpr_word-IsSound c t (rt i) v p) narrow_loaded)

  exec_ldc1-IsSound : IsSound (exec_ldc1 io i m).cpu
  unfolding exec_ldc1
  exec_ldc1-IsSound =
      let all : IsSoundMachine (exec_ldc1 io i m) =
        IsSoundMachine-if _ _ _ (record { registers = refused })
          (IsSoundMachine-if _ _ _ (record { registers = raise_fpu_unimplemented-IsSound m.cpu s })
            (record {
              registers =
                  with_value-IsSound 64 _ _ set_fpr_double-IsSound (double_loaded io words i m s);
            })) in
      all.registers

  exec_swc1-IsSound : IsSound (exec_swc1 io i m).cpu
  unfolding exec_swc1
  exec_swc1-IsSound = machine_if _ _ _ refused (stored_word io words i m s _)

  exec_sdc1-IsSound : IsSound (exec_sdc1 io i m).cpu
  unfolding exec_sdc1
  exec_sdc1-IsSound = machine_if _ _ _ refused (store_fpr_double-IsSound _)

  exec_fpu_memory-IsSound :
      (other : Machine B) → IsSound other.cpu → IsSound (exec_fpu_memory io other i m).cpu
  unfolding exec_fpu_memory
  exec_fpu_memory-IsSound other t =
      switch-case SoundMachine _ _ _
        (exec_lwc1-IsSound ▷ exec_ldc1-IsSound ▷ exec_swc1-IsSound ▷ exec_sdc1-IsSound ▷ no_more) t

  pub execute-IsSound :
      (exec_cop1_format : ℕ → Cpu → Cpu)
      → ((i : ℕ) (c : Cpu) → IsSound c → IsSound (exec_cop1_format i c))
      → IsSoundMachine (execute io exec_cop1_format i m)
  unfolding execute
  execute-IsSound exec_cop1_format h = record {
    registers = exec_load-IsSound io words i m s _ (
        exec_store-IsSound io words i m s _ (
          exec_linked-IsSound _
            (exec_fpu_memory-IsSound _ (exec_registers-IsSound exec_cop1_format h i m.cpu s))));
  }
