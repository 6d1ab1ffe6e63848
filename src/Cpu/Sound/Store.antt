-- ===== src/Cpu/Sound/Store.antt =====
-- The stores keep the widths.
use emulador_n64emu.Base.{ℕ, no_more, ◌▷◌, switch-case, true}
use emulador_n64emu.Cpu.Machine.{
  Machine, BusInterface, store_byte, store_half, store_word, store_double,
}
use emulador_n64emu.Cpu.Unaligned.{exec_swl, exec_swr, exec_sdl, exec_sdr}
use emulador_n64emu.Cpu.Execute.{exec_store}
use emulador_n64emu.Cpu.Sound.{IsSound}
use emulador_n64emu.Cpu.Sound.Memory.{IsWordBus, write_at-IsSound}
use emulador_n64emu.Cpu.Sound.Access.{SoundMachine, modify_at-IsSound, probed, addr, aligned}

module _ {B : Type 0} (io : BusInterface B) (words : IsWordBus io) (i : ℕ) (m : Machine B)
    (s : IsSound m.cpu) where
  exec_swl-IsSound : IsSound (exec_swl io i m).cpu
  unfolding exec_swl
  exec_swl-IsSound =
      modify_at-IsSound 32 _ _ _ _ m words.reads32 words.writes32 (aligned io words i m s true _)

  exec_swr-IsSound : IsSound (exec_swr io i m).cpu
  unfolding exec_swr
  exec_swr-IsSound =
      modify_at-IsSound 32 _ _ _ _ m words.reads32 words.writes32 (aligned io words i m s true _)

  exec_sdl-IsSound : IsSound (exec_sdl io i m).cpu
  unfolding exec_sdl
  exec_sdl-IsSound =
      modify_at-IsSound 64 _ _ _ _ m words.reads64 words.writes64 (aligned io words i m s true _)

  exec_sdr-IsSound : IsSound (exec_sdr io i m).cpu
  unfolding exec_sdr
  exec_sdr-IsSound =
      modify_at-IsSound 64 _ _ _ _ m words.reads64 words.writes64 (aligned io words i m s true _)

  pub stored_word : (v : ℕ) → IsSound (store_word io (addr io words i m s) v m).cpu
  unfolding store_word
  stored_word v =
      write_at-IsSound _ _ v m words.writes32 (probed io words i m s true (addr io words i m s) 4)

  pub stored_double : (v : ℕ) → IsSound (store_double io (addr io words i m s) v m).cpu
  unfolding store_double
  stored_double v =
      write_at-IsSound _ _ v m words.writes64 (probed io words i m s true (addr io words i m s) 8)

  pub exec_store-IsSound :
      (other : Machine B) → IsSound other.cpu → IsSound (exec_store io other i m).cpu
  unfolding exec_store store_byte store_half
  exec_store-IsSound other t =
      switch-case SoundMachine _ _ _
        (write_at-IsSound _ _ _ m words.writes8 (probed io words i m s true (addr io words i m s) 1)
          ▷ write_at-IsSound _ _ _ m words.writes16
              (probed io words i m s true (addr io words i m s) 2)
          ▷ exec_swl-IsSound
          ▷ stored_word _
          ▷ exec_sdl-IsSound
          ▷ exec_sdr-IsSound
          ▷ exec_swr-IsSound
          ▷ stored_double _
          ▷ no_more)
        t
