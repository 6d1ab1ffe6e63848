-- ===== src/Pif/Tests.antt =====
-- A poll of the first controller.
use emulador_n64emu.Base.{
  ℕ, ◌+◌, ◌%◌, ◌^◌, ◌*◌, ◌≤◌, ◌<◌, ◌==◌, ◌≡◌, refl, arith, true, clear_bit, update,
}
use emulador_n64emu.Pif.{
  ControllerState, Pif, no_input, set_controller, process_channel, process_joybus,
}
use emulador_n64emu.Pif.Joybus.{process_joybus_lem, set_controller-process_channel}

-- A and the right of the pad are down, the stick is up.
abbrev pad : ControllerState
pad = record { buttons = 0x8100; stick_x = 0; stick_y = 80; present = true }

-- The command to poll channel 0, the end of the list, and the request.
abbrev polling : Pif
polling = record {
  controllers = λ i. no_input (i == 0);
  ram = update (update (update (update (update (λ i. 0) 0 1) 1 4) 2 1) 7 0xfe) 0x3f 1;
  joybus_count = 0;
}

process_joybus_example :
    let (n, p') = process_joybus polling in
    (n ≤ 4)
    × (p'.ram 0x3f ≡ clear_bit 0 (polling.ram 0x3f))
    × ((j : ℕ) → 0x3f < j → p'.ram j ≡ polling.ram j)
    × (p'.controllers ≡ polling.controllers)
    × (p'.joybus_count ≡ (polling.joybus_count + 1) % 2 ^ 32)
process_joybus_example = process_joybus_lem polling

set_controller-process_channel_example :
    let (more, (next, p')) = process_channel 0 0 (set_controller 0 pad polling) in
    (more ≡ true)
    × (next ≡ 0 + 7)
    × (p'.ram (0 + 1) ≡ 4)
    × (p'.ram (0 + 3) * 256 + p'.ram (0 + 4) ≡ pad.buttons)
    × (p'.ram (0 + 5) ≡ pad.stick_x)
    × (p'.ram (0 + 6) ≡ pad.stick_y)
set_controller-process_channel_example =
    set_controller-process_channel 0 0 pad polling (omega arith) (omega arith) refl refl refl refl
      (omega arith)
