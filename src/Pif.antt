-- ===== src/Pif.antt =====
-- src/pif/pif.cpp, include/n64/pif/pif.hpp: the controllers and the joybus protocol that the PIF
-- speaks with them through its 64 bytes of RAM.
pub mod Channel
pub mod Joybus
mod Tests
use emulador_n64emu.Base.{
  ℕ, zero, suc, ◌+◌, ◌-◌, ◌/◌, ◌%◌, ◌^◌, ◌==◌, ltb, leb, if◌then◌else◌, Bool, true, false, ◌&&◌,
  ◌||◌, has_bit, set_bit, clear_bit, update,
}

-- `stick_x` and `stick_y` are the bytes of the signed values.
pub record ControllerState : Type 0 where
  pub buttons : ℕ
  pub stick_x : ℕ
  pub stick_y : ℕ
  pub present : Bool

-- `controllers` holds the controller of channel `i` at `i`, for `i` below 4, `ram` byte `i` of the
-- RAM at `i`, for `i` below 64.
pub record Pif : Type 0 where
  pub controllers : ℕ → ControllerState
  pub ram : ℕ → ℕ
  pub joybus_count : ℕ

abbrev pub no_input : Bool → ControllerState
no_input present = record { buttons = 0; stick_x = 0; stick_y = 0; present = present }

unfoldable pub reset : Pif → Pif
reset p = record { controllers = λ i. no_input (i == 0); ram = λ i. 0; joybus_count = 0 }

unfoldable pub set_controller : ℕ → ControllerState → Pif → Pif
set_controller channel state p =
    if ltb channel 4 then record p { controllers = update p.controllers channel state } else p

unfoldable pub controller : ℕ → Pif → ControllerState
controller channel p = if ltb channel 4 then p.controllers channel else no_input false

-- `kCtrlProcess` is bit 0.
abbrev pub process_requested : Pif → Bool
process_requested p = has_bit 0 (p.ram 0x3f)

-- The loop over `0xFF`, from `cursor` on, with `left` bytes to `0x3F`.
unfoldable pub skip_padding : ℕ → ℕ → (ℕ → ℕ) → ℕ
skip_padding zero cursor ram = cursor
skip_padding (suc left) cursor ram =
    let next = skip_padding left (cursor + 1) ram in if ram cursor == 0xff then next else cursor

-- `std::fill` with 0 of `n` bytes from `at` on.
unfoldable pub fill : ℕ → ℕ → (ℕ → ℕ) → ℕ → ℕ
fill zero at ram = ram
fill (suc n) at ram = fill n (at + 1) (update ram at 0)

-- The type and the status of a controller, at `at`.
abbrev pub put_info : ℕ → (ℕ → ℕ) → ℕ → ℕ
put_info at ram = update (update (update ram at 0x00) (at + 1) 0x05) (at + 2) 0x00

-- The buttons and the stick, at `at`.
abbrev pub put_state : ControllerState → ℕ → (ℕ → ℕ) → ℕ → ℕ
put_state pad at ram =
    update
      (update (update (update ram at (pad.buttons / 256 % 256)) (at + 1) (pad.buttons % 256))
        (at + 2) pad.stick_x)
      (at + 3) pad.stick_y

-- The response of `n` bytes at `at` of a controller that is present.
unfoldable pub respond : ℕ → ControllerState → ℕ → ℕ → (ℕ → ℕ) → ℕ → ℕ
respond cmd pad at n ram =
    if cmd == 0x00 || cmd == 0xff
    then if leb 3 n then fill (n - 3) (at + 3) (put_info at ram) else ram
    else if cmd == 0x01
    then if leb 4 n then fill (n - 4) (at + 4) (put_state pad at ram) else ram
    else fill n at ram

-- The RAM after the command at `cursor`, whose response of `n` bytes begins at `at`.
unfoldable pub answer : ControllerState → ℕ → ℕ → ℕ → ℕ → (ℕ → ℕ) → ℕ → ℕ
answer pad cmd cursor at n ram =
    if pad.present
    then respond cmd pad at n (update ram (cursor + 1) n)
    else fill n at (update (update ram (cursor + 1) n) (cursor + 1) (set_bit 7 n))

-- The command at `cursor`: its length and that of its response, and the bounds of both.
unfoldable pub process_command : ℕ → ℕ → Pif → Bool × (ℕ × Pif)
process_command channel cursor p =
    let n = p.ram (cursor + 1) % 64 in
    let sent = p.ram cursor % 64 in
    let at = cursor + 2 + sent in
    let cmd = if ltb 0 sent then p.ram (cursor + 2) else 0x00 in
    if leb 0x3f (cursor + 1)
    then (false, (cursor, p))
    else if ltb 0x3f (at + n)
    then (false, (cursor, p))
    else (true, (at + n, record p { ram = answer (p.controllers channel) cmd cursor at n p.ram }))

-- The channel at `cursor`, past the padding.
unfoldable pub process_at : ℕ → ℕ → Pif → Bool × (ℕ × Pif)
process_at channel cursor p =
    if leb 0x3f cursor
    then (false, (cursor, p))
    else if p.ram cursor == 0xfe
    then (false, (cursor, p))
    else if p.ram cursor == 0x00
    then if ltb (cursor + 1) 0x3f && p.ram (cursor + 1) == 0x00
      then (true, (cursor + 2, p))
      else (true, (cursor + 1, p))
    else if p.ram cursor == 0xfd
    then (true, (cursor + 1, p))
    else process_command channel cursor p

-- The Boolean is what the source returns, the number the new value of `cursor`.
unfoldable pub process_channel : ℕ → ℕ → Pif → Bool × (ℕ × Pif)
process_channel channel cursor p = process_at channel (skip_padding (0x3f - cursor) cursor p.ram) p

-- The loop from `channel` on, with `left` channels to go; its first result is `answered`.
unfoldable pub process_loop : ℕ → ℕ → ℕ → ℕ → Pif → ℕ × Pif
process_loop zero channel cursor answered p = (answered, p)
process_loop (suc left) channel cursor answered p =
    let (more, (next, p')) = process_channel channel cursor p in
    let count = if next == cursor then answered else answered + 1 in
    let rest = process_loop left (channel + 1) next count p' in
    if more then if leb 0x3f next then (count, p') else rest else (answered, p')

unfoldable pub process_joybus : Pif → ℕ × Pif
process_joybus p =
    let (answered, p') = process_loop 4 0 0 0 p in
    (
      answered,
      record p' {
        ram = update p'.ram 0x3f (clear_bit 0 (p'.ram 0x3f));
        joybus_count = (p'.joybus_count + 1) % 2 ^ 32;
      },
    )
