-- ===== src/Rdp.antt =====
-- src/rcp/rdp/rdp.cpp, include/n64/rcp/rdp/rdp.hpp: the command lists of the RDP, read from RDRAM
-- or from the DMEM of the RSP. The list runs over an interface to the single commands, which Draw
-- fills.
pub mod Commands
pub mod Raster
pub mod Texture
pub mod Pixel
pub mod Draw
pub mod Confined
mod Tests
use emulador_n64emu.Base.{
  ℕ, zero, suc, ◌+◌, ◌-◌, ◌*◌, ◌/◌, ◌%◌, ◌^◌, ◌==◌, ltb, leb, if◌then◌else◌, Bool, true, false, not,
  ◌&&◌, ◌||◌,
}
use emulador_n64emu.Mi.{Mi}

-- `busy` is `busy_`, `mi` the interrupt lines, `rest` all else: the settings of the RDP, the tiles
-- and the memory.
pub record Rdp (R : Type 0) : Type 0 where
  pub busy : Bool
  pub mi : Mi
  pub rest : R

-- What `run_command_list` calls: `Bus::read32`, and the execution of one command of 64 bits or of
-- two.
pub record RdpInterface (R : Type 0) : Type 0 where
  pub read32 : ℕ → R → ℕ
  pub execute_command : ℕ → Rdp R → Rdp R
  pub execute_command_pair : ℕ → ℕ → Rdp R → Rdp R

unfoldable pub opcode : ℕ → ℕ
opcode cmd = cmd / 2 ^ 56 % 64

-- `TextureRectangle` or `TextureRectangleFlip`
abbrev pub is_pair : ℕ → Bool
is_pair cmd = opcode cmd == 0x24 || opcode cmd == 0x25

module _ {R : Type 0} (io : RdpInterface R) where
  unfoldable pub flush : Rdp R → Rdp R
  flush r = record r { busy = false }

  unfoldable pub read_cmd_word : ℕ → Bool → Rdp R → ℕ
  read_cmd_word addr xbus_dmem r =
      if xbus_dmem
      then io.read32 (0x0400_0000 + addr % 2 ^ 12) r.rest
      else io.read32 (addr % 2 ^ 24) r.rest

  unfoldable pub read_cmd64 : ℕ → Bool → Rdp R → ℕ
  read_cmd64 addr xbus_dmem r =
      read_cmd_word addr xbus_dmem r * 2 ^ 32 + read_cmd_word ((addr + 4) % 2 ^ 32) xbus_dmem r

  -- The command at `pc`: where the next one begins, and the state after it.
  unfoldable pub execute_at : ℕ → Bool → Rdp R → ℕ × Rdp R
  execute_at pc xbus_dmem r =
      let cmd = read_cmd64 pc xbus_dmem r in
      if is_pair cmd
      then (
        (pc + 16) % 2 ^ 32,
        io.execute_command_pair cmd (read_cmd64 ((pc + 8) % 2 ^ 32) xbus_dmem r) r,
      )
      else ((pc + 8) % 2 ^ 32, io.execute_command cmd r)

  -- The condition of the loop, and the `break` in front of a truncated rectangle.
  unfoldable pub goes_on : ℕ → ℕ → Bool → Rdp R → Bool
  goes_on pc stop xbus_dmem r =
      ltb pc stop && not (is_pair (read_cmd64 pc xbus_dmem r) && ltb stop ((pc + 16) % 2 ^ 32))

  -- The loop on fuel.
  unfoldable pub command_loop : ℕ → ℕ → ℕ → Bool → Rdp R → Rdp R
  command_loop zero pc stop xbus_dmem r = r
  command_loop (suc fuel) pc stop xbus_dmem r =
      let (next, after) = execute_at pc xbus_dmem r in
      let rest = command_loop fuel next stop xbus_dmem after in
      if goes_on pc stop xbus_dmem r then rest else r

  unfoldable pub run_command_list : ℕ → ℕ → Bool → Rdp R → Rdp R
  run_command_list start end xbus_dmem r =
      let pc = start / 8 * 8 in
      let stop = end / 8 * 8 in
      let ran = command_loop (stop - pc) pc stop xbus_dmem (record r { busy = true }) in
      if leb end start then r else record ran { busy = false }
