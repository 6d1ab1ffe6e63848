-- ===== src/Rdp/Draw.antt =====
-- src/rcp/rdp/rdp.cpp: the rectangles, and the execution of one command.
use emulador_n64emu.Base.{
  ℕ, zero, suc, ◌+◌, ◌-◌, ◌%◌, ◌^◌, min, max, ◌==◌, if◌then◌else◌, switch, Bool, true, false, none,
  some, [], ◌∷◌,
}
use emulador_n64emu.Mi
use emulador_n64emu.Mi.{Mi, dp_intr}
use emulador_n64emu.Cpu.Word.{sext, shift_right_signed}
use emulador_n64emu.Rdp.{Rdp, RdpInterface, opcode}
use emulador_n64emu.Rdp.Raster.{
  Raster, field, fx10_2_floor, cmd_set_color_image, cmd_set_texture_image, cmd_set_scissor,
  cmd_set_fill_color, cmd_set_blend_color, cmd_set_other_modes, cmd_set_tile, cmd_set_tile_size,
}
use emulador_n64emu.Rdp.Texture.{cmd_load_block, cmd_load_tile, sample_tile}
use emulador_n64emu.Rdp.Pixel.{write_color_pixel, write_fill_pixel}

-- The upper end of a range in 10.2, rounded up.
abbrev upper_end : ℕ → ℕ
upper_end v = fx10_2_floor v + (if v % 4 == 0 then 0 else 1)

-- The sides of a rectangle, in order.
pub record Sides : Type 0 where
  pub from_x : ℕ
  pub to_x : ℕ
  pub from_y : ℕ
  pub to_y : ℕ

unfoldable pub sides_of : ℕ → Sides
sides_of cmd =
    let xl = upper_end (field 44 12 cmd) in
    let yl = upper_end (field 32 12 cmd) in
    let xh = fx10_2_floor (field 12 12 cmd) in
    let yh = fx10_2_floor (field 0 12 cmd) in
    record { from_x = min xl xh; to_x = max xl xh; from_y = min yl yh; to_y = max yl yh }

-- The loop over the pixels of a row, and that over the rows.
unfoldable pub fill_row : ℕ → ℕ → ℕ → Raster → Raster
fill_row zero x y r = r
fill_row (suc left) x y r = fill_row left (x + 1) y (write_fill_pixel x y r)

unfoldable pub fill_rows : ℕ → ℕ → Sides → Raster → Raster
fill_rows zero y q r = r
fill_rows (suc left) y q r = fill_rows left (y + 1) q (fill_row (q.to_x - q.from_x) q.from_x y r)

unfoldable pub cmd_fill_rectangle : ℕ → Raster → Raster
cmd_fill_rectangle cmd r =
    let q = sides_of cmd in
    if r.color_image.valid then fill_rows (q.to_y - q.from_y) q.from_y q r else r

-- A pixel with the texel at `s_fx` and `t_fx`, words of 32 bits in 10.5.
unfoldable pub write_texel : ℕ → ℕ → ℕ → ℕ → ℕ → Raster → Raster
write_texel tile_idx s_fx t_fx x y r =
    elim (sample_tile tile_idx (shift_right_signed 32 s_fx 5) (shift_right_signed 32 t_fx 5) r) [
      | some (is32, texel) ↦
          record (write_color_pixel x y (if is32 then 0 else texel) (if is32 then texel else 0) is32
            r) { tex_pixels = (r.tex_pixels + 1) % 2 ^ 64 }
      | none ↦ r
    ]

-- What the loops over a textured rectangle hold fixed.
pub record Texturing : Type 0 where
  pub tile_idx : ℕ
  pub s0_fx : ℕ
  pub ds_per_px : ℕ
  pub dt_per_py : ℕ

unfoldable pub texture_row : ℕ → ℕ → ℕ → ℕ → ℕ → Texturing → Raster → Raster
texture_row zero x y s_fx t_fx t r = r
texture_row (suc left) x y s_fx t_fx t r =
    texture_row left (x + 1) y ((s_fx + t.ds_per_px) % 2 ^ 32) t_fx t
      (write_texel t.tile_idx s_fx t_fx x y r)

unfoldable pub texture_rows : ℕ → ℕ → ℕ → Sides → Texturing → Raster → Raster
texture_rows zero y t_fx q t r = r
texture_rows (suc left) y t_fx q t r =
    texture_rows left (y + 1) ((t_fx + t.dt_per_py) % 2 ^ 32) q t
      (texture_row (q.to_x - q.from_x) q.from_x y t.s0_fx t_fx t r)

-- A signed field of 16 bits as a word of 32.
abbrev signed_field : ℕ → ℕ → ℕ
signed_field shift lo = sext 16 (field shift 16 lo) % 2 ^ 32

unfoldable pub cmd_texture_rectangle : ℕ → ℕ → Bool → Raster → Raster
cmd_texture_rectangle hi lo flip r =
    let q = sides_of hi in
    let dsdx = signed_field (if flip then 0 else 16) lo in
    let dtdy = signed_field (if flip then 16 else 0) lo in
    let texturing : Texturing = record {
      tile_idx = field 24 3 hi;
      s0_fx = signed_field 48 lo;
      ds_per_px = shift_right_signed 32 dsdx 5;
      dt_per_py = shift_right_signed 32 dtdy 5;
    } in
    if r.color_image.valid
    then texture_rows (q.to_y - q.from_y) q.from_y (signed_field 32 lo) q texturing r
    else r

abbrev pub count_command : Raster → Raster
count_command r = record r { cmds_executed = (r.cmds_executed + 1) % 2 ^ 64 }

-- The commands that change the raster only. SyncLoad, SyncPipe, SyncTile and those that are not
-- implemented do nothing.
unfoldable pub execute_raster : ℕ → Raster → Raster
execute_raster cmd r =
    switch (opcode cmd)
      ((0x2d, cmd_set_scissor cmd r)
        ∷ (0x2f, cmd_set_other_modes cmd r)
        ∷ (0x36, cmd_fill_rectangle cmd r)
        ∷ (0x37, cmd_set_fill_color cmd r)
        ∷ (0x39, cmd_set_blend_color cmd r)
        ∷ (0x3f, cmd_set_color_image cmd r)
        ∷ (0x3d, cmd_set_texture_image cmd r)
        ∷ (0x35, cmd_set_tile cmd r)
        ∷ (0x32, cmd_set_tile_size cmd r)
        ∷ (0x33, cmd_load_block cmd r)
        ∷ (0x34, cmd_load_tile cmd r)
        ∷ [])
      r

-- SyncFull is 0x29.
unfoldable pub execute_command : ℕ → Rdp Raster → Rdp Raster
execute_command cmd p =
    let counted_raster = count_command p.rest in
    if opcode cmd == 0x29
    then record p { mi = Mi.raise dp_intr p.mi; rest = counted_raster }
    else record p { rest = execute_raster cmd counted_raster }

unfoldable pub execute_command_pair : ℕ → ℕ → Rdp Raster → Rdp Raster
execute_command_pair hi lo p =
    let r = count_command p.rest in
    record p {
      rest =
          if opcode hi == 0x24
          then cmd_texture_rectangle hi lo false r
          else if opcode hi == 0x25
          then cmd_texture_rectangle hi lo true r
          else r;
    }

-- The interface that a command list runs over; `read32` is that of the bus.
abbrev pub drawing : (ℕ → Raster → ℕ) → RdpInterface Raster
drawing read32 = record {
  read32 = read32;
  execute_command = execute_command;
  execute_command_pair = execute_command_pair;
}
