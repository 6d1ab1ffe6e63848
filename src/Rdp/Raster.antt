-- ===== src/Rdp/Raster.antt =====
-- src/rcp/rdp/rdp.cpp, include/n64/rcp/rdp/rdp.hpp: the settings of the RDP, and the commands that
-- set them.
use emulador_n64emu.Base.{ℕ, ◌+◌, ◌*◌, ◌/◌, ◌%◌, ◌^◌, ltb, Bool, true, false, update}
use emulador_n64emu.Rdram.{Rdram}

-- A colour image and a texture image have the same fields.
pub record Image : Type 0 where
  pub address : ℕ
  pub width : ℕ
  pub size : ℕ
  pub format : ℕ
  pub valid : Bool

pub record Tile : Type 0 where
  pub format : ℕ
  pub size : ℕ
  pub line : ℕ
  pub tmem : ℕ
  pub palette : ℕ
  pub ct : ℕ
  pub mt : ℕ
  pub cs : ℕ
  pub ms : ℕ
  pub mask_t : ℕ
  pub shift_t : ℕ
  pub mask_s : ℕ
  pub shift_s : ℕ
  pub sl : ℕ
  pub tl : ℕ
  pub sh : ℕ
  pub th : ℕ
  pub defined : Bool

pub record Scissor : Type 0 where
  pub xh : ℕ
  pub yh : ℕ
  pub xl : ℕ
  pub yl : ℕ
  pub is_set : Bool

-- `tiles` holds tile `i` at `i`, for `i` below 8, `tmem` byte `i` at `i`, for `i` below 4096. `rdram`
-- is the memory of the bus.
pub record Raster : Type 0 where
  pub color_image : Image
  pub texture_image : Image
  pub scissor : Scissor
  pub tiles : ℕ → Tile
  pub tmem : ℕ → ℕ
  pub fill_color : ℕ
  pub blend_color : ℕ
  pub other_modes : ℕ
  pub cmds_executed : ℕ
  pub fill_pixels : ℕ
  pub tex_pixels : ℕ
  pub rdram : Rdram

abbrev pub no_image : Image
no_image = record { address = 0; width = 0; size = 2; format = 0; valid = false }

abbrev pub no_tile : Tile
no_tile = record {
  format = 0;
  size = 2;
  line = 0;
  tmem = 0;
  palette = 0;
  ct = 0;
  mt = 0;
  cs = 0;
  ms = 0;
  mask_t = 0;
  shift_t = 0;
  mask_s = 0;
  shift_s = 0;
  sl = 0;
  tl = 0;
  sh = 0;
  th = 0;
  defined = false;
}

unfoldable pub reset : Raster → Raster
reset r = record {
  color_image = no_image;
  texture_image = no_image;
  scissor = record { xh = 0; yh = 0; xl = 320; yl = 240; is_set = false };
  tiles = λ i. no_tile;
  tmem = λ i. 0;
  fill_color = 0;
  blend_color = 0;
  other_modes = 0;
  cmds_executed = 0;
  fill_pixels = 0;
  tex_pixels = 0;
  rdram = r.rdram;
}

-- `(cmd >> shift) & mask` for a mask of `w` ones.
unfoldable pub field : ℕ → ℕ → ℕ → ℕ
field shift w cmd = cmd / 2 ^ shift % 2 ^ w

-- `fx10_2_floor`
abbrev pub fx10_2_floor : ℕ → ℕ
fx10_2_floor v = v / 4

unfoldable pub image_of : ℕ → Image
image_of cmd = record {
  format = field 53 3 cmd;
  size = field 51 2 cmd;
  width = field 32 10 cmd + 1;
  address = field 0 26 cmd / 8 * 8;
  valid = ltb 0 (field 32 10 cmd + 1);
}

unfoldable pub cmd_set_color_image : ℕ → Raster → Raster
cmd_set_color_image cmd r = record r { color_image = image_of cmd }

unfoldable pub cmd_set_texture_image : ℕ → Raster → Raster
cmd_set_texture_image cmd r = record r { texture_image = image_of cmd }

unfoldable pub cmd_set_scissor : ℕ → Raster → Raster
cmd_set_scissor cmd r = record r {
  scissor = record {
    xh = fx10_2_floor (field 44 12 cmd);
    yh = fx10_2_floor (field 32 12 cmd);
    xl = fx10_2_floor (field 12 12 cmd);
    yl = fx10_2_floor (field 0 12 cmd);
    is_set = true;
  };
}

unfoldable pub cmd_set_fill_color : ℕ → Raster → Raster
cmd_set_fill_color cmd r = record r { fill_color = field 0 32 cmd }

unfoldable pub cmd_set_blend_color : ℕ → Raster → Raster
cmd_set_blend_color cmd r = record r { blend_color = field 0 32 cmd }

unfoldable pub cmd_set_other_modes : ℕ → Raster → Raster
cmd_set_other_modes cmd r = record r { other_modes = cmd }

-- The tile that the command names.
abbrev pub tile_index : ℕ → ℕ
tile_index cmd = field 24 3 cmd

unfoldable pub set_tile : ℕ → Tile → Raster → Raster
set_tile i t r = record r { tiles = update r.tiles i t }

unfoldable pub cmd_set_tile : ℕ → Raster → Raster
cmd_set_tile cmd r =
    set_tile (tile_index cmd)
      (record (r.tiles (tile_index cmd)) {
        format = field 53 3 cmd;
        size = field 51 2 cmd;
        line = field 41 9 cmd;
        tmem = field 32 9 cmd;
        palette = field 20 4 cmd;
        ct = field 19 1 cmd;
        mt = field 18 1 cmd;
        mask_t = field 14 4 cmd;
        shift_t = field 10 4 cmd;
        cs = field 9 1 cmd;
        ms = field 8 1 cmd;
        mask_s = field 4 4 cmd;
        shift_s = field 0 4 cmd;
        defined = true;
      })
      r

unfoldable pub cmd_set_tile_size : ℕ → Raster → Raster
cmd_set_tile_size cmd r =
    set_tile (tile_index cmd)
      (record (r.tiles (tile_index cmd)) {
        sl = field 44 12 cmd;
        tl = field 32 12 cmd;
        sh = field 12 12 cmd;
        th = field 0 12 cmd;
        defined = true;
      })
      r
