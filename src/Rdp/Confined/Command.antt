-- ===== src/Rdp/Confined/Command.antt =====
-- A command keeps the RDRAM outside of the colour image.
use emulador_n64emu.Base.{
  ℕ, zero, suc, ◌+◌, ◌-◌, ◌*◌, ◌/◌, ◌==◌, if◌then◌else◌, ◌≡◌, inl, inr, refl, sym, subst, Bool,
  Bool-cases, true, false, if_true, if_false,
}
use emulador_n64emu.Base.{no_more, ◌▷◌, switch-case}
use emulador_n64emu.Rdp.{Rdp, opcode}
use emulador_n64emu.Rdp.Raster.{
  Raster, Tile, field, tile_index, set_tile, cmd_set_color_image, cmd_set_texture_image,
  cmd_set_scissor, cmd_set_fill_color, cmd_set_blend_color, cmd_set_other_modes, cmd_set_tile,
  cmd_set_tile_size,
}
use emulador_n64emu.Rdp.Texture.{copy_rdram_to_tmem, cmd_load_block, cmd_load_tile, row_loop}
use emulador_n64emu.Rdp.Draw.{
  count_command, sides_of, cmd_fill_rectangle, cmd_texture_rectangle, execute_raster,
  execute_command, execute_command_pair,
}
use emulador_n64emu.Rdp.Confined.{IsBounded, image_of-IsBounded, IsKept}
use emulador_n64emu.Rdp.Confined.Drawing.{
  Draws-if, fill_rows-Draws, texture_rows-Draws, sides_of-fits, Draws,
}

-- What a command may do to a raster with a bounded image.
pub record IsConfined (r r' : Raster) : Type 0 where
  pub bounded : IsBounded r'.color_image
  pub kept : IsKept r.color_image r.rdram r'.rdram

module _ (r : Raster) (b : IsBounded r.color_image) where
  all-IsKept : IsKept r.color_image r.rdram r.rdram
  all-IsKept = record { same_size = refl; same_byte = λ a out. refl }

  at_start : Draws r.color_image r.rdram r
  at_start = record { same_image = refl; kept = all-IsKept }

  drawn : (r' : Raster) → Draws r.color_image r.rdram r' → IsConfined r r'
  drawn r' h = record { bounded = subst IsBounded (sym h.same_image) b; kept = h.kept }

  IsConfined-if :
      (t : Bool) (s s' : Raster)
      → IsConfined r s
      → IsConfined r s'
      → IsConfined r (if t then s else s')
  IsConfined-if true s s' h k = h
  IsConfined-if false s s' h k = k

  -- The settings, which leave the memory and the image.
  untouched : (r' : Raster) → r'.color_image ≡ r.color_image → r'.rdram ≡ r.rdram → IsConfined r r'
  untouched r' image memory = record {
    bounded = subst IsBounded (sym image) b;
    kept = subst (IsKept r.color_image r.rdram) (sym memory) all-IsKept;
  }

  idle : IsConfined r r
  idle = untouched r refl refl

  tile_set : (i : ℕ) (t : Tile) → Draws r.color_image r.rdram (set_tile i t r)
  unfolding set_tile
  tile_set i t = record { same_image = refl; kept = all-IsKept }

  copied :
      (dram tmem_byte nbytes : ℕ) (s : Raster)
      → Draws r.color_image r.rdram s
      → Draws r.color_image r.rdram (copy_rdram_to_tmem dram tmem_byte nbytes s)
  unfolding copy_rdram_to_tmem
  copied dram tmem_byte nbytes s h =
      Draws-if r.color_image b r.rdram (s.rdram.size == 0) _ _ h
        (record { same_image = h.same_image; kept = h.kept })

  rows_copied :
      (left row start pitch row_bytes tmem_byte line_bytes : ℕ) (s : Raster)
      → Draws r.color_image r.rdram s
      → Draws r.color_image r.rdram (row_loop left row start pitch row_bytes tmem_byte line_bytes s)
  unfolding row_loop
  rows_copied zero row start pitch row_bytes tmem_byte line_bytes s h = h
  rows_copied (suc left) row start pitch row_bytes tmem_byte line_bytes s h =
      rows_copied left (row + 1) start pitch row_bytes _ line_bytes _
        (copied _ tmem_byte row_bytes s h)

  cmd_fill_rectangle-IsConfined : (cmd : ℕ) → IsConfined r (cmd_fill_rectangle cmd r)
  unfolding cmd_fill_rectangle
  cmd_fill_rectangle-IsConfined cmd =
      let q = sides_of cmd in
      IsConfined-if r.color_image.valid _ _
        (drawn _ (
          fill_rows-Draws r.color_image b r.rdram (q.to_y - q.from_y) q.from_y q r
            (sides_of-fits cmd) at_start))
        idle

  cmd_texture_rectangle-IsConfined :
      (hi lo : ℕ) (flip : Bool) → IsConfined r (cmd_texture_rectangle hi lo flip r)
  unfolding cmd_texture_rectangle
  cmd_texture_rectangle-IsConfined hi lo flip =
      let q = sides_of hi in
      IsConfined-if r.color_image.valid _ _
        (drawn _ (
          texture_rows-Draws r.color_image b r.rdram (q.to_y - q.from_y) q.from_y _ q _ r
            (sides_of-fits hi) at_start))
        idle

  cmd_load_block-IsConfined : (cmd : ℕ) → IsConfined r (cmd_load_block cmd r)
  unfolding cmd_load_block
  cmd_load_block-IsConfined cmd =
      IsConfined-if r.texture_image.valid _ _ (drawn _ (copied _ _ _ r at_start)) idle

  cmd_load_tile-IsConfined : (cmd : ℕ) → IsConfined r (cmd_load_tile cmd r)
  unfolding cmd_load_tile
  cmd_load_tile-IsConfined cmd =
      let sl = field 44 12 cmd / 4 in
      let tl = field 32 12 cmd / 4 in
      let sh = field 12 12 cmd / 4 in
      let th = field 0 12 cmd / 4 in
      let tile : Tile = record (r.tiles (tile_index cmd)) {
        sl = sl * 4;
        tl = tl * 4;
        sh = sh * 4;
        th = th * 4;
      } in
      IsConfined-if r.texture_image.valid _ _
        (drawn _ (
          rows_copied _ _ _ _ _ _ _ (set_tile (tile_index cmd) tile r)
            (tile_set (tile_index cmd) tile)))
        idle

  execute_raster-IsConfined : (cmd : ℕ) → IsConfined r (execute_raster cmd r)
  unfolding execute_raster cmd_set_scissor cmd_set_other_modes cmd_set_fill_color
      cmd_set_blend_color cmd_set_color_image cmd_set_texture_image cmd_set_tile cmd_set_tile_size
      set_tile
  execute_raster-IsConfined cmd =
      switch-case (IsConfined r) _ _ _
        (untouched _ refl refl
          ▷ untouched _ refl refl
          ▷ cmd_fill_rectangle-IsConfined cmd
          ▷ untouched _ refl refl
          ▷ untouched _ refl refl
          ▷ record { bounded = image_of-IsBounded cmd; kept = all-IsKept }
          ▷ untouched _ refl refl
          ▷ untouched (cmd_set_tile cmd r) refl refl
          ▷ untouched (cmd_set_tile_size cmd r) refl refl
          ▷ cmd_load_block-IsConfined cmd
          ▷ cmd_load_tile-IsConfined cmd
          ▷ no_more)
        idle

-- Where the address of the colour image is below 2^26 and its width at most 1024, as every image that
-- a command sets has them, any command and any pair of commands keep this, the size of RDRAM, and every
-- byte that lies in front of the image's address or past the size of RDRAM.
pub execute_command-IsConfined :
    (cmd lo : ℕ) (p : Rdp Raster)
    → IsBounded p.rest.color_image
    → IsConfined p.rest (execute_command cmd p).rest
      × IsConfined p.rest (execute_command_pair cmd lo p).rest
unfolding execute_command execute_command_pair
execute_command-IsConfined cmd lo p b =
    let r = count_command p.rest in
    let one = execute_raster-IsConfined r b cmd in
    let textured = λ (flip : Bool). cmd_texture_rectangle-IsConfined r b cmd lo flip in
    let two =
      IsConfined-if r b (opcode cmd == 0x24) _ _ (textured false)
        (IsConfined-if r b (opcode cmd == 0x25) _ _ (textured true) (idle r b)) in
    let single : IsConfined r (execute_command cmd p).rest =
      elim (Bool-cases (opcode cmd == 0x29)) [
        | inl e ↦ subst (λ (q : Rdp Raster). IsConfined r q.rest) (sym (if_true _ _ e)) (idle r b)
        | inr e ↦ subst (λ (q : Rdp Raster). IsConfined r q.rest) (sym (if_false _ _ e)) one
      ] in
    (
      record { bounded = single.bounded; kept = single.kept },
      record { bounded = two.bounded; kept = two.kept },
    )
