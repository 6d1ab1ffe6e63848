-- ===== src/Rdp/Texture.antt =====
-- src/rcp/rdp/rdp.cpp: the texture memory, which LoadBlock and LoadTile fill from RDRAM, and a texel
-- of it.
use emulador_n64emu.Base.{
  ℕ, zero, suc, ◌+◌, ◌-◌, ◌*◌, ◌/◌, ◌%◌, ◌^◌, min, ◌==◌, ltb, leb, if◌then◌else◌, Bool, true, false,
  not, ◌||◌, Option, none, some, update,
}
use emulador_n64emu.Cpu.Word.{is_negative}
use emulador_n64emu.Rdram.{Rdram, load}
use emulador_n64emu.Rdp.Raster.{Raster, Tile, field, set_tile, tile_index}

-- The loop from byte `i` on, with `left` to go.
unfoldable pub copy_loop : ℕ → ℕ → ℕ → ℕ → Rdram → (ℕ → ℕ) → ℕ → ℕ
copy_loop zero i dram tmem_byte rdram tmem = tmem
copy_loop (suc left) i dram tmem_byte rdram tmem =
    copy_loop left (i + 1) dram tmem_byte rdram
      (update tmem ((tmem_byte + i) % 2 ^ 32 % 4096) (load ((dram + i) % 2 ^ 32) rdram))

unfoldable pub copy_rdram_to_tmem : ℕ → ℕ → ℕ → Raster → Raster
copy_rdram_to_tmem dram tmem_byte nbytes r =
    if r.rdram.size == 0
    then r
    else record r { tmem = copy_loop nbytes 0 dram tmem_byte r.rdram r.tmem }

-- Bytes of a texel of the texture image.
unfoldable pub bytes_of : ℕ → ℕ
bytes_of size = if size == 3 then 4 else if leb size 1 then 1 else 2

-- `b - a + 1` where this is not negative, and 1 otherwise.
abbrev span : ℕ → ℕ → ℕ
span a b = if leb a b then b - a + 1 else 1

unfoldable pub cmd_load_block : ℕ → Raster → Raster
cmd_load_block cmd r =
    let s0 = field 44 12 cmd / 4 in
    let s1 = field 12 12 cmd / 4 in
    let bpp = bytes_of r.texture_image.size in
    let tmem_byte = (r.tiles (tile_index cmd)).tmem * 8 in
    if r.texture_image.valid
    then copy_rdram_to_tmem ((r.texture_image.address + s0 * bpp) % 2 ^ 32) tmem_byte
        (min (span s0 s1 * bpp) 4096) r
    else r

-- The rows from `row` on, with `left` to go.
unfoldable pub row_loop : ℕ → ℕ → ℕ → ℕ → ℕ → ℕ → ℕ → Raster → Raster
row_loop zero row start pitch row_bytes tmem_byte line_bytes r = r
row_loop (suc left) row start pitch row_bytes tmem_byte line_bytes r =
    row_loop left (row + 1) start pitch row_bytes ((tmem_byte + line_bytes) % 2 ^ 32) line_bytes
      (copy_rdram_to_tmem ((start + row * pitch) % 2 ^ 32) tmem_byte row_bytes r)

unfoldable pub cmd_load_tile : ℕ → Raster → Raster
cmd_load_tile cmd r =
    let sl = field 44 12 cmd / 4 in
    let tl = field 32 12 cmd / 4 in
    let sh = field 12 12 cmd / 4 in
    let th = field 0 12 cmd / 4 in
    let i = tile_index cmd in
    let tile : Tile = record (r.tiles i) { sl = sl * 4; tl = tl * 4; sh = sh * 4; th = th * 4 } in
    let bpp = bytes_of r.texture_image.size in
    let row_bytes = span sl sh * bpp in
    let line_bytes = if tile.line == 0 then row_bytes else tile.line * 8 in
    let pitch = r.texture_image.width * bpp in
    if r.texture_image.valid
    then row_loop (span tl th) 0 (r.texture_image.address + tl * pitch + sl * bpp) pitch row_bytes
        (tile.tmem * 8) line_bytes (set_tile i tile r)
    else r

-- The mask of a coordinate, which is a signed word of 32 bits.
unfoldable pub apply_mask : ℕ → ℕ → ℕ
apply_mask v mask = if mask == 0 || leb 10 mask then v else v % 2 ^ mask

unfoldable pub line_bytes_of : Tile → ℕ → ℕ → Raster → ℕ
line_bytes_of tile s bpp r =
    if not (tile.line == 0)
    then tile.line * 8
    else if r.texture_image.valid
    then r.texture_image.width * bpp
    else (s + 1) % 2 ^ 32 * bpp % 2 ^ 32

-- A texel: whether it has 32 bits, and its value.
unfoldable pub texel_at : ℕ → ℕ → (ℕ → ℕ) → Bool × ℕ
texel_at size offset tmem =
    let p = tmem offset / 8 in
    if size == 2
    then (false, tmem offset * 2 ^ 8 + tmem (offset + 1))
    else if size == 3
    then (
      true,
      tmem offset * 2 ^ 24
          + tmem (offset + 1) * 2 ^ 16
          + tmem (offset + 2) * 2 ^ 8
          + tmem (offset + 3),
    )
    else (false, p * 2 ^ 11 + p * 2 ^ 6 + p * 2 + 1)

unfoldable pub sample_tile : ℕ → ℕ → ℕ → Raster → Option (Bool × ℕ)
sample_tile tile_idx s t r =
    let tile = r.tiles (tile_idx % 8) in
    let u = apply_mask s tile.mask_s in
    let v = apply_mask t tile.mask_t in
    let size = if tile.defined then tile.size else r.texture_image.size in
    let bpp = bytes_of size in
    let offset = (tile.tmem * 8 + v * line_bytes_of tile u bpp r + u * bpp) % 2 ^ 32 in
    if is_negative 32 u || is_negative 32 v
    then none
    else if ltb 4096 ((offset + bpp) % 2 ^ 32)
    then none
    else some (texel_at size offset r.tmem)
